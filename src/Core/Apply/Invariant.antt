-- ===== src/Core/Apply/Invariant.antt =====
-- The state of a fold is well formed after every event: what a snapshot always satisfies.
use octo_doc.Base.{String, Bool, true, false, Option, none, some, ◌≡◌, refl, ◌==◌, if◌then◌else◌}
use octo_doc.Base.Int.{ℤ}
use octo_doc.Base.Dict.{lookup, insert, AllValues, insert-AllValues, lookup-AllValues}
use octo_doc.Core.Types.{
  EventKind, ReplySeed, CommentEvent, Status, unresolved, applied, ReplySnapshot,
}
use octo_doc.Core.Apply.{
  FoldState, names_both, content_event, status_event, react_parent, parent_reaction, new_reply,
  add_reply, on_reply, react_reply, reply_event, or_else, apply_reaction, apply_comment_event,
}
use octo_doc.Core.Apply.Toggle.{IsReactions, apply_reaction-IsReactions}

-- a comment is applied in a version exactly while its status is "applied"
abbrev pub StatusAgrees : Status → Option ℤ → Type 0
StatusAgrees unresolved none = Unit
StatusAgrees unresolved (some v) = ⊥
StatusAgrees applied none = ⊥
StatusAgrees applied (some v) = Unit

-- a reply names its comment, and its reactions are well formed
pub record IsReply (parent : String) (r : ReplySnapshot) : Type 0 where
  pub parent_id : r.parent_id ≡ parent
  pub reactions : IsReactions r.reactions

pub record IsValid (st : FoldState) : Type 0 where
  pub status : StatusAgrees st.snap.status st.snap.applied_in
  pub reactions : IsReactions st.snap.reactions
  pub replies : AllValues (IsReply st.snap.id) st.reply_by_id

abbrev ValidOption : Option FoldState → Type 0
ValidOption none = Unit
ValidOption (some st) = IsValid st

or_else-IsValid :
    (o : Option FoldState) (st : FoldState) → ValidOption o → IsValid st → IsValid (or_else o st)
unfolding or_else
or_else-IsValid none st h k = k
or_else-IsValid (some s) st h k = h

content_event-IsValid :
    (k : EventKind) (st : FoldState) (e : CommentEvent)
    → IsValid st
    → ValidOption (content_event k st e)
unfolding content_event
content_event-IsValid EventKind.created st e v = record {
  status = v.status;
  reactions = v.reactions;
  replies = v.replies;
}
content_event-IsValid EventKind.text_edited st e v = record {
  status = v.status;
  reactions = v.reactions;
  replies = v.replies;
}
content_event-IsValid EventKind.anchor_changed st e v = reset e.reset_status
  where
    reset :
        (o : Option Bool)
        → IsValid (elim o [
          | some true ↦ record st {
            snap = record st.snap { anchor = e.anchor; status = unresolved; applied_in = none };
          }
          | _ ↦ record st { snap = record st.snap { anchor = e.anchor } }
        ])
    reset (some true) = record { status = tt; reactions = v.reactions; replies = v.replies }
    reset (some false) = record { status = v.status; reactions = v.reactions; replies = v.replies }
    reset none = record { status = v.status; reactions = v.reactions; replies = v.replies }
content_event-IsValid _ st e v = tt

status_event-IsValid :
    (k : EventKind) (st : FoldState) (e : CommentEvent)
    → IsValid st
    → ValidOption (status_event k st e)
unfolding status_event
status_event-IsValid EventKind.marked_applied st e v = record {
  status = tt;
  reactions = v.reactions;
  replies = v.replies;
}
status_event-IsValid EventKind.marked_open st e v = record {
  status = tt;
  reactions = v.reactions;
  replies = v.replies;
}
status_event-IsValid EventKind.deleted st e v = record {
  status = v.status;
  reactions = v.reactions;
  replies = v.replies;
}
status_event-IsValid _ st e v = tt

react_parent-IsValid :
    (st : FoldState) (e : CommentEvent) (add : Bool)
    → IsValid st
    → ValidOption (react_parent st e add)
unfolding react_parent
react_parent-IsValid st e add v =
    elim (names_both e)
      as (λ b. ValidOption (
        if b
        then some (record st {
          snap = record st.snap { reactions = apply_reaction st.snap.reactions e.emoji e.by add };
        })
        else none)) [
          | true ↦ record {
            status = v.status;
            reactions = apply_reaction-IsReactions st.snap.reactions e.emoji e.by add v.reactions;
            replies = v.replies;
          }
          | false ↦ tt
        ]

parent_reaction-IsValid :
    (k : EventKind) (st : FoldState) (e : CommentEvent)
    → IsValid st
    → ValidOption (parent_reaction k st e)
unfolding parent_reaction
parent_reaction-IsValid EventKind.reaction_added st e v = react_parent-IsValid st e true v
parent_reaction-IsValid EventKind.reaction_removed st e v = react_parent-IsValid st e false v
parent_reaction-IsValid _ st e v = tt

on_reply-IsValid :
    (st : FoldState) (id : String) (f : ReplySnapshot → ReplySnapshot)
    → ((r : ReplySnapshot) → IsReply st.snap.id r → IsReply st.snap.id (f r))
    → IsValid st
    → IsValid (on_reply st id f)
unfolding on_reply
on_reply-IsValid st id f keeps v = found (lookup id st.reply_by_id) refl
  where
    found :
        (o : Option ReplySnapshot)
        → lookup id st.reply_by_id ≡ o
        → IsValid (elim o [
          | none ↦ st
          | some r ↦ record st { reply_by_id = insert id (f r) st.reply_by_id }
        ])
    found none p = v
    found (some r) p = record {
      status = v.status;
      reactions = v.reactions;
      replies =
          insert-AllValues (IsReply st.snap.id) id (f r) st.reply_by_id
            (keeps r (lookup-AllValues (IsReply st.snap.id) id st.reply_by_id r v.replies p))
            v.replies;
    }

react_reply-IsReply :
    (parent : String) (e : CommentEvent) (add : Bool) (r : ReplySnapshot)
    → IsReply parent r
    → IsReply parent (react_reply e add r)
unfolding react_reply
react_reply-IsReply parent e add r h =
    elim (names_both e)
      as (λ b.
        IsReply parent
          (if b then record r { reactions = apply_reaction r.reactions e.emoji e.by add } else r)) [
            | true ↦ record {
              parent_id = h.parent_id;
              reactions = apply_reaction-IsReactions r.reactions e.emoji e.by add h.reactions;
            }
            | false ↦ h
          ]

new_reply-IsValid :
    (st : FoldState) (e : CommentEvent) (r : ReplySeed) → IsValid st → IsValid (new_reply st e r)
unfolding new_reply
new_reply-IsValid st e r v = record {
  status = v.status;
  reactions = v.reactions;
  replies =
      insert-AllValues (IsReply st.snap.id) r.id _ st.reply_by_id
        (record { parent_id = refl; reactions = tt }) v.replies;
}

add_reply-IsValid : (st : FoldState) (e : CommentEvent) → IsValid st → IsValid (add_reply st e)
unfolding add_reply
add_reply-IsValid st e v = seed e.reply
  where
    seed :
        (o : Option ReplySeed)
        → IsValid (elim o [ none ↦ st | some r ↦ if r.id == "" then st else new_reply st e r ])
    seed none = v
    seed (some r) = elim (r.id == "") as (λ b. IsValid (if b then st else new_reply st e r)) [
      | true ↦ v
      | false ↦ new_reply-IsValid st e r v
    ]

reply_event-IsValid :
    (k : EventKind) (st : FoldState) (e : CommentEvent) → IsValid st → IsValid (reply_event k st e)
unfolding reply_event
reply_event-IsValid EventKind.reply_added st e v = add_reply-IsValid st e v
reply_event-IsValid EventKind.reply_text_edited st e v =
    on_reply-IsValid st e.reply_id _
      (λ r h. record { parent_id = h.parent_id; reactions = h.reactions }) v
reply_event-IsValid EventKind.reply_deleted st e v =
    on_reply-IsValid st e.reply_id _
      (λ r h. record { parent_id = h.parent_id; reactions = h.reactions }) v
reply_event-IsValid EventKind.reply_reaction_added st e v =
    on_reply-IsValid st e.reply_id _ (react_reply-IsReply st.snap.id e true) v
reply_event-IsValid EventKind.reply_reaction_removed st e v =
    on_reply-IsValid st e.reply_id _ (react_reply-IsReply st.snap.id e false) v
reply_event-IsValid _ st e v = v

-- Every event keeps the state of a fold well formed.
pub apply_comment_event-IsValid :
    (st : FoldState) (e : CommentEvent) → IsValid st → IsValid (apply_comment_event st e)
unfolding apply_comment_event
apply_comment_event-IsValid st e v =
    or_else-IsValid (content_event e.kind st e) _ (content_event-IsValid e.kind st e v) (
      or_else-IsValid (status_event e.kind st e) _ (status_event-IsValid e.kind st e v) (
        or_else-IsValid (parent_reaction e.kind st e) _ (parent_reaction-IsValid e.kind st e v)
          (reply_event-IsValid e.kind st e v)))
