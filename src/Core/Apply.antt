-- ===== src/Core/Apply.antt =====
-- internal/core/fold.go: the state of a fold, and what each kind of event does to it.
pub mod Toggle
pub mod Invariant
use octo_doc.Base.{
  String, Bool, true, false, not, ◌&&◌, List, [], ◌∷◌, ◌++◌, Option, none, some, ◌==◌, member,
  if◌then◌else◌,
}
use octo_doc.Base.Int.{ℤ}
use octo_doc.Base.Dict.{Dict, lookup, insert, delete}
use octo_doc.Core.Types.{
  EventKind, AgentStatus, ReplySeed, CommentEvent, Reactions, unresolved, applied, ReplySnapshot,
  CommentSnapshot,
}

pub record FoldState : Type 0 where
  pub snap : CommentSnapshot
  pub reply_order : List String
  pub reply_by_id : Dict ReplySnapshot
  pub agent_verdict : Option AgentStatus

-- `reactions[emoji]`, nil for a missing key
abbrev pub users_of : Reactions → String → List String
users_of r emoji = elim (lookup emoji r) [ none ↦ [] | some users ↦ users ]

-- `append(users[:idx], users[idx+1:]...)` at the first index of `by`
unfoldable pub remove_first : String → List String → List String
remove_first by [] = []
remove_first by (u ∷ users) = if u == by then users else u ∷ remove_first by users

-- `reactions[emoji] = users`, or `delete(reactions, emoji)` where none is left
put_users : Reactions → String → List String → Reactions
put_users r emoji [] = delete emoji r
put_users r emoji (u ∷ users) = insert emoji (u ∷ users) r

unfoldable pub apply_reaction : Reactions → String → String → Bool → Reactions
unfolding remove_first put_users
apply_reaction r emoji by true =
    let users = users_of r emoji in
    insert emoji (if member by users then users else users ++ by ∷ []) r
apply_reaction r emoji by false =
    let users = users_of r emoji in
    put_users r emoji (if member by users then remove_first by users else users)

-- An `apply…Event` of the source returns whether it handled the event; here `none` is "not handled".
content_event : EventKind → FoldState → CommentEvent → Option FoldState
content_event EventKind.created st e =
    some (record st { snap = record st.snap { anchor = e.anchor; text = e.text } })
content_event EventKind.text_edited st e =
    some (record st { snap = record st.snap { text = e.text } })
content_event EventKind.anchor_changed st e = some (elim e.reset_status [
  | some true ↦ record st {
    snap = record st.snap { anchor = e.anchor; status = unresolved; applied_in = none };
  }
  | _ ↦ record st { snap = record st.snap { anchor = e.anchor } }
])
content_event _ st e = none

abbrev status_or : String → Option AgentStatus → Option AgentStatus
status_or s d = if s == "" then d else some s

status_event : EventKind → FoldState → CommentEvent → Option FoldState
status_event EventKind.marked_applied st e =
    let version : ℤ = elim e.applied_in [ none ↦ e.at_version | some v ↦ v ] in
    some (record st {
      snap = record st.snap { status = applied; applied_in = some version };
      agent_verdict = status_or e.agent_status (some "applied");
    })
status_event EventKind.marked_open st e = some (record st {
  snap = record st.snap { status = unresolved; applied_in = none };
  agent_verdict = status_or e.agent_status none;
})
status_event EventKind.deleted st e = some (record st { snap = record st.snap { deleted = true } })
status_event _ st e = none

abbrev names_both : CommentEvent → Bool
names_both e = not (e.emoji == "") && not (e.by == "")

react_parent : FoldState → CommentEvent → Bool → Option FoldState
react_parent st e add =
    if names_both e
    then some (record st {
      snap = record st.snap { reactions = apply_reaction st.snap.reactions e.emoji e.by add };
    })
    else none

parent_reaction : EventKind → FoldState → CommentEvent → Option FoldState
unfolding react_parent
parent_reaction EventKind.reaction_added st e = react_parent st e true
parent_reaction EventKind.reaction_removed st e = react_parent st e false
parent_reaction _ st e = none

new_reply : FoldState → CommentEvent → ReplySeed → FoldState
new_reply st e r = record st {
  reply_order = st.reply_order ++ r.id ∷ [];
  reply_by_id =
      insert r.id
        (record {
          id = r.id;
          parent_id = st.snap.id;
          author = r.author;
          text = r.text;
          agent_status = status_or r.agent_status none;
          created = e.at;
          reactions = [];
          deleted = false;
        })
        st.reply_by_id;
}

add_reply : FoldState → CommentEvent → FoldState
unfolding new_reply
add_reply st e = elim e.reply [ none ↦ st | some r ↦ if r.id == "" then st else new_reply st e r ]

-- a write through the pointer `replyByID[e.ReplyID]`, if there is one
on_reply : FoldState → String → (ReplySnapshot → ReplySnapshot) → FoldState
on_reply st id f = elim (lookup id st.reply_by_id) [
  | none ↦ st
  | some r ↦ record st { reply_by_id = insert id (f r) st.reply_by_id }
]

react_reply : CommentEvent → Bool → ReplySnapshot → ReplySnapshot
react_reply e add r =
    if names_both e then record r { reactions = apply_reaction r.reactions e.emoji e.by add } else r

reply_event : EventKind → FoldState → CommentEvent → FoldState
unfolding add_reply on_reply react_reply
reply_event EventKind.reply_added st e = add_reply st e
reply_event EventKind.reply_text_edited st e =
    on_reply st e.reply_id (λ r. record r { text = e.text })
reply_event EventKind.reply_deleted st e = on_reply st e.reply_id (λ r. record r { deleted = true })
reply_event EventKind.reply_reaction_added st e = on_reply st e.reply_id (react_reply e true)
reply_event EventKind.reply_reaction_removed st e = on_reply st e.reply_id (react_reply e false)
reply_event _ st e = st

or_else : Option FoldState → FoldState → FoldState
or_else (some st) other = st
or_else none other = other

unfoldable pub apply_comment_event : FoldState → CommentEvent → FoldState
unfolding content_event status_event parent_reaction reply_event or_else
apply_comment_event st e = or_else (content_event e.kind st e) (
    or_else (status_event e.kind st e)
      (or_else (parent_reaction e.kind st e) (reply_event e.kind st e)))
