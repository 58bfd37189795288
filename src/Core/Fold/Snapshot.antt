-- ===== src/Core/Fold/Snapshot.antt =====
-- What every snapshot satisfies, whatever the log holds.
use octo_doc.Base.{
  String, Bool, true, false, List, [], ◌∷◌, Option, none, some, ◌≡◌, refl, subst, ◌==◌, arith, All,
  All-append, if◌then◌else◌,
}
use octo_doc.Base.Int.{ℤ}
use octo_doc.Base.Dict.{Dict, lookup, AllValues, lookup-AllValues}
use octo_doc.Core.Types.{
  AgentStatus, CommentEvent, Comment, ReplySnapshot, CommentSnapshot, Reactions,
}
use octo_doc.Core.Events.{events_of}
use octo_doc.Core.Apply.{FoldState, apply_reaction, apply_comment_event}
use octo_doc.Core.Apply.Toggle.{IsReactions, apply_reaction-IsReactions}
use octo_doc.Core.Apply.Invariant.{StatusAgrees, IsReply, IsValid, apply_comment_event-IsValid}
use octo_doc.Core.Fold.{
  agent_status_emoji, is_visible, start, replay_events, ordered_events, replay, verdict_reactions,
  live_replies, finalize, fold_log, read_version, fold_at,
}

replay_events-IsValid :
    (at : ℤ) (st : FoldState) (es : List CommentEvent)
    → IsValid st
    → IsValid (replay_events at st es)
unfolding replay_events
replay_events-IsValid at st [] v = v
replay_events-IsValid at st (e ∷ es) v =
    replay_events-IsValid at (if is_visible at e then apply_comment_event st e else st) es
      (chosen (is_visible at e))
  where
    chosen : (b : Bool) → IsValid (if b then apply_comment_event st e else st)
    chosen true = apply_comment_event-IsValid st e v
    chosen false = v

start-IsValid : (c : Comment) → IsValid (start c)
unfolding start
start-IsValid c = record { status = tt; reactions = tt; replies = tt }

verdict_reactions-IsReactions :
    (s : Option AgentStatus) (r : Reactions) → IsReactions r → IsReactions (verdict_reactions s r)
unfolding verdict_reactions
verdict_reactions-IsReactions none r h = h
verdict_reactions-IsReactions (some s) r h =
    elim (agent_status_emoji s == "")
      as (λ b.
        IsReactions (if b then r else apply_reaction r (agent_status_emoji s) "odoc-agent" true)) [
          | true ↦ h
          | false ↦ apply_reaction-IsReactions r (agent_status_emoji s) "odoc-agent" true h
        ]

-- a reply that a snapshot of the comment `parent` shows
abbrev pub IsShown : String → ReplySnapshot → Type 0
IsShown parent r = (r.deleted ≡ false) × IsReply parent r

live_replies-IsShown :
    (parent : String) (by_id : Dict ReplySnapshot) (ids : List String)
    → AllValues (IsReply parent) by_id
    → All (IsShown parent) (live_replies by_id ids)
unfolding live_replies
live_replies-IsShown parent by_id [] h = tt
live_replies-IsShown parent by_id (id ∷ ids) h =
    All-append (IsShown parent) _ (live_replies by_id ids) (shown (lookup id by_id) refl)
      (live_replies-IsShown parent by_id ids h)
  where
    alive :
        (r : ReplySnapshot) (b : Bool)
        → r.deleted ≡ b
        → IsReply parent r
        → All (IsShown parent) (if b then [] else r ∷ [])
    alive r true p k = tt
    alive r false p k = ((p, k), tt)

    shown :
        (o : Option ReplySnapshot)
        → lookup id by_id ≡ o
        → All (IsShown parent) (elim o [ none ↦ [] | some r ↦ if r.deleted then [] else r ∷ [] ])
    shown none p = tt
    shown (some r) p = alive r r.deleted refl (lookup-AllValues (IsReply parent) id by_id r h p)

-- what a snapshot always satisfies
pub record IsSnapshot (s : CommentSnapshot) : Type 0 where
  pub status : StatusAgrees s.status s.applied_in
  pub reactions : IsReactions s.reactions
  pub replies : All (IsShown s.id) s.replies

finalize-IsSnapshot : (st : FoldState) → IsValid st → IsSnapshot (finalize st)
unfolding finalize
finalize-IsSnapshot st v = record {
  status = v.status;
  reactions = verdict_reactions-IsReactions st.agent_verdict st.snap.reactions v.reactions;
  replies = live_replies-IsShown st.snap.id st.reply_by_id st.reply_order v.replies;
}

fold_log-finalize :
    (c : Comment) (at : ℤ) (es : List CommentEvent) (s : CommentSnapshot)
    → fold_log c at es ≡ some s
    → finalize (replay c at) ≡ s
unfolding fold_log
fold_log-finalize c at [] s h = cc
fold_log-finalize c at (e ∷ es) s h = ground arith

pub replay-IsValid : (c : Comment) (at : ℤ) → IsValid (replay c at)
unfolding replay
replay-IsValid c at =
    replay_events-IsValid at (start c) (ordered_events (events_of c)) (start-IsValid c)

-- In every snapshot, of any log and version, the comment is applied in a version exactly while its
-- status is "applied", each reaction lists somebody and nobody twice, and the replies are not
-- deleted, name the comment as parent and have such reactions too.
pub fold_at-IsSnapshot :
    (c : Comment) (v : ℤ) (s : CommentSnapshot) → fold_at c v ≡ some s → IsSnapshot s
unfolding fold_at
fold_at-IsSnapshot c v s h =
    subst IsSnapshot (fold_log-finalize c (read_version v) (events_of c) s h)
      (finalize-IsSnapshot (replay c (read_version v)) (replay-IsValid c (read_version v)))
