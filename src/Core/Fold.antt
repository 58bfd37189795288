-- ===== src/Core/Fold.antt =====
-- internal/core/fold.go: a comment's log, ordered and replayed to its snapshot as of a version.
pub mod Order
pub mod Reading
pub mod Snapshot
pub mod Verdict
use octo_doc.Base.{
  ◌-◌, ◌^◌, String, Bool, true, false, not, ◌&&◌, List, [], ◌∷◌, ◌++◌, Option, none, some, ◌==◌,
  if◌then◌else◌,
}
use octo_doc.Base.Int.{ℤ, pos, leb_ℤ, ltb_ℤ, eqb_ℤ}
use octo_doc.Base.Dict.{Dict, lookup}
use octo_doc.Core.Types.{
  AgentStatus, CommentEvent, Reactions, Comment, unresolved, ReplySnapshot, CommentSnapshot,
}
use octo_doc.Core.Runtime.{Clock, Machine}
use octo_doc.Core.Events.{events_of, dedup_events}
use octo_doc.Core.Legacy.{ensure_event_log}
use octo_doc.Core.Apply.{FoldState, apply_reaction, apply_comment_event}

-- `agentStatusEmoji`; "" for a verdict that is not in the map
abbrev pub agent_status_emoji : AgentStatus → String
agent_status_emoji s =
    if s == "applied"
    then "✅"
    else if s == "partial"
    then "🟡"
    else if s == "question"
    then "❓"
    else ""

-- `math.MaxInt` of a 64-bit build
abbrev pub version_latest : ℤ
version_latest = pos (2 ^ 63 - 1)

unfoldable pub is_finite_version : ℤ → Bool
is_finite_version v = leb_ℤ (pos 0) v && not (eqb_ℤ v version_latest)

-- `sort.SliceStable` by version: an event stays in front of a later one with the same version.
unfoldable pub insert_by_version : CommentEvent → List CommentEvent → List CommentEvent
insert_by_version e [] = e ∷ []
insert_by_version e (f ∷ es) =
    if ltb_ℤ f.at_version e.at_version then f ∷ insert_by_version e es else e ∷ f ∷ es

unfoldable pub sort_by_version : List CommentEvent → List CommentEvent
unfolding insert_by_version
sort_by_version [] = []
sort_by_version (e ∷ es) = insert_by_version e (sort_by_version es)

unfoldable pub ordered_events : List CommentEvent → List CommentEvent
unfolding dedup_events sort_by_version
ordered_events es = sort_by_version (dedup_events es)

unfoldable pub empty_snapshot : Comment → CommentSnapshot
empty_snapshot c = record {
  id = c.id;
  author = c.author;
  created = c.created;
  created_in = c.created_in;
  version = c.created_in;
  anchor = none;
  text = "";
  status = unresolved;
  applied_in = none;
  replies = [];
  reactions = [];
  deleted = false;
}

unfoldable pub start : Comment → FoldState
unfolding empty_snapshot
start c = record {
  snap = empty_snapshot c;
  reply_order = [];
  reply_by_id = [];
  agent_verdict = none;
}

-- whether `replay` applies an event when it reads as of `at`
unfoldable pub is_visible : ℤ → CommentEvent → Bool
unfolding is_finite_version
is_visible at e = is_finite_version e.at_version && leb_ℤ e.at_version at

unfoldable pub replay_events : ℤ → FoldState → List CommentEvent → FoldState
unfolding is_visible apply_comment_event
replay_events at st [] = st
replay_events at st (e ∷ es) =
    replay_events at (if is_visible at e then apply_comment_event st e else st) es

unfoldable pub replay : Comment → ℤ → FoldState
unfolding replay_events ordered_events start
replay c at = replay_events at (start c) (ordered_events (events_of c))

verdict_reactions : Option AgentStatus → Reactions → Reactions
verdict_reactions none r = r
verdict_reactions (some s) r =
    if agent_status_emoji s == ""
    then r
    else apply_reaction r (agent_status_emoji s) "odoc-agent" true

-- the replies that are there and not deleted, in the order of their ids
unfoldable pub live_replies : Dict ReplySnapshot → List String → List ReplySnapshot
live_replies by_id [] = []
live_replies by_id (id ∷ ids) =
    (elim (lookup id by_id) [ none ↦ [] | some r ↦ if r.deleted then [] else r ∷ [] ])
    ++ live_replies by_id ids

unfoldable pub finalize : FoldState → CommentSnapshot
unfolding verdict_reactions live_replies
finalize st = record st.snap {
  reactions = verdict_reactions st.agent_verdict st.snap.reactions;
  replies = live_replies st.reply_by_id st.reply_order;
}

-- `SnapshotAt` below its call of `EnsureEventLog`, which may change the comment
fold_log : Comment → ℤ → List CommentEvent → Option CommentSnapshot
fold_log c at [] = none
fold_log c at (e ∷ es) = if ltb_ℤ at c.created_in then none else some (finalize (replay c at))

abbrev pub read_version : ℤ → ℤ
read_version v = if is_finite_version v then v else version_latest

unfoldable pub fold_at : Comment → ℤ → Option CommentSnapshot
unfolding fold_log finalize replay
fold_at c v = fold_log c (read_version v) (events_of c)

module _ (clock : Clock) where
  unfoldable pub snapshot_at : Comment → ℤ → Machine → Option CommentSnapshot × Comment × Machine
  unfolding ensure_event_log fold_at
  snapshot_at c v m = let (c', _, m') = ensure_event_log clock c m in (fold_at c' v, c', m')

  unfoldable pub snapshot_list :
      List Comment → ℤ → Machine → List CommentSnapshot × List Comment × Machine
  unfolding snapshot_at
  snapshot_list [] v m = ([], [], m)
  snapshot_list (c ∷ cs) v m =
      let (s, c', m₁) = snapshot_at c v m in
      let (snaps, cs', m₂) = snapshot_list cs v m₁ in
      let alive : List CommentSnapshot = elim s [
        | none ↦ []
        | some snap ↦ if snap.deleted then [] else snap ∷ []
      ] in
      (alive ++ snaps, c' ∷ cs', m₂)

  unfoldable pub history_list :
      List Comment → Machine → List CommentSnapshot × List Comment × Machine
  unfolding snapshot_list
  history_list cs m = snapshot_list cs version_latest m
