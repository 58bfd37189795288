-- ===== src/Core/Ops.antt =====
-- internal/core/ops.go: the operations on a slug's comments. A write through a pointer into the
-- list is a `set` at its index.
pub mod React
pub mod Merge
use octo_doc.Base.{
  ℕ, ◌+◌, String, Bool, true, false, not, List, [], ◌∷◌, ◌++◌, Option, none, some, ◌==◌, length,
  get_elem?, set, member, if◌then◌else◌,
}
use octo_doc.Base.Int.{ℤ}
use octo_doc.Core.Types.{ReplySeed, EventKind, CommentEvent, zero_event, Comment, CommentSnapshot}
use octo_doc.Core.Runtime.{Clock, Machine, read_iso}
use octo_doc.Core.Events.{backfill_eids, append_event}
use octo_doc.Core.Legacy.{ensure_event_log, ensure_migrated, compact_comments}
use octo_doc.Core.Apply.{users_of}
use octo_doc.Core.Fold.{snapshot_at}
use octo_doc.Core.Reconcile.{CaseFolding, reconcile_anchors}
use octo_doc.Core.Requests.{
  Body, snapshot, error, replied, reactions, done, wiped, merged, given, panic, OpResult, answer,
  not_found, OpKind, create, reply, patch_anchor, react, delete, raw_events, wipe, publish_merge,
  CommentOp, find_by_id, find_host, reactions_of,
}

abbrev pub Outcome : Type 0
Outcome = List Comment × OpResult × Machine

unfoldable pub react_kind : Bool → Bool → EventKind
react_kind true true = EventKind.reply_reaction_removed
react_kind true false = EventKind.reply_reaction_added
react_kind false true = EventKind.reaction_removed
react_kind false false = EventKind.reaction_added

-- the event of a toggle; `had` says whether the user has reacted already
unfoldable pub react_event : CommentOp → String → String → Bool → CommentEvent
unfolding react_kind
react_event op now reply_id had = record zero_event {
  kind = react_kind (not (reply_id == "")) had;
  at_version = op.version;
  at = now;
  emoji = op.emoji;
  by = op.by;
  reply_id = reply_id;
}

delete_event : CommentOp → String → Option ReplySeed → CommentEvent
delete_event op now (some _) = record zero_event {
  kind = EventKind.reply_deleted;
  at_version = op.version;
  at = now;
  reply_id = op.id;
  by = op.actor;
}
delete_event op now none = record zero_event {
  kind = EventKind.deleted;
  at_version = op.version;
  at = now;
  by = op.actor;
}

-- the ids in the set `have` before the loop
unfoldable pub ids_of : List Comment → List String
ids_of [] = []
ids_of (c ∷ cs) = if c.id == "" then ids_of cs else c.id ∷ ids_of cs

-- the answer of `opReact`, by the snapshot after it
unfoldable pub react_answer :
    Option CommentSnapshot × Comment × Machine → String → Comment × OpResult × Machine
unfolding reactions_of
react_answer (none, c, m) reply_id = (c, answer 200 panic, m)
react_answer (some fresh, c, m) reply_id =
    (c, answer 200 (reactions (reactions_of fresh reply_id)), m)

module _ (clock : Clock) where
  -- `AppendEvent` through a pointer into the list
  append_at : List Comment → ℕ → CommentEvent → Machine → List Comment × Machine
  unfolding append_event
  append_at cs i e m = elim (get_elem? cs i) [
    | none ↦ (cs, m)
    | some c ↦ let (c', m') = append_event clock c e m in (set cs i c', m')
  ]

  unfoldable pub op_create : List Comment → CommentOp → String → Machine → Outcome
  unfolding backfill_eids snapshot_at
  op_create cs op now m =
      let first = record zero_event {
        kind = EventKind.created;
        at_version = op.version;
        at = now;
        anchor = op.anchor;
        text = op.text;
      } in
      let (events, _, m₁) = backfill_eids clock (first ∷ []) m in
      let entry : Comment = record {
        id = op.id;
        author = op.author;
        created = now;
        created_in = op.version;
        events = some events;
        version = none;
        anchor = none;
        text = none;
        status = "";
        applied_in = none;
        replies = [];
        reactions = [];
      } in
      let (snap, entry', m₂) = snapshot_at clock entry op.version m₁ in
      (cs ++ entry' ∷ [], answer 200 (snapshot snap), m₂)

  unfoldable pub op_reply : List Comment → CommentOp → String → Machine → Outcome
  unfolding find_by_id append_at
  op_reply cs op now m = elim (find_by_id cs op.parent_id) [
    | none ↦ (cs, not_found "parent_not_found", m)
    | some i ↦
        let seed : ReplySeed = record {
          id = op.reply_id;
          author = op.author;
          text = op.text;
          agent_status = "";
        } in
        let (cs', m') =
          append_at cs i
            (record zero_event {
              kind = EventKind.reply_added;
              at_version = op.version;
              at = now;
              reply = some seed;
            })
            m in
        (cs', answer 200 (replied op.reply_id op.parent_id op.author op.text now op.version), m')
  ]

  -- a snapshot through a pointer into the list
  snapshot_in : List Comment → ℕ → ℤ → Machine → Option CommentSnapshot × List Comment × Machine
  unfolding snapshot_at
  snapshot_in cs i v m = elim (get_elem? cs i) [
    | none ↦ (none, cs, m)
    | some c ↦ let (snap, c', m') = snapshot_at clock c v m in (snap, set cs i c', m')
  ]

  unfoldable pub op_patch_anchor : List Comment → CommentOp → String → Machine → Outcome
  unfolding find_by_id append_at snapshot_in
  op_patch_anchor cs op now m = elim (find_by_id cs op.id) [
    | none ↦ (cs, not_found "not_found", m)
    | some i ↦
        let (cs₁, m₁) =
          append_at cs i
            (record zero_event {
              kind = EventKind.anchor_changed;
              at_version = op.version;
              at = now;
              reset_status = some op.reset_status;
              anchor = op.anchor;
              by = op.actor;
            })
            m in
        let (snap, cs₂, m₂) = snapshot_in cs₁ i op.version m₁ in
        (cs₂, answer 200 (snapshot snap), m₂)
  ]

  -- `opReact` behind its first snapshot
  unfoldable pub react_seen :
      Option CommentSnapshot × Comment × Machine
      → String
      → CommentOp
      → String
      → Comment × OpResult × Machine
  unfolding append_event react_event reactions_of snapshot_at react_answer
  react_seen (none, c, m) reply_id op now = (c, not_found "not_visible_at_version", m)
  react_seen (some s, c, m) reply_id op now =
      let had = member op.by (users_of (reactions_of s reply_id) op.emoji) in
      let (c', m') = append_event clock c (react_event op now reply_id had) m in
      react_answer (snapshot_at clock c' op.version m') reply_id

  -- `opReact` behind its search: `c` is the host, and the result has the host after the operation
  unfoldable pub react_host :
      Comment → String → CommentOp → String → Machine → Comment × OpResult × Machine
  unfolding snapshot_at react_seen
  react_host c reply_id op now m = react_seen (snapshot_at clock c op.version m) reply_id op now

  unfoldable pub op_react : List Comment → CommentOp → String → Machine → Outcome
  unfolding find_host react_host
  op_react cs op now m = elim (find_host cs op.comment_id) [
    | none ↦ (cs, not_found "not_found", m)
    | some (i, r) ↦ elim (get_elem? cs i) [
      | none ↦ (cs, not_found "not_found", m)
      | some c ↦
          let reply_id : String = elim r [ none ↦ "" | some _ ↦ op.comment_id ] in
          let (c', res, m') = react_host c reply_id op now m in (set cs i c', res, m')
    ]
  ]

  unfoldable pub op_delete : List Comment → CommentOp → String → Machine → Outcome
  unfolding find_host append_at delete_event
  op_delete cs op now m = elim (find_host cs op.id) [
    | none ↦ (cs, not_found "not_found", m)
    | some (i, r) ↦
        let (cs', m') = append_at cs i (delete_event op now r) m in (cs', answer 200 done, m')
  ]

  append_all : List Comment → ℕ → List CommentEvent → Machine → List Comment × Machine
  unfolding append_at
  append_all cs i [] m = (cs, m)
  append_all cs i (e ∷ es) m = let (cs', m') = append_at cs i e m in append_all cs' i es m'

  unfoldable pub op_raw_events : List Comment → CommentOp → Machine → Outcome
  unfolding find_by_id append_all
  op_raw_events cs op m = elim (find_by_id cs op.id) [
    | none ↦ (cs, not_found "not_found", m)
    | some i ↦
        let (cs', m') = append_all cs i op.events m in
        (cs', answer 200 (elim op.response_body [ none ↦ done | some b ↦ given b ]), m')
  ]

  -- the loop over the local comments: the list, the ids that it has, and how many came in
  unfoldable pub merge_local :
      List Comment → List String → ℕ → List Comment → Machine → List Comment × ℕ × Machine
  unfolding ensure_event_log
  merge_local cs have n [] m = (cs, n, m)
  merge_local cs have n (lc ∷ local) m =
      let skipped = merge_local cs have n local m in
      let (lc', _, m') = ensure_event_log clock lc m in
      let taken = merge_local (cs ++ lc' ∷ []) (lc.id ∷ have) (n + 1) local m' in
      if lc.id == "" then skipped else if member lc.id have then skipped else taken

  reconcile_merged : CaseFolding → List Comment → CommentOp → Machine → List Comment × Machine
  unfolding reconcile_anchors compact_comments
  reconcile_merged fold [] op m = ([], m)
  reconcile_merged fold (c ∷ cs) op m =
      let (cs₁, m₁) = reconcile_anchors fold clock (c ∷ cs) op.aids op.version m in
      let (cs₂, _, m₂) = compact_comments clock cs₁ m₁ in (cs₂, m₂)

  unfoldable pub op_publish_merge : CaseFolding → List Comment → CommentOp → Machine → Outcome
  unfolding merge_local ids_of reconcile_merged
  op_publish_merge fold cs op m =
      let (cs₁, n, m₁) = merge_local cs (ids_of cs) 0 op.local_comments m in
      let (cs₂, m₂) = reconcile_merged fold cs₁ op m₁ in (cs₂, answer 200 (merged n), m₂)

  unfoldable pub dispatch :
      CaseFolding → OpKind → List Comment → CommentOp → String → Machine → Outcome
  dispatch fold create cs op now m = op_create cs op now m
  dispatch fold reply cs op now m = op_reply cs op now m
  dispatch fold patch_anchor cs op now m = op_patch_anchor cs op now m
  dispatch fold react cs op now m = op_react cs op now m
  dispatch fold delete cs op now m = op_delete cs op now m
  dispatch fold raw_events cs op now m = op_raw_events cs op m
  dispatch fold wipe cs op now m =
      (cs, record { status = 200; body = wiped (length cs); wipe = true }, m)
  dispatch fold publish_merge cs op now m = op_publish_merge fold cs op m
  dispatch fold (OpKind.other k) cs op now m = (cs, answer 400 (error "unknown_op"), m)

  unfoldable pub apply_comment_op : CaseFolding → List Comment → CommentOp → Machine → Outcome
  unfolding dispatch ensure_migrated read_iso
  apply_comment_op fold cs op m =
      let (cs₁, _, m₁) = ensure_migrated clock cs m in
      let (now, m₂) = read_iso clock m₁ in
      if op.at == ""
      then dispatch fold op.kind cs₁ op now m₂
      else dispatch fold op.kind cs₁ op op.at m₁
