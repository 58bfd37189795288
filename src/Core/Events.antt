-- ===== src/Core/Events.antt =====
-- internal/core/events.go: event ids, the append to a log and its deduplication.
pub mod Eids
pub mod Dedup
pub mod Backfill
use octo_doc.Base.{
  String, Bool, true, false, ◌||◌, List, [], ◌∷◌, ◌++◌, none, some, ◌==◌, member, if◌then◌else◌,
}
use octo_doc.Base.Text.{concat}
use octo_doc.Base.Dict.{Dict, lookup, insert}
use octo_doc.Core.Types.{EventKind, CommentEvent, zero_event, Comment}
use octo_doc.Core.Runtime.{Machine, Clock, itoa, next_nonce}

unfoldable pub kind_name : EventKind → String
kind_name EventKind.created = "created"
kind_name EventKind.text_edited = "text_edited"
kind_name EventKind.anchor_changed = "anchor_changed"
kind_name EventKind.marked_applied = "marked_applied"
kind_name EventKind.marked_open = "marked_open"
kind_name EventKind.deleted = "deleted"
kind_name EventKind.reaction_added = "reaction_added"
kind_name EventKind.reaction_removed = "reaction_removed"
kind_name EventKind.reply_added = "reply_added"
kind_name EventKind.reply_text_edited = "reply_text_edited"
kind_name EventKind.reply_deleted = "reply_deleted"
kind_name EventKind.reply_reaction_added = "reply_reaction_added"
kind_name EventKind.reply_reaction_removed = "reply_reaction_removed"
kind_name (EventKind.other s) = s

-- A nil log is an empty one wherever the source ranges over it or appends to it.
abbrev pub events_of : Comment → List CommentEvent
events_of c = elim c.events [ none ↦ [] | some es ↦ es ]

unfoldable pub reaction_eid : CommentEvent → String
reaction_eid e = concat (kind_name e.kind ∷ ":" ∷ e.emoji ∷ ":" ∷ e.by ∷ [])

flag_eid : CommentEvent → String
flag_eid e = concat (kind_name e.kind ∷ ":" ∷ itoa e.at_version ∷ [])

module _ (clock : Clock) where
  one_shot_eid : CommentEvent → Machine → String × Machine
  one_shot_eid e m =
      let (nonce, m') = next_nonce clock m in
      (concat (kind_name e.kind ∷ ":" ∷ e.at ∷ ":" ∷ nonce ∷ []), m')

  event_eid_of : EventKind → CommentEvent → Machine → String × Machine
  event_eid_of EventKind.reaction_added e m = (reaction_eid e, m)
  event_eid_of EventKind.reaction_removed e m = (reaction_eid e, m)
  event_eid_of EventKind.marked_applied e m = (flag_eid e, m)
  event_eid_of EventKind.marked_open e m = (flag_eid e, m)
  event_eid_of EventKind.deleted e m = (flag_eid e, m)
  event_eid_of _ e m = one_shot_eid e m

  unfoldable pub event_eid : CommentEvent → Machine → String × Machine
  unfolding event_eid_of one_shot_eid reaction_eid flag_eid kind_name
  event_eid e m = event_eid_of e.kind e m

  -- An event with its eid, stamped if it has none.
  unfoldable pub with_eid : CommentEvent → Machine → CommentEvent × Machine
  with_eid e m =
      let (eid, m') = event_eid e m in if e.eid == "" then (record e { eid = eid }, m') else (e, m)

  unfoldable pub backfill_eids : List CommentEvent → Machine → List CommentEvent × Bool × Machine
  backfill_eids [] m = ([], false, m)
  backfill_eids (e ∷ es) m =
      let (e', m₁) = with_eid e m in
      let (es', changed, m₂) = backfill_eids es m₁ in (e' ∷ es', e.eid == "" || changed, m₂)

  unfoldable pub append_event : Comment → CommentEvent → Machine → Comment × Machine
  append_event c e m =
      let (e', m') = with_eid e m in (record c { events = some (events_of c ++ e' ∷ []) }, m')

-- the map of the first loop of `DedupEvents`
unfoldable pub last_by_eid : Dict CommentEvent → List CommentEvent → Dict CommentEvent
last_by_eid last [] = last
last_by_eid last (e ∷ es) = last_by_eid (if e.eid == "" then last else insert e.eid e last) es

-- its second loop; `emitted` holds the eids that are out
unfoldable pub emit : Dict CommentEvent → List String → List CommentEvent → List CommentEvent
emit last emitted [] = []
emit last emitted (e ∷ es) = elim (e.eid == "") [
  | true ↦ e ∷ emit last emitted es
  | false ↦ elim (member e.eid emitted) [
    | true ↦ emit last emitted es
    | false ↦
        (elim (lookup e.eid last) [ none ↦ zero_event | some l ↦ l ])
        ∷ emit last (e.eid ∷ emitted) es
  ]
]

unfoldable pub dedup_events : List CommentEvent → List CommentEvent
unfolding last_by_eid emit lookup insert
dedup_events es = emit (last_by_eid [] es) [] es
