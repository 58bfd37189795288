-- ===== src/Core/Legacy.antt =====
-- internal/core/events.go: the migration of legacy comments to event logs, and the compaction of
-- logs at publish time.
pub mod Settled
use Prim.Native.Nat.{Ordering}
use Prim.Native.String.{compare}
use octo_doc.Base.{
  String, Bool, true, false, ◌||◌, List, [], ◌∷◌, ◌++◌, Option, none, some, ◌==◌, eqb, length,
  if◌then◌else◌,
}
use octo_doc.Base.Int.{ℤ, pos}
use octo_doc.Base.Dict.{lookup}
use octo_doc.Core.Types.{EventKind, CommentEvent, zero_event, Reactions, RawReply, Comment}
use octo_doc.Core.Runtime.{Machine, Clock, read_iso}
use octo_doc.Core.Events.{backfill_eids, dedup_events}

-- `sortedKeys`: the keys in byte order
insert_key : String → List String → List String
insert_key k [] = k ∷ []
insert_key k (j ∷ js) = elim (compare j k) [ Ordering.lt ↦ j ∷ insert_key k js | _ ↦ k ∷ j ∷ js ]

unfoldable pub sorted_keys : Reactions → List String
unfolding insert_key
sorted_keys [] = []
sorted_keys ((k, users) ∷ r) = insert_key k (sorted_keys r)

reaction_events_of : EventKind → String → ℤ → String → String → List String → List CommentEvent
reaction_events_of kind reply_id v at emoji [] = []
reaction_events_of kind reply_id v at emoji (by ∷ users) =
    record zero_event {
      kind = kind;
      reply_id = reply_id;
      at_version = v;
      at = at;
      emoji = emoji;
      by = by;
    }
    ∷ reaction_events_of kind reply_id v at emoji users

reaction_events_at : EventKind → String → ℤ → String → Reactions → List String → List CommentEvent
unfolding reaction_events_of
reaction_events_at kind reply_id v at r [] = []
reaction_events_at kind reply_id v at r (emoji ∷ more) =
    reaction_events_of kind reply_id v at emoji
      (elim (lookup emoji r) [ none ↦ [] | some users ↦ users ])
    ++ reaction_events_at kind reply_id v at r more

-- `legacyReactionEvents`, with the kind and the reply's id that its two callers write afterwards
unfoldable pub legacy_reaction_events :
    EventKind → String → Reactions → ℤ → String → List CommentEvent
unfolding reaction_events_at sorted_keys lookup
legacy_reaction_events kind reply_id r v at =
    reaction_events_at kind reply_id v at r (sorted_keys r)

unfoldable pub legacy_reply : RawReply → ℤ → String → List CommentEvent
unfolding legacy_reaction_events
legacy_reply r v at =
    let rv : ℤ = elim r.version [ none ↦ v | some n ↦ n ] in
    let when = if r.created == "" then at else r.created in
    record zero_event {
      kind = EventKind.reply_added;
      at_version = rv;
      at = when;
      reply =
          some
            (record { id = r.id; author = r.author; text = r.text; agent_status = r.agent_status });
    }
    ∷ legacy_reaction_events EventKind.reply_reaction_added r.id r.reactions rv when

unfoldable pub legacy_replies : List (Option RawReply) → ℤ → String → List CommentEvent
unfolding legacy_reply
legacy_replies [] v at = []
legacy_replies (none ∷ rs) v at = legacy_replies rs v at
legacy_replies (some r ∷ rs) v at =
    (if r.id == "" then [] else legacy_reply r v at) ++ legacy_replies rs v at

legacy_status : Comment → ℤ → String → List CommentEvent
legacy_status c v at =
    if c.status == "applied"
    then (let applied_in : ℤ = elim c.applied_in [ none ↦ v | some n ↦ n ] in
        record zero_event {
          kind = EventKind.marked_applied;
          at_version = applied_in;
          at = at;
          applied_in = some applied_in;
          by = "odoc-agent";
          agent_status = "applied";
        }
        ∷ [])
    else []

module _ (clock : Clock) where
  -- `c.Created`, or the time
  created_at : Comment → Machine → String × Machine
  created_at c m =
      let (now, m') = read_iso clock m in if c.created == "" then (now, m') else (c.created, m)

  unfoldable pub legacy_to_events : Comment → Machine → List CommentEvent × Machine
  unfolding created_at legacy_status legacy_reaction_events legacy_replies
  legacy_to_events c m =
      let (at, m') = created_at c m in
      let v : ℤ = elim c.version [ none ↦ pos 1 | some n ↦ n ] in
      (
        record zero_event {
          kind = EventKind.created;
          at_version = v;
          at = at;
          anchor = c.anchor;
          text = elim c.text [ none ↦ "" | some t ↦ t ];
        }
            ∷ (legacy_status c v at
                ++ (legacy_reaction_events EventKind.reaction_added "" c.reactions v at
                    ++ legacy_replies c.replies v at)),
        m',
      )

  -- the fields that `EnsureEventLog` sets beside the log, by its first event
  migrated_created_in : Comment → List CommentEvent → ℤ
  migrated_created_in c (e ∷ _) = e.at_version
  migrated_created_in c [] = elim c.version [ none ↦ pos 1 | some n ↦ n ]

  migrated_created : Comment → List CommentEvent → Machine → String × Machine
  unfolding created_at
  migrated_created c (e ∷ _) m = (if c.created == "" then e.at else c.created, m)
  migrated_created c [] m = created_at c m

  -- `EnsureEventLog` on a comment with no log
  unfoldable pub migrate : Comment → Machine → Comment × Bool × Machine
  unfolding legacy_to_events backfill_eids migrated_created_in migrated_created
  migrate c m =
      let (legacy, m₁) = legacy_to_events c m in
      let (events, _, m₂) = backfill_eids clock legacy m₁ in
      let (created, m₃) = migrated_created c events m₂ in
      if c.id == "" then (c, false, m) else (
        record c {
          events = some events;
          created_in = migrated_created_in c events;
          created = created;
        },
        true,
        m₃,
      )

  unfoldable pub ensure_event_log : Comment → Machine → Comment × Bool × Machine
  unfolding backfill_eids migrate
  ensure_event_log c m = elim c.events [
    | none ↦ migrate c m
    | some es ↦
        let (es', changed, m') = backfill_eids clock es m in
        (record c { events = some es' }, changed, m')
  ]

  unfoldable pub ensure_migrated : List Comment → Machine → List Comment × Bool × Machine
  unfolding ensure_event_log
  ensure_migrated [] m = ([], false, m)
  ensure_migrated (c ∷ cs) m =
      let (c', changed, m₁) = ensure_event_log c m in
      let (cs', dirty, m₂) = ensure_migrated cs m₁ in (c' ∷ cs', changed || dirty, m₂)

  compact_log : Comment → List CommentEvent → Comment × Bool
  unfolding dedup_events
  compact_log c es =
      let compacted = dedup_events es in
      if eqb (length compacted) (length es)
      then (record c { events = some es }, false)
      else (record c { events = some compacted }, true)

  compact_comment : Comment → Machine → Comment × Bool × Machine
  unfolding compact_log backfill_eids
  compact_comment c m = elim c.events [
    | none ↦ (c, false, m)
    | some es ↦
        let (es', _, m') = backfill_eids clock es m in
        let (c', changed) = compact_log c es' in (c', changed, m')
  ]

  unfoldable pub compact_comments : List Comment → Machine → List Comment × Bool × Machine
  unfolding compact_comment
  compact_comments [] m = ([], false, m)
  compact_comments (c ∷ cs) m =
      let (c', changed, m₁) = compact_comment c m in
      let (cs', more, m₂) = compact_comments cs m₁ in (c' ∷ cs', changed || more, m₂)
