-- ===== src/Core/Legacy/Settled.antt =====
-- The migration settles a comment: a second one changes nothing.
use octo_doc.Base.{
  false, List, [], ◌∷◌, Option, none, some, ◌≡◌, refl, sym, subst, ◌==◌, arith, inl, inr,
  Bool-cases,
}
use octo_doc.Core.Types.{CommentEvent, Comment}
use octo_doc.Core.Runtime.{Machine, Clock}
use octo_doc.Core.Events.{backfill_eids}
use octo_doc.Core.Events.Backfill.{
  with_log, HaveEids, backfill_eids-HaveEids, backfill_eids_of_HaveEids,
}
use octo_doc.Core.Legacy.{
  legacy_to_events, migrated_created_in, migrated_created, migrate, ensure_event_log,
  ensure_migrated,
}

module _ (clock : Clock) where
  -- a comment that the migration leaves alone, whatever the machine
  abbrev pub IsSettled : Comment → Type 0
  IsSettled c = (m : Machine) → ensure_event_log clock c m ≡ (c, false, m)

  pub with_log-IsSettled :
      (c : Comment) (es : List CommentEvent) → HaveEids es → IsSettled (with_log c es)
  unfolding ensure_event_log
  with_log-IsSettled c es h m = ground (arith, backfill_eids_of_HaveEids clock es m h)

  -- the log that a legacy comment gets
  legacy_log : Comment → Machine → List CommentEvent
  legacy_log c m =
      let (legacy, m₁) = legacy_to_events clock c m in (backfill_eids clock legacy m₁).0

  -- the comment with the other fields that the migration sets
  dated : Comment → Machine → Comment
  unfolding legacy_log
  dated c m =
      let (legacy, m₁) = legacy_to_events clock c m in
      record c {
        created_in = migrated_created_in clock c (legacy_log c m);
        created = (migrated_created clock c (legacy_log c m) (backfill_eids clock legacy m₁).2).0;
      }

  migrate-IsSettled :
      (c : Comment) (m : Machine) → c.events ≡ none → IsSettled (migrate clock c m).0
  unfolding migrate legacy_log dated
  migrate-IsSettled c m h = elim (Bool-cases (c.id == "")) [
    | inl p ↦ rw (p, migrate) (λ n. unfold ensure_event_log in ground arith)
    | inr p ↦
        rw (p, migrate)
          (with_log-IsSettled (dated c m) (legacy_log c m) (
            backfill_eids-HaveEids clock (legacy_to_events clock c m).0
              (legacy_to_events clock c m).1))
  ]

  ensure_event_log-IsSettled :
      (c : Comment) (m : Machine) → IsSettled (ensure_event_log clock c m).0
  unfolding ensure_event_log
  ensure_event_log-IsSettled c m = cases c.events refl
    where
      none_case : c.events ≡ none → (ensure_event_log clock c m).0 ≡ (migrate clock c m).0
      none_case p = ground (arith, p)

      some_case :
          (es : List CommentEvent)
          → c.events ≡ some es
          → (ensure_event_log clock c m).0 ≡ with_log c (backfill_eids clock es m).0
      some_case es p = rw (p, ensure_event_log)

      cases :
          (o : Option (List CommentEvent)) → c.events ≡ o → IsSettled (ensure_event_log clock c m).0
      cases none p = subst (λ c'. IsSettled c') (sym (none_case p)) (migrate-IsSettled c m p)
      cases (some es) p =
          subst (λ c'. IsSettled c') (sym (some_case es p))
            (with_log-IsSettled c (backfill_eids clock es m).0 (backfill_eids-HaveEids clock es m))

  -- A second migration of the comments changes none of them, reports no change and reads neither
  -- the clock nor the counter of event ids.
  pub ensure_migrated_idem :
      (cs : List Comment) (m n : Machine)
      → ensure_migrated clock (ensure_migrated clock cs m).0 n
        ≡ ((ensure_migrated clock cs m).0, false, n)
  unfolding ensure_migrated
  ensure_migrated_idem [] m n = refl
  ensure_migrated_idem (c ∷ cs) m n = ground (
    arith,
    ensure_event_log-IsSettled c m n,
    ensure_migrated_idem cs (ensure_event_log clock c m).2 n,
  )
