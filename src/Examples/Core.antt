-- ===== src/Examples/Core.antt =====
-- A log of three events, read and extended.
use mathlib.Core.List.{Perm}
use octo_doc.Base.{
  arith, String, true, false, ◌&&◌, List, [], ◌∷◌, ◌++◌, none, some, ◌≡◌, refl, subst, inl, inr,
  Bool-cases, eq_iff, ◌==◌, Distinct, if◌then◌else◌, keep,
}
use octo_doc.Base.Int.{ℤ, pos, eqb_ℤ}
use octo_doc.Core.Types.{EventKind, CommentEvent, zero_event, Comment, CommentSnapshot}
use octo_doc.Core.Runtime.{Clock, Machine}
use octo_doc.Core.Events.{dedup_events}
use octo_doc.Core.Events.Eids.{eids, find_last, first_eids}
use octo_doc.Core.Events.Dedup.{
  dedup_events_contract, dedup_events_absorbs, dedup_events-append_known,
}
use octo_doc.Core.Legacy.{ensure_migrated}
use octo_doc.Core.Legacy.Settled.{ensure_migrated_idem}
use octo_doc.Core.Apply.{apply_reaction, apply_comment_event}
use octo_doc.Core.Apply.Toggle.{has_reacted, has_reacted-apply_reaction}
use octo_doc.Core.Fold.{sort_by_version, is_visible, read_version, empty_snapshot, replay, fold_at}
use octo_doc.Core.Fold.Order.{IsSorted, sort_by_version_contract}
use octo_doc.Core.Events.Backfill.{with_log}
use octo_doc.Core.Fold.Reading.{fold_at-append_hidden, replay-append_current}
use octo_doc.Core.Fold.Snapshot.{IsSnapshot, fold_at-IsSnapshot}

abbrev pub made : CommentEvent
made = record zero_event { kind = EventKind.created; eid = "a"; at_version = pos 1; text = "typo" }

abbrev pub liked : CommentEvent
liked = record zero_event {
  kind = EventKind.reaction_added;
  eid = "b";
  at_version = pos 1;
  emoji = "+1";
  by = "ann";
}

abbrev pub closed : CommentEvent
closed = record zero_event { kind = EventKind.marked_applied; eid = "c"; at_version = pos 2 }

abbrev reopened : CommentEvent
reopened = record zero_event { kind = EventKind.marked_open; eid = "d"; at_version = pos 3 }

abbrev liked_again : CommentEvent
liked_again = record liked { at_version = pos 2 }

abbrev log : List CommentEvent
log = made ∷ liked ∷ closed ∷ []

abbrev pub comment : Comment
comment = record {
  id = "c1";
  author = none;
  created = "2024";
  created_in = pos 1;
  events = some log;
  version = none;
  anchor = none;
  text = none;
  status = "";
  applied_in = none;
  replies = [];
  reactions = [];
}

abbrev legacy : Comment
legacy = record comment {
  events = none;
  text = some "typo";
  reactions = ("+1", "ann" ∷ "bob" ∷ []) ∷ [];
}

abbrev pub clock : Clock
clock = record { iso = λ n. "now"; rfc3339 = λ n. "now"; unix_micro = λ n. n }

abbrev pub machine : Machine
machine = record { eids = 0; readings = 0 }

-- the snapshot in version 2
abbrev snap : CommentSnapshot
snap = elim (fold_at comment (pos 2)) [ some s ↦ s | none ↦ empty_snapshot comment ]

snap_lem : fold_at comment (pos 2) ≡ some snap
unfolding fold_at
snap_lem = refl

fold_at-IsSnapshot_example : IsSnapshot snap
fold_at-IsSnapshot_example = fold_at-IsSnapshot comment (pos 2) snap snap_lem

unseen : is_visible (read_version (pos 2)) reopened ≡ false
unfolding is_visible
unseen = refl

fold_at-append_hidden_example :
    fold_at (with_log comment (log ++ reopened ∷ [])) (pos 2)
    ≡ fold_at (with_log comment log) (pos 2)
unfolding eids
fold_at-append_hidden_example =
    fold_at-append_hidden comment made (liked ∷ closed ∷ []) reopened (pos 2) refl unseen

seen : is_visible (pos 3) reopened ≡ true
unfolding is_visible
seen = refl

replay-append_current_example :
    replay (with_log comment (log ++ reopened ∷ [])) (pos 3)
    ≡ apply_comment_event (replay (with_log comment log) (pos 3)) reopened
unfolding eids
replay-append_current_example = replay-append_current comment log reopened refl seen

has_reacted-apply_reaction_example :
    has_reacted (apply_reaction (("+1", "ann" ∷ "bob" ∷ []) ∷ []) "+1" "ann" false) "+1" "bob" ≡ (
      if "+1" == "+1" && "ann" == "bob"
      then false
      else has_reacted (("+1", "ann" ∷ "bob" ∷ []) ∷ []) "+1" "bob")
has_reacted-apply_reaction_example =
    has_reacted-apply_reaction (("+1", "ann" ∷ "bob" ∷ []) ∷ []) "+1" "ann" false "+1" "bob"
      (record { nonempty = λ e. cc; distinct = (refl, (refl, tt)) }, tt)

dedup_events_contract_example :
    (eids (dedup_events (log ++ liked_again ∷ [])) ≡ first_eids [] (log ++ liked_again ∷ []))
    × Distinct (eids (dedup_events (log ++ liked_again ∷ [])))
dedup_events_contract_example = dedup_events_contract (log ++ liked_again ∷ [])

-- A log that has "b" twice is merged with the events that it ends with.
abbrev long : List CommentEvent
long = log ++ liked_again ∷ []

replayed :
    (k : String) (f : CommentEvent)
    → find_last k (made ∷ liked_again ∷ []) ≡ some f
    → find_last k long ≡ some f
unfolding find_last
replayed k f h = elim (Bool-cases ("b" == k)) [
  | inl p ↦ ground (arith, h, p)
  | inr p ↦ elim (Bool-cases ("a" == k)) [
    | inl q ↦
        let same : "a" ≡ k = (eq_iff "a" k).0 q in
        subst (λ x. find_last x (made ∷ liked_again ∷ []) ≡ some f → find_last x long ≡ some f) same
          (λ e. e) h
    | inr q ↦ absurd (ground (arith, h, p, q))
  ]
]

dedup_events_absorbs_example :
    (dedup_events (long ++ made ∷ liked_again ∷ []) ≡ dedup_events long)
    × (find_last "b" (dedup_events (long ++ made ∷ liked_again ∷ [])) ≡ find_last "b" long)
unfolding eids
dedup_events_absorbs_example =
    dedup_events_absorbs long (made ∷ liked_again ∷ []) "b"
      (((refl, refl), ((refl, refl), tt)), replayed) refl

dedup_events-append_known_example :
    (eids (dedup_events (log ++ liked_again ∷ [])) ≡ eids (dedup_events log))
    × (find_last "b" (dedup_events (log ++ liked_again ∷ [])) ≡ some liked_again)
unfolding eids
dedup_events-append_known_example = dedup_events-append_known log liked_again refl

sort_by_version_contract_example :
    Perm (sort_by_version (closed ∷ made ∷ liked ∷ [])) (closed ∷ made ∷ liked ∷ [])
    × IsSorted (sort_by_version (closed ∷ made ∷ liked ∷ []))
    × ((v : ℤ)
        → keep (λ e. eqb_ℤ e.at_version v) (sort_by_version (closed ∷ made ∷ liked ∷ []))
          ≡ keep (λ e. eqb_ℤ e.at_version v) (closed ∷ made ∷ liked ∷ []))
sort_by_version_contract_example = sort_by_version_contract (closed ∷ made ∷ liked ∷ [])

ensure_migrated_idem_example :
    ensure_migrated clock (ensure_migrated clock (legacy ∷ comment ∷ []) machine).0 machine
    ≡ ((ensure_migrated clock (legacy ∷ comment ∷ []) machine).0, false, machine)
ensure_migrated_idem_example = ensure_migrated_idem clock (legacy ∷ comment ∷ []) machine machine
