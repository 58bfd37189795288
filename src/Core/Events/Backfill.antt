-- ===== src/Core/Events/Backfill.antt =====
-- Every event gets an eid, and one that has an eid keeps it.
use octo_doc.Base.{false, List, [], ◌∷◌, ◌≡◌, refl, ◌==◌, arith, inl, inr, All, some, Bool-cases}
use octo_doc.Base.Text.{append-colon-ne-empty}
use octo_doc.Core.Types.{EventKind, CommentEvent, Comment}
use octo_doc.Core.Runtime.{Machine, Clock}
use octo_doc.Core.Events.{
  kind_name, reaction_eid, flag_eid, one_shot_eid, event_eid_of, event_eid, with_eid, backfill_eids,
}

-- the comment with a log in place of its own
abbrev pub with_log : Comment → List CommentEvent → Comment
with_log c es = record c { events = some es }

abbrev pub HasEid : CommentEvent → Type 0
HasEid e = (e.eid == "") ≡ false

abbrev pub HaveEids : List CommentEvent → Type 0
HaveEids = All HasEid

pub reaction_eid-ne-empty : (e : CommentEvent) → (reaction_eid e == "") ≡ false
unfolding reaction_eid
reaction_eid-ne-empty e = append-colon-ne-empty (kind_name e.kind) _

flag_eid-ne-empty : (e : CommentEvent) → (flag_eid e == "") ≡ false
unfolding flag_eid
flag_eid-ne-empty e = append-colon-ne-empty (kind_name e.kind) _

module _ (clock : Clock) where
  one_shot_eid-ne-empty :
      (e : CommentEvent) (m : Machine) → ((one_shot_eid clock e m).0 == "") ≡ false
  unfolding one_shot_eid
  one_shot_eid-ne-empty e m = append-colon-ne-empty (kind_name e.kind) _

  event_eid_of-ne-empty :
      (k : EventKind) (e : CommentEvent) (m : Machine)
      → ((event_eid_of clock k e m).0 == "") ≡ false
  unfolding event_eid_of
  event_eid_of-ne-empty EventKind.reaction_added e m = reaction_eid-ne-empty e
  event_eid_of-ne-empty EventKind.reaction_removed e m = reaction_eid-ne-empty e
  event_eid_of-ne-empty EventKind.marked_applied e m = flag_eid-ne-empty e
  event_eid_of-ne-empty EventKind.marked_open e m = flag_eid-ne-empty e
  event_eid_of-ne-empty EventKind.deleted e m = flag_eid-ne-empty e
  event_eid_of-ne-empty _ e m = one_shot_eid-ne-empty e m

  event_eid_lem :
      (e : CommentEvent) (m : Machine) → event_eid clock e m ≡ event_eid_of clock e.kind e m
  unfolding event_eid
  event_eid_lem e m = refl

  with_eid-HasEid : (e : CommentEvent) (m : Machine) → HasEid (with_eid clock e m).0
  unfolding with_eid
  with_eid-HasEid e m = elim (Bool-cases (e.eid == "")) [
    | inl p ↦ ground (arith, event_eid_of-ne-empty e.kind e m, event_eid_lem e m)
    | inr p ↦ ground arith
  ]

  pub with_eid_of_HasEid : (e : CommentEvent) (m : Machine) → HasEid e → with_eid clock e m ≡ (e, m)
  unfolding with_eid
  with_eid_of_HasEid e m h = ground arith

  pub backfill_eids-HaveEids :
      (es : List CommentEvent) (m : Machine) → HaveEids (backfill_eids clock es m).0
  unfolding backfill_eids
  backfill_eids-HaveEids [] m = tt
  backfill_eids-HaveEids (e ∷ es) m =
      (with_eid-HasEid e m, backfill_eids-HaveEids es (with_eid clock e m).1)

  pub backfill_eids_of_HaveEids :
      (es : List CommentEvent) (m : Machine)
      → HaveEids es
      → backfill_eids clock es m ≡ (es, false, m)
  unfolding backfill_eids
  backfill_eids_of_HaveEids [] m h = refl
  backfill_eids_of_HaveEids (e ∷ es) m h =
      ground (arith, with_eid_of_HasEid e m h.0, backfill_eids_of_HaveEids es m h.1)
