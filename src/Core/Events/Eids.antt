-- ===== src/Core/Events/Eids.antt =====
-- The eids of a log: where each stands first, and the last event that has it.
use octo_doc.Base.{
  String, true, false, not, ◌&&◌, ◌||◌, List, [], ◌∷◌, ◌++◌, Option, none, some, ◌≡◌, refl, ◌==◌,
  eq_iff, inl, inr, arith, member, Distinct, Bool-cases, Option-cases, if◌then◌else◌,
}
use octo_doc.Base.Dict.{Dict, lookup, insert, lookup-insert}
use octo_doc.Core.Types.{CommentEvent}
use octo_doc.Core.Events.{last_by_eid}

-- the eids of a log that are not empty, in order
unfoldable pub eids : List CommentEvent → List String
eids [] = []
eids (e ∷ es) = if e.eid == "" then eids es else e.eid ∷ eids es

-- the last event with an eid
unfoldable pub find_last : String → List CommentEvent → Option CommentEvent
find_last k [] = none
find_last k (e ∷ es) = elim (find_last k es) [
  | some l ↦ some l
  | none ↦ if e.eid == k then some e else none
]

-- the eids of a log that are not in `seen`, each at its first place
unfoldable pub first_eids : List String → List CommentEvent → List String
first_eids seen [] = []
first_eids seen (e ∷ es) = elim (e.eid == "") [
  | true ↦ first_eids seen es
  | false ↦ elim (member e.eid seen) [
    | true ↦ first_eids seen es
    | false ↦ e.eid ∷ first_eids (e.eid ∷ seen) es
  ]
]

abbrev pub or_last : Option CommentEvent → Option CommentEvent → Option CommentEvent
or_last (some l) d = some l
or_last none d = d

pub lookup-last_by_eid :
    (k : String) (m : Dict CommentEvent) (es : List CommentEvent)
    → (k == "") ≡ false
    → lookup k (last_by_eid m es) ≡ or_last (find_last k es) (lookup k m)
unfolding last_by_eid find_last
lookup-last_by_eid k m [] h = refl
lookup-last_by_eid k m (e ∷ es) h = ground (
  arith,
  lookup-last_by_eid k (if e.eid == "" then m else insert e.eid e m) es,
  lookup-insert e.eid k e m,
  eq_iff e.eid k,
  eq_iff e.eid "",
  eq_iff k "",
)

pub find_last-eid :
    (k : String) (es : List CommentEvent) (l : CommentEvent) → find_last k es ≡ some l → l.eid ≡ k
unfolding find_last
find_last-eid k [] l h = cc
find_last-eid k (e ∷ es) l h = ground (arith, find_last-eid k es l, eq_iff e.eid k)

pub member-eids_empty : (es : List CommentEvent) → member "" (eids es) ≡ false
unfolding eids
member-eids_empty [] = refl
member-eids_empty (e ∷ es) = ground (arith, member-eids_empty es)

pub find_last_of_member :
    (k : String) (es : List CommentEvent)
    → member k (eids es) ≡ true
    → (l : CommentEvent) × (find_last k es ≡ some l)
unfolding eids find_last
find_last_of_member k [] h = cc
find_last_of_member k (e ∷ es) h = elim (Bool-cases (member k (eids es))) [
  | inl m ↦ let (l, p) = find_last_of_member k es m in (l, rw p)
  | inr m ↦ elim (Option-cases (find_last k es)) [
    | inl p ↦ (e, ground (arith, eq_iff e.eid k))
    | inr (l, p) ↦ (l, rw p)
  ]
]

pub member-first_eids :
    (k : String) (seen : List String) (es : List CommentEvent)
    → member k (first_eids seen es) ≡ (member k (eids es) && not (member k seen))
unfolding eids first_eids
member-first_eids k seen [] = refl
member-first_eids k seen (e ∷ es) =
    ground
      (arith, member-first_eids k seen es, member-first_eids k (e.eid ∷ seen) es, eq_iff e.eid k)

pub first_eids-Distinct :
    (seen : List String) (es : List CommentEvent) → Distinct (first_eids seen es)
unfolding first_eids
first_eids-Distinct seen [] = tt
first_eids-Distinct seen (e ∷ es) = elim (Bool-cases (e.eid == "")) [
  | inl p ↦ rw (p, first_eids) (first_eids-Distinct seen es)
  | inr p ↦ elim (Bool-cases (member e.eid seen)) [
    | inl q ↦ rw (p, q, first_eids) (first_eids-Distinct seen es)
    | inr q ↦
        rw (p, q, first_eids)
          (
            ground (arith, member-first_eids e.eid (e.eid ∷ seen) es, eq_iff e.eid e.eid),
            first_eids-Distinct (e.eid ∷ seen) es,
          )
  ]
]

pub find_last_of_not_member :
    (k : String) (es : List CommentEvent)
    → (k == "") ≡ false
    → member k (eids es) ≡ false
    → find_last k es ≡ none
unfolding eids find_last
find_last_of_not_member k [] h m = refl
find_last_of_not_member k (e ∷ es) h m =
    ground (arith, find_last_of_not_member k es h, eq_iff e.eid k, eq_iff e.eid "", eq_iff k "")

pub find_last-append :
    (k : String) (es : List CommentEvent) (e : CommentEvent)
    → find_last k (es ++ e ∷ []) ≡ (if e.eid == k then some e else find_last k es)
unfolding find_last
find_last-append k [] e = refl
find_last-append k (x ∷ es) e = ground (arith, find_last-append k es e)

pub eids-append : (es fs : List CommentEvent) → eids (es ++ fs) ≡ eids es ++ eids fs
unfolding eids
eids-append [] fs = refl
eids-append (e ∷ es) fs = ground (arith, eids-append es fs)

pub first_eids-append_known :
    (seen : List String) (es : List CommentEvent) (e : CommentEvent)
    → (member e.eid (eids es) || member e.eid seen) ≡ true
    → first_eids seen (es ++ e ∷ []) ≡ first_eids seen es
unfolding first_eids eids
first_eids-append_known seen [] e m = ground arith
first_eids-append_known seen (x ∷ es) e m = ground (
  arith,
  first_eids-append_known seen es e,
  first_eids-append_known (x.eid ∷ seen) es e,
  eq_iff x.eid e.eid,
  eq_iff x.eid "",
  eq_iff e.eid "",
)
