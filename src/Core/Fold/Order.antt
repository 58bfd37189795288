-- ===== src/Core/Fold/Order.antt =====
-- The stable sort of a log by version, and the events that a reading as of a version applies.
use mathlib.Core.List.{Perm}
use mathlib.Core.List.Perm
use octo_doc.Base.{
  Bool, true, List, [], ◌∷◌, ◌≡◌, ◌∙◌, refl, sym, ap, arith, inl, inr, All, keep, Bool-cases,
  if◌then◌else◌,
}
use octo_doc.Base.Int.{ℤ, ltb_ℤ, leb_ℤ, eqb_ℤ, leb_ℤ-trans, ltb_ℤ-leb_ℤ, leb_ℤ_of_not_ltb_ℤ}
use octo_doc.Core.Types.{CommentEvent}
use octo_doc.Core.Fold.{insert_by_version, sort_by_version}

-- the version of `e` is at most that of each event of the list
abbrev pub IsBelow : CommentEvent → List CommentEvent → Type 0
IsBelow e = All (λ f. leb_ℤ e.at_version f.at_version ≡ true)

abbrev pub IsSorted : List CommentEvent → Type 0
IsSorted [] = Unit
IsSorted (e ∷ es) = IsBelow e es × IsSorted es

IsBelow-trans :
    (d e : CommentEvent) (es : List CommentEvent)
    → leb_ℤ d.at_version e.at_version ≡ true
    → IsBelow e es
    → IsBelow d es
IsBelow-trans d e [] p h = tt
IsBelow-trans d e (f ∷ es) p h =
    (leb_ℤ-trans d.at_version e.at_version f.at_version p h.0, IsBelow-trans d e es p h.1)

IsBelow-insert :
    (d e : CommentEvent) (es : List CommentEvent)
    → leb_ℤ d.at_version e.at_version ≡ true
    → IsBelow d es
    → IsBelow d (insert_by_version e es)
unfolding insert_by_version
IsBelow-insert d e [] p h = (p, tt)
IsBelow-insert d e (f ∷ es) p h = elim (Bool-cases (ltb_ℤ f.at_version e.at_version)) [
  | inl q ↦ rw (q, insert_by_version) (h.0, IsBelow-insert d e es p h.1)
  | inr q ↦ rw (q, insert_by_version) (p, h)
]

insert_by_version-IsSorted :
    (e : CommentEvent) (es : List CommentEvent) → IsSorted es → IsSorted (insert_by_version e es)
unfolding insert_by_version
insert_by_version-IsSorted e [] h = (tt, tt)
insert_by_version-IsSorted e (f ∷ es) h = elim (Bool-cases (ltb_ℤ f.at_version e.at_version)) [
  | inl q ↦
      rw (q, insert_by_version)
        (
          IsBelow-insert f e es (ltb_ℤ-leb_ℤ f.at_version e.at_version q) h.0,
          insert_by_version-IsSorted e es h.1,
        )
  | inr q ↦
      let p = leb_ℤ_of_not_ltb_ℤ f.at_version e.at_version q in
      rw (q, insert_by_version) ((p, IsBelow-trans e f es p h.0), (h.0, h.1))
]

pub sort_by_version-IsSorted : (es : List CommentEvent) → IsSorted (sort_by_version es)
unfolding sort_by_version
sort_by_version-IsSorted [] = tt
sort_by_version-IsSorted (e ∷ es) =
    insert_by_version-IsSorted e (sort_by_version es) (sort_by_version-IsSorted es)

insert_by_version-perm :
    (e : CommentEvent) (es : List CommentEvent) → Perm (insert_by_version e es) (e ∷ es)
unfolding insert_by_version
insert_by_version-perm e [] = Perm.refl (e ∷ [])
insert_by_version-perm e (f ∷ es) = elim (Bool-cases (ltb_ℤ f.at_version e.at_version)) [
  | inl q ↦
      rw (q, insert_by_version)
        (Perm.trans (Perm.cons f (insert_by_version-perm e es)) (Perm.swap e f es))
  | inr q ↦ rw (q, insert_by_version) (Perm.refl (e ∷ f ∷ es))
]

pub sort_by_version-perm : (es : List CommentEvent) → Perm (sort_by_version es) es
unfolding sort_by_version
sort_by_version-perm [] = Perm.refl []
sort_by_version-perm (e ∷ es) =
    Perm.trans (insert_by_version-perm e (sort_by_version es))
      (Perm.cons e (sort_by_version-perm es))

keep-IsBelow :
    (p : CommentEvent → Bool) (e : CommentEvent) (es : List CommentEvent)
    → IsBelow e es
    → IsBelow e (keep p es)
keep-IsBelow p e [] h = tt
keep-IsBelow p e (f ∷ es) h = elim (Bool-cases (p f)) [
  | inl q ↦ rw q (h.0, keep-IsBelow p e es h.1)
  | inr q ↦ rw q (keep-IsBelow p e es h.1)
]

insert_by_version_of_IsBelow :
    (e : CommentEvent) (es : List CommentEvent) → IsBelow e es → insert_by_version e es ≡ e ∷ es
unfolding insert_by_version
insert_by_version_of_IsBelow e [] h = refl
insert_by_version_of_IsBelow e (f ∷ es) h = ground arith

keep-insert_by_version :
    (p : CommentEvent → Bool) (e : CommentEvent) (es : List CommentEvent)
    → IsSorted es
    → keep p (insert_by_version e es) ≡ (if p e then insert_by_version e (keep p es) else keep p es)
unfolding insert_by_version
keep-insert_by_version p e [] h = refl
keep-insert_by_version p e (f ∷ es) h = elim (Bool-cases (ltb_ℤ f.at_version e.at_version)) [
  | inl q ↦ rw (q, insert_by_version) (ground (arith, keep-insert_by_version p e es h.1))
  | inr q ↦
      let le = leb_ℤ_of_not_ltb_ℤ f.at_version e.at_version q in
      rw (q, insert_by_version)
        (ap (λ l. if p e then l else keep p (f ∷ es))
          (sym (
            insert_by_version_of_IsBelow e (keep p (f ∷ es))
              (keep-IsBelow p e (f ∷ es) (le, IsBelow-trans e f es le h.0)))))
]

-- A filter and the sort may be exchanged.
pub keep-sort_by_version :
    (p : CommentEvent → Bool) (es : List CommentEvent)
    → keep p (sort_by_version es) ≡ sort_by_version (keep p es)
unfolding sort_by_version
keep-sort_by_version p [] = refl
keep-sort_by_version p (e ∷ es) =
    keep-insert_by_version p e (sort_by_version es) (sort_by_version-IsSorted es)
    ∙ ground (arith, keep-sort_by_version p es)

at_same_version : ℤ → CommentEvent → Bool
at_same_version v e = eqb_ℤ e.at_version v

at_same_version-IsBelow :
    (v : ℤ) (e : CommentEvent) (es : List CommentEvent)
    → at_same_version v e ≡ true
    → IsBelow e (keep (at_same_version v) es)
unfolding at_same_version
at_same_version-IsBelow v e [] h = tt
at_same_version-IsBelow v e (f ∷ es) h = elim (Bool-cases (at_same_version v f)) [
  | inl q ↦ rw q (ground arith, at_same_version-IsBelow v e es h)
  | inr q ↦ rw q (at_same_version-IsBelow v e es h)
]

sort_by_version_of_same :
    (v : ℤ) (es : List CommentEvent)
    → sort_by_version (keep (at_same_version v) es) ≡ keep (at_same_version v) es
unfolding sort_by_version
sort_by_version_of_same v [] = refl
sort_by_version_of_same v (e ∷ es) = elim (Bool-cases (at_same_version v e)) [
  | inl q ↦
      rw (q, sort_by_version_of_same v es)
        (insert_by_version_of_IsBelow e (keep (at_same_version v) es)
          (at_same_version-IsBelow v e es q))
  | inr q ↦ rw q (sort_by_version_of_same v es)
]

-- The sorted log is a permutation of the log, in ascending order of versions; the events of each
-- version keep their order.
pub sort_by_version_contract :
    (es : List CommentEvent)
    → Perm (sort_by_version es) es
      × IsSorted (sort_by_version es)
      × ((v : ℤ)
          → keep (λ e. eqb_ℤ e.at_version v) (sort_by_version es)
            ≡ keep (λ e. eqb_ℤ e.at_version v) es)
unfolding at_same_version
sort_by_version_contract es = (
  sort_by_version-perm es,
  sort_by_version-IsSorted es,
  λ v. keep-sort_by_version (at_same_version v) es ∙ sort_by_version_of_same v es,
)
