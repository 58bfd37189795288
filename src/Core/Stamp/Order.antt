-- ===== src/Core/Stamp/Order.antt =====
-- The order of the stamps: from the last open tag to the first.
use mathlib.Core.List.{Perm}
use mathlib.Core.List.Perm
use mathlib.Core.Path.{ap₂}
use octo_doc.Base.{
  ℕ, ◌≤◌, List, [], ◌∷◌, ◌≡◌, ◌⊎◌, refl, sym, inl, inr, arith, All, map, ltb, Bool-cases,
}
use octo_doc.Core.Stamp.Harvest.{Element}
use octo_doc.Core.Stamp.Places.{IsInside}
use octo_doc.Core.Stamp.Stamping.{Stamp, stamp_of, insert_stamp, sort_stamps}

-- Neither open tag stands inside the other one.
abbrev pub Disjoint : Element → Element → Type 0
Disjoint d e = (d.open_end ≤ e.open_start) ⊎ (e.open_end ≤ d.open_start)

abbrev pub AreDisjoint : List Element → Type 0
AreDisjoint [] = Unit {0}
AreDisjoint (e ∷ es) = All (Disjoint e) es × AreDisjoint es

-- Open tags from the last to the first, each one before the offset and the tags before it.
abbrev pub Apart : ℕ → List Element → Type 0
Apart b [] = Unit {0}
Apart b (e ∷ es) = (e.open_start ≤ e.open_end) × (e.open_end ≤ b) × Apart e.open_start es

abbrev pub elements : List Stamp → List Element
elements [] = []
elements (s ∷ ss) = s.element ∷ elements ss

insert_stamp-All :
    (P : Stamp → Type 0) (s : Stamp) (ss : List Stamp) → P s → All P ss → All P (insert_stamp s ss)
unfolding insert_stamp
insert_stamp-All P s [] p h = (p, tt)
insert_stamp-All P s (t ∷ ts) p h =
    elim (Bool-cases (ltb s.element.open_start t.element.open_start)) [
      | inl q ↦ rw (q, insert_stamp) (h.0, insert_stamp-All P s ts p h.1)
      | inr q ↦ rw (q, insert_stamp) (p, h)
    ]

sort_stamps-All :
    (P : Stamp → Type 0) (es : List Element)
    → All (λ e. P (stamp_of e)) es
    → All P (sort_stamps (map stamp_of es))
unfolding sort_stamps
sort_stamps-All P [] h = tt
sort_stamps-All P (e ∷ es) h =
    insert_stamp-All P (stamp_of e) (sort_stamps (map stamp_of es)) h.0 (sort_stamps-All P es h.1)

insert_stamp-perm :
    (s : Stamp) (ss : List Stamp) → Perm (elements (insert_stamp s ss)) (s.element ∷ elements ss)
unfolding insert_stamp
insert_stamp-perm s [] = Perm.refl (s.element ∷ [])
insert_stamp-perm s (t ∷ ts) = elim (Bool-cases (ltb s.element.open_start t.element.open_start)) [
  | inl q ↦
      rw (q, insert_stamp)
        (Perm.trans (Perm.cons t.element (insert_stamp-perm s ts))
          (Perm.swap s.element t.element (elements ts)))
  | inr q ↦ rw (q, insert_stamp) (Perm.refl (s.element ∷ t.element ∷ elements ts))
]

-- Sorting the stamps of elements keeps each element, once.
pub sort_stamps-perm : (es : List Element) → Perm (elements (sort_stamps (map stamp_of es))) es
unfolding sort_stamps stamp_of
sort_stamps-perm [] = Perm.refl []
sort_stamps-perm (e ∷ es) =
    Perm.trans (insert_stamp-perm (stamp_of e) (sort_stamps (map stamp_of es)))
      (Perm.cons e (sort_stamps-perm es))

insert_stamp-Apart :
    (b : ℕ) (s : Stamp) (ss : List Stamp)
    → IsInside b s.element
    → All (λ t. Disjoint s.element t.element) ss
    → Apart b (elements ss)
    → Apart b (elements (insert_stamp s ss))
unfolding insert_stamp
insert_stamp-Apart b s [] inside disjoint apart = (omega (arith, inside.0), inside.1, tt)
insert_stamp-Apart b s (t ∷ ts) inside disjoint apart =
    elim (Bool-cases (ltb s.element.open_start t.element.open_start)) [
      | inl q ↦
          let before : s.element.open_end ≤ t.element.open_start =
            ground (arith, inside, disjoint.0, apart.0, q) in
          rw (q, insert_stamp)
            (
              apart.0,
              apart.1,
              insert_stamp-Apart t.element.open_start s ts (inside.0, before) disjoint.1 apart.2,
            )
      | inr q ↦
          let behind : t.element.open_end ≤ s.element.open_start =
            ground (arith, inside, disjoint.0, q) in
          rw (q, insert_stamp) (omega (arith, inside.0), inside.1, (apart.0, behind, apart.2))
    ]

-- Where no open tag stands inside another one, the sorted ones stand apart.
pub sort_stamps-Apart :
    (b : ℕ) (es : List Element)
    → All (IsInside b) es
    → AreDisjoint es
    → Apart b (elements (sort_stamps (map stamp_of es)))
unfolding sort_stamps stamp_of
sort_stamps-Apart b [] inside disjoint = tt
sort_stamps-Apart b (e ∷ es) inside disjoint =
    insert_stamp-Apart b (stamp_of e) (sort_stamps (map stamp_of es)) inside.0
      (sort_stamps-All (λ t. Disjoint e t.element) es disjoint.0)
      (sort_stamps-Apart b es inside.1 disjoint.1)

stamps_again : (es : List Element) → All (λ e. stamp_of e ≡ stamp_of (stamp_of e).element) es
unfolding stamp_of
stamps_again [] = tt
stamps_again (e ∷ es) = (refl, stamps_again es)

restamped :
    (ss : List Stamp) → All (λ s. s ≡ stamp_of s.element) ss → map stamp_of (elements ss) ≡ ss
restamped [] h = refl
restamped (s ∷ ss) h = ap₂ ◌∷◌ (sym h.0) (restamped ss h.1)

-- The sorted stamps are the stamps of their elements.
pub sort_stamps_of_elements :
    (es : List Element)
    → map stamp_of (elements (sort_stamps (map stamp_of es))) ≡ sort_stamps (map stamp_of es)
sort_stamps_of_elements es =
    restamped (sort_stamps (map stamp_of es))
      (sort_stamps-All (λ s. s ≡ stamp_of s.element) es (stamps_again es))
