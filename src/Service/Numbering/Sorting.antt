-- ===== src/Service/Numbering/Sorting.antt =====
-- `sort_versions` is a sort.
use mathlib.Core.List.{Perm, perm_middle, reverse_aux}
use mathlib.Core.List.Perm
use octo_doc.Base.{true, List, [], ◌∷◌, ◌++◌, ◌≡◌, inl, inr, All, Bool-cases}
use octo_doc.Base.Int.{ltb_ℤ, leb_ℤ, leb_ℤ-trans, ltb_ℤ-leb_ℤ, leb_ℤ_of_not_ltb_ℤ}
use octo_doc.Storage.Types.{VersionRef}
use octo_doc.Service.Numbering.{sift, sort_onto, sort_versions}

-- each version of the list is at most that of `x`
abbrev IsAbove : VersionRef → List VersionRef → Type 0
IsAbove x = All (λ y. leb_ℤ y.n x.n ≡ true)

abbrev IsDescending : List VersionRef → Type 0
IsDescending [] = Unit
IsDescending (x ∷ xs) = IsAbove x xs × IsDescending xs

-- each version of the list is at least that of `x`
abbrev pub IsBelow : VersionRef → List VersionRef → Type 0
IsBelow x = All (λ y. leb_ℤ x.n y.n ≡ true)

abbrev pub IsAscending : List VersionRef → Type 0
IsAscending [] = Unit
IsAscending (x ∷ xs) = IsBelow x xs × IsAscending xs

sift-perm : (x : VersionRef) (ys : List VersionRef) → Perm (sift x ys) (x ∷ ys)
unfolding sift
sift-perm x [] = Perm.refl (x ∷ [])
sift-perm x (y ∷ ys) = elim (Bool-cases (ltb_ℤ x.n y.n)) [
  | inl q ↦ rw (q, sift) (Perm.trans (Perm.cons y (sift-perm x ys)) (Perm.swap x y ys))
  | inr q ↦ rw (q, sift) (Perm.refl (x ∷ y ∷ ys))
]

IsAbove-trans :
    (x y : VersionRef) (zs : List VersionRef) → leb_ℤ y.n x.n ≡ true → IsAbove y zs → IsAbove x zs
IsAbove-trans x y [] p h = tt
IsAbove-trans x y (z ∷ zs) p h = (leb_ℤ-trans z.n y.n x.n h.0 p, IsAbove-trans x y zs p h.1)

IsAbove-sift :
    (y x : VersionRef) (ys : List VersionRef)
    → leb_ℤ x.n y.n ≡ true
    → IsAbove y ys
    → IsAbove y (sift x ys)
unfolding sift
IsAbove-sift y x [] p h = (p, tt)
IsAbove-sift y x (z ∷ ys) p h = elim (Bool-cases (ltb_ℤ x.n z.n)) [
  | inl q ↦ rw (q, sift) (h.0, IsAbove-sift y x ys p h.1)
  | inr q ↦ rw (q, sift) (p, h)
]

sift-IsDescending :
    (x : VersionRef) (ys : List VersionRef) → IsDescending ys → IsDescending (sift x ys)
unfolding sift
sift-IsDescending x [] h = (tt, tt)
sift-IsDescending x (y ∷ ys) h = elim (Bool-cases (ltb_ℤ x.n y.n)) [
  | inl q ↦
      rw (q, sift) (IsAbove-sift y x ys (ltb_ℤ-leb_ℤ x.n y.n q) h.0, sift-IsDescending x ys h.1)
  | inr q ↦
      let p = leb_ℤ_of_not_ltb_ℤ x.n y.n q in rw (q, sift) ((p, IsAbove-trans x y ys p h.0), h)
]

-- each version of `xs` is at most each one of `ys`
abbrev AreBelow : List VersionRef → List VersionRef → Type 0
AreBelow xs ys = All (λ x. IsBelow x ys) xs

AreBelow-cons :
    (x : VersionRef) (xs ys : List VersionRef)
    → IsAbove x xs
    → AreBelow xs ys
    → AreBelow xs (x ∷ ys)
AreBelow-cons x [] ys a h = tt
AreBelow-cons x (y ∷ xs) ys a h = ((a.0, h.0), AreBelow-cons x xs ys a.1 h.1)

reverse_aux-IsAscending :
    (xs ys : List VersionRef)
    → IsDescending xs
    → IsAscending ys
    → AreBelow xs ys
    → IsAscending (reverse_aux xs ys)
reverse_aux-IsAscending [] ys d a h = a
reverse_aux-IsAscending (x ∷ xs) ys d a h =
    reverse_aux-IsAscending xs (x ∷ ys) d.1 (h.0, a) (AreBelow-cons x xs ys d.0 h.1)

AreBelow-nil : (xs : List VersionRef) → AreBelow xs []
AreBelow-nil [] = tt
AreBelow-nil (x ∷ xs) = (tt, AreBelow-nil xs)

sort_onto-IsAscending :
    (sorted vs : List VersionRef) → IsDescending sorted → IsAscending (sort_onto sorted vs)
unfolding sort_onto
sort_onto-IsAscending sorted [] d = reverse_aux-IsAscending sorted [] d tt (AreBelow-nil sorted)
sort_onto-IsAscending sorted (v ∷ vs) d =
    sort_onto-IsAscending (sift v sorted) vs (sift-IsDescending v sorted d)

reverse_aux-perm : (xs ys : List VersionRef) → Perm (reverse_aux xs ys) (xs ++ ys)
reverse_aux-perm [] ys = Perm.refl ys
reverse_aux-perm (x ∷ xs) ys = Perm.trans (reverse_aux-perm xs (x ∷ ys)) (perm_middle {a = x} xs ys)

sort_onto-perm : (sorted vs : List VersionRef) → Perm (sort_onto sorted vs) (sorted ++ vs)
unfolding sort_onto
sort_onto-perm sorted [] = reverse_aux-perm sorted []
sort_onto-perm sorted (v ∷ vs) = Perm.trans (sort_onto-perm (sift v sorted) vs) (
    Perm.trans (Perm.append_right vs (sift-perm v sorted))
      (Perm.symm (perm_middle {a = v} sorted vs)))

-- The sorted versions are a permutation of the versions, in ascending order.
pub sort_versions_contract :
    (vs : List VersionRef) → Perm (sort_versions vs) vs × IsAscending (sort_versions vs)
unfolding sort_versions
sort_versions_contract vs = (sort_onto-perm [] vs, sort_onto-IsAscending [] vs tt)
