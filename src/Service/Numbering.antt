-- ===== src/Service/Numbering.antt =====
-- internal/service/doc.go: lists of versions, sorted, searched and extended.
pub mod Sorting
use mathlib.Core.List.{reverse}
use octo_doc.Base.{zero, suc, Bool, false, ◌||◌, List, [], ◌∷◌, none, if◌then◌else◌}
use octo_doc.Base.Int.{ℤ, pos, negsuc, ltb_ℤ, eqb_ℤ, wrap_64}
use octo_doc.Storage.Types.{VersionRef}

-- The inner loop of `sortVersions`, on the sorted part from its end: `x` moves in front of every
-- greater version.
unfoldable pub sift : VersionRef → List VersionRef → List VersionRef
sift x [] = x ∷ []
sift x (y ∷ ys) = if ltb_ℤ x.n y.n then y ∷ sift x ys else x ∷ y ∷ ys

unfoldable pub sort_onto : List VersionRef → List VersionRef → List VersionRef
unfolding sift
sort_onto sorted [] = reverse sorted
sort_onto sorted (x ∷ xs) = sort_onto (sift x sorted) xs

unfoldable pub sort_versions : List VersionRef → List VersionRef
unfolding sort_onto
sort_versions vs = sort_onto [] vs

-- whether a version is in the list
unfoldable pub has_version : ℤ → List VersionRef → Bool
has_version v [] = false
has_version v (x ∷ xs) = eqb_ℤ x.n v || has_version v xs

unfoldable pub max_version : ℤ → List ℤ → ℤ
max_version m [] = m
max_version m (n ∷ ns) = max_version (if ltb_ℤ m n then n else m) ns

-- `n + 1` for a 64-bit int: behind the greatest one comes the least one
unfoldable pub next : ℤ → ℤ
unfolding wrap_64
next (pos n) = wrap_64 (pos (suc n))
next (negsuc zero) = pos 0
next (negsuc (suc n)) = negsuc n

unfoldable pub refs_of : List ℤ → List VersionRef
refs_of [] = []
refs_of (n ∷ ns) = record { n = n; created = none } ∷ refs_of ns

unfoldable pub last_version : ℤ → List VersionRef → ℤ
last_version d [] = d
last_version d (v ∷ vs) = last_version v.n vs
