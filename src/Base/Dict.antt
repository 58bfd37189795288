-- ===== src/Base/Dict.antt =====
-- Go's `map[string]V` as an association list. A key is looked up at its first entry; a write
-- replaces it in place or adds it at the end; `delete` drops every entry of the key. Where the
-- program ranges over a map, it sorts the keys first.
use Prim.Native.String.{String}
use mathlib.Core.Path.{◌≡◌}
use mathlib.Core.Bool.{true, false}
use mathlib.Core.List.{List, [], ◌∷◌}
use mathlib.Core.Option.{Option, none, some}
use native.Mathlib.Omega.{arith}
use text.Mathlib.Text.{◌==◌}
use text.Mathlib.TextEquality.{eq_iff}
use octo_doc.Base.Tests.{if◌then◌else◌}

abbrev pub Dict {ℓ} : Type ℓ → Type ℓ
Dict V = List (String × V)

module _ {ℓ} {V : Type ℓ} where
  unfoldable pub lookup : String → Dict V → Option V
  lookup wanted [] = none
  lookup wanted ((key, held) ∷ others) = elim (key == wanted) [
    | true ↦ some held
    | false ↦ lookup wanted others
  ]

  unfoldable pub delete : String → Dict V → Dict V
  delete k [] = []
  delete k ((j, v) ∷ m) = let rest = delete k m in if j == k then rest else (j, v) ∷ rest

  unfoldable pub insert : String → V → Dict V → Dict V
  insert target value [] = (target, value) ∷ []
  insert target value ((key, held) ∷ others) = elim (key == target) [
    | true ↦ (target, value) ∷ others
    | false ↦ (key, held) ∷ insert target value others
  ]

  abbrev pub keys : Dict V → List String
  keys [] = []
  keys ((j, v) ∷ m) = j ∷ keys m

  pub lookup-insert :
      (target wanted : String) (value : V) (entries : Dict V)
      → lookup wanted (insert target value entries)
        ≡ (if target == wanted then some value else lookup wanted entries)
  unfolding lookup insert
  lookup-insert target wanted value [] = ground arith
  lookup-insert target wanted value ((key, held) ∷ others) = ground (
    arith,
    lookup-insert target wanted value others,
    eq_iff key target,
    eq_iff key wanted,
    eq_iff target wanted,
  )

  pub lookup-insert_self : (k : String) (v : V) (m : Dict V) → lookup k (insert k v m) ≡ some v
  lookup-insert_self k v m = ground (arith, lookup-insert k k v m, eq_iff k k)

  pub lookup-delete :
      (k j : String) (m : Dict V) → lookup j (delete k m) ≡ (if k == j then none else lookup j m)
  unfolding lookup delete
  lookup-delete k j [] = ground arith
  lookup-delete k j ((i, v) ∷ m) =
      ground (arith, eq_iff k j, eq_iff i k, eq_iff i j, lookup-delete k j m)

  -- Every stored value satisfies `P`.
  abbrev pub AllValues {κ} : (V → Type κ) → Dict V → Type κ
  AllValues P [] = Unit
  AllValues P ((j, v) ∷ m) = P v × AllValues P m

  pub insert-AllValues {κ} :
      (P : V → Type κ) (k : String) (v : V) (m : Dict V)
      → P v
      → AllValues P m
      → AllValues P (insert k v m)
  unfolding insert
  insert-AllValues P k v [] pv h = (pv, tt)
  insert-AllValues P k v ((j, w) ∷ m) pv h =
      elim (j == k)
        as (λ b. AllValues P (elim b [ true ↦ (k, v) ∷ m | false ↦ (j, w) ∷ insert k v m ])) [
          | true ↦ (pv, h.1)
          | false ↦ (h.0, insert-AllValues P k v m pv h.1)
        ]

  pub delete-AllValues {κ} :
      (P : V → Type κ) (k : String) (m : Dict V) → AllValues P m → AllValues P (delete k m)
  unfolding delete
  delete-AllValues P k [] h = tt
  delete-AllValues P k ((j, w) ∷ m) h =
      elim (j == k) as (λ b. AllValues P (if b then delete k m else (j, w) ∷ delete k m)) [
        | true ↦ delete-AllValues P k m h.1
        | false ↦ (h.0, delete-AllValues P k m h.1)
      ]

  pub lookup-AllValues {κ} :
      (P : V → Type κ) (k : String) (m : Dict V) (v : V) → AllValues P m → lookup k m ≡ some v → P v
  unfolding lookup
  lookup-AllValues P k [] v h e = cc
  lookup-AllValues P k ((j, w) ∷ m) v h e = ground (arith, lookup-AllValues P k m v)
