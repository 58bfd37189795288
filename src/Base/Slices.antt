-- ===== src/Base/Slices.antt =====
-- Pieces of a text, counted in characters: `s[:n]`, `s[n:]`, `strings.HasPrefix` and
-- `strings.Index`.
use Prim.Native.Char.{code}
use Prim.Native.String.{String, count}
use Prim.Native.String.count
use Prim.Native.Nat.{ℕ, zero, suc, ◌≤◌}
use mathlib.Core.Path.{◌≡◌, refl, ap, ◌∙◌}
use mathlib.Core.Bool.{Bool, true, false, ◌||◌}
use mathlib.Core.Option.{Option, none, some}
use native.Mathlib.Omega.{arith}
use octo_doc.Base.Tests.{eqb}
use octo_doc.Base.Text.{strip_prefix}

unfoldable pub take : ℕ → String → String
take zero s = ""
take (suc n) String.[] = ""
take (suc n) (String.◌∷◌ c s) = String.◌∷◌ c (take n s)

unfoldable pub drop : ℕ → String → String
drop zero s = s
drop (suc n) String.[] = ""
drop (suc n) (String.◌∷◌ c s) = drop n s

-- `s[from:to]`
unfoldable pub slice : ℕ → ℕ → String → String
unfolding take drop
slice from to s = drop from (take to s)

unfoldable pub has_prefix : String → String → Bool
unfolding strip_prefix
has_prefix p s = elim (strip_prefix p s) [ none ↦ false | some rest ↦ true ]

-- what stands behind the first occurrence of a text that is not empty
unfoldable pub after : String → String → Option String
unfolding strip_prefix
after p String.[] = strip_prefix p ""
after p (String.◌∷◌ c s) = elim (strip_prefix p (String.◌∷◌ c s)) [
  | some rest ↦ some rest
  | none ↦ after p s
]

-- a text with one of the characters
unfoldable pub has_code : ℕ → String → Bool
has_code k String.[] = false
has_code k (String.◌∷◌ c s) = eqb (code c) k || has_code k s

pub take-whole : (n : ℕ) (s : String) → count s ≤ n → take n s ≡ s
unfolding take
take-whole zero String.[] h = refl
take-whole zero (String.◌∷◌ c s) h = absurd (omega (arith, count.cons c s))
take-whole (suc n) String.[] h = refl
take-whole (suc n) (String.◌∷◌ c s) h =
    ap (String.◌∷◌ c) (take-whole n s (omega (arith, count.cons c s)))

pub count-take : (n : ℕ) (s : String) → n ≤ count s → count (take n s) ≡ n
unfolding take
count-take zero s h = count.nil
count-take (suc n) String.[] h = absurd (omega (arith, count.nil))
count-take (suc n) (String.◌∷◌ c s) h =
    count.cons c (take n s) ∙ ap suc (count-take n s (omega (arith, count.cons c s)))
