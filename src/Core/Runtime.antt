-- ===== src/Core/Runtime.antt =====
-- What internal/core/events.go takes from its surroundings: the counter of event ids, the readings
-- of the clock, and the texts of numbers (strconv).
pub mod Printing
use Prim.Native.String.{◌++◌ as append}
use octo_doc.Base.{
  ℕ, zero, suc, ◌+◌, ◌/◌, ◌%◌, ◌^◌, String, List, [], ◌∷◌, none, some, eqb, get_elem?,
  if◌then◌else◌,
}
use octo_doc.Base.Text.{concat}
use octo_doc.Base.Int.{ℤ, pos, negsuc}

digits_36 : List String
digits_36 =
    "0" ∷ "1" ∷ "2" ∷ "3" ∷ "4" ∷ "5" ∷ "6" ∷ "7" ∷ "8" ∷ "9" ∷ "a" ∷ "b" ∷ "c" ∷ "d" ∷ "e" ∷ "f"
    ∷ "g" ∷ "h" ∷ "i" ∷ "j" ∷ "k" ∷ "l" ∷ "m" ∷ "n" ∷ "o" ∷ "p" ∷ "q" ∷ "r" ∷ "s" ∷ "t" ∷ "u" ∷ "v"
    ∷ "w" ∷ "x" ∷ "y" ∷ "z" ∷ []

unfoldable pub digit : ℕ → String
unfolding digits_36
digit d = elim (get_elem? digits_36 d) [ none ↦ "" | some s ↦ s ]

-- The digits of `n` in front of `acc`. 64 rounds are enough for a 64-bit number in any base.
unfoldable pub digits_onto : ℕ → ℕ → ℕ → String → String
digits_onto zero base n acc = acc
digits_onto (suc f) base n acc =
    let acc' = append (digit (n % base)) acc in
    let more = digits_onto f base (n / base) acc' in if eqb (n / base) 0 then acc' else more

-- `strconv.FormatUint(n, base)`
unfoldable pub format_uint : ℕ → ℕ → String
unfolding digits_onto digit
format_uint base n = digits_onto 64 base n ""

-- `strconv.Itoa`
unfoldable pub itoa : ℤ → String
unfolding format_uint
itoa (pos n) = format_uint 10 n
itoa (negsuc n) = append "-" (format_uint 10 (suc n))

-- The clock at its n-th reading: the time as ISO text with milliseconds, as RFC 3339 text, and in
-- microseconds (after 1970).
pub record Clock : Type 0 where
  pub iso : ℕ → String
  pub rfc3339 : ℕ → String
  pub unix_micro : ℕ → ℕ

-- `eids` is the 64-bit `eidCounter`; `readings` counts the readings of the clock.
pub record Machine : Type 0 where
  pub eids : ℕ
  pub readings : ℕ

module _ (clock : Clock) where
  -- the nonce and the time of a one-shot event id
  unfoldable pub next_nonce : Machine → String × Machine
  unfolding format_uint
  next_nonce m = (
    concat (format_uint 36 m.eids ∷ "_" ∷ format_uint 36 (clock.unix_micro m.readings) ∷ []),
    record { eids = (m.eids + 1) % 2 ^ 64; readings = m.readings + 1 },
  )

  -- `nowISO`, and the same expression where ops.go and reconcile.go spell it out
  unfoldable pub read_iso : Machine → String × Machine
  read_iso m = (clock.iso m.readings, record m { readings = m.readings + 1 })

  -- `time.Now().UTC().Format(time.RFC3339)`
  unfoldable pub read_rfc3339 : Machine → String × Machine
  read_rfc3339 m = (clock.rfc3339 m.readings, record m { readings = m.readings + 1 })
