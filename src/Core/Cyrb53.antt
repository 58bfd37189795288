-- ===== src/Core/Cyrb53.antt =====
-- internal/core/cyrb53.go: the hash of artifact identities. A `uint32` is a number below 2 ^ 32, with
-- the wrap-around written out; `x >> k` is a division and `2097151 & x` a remainder.
use Prim.Native.Nat.{bit_xor}
use Prim.Native.Char.{code}
use octo_doc.Base.{
  ℕ, ◌+◌, ◌-◌, ◌*◌, ◌/◌, ◌%◌, ◌^◌, ◌<◌, String, List, [], ◌∷◌, ltb, arith, ◌≡◌, if◌then◌else◌,
}
use octo_doc.Core.Runtime.{format_uint, digits_onto}
use octo_doc.Core.Runtime.Printing.{format_uint-enough}

abbrev word : ℕ
word = 2 ^ 32

unfoldable pub xor32 : ℕ → ℕ → ℕ
xor32 a b = bit_xor a b % word

unfoldable pub imul : ℕ → ℕ → ℕ
imul a b = a * b % word

-- `utf16.Encode([]rune(s))`: a character beyond the first 65536 is a surrogate pair
unfoldable pub code_units : String → List ℕ
code_units String.[] = []
code_units (String.◌∷◌ c s) =
    if ltb (code c) 0x10000
    then code c ∷ code_units s
    else (0xd800 + (code c - 0x10000) / 0x400)
      ∷ (0xdc00 + (code c - 0x10000) % 0x400)
      ∷ code_units s

unfoldable pub absorb : List ℕ → ℕ → ℕ → ℕ × ℕ
unfolding imul xor32
absorb [] h1 h2 = (h1, h2)
absorb (c ∷ cs) h1 h2 = absorb cs (imul (xor32 h1 c) 2654435761) (imul (xor32 h2 c) 1597334677)

-- the two mixes; the second reads the `h1` that the first has written
unfoldable pub mix_first : ℕ → ℕ → ℕ
unfolding imul xor32
mix_first h1 h2 =
    xor32 (imul (xor32 h1 (h1 / 2 ^ 16)) 2246822507) (imul (xor32 h2 (h2 / 2 ^ 13)) 3266489909)

unfoldable pub cyrb53_value : String → ℕ → ℕ
unfolding absorb code_units mix_first xor32
cyrb53_value s seed =
    let (h1, h2) = absorb (code_units s) (xor32 0xdeadbeef seed) (xor32 0x41c6ce57 seed) in
    let h1' = mix_first h1 h2 in let h2' = mix_first h2 h1' in h2' % 2 ^ 21 * 4294967296 + h1'

unfoldable pub cyrb53 : String → ℕ → String
unfolding cyrb53_value format_uint
cyrb53 s seed = format_uint 36 (cyrb53_value s seed)

-- The number that the hash prints is below 2 ^ 53 for every text and seed, so that a
-- double-precision float holds it exactly.
pub cyrb53_value_bounds : (s : String) (seed : ℕ) → cyrb53_value s seed < 2 ^ 53
unfolding cyrb53_value mix_first xor32
cyrb53_value_bounds s seed = ground arith

-- The loop that prints the hash ends within the rounds that it is given: for every text and seed, any
-- number of further rounds prints the same text.
pub cyrb53-enough :
    (s : String) (seed more : ℕ)
    → digits_onto (64 + more) 36 (cyrb53_value s seed) "" ≡ cyrb53 s seed
unfolding cyrb53
cyrb53-enough s seed more =
    let bound = cyrb53_value_bounds s seed in
    let small : cyrb53_value s seed < 2 ^ 64 = omega (arith, bound) in
    format_uint-enough more 36 (cyrb53_value s seed) (omega arith) small
