-- ===== src/Storage/Decimal.antt =====
-- internal/storage/memory/memory.go: `itoa` and `atoi`, with which the keys of versions are written
-- and read.
use Prim.Native.Char.{Char, code}
use native.Mathlib.Nat.{pow-suc}
use octo_doc.Base.{
  ℕ, zero, suc, ◌+◌, ◌-◌, ◌*◌, ◌/◌, ◌%◌, ◌^◌, ◌<◌, String, false, ◌||◌, ◌==◌, Option, none, some,
  ◌≡◌, ◌∙◌, refl, ap, arith, eqb, ltb, inl, inr, Bool-cases, if◌then◌else◌,
}
use octo_doc.Base.Int.{ℤ, pos, negsuc}
use octo_doc.Base.Text.{cons-ne-empty}

-- `byte('0' + d)` for a digit
digit : ℕ → Char
digit zero = "0"
digit (suc zero) = "1"
digit (suc (suc zero)) = "2"
digit (suc (suc (suc zero))) = "3"
digit (suc (suc (suc (suc zero)))) = "4"
digit (suc (suc (suc (suc (suc zero))))) = "5"
digit (suc (suc (suc (suc (suc (suc zero)))))) = "6"
digit (suc (suc (suc (suc (suc (suc (suc zero))))))) = "7"
digit (suc (suc (suc (suc (suc (suc (suc (suc zero)))))))) = "8"
digit (suc (suc (suc (suc (suc (suc (suc (suc (suc d))))))))) = "9"

-- The loop that fills the buffer from its end. The buffer has 20 bytes.
fill : ℕ → ℕ → String → String
unfolding digit
fill zero n b = b
fill (suc f) n b =
    let more = fill f (n / 10) (String.◌∷◌ (digit (n % 10)) b) in if eqb n 0 then b else more

unfoldable pub itoa : ℤ → String
unfolding fill
itoa (pos n) = if eqb n 0 then "0" else fill 20 n ""
itoa (negsuc n) = String.◌∷◌ "-" (fill 20 (suc n) "")

-- `atoi` behind its test for "": the texts that it meets are shorter than the overflow of an int
unfoldable pub read_digits : ℕ → String → Option ℕ
read_digits n String.[] = some n
read_digits n (String.◌∷◌ c s) =
    if ltb (code c) b'0' || ltb b'9' (code c)
    then none
    else read_digits (n * 10 + (code c - b'0')) s

unfoldable pub atoi : String → Option ℕ
unfolding read_digits
atoi String.[] = none
atoi (String.◌∷◌ c s) = read_digits 0 (String.◌∷◌ c s)

code-digit : (d : ℕ) → d < 10 → code (digit d) ≡ b'0' + d
unfolding digit
code-digit zero h = refl
code-digit (suc zero) h = refl
code-digit (suc (suc zero)) h = refl
code-digit (suc (suc (suc zero))) h = refl
code-digit (suc (suc (suc (suc zero)))) h = refl
code-digit (suc (suc (suc (suc (suc zero))))) h = refl
code-digit (suc (suc (suc (suc (suc (suc zero)))))) h = refl
code-digit (suc (suc (suc (suc (suc (suc (suc zero))))))) h = refl
code-digit (suc (suc (suc (suc (suc (suc (suc (suc zero)))))))) h = refl
code-digit (suc (suc (suc (suc (suc (suc (suc (suc (suc d))))))))) h =
    let e : d ≡ 0 = omega arith in rw e

read_digits-digit :
    (a d : ℕ) (s : String)
    → d < 10
    → read_digits a (String.◌∷◌ (digit d) s) ≡ read_digits (a * 10 + d) s
unfolding read_digits
read_digits-digit a d s h =
    let e : a * 10 + (code (digit d) - b'0') ≡ a * 10 + d = omega (arith, code-digit d h) in
    ground (arith, code-digit d h, e, ap (λ (n : ℕ). read_digits n s) e)

read_digits-fill :
    (f n : ℕ) (b : String) → n < 10 ^ f → read_digits 0 (fill f n b) ≡ read_digits n b
unfolding fill
read_digits-fill zero n b h = ap (λ (k : ℕ). read_digits k b) (omega arith)
read_digits-fill (suc f) n b h = elim (Bool-cases (eqb n 0)) [
  | inl p ↦ rw p (ap (λ (k : ℕ). read_digits k b) (ground arith))
  | inr p ↦ rw p (
      read_digits-fill f (n / 10) (String.◌∷◌ (digit (n % 10)) b) (omega (arith, pow-suc 10 f))
      ∙ (read_digits-digit (n / 10) (n % 10) b (omega arith)
          ∙ ap (λ (k : ℕ). read_digits k b) (omega arith)))
]

abbrev IsCons : String → Type 0
IsCons s = (c : Char) × (r : String) × (s ≡ String.◌∷◌ c r)

fill-IsCons : (f n : ℕ) (c : Char) (b : String) → IsCons (fill f n (String.◌∷◌ c b))
unfolding fill
fill-IsCons zero n c b = (c, b, refl)
fill-IsCons (suc f) n c b = elim (Bool-cases (eqb n 0)) [
  | inl p ↦ (c, b, rw p)
  | inr p ↦ rw p (fill-IsCons f (n / 10) (digit (n % 10)) (String.◌∷◌ c b))
]

atoi_of_IsCons : (s : String) → IsCons s → atoi s ≡ read_digits 0 s
unfolding atoi
atoi_of_IsCons s (c, r, e) = rw (e, atoi) refl

fill-IsCons_pos : (f n : ℕ) → eqb n 0 ≡ false → IsCons (fill (suc f) n "")
unfolding fill
fill-IsCons_pos f n p = rw p (fill-IsCons f (n / 10) (digit (n % 10)) "")

read_digits_nil : (n : ℕ) → read_digits n "" ≡ some n
unfolding read_digits
read_digits_nil n = refl

atoi-fill : (n : ℕ) → n < 10 ^ 20 → eqb n 0 ≡ false → atoi (fill 20 n "") ≡ some n
atoi-fill n h p =
    atoi_of_IsCons (fill 20 n "") (fill-IsCons_pos 19 n p)
    ∙ (read_digits-fill 20 n "" h ∙ read_digits_nil n)

itoa_pos : (n : ℕ) → itoa (pos n) ≡ (if eqb n 0 then "0" else fill 20 n "")
unfolding itoa
itoa_pos n = refl

atoi_zero : atoi "0" ≡ some 0
unfolding atoi
atoi_zero = refl

-- A number of at most 20 digits, such as any `int`, is read back from the text written for it.
pub atoi-itoa : (n : ℕ) → n < 10 ^ 20 → atoi (itoa (pos n)) ≡ some n
atoi-itoa n h = elim (Bool-cases (eqb n 0)) [
  | inl p ↦ rw (itoa_pos n, p, atoi_zero) (ap some (ground arith))
  | inr p ↦ rw (itoa_pos n, p) (atoi-fill n h p)
]

-- The text of a negative number is read as no number.
pub atoi-itoa_negsuc : (n : ℕ) → atoi (itoa (negsuc n)) ≡ none
unfolding itoa atoi read_digits
atoi-itoa_negsuc n = refl

pub atoi-draft : atoi "draft" ≡ none
unfolding atoi
atoi-draft = refl

IsCons-ne-empty : (s : String) → IsCons s → (s == "") ≡ false
IsCons-ne-empty s (c, r, e) = ap (λ x. x == "") e ∙ cons-ne-empty c r

itoa_pos-ne-empty : (n : ℕ) → (itoa (pos n) == "") ≡ false
itoa_pos-ne-empty n = ap (λ s. s == "") (itoa_pos n) ∙ elim (Bool-cases (eqb n 0)) [
  | inl p ↦ rw p (cons-ne-empty "0" "")
  | inr p ↦ rw p (IsCons-ne-empty (fill 20 n "") (fill-IsCons_pos 19 n p))
]

itoa_negsuc-ne-empty : (n : ℕ) → (itoa (negsuc n) == "") ≡ false
unfolding itoa
itoa_negsuc-ne-empty n = cons-ne-empty "-" (fill 20 (suc n) "")

pub itoa-ne-empty : (v : ℤ) → (itoa v == "") ≡ false
itoa-ne-empty (pos n) = itoa_pos-ne-empty n
itoa-ne-empty (negsuc n) = itoa_negsuc-ne-empty n
