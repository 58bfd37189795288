-- ===== src/Core/Runtime/Printing.antt =====
-- strconv as the program uses it: the fuel of the printed digits is enough.
use Prim.Native.String.{◌++◌ as append}
use octo_doc.Base.{
  ℕ, zero, suc, ◌+◌, ◌*◌, ◌/◌, ◌%◌, ◌^◌, ◌≤◌, ◌<◌, String, true, ◌≡◌, refl, ap, ◌∙◌, arith, eqb,
  inl, inr, Bool-cases,
}
use octo_doc.Core.Runtime.{digit, digits_onto, format_uint}

halved : (n base : ℕ) → 2 ≤ base → n / base * 2 ≤ n
halved n base h = grind arith

-- A round halves the number at least, so that more rounds than its bits change nothing.
digits_onto-enough :
    (f more base n : ℕ) (acc : String)
    → 2 ≤ base
    → n < 2 ^ suc f
    → digits_onto (suc (f + more)) base n acc ≡ digits_onto (suc f) base n acc
unfolding digits_onto
digits_onto-enough zero more base n acc h lt =
    let done : eqb (n / base) 0 ≡ true = ground (arith, halved n base h) in rw done refl
digits_onto-enough (suc f) more base n acc h lt = elim (Bool-cases (eqb (n / base) 0)) [
  | inl done ↦ rw done refl
  | inr on ↦
      let acc' = append (digit (n % base)) acc in
      let fuel : suc f + more ≡ suc (f + more) = omega arith in
      let small : n / base < 2 ^ suc f = grind (arith, halved n base h) in
      rw on (
        ap (λ k. digits_onto k base (n / base) acc') fuel
        ∙ digits_onto-enough f more base (n / base) acc' h small)
]

-- The loop that prints a 64-bit number ends within the 64 rounds that it is given: in every base
-- from 2 on, any number of further rounds prints the same text.
pub format_uint-enough :
    (more base n : ℕ)
    → 2 ≤ base
    → n < 2 ^ 64
    → digits_onto (64 + more) base n "" ≡ format_uint base n
unfolding format_uint
format_uint-enough more base n h lt =
    let rounds : 64 + more ≡ suc (63 + more) = omega arith in
    ap (λ k. digits_onto k base n "") rounds ∙ digits_onto-enough 63 more base n "" h lt
