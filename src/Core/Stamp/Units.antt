-- ===== src/Core/Stamp/Units.antt =====
-- How long the excerpt of an artifact is.
use Prim.Native.Char.{Char, code}
use octo_doc.Base.{
  ℕ, zero, suc, ◌≤◌, ◌<◌, String, true, false, ◌≡◌, ◌∙◌, refl, ap, arith, length, leb, ltb,
  Bool-cases, inl, inr, ◌⊎◌,
}
use octo_doc.Core.Cyrb53.{code_units}
use octo_doc.Core.Stamp.Identity.{take_units, utf16_slice}

length-code_units-small :
    (c : Char) (s : String)
    → ltb (code c) 0x10000 ≡ true
    → length (code_units (String.◌∷◌ c s)) ≡ suc (length (code_units s))
unfolding code_units
length-code_units-small c s p = ground arith

length-code_units-large :
    (c : Char) (s : String)
    → ltb (code c) 0x10000 ≡ false
    → length (code_units (String.◌∷◌ c s)) ≡ suc (suc (length (code_units s)))
unfolding code_units
length-code_units-large c s p = ground arith

take_units-small :
    (n : ℕ) (c : Char) (s : String)
    → ltb (code c) 0x10000 ≡ true
    → take_units (suc n) (String.◌∷◌ c s) ≡ String.◌∷◌ c (take_units n s)
unfolding take_units
take_units-small n c s p = ground arith

take_units-large :
    (n : ℕ) (c : Char) (s : String)
    → ltb (code c) 0x10000 ≡ false
    → take_units (suc (suc n)) (String.◌∷◌ c s) ≡ String.◌∷◌ c (take_units n s)
unfolding take_units
take_units-large n c s p = ground arith

take_units-cut :
    (c : Char) (s : String) → ltb (code c) 0x10000 ≡ false → take_units 1 (String.◌∷◌ c s) ≡ "�"
unfolding take_units
take_units-cut c s p = ground arith

nothing : (s : String) → length (code_units (take_units 0 s)) ≡ 0
unfolding code_units take_units
nothing String.[] = refl
nothing (String.◌∷◌ c s) = refl

replacement : length (code_units "�") ≡ 1
unfolding code_units
replacement = refl

no_units : (n : ℕ) → suc n ≤ length (code_units "") → ⊥
unfolding code_units
no_units n h = omega arith

length-code_units-take_units :
    (n : ℕ) (s : String) → n ≤ length (code_units s) → length (code_units (take_units n s)) ≡ n
length-code_units-take_units zero s h = nothing s
length-code_units-take_units (suc n) String.[] h = absurd (no_units n h)
length-code_units-take_units (suc zero) (String.◌∷◌ c s) h =
    elim (Bool-cases (ltb (code c) 0x10000)) [
      | inl p ↦
          rw (take_units-small 0 c s p)
            (length-code_units-small c (take_units 0 s) p ∙ ap suc (nothing s))
      | inr p ↦ ap (λ x. length (code_units x)) (take_units-cut c s p) ∙ replacement
    ]
length-code_units-take_units (suc (suc n)) (String.◌∷◌ c s) h =
    elim (Bool-cases (ltb (code c) 0x10000)) [
      | inl p ↦
          let fits : suc n ≤ length (code_units s) = omega (arith, length-code_units-small c s p) in
          rw (take_units-small (suc n) c s p) (
            length-code_units-small c (take_units (suc n) s) p
            ∙ ap suc (length-code_units-take_units (suc n) s fits))
      | inr p ↦
          let fits : n ≤ length (code_units s) = omega (arith, length-code_units-large c s p) in
          rw (take_units-large n c s p) (
            length-code_units-large c (take_units n s) p
            ∙ ap (λ k. suc (suc k)) (length-code_units-take_units n s fits))
    ]

-- The first `n` units of a text are the text itself where it has no more than `n`, and otherwise have
-- exactly `n` units, also where the last character is cut.
pub length-utf16_slice :
    (s : String) (n : ℕ)
    → ((length (code_units s) ≤ n) × (utf16_slice s n ≡ s))
      ⊎ ((n < length (code_units s)) × (length (code_units (utf16_slice s n)) ≡ n))
unfolding utf16_slice
length-utf16_slice s n = elim (Bool-cases (leb (length (code_units s)) n)) [
  | inl fits ↦ inl (ground arith, rw fits)
  | inr long ↦
      let above : n < length (code_units s) = ground arith in
      inr (above, rw long (length-code_units-take_units n s (omega arith)))
]
