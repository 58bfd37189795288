-- ===== src/Base/Text.antt =====
-- Texts character by character: joining, prefixes, and keys made of two parts with a NUL between.
use Prim.Native.Char.{Char, code}
use Prim.Native.String.{◌++◌ as append}
use Prim.Native.String.append
use Prim.Native.String.compare
use mathlib.Core.Path.{◌≡◌, refl, ap, ap₂, subst, ◌∙◌}
use mathlib.Core.Bool.{Bool, true, false, ◌||◌}
use mathlib.Core.List.{List, [], ◌∷◌}
use mathlib.Core.Option.{Option, none, some}
use native.Mathlib.Omega.{arith}
use text.Mathlib.Text.{◌==◌, is_eq}
use text.Mathlib.TextEquality.{Char-path}
use mathlib.Core.Logic.{inl, inr}
use octo_doc.Base.Tests.{Bool-cases, eqb, eqb→eq, if◌then◌else◌}
use Prim.Native.String.{String}

abbrev pub concat : List String → String
concat [] = ""
concat (s ∷ ss) = append s (concat ss)

-- the rest of a text behind a prefix
unfoldable pub strip_prefix : String → String → Option String
strip_prefix String.[] s = some s
strip_prefix (String.◌∷◌ c p) String.[] = none
strip_prefix (String.◌∷◌ c p) (String.◌∷◌ d s) =
    if eqb (code c) (code d) then strip_prefix p s else none

unfoldable pub has_nul : String → Bool
has_nul String.[] = false
has_nul (String.◌∷◌ c s) = eqb (code c) 0 || has_nul s

pub strip_prefix-append : (p s : String) → strip_prefix p (append p s) ≡ some s
unfolding strip_prefix
strip_prefix-append String.[] s = ap some (append.nil s)
strip_prefix-append (String.◌∷◌ c p) s =
    rw (append.cons c p s) (ground (arith, strip_prefix-append p s))

abbrev pub nul : Char
nul = "\0"

-- `slug + "\x00" + rest`, and its first two parts
unfoldable pub nul_key : String → String → String
nul_key s x = append s (String.◌∷◌ nul x)

unfoldable pub nul_prefix : String → String
nul_prefix s = append s (String.◌∷◌ nul "")

abbrev pub strip_key : String → String → Option String
strip_key s k = strip_prefix (nul_prefix s) k

pub append_assoc : (s t u : String) → append (append s t) u ≡ append s (append t u)
append_assoc String.[] t u = rw (append.nil t, append.nil (append t u))
append_assoc (String.◌∷◌ c s) t u =
    rw (append.cons c s t, append.cons c (append s t) u, append.cons c s (append t u))
      (ap (String.◌∷◌ c) (append_assoc s t u))

pub append_empty : (s : String) → append s "" ≡ s
append_empty String.[] = append.nil ""
append_empty (String.◌∷◌ c s) = append.cons c s "" ∙ ap (String.◌∷◌ c) (append_empty s)

pub strip_key_self : (s x : String) → strip_key s (nul_key s x) ≡ some x
unfolding nul_key nul_prefix
strip_key_self s x =
    let whole : append (append s (String.◌∷◌ nul "")) x ≡ append s (String.◌∷◌ nul x) =
      append_assoc s (String.◌∷◌ nul "") x
      ∙ ap (append s) (append.cons nul "" x ∙ ap (String.◌∷◌ nul) (append.nil x)) in
    rw (← whole) (strip_prefix-append (append s (String.◌∷◌ nul "")) x)

strip_key-cons :
    (c d : Char) (s t x : String)
    → strip_key (String.◌∷◌ c s) (nul_key (String.◌∷◌ d t) x)
      ≡ (if eqb (code c) (code d) then strip_key s (nul_key t x) else none)
unfolding strip_prefix nul_key nul_prefix
strip_key-cons c d s t x =
    rw (append.cons c s (String.◌∷◌ nul ""), append.cons d t (String.◌∷◌ nul x))

-- A key belongs to one slug, where slugs hold no NUL.
pub strip_key_sound :
    (s t x y : String)
    → has_nul s ≡ false
    → has_nul t ≡ false
    → strip_key s (nul_key t x) ≡ some y
    → (s ≡ t) × (x ≡ y)
unfolding strip_prefix nul_key nul_prefix has_nul
strip_key_sound String.[] String.[] x y hs ht h =
    (refl, ground (arith, append.nil (String.◌∷◌ nul x)))
strip_key_sound String.[] (String.◌∷◌ d t) x y hs ht h =
    absurd (ground (arith, append.cons d t (String.◌∷◌ nul x)))
strip_key_sound (String.◌∷◌ c s) String.[] x y hs ht h =
    absurd (ground (arith, append.cons c s (String.◌∷◌ nul ""), append.nil (String.◌∷◌ nul x)))
strip_key_sound (String.◌∷◌ c s) (String.◌∷◌ d t) x y hs ht h =
    let e = strip_key-cons c d s t x in
    elim (Bool-cases (eqb (code c) (code d))) [
      | inl q ↦
          let rest : (s ≡ t) × (x ≡ y) =
            strip_key_sound s t x y (ground arith) (ground arith) (ground (arith, e)) in
          (ap₂ String.◌∷◌ (Char-path c d (eqb→eq (code c) (code d) q)) rest.0, rest.1)
      | inr q ↦ cc (e, q)
    ]

has_nul-append : (s t : String) → has_nul (append s t) ≡ (has_nul s || has_nul t)
unfolding has_nul
has_nul-append String.[] t = rw (append.nil t) refl
has_nul-append (String.◌∷◌ c s) t = rw (append.cons c s t) (ground (arith, has_nul-append s t))

-- Only one pair of parts without a NUL has a key.
pub nul_key-injective :
    (s t x y : String) → has_nul s ≡ false → has_nul x ≡ false → nul_key t y ≡ nul_key s x → y ≡ x
unfolding nul_key has_nul
nul_key-injective String.[] String.[] x y hs hx e =
    ground (arith, append.nil (String.◌∷◌ nul x), append.nil (String.◌∷◌ nul y))
nul_key-injective String.[] (String.◌∷◌ d t) x y hs hx e = absurd (
    ground (
      arith,
      append.nil (String.◌∷◌ nul x),
      append.cons d t (String.◌∷◌ nul y),
      has_nul-append t (String.◌∷◌ nul y),
    ))
nul_key-injective (String.◌∷◌ c s) String.[] x y hs hx e =
    let first : c ≡ nul = cc (append.cons c s (String.◌∷◌ nul x), append.nil (String.◌∷◌ nul y)) in
    let no_nul : true ≡ false = subst (λ d. (eqb (code d) 0 || has_nul s) ≡ false) first hs in
    absurd (ground arith)
nul_key-injective (String.◌∷◌ c s) (String.◌∷◌ d t) x y hs hx e =
    let rest : nul_key t y ≡ nul_key s x =
      ground (arith, append.cons c s (String.◌∷◌ nul x), append.cons d t (String.◌∷◌ nul y)) in
    nul_key-injective s t x y (ground arith) hx rest

pub cons-ne-empty : (c : Char) (s : String) → (String.◌∷◌ c s == "") ≡ false
cons-ne-empty c s = ap is_eq (compare.cons-nil c s)

-- A text with a colon in it is not empty.
pub append-colon-ne-empty : (s t : String) → (append s (append ":" t) == "") ≡ false
append-colon-ne-empty String.[] t =
    rw (append.nil (append ":" t), append.cons ":" "" t) (cons-ne-empty ":" (append "" t))
append-colon-ne-empty (String.◌∷◌ c s) t =
    rw (append.cons c s (append ":" t)) (cons-ne-empty c (append s (append ":" t)))
