-- ===== src/Core/Markup/Escaping.antt =====
-- render.go, `EscapeHTML`: what is escaped cannot end a text or an attribute value.
use Prim.Native.Char.{Char, code}
use Prim.Native.String.{◌++◌ as append}
use Prim.Native.String.append
use octo_doc.Base.{ℕ, String, Bool, false, ◌||◌, ◌≡◌, refl, arith, eqb, inl, inr, Bool-cases}
use octo_doc.Base.Slices.{has_code}
use octo_doc.Core.Markup.{escape_char, escape_html}

-- one of `<`, `>`, `"` and `'`
abbrev pub is_markup : String → Bool
is_markup s = has_code b'<' s || has_code b'>' s || has_code 34 s || has_code 39 s

has_code-append : (k : ℕ) (s t : String) → has_code k (append s t) ≡ (has_code k s || has_code k t)
unfolding has_code
has_code-append k String.[] t = rw (append.nil t) refl
has_code-append k (String.◌∷◌ c s) t =
    rw (append.cons c s t) (ground (arith, has_code-append k s t))

is_markup-escape_char : (c : Char) → is_markup (escape_char c) ≡ false
unfolding has_code escape_char
is_markup-escape_char c = elim (Bool-cases (eqb (code c) b'&')) [
  | inl p ↦ rw p refl
  | inr amp ↦ elim (Bool-cases (eqb (code c) b'<')) [
    | inl p ↦ rw amp (rw p refl)
    | inr lt ↦ elim (Bool-cases (eqb (code c) b'>')) [
      | inl p ↦ rw amp (rw lt (rw p refl))
      | inr gt ↦ elim (Bool-cases (eqb (code c) 34)) [
        | inl p ↦ rw amp (rw lt (rw gt (rw p refl)))
        | inr quot ↦ elim (Bool-cases (eqb (code c) 39)) [
          | inl p ↦ rw amp (rw lt (rw gt (rw quot (rw p refl))))
          | inr apos ↦ rw amp (rw lt (rw gt (rw quot (rw apos (ground arith)))))
        ]
      ]
    ]
  ]
]

-- An escaped text has none of the characters that end a text or a quoted attribute value in markup.
pub is_markup-escape_html : (s : String) → is_markup (escape_html s) ≡ false
unfolding escape_html has_code
is_markup-escape_html String.[] = refl
is_markup-escape_html (String.◌∷◌ c s) = ground (
  arith,
  is_markup-escape_char c,
  is_markup-escape_html s,
  has_code-append b'<' (escape_char c) (escape_html s),
  has_code-append b'>' (escape_char c) (escape_html s),
  has_code-append 34 (escape_char c) (escape_html s),
  has_code-append 39 (escape_char c) (escape_html s),
)
