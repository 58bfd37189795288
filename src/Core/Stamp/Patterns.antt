-- ===== src/Core/Stamp/Patterns.antt =====
-- internal/core/stamp.go: white space, tags and attributes at the start of a text. A matcher returns
-- what stands behind the match.
use Prim.Native.Char.{Char, code}
use Prim.Native.String.{◌++◌ as append, count}
use octo_doc.Base.{
  ℕ, zero, suc, ◌+◌, ◌-◌, String, Bool, true, false, not, ◌&&◌, ◌||◌, Option, none, some, eqb, leb,
  if◌then◌else◌,
}
use octo_doc.Base.Text.{strip_prefix}
use octo_doc.Base.Slices.{after}

-- `isJSSpace`, and the class `jsSpace`
unfoldable pub is_js_space : Char → Bool
is_js_space c =
    let r = code c in
    leb 9 r && leb r 13
    || eqb r 32
    || eqb r 0xa0
    || eqb r 0x1680
    || leb 0x2000 r && leb r 0x200a
    || eqb r 0x2028
    || eqb r 0x2029
    || eqb r 0x202f
    || eqb r 0x205f
    || eqb r 0x3000
    || eqb r 0xfeff

-- `\s` of a Go expression
unfoldable pub is_space : Char → Bool
is_space c = let r = code c in eqb r 9 || eqb r 10 || eqb r 12 || eqb r 13 || eqb r 32

-- `\w`
unfoldable pub is_word : Char → Bool
is_word c =
    let r = code c in
    leb b'a' r && leb r b'z' || leb b'A' r && leb r b'Z' || leb b'0' r && leb r b'9' || eqb r b'_'

unfoldable pub is_letter : Char → Bool
is_letter c = let r = code c in leb b'a' r && leb r b'z' || leb b'A' r && leb r b'Z'

unfoldable pub is_code : ℕ → Char → Bool
is_code r c = eqb (code c) r

unfoldable pub lower_code : Char → ℕ
lower_code c = let r = code c in if leb b'A' r && leb r b'Z' then r + 32 else r

-- a text behind the characters of a class at its start
unfoldable pub skip : (Char → Bool) → String → String
skip in_class String.[] = ""
skip in_class (String.◌∷◌ c s) =
    let rest = skip in_class s in if in_class c then rest else String.◌∷◌ c s

unfoldable pub starts : (Char → Bool) → String → Bool
starts in_class String.[] = false
starts in_class (String.◌∷◌ c s) = in_class c

-- the text behind one character of a class
unfoldable pub one : (Char → Bool) → String → Option String
one in_class String.[] = none
one in_class (String.◌∷◌ c s) = if in_class c then some s else none

-- the text behind a prefix, whose letters may stand in either case
unfoldable pub fold_prefix : String → String → Option String
unfolding lower_code
fold_prefix String.[] s = some s
fold_prefix (String.◌∷◌ p ps) String.[] = none
fold_prefix (String.◌∷◌ p ps) (String.◌∷◌ c s) =
    if eqb (lower_code p) (lower_code c) then fold_prefix ps s else none

infixl 5 ◌>>=◌
abbrev pub ◌>>=◌ : {A B : Type 0} → Option A → (A → Option B) → Option B
none >>= f = none
some a >>= f = f a

-- the text behind `\b`, after a character of a word
unfoldable pub word_end : String → Option String
unfolding starts is_word
word_end s = if starts is_word s then none else some s

-- `(?i)<tag\b`
unfoldable pub tag_opens : String → String → Option String
unfolding one is_code fold_prefix word_end
tag_opens tag s = do r ← one (is_code b'<') s; r' ← fold_prefix tag r; word_end r'

-- `(?i)</tag\s*>`
unfoldable pub tag_closes : String → String → Option String
unfolding one is_code fold_prefix skip is_space
tag_closes tag s = do
  r ← strip_prefix "</" s
  r' ← fold_prefix tag r
  one (is_code b'>') (skip is_space r')

-- the value of an attribute behind its name, in double quotes, and the text behind it
unfoldable pub until : ℕ → String → Option (String × String)
until r String.[] = none
until r (String.◌∷◌ c s) =
    let rest = until r s in
    if eqb (code c) r then some ("", s) else (do (x, y) ← rest; some (String.◌∷◌ c x, y))

unfoldable pub quoted : (Char → Bool) → String → Option (String × String)
unfolding one is_code skip until
quoted spaces s = do
  r ← one (is_code b'=') (skip spaces s)
  r' ← one (is_code 34) (skip spaces r)
  until 34 r'

-- `wsClass data-odoc-[\w-]+ wsClass* = wsClass* "[^"]*"`
unfoldable pub odoc_attr : String → Option String
unfolding one is_js_space is_word is_code quoted skip strip_prefix
odoc_attr s = do
  r ← one is_js_space s
  r' ← strip_prefix "data-odoc-" r
  t ← one (λ c. is_word c || is_code b'-' c) r'
  q ← quoted is_js_space (skip (λ c. is_word c || is_code b'-' c) t)
  some q.1

-- `dataOdocAidRe2`, and `dataOdocAidRe`, which takes all white space in front
unfoldable pub aid_attr : String → Option String
unfolding one is_js_space quoted strip_prefix
aid_attr s = do
  r ← one is_js_space s
  r' ← strip_prefix "data-odoc-aid" r
  q ← quoted is_js_space r'
  some q.1

unfoldable pub spaced_aid_attr : String → Option String
unfolding one is_js_space skip quoted strip_prefix
spaced_aid_attr s = do
  r ← one is_js_space s
  r' ← strip_prefix "data-odoc-aid" (skip is_js_space r)
  q ← quoted is_js_space r'
  some q.1

unfoldable pub spaces : String → Option String
unfolding one skip is_js_space
spaces s = do r ← one is_js_space s; some (skip is_js_space r)

-- `<[^>]+>`
unfoldable pub any_tag : String → Option String
unfolding one is_code until
any_tag s = do
  r ← one (is_code b'<') s
  r' ← one (λ c. not (is_code b'>' c)) r
  q ← until b'>' r'
  some q.1

-- `(?s)<!--.*?-->`
unfoldable pub comment : String → Option String
unfolding strip_prefix after
comment s = do r ← strip_prefix "<!--" s; after "-->" r

-- `ReplaceAllString` for an expression with no empty match; the number is how much of a match is
-- still to be skipped.
unfoldable pub replace_from : (String → Option String) → String → ℕ → String → String
replace_from matches by k String.[] = ""
replace_from matches by (suc k) (String.◌∷◌ c s) = replace_from matches by k s
replace_from matches by zero (String.◌∷◌ c s) = elim (matches (String.◌∷◌ c s)) [
  | none ↦ String.◌∷◌ c (replace_from matches by 0 s)
  | some rest ↦ append by (replace_from matches by (count s - count rest) s)
]

unfoldable pub replace_matches : (String → Option String) → String → String → String
unfolding replace_from
replace_matches matches by s = replace_from matches by 0 s

-- a text without the white space at its end
unfoldable pub trim_end : String → String
unfolding is_js_space
trim_end String.[] = ""
trim_end (String.◌∷◌ c s) = elim (trim_end s) [
  | String.[] ↦ if is_js_space c then "" else String.◌∷◌ c ""
  | String.◌∷◌ d t ↦ String.◌∷◌ c (String.◌∷◌ d t)
]

unfoldable pub trim_js_space : String → String
unfolding trim_end skip is_js_space
trim_js_space s = trim_end (skip is_js_space s)

-- `/wsClass*$`
unfoldable pub self_closes : String → Bool
unfolding skip is_js_space
self_closes String.[] = false
self_closes (String.◌∷◌ c s) =
    let rest = self_closes s in
    rest
    || eqb (code c) b'/' && elim (skip is_js_space s) [ String.[] ↦ true | String.◌∷◌ d t ↦ false ]
