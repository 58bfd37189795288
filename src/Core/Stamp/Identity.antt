-- ===== src/Core/Stamp/Identity.antt =====
-- internal/core/stamp.go: aidFor, the hash of an artifact's content, and utf16Slice.
use Prim.Native.Char.{code}
use Prim.Native.String.{◌++◌ as append}
use octo_doc.Base.{
  ℕ, zero, suc, String, Bool, true, false, List, [], ◌∷◌, Option, none, some, leb, ltb, length,
  if◌then◌else◌,
}
use octo_doc.Base.Text.{concat}
use octo_doc.Core.Cyrb53.{cyrb53, code_units}
use octo_doc.Core.Stamp.Patterns.{
  is_word, is_space, fold_prefix, quoted, comment, odoc_attr, spaces, replace_matches,
  trim_js_space,
}

abbrev pub intrinsic_attrs : List String
intrinsic_attrs = "viewBox" ∷ "src" ∷ "alt" ∷ "aria-label" ∷ "title" ∷ []

-- the value of an attribute at the start of a text: `name\s*=\s*"([^"]*)"` in either case
unfoldable pub value_here : String → String → Option String
unfolding fold_prefix quoted is_space
value_here name s = elim (fold_prefix name s) [
  | none ↦ none
  | some r ↦ elim (quoted is_space r) [ none ↦ none | some q ↦ some q.0 ]
]

-- the first one that starts a word; the Boolean tells whether a character of a word stands in front
unfoldable pub value_of : String → Bool → String → Option String
unfolding value_here is_word
value_of name inside String.[] = none
value_of name inside (String.◌∷◌ c s) =
    let rest = value_of name (is_word c) s in
    if inside
    then rest
    else elim (value_here name (String.◌∷◌ c s)) [ some v ↦ some v | none ↦ rest ]

-- the parts `name=value` of the attributes that are there
unfoldable pub intrinsic_parts : List String → String → List String
unfolding value_of
intrinsic_parts [] attrs = []
intrinsic_parts (a ∷ as') attrs = elim (value_of a false attrs) [
  | none ↦ intrinsic_parts as' attrs
  | some v ↦ concat (a ∷ "=" ∷ v ∷ []) ∷ intrinsic_parts as' attrs
]

-- `strings.Join(parts, "|")`
unfoldable pub join_bars : List String → String
join_bars [] = ""
join_bars (p ∷ []) = p
join_bars (p ∷ q ∷ ps) = append p (append "|" (join_bars (q ∷ ps)))

-- the content that is hashed: without comments and the attributes of this program, and with single
-- spaces
unfoldable pub normalized : String → String
unfolding replace_matches comment odoc_attr spaces trim_js_space
normalized inner =
    trim_js_space
      (replace_matches spaces " " (replace_matches odoc_attr "" (replace_matches comment "" inner)))

unfoldable pub aid_for : String → String → String → String
unfolding cyrb53 normalized intrinsic_parts join_bars
aid_for tag inner open_attrs =
    let intrinsics = join_bars (intrinsic_parts intrinsic_attrs open_attrs) in
    cyrb53 (concat (tag ∷ "|" ∷ intrinsics ∷ "|" ∷ normalized inner ∷ [])) 0

-- A surrogate that is cut from its pair is decoded as U+FFFD.
unfoldable pub take_units : ℕ → String → String
take_units n String.[] = ""
take_units zero (String.◌∷◌ c s) = ""
take_units (suc n) (String.◌∷◌ c s) = elim (ltb (code c) 0x10000) [
  | true ↦ String.◌∷◌ c (take_units n s)
  | false ↦ elim n [ zero ↦ "�" | suc m ↦ String.◌∷◌ c (take_units m s) ]
]

unfoldable pub utf16_slice : String → ℕ → String
unfolding take_units code_units
utf16_slice s n = if leb (length (code_units s)) n then s else take_units n s
