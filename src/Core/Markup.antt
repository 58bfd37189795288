-- ===== src/Core/Markup.antt =====
-- internal/core/render.go: escaping and the injection of the overlay. The JSON text that
-- encoding/json prints of the boot configuration is an argument.
pub mod Escaping
use Prim.Native.Char.{Char, code}
use Prim.Native.String.{◌++◌ as append}
use octo_doc.Base.{
  ℕ, zero, suc, ◌+◌, ◌%◌, String, Bool, true, false, not, ◌&&◌, Option, none, some, [], ◌∷◌, eqb,
  if◌then◌else◌,
}
use octo_doc.Base.Text.{concat, strip_prefix}
use octo_doc.Base.Slices.{drop, has_prefix, after}
use Prim.Native.String.{count}

-- `strings.ReplaceAll` for a text that is not empty, by rounds on the rest of the text; one round
-- for each character is enough.
unfoldable pub replace_within : ℕ → String → String → String → String
unfolding strip_prefix
replace_within zero old new s = s
replace_within (suc f) old new String.[] = ""
replace_within (suc f) old new (String.◌∷◌ c s) = elim (strip_prefix old (String.◌∷◌ c s)) [
  | some rest ↦ append new (replace_within f old new rest)
  | none ↦ String.◌∷◌ c (replace_within f old new s)
]

unfoldable pub replace_all : String → String → String → String
unfolding replace_within
replace_all old new s = replace_within (count s) old new s

-- what `htmlEscaper` writes for a character
unfoldable pub escape_char : Char → String
escape_char c =
    if eqb (code c) b'&'
    then "&amp;"
    else if eqb (code c) b'<'
    then "&lt;"
    else if eqb (code c) b'>'
    then "&gt;"
    else if eqb (code c) 34
    then "&quot;"
    else if eqb (code c) 39
    then "&#39;"
    else String.◌∷◌ c ""

unfoldable pub escape_html : String → String
unfolding escape_char
escape_html String.[] = ""
escape_html (String.◌∷◌ c s) = append (escape_char c) (escape_html s)

unfoldable pub for_html_comment : String → String
unfolding replace_all
for_html_comment s = replace_all "--" "-\\-" s

abbrev backslash : ℕ
backslash = 92

-- the loop of `unescapeLineSep`; the second argument is `bs`
unfoldable pub unescape_within : ℕ → ℕ → String → String
unfolding strip_prefix
unescape_within zero bs s = s
unescape_within (suc f) bs String.[] = ""
unescape_within (suc f) bs (String.◌∷◌ c s) =
    let plain = String.◌∷◌ c (unescape_within f (if eqb (code c) backslash then bs + 1 else 0) s) in
    if eqb (code c) backslash && eqb (bs % 2) 0
    then elim (strip_prefix "\\u2028" (String.◌∷◌ c s)) [
      | some rest ↦ append "\u{2028}" (unescape_within f 0 rest)
      | none ↦ elim (strip_prefix "\\u2029" (String.◌∷◌ c s)) [
        | some rest ↦ append "\u{2029}" (unescape_within f 0 rest)
        | none ↦ plain
      ]
    ]
    else plain

unfoldable pub contains : String → String → Bool
unfolding after
contains p s = elim (after p s) [ none ↦ false | some rest ↦ true ]

unfoldable pub unescape_line_sep : String → String
unfolding unescape_within contains
unescape_line_sep s = if contains "\\u202" s then unescape_within (count s) 0 s else s

-- `SafeJSONForScript` behind the encoder
unfoldable pub safe_json_for_script : String → String
unfolding unescape_line_sep replace_all
safe_json_for_script encoded =
    replace_all "<!--" "<\\!--" (replace_all "</script>" "<\\/script>" (unescape_line_sep encoded))

-- `strings.Replace(s, old, new, 1)`
unfoldable pub replace_first : String → String → String → String
unfolding strip_prefix
replace_first old new String.[] = ""
replace_first old new (String.◌∷◌ c s) = elim (strip_prefix old (String.◌∷◌ c s)) [
  | some rest ↦ append new rest
  | none ↦ String.◌∷◌ c (replace_first old new s)
]

unfoldable pub inject_overlay_cfg : String → String → String → String
unfolding safe_json_for_script replace_first contains
inject_overlay_cfg raw_html overlay_js encoded =
    let inject = concat (
      "<script>window.__ODOC__ = "
      ∷ safe_json_for_script encoded
      ∷ ";</script>\n<script>"
      ∷ overlay_js
      ∷ "</script>"
      ∷ []) in
    if contains "</body>" raw_html
    then replace_first "</body>" (append inject "\n</body>") raw_html
    else append raw_html inject
