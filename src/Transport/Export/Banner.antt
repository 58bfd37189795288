-- ===== src/Transport/Export/Banner.antt =====
-- internal/transport/httpx/forkexport.go: the banner in front of an exported page. A Go map has no
-- order: the one of the dictionary stands for it.
use Prim.Native.Char.{code}
use Prim.Native.String.{◌++◌ as append, len}
use octo_doc.Base.{
  ℕ, ◌+◌, String, List, [], ◌∷◌, Option, none, some, ◌==◌, eqb, ltb, leb, length, if◌then◌else◌,
}
use octo_doc.Core.Stamp.Patterns.{◌>>=◌}
use octo_doc.Base.Int.{pos}
use octo_doc.Base.Text.{concat}
use octo_doc.Core.Markup.{for_html_comment, replace_all}
use octo_doc.Core.Runtime.{itoa}
use octo_doc.Core.Stamp.Headings.{cut_bytes}
use octo_doc.Core.Types.{Author, Anchor, AnchorKind, Reactions, ReplySnapshot, CommentSnapshot}
use octo_doc.Transport.Export.{Input}

-- `truncate`, in bytes
unfoldable pub truncate : String → ℕ → Option String
unfolding cut_bytes
truncate s n =
    if leb (len s) n then some s else elim (cut_bytes n s) [ none ↦ none | some cut ↦ some cut.0 ]

-- `strings.Join(parts, ", ")`
unfoldable pub comma_joined : List String → String
comma_joined [] = ""
comma_joined (s ∷ []) = s
comma_joined (s ∷ t ∷ ss) = concat (s ∷ ", " ∷ comma_joined (t ∷ ss) ∷ [])

unfoldable pub reaction_parts : Reactions → List String
unfolding for_html_comment
reaction_parts [] = []
reaction_parts ((emoji, users) ∷ rs) =
    let rest = reaction_parts rs in
    if ltb 0 (length users)
    then concat (for_html_comment emoji ∷ " (" ∷ itoa (pos (length users)) ∷ ")" ∷ []) ∷ rest
    else rest

unfoldable pub reactions_text : Reactions → String
unfolding reaction_parts comma_joined
reactions_text rs = elim (reaction_parts rs) [
  | [] ↦ ""
  | p ∷ ps ↦ concat ("    reactions: " ∷ comma_joined (p ∷ ps) ∷ "\n" ∷ [])
]

-- the label of an element, or its selector, or a word for it
unfoldable pub element_label : Anchor → String
element_label a =
    if a.label == "" then (if a.selector == "" then "element" else a.selector) else a.label

unfoldable pub described : Anchor → Option String
unfolding truncate replace_all for_html_comment
described a =
    if a.text == ""
    then some "(no anchor)"
    else elim (truncate (replace_all "\"" "\\\"" a.text) 120) [
      | none ↦ none
      | some t ↦ some (concat ("(on text: \"" ∷ for_html_comment t ∷ "\")" ∷ []))
    ]

unfoldable pub describe_anchor : CommentSnapshot → Option String
unfolding described element_label for_html_comment
describe_anchor c = elim c.anchor [
  | none ↦ some "(no anchor)"
  | some a ↦ elim a.kind [
    | AnchorKind.element ↦ some (concat ("(on " ∷ for_html_comment (element_label a) ∷ ")" ∷ []))
    | _ ↦ described a
  ]
]

-- `@` and the login, or "anonymous"
unfoldable pub banner_name : Option Author → String
unfolding for_html_comment
banner_name none = "anonymous"
banner_name (some a) = if a.login == "" then "anonymous" else append "@" (for_html_comment a.login)

-- `ReplaceAllString` of `(?m)^`: the start of the text and what is behind each line break
unfoldable pub indent_rest : String → String → String
indent_rest p String.[] = ""
indent_rest p (String.◌∷◌ c s) =
    let rest = indent_rest p s in String.◌∷◌ c (if eqb (code c) 10 then append p rest else rest)

unfoldable pub indent_lines : String → String → String
unfolding indent_rest
indent_lines s p = if s == "" then "" else append p (indent_rest p s)

unfoldable pub one_line : String → String
unfolding for_html_comment replace_all
one_line s = for_html_comment (replace_all "\n" " " s)

unfoldable pub reply_lines : List ReplySnapshot → String
unfolding banner_name one_line indent_lines reactions_text
reply_lines [] = ""
reply_lines (r ∷ rs) = concat (
    "      ↳ "
    ∷ banner_name r.author
    ∷ ": \""
    ∷ one_line r.text
    ∷ "\"\n"
    ∷ indent_lines (reactions_text r.reactions) "  "
    ∷ reply_lines rs
    ∷ [])

unfoldable pub comment_lines : ℕ → List CommentSnapshot → Option String
unfolding describe_anchor banner_name one_line reactions_text reply_lines
comment_lines i [] = some ""
comment_lines i (c ∷ cs) = do
  place ← describe_anchor c
  rest ← comment_lines (i + 1) cs
  some (
      concat (
        "\n  ["
        ∷ itoa (pos (i + 1))
        ∷ "] "
        ∷ banner_name c.author
        ∷ " "
        ∷ place
        ∷ "\n    \""
        ∷ one_line c.text
        ∷ "\"\n"
        ∷ reactions_text c.reactions
        ∷ reply_lines c.replies
        ∷ rest
        ∷ []))

abbrev pub how_to_use : String
how_to_use = concat (
    "  ## How to use this file\n"
    ∷ "  Save it as ~/odocs/<your-new-slug>/v1/index.html (or anywhere you like).\n"
    ∷ "  Comments below are read-only metadata bundled with the fork. Agents can\n"
    ∷ "  read them to apply changes — say \"apply all comments to this doc\" and the\n"
    ∷ "  agent will find the anchored regions (marked with ODOC-COMMENT html\n"
    ∷ "  comments inline below) and modify them accordingly.\n\n" ∷ [])

unfoldable pub build_banner : Input → List CommentSnapshot → Option String
unfolding comment_lines for_html_comment
build_banner x shown = do
  lines ← comment_lines 0 shown
  some (
      concat (
        "<!--\n  ===== octo-doc fork export =====\n  slug: "
        ∷ for_html_comment x.slug
        ∷ "\n  version: "
        ∷ for_html_comment (itoa x.version)
        ∷ "\n  exported: "
        ∷ x.now
        ∷ "\n\n"
        ∷ how_to_use
        ∷ "  ## Comments included in this export\n  "
        ∷ itoa (pos (length shown))
        ∷ " comment(s).\n"
        ∷ lines
        ∷ "\n  ===== end octo-doc fork export =====\n-->\n"
        ∷ []))
