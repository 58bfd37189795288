-- ===== src/Transport/Export.antt =====
-- internal/transport/httpx/forkexport.go: what is exported, and the marks around the texts of comments.
pub mod Banner
pub mod Marks
pub mod Page
pub mod Download
use Prim.Native.String.{len}
use octo_doc.Base.{
  String, Bool, not, ◌||◌, List, [], ◌∷◌, Option, none, some, ◌==◌, ltb, if◌then◌else◌,
}
use octo_doc.Base.Int.{ℤ}
use octo_doc.Base.Text.{concat}
use octo_doc.Core.Markup.{for_html_comment, replace_first}
use octo_doc.Core.Types.{Author, Status, unresolved, applied, CommentSnapshot}

-- `forkExportInput` with its comments, less the overlay's script
pub record Input : Type 0 where
  pub slug : String
  pub version : ℤ
  pub html : String
  pub comments : List CommentSnapshot
  pub kind : String
  pub now : String

abbrev pub status_text : Status → String
status_text unresolved = "open"
status_text applied = "applied"

unfoldable pub is_open : CommentSnapshot → Bool
is_open c = not (status_text c.status == "resolved")

unfoldable pub marker_name : Option Author → String
marker_name none = "anonymous"
marker_name (some a) = if a.login == "" then "anonymous" else a.login

unfoldable pub opening : CommentSnapshot → String
unfolding for_html_comment marker_name
opening c = concat (
    "<!--ODOC-COMMENT id=\""
    ∷ for_html_comment c.id
    ∷ "\" by=\""
    ∷ for_html_comment (marker_name c.author)
    ∷ "\"-->"
    ∷ [])

abbrev pub closing : String
closing = "<!--/ODOC-COMMENT-->"

-- the text that a comment is found by, if it has at least two bytes
unfoldable pub needle : CommentSnapshot → Option String
needle c = elim c.anchor [
  | none ↦ none
  | some a ↦ if a.text == "" || ltb (len a.text) 2 then none else some a.text
]

unfoldable pub mark_one : CommentSnapshot → String → String
unfolding needle replace_first opening
mark_one c out = elim (needle c) [
  | none ↦ out
  | some text ↦ replace_first text (concat (opening c ∷ text ∷ closing ∷ [])) out
]

unfoldable pub mark_anchored_text : String → List CommentSnapshot → String
unfolding mark_one
mark_anchored_text out [] = out
mark_anchored_text out (c ∷ cs) = mark_anchored_text (mark_one c out) cs
