-- ===== src/Transport/Export/Page.antt =====
-- internal/transport/httpx/forkexport.go: the exported page. A text that is cut inside a character
-- has no result here. `encode_comments` and `encode_fork` print the values that become JSON.
use octo_doc.Base.{String, List, [], ◌∷◌, Option, some, ◌==◌, map, if◌then◌else◌, keep}
use octo_doc.Core.Stamp.Patterns.{◌>>=◌}
use octo_doc.Base.Int.{ℤ}
use octo_doc.Base.Text.{concat}
use octo_doc.Core.Markup.{safe_json_for_script, inject_overlay_cfg}
use octo_doc.Transport.Responses.{CommentDto, to_comment_dto}
use octo_doc.Transport.Export.{Input, is_open, mark_anchored_text}
use octo_doc.Transport.Export.Banner.{build_banner}

module _ (overlay_js : String) (encode_comments : Input → List CommentDto → String)
    (encode_fork : String → ℤ → String) where
  unfoldable pub build_fork_export : Input → Option String
  unfolding is_open build_banner mark_anchored_text safe_json_for_script inject_overlay_cfg
  build_fork_export x = do
    let shown = keep is_open x.comments
    banner ← build_banner x shown
    let block = concat (
        "<script type=\"application/json\" id=\"odoc-fork-comments\">"
        ∷ safe_json_for_script (encode_comments x (map to_comment_dto shown))
        ∷ "</script>\n"
        ∷ [])
    let body = mark_anchored_text x.html shown
    let page =
        if x.kind == "fork"
        then inject_overlay_cfg body overlay_js (encode_fork x.slug x.version)
        else body
    some (concat (banner ∷ block ∷ page ∷ []))
