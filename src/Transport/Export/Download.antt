-- ===== src/Transport/Export/Download.antt =====
-- internal/transport/httpx/handlers_docs.go: handleForkExport. A text that is cut inside a character
-- has no page here.
use octo_doc.Base.{
  List, String, Bool, not, ◌&&◌, ◌||◌, [], ◌∷◌, Option, none, some, ◌==◌, if◌then◌else◌,
}
use octo_doc.Base.Int.{ℤ}
use octo_doc.Base.Text.{concat}
use octo_doc.Platform.Errors.{not_found}
use octo_doc.Platform.Exec.{Error, Exec, pure, fail, ◌>>=◌}
use octo_doc.Core.Reconcile.{CaseFolding}
use octo_doc.Core.Runtime.{Clock, itoa, read_iso}
use octo_doc.Service.Comments
use octo_doc.Service.Docs
use octo_doc.Service.Records.{Config, RenderData}
use octo_doc.Service.World.{World, computed}
use octo_doc.Storage.Backend.{MetadataStore, BlobStore}
use octo_doc.Transport.Access.{Request, query_value}
use octo_doc.Transport.Export.{Input}
use octo_doc.Transport.Export.Page.{build_fork_export}
use octo_doc.Transport.Responses.{CommentDto}
use octo_doc.Transport.Slugs.{require_slug, version_param}

-- `attachment` is the name of the file in Content-Disposition.
pub record Export : Type 0 where
  pub page : Option String
  pub attachment : Option String

unfoldable pub is_forced : String → String → Bool
is_forced kind download = download == "1" || kind == "export" && not (download == "0")

module _ {S : Type 0} (meta : MetadataStore S) (blobs : BlobStore S) (clock : Clock)
    (fold : CaseFolding) (docs : Config) (atoi : String → Option ℤ) (overlay_js : String)
    (encode_comments : Input → List CommentDto → String) (encode_fork : String → ℤ → String) where
  -- behind the reading of the document
  unfoldable pub exported :
      Option Error → Request → String → String → ℤ → RenderData → Exec (World S) Export
  unfolding is_forced build_fork_export
  exported ctx r kind slug version loaded = do
    comments ← Comments.list meta clock fold ctx slug version
    now ← computed (read_iso clock)
    pure (record {
      page = build_fork_export overlay_js encode_comments encode_fork (record {
        slug = slug;
        version = version;
        html = loaded.html;
        comments = comments;
        kind = kind;
        now = now;
      });
      attachment =
          if is_forced kind (query_value "download" r)
          then some (concat (slug ∷ "-v" ∷ itoa version ∷ "-fork.html" ∷ []))
          else none;
    })

  unfoldable pub handle_fork_export :
      Option Error → Request → String → String → Exec (World S) Export
  unfolding exported
  handle_fork_export ctx r raw_version kind =
      if not (kind == "export") && not (kind == "fork") then fail (not_found "") else (do
        slug ← require_slug r.slug
        elim (version_param atoi raw_version) [
          | none ↦ fail (not_found "")
          | some version ↦ (do
            rendered ← Docs.render meta blobs clock fold docs slug version
            elim rendered [
              | none ↦ fail (not_found (concat ("Not found: " ∷ slug ∷ " v" ∷ raw_version ∷ [])))
              | some loaded ↦ exported ctx r kind slug version loaded
            ])
        ])
