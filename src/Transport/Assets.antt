-- ===== src/Transport/Assets.antt =====
-- internal/transport/httpx/handlers_assets.go. The file of the upload's form is an argument: `none`
-- where the form or the field is not there.
use octo_doc.Base.{ℕ, String, List, [], ◌∷◌, Option, map}
use octo_doc.Base.Text.{concat}
use octo_doc.Platform.Errors.{validation}
use octo_doc.Platform.Exec.{Error, Exec, pure, fail, ◌>>=◌}
use octo_doc.Core.Runtime.{Clock}
use octo_doc.Storage.Types.{AssetMeta}
use octo_doc.Storage.Backend.{MetadataStore, BlobStore}
use octo_doc.Service.Assets
use octo_doc.Service.Assets.{AssetConfig, AssetResult, Upload}
use octo_doc.Service.World.{World}
use octo_doc.Transport.Access.{Request}
use octo_doc.Transport.Slugs.{require_slug, require_sha256}

pub record AssetAnswer : Type 0 where
  pub slug : String
  pub sha256 : String
  pub mime : String
  pub size : ℕ
  pub url : String

pub record AssetRow : Type 0 where
  pub sha256 : String
  pub mime : String
  pub size : ℕ
  pub original_name : String
  pub created : String
  pub url : String

-- the multipart form of an upload
pub data UploadForm : Type 0 where
  unreadable : UploadForm
  without_file : UploadForm
  with_file : Upload → String → UploadForm

-- the bytes that are served, and the headers
pub record Served : Type 0 where
  pub bytes : String
  pub headers : List (String × String)

unfoldable pub asset_headers : AssetMeta → List (String × String)
asset_headers m =
    ("Content-Type", m.mime)
    ∷ ("X-Content-Type-Options", "nosniff")
    ∷ ("Content-Security-Policy", "default-src 'none'; sandbox")
    ∷ ("X-Frame-Options", "DENY")
    ∷ ("Referrer-Policy", "no-referrer")
    ∷ ("Cache-Control", "private, max-age=31536000, immutable")
    ∷ []

module _ {S : Type 0} (meta : MetadataStore S) (blobs : BlobStore S) (clock : Clock)
    (config : AssetConfig) (base_url : String) where
  unfoldable pub asset_url : String → String → String
  asset_url slug sha = concat (base_url ∷ "/d/" ∷ slug ∷ "/assets/" ∷ sha ∷ [])

  unfoldable pub received : UploadForm → Exec (World S) (Upload × String)
  received unreadable = fail (validation "invalid multipart body" "invalid_multipart")
  received without_file = fail (validation "missing file field" "file_required")
  received (with_file file name) = pure (file, name)

  unfoldable pub handle_upload_asset :
      Option Error → Request → UploadForm → Exec (World S) AssetAnswer
  unfolding received asset_url
  handle_upload_asset ctx r form = do
    slug ← require_slug r.slug
    sent ← received form
    res ← Assets.put meta blobs clock config ctx slug sent.0 sent.1
    pure (record {
      slug = slug;
      sha256 = res.sha256;
      mime = res.mime;
      size = res.size;
      url = asset_url slug res.sha256;
    })

  unfoldable pub asset_row : String → AssetMeta → AssetRow
  unfolding asset_url
  asset_row slug a = record {
    sha256 = a.sha256;
    mime = a.mime;
    size = a.size;
    original_name = a.original_name;
    created = a.created;
    url = asset_url slug a.sha256;
  }

  unfoldable pub handle_list_assets : Request → Exec (World S) (List AssetRow)
  unfolding asset_row
  handle_list_assets r = do
    slug ← require_slug r.slug
    found ← Assets.list meta blobs clock config slug
    pure (map (asset_row slug) found)

  unfoldable pub handle_delete_asset : Option Error → Request → String → Exec (World S) (Unit {0})
  handle_delete_asset ctx r raw_sha = do
    slug ← require_slug r.slug
    sha ← require_sha256 raw_sha
    Assets.delete meta blobs clock config ctx slug sha

  unfoldable pub handle_serve_asset : Request → String → Exec (World S) Served
  unfolding asset_headers
  handle_serve_asset r raw_sha = do
    slug ← require_slug r.slug
    sha ← require_sha256 raw_sha
    found ← Assets.get meta blobs clock config slug sha
    pure (record { bytes = found.0; headers = asset_headers found.1 })
