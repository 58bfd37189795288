-- ===== src/Service/Assets.antt =====
-- internal/service/asset.go: uploads of media, addressed by their content. The bytes of an asset
-- are the characters of a text, so that a size is a number of characters.
pub mod Sniffing
pub mod Uploads
use Prim.Native.String.{count}
use octo_doc.Base.{
  ℕ, ◌+◌, String, Bool, false, not, List, [], ◌∷◌, Option, none, some, ltb, eqb, member,
  if◌then◌else◌,
}
use octo_doc.Base.Int.{pos}
use octo_doc.Base.Text.{concat}
use octo_doc.Base.Slices.{take}
use octo_doc.Platform.Errors.{
  AppError, new_err, validation, payload_too_large, not_found, upstream, with_details,
}
use octo_doc.Platform.Exec.{Error, text_of, Exec, pure, fail, ◌>>=◌, ◌>>◌, or_upstream}
use octo_doc.Core.Runtime.{Clock, itoa, read_iso}
use octo_doc.Storage.Types.{AssetMeta}
use octo_doc.Storage.Backend.{MetadataStore, BlobStore}
use octo_doc.Service.World.{World, stored, computed, with_lock}
use octo_doc.Service.Assets.Sniffing.{Texts, sniff_mime}

-- `sha256` is the hexadecimal text of the hash.
pub record AssetConfig : Type 0 where
  pub max_bytes : ℕ
  pub mime_allow : List String
  pub texts : Texts
  pub sha256 : String → String

pub record AssetResult : Type 0 where
  pub sha256 : String
  pub mime : String
  pub size : ℕ

-- what the reader of a request gives: an error within the limit, or its bytes
pub data Upload : Type 0 where
  broken : Error → Upload
  content : String → Upload

-- the refusals of `Put`
unfoldable pub too_large : ℕ → AppError
unfolding with_details payload_too_large new_err
too_large limit =
    with_details (payload_too_large "asset exceeds size limit" "asset_too_large")
      (("max_bytes", itoa (pos limit)) ∷ [])

unfoldable pub empty_asset : AppError
unfolding validation new_err
empty_asset = validation "empty asset" "asset_empty"

unfoldable pub unsupported : String → AppError
unfolding with_details validation new_err
unsupported mime =
    with_details
      (validation (concat ("unsupported media type: " ∷ mime ∷ [])) "unsupported_media_type")
      (("detected", mime) ∷ [])

module _ {S : Type 0} (meta : MetadataStore S) (blobs : BlobStore S) (clock : Clock)
    (config : AssetConfig) where
  open meta use {put_asset_meta, get_asset_meta, list_asset_meta, delete_asset_meta}
  open blobs use {put_asset, get_asset, delete_asset}

  -- the writes of `Put`, under the lock
  unfoldable pub write_asset : String → String → String → AssetResult → Exec (World S) (Unit {0})
  write_asset slug bytes original_name res = do
    or_upstream (λ cause. upstream "asset blob write failed" "asset_write_failed" (some cause))
        (stored (put_asset slug res.sha256 bytes))
    created ← computed (read_iso clock)
    stored (
        put_asset_meta (record {
          slug = slug;
          sha256 = res.sha256;
          mime = res.mime;
          size = res.size;
          original_name = original_name;
          created = created;
        }))

  unfoldable pub result_of : String → AssetResult
  unfolding sniff_mime
  result_of bytes = record {
    sha256 = config.sha256 bytes;
    mime = sniff_mime config.texts bytes;
    size = count bytes;
  }

  -- `Put` behind the reading of the upload
  unfoldable pub put_data : Option Error → String → String → String → Exec (World S) AssetResult
  unfolding write_asset result_of
  put_data cancelled slug bytes original_name =
      if ltb config.max_bytes (count bytes)
      then fail (too_large config.max_bytes)
      else if eqb (count bytes) 0
      then fail empty_asset
      else (let res = result_of bytes in
          if not (member res.mime config.mime_allow)
          then fail (unsupported res.mime)
          else with_lock cancelled (write_asset slug bytes original_name res) >> pure res)

  -- `Put`: the reader is read one byte past the limit.
  unfoldable pub put : Option Error → String → Upload → String → Exec (World S) AssetResult
  unfolding put_data
  put cancelled slug (broken e) original_name =
      fail (upstream "read upload failed" "asset_read_failed" (some (text_of e)))
  put cancelled slug (content whole) original_name =
      put_data cancelled slug (take (config.max_bytes + 1) whole) original_name

  unfoldable pub present : {A : Type 0} → Option A → Exec (World S) A
  present none = fail (not_found "no such asset")
  present (some a) = pure a

  unfoldable pub get : String → String → Exec (World S) (String × AssetMeta)
  unfolding present
  get slug sha = do
    found ← stored (get_asset_meta slug sha)
    m ← present found
    blob ←
        or_upstream (λ cause. upstream "asset blob read failed" "asset_read_failed" (some cause))
          (stored (get_asset slug sha))
    bytes ← present blob
    pure (bytes, m)

  unfoldable pub list : String → Exec (World S) (List AssetMeta)
  list slug = stored (list_asset_meta slug)

  unfoldable pub delete_locked : String → String → Exec (World S) (Unit {0})
  delete_locked slug sha = do
    or_upstream (λ cause. upstream "asset blob delete failed" "asset_delete_failed" (some cause))
        (stored (delete_asset slug sha))
    stored (delete_asset_meta slug sha)

  unfoldable pub delete : Option Error → String → String → Exec (World S) (Unit {0})
  unfolding delete_locked
  delete cancelled slug sha = with_lock cancelled (delete_locked slug sha)
