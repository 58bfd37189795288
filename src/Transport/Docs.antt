-- ===== src/Transport/Docs.antt =====
-- internal/transport/httpx/handlers_docs.go. A parsed request body, the session of the cookie and
-- the overlay's script are arguments; `encode` prints the boot configuration, and writing a page's
-- headers is left out.
use octo_doc.Base.{
  String, Bool, true, false, List, [], ◌∷◌, Option, none, some, ◌==◌, eqb, if◌then◌else◌,
}
use Prim.Native.String.{◌++◌ as append}
use octo_doc.Base.Int.{ℤ, pos}
use octo_doc.Base.Text.{concat}
use octo_doc.Platform.Errors.{validation, not_found}
use octo_doc.Platform.Exec.{Error, Exec, pure, fail, ◌>>=◌, ◌>>◌, attempt}
use octo_doc.Core.Markup.{inject_overlay_cfg, contains, replace_first}
use octo_doc.Core.Runtime.{Clock, itoa}
use octo_doc.Core.Reconcile.{CaseFolding}
use octo_doc.Core.Types.{Comment}
use octo_doc.Storage.Types.{Session, VersionRef}
use octo_doc.Storage.Backend.{MetadataStore, BlobStore}
use octo_doc.Service.Auth.{
  AuthConfig, cap_author, generate_code, revoke_code, get_session, is_owner,
}
use octo_doc.Service.Docs
use octo_doc.Service.Records.{Config, PublishResult, RenderData, VersionList, DraftResult}
use octo_doc.Service.World.{World}
use octo_doc.Transport.Access.{Request, Outside, rank, resolve_cap}
use octo_doc.Transport.Responses.{
  OverlayIdentity, VersionListDto, identity_from_session, to_version_list_dto,
}
use octo_doc.Transport.Slugs.{require_slug, version_param}

-- `publishBody`
pub record PublishBody : Type 0 where
  pub slug : String
  pub html : String
  pub version : ℤ
  pub title : String
  pub local_comments : List Comment

-- the fields of a JSON body, with the title under `meta`
pub record JsonPublish : Type 0 where
  pub slug : String
  pub html : String
  pub version : ℤ
  pub title : String
  pub meta_title : Option String
  pub comments : List Comment

-- `readJSONPublish` behind the decoder
unfoldable pub read_json_publish : JsonPublish → PublishBody
read_json_publish raw = record {
  slug = raw.slug;
  html = raw.html;
  version = raw.version;
  title = if raw.title == "" then elim raw.meta_title [ none ↦ "" | some t ↦ t ] else raw.title;
  local_comments = raw.comments;
}

-- `core.OverlayConfig`, without the field that only a fork sets
pub record OverlayConfig : Type 0 where
  pub slug : String
  pub version : ℤ
  pub identity : Option OverlayIdentity
  pub mode : String
  pub auth_configured : Bool
  pub is_owner : Bool
  pub versions : List VersionRef

unfoldable pub to_version_refs : List VersionRef → ℤ → List VersionRef
to_version_refs [] current = record { n = current; created = none } ∷ []
to_version_refs (v ∷ vs) current = v ∷ vs

unfoldable pub bool_text : Bool → String
bool_text true = "true"
bool_text false = "false"

-- the marker stands before the first occurrence of the configuration's script
unfoldable pub inject_cap_marker : String → Bool → String
unfolding contains replace_first bool_text
inject_cap_marker html is_author =
    let marker =
      concat
        ("<script>window.__ODOC_CAP__ = {isAuthor: " ∷ bool_text is_author ∷ "};</script>" ∷ []) in
    let anchor : String = "<script>window.__ODOC__ = " in
    if contains anchor html
    then replace_first anchor (concat (marker ∷ "\n" ∷ anchor ∷ [])) html
    else append html marker

-- the answer of `handleShare`
pub record Shared : Type 0 where
  pub slug : String
  pub code : String
  pub url : String

unfoldable pub last_number : List VersionRef → Option ℤ
last_number [] = none
last_number (v ∷ []) = some v.n
last_number (v ∷ w ∷ vs) = last_number (w ∷ vs)

-- the version that a share link opens: 1 if the versions cannot be listed or there are none
unfoldable pub share_version : Option (Option VersionList) → ℤ
unfolding last_number
share_version (some (some vl)) = elim (last_number vl.versions) [ none ↦ pos 1 | some n ↦ n ]
share_version _ = pos 1

module _ {S : Type 0} (meta : MetadataStore S) (blobs : BlobStore S) (clock : Clock)
    (fold : CaseFolding) (outside : Outside) (docs : Config) (auth : AuthConfig)
    (atoi : String → Option ℤ) (overlay_js : String) (encode : OverlayConfig → String) where
  unfoldable pub handle_publish : Option Error → PublishBody → Exec (World S) PublishResult
  handle_publish ctx body = do
    slug ← require_slug body.slug
    if body.html == ""
        then fail (validation "html (file) required" "html_required")
        else Docs.publish meta blobs clock fold docs ctx (record {
          slug = slug;
          html = body.html;
          version = body.version;
          title = body.title;
          local_comments = body.local_comments;
        })

  unfoldable pub handle_save_draft :
      Option Error → Request → PublishBody → Exec (World S) DraftResult
  handle_save_draft ctx r body = do
    slug ← require_slug r.slug
    if body.html == ""
        then fail (validation "html (file) required" "html_required")
        else Docs.save_draft meta blobs clock fold docs ctx slug body.html body.title

  unfoldable pub handle_promote : Option Error → Request → String → Exec (World S) PublishResult
  handle_promote ctx r title = do
    slug ← require_slug r.slug
    Docs.promote meta blobs clock fold docs ctx slug title

  unfoldable pub overlay : String → ℤ → String → Option Session → List VersionRef → OverlayConfig
  unfolding identity_from_session to_version_refs is_owner
  overlay slug version mode session versions = record {
    slug = slug;
    version = version;
    identity = identity_from_session session;
    mode = mode;
    auth_configured = false;
    is_owner = is_owner meta clock fold auth session;
    versions = to_version_refs versions version;
  }

  unfoldable pub found_page : String → Option RenderData → Exec (World S) RenderData
  found_page what none = fail (not_found (concat ("Not found: " ∷ what ∷ [])))
  found_page what (some page) = pure page

  unfoldable pub handle_render_draft : String → Request → Exec (World S) String
  unfolding found_page overlay inject_overlay_cfg get_session
  handle_render_draft sid r = do
    slug ← require_slug r.slug
    draft ← Docs.read_draft meta blobs clock fold docs slug
    page ← found_page (concat (slug ∷ " draft" ∷ [])) draft
    session ← get_session meta clock fold auth sid
    pure (
        inject_overlay_cfg page.html overlay_js
          (encode (overlay slug (pos 0) "draft" session page.versions)))

  unfoldable pub numbered : String → Exec (World S) ℤ
  unfolding version_param
  numbered raw = elim (version_param atoi raw) [ none ↦ fail (not_found "") | some n ↦ pure n ]

  unfoldable pub handle_render : String → Request → String → Exec (World S) String
  unfolding numbered found_page overlay inject_overlay_cfg inject_cap_marker get_session resolve_cap
  handle_render sid r raw_version = do
    slug ← require_slug r.slug
    version ← numbered raw_version
    stored_page ← Docs.render meta blobs clock fold docs slug version
    page ← found_page (concat (slug ∷ " v" ∷ raw_version ∷ [])) stored_page
    session ← get_session meta clock fold auth sid
    cap ← resolve_cap fold outside meta clock auth r slug
    pure (
        inject_cap_marker
          (inject_overlay_cfg page.html overlay_js
            (encode (overlay slug version "published" session page.versions)))
          (eqb (rank cap) (rank cap_author)))

  unfoldable pub handle_share : Option Error → String → Request → Exec (World S) Shared
  unfolding share_version
  handle_share ctx fresh r = do
    slug ← require_slug r.slug
    code ← generate_code meta clock fold auth ctx slug fresh
    listed ← attempt (Docs.list_doc_versions meta blobs clock fold docs slug)
    pure (record {
      slug = slug;
      code = code;
      url = concat (
          docs.base_url
          ∷ "/d/"
          ∷ slug
          ∷ "/v/"
          ∷ itoa (share_version listed)
          ∷ "?code="
          ∷ code
          ∷ []);
    })

  unfoldable pub handle_revoke_share : Option Error → Request → Exec (World S) String
  handle_revoke_share ctx r = do
    slug ← require_slug r.slug
    revoke_code meta clock fold auth ctx slug
    pure slug

  unfoldable pub handle_versions : Request → Exec (World S) VersionListDto
  unfolding to_version_list_dto
  handle_versions r = do
    slug ← require_slug r.slug
    listed ← Docs.list_doc_versions meta blobs clock fold docs slug
    elim listed [ none ↦ fail (not_found "") | some vl ↦ pure (to_version_list_dto vl) ]

  unfoldable pub handle_delete_doc : Option Error → Request → Exec (World S) (Unit {0})
  handle_delete_doc ctx r = do
    slug ← require_slug r.slug
    Docs.remove meta blobs clock fold docs ctx slug
