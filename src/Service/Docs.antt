-- ===== src/Service/Docs.antt =====
-- internal/service/doc.go: publishing, drafts, rendering, version lists and removal of documents.
pub mod Promotion
pub mod Versions
pub mod Publication
use Prim.Native.String.{len}
use mathlib.Core.List.{reverse}
use octo_doc.Base.{
  ℕ, zero, suc, String, Bool, false, ◌||◌, List, [], ◌∷◌, ◌++◌, Option, none, some, ◌==◌, ltb,
  length, if◌then◌else◌,
}
use octo_doc.Base.Int.{ℤ, pos, negsuc, ltb_ℤ, eqb_ℤ}
use octo_doc.Base.Dict.{insert, delete, lookup}
use octo_doc.Base.Text.{concat}
use octo_doc.Platform.Errors.{validation, payload_too_large, not_found, upstream}
use octo_doc.Platform.Exec.{Error, Exec, pure, raise, fail, ◌>>=◌, ◌>>◌, or_upstream, attempt}
use octo_doc.Core.Types.{Comment, StampedArtifact}
use octo_doc.Core.Runtime.{Clock, itoa, read_rfc3339}
use octo_doc.Core.Reconcile.{CaseFolding}
use octo_doc.Core.Requests.{Body, merged}
use octo_doc.Storage.Types.{
  Json, text, object, field, end, VersionRef, DocMeta, MetaEntry, AssetMeta,
}
use octo_doc.Storage.Backend.{MetadataStore, BlobStore}
use octo_doc.Service.Records.{
  StampResult, Config, PublishInput, PublishResult, RenderData, VersionList, DraftResult, OwnerDoc,
}
use octo_doc.Service.Numbering.{
  sift, sort_onto, sort_versions, has_version, max_version, next, refs_of, last_version,
}
use octo_doc.Service.World.{World, stored, computed, with_lock}
use octo_doc.Service.Comments.{wipe_locked, publish_merge_locked}

abbrev pub or_text : String → String → String
or_text s d = if s == "" then d else s

-- `extra` without a key
abbrev pub without : String → List (String × Json) → List (String × Json)
without k extra = delete k extra

abbrev pub versions_of : Option DocMeta → List VersionRef
versions_of none = []
versions_of (some m) = m.versions

abbrev pub new_meta : String → Option DocMeta → DocMeta
new_meta slug none = record { slug = slug; title = slug; versions = []; extra = [] }
new_meta slug (some m) = m

abbrev pub merged_count : Body → ℕ
merged_count (merged n) = n
merged_count _ = 0

-- the record that `upsertMeta` writes
unfoldable pub published_meta : PublishInput → DocMeta → List VersionRef → DocMeta
unfolding sort_versions
published_meta input prev versions = record {
  slug = input.slug;
  title = or_text (or_text input.title prev.title) input.slug;
  versions = sort_versions versions;
  extra = prev.extra;
}

module _ {S : Type 0} (meta : MetadataStore S) (blobs : BlobStore S) (clock : Clock)
    (fold : CaseFolding) (config : Config) where
  open meta use {get_meta, put_meta, delete_meta, list_meta, list_asset_meta, delete_asset_meta}
  open blobs use {
    put_doc, get_doc, head_doc, list_versions, delete_doc, put_draft, get_draft, delete_draft,
  }
  open config use {base_url, max_bytes, stamp_aids}

  unfoldable pub resolve_version : String → ℤ → Exec (World S) ℤ
  unfolding max_version
  resolve_version slug explicit =
      if ltb_ℤ (pos 0) explicit
      then pure explicit
      else do existing ← stored (list_versions slug); pure (next (max_version (pos 0) existing))

  now_rfc3339 : Exec (World S) String
  now_rfc3339 = computed (read_rfc3339 clock)

  -- `append(versions, VersionRef{version, now})`
  unfoldable pub with_now : ℤ → List VersionRef → Exec (World S) (List VersionRef)
  unfolding now_rfc3339
  with_now version vs = do
    created ← now_rfc3339
    pure (vs ++ record { n = version; created = some created } ∷ [])

  unfoldable pub with_version : ℤ → List VersionRef → Exec (World S) (List VersionRef)
  unfolding has_version with_now
  with_version version vs = if has_version version vs then pure vs else with_now version vs

  unfoldable pub upsert_meta : PublishInput → ℤ → Exec (World S) (Unit {0})
  unfolding with_version published_meta
  upsert_meta input version = do
    found ← stored (get_meta input.slug)
    let prev = new_meta input.slug found
    versions ← with_version version prev.versions
    stored (put_meta input.slug (published_meta input prev versions))

  -- `HeadDoc` behind the write of a version
  unfoldable pub check_written : Option ℕ → Exec (World S) (Unit {0})
  check_written none = fail (upstream "blob write did not persist" "blob_write_lost" none)
  check_written (some size) = pure tt

  -- `publishLocked` behind the write of the document
  unfoldable pub record_version : PublishInput → StampResult → ℤ → ℕ → Exec (World S) PublishResult
  unfolding upsert_meta publish_merge_locked
  record_version input stamped version size = do
    upsert_meta input version
    merge ←
        publish_merge_locked meta clock fold input.slug input.local_comments stamped.aids version
    pure (record {
      slug = input.slug;
      version = version;
      url = concat (base_url ∷ "/d/" ∷ input.slug ∷ "/v/" ∷ itoa version ∷ []);
      size = size;
      aids = length stamped.aids;
      merged_comments = merged_count merge.body;
    })

  -- `publishLocked` behind the choice of the version
  unfoldable pub publish_version : PublishInput → StampResult → ℤ → Exec (World S) PublishResult
  unfolding check_written record_version
  publish_version input stamped version = do
    size ←
        or_upstream (λ e. upstream "blob write failed" "blob_write_failed" (some e))
          (stored (put_doc input.slug version stamped.html))
    head ←
        or_upstream (λ e. upstream "blob head failed" "blob_head_failed" (some e))
          (stored (head_doc input.slug version))
    check_written head
    record_version input stamped version size

  unfoldable pub publish_locked : PublishInput → StampResult → Exec (World S) PublishResult
  unfolding resolve_version publish_version
  publish_locked input stamped = do
    version ← resolve_version input.slug input.version
    publish_version input stamped version

  too_large : Error
  too_large = Error.app (
      payload_too_large (concat ("document exceeds " ∷ itoa (pos max_bytes) ∷ " bytes" ∷ []))
        "html_too_large")

  unfoldable pub publish : Option Error → PublishInput → Exec (World S) PublishResult
  unfolding with_lock publish_locked too_large
  publish ctx input =
      if input.html == ""
      then fail (validation "html (file) required" "html_required")
      else if ltb max_bytes (len input.html)
      then raise too_large
      else with_lock ctx (publish_locked input (stamp_aids input.html))

  rendered : String → Option String → Exec (World S) (Option RenderData)
  rendered slug none = pure none
  rendered slug (some html) = do
    found ← stored (get_meta slug)
    pure (some (record { html = html; versions = versions_of found }))

  unfoldable pub render : String → ℤ → Exec (World S) (Option RenderData)
  unfolding rendered
  render slug version = do html ← stored (get_doc slug version); rendered slug html

  unfoldable pub set_draft_meta : String → String → Exec (World S) (Unit {0})
  unfolding now_rfc3339
  set_draft_meta slug title = do
    found ← stored (get_meta slug)
    let prev = new_meta slug found
    updated ← now_rfc3339
    stored (
        put_meta slug (record {
          slug = slug;
          title = or_text (or_text title prev.title) slug;
          versions = prev.versions;
          extra = insert "draft" (object (field "updated_at" (text updated) end)) prev.extra;
        }))

  -- what `SaveDraft` does under the lock
  store_draft : String → String → StampResult → Exec (World S) DraftResult
  unfolding set_draft_meta
  store_draft slug title stamped = do
    size ←
        or_upstream (λ e. upstream "draft write failed" "draft_write_failed" (some e))
          (stored (put_draft slug stamped.html))
    set_draft_meta slug title
    pure (record {
      slug = slug;
      url = concat (base_url ∷ "/d/" ∷ slug ∷ "/draft" ∷ []);
      size = size;
      aids = length stamped.aids;
    })

  unfoldable pub save_draft : Option Error → String → String → String → Exec (World S) DraftResult
  unfolding with_lock store_draft too_large
  save_draft ctx slug html title =
      if html == ""
      then fail (validation "html required" "html_required")
      else if ltb max_bytes (len html)
      then raise too_large
      else with_lock ctx (store_draft slug title (stamp_aids html))

  unfoldable pub read_draft : String → Exec (World S) (Option RenderData)
  unfolding rendered
  read_draft slug = do html ← stored (get_draft slug); rendered slug html

  drop_draft_marker : String → Option DocMeta → Exec (World S) (Unit {0})
  drop_draft_marker slug none = pure tt
  drop_draft_marker slug (some prev) = elim (lookup "draft" prev.extra) [
    | none ↦ pure tt
    | some _ ↦ stored (
        put_meta slug (record {
          slug = prev.slug;
          title = prev.title;
          versions = prev.versions;
          extra = without "draft" prev.extra;
        }))
  ]

  unfoldable pub clear_draft_meta : String → Exec (World S) (Unit {0})
  unfolding drop_draft_marker
  clear_draft_meta slug = do found ← stored (get_meta slug); drop_draft_marker slug found

  unfoldable pub promote_html : String → String → Option String → Exec (World S) PublishResult
  unfolding publish_locked clear_draft_meta
  promote_html slug title none = fail (not_found (concat ("no draft to publish for " ∷ slug ∷ [])))
  promote_html slug title (some html) = do
    result ←
        publish_locked
          (record { slug = slug; html = html; version = pos 0; title = title; local_comments = [] })
          (stamp_aids html)
    attempt (stored (delete_draft slug))
    attempt (clear_draft_meta slug)
    pure result

  unfoldable pub promote : Option Error → String → String → Exec (World S) PublishResult
  unfolding with_lock promote_html
  promote ctx slug title =
      with_lock ctx (do html ← stored (get_draft slug); promote_html slug title html)

  version_list : String → Option DocMeta → List ℤ → Option VersionList
  unfolding refs_of
  version_list slug none [] = none
  version_list slug none (n ∷ ns) =
      some (record { slug = slug; title = slug; versions = refs_of (n ∷ ns) })
  version_list slug (some m) ns = elim m.versions [
    | [] ↦ some (record { slug = slug; title = slug; versions = refs_of ns })
    | v ∷ vs ↦ some (record { slug = slug; title = or_text m.title slug; versions = v ∷ vs })
  ]

  unfoldable pub list_doc_versions : String → Exec (World S) (Option VersionList)
  unfolding version_list
  list_doc_versions slug = do
    found ← stored (get_meta slug)
    existing ← stored (list_versions slug)
    pure (version_list slug found existing)

  delete_assets : String → List AssetMeta → Exec (World S) (Unit {0})
  delete_assets slug [] = pure tt
  delete_assets slug (a ∷ rest) = do
    stored (delete_asset_meta slug a.sha256)
    delete_assets slug rest

  unfoldable pub remove : Option Error → String → Exec (World S) (Unit {0})
  unfolding with_lock delete_assets wipe_locked
  remove ctx slug = with_lock ctx (do
    stored (delete_doc slug)
    assets ← stored (list_asset_meta slug)
    delete_assets slug assets
    stored (delete_meta slug)
    wiped ← wipe_locked meta clock fold slug
    pure tt)

  -- the rows of the catalog; a document whose latest version is out of reach is left out
  owner_rows : List MetaEntry → Exec (World S) (List OwnerDoc)
  unfolding last_version
  owner_rows [] = pure []
  owner_rows (e ∷ es) =
      let latest = last_version (pos 1) e.meta.versions in
      do
        head ← attempt (stored (head_doc e.slug latest))
        rows ← owner_rows es
        pure (elim head [
          | some (some size) ↦
              record { slug = e.slug; title = or_text e.meta.title e.slug; latest = latest } ∷ rows
          | _ ↦ rows
        ])

  unfoldable pub list_all_for_owner : Exec (World S) (List OwnerDoc)
  unfolding owner_rows
  list_all_for_owner = do entries ← stored list_meta; owner_rows entries
