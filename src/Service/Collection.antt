-- ===== src/Service/Collection.antt =====
-- internal/service/gc.go: the collection of assets that no document refers to.
pub mod Scan
pub mod Finding
pub mod Reading
pub mod Safety
pub mod Report
use octo_doc.Base.{
  ℕ, ◌+◌, String, Bool, true, false, not, ◌||◌, List, [], ◌∷◌, ◌++◌, Option, none, some, member,
  if◌then◌else◌,
}
use octo_doc.Base.Int.{ℤ}
use octo_doc.Platform.Exec.{Error, Exec, ok, pure, ◌>>=◌, ◌>>◌}
use octo_doc.Core.Runtime.{Clock}
use octo_doc.Storage.Types.{AssetMeta, MetaEntry}
use octo_doc.Storage.Backend.{MetadataStore, BlobStore}
use octo_doc.Service.World.{World, stored, with_lock}
use octo_doc.Service.Assets.{AssetConfig, delete_locked}
use octo_doc.Service.Collection.Scan.{scan_into}

pub record GcDelete : Type 0 where
  pub slug : String
  pub sha256 : String
  pub size : ℕ
  pub reason : String

pub record GcReport : Type 0 where
  pub scanned : ℕ
  pub assets : ℕ
  pub deleted : List GcDelete
  pub kept : ℕ
  pub referenced : ℕ

unfoldable pub zero_report : GcReport
zero_report = record { scanned = 0; assets = 0; deleted = []; kept = 0; referenced = 0 }

-- The state of a pass: a report is returned with an error too.
pub record Pass (S : Type 0) : Type 0 where
  pub world : World S
  pub report : GcReport

-- `time.Parse` with the layout of `nowISO` and with RFC 3339, and whether the time to `now` is
-- shorter than `grace`, for times in a type of their own.
pub record Grace : Type 1 where
  pub Time : Type 0
  pub parse_iso : String → Option Time
  pub parse_rfc3339 : String → Option Time
  pub is_younger : Time → Bool

-- the age of an asset: none if its time cannot be read
unfoldable pub within_grace : Grace → String → Option Bool
within_grace g created = elim (g.parse_iso created) [
  | some t ↦ some (g.is_younger t)
  | none ↦ elim (g.parse_rfc3339 created) [ some t ↦ some (g.is_younger t) | none ↦ none ]
]

-- `!parsed || within`
abbrev pub is_spared : Option Bool → Bool
is_spared none = true
is_spared (some within) = within

module _ {S : Type 0} where
  abbrev pub on_world : {A : Type 0} → Exec (World S) A → Exec (Pass S) A
  on_world m p = let (r, w) = m p.world in (r, record p { world = w })

  abbrev pub noted : (GcReport → GcReport) → Exec (Pass S) (Unit {0})
  noted f p = (ok tt, record p { report = f p.report })

count_scanned : GcReport → GcReport
count_scanned r = record r { scanned = r.scanned + 1 }

unfoldable pub count_referenced : GcReport → GcReport
count_referenced r = record r {
  assets = r.assets + 1;
  kept = r.kept + 1;
  referenced = r.referenced + 1;
}

unfoldable pub count_spared : GcReport → GcReport
count_spared r = record r { assets = r.assets + 1; kept = r.kept + 1 }

count_examined : GcReport → GcReport
count_examined r = record r { assets = r.assets + 1 }

list_deleted : String → AssetMeta → GcReport → GcReport
list_deleted slug a r = record r {
  deleted =
      r.deleted
      ++ record { slug = slug; sha256 = a.sha256; size = a.size; reason = "unreferenced" } ∷ [];
}

unfoldable pub scan_found : Option String → List String → List String
unfolding scan_into
scan_found none refs = refs
scan_found (some html) refs = scan_into html refs

module _ {S : Type 0} (meta : MetadataStore S) (blobs : BlobStore S) (clock : Clock)
    (config : AssetConfig) where
  open meta use {list_meta, list_asset_meta, list_asset_slugs}
  open blobs use {get_doc, list_versions, get_draft}

  unfoldable pub scan_versions : String → List ℤ → List String → Exec (World S) (List String)
  unfolding scan_found
  scan_versions slug [] refs = pure refs
  scan_versions slug (n ∷ ns) refs = do
    html ← stored (get_doc slug n)
    scan_versions slug ns (scan_found html refs)

  unfoldable pub scan_slug_into : String → List String → Exec (World S) (List String)
  unfolding scan_versions scan_found
  scan_slug_into slug refs = do
    versions ← stored (list_versions slug)
    refs' ← scan_versions slug versions refs
    draft ← stored (get_draft slug)
    pure (scan_found draft refs')

  -- the first loop of `allReferencedSHAs`, with the slugs scanned
  unfoldable pub scan_docs :
      List MetaEntry → List String → List String → Exec (World S) (List String × List String)
  unfolding scan_slug_into
  scan_docs [] scanned refs = pure (scanned, refs)
  scan_docs (e ∷ es) scanned refs = do
    refs' ← scan_slug_into e.slug refs
    scan_docs es (e.slug ∷ scanned) refs'

  -- the second loop, over the slugs with assets
  unfoldable pub scan_rest : List String → List String → List String → Exec (World S) (List String)
  unfolding scan_slug_into
  scan_rest [] scanned refs = pure refs
  scan_rest (slug ∷ slugs) scanned refs =
      if member slug scanned
      then scan_rest slugs scanned refs
      else scan_slug_into slug refs >>= scan_rest slugs scanned

  unfoldable pub all_referenced : List String → Exec (World S) (List String)
  unfolding scan_docs scan_rest
  all_referenced asset_slugs = do
    docs ← stored list_meta
    found ← scan_docs docs [] []
    scan_rest asset_slugs found.0 found.1

  module _ (g : Grace) (dry_run : Bool) where
    -- the end of the loop's body in `gcSlug`
    unfoldable pub reap : String → AssetMeta → Exec (Pass S) (Unit {0})
    unfolding count_examined list_deleted delete_locked
    reap slug a = do
      noted count_examined
      if dry_run then pure tt else on_world (delete_locked meta blobs clock config slug a.sha256)
      noted (list_deleted slug a)

    unfoldable pub gc_asset :
        String → List String → List String → AssetMeta → Exec (Pass S) (Unit {0})
    unfolding reap within_grace count_referenced count_spared
    gc_asset slug refs fresh a =
        if member a.sha256 refs || member a.sha256 fresh
        then noted count_referenced
        else if is_spared (within_grace g a.created)
        then noted count_spared
        else reap slug a

    unfoldable pub gc_assets_of :
        String → List String → List String → List AssetMeta → Exec (Pass S) (Unit {0})
    unfolding gc_asset
    gc_assets_of slug refs fresh [] = pure tt
    gc_assets_of slug refs fresh (a ∷ rest) = do
      gc_asset slug refs fresh a
      gc_assets_of slug refs fresh rest

    unfoldable pub gc_slug : String → List String → Exec (Pass S) (Unit {0})
    unfolding gc_assets_of scan_slug_into
    gc_slug slug refs = do
      fresh ← on_world (scan_slug_into slug [])
      assets ← on_world (stored (list_asset_meta slug))
      gc_assets_of slug refs fresh assets

    unfoldable pub gc_slugs : Option Error → List String → List String → Exec (Pass S) (Unit {0})
    unfolding count_scanned gc_slug
    gc_slugs cancelled [] refs = pure tt
    gc_slugs cancelled (slug ∷ slugs) refs = do
      noted count_scanned
      with_lock cancelled (gc_slug slug refs)
      gc_slugs cancelled slugs refs

    -- `GCAssets`, on a pass with an empty report
    unfoldable pub gc_assets : Option Error → Exec (Pass S) (Unit {0})
    unfolding all_referenced gc_slugs
    gc_assets cancelled = do
      asset_slugs ← on_world (stored list_asset_slugs)
      refs ← on_world (all_referenced asset_slugs)
      gc_slugs cancelled asset_slugs refs
