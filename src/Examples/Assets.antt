-- ===== src/Examples/Assets.antt =====
-- An image that a document shows, its upload and a collection.
use octo_doc.Base.{
  length, ℕ, String, true, false, [], ◌∷◌, none, some, ◌≡◌, inl, refl, arith, ltb, member,
}
use Prim.Native.String.{◌++◌ as append}
use octo_doc.Base.Int.{pos}
use octo_doc.Base.Dict.{lookup, insert}
use octo_doc.Base.Text.{has_nul, nul_key, nul_prefix, strip_prefix}
use octo_doc.Platform.Exec.{Error, Result, ok, err}
use octo_doc.Storage.Types.{DocMeta, AssetMeta}
use octo_doc.Storage.Decimal.{itoa, atoi}
use octo_doc.Storage.Memory.{
  Store, empty, put_asset, put_asset_meta, put_doc, put_meta, get_meta, get_doc, get_asset,
  get_asset_meta, list_meta, list_asset_slugs, list_versions, list_asset_meta, delete_asset,
  delete_asset_meta, get_draft, blob_key, draft_key,
}
use octo_doc.Storage.Memory.Instance.{memory_meta, memory_blobs}
use octo_doc.Service.World.{World, with_lock}
use octo_doc.Service.Assets.{delete_locked, AssetConfig, content, put}
use octo_doc.Service.Assets.Uploads.{is_refused, status_of, put-refused}
use octo_doc.Service.Collection.{all_referenced, within_grace, Pass, Grace, zero_report, gc_assets}
use octo_doc.Service.Collection.Scan.{is_hex, add_run, runs_of, hex_runs, scan_into}
use octo_doc.Service.Collection.Finding.{all_hex, IsAddress, HasShortRuns, scan_into-finds}
use octo_doc.Service.Collection.Reading.{IsLive}
use octo_doc.Service.Collection.Report.{IsBalanced, gc_assets-IsBalanced}
use octo_doc.Service.Collection.Safety.{gc_assets-keeps, start}
use octo_doc.Examples.Core.{clock, machine}

abbrev sha : String
sha = "00112233445566778899aabbccddeeff00112233445566778899aabbccddeeff"

abbrev html : String
html = append "<img src=x/" (append sha ">")

abbrev png : String
png = "PNG image"

abbrev config : AssetConfig
config = record {
  max_bytes = 100;
  mime_allow = "image/png" ∷ [];
  texts = record { detect = λ s. "image/png"; to_lower = λ s. s; trim_space = λ s. s };
  sha256 = λ s. sha;
}

abbrev guide : DocMeta
guide = record { slug = "guide"; title = "Guide"; versions = []; extra = [] }

abbrev world : World Store
world = record {
  store = (put_doc "guide" (pos 1) html (put_meta "guide" guide empty)).1;
  machine = machine;
}

abbrev grace : Grace
grace = record {
  Time = ℕ;
  parse_iso = λ s. some 5;
  parse_rfc3339 = λ s. none;
  is_younger = λ t. ltb t 3;
}

sha-IsAddress : IsAddress sha
unfolding all_hex is_hex
sha-IsAddress = (refl, refl)

html-HasShortRuns : HasShortRuns html
unfolding hex_runs runs_of add_run is_hex
html-HasShortRuns = (omega arith, tt)

scan_into-finds_example : member sha (scan_into html []) ≡ true
scan_into-finds_example = scan_into-finds "<img src=x/" sha ">" [] sha-IsAddress html-HasShortRuns

html-IsLive : IsLive world.store "guide" html
unfolding get_doc put_doc put_meta empty lookup insert nul_key itoa
html-IsLive = inl (1, omega arith, refl)

guide_stored : get_meta "guide" world.store ≡ some guide
unfolding get_meta put_doc put_meta empty lookup insert
guide_stored = refl

gc_assets-keeps_example :
    (p : Pass Store) × (gc_assets
        (memory_meta 0)
        memory_blobs
        clock
        config
        grace
        false
        none
        (start world)
      ≡ (ok tt, p))
    × (get_asset "other" sha p.world.store ≡ get_asset "other" sha world.store)
    × (get_asset_meta "other" sha p.world.store ≡ get_asset_meta "other" sha world.store)
unfolding has_nul
gc_assets-keeps_example =
    gc_assets-keeps 0 clock config grace false "other" "guide" "<img src=x/" sha ">" guide world
      refl sha-IsAddress guide_stored html-IsLive html-HasShortRuns

abbrev bare : World Store
bare = record { store = empty; machine = machine }

abbrev unused : String
unused = "ffffffffffffffffffffffffffffffffffffffffffffffffffffffffffffffff"

abbrev image : String → AssetMeta
image hash = record {
  slug = "guide";
  sha256 = hash;
  mime = "image/png";
  size = 9;
  original_name = "a.png";
  created = "2024";
}

-- the image that the document shows, and one that no document shows
abbrev stocked : World Store
stocked = record {
  store = put_asset_meta (image unused) (
      put_asset_meta (image sha)
        (put_asset "guide" unused "gone" (put_asset "guide" sha "PNG image" world.store)));
  machine = machine;
}

collected : Result (Unit {0}) × Pass Store
unfolding gc_assets
collected = gc_assets (memory_meta 0) memory_blobs clock config grace false none (start stocked)

collected_lem : collected ≡ (ok tt, collected.1)
unfolding collected list_meta put_asset_meta put_asset put_doc put_meta insert empty list_versions
    strip_prefix nul_prefix nul_key itoa atoi list_asset_slugs lookup with_lock list_asset_meta
    delete_locked all_referenced delete_asset delete_asset_meta get_doc get_draft within_grace
    blob_key draft_key scan_into
collected_lem = refl

one_deleted : length collected.1.report.deleted ≡ 1
unfolding collected list_meta put_asset_meta put_asset put_doc put_meta insert empty list_versions
    strip_prefix nul_prefix nul_key itoa atoi list_asset_slugs lookup with_lock list_asset_meta
    delete_locked all_referenced delete_asset delete_asset_meta get_doc get_draft within_grace
    blob_key draft_key scan_into zero_report
one_deleted = refl

gc_assets-IsBalanced_example : IsBalanced collected.1.report
unfolding collected
gc_assets-IsBalanced_example =
    gc_assets-IsBalanced (memory_meta 0) memory_blobs clock config grace false none stocked
      collected.1 collected_lem

put-refused_example :
    (e : Error) × (put
        (memory_meta 0)
        memory_blobs
        clock
        config
        none
        "guide"
        (content "")
        "a.png"
        bare
      ≡ (err e, bare))
    × (status_of e ≡ 400)
unfolding is_refused
put-refused_example =
    put-refused (memory_meta 0) memory_blobs clock config none "guide" "" "a.png" bare refl
