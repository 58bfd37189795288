-- ===== src/Service/Collection/Report.antt =====
-- internal/service/gc.go: the report of a pass, over any backend, and the dry run.
use octo_doc.Base.{
  ◌+◌, ◌≤◌, String, Bool, true, false, ◌||◌, List, [], ◌∷◌, Option, none, some, ◌≡◌, refl, subst,
  arith, inl, inr, length, length-append, member, Bool-cases, if◌then◌else◌,
}
use octo_doc.Platform.Exec.{Error, Exec, Result, ok, err, then_on, pure, ◌>>=◌, ◌>>◌}
use octo_doc.Core.Runtime.{Clock}
use octo_doc.Storage.Types.{AssetMeta}
use octo_doc.Storage.Backend.{MetadataStore, BlobStore}
use octo_doc.Service.World.{World, with_lock, stored}
use octo_doc.Service.Assets.{AssetConfig, delete_locked}
use octo_doc.Service.Collection.{
  Pass, GcReport, Grace, zero_report, is_spared, within_grace, on_world, noted, reap, gc_asset,
  gc_assets_of, gc_slug, gc_slugs, gc_assets, list_deleted, count_examined, count_scanned,
  count_referenced, count_spared, all_referenced, scan_slug_into,
}
use octo_doc.Service.Collection.Safety.{start}

-- Every asset examined is kept or deleted, and those referenced are among those kept.
pub record IsBalanced (r : GcReport) : Type 0 where
  pub shared : r.assets ≡ r.kept + length r.deleted
  pub among : r.referenced ≤ r.kept

abbrev Balanced : {S A : Type 0} → Result A × Pass S → Type 0
Balanced (ok a, p) = IsBalanced p.report
Balanced (err e, p) = Unit {0}

abbrev Balances : {S A : Type 0} → Exec (Pass S) A → Type 0
Balances {S} m = (p : Pass S) → IsBalanced p.report → Balanced (m p)

bind-Balances :
    {S A B : Type 0} (m : Exec (Pass S) A) (f : A → Exec (Pass S) B)
    → Balances m
    → ((a : A) → Balances (f a))
    → Balances (m >>= f)
bind-Balances {S} {A} {B} m f hm hf p h = go (m p) (hm p h)
  where
    go : (r : Result A × Pass S) → Balanced r → Balanced (then_on f r)
    go (ok a, q) b = hf a q b
    go (err e, q) b = tt

on_world-Balances : {S A : Type 0} (m : Exec (World S) A) → Balances (on_world m)
on_world-Balances {S} {A} m p h = go (m p.world)
  where
    go : (r : Result A × World S) → Balanced (r.0, record p { world = r.1 })
    go (ok a, w) = h
    go (err e, w) = tt

locked-Balances :
    {S : Type 0} (cancelled : Option Error) (m : Exec (Pass S) (Unit {0}))
    → Balances m
    → Balances (with_lock cancelled m)
unfolding with_lock
locked-Balances none m h = h
locked-Balances (some e) m h = λ p b. tt

module _ {S : Type 0} (meta : MetadataStore S) (blobs : BlobStore S) (clock : Clock)
    (config : AssetConfig) (g : Grace) (dry_run : Bool) where
  reap-Balances :
      (slug : String) (a : AssetMeta) → Balances (reap meta blobs clock config g dry_run slug a)
  unfolding reap list_deleted count_examined
  reap-Balances slug a p h = ends dry_run
    where
      examined : Pass S
      examined = record p { report = count_examined p.report }

      listed : IsBalanced (list_deleted slug a (count_examined p.report))
      listed = ground (
        arith,
        length-append p.report.deleted (
            record { slug = slug; sha256 = a.sha256; size = a.size; reason = "unreferenced" } ∷ []),
      )

      deleted :
          (r : Result (Unit {0}) × World S)
          → Balanced
              (then_on (λ u. noted (list_deleted slug a)) (r.0, record examined { world = r.1 }))
      deleted (ok u, w) = listed
      deleted (err e, w) = tt

      ends :
          (dry : Bool)
          → Balanced (
              (noted count_examined
                  >> (if dry
                      then pure tt
                      else on_world (delete_locked meta blobs clock config slug a.sha256))
                  >> noted (list_deleted slug a))
                p)
      ends true = listed
      ends false = deleted (delete_locked meta blobs clock config slug a.sha256 p.world)

  gc_asset-Balances :
      (slug : String) (refs fresh : List String) (a : AssetMeta)
      → Balances (gc_asset meta blobs clock config g dry_run slug refs fresh a)
  unfolding gc_asset count_referenced count_spared
  gc_asset-Balances slug refs fresh a p h =
      elim (Bool-cases (member a.sha256 refs || member a.sha256 fresh)) [
        | inl q ↦ rw q (ground arith)
        | inr q ↦ rw q (elim (Bool-cases (is_spared (within_grace g a.created))) [
          | inl r ↦ rw r (ground arith)
          | inr r ↦ rw r (reap-Balances slug a p h)
        ])
      ]

  gc_assets_of-Balances :
      (slug : String) (refs fresh : List String) (found : List AssetMeta)
      → Balances (gc_assets_of meta blobs clock config g dry_run slug refs fresh found)
  unfolding gc_assets_of
  gc_assets_of-Balances slug refs fresh [] p h = h
  gc_assets_of-Balances slug refs fresh (a ∷ rest) p h =
      bind-Balances (gc_asset meta blobs clock config g dry_run slug refs fresh a)
        (λ u. gc_assets_of meta blobs clock config g dry_run slug refs fresh rest)
        (gc_asset-Balances slug refs fresh a) (λ u. gc_assets_of-Balances slug refs fresh rest) p h

  gc_slug-Balances :
      (slug : String) (refs : List String)
      → Balances (gc_slug meta blobs clock config g dry_run slug refs)
  unfolding gc_slug
  gc_slug-Balances slug refs =
      let collect : List String → Exec (Pass S) (Unit {0}) = λ fresh.
        on_world (stored (meta.list_asset_meta slug))
        >>= gc_assets_of meta blobs clock config g dry_run slug refs fresh in
      bind-Balances (on_world (scan_slug_into meta blobs clock config slug [])) collect
        (on_world-Balances (scan_slug_into meta blobs clock config slug []))
        (λ fresh.
          bind-Balances (on_world (stored (meta.list_asset_meta slug)))
            (gc_assets_of meta blobs clock config g dry_run slug refs fresh)
            (on_world-Balances (stored (meta.list_asset_meta slug)))
            (gc_assets_of-Balances slug refs fresh))

  gc_slugs-Balances :
      (cancelled : Option Error) (slugs refs : List String)
      → Balances (gc_slugs meta blobs clock config g dry_run cancelled slugs refs)
  unfolding gc_slugs count_scanned
  gc_slugs-Balances cancelled [] refs p h = h
  gc_slugs-Balances cancelled (slug ∷ slugs) refs p h =
      bind-Balances (with_lock cancelled (gc_slug meta blobs clock config g dry_run slug refs))
        (λ u. gc_slugs meta blobs clock config g dry_run cancelled slugs refs)
        (locked-Balances cancelled (gc_slug meta blobs clock config g dry_run slug refs)
          (gc_slug-Balances slug refs))
        (λ u. gc_slugs-Balances cancelled slugs refs) (record p { report = count_scanned p.report })
        (record { shared = h.shared; among = h.among })

  gc_assets-Balances :
      (cancelled : Option Error) → Balances (gc_assets meta blobs clock config g dry_run cancelled)
  unfolding gc_assets
  gc_assets-Balances cancelled =
      let pass : List String → Exec (Pass S) (Unit {0}) = λ slugs.
        on_world (all_referenced meta blobs clock config slugs)
        >>= gc_slugs meta blobs clock config g dry_run cancelled slugs in
      bind-Balances (on_world (stored meta.list_asset_slugs)) pass
        (on_world-Balances (stored meta.list_asset_slugs))
        (λ slugs.
          bind-Balances (on_world (all_referenced meta blobs clock config slugs))
            (gc_slugs meta blobs clock config g dry_run cancelled slugs)
            (on_world-Balances (all_referenced meta blobs clock config slugs))
            (gc_slugs-Balances cancelled slugs))

-- Over any backend: where a collection ends without an error, each asset that it examined is
-- counted as kept or listed as deleted, and no more are counted as referenced than as kept.
pub gc_assets-IsBalanced :
    {S : Type 0} (meta : MetadataStore S) (blobs : BlobStore S) (clock : Clock)
    (config : AssetConfig) (g : Grace) (dry_run : Bool) (cancelled : Option Error) (w : World S)
    (p : Pass S)
    → gc_assets meta blobs clock config g dry_run cancelled (start w) ≡ (ok tt, p)
    → IsBalanced p.report
unfolding zero_report
gc_assets-IsBalanced meta blobs clock config g dry_run cancelled w p e = subst Balanced e (
    gc_assets-Balances meta blobs clock config g dry_run cancelled (start w)
      (record { shared = refl; among = omega arith }))
