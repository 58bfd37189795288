-- ===== src/Service/Collection/Safety.antt =====
-- internal/service/gc.go, `GCAssets` over the store in memory: what a live document refers to stays.
use Prim.Native.String.{◌++◌ as append}
use octo_doc.Base.{
  ℕ, String, Bool, true, false, ◌||◌, List, [], ◌∷◌, none, some, ◌≡◌, ◌≢◌, ◌∙◌, refl, ap, ◌==◌,
  eq_iff, arith, inl, inr, member, Bool-cases, if◌then◌else◌,
}
use octo_doc.Base.Dict.{lookup-delete}
use octo_doc.Base.Text.{has_nul, nul_key, nul_key-injective}
use octo_doc.Platform.Exec.{Exec, ok, then_on, pure, ◌>>=◌, ◌>>◌}
use octo_doc.Core.Runtime.{Clock}
use octo_doc.Storage.Types.{DocMeta, AssetMeta}
use octo_doc.Storage.Memory.{
  Store, get_meta, get_asset, get_asset_meta, delete_asset, delete_asset_meta, list_asset_meta,
  list_asset_slugs,
}
use octo_doc.Storage.Memory.Instance.{memory_meta, memory_blobs}
use octo_doc.Service.World.{World, with_lock, stored}
use octo_doc.Service.Assets.{AssetConfig, delete_locked}
use octo_doc.Service.Collection.{
  Pass, Grace, zero_report, is_spared, within_grace, on_world, noted, reap, gc_asset, gc_assets_of,
  gc_slug, gc_slugs, gc_assets, list_deleted, count_examined, count_scanned,
}
use octo_doc.Service.Collection.Scan.{is_hex}
use octo_doc.Service.Collection.Finding.{IsAddress, HasShortRuns, all_hex}
use octo_doc.Service.Collection.Reading.{
  IsLive, slug_refs, all_refs, scan_slug_into_memory, all_referenced_memory, all_refs-finds,
}

-- a pass that has not begun
abbrev pub start : {S : Type 0} → World S → Pass S
start w = record { world = w; report = zero_report }

has_nul-address : (s : String) → all_hex s ≡ true → has_nul s ≡ false
unfolding all_hex has_nul is_hex
has_nul-address String.[] h = refl
has_nul-address (String.◌∷◌ c s) h = ground (arith, has_nul-address s)

module _ (slug sha : String) (hs : has_nul slug ≡ false) (hx : has_nul sha ≡ false) where
  -- The asset in `s` is that in `t`.
  abbrev Same : Store → Store → Type 0
  Same t s =
      (get_asset slug sha s ≡ get_asset slug sha t)
      × (get_asset_meta slug sha s ≡ get_asset_meta slug sha t)

  delete-Same :
      (t s : Store) (other x : String)
      → x ≢ sha
      → Same t s
      → Same t (delete_asset_meta other x (delete_asset other x s))
  unfolding get_asset get_asset_meta delete_asset delete_asset_meta
  delete-Same t s other x ne h =
      let apart : (nul_key other x == nul_key slug sha) ≡ false =
        elim (Bool-cases (nul_key other x == nul_key slug sha)) [
          | inl p ↦ absurd (
              ne (
                nul_key-injective slug other sha x hs hx
                  ((eq_iff (nul_key other x) (nul_key slug sha)).0 p)))
          | inr p ↦ p
        ] in
      (
        lookup-delete (nul_key other x) (nul_key slug sha) s.assets ∙ (rw apart h.0),
        lookup-delete (nul_key other x) (nul_key slug sha) s.asset_meta ∙ (rw apart h.1),
      )

  module _ (t : Store) where
    -- The action succeeds and keeps the asset.
    abbrev Keeps : Exec (Pass Store) (Unit {0}) → Pass Store → Type 0
    Keeps m p = (p' : Pass Store) × (m p ≡ (ok tt, p')) × Same t p'.world.store

    then-Keeps :
        (m k : Exec (Pass Store) (Unit {0})) (p : Pass Store)
        → Keeps m p
        → ((q : Pass Store) → Same t q.world.store → Keeps k q)
        → Keeps (m >> k) p
    then-Keeps m k p (q, e, h) next =
        let (r, e', h') = next q h in (r, ap (then_on (λ _. k)) e ∙ e', h')

    module _ (now : ℕ) (clock : Clock) (config : AssetConfig) (g : Grace) (dry_run : Bool) where
      reap-Keeps :
          (other : String) (a : AssetMeta) (p : Pass Store)
          → a.sha256 ≢ sha
          → Same t p.world.store
          → Keeps (reap (memory_meta now) memory_blobs clock config g dry_run other a) p
      unfolding reap delete_locked
      reap-Keeps other a p ne h = ends dry_run
        where
          ends :
              (dry : Bool)
              → Keeps
                  (noted count_examined
                    >> (if dry
                        then pure tt
                        else on_world (
                            delete_locked
                              (memory_meta now)
                              memory_blobs
                              clock
                              config
                              other
                              a.sha256))
                    >> noted (list_deleted other a))
                  p
          ends true = (_, refl, h)
          ends false = (_, refl, delete-Same t p.world.store other a.sha256 ne h)

      gc_asset-Keeps :
          (other : String) (refs fresh : List String) (a : AssetMeta) (p : Pass Store)
          → member sha refs ≡ true
          → Same t p.world.store
          → Keeps
              (gc_asset (memory_meta now) memory_blobs clock config g dry_run other refs fresh a)
              p
      unfolding gc_asset
      gc_asset-Keeps other refs fresh a p found h =
          elim (Bool-cases (member a.sha256 refs || member a.sha256 fresh)) [
            | inl q ↦ rw q (_, refl, h)
            | inr q ↦ rw q (elim (Bool-cases (is_spared (within_grace g a.created))) [
              | inl r ↦ rw r (_, refl, h)
              | inr r ↦
                  rw r (
                    reap-Keeps other a p (λ e. absurd (ground (arith, ap (λ k. member k refs) e)))
                      h)
            ])
          ]

      gc_assets_of-Keeps :
          (other : String) (refs fresh : List String) (found_assets : List AssetMeta)
          (p : Pass Store)
          → member sha refs ≡ true
          → Same t p.world.store
          → Keeps
              (gc_assets_of
                (memory_meta now)
                memory_blobs
                clock
                config
                g
                dry_run
                other
                refs
                fresh
                found_assets)
              p
      unfolding gc_assets_of
      gc_assets_of-Keeps other refs fresh [] p found h = (p, refl, h)
      gc_assets_of-Keeps other refs fresh (a ∷ rest) p found h =
          then-Keeps
            (gc_asset (memory_meta now) memory_blobs clock config g dry_run other refs fresh a)
            (gc_assets_of (memory_meta now) memory_blobs clock config g dry_run other refs fresh
              rest)
            p (gc_asset-Keeps other refs fresh a p found h)
            (λ q h'. gc_assets_of-Keeps other refs fresh rest q found h')

      gc_slug-Keeps :
          (other : String) (refs : List String) (p : Pass Store)
          → member sha refs ≡ true
          → Same t p.world.store
          → Keeps (gc_slug (memory_meta now) memory_blobs clock config g dry_run other refs) p
      unfolding gc_slug
      gc_slug-Keeps other refs p found h =
          let collect : List String → Exec (Pass Store) (Unit {0}) = λ fresh.
            on_world (stored ((memory_meta now).list_asset_meta other))
            >>= gc_assets_of (memory_meta now) memory_blobs clock config g dry_run other refs
                fresh in
          let fresh = slug_refs other [] p.world.store in
          let (q, e, h') =
            gc_assets_of-Keeps other refs fresh (list_asset_meta other p.world.store) p found h in
          (
            q,
            ap (λ r. then_on collect (r.0, record p { world = r.1 }))
                  (scan_slug_into_memory now clock config other [] p.world)
                ∙ e,
            h',
          )

      gc_slugs-Keeps :
          (slugs refs : List String) (p : Pass Store)
          → member sha refs ≡ true
          → Same t p.world.store
          → Keeps (gc_slugs (memory_meta now) memory_blobs clock config g dry_run none slugs refs) p
      unfolding gc_slugs with_lock
      gc_slugs-Keeps [] refs p found h = (p, refl, h)
      gc_slugs-Keeps (other ∷ slugs) refs p found h =
          then-Keeps
            (noted count_scanned
              >> gc_slug (memory_meta now) memory_blobs clock config g dry_run other refs)
            (gc_slugs (memory_meta now) memory_blobs clock config g dry_run none slugs refs) p
            (gc_slug-Keeps other refs (record p { report = count_scanned p.report }) found h)
            (λ q h'. gc_slugs-Keeps slugs refs q found h')

-- A collection over the store in memory succeeds, and leaves each asset as it was whose address
-- stands in a version or in the draft of a document with a record. The slug of the asset is without
-- the zero character, the version has at most 20 digits, and no run of hexadecimal characters in
-- the text is longer than 4096.
pub gc_assets-keeps :
    (now : ℕ) (clock : Clock) (config : AssetConfig) (g : Grace) (dry_run : Bool)
    (slug doc before sha later : String) (m : DocMeta) (w : World Store)
    → has_nul slug ≡ false
    → IsAddress sha
    → get_meta doc w.store ≡ some m
    → IsLive w.store doc (append before (append sha later))
    → HasShortRuns (append before (append sha later))
    → (p : Pass Store) × (gc_assets
          (memory_meta now)
          memory_blobs
          clock
          config
          g
          dry_run
          none
          (start w)
        ≡ (ok tt, p))
      × (get_asset slug sha p.world.store ≡ get_asset slug sha w.store)
      × (get_asset_meta slug sha p.world.store ≡ get_asset_meta slug sha w.store)
unfolding gc_assets
gc_assets-keeps now clock config g dry_run slug doc before sha later m w hs a h live short =
    let slugs = list_asset_slugs w.store in
    let refs = all_refs slugs w.store in
    let found = all_refs-finds w.store doc before sha later a short m slugs live h in
    let (p, e, same) =
      gc_slugs-Keeps slug sha hs (has_nul-address sha a.0) w.store now clock config g dry_run slugs
        refs (start w) found (refl, refl) in
    (
      p,
      ap
            (λ r.
              then_on (gc_slugs (memory_meta now) memory_blobs clock config g dry_run none slugs)
                (r.0, record (start w) { world = r.1 }))
            (all_referenced_memory now clock config slugs w)
          ∙ e,
      same.0,
      same.1,
    )
