-- ===== src/Service/Collection/Reading.antt =====
-- internal/service/gc.go: what a pass over the store in memory reads. The reads change nothing, and
-- the set of references has the addresses of every version and draft of a listed document.
use Prim.Native.String.{◌++◌ as append}
use octo_doc.Base.{
  ℕ, ◌^◌, ◌<◌, String, true, List, [], ◌∷◌, Option, none, some, ◌≡◌, ◌∙◌, ◌⊎◌, inl, inr, refl, ap,
  ◌==◌, eq_iff, arith, eqb, eqb→eq, member, Bool-cases, if◌then◌else◌,
}
use octo_doc.Base.Int.{ℤ, pos}
use octo_doc.Platform.Exec.{ok, then_on, pure, ◌>>=◌}
use octo_doc.Core.Runtime.{Clock}
use octo_doc.Storage.Types.{DocMeta, MetaEntry}
use octo_doc.Storage.Memory.{Store, list_meta, get_meta, list_versions, get_doc, get_draft}
use octo_doc.Storage.Memory.Listing.{lists, lists-list_meta}
use octo_doc.Storage.Memory.Instance.{memory_meta, memory_blobs, ints}
use octo_doc.Storage.Memory.Versions.{holds_version, listed_of_get_doc}
use octo_doc.Service.World.{World, stored}
use octo_doc.Service.Assets.{AssetConfig}
use octo_doc.Service.Collection.{
  scan_found, scan_versions, scan_slug_into, scan_docs, scan_rest, all_referenced,
}
use octo_doc.Service.Collection.Finding.{IsAddress, HasShortRuns, member-scan_into, scan_into-finds}

-- The text is that of a version or of the draft of a document.
abbrev pub IsLive : Store → String → String → Type 0
IsLive s doc html =
    ((v : ℕ) × (v < 10 ^ 20) × (get_doc doc (pos v) s ≡ some html)) ⊎ (get_draft doc s ≡ some html)

-- the readings as functions of the store
versions_refs : String → List ℤ → List String → Store → List String
versions_refs slug [] refs s = refs
versions_refs slug (n ∷ ns) refs s = versions_refs slug ns (scan_found (get_doc slug n s) refs) s

pub slug_refs : String → List String → Store → List String
unfolding versions_refs
slug_refs slug refs s =
    scan_found (get_draft slug s) (versions_refs slug (ints (list_versions slug s)) refs s)

docs_refs : List MetaEntry → List String → List String → Store → List String × List String
unfolding slug_refs
docs_refs [] scanned refs s = (scanned, refs)
docs_refs (e ∷ es) scanned refs s = docs_refs es (e.slug ∷ scanned) (slug_refs e.slug refs s) s

rest_refs : List String → List String → List String → Store → List String
unfolding slug_refs
rest_refs [] scanned refs s = refs
rest_refs (slug ∷ slugs) scanned refs s =
    if member slug scanned
    then rest_refs slugs scanned refs s
    else rest_refs slugs scanned (slug_refs slug refs s) s

pub all_refs : List String → Store → List String
unfolding docs_refs rest_refs
all_refs asset_slugs s =
    let found = docs_refs (list_meta s) [] [] s in rest_refs asset_slugs found.0 found.1 s

module _ (now : ℕ) (clock : Clock) (config : AssetConfig) where
  scan_versions_memory :
      (slug : String) (ns : List ℤ) (refs : List String) (w : World Store)
      → scan_versions (memory_meta now) memory_blobs clock config slug ns refs w
        ≡ (ok (versions_refs slug ns refs w.store), w)
  unfolding scan_versions versions_refs
  scan_versions_memory slug [] refs w = refl
  scan_versions_memory slug (n ∷ ns) refs w =
      scan_versions_memory slug ns (scan_found (get_doc slug n w.store) refs) w

  pub scan_slug_into_memory :
      (slug : String) (refs : List String) (w : World Store)
      → scan_slug_into (memory_meta now) memory_blobs clock config slug refs w
        ≡ (ok (slug_refs slug refs w.store), w)
  unfolding scan_slug_into slug_refs
  scan_slug_into_memory slug refs w =
      ap
        (then_on (λ found.
          stored (memory_blobs.get_draft slug) >>= (λ draft. pure (scan_found draft found))))
        (scan_versions_memory slug (ints (list_versions slug w.store)) refs w)

  scan_docs_memory :
      (es : List MetaEntry) (scanned refs : List String) (w : World Store)
      → scan_docs (memory_meta now) memory_blobs clock config es scanned refs w
        ≡ (ok (docs_refs es scanned refs w.store), w)
  unfolding scan_docs docs_refs
  scan_docs_memory [] scanned refs w = refl
  scan_docs_memory (e ∷ es) scanned refs w =
      ap (then_on (scan_docs (memory_meta now) memory_blobs clock config es (e.slug ∷ scanned)))
        (scan_slug_into_memory e.slug refs w)
      ∙ scan_docs_memory es (e.slug ∷ scanned) (slug_refs e.slug refs w.store) w

  scan_rest_memory :
      (slugs scanned refs : List String) (w : World Store)
      → scan_rest (memory_meta now) memory_blobs clock config slugs scanned refs w
        ≡ (ok (rest_refs slugs scanned refs w.store), w)
  unfolding scan_rest rest_refs
  scan_rest_memory [] scanned refs w = refl
  scan_rest_memory (slug ∷ slugs) scanned refs w = elim (Bool-cases (member slug scanned)) [
    | inl p ↦ rw p (scan_rest_memory slugs scanned refs w)
    | inr p ↦ rw p (
        ap (then_on (scan_rest (memory_meta now) memory_blobs clock config slugs scanned))
          (scan_slug_into_memory slug refs w)
        ∙ scan_rest_memory slugs scanned (slug_refs slug refs w.store) w)
  ]

  pub all_referenced_memory :
      (asset_slugs : List String) (w : World Store)
      → all_referenced (memory_meta now) memory_blobs clock config asset_slugs w
        ≡ (ok (all_refs asset_slugs w.store), w)
  unfolding all_referenced all_refs
  all_referenced_memory asset_slugs w =
      let found = docs_refs (list_meta w.store) [] [] w.store in
      ap (then_on (λ r. scan_rest (memory_meta now) memory_blobs clock config asset_slugs r.0 r.1))
        (scan_docs_memory (list_meta w.store) [] [] w)
      ∙ scan_rest_memory asset_slugs found.0 found.1 w

member-scan_found :
    (k : String) (o : Option String) (refs : List String)
    → member k refs ≡ true
    → member k (scan_found o refs) ≡ true
unfolding scan_found
member-scan_found k none refs h = h
member-scan_found k (some html) refs h = member-scan_into k html refs h

module _ (k : String) (s : Store) where
  member-versions_refs :
      (slug : String) (ns : List ℤ) (refs : List String)
      → member k refs ≡ true
      → member k (versions_refs slug ns refs s) ≡ true
  unfolding versions_refs
  member-versions_refs slug [] refs h = h
  member-versions_refs slug (n ∷ ns) refs h =
      member-versions_refs slug ns (scan_found (get_doc slug n s) refs)
        (member-scan_found k (get_doc slug n s) refs h)

  member-slug_refs :
      (slug : String) (refs : List String)
      → member k refs ≡ true
      → member k (slug_refs slug refs s) ≡ true
  unfolding slug_refs
  member-slug_refs slug refs h =
      let found = versions_refs slug (ints (list_versions slug s)) refs s in
      member-scan_found k (get_draft slug s) found
        (member-versions_refs slug (ints (list_versions slug s)) refs h)

  member-docs_refs :
      (es : List MetaEntry) (scanned refs : List String)
      → member k refs ≡ true
      → member k (docs_refs es scanned refs s).1 ≡ true
  unfolding docs_refs
  member-docs_refs [] scanned refs h = h
  member-docs_refs (e ∷ es) scanned refs h =
      member-docs_refs es (e.slug ∷ scanned) (slug_refs e.slug refs s)
        (member-slug_refs e.slug refs h)

  member-rest_refs :
      (slugs scanned refs : List String)
      → member k refs ≡ true
      → member k (rest_refs slugs scanned refs s) ≡ true
  unfolding rest_refs
  member-rest_refs [] scanned refs h = h
  member-rest_refs (slug ∷ slugs) scanned refs h = ground (
    arith,
    member-rest_refs slugs scanned refs h,
    member-rest_refs slugs scanned (slug_refs slug refs s) (member-slug_refs slug refs h),
  )

-- a text of a document that has an address in it
module _ (s : Store) (doc before sha later : String) (a : IsAddress sha)
    (short : HasShortRuns (append before (append sha later))) where
  abbrev html : String
  html = append before (append sha later)

  versions_refs-finds :
      (v : ℕ) (ns : List ℕ) (refs : List String)
      → get_doc doc (pos v) s ≡ some html
      → holds_version v ns ≡ true
      → member sha (versions_refs doc (ints ns) refs s) ≡ true
  unfolding versions_refs scan_found
  versions_refs-finds v [] refs e h = absurd (ground arith)
  versions_refs-finds v (n ∷ ns) refs e h = elim (Bool-cases (eqb n v)) [
    | inl p ↦
        let here : get_doc doc (pos n) s ≡ some html =
          ap (λ i. get_doc doc (pos i) s) (eqb→eq n v p) ∙ e in
        member-versions_refs sha s doc (ints ns) (scan_found (get_doc doc (pos n) s) refs)
          (rw here (scan_into-finds before sha later refs a short))
    | inr p ↦ versions_refs-finds v ns (scan_found (get_doc doc (pos n) s) refs) e (ground arith)
  ]

  pub slug_refs-finds :
      (refs : List String) → IsLive s doc html → member sha (slug_refs doc refs s) ≡ true
  unfolding slug_refs scan_found
  slug_refs-finds refs (inl (v, f, e)) =
      member-scan_found sha (get_draft doc s)
        (versions_refs doc (ints (list_versions doc s)) refs s)
        (versions_refs-finds v (list_versions doc s) refs e (listed_of_get_doc doc html v s f e))
  slug_refs-finds refs (inr e) = rw e (
      scan_into-finds before sha later (versions_refs doc (ints (list_versions doc s)) refs s) a
        short)

  docs_refs-finds :
      (es : List MetaEntry) (scanned refs : List String)
      → IsLive s doc html
      → lists doc es ≡ true
      → member sha (docs_refs es scanned refs s).1 ≡ true
  unfolding docs_refs
  docs_refs-finds [] scanned refs live h = cc
  docs_refs-finds (e ∷ es) scanned refs live h = elim (Bool-cases (e.slug == doc)) [
    | inl p ↦
        member-docs_refs sha s es (e.slug ∷ scanned) (slug_refs e.slug refs s)
          (rw ((eq_iff e.slug doc).0 p) (slug_refs-finds refs live))
    | inr p ↦ docs_refs-finds es (e.slug ∷ scanned) (slug_refs e.slug refs s) live (ground arith)
  ]

  pub all_refs-finds :
      (m : DocMeta) (asset_slugs : List String)
      → IsLive s doc html
      → get_meta doc s ≡ some m
      → member sha (all_refs asset_slugs s) ≡ true
  unfolding all_refs
  all_refs-finds m asset_slugs live h =
      let found = docs_refs (list_meta s) [] [] s in
      member-rest_refs sha s asset_slugs found.0 found.1
        (docs_refs-finds (list_meta s) [] [] live (lists-list_meta doc m s h))
