-- ===== src/Storage/Memory/Removal.antt =====
-- What the removal of a document leaves of the versions, the draft and the assets of each slug.
use octo_doc.Base.{
  String, true, false, not, [], ◌∷◌, none, some, ◌≡◌, ◌∙◌, refl, sym, ap, ◌==◌, eq_iff, arith, inl,
  inr, Bool-cases, Option-cases, if◌then◌else◌,
}
use octo_doc.Base.Int.{ℤ}
use octo_doc.Base.Dict.{Dict, lookup}
use octo_doc.Base.Text.{nul_key, strip_key, has_nul, strip_key_self, strip_key_sound}
use octo_doc.Storage.Decimal.{itoa, itoa-ne-empty}
use octo_doc.Storage.Memory.{
  Store, has_prefix, drop_slug, delete_doc, blob_key, get_doc, draft_key, get_draft, get_asset,
}

lookup-drop_slug :
    (slug k : String) (m : Dict String)
    → lookup k (drop_slug slug m) ≡ (if has_prefix slug k then none else lookup k m)
unfolding lookup drop_slug
lookup-drop_slug slug k [] = ground arith
lookup-drop_slug slug k ((j, v) ∷ m) = elim (Bool-cases (j == k)) [
  | inl p ↦
      let e : j ≡ k = (eq_iff j k).0 p in
      ground (arith, lookup-drop_slug slug k m, ap (has_prefix slug) e)
  | inr p ↦ ground (arith, lookup-drop_slug slug k m)
]

has_prefix_self : (slug x : String) → (x == "") ≡ false → has_prefix slug (nul_key slug x) ≡ true
unfolding has_prefix
has_prefix_self slug x h =
    ap (λ o. elim o [ none ↦ false | some rest ↦ not (rest == "") ]) (strip_key_self slug x)
    ∙ ap not h

has_prefix-nul_key :
    (slug other x : String)
    → has_nul slug ≡ false
    → has_nul other ≡ false
    → (x == "") ≡ false
    → has_prefix slug (nul_key other x) ≡ (slug == other)
unfolding has_prefix
has_prefix-nul_key slug other x hs ho hx = elim (Bool-cases (slug == other)) [
  | inl p ↦
      ap (λ k. has_prefix k (nul_key other x)) ((eq_iff slug other).0 p)
      ∙ (has_prefix_self other x hx ∙ sym p)
  | inr p ↦ elim (Option-cases (strip_key slug (nul_key other x))) [
    | inl q ↦ rw (q, has_prefix) (sym p)
    | inr (y, q) ↦
        let same : slug ≡ other = (strip_key_sound slug other x y hs ho q).0 in
        cc ((eq_iff slug other).1 same, p)
  ]
]

lookup-drop_slug-nul_key :
    (slug other x : String) (m : Dict String)
    → has_nul slug ≡ false
    → has_nul other ≡ false
    → (x == "") ≡ false
    → lookup (nul_key other x) (drop_slug slug m)
      ≡ (if slug == other then none else lookup (nul_key other x) m)
lookup-drop_slug-nul_key slug other x m hs ho h =
    lookup-drop_slug slug (nul_key other x) m
    ∙ ap (λ b. if b then none else lookup (nul_key other x) m)
        (has_prefix-nul_key slug other x hs ho h)

-- After the removal of a slug's document, none of its versions, no draft and none of its assets can
-- be read; the versions, drafts and assets of each other slug are as before. Slugs are without the
-- zero character, and the hash of an asset is not empty.
pub delete_doc_contract :
    (slug other sha : String) (v : ℤ) (s : Store)
    → has_nul slug ≡ false
    → has_nul other ≡ false
    → (sha == "") ≡ false
    → (get_doc other v (delete_doc slug s) ≡ (if slug == other then none else get_doc other v s))
      × (get_draft other (delete_doc slug s) ≡ (if slug == other then none else get_draft other s))
      × (get_asset other sha (delete_doc slug s)
          ≡ (if slug == other then none else get_asset other sha s))
unfolding get_doc get_draft get_asset delete_doc blob_key draft_key
delete_doc_contract slug other sha v s hs ho h = (
  lookup-drop_slug-nul_key slug other (itoa v) s.blobs hs ho (itoa-ne-empty v),
  lookup-drop_slug-nul_key slug other "draft" s.blobs hs ho refl,
  lookup-drop_slug-nul_key slug other sha s.assets hs ho h,
)
