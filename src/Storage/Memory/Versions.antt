-- ===== src/Storage/Memory/Versions.antt =====
-- Which versions the store lists for a slug, and what its keys keep apart.
use octo_doc.Base.{
  ℕ, ◌<◌, ◌^◌, String, Bool, true, false, ◌||◌, ◌&&◌, List, [], ◌∷◌, Option, none, some, ◌≡◌, ◌∙◌,
  refl, sym, ap, ◌==◌, eq_iff, arith, inl, inr, eqb, Bool-cases, Option-cases,
}
use octo_doc.Base.Int.{pos}
use octo_doc.Base.Dict.{Dict, lookup, insert}
use octo_doc.Base.Text.{nul_key, strip_key, has_nul, strip_key_self, strip_key_sound}
use octo_doc.Storage.Decimal.{itoa, atoi, atoi-itoa, atoi-draft}
use octo_doc.Storage.Memory.{
  Store, blob_key, draft_key, version_of, insert_version, versions_under, list_versions, put_doc,
  get_doc, put_draft,
}

abbrev pub holds_version : ℕ → List ℕ → Bool
holds_version n [] = false
holds_version n (m ∷ ms) = eqb m n || holds_version n ms

holds_version-insert_version :
    (k n : ℕ) (ms : List ℕ)
    → holds_version k (insert_version n ms) ≡ (eqb n k || holds_version k ms)
unfolding insert_version
holds_version-insert_version k n [] = refl
holds_version-insert_version k n (m ∷ ms) = ground (arith, holds_version-insert_version k n ms)

-- whether some key of the map names the version
abbrev names : ℕ → Option ℕ → Bool
names n none = false
names n (some m) = eqb m n

named : String → ℕ → Dict String → Bool
named slug n [] = false
named slug n ((k, html) ∷ bs) = names n (version_of slug k) || named slug n bs

holds_version-versions_under :
    (slug : String) (n : ℕ) (bs : Dict String)
    → holds_version n (versions_under slug bs) ≡ named slug n bs
unfolding versions_under named
holds_version-versions_under slug n [] = refl
holds_version-versions_under slug n ((k, html) ∷ bs) = elim (Option-cases (version_of slug k)) [
  | inl p ↦ ground (arith, holds_version-versions_under slug n bs)
  | inr (m, p) ↦ ground (
    arith,
    holds_version-versions_under slug n bs,
    holds_version-insert_version n m (versions_under slug bs),
  )
]

-- versions that an `int` holds
abbrev pub Fits : ℕ → Type 0
Fits n = n < 10 ^ 20

version_of-nul_key : (slug x : String) → version_of slug (nul_key slug x) ≡ atoi x
unfolding version_of
version_of-nul_key slug x = rw (strip_key_self slug x, version_of)

version_of-blob_key :
    (slug : String) (n : ℕ) → Fits n → version_of slug (blob_key slug (pos n)) ≡ some n
unfolding blob_key
version_of-blob_key slug n h = version_of-nul_key slug (itoa (pos n)) ∙ atoi-itoa n h

version_of-draft_key : (slug : String) → version_of slug (draft_key slug) ≡ none
unfolding draft_key
version_of-draft_key slug = version_of-nul_key slug "draft" ∙ atoi-draft

-- a key of another slug names no version
version_of_foreign :
    (slug other x : String)
    → has_nul slug ≡ false
    → has_nul other ≡ false
    → (slug == other) ≡ false
    → version_of slug (nul_key other x) ≡ none
unfolding version_of
version_of_foreign slug other x hs ho ne = elim (Option-cases (strip_key slug (nul_key other x))) [
  | inl p ↦ rw (p, version_of)
  | inr (y, p) ↦
      let same : slug ≡ other = (strip_key_sound slug other x y hs ho p).0 in
      cc ((eq_iff slug other).1 same, ne)
]

version_of-blob_key_foreign :
    (slug other : String) (v : ℕ)
    → has_nul slug ≡ false
    → has_nul other ≡ false
    → (slug == other) ≡ false
    → version_of slug (blob_key other (pos v)) ≡ none
unfolding blob_key
version_of-blob_key_foreign slug other v = version_of_foreign slug other (itoa (pos v))

named-insert :
    (slug k html : String) (n : ℕ) (bs : Dict String)
    → named slug n (insert k html bs) ≡ (names n (version_of slug k) || named slug n bs)
unfolding insert named
named-insert slug k html n [] = refl
named-insert slug k html n ((j, w) ∷ bs) = elim (Bool-cases (j == k)) [
  | inl p ↦ let e : j ≡ k = (eq_iff j k).0 p in ground (arith, ap (version_of slug) e)
  | inr p ↦ ground (arith, named-insert slug k html n bs)
]

named_of_lookup :
    (slug k html : String) (n : ℕ) (bs : Dict String)
    → version_of slug k ≡ some n
    → lookup k bs ≡ some html
    → named slug n bs ≡ true
unfolding lookup named
named_of_lookup slug k html n [] v h = cc
named_of_lookup slug k html n ((j, w) ∷ bs) v h = elim (Bool-cases (j == k)) [
  | inl p ↦ let e : j ≡ k = (eq_iff j k).0 p in ground (arith, ap (version_of slug) e)
  | inr p ↦ ground (arith, named_of_lookup slug k html n bs v)
]

-- After a write of a version of at most 20 digits under the slug `other`, the versions listed for
-- `slug` are those before and, if the two slugs are equal, the version written. Slugs are without
-- the zero character.
pub holds_version-list_versions-put_doc :
    (slug other : String) (v n : ℕ) (html : String) (s : Store)
    → has_nul slug ≡ false
    → has_nul other ≡ false
    → Fits v
    → holds_version n (list_versions slug (put_doc other (pos v) html s).1)
      ≡ (slug == other && eqb v n || holds_version n (list_versions slug s))
unfolding list_versions put_doc
holds_version-list_versions-put_doc slug other v n html s hs ho f =
    holds_version-versions_under slug n (insert (blob_key other (pos v)) html s.blobs)
    ∙ (named-insert slug (blob_key other (pos v)) html n s.blobs
        ∙ (ap (λ b. names n (version_of slug (blob_key other (pos v))) || b)
              (sym (holds_version-versions_under slug n s.blobs))
            ∙ ap (λ b. b || holds_version n (versions_under slug s.blobs)) named_here))
  where
    named_here : names n (version_of slug (blob_key other (pos v))) ≡ (slug == other && eqb v n)
    named_here = elim (Bool-cases (slug == other)) [
      | inl p ↦ rw (p, (eq_iff slug other).0 p, version_of-blob_key other v f) refl
      | inr p ↦ ground (arith, version_of-blob_key_foreign slug other v hs ho p)
    ]

-- A draft is no version: saving one changes the versions listed for no slug. Slugs are without the
-- zero character.
pub list_versions-put_draft :
    (slug other html : String) (n : ℕ) (s : Store)
    → has_nul slug ≡ false
    → has_nul other ≡ false
    → holds_version n (list_versions slug (put_draft other html s).1)
      ≡ holds_version n (list_versions slug s)
unfolding list_versions put_draft
list_versions-put_draft slug other html n s hs ho =
    holds_version-versions_under slug n (insert (draft_key other) html s.blobs)
    ∙ (named-insert slug (draft_key other) html n s.blobs
        ∙ (ap (λ o. names n o || named slug n s.blobs) no_version
            ∙ sym (holds_version-versions_under slug n s.blobs)))
  where
    no_version : version_of slug (draft_key other) ≡ none
    no_version = elim (Bool-cases (slug == other)) [
      | inl p ↦ rw ((eq_iff slug other).0 p) (version_of-draft_key other)
      | inr p ↦ unfold draft_key in version_of_foreign slug other "draft" hs ho p
    ]

-- A version of at most 20 digits that can be read is listed.
pub listed_of_get_doc :
    (slug html : String) (n : ℕ) (s : Store)
    → Fits n
    → get_doc slug (pos n) s ≡ some html
    → holds_version n (list_versions slug s) ≡ true
unfolding get_doc list_versions
listed_of_get_doc slug html n s f h =
    holds_version-versions_under slug n s.blobs
    ∙ named_of_lookup slug (blob_key slug (pos n)) html n s.blobs (version_of-blob_key slug n f) h
