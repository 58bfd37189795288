-- ===== src/Storage/Memory/Refinement.antt =====
-- The documents, drafts and assets of the store against an abstract shelf that is without keys: a
-- version, a draft and an asset each have a place of their own.
use octo_doc.Base.{
  ℕ, String, true, false, ◌&&◌, List, [], ◌∷◌, Option, none, some, All, ◌≡◌, ◌∙◌, sym, ap, ◌==◌,
  eq_iff, eqb, arith, inl, inr, Bool-cases, if◌then◌else◌,
}
use octo_doc.Base.Int.{pos}
use octo_doc.Base.Dict.{Dict, lookup, insert, delete, lookup-insert, lookup-delete}
use octo_doc.Base.Text.{nul_key, strip_key, has_nul, strip_key_self, strip_key_sound}
use octo_doc.Storage.Decimal.{itoa, atoi, atoi-itoa, atoi-draft}
use octo_doc.Storage.Memory.{
  Store, blob_key, put_doc, get_doc, delete_doc, draft_key, put_draft, get_draft, delete_draft,
  put_asset, get_asset, delete_asset,
}
use octo_doc.Storage.Memory.Versions.{Fits}
use octo_doc.Storage.Memory.Removal.{delete_doc_contract}

-- Two pairs of parts have the same key where both parts are the same.
nul_key-eq :
    (s t x y : String)
    → has_nul s ≡ false
    → has_nul t ≡ false
    → (nul_key t y == nul_key s x) ≡ (t == s && y == x)
nul_key-eq s t x y hs ht = elim (Bool-cases (nul_key t y == nul_key s x)) [
  | inl p ↦
      let keys : nul_key t y ≡ nul_key s x = (eq_iff (nul_key t y) (nul_key s x)).0 p in
      let found : strip_key s (nul_key t y) ≡ some x = ap (strip_key s) keys ∙ strip_key_self s x in
      let (same, rest) = strip_key_sound s t y x hs ht found in
      ground (arith, (eq_iff t s).1 (sym same), (eq_iff y x).1 rest)
  | inr p ↦
      let whole : (t == s) ≡ true → (y == x) ≡ true → nul_key t y ≡ nul_key s x =
        λ e f. cc ((eq_iff t s).0 e, (eq_iff y x).0 f) in
      let apart : (t == s) ≡ true → (y == x) ≡ true → (nul_key t y == nul_key s x) ≡ true =
        λ e f. (eq_iff (nul_key t y) (nul_key s x)).1 (whole e f) in
      ground (arith, apart)
]

lookup-insert-nul_key :
    (other slug y x v : String) (m : Dict String)
    → has_nul slug ≡ false
    → has_nul other ≡ false
    → lookup (nul_key slug x) (insert (nul_key other y) v m)
      ≡ (if other == slug && y == x then some v else lookup (nul_key slug x) m)
lookup-insert-nul_key other slug y x v m hs ho =
    lookup-insert (nul_key other y) (nul_key slug x) v m
    ∙ ap (λ b. if b then some v else lookup (nul_key slug x) m) (nul_key-eq slug other x y hs ho)

lookup-delete-nul_key :
    (other slug y x : String) (m : Dict String)
    → has_nul slug ≡ false
    → has_nul other ≡ false
    → lookup (nul_key slug x) (delete (nul_key other y) m)
      ≡ (if other == slug && y == x then none else lookup (nul_key slug x) m)
lookup-delete-nul_key other slug y x m hs ho =
    lookup-delete (nul_key other y) (nul_key slug x) m
    ∙ ap (λ b. if b then none else lookup (nul_key slug x) m) (nul_key-eq slug other x y hs ho)

itoa-eq : (v n : ℕ) → Fits v → Fits n → (itoa (pos v) == itoa (pos n)) ≡ eqb v n
itoa-eq v n hv hn =
    let same = (eq_iff (itoa (pos v)) (itoa (pos n))).0 in
    let forth : (itoa (pos v) == itoa (pos n)) ≡ true → some v ≡ some n =
      λ p. sym (atoi-itoa v hv) ∙ (ap atoi (same p) ∙ atoi-itoa n hn) in
    let back : v ≡ n → (itoa (pos v) == itoa (pos n)) ≡ true =
      λ e. (eq_iff (itoa (pos v)) (itoa (pos n))).1 (ap (λ k. itoa (pos k)) e) in
    ground (arith, forth, back)

draft-ne-itoa : (n : ℕ) → Fits n → ("draft" == itoa (pos n)) ≡ false
draft-ne-itoa n h =
    let read : ("draft" == itoa (pos n)) ≡ true → none ≡ some n =
      λ p. sym atoi-draft ∙ (ap atoi ((eq_iff "draft" (itoa (pos n))).0 p) ∙ atoi-itoa n h) in
    ground (arith, read)

itoa-ne-draft : (n : ℕ) → Fits n → (itoa (pos n) == "draft") ≡ false
itoa-ne-draft n h =
    let read : (itoa (pos n) == "draft") ≡ true → some n ≡ none =
      λ p. sym (atoi-itoa n h) ∙ (ap atoi ((eq_iff (itoa (pos n)) "draft").0 p) ∙ atoi-draft) in
    ground (arith, read)

-- What a caller sees of the documents, drafts and assets.
pub record Shelf : Type 0 where
  pub doc : String → ℕ → Option String
  pub draft : String → Option String
  pub asset : String → String → Option String

abbrev pub blank : Shelf
blank = record { doc = λ k n. none; draft = λ k. none; asset = λ k sha. none }

-- the writes of the store
pub data Write : Type 0 where
  put_version : String → ℕ → String → Write
  save : String → String → Write
  discard : String → Write
  upload : String → String → String → Write
  drop_asset : String → String → Write
  remove : String → Write

abbrev pub IsValid : Write → Type 0
IsValid (put_version slug v html) = (has_nul slug ≡ false) × Fits v
IsValid (save slug html) = has_nul slug ≡ false
IsValid (discard slug) = has_nul slug ≡ false
IsValid (upload slug sha bytes) = has_nul slug ≡ false
IsValid (drop_asset slug sha) = has_nul slug ≡ false
IsValid (remove slug) = has_nul slug ≡ false

-- a write on the shelf
pub place : Write → Shelf → Shelf
place (put_version slug v html) m = record m {
  doc = λ k n. if slug == k && eqb v n then some html else m.doc k n;
}
place (save slug html) m = record m { draft = λ k. if slug == k then some html else m.draft k }
place (discard slug) m = record m { draft = λ k. if slug == k then none else m.draft k }
place (upload slug sha bytes) m = record m {
  asset = λ k h. if slug == k && sha == h then some bytes else m.asset k h;
}
place (drop_asset slug sha) m = record m {
  asset = λ k h. if slug == k && sha == h then none else m.asset k h;
}
place (remove slug) m = record {
  doc = λ k n. if slug == k then none else m.doc k n;
  draft = λ k. if slug == k then none else m.draft k;
  asset = λ k h. if slug == k then none else m.asset k h;
}

pub place_all : List Write → Shelf → Shelf
place_all [] m = m
place_all (w ∷ ws) m = place_all ws (place w m)

-- a write on the store
pub store_write : Write → Store → Store
store_write (put_version slug v html) s = (put_doc slug (pos v) html s).1
store_write (save slug html) s = (put_draft slug html s).1
store_write (discard slug) s = delete_draft slug s
store_write (upload slug sha bytes) s = put_asset slug sha bytes s
store_write (drop_asset slug sha) s = delete_asset slug sha s
store_write (remove slug) s = delete_doc slug s

pub store_all : List Write → Store → Store
store_all [] s = s
store_all (w ∷ ws) s = store_all ws (store_write w s)

-- The store and the shelf have the same document, draft and asset at these places.
abbrev pub Agrees : String → ℕ → String → Shelf → Store → Type 0
Agrees slug n sha m s =
    (get_doc slug (pos n) s ≡ m.doc slug n)
    × (get_draft slug s ≡ m.draft slug)
    × (get_asset slug sha s ≡ m.asset slug sha)

store_write-Agrees :
    (w : Write) (slug : String) (n : ℕ) (sha : String) (m : Shelf) (s : Store)
    → has_nul slug ≡ false
    → Fits n
    → (sha == "") ≡ false
    → IsValid w
    → Agrees slug n sha m s
    → Agrees slug n sha (place w m) (store_write w s)
unfolding place store_write get_doc put_doc blob_key get_draft put_draft delete_draft draft_key
    get_asset put_asset delete_asset
store_write-Agrees (put_version other v html) slug n sha m s hs hn hsha (ho, hv) (a, b, c) = (
  lookup-insert-nul_key other slug (itoa (pos v)) (itoa (pos n)) html s.blobs hs ho
      ∙ ground (arith, itoa-eq v n hv hn),
  lookup-insert-nul_key other slug (itoa (pos v)) "draft" html s.blobs hs ho
      ∙ ground (arith, itoa-ne-draft v hv),
  c,
)
store_write-Agrees (save other html) slug n sha m s hs hn hsha ho (a, b, c) = (
  lookup-insert-nul_key other slug "draft" (itoa (pos n)) html s.blobs hs ho
      ∙ ground (arith, draft-ne-itoa n hn),
  lookup-insert-nul_key other slug "draft" "draft" html s.blobs hs ho ∙ ground arith,
  c,
)
store_write-Agrees (discard other) slug n sha m s hs hn hsha ho (a, b, c) = (
  lookup-delete-nul_key other slug "draft" (itoa (pos n)) s.blobs hs ho
      ∙ ground (arith, draft-ne-itoa n hn),
  lookup-delete-nul_key other slug "draft" "draft" s.blobs hs ho ∙ ground arith,
  c,
)
store_write-Agrees (upload other h bytes) slug n sha m s hs hn hsha ho (a, b, c) =
    (a, b, lookup-insert-nul_key other slug h sha bytes s.assets hs ho ∙ ground arith)
store_write-Agrees (drop_asset other h) slug n sha m s hs hn hsha ho (a, b, c) =
    (a, b, lookup-delete-nul_key other slug h sha s.assets hs ho ∙ ground arith)
store_write-Agrees (remove other) slug n sha m s hs hn hsha ho (a, b, c) =
    let (a', b', c') = delete_doc_contract other slug sha (pos n) s ho hs hsha in
    let left = λ (r : Option String). if other == slug then none else r in
    (a' ∙ ap left a, b' ∙ ap left b, c' ∙ ap left c)

-- Writes to the store in memory do what they do on a shelf with a place for each version, draft and
-- asset: where the store and the shelf agree about a slug, a version and an asset, they agree after
-- any sequence of publications, saved and discarded drafts, uploads, removals of assets and removals
-- of documents. The slugs are without the zero character, the versions have at most 20 digits, and
-- the hash of the asset is not empty.
pub store_all-Agrees :
    (ws : List Write) (slug : String) (n : ℕ) (sha : String) (m : Shelf) (s : Store)
    → has_nul slug ≡ false
    → Fits n
    → (sha == "") ≡ false
    → All IsValid ws
    → Agrees slug n sha m s
    → Agrees slug n sha (place_all ws m) (store_all ws s)
unfolding place_all store_all
store_all-Agrees [] slug n sha m s hs hn hsha valid h = h
store_all-Agrees (w ∷ ws) slug n sha m s hs hn hsha (one, rest) h =
    store_all-Agrees ws slug n sha (place w m) (store_write w s) hs hn hsha rest
      (store_write-Agrees w slug n sha m s hs hn hsha one h)
