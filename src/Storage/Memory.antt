-- ===== src/Storage/Memory.antt =====
-- internal/storage/memory/memory.go: the in-process store. Each operation runs under its mutex, so
-- it is one step; the JSON round trip of `cloneJSON` copies plain data and is the identity here.
pub mod Instance
pub mod Versions
pub mod Removal
pub mod Refinement
pub mod Listing
use Prim.Native.Nat.{Ordering}
use Prim.Native.String.{compare, len}
use octo_doc.Base.{
  ℕ, ◌+◌, ◌*◌, String, Bool, true, false, not, ◌&&◌, List, [], ◌∷◌, Option, none, some, ◌==◌, ltb,
  leb, member, if◌then◌else◌,
}
use octo_doc.Base.Int.{ℤ, pos}
use octo_doc.Base.Dict.{Dict, lookup, insert, delete, keys}
use octo_doc.Base.Text.{nul_key, strip_key}
use octo_doc.Core.Types.{Comment}
use octo_doc.Storage.Types.{DocMeta, Session, TokenRecord, MetaEntry, AssetMeta}
use octo_doc.Storage.Decimal.{itoa, atoi}

pub record SessionEntry : Type 0 where
  pub session : Session
  pub expires_at : ℕ

pub record Store : Type 0 where
  pub meta : Dict DocMeta
  pub comments : Dict (List Comment)
  pub sessions : Dict SessionEntry
  pub tokens : Dict TokenRecord
  pub blobs : Dict String
  pub assets : Dict String
  pub asset_meta : Dict AssetMeta

unfoldable pub empty : Store
empty = record {
  meta = [];
  comments = [];
  sessions = [];
  tokens = [];
  blobs = [];
  assets = [];
  asset_meta = [];
}

unfoldable pub get_meta : String → Store → Option DocMeta
get_meta slug s = lookup slug s.meta

unfoldable pub put_meta : String → DocMeta → Store → Store
put_meta slug m s = record s { meta = insert slug m s.meta }

unfoldable pub delete_meta : String → Store → Store
delete_meta slug s = record s { meta = delete slug s.meta }

-- insertion into a list that is sorted by slug
insert_entry : MetaEntry → List MetaEntry → List MetaEntry
insert_entry e [] = e ∷ []
insert_entry e (f ∷ fs) = elim (compare f.slug e.slug) [
  | Ordering.lt ↦ f ∷ insert_entry e fs
  | _ ↦ e ∷ f ∷ fs
]

sort_entries : Dict DocMeta → List MetaEntry
unfolding insert_entry
sort_entries [] = []
sort_entries ((slug, m) ∷ ms) = insert_entry (record { slug = slug; meta = m }) (sort_entries ms)

unfoldable pub list_meta : Store → List MetaEntry
unfolding sort_entries
list_meta s = sort_entries s.meta

unfoldable pub get_comments : String → Store → List Comment
get_comments slug s = elim (lookup slug s.comments) [ none ↦ [] | some cs ↦ cs ]

unfoldable pub put_comments : String → List Comment → Store → Store
put_comments slug cs s = record s { comments = insert slug cs s.comments }

unfoldable pub delete_comments : String → Store → Store
delete_comments slug s = record s { comments = delete slug s.comments }

-- An expired session is dropped by the read that finds it.
unfoldable pub get_session : ℕ → String → Store → Option Session × Store
get_session now sid s = elim (lookup sid s.sessions) [
  | none ↦ (none, s)
  | some e ↦
      if ltb e.expires_at now
      then (none, record s { sessions = delete sid s.sessions })
      else (some e.session, s)
]

unfoldable pub put_session : ℕ → String → Session → ℕ → Store → Store
put_session now sid session ttl_seconds s = record s {
  sessions =
      insert sid (record { session = session; expires_at = now + ttl_seconds * 1000 }) s.sessions;
}

unfoldable pub delete_session : String → Store → Store
delete_session sid s = record s { sessions = delete sid s.sessions }

unfoldable pub get_token : String → Store → Option TokenRecord
get_token token s = lookup token s.tokens

unfoldable pub put_token : String → TokenRecord → Store → Store
put_token token rec s = elim (lookup token s.tokens) [
  | some _ ↦ s
  | none ↦ record s { tokens = insert token rec s.tokens }
]

unfoldable pub any_token : Store → Bool
any_token s = elim s.tokens [ [] ↦ false | _ ∷ _ ↦ true ]

-- A second registration keeps the time of the first.
unfoldable pub put_asset_meta : AssetMeta → Store → Store
put_asset_meta m s =
    let key = nul_key m.slug m.sha256 in
    let m' : AssetMeta = elim (lookup key s.asset_meta) [
      | none ↦ m
      | some old ↦ record m { created = old.created }
    ] in
    record s { asset_meta = insert key m' s.asset_meta }

unfoldable pub get_asset_meta : String → String → Store → Option AssetMeta
get_asset_meta slug sha s = lookup (nul_key slug sha) s.asset_meta

-- the keys with the slug's prefix and something behind it
unfoldable pub has_prefix : String → String → Bool
has_prefix slug key = elim (strip_key slug key) [ none ↦ false | some rest ↦ not (rest == "") ]

insert_asset : AssetMeta → List AssetMeta → List AssetMeta
insert_asset a [] = a ∷ []
insert_asset a (b ∷ bs) = elim (compare b.sha256 a.sha256) [
  | Ordering.lt ↦ b ∷ insert_asset a bs
  | _ ↦ a ∷ b ∷ bs
]

assets_under : String → Dict AssetMeta → List AssetMeta
unfolding insert_asset has_prefix
assets_under slug [] = []
assets_under slug ((k, m) ∷ ms) =
    let rest = assets_under slug ms in if has_prefix slug k then insert_asset m rest else rest

unfoldable pub list_asset_meta : String → Store → List AssetMeta
unfolding assets_under
list_asset_meta slug s = assets_under slug s.asset_meta

unfoldable pub delete_asset_meta : String → String → Store → Store
delete_asset_meta slug sha s = record s { asset_meta = delete (nul_key slug sha) s.asset_meta }

-- insertion into a sorted list without repetition
insert_slug : String → List String → List String
insert_slug k [] = k ∷ []
insert_slug k (j ∷ js) = elim (compare j k) [
  | Ordering.lt ↦ j ∷ insert_slug k js
  | Ordering.eq ↦ j ∷ js
  | Ordering.gt ↦ k ∷ j ∷ js
]

slugs_of : Dict AssetMeta → List String
unfolding insert_slug
slugs_of [] = []
slugs_of ((k, m) ∷ ms) = insert_slug m.slug (slugs_of ms)

unfoldable pub list_asset_slugs : Store → List String
unfolding slugs_of
list_asset_slugs s = slugs_of s.asset_meta

unfoldable pub blob_key : String → ℤ → String
blob_key slug version = nul_key slug (itoa version)

unfoldable pub put_doc : String → ℤ → String → Store → ℕ × Store
unfolding blob_key
put_doc slug version html s =
    (len html, record s { blobs = insert (blob_key slug version) html s.blobs })

unfoldable pub get_doc : String → ℤ → Store → Option String
unfolding blob_key
get_doc slug version s = lookup (blob_key slug version) s.blobs

unfoldable pub head_doc : String → ℤ → Store → Option ℕ
unfolding blob_key
head_doc slug version s = elim (lookup (blob_key slug version) s.blobs) [
  | none ↦ none
  | some html ↦ some (len html)
]

-- the version that a key names for a slug
unfoldable pub version_of : String → String → Option ℕ
version_of slug key = elim (strip_key slug key) [ none ↦ none | some rest ↦ atoi rest ]

insert_version : ℕ → List ℕ → List ℕ
insert_version n [] = n ∷ []
insert_version n (m ∷ ms) = if ltb m n then m ∷ insert_version n ms else n ∷ m ∷ ms

versions_under : String → Dict String → List ℕ
unfolding insert_version version_of
versions_under slug [] = []
versions_under slug ((k, html) ∷ bs) =
    let rest = versions_under slug bs in
    elim (version_of slug k) [ none ↦ rest | some n ↦ insert_version n rest ]

unfoldable pub list_versions : String → Store → List ℕ
unfolding versions_under
list_versions slug s = versions_under slug s.blobs

-- a map without the slug's keys
pub drop_slug : String → Dict String → Dict String
unfolding has_prefix
drop_slug slug [] = []
drop_slug slug ((k, v) ∷ m) =
    let rest = drop_slug slug m in if has_prefix slug k then rest else (k, v) ∷ rest

unfoldable pub delete_doc : String → Store → Store
unfolding drop_slug
delete_doc slug s = record s { blobs = drop_slug slug s.blobs; assets = drop_slug slug s.assets }

unfoldable pub draft_key : String → String
draft_key slug = nul_key slug "draft"

unfoldable pub put_draft : String → String → Store → ℕ × Store
unfolding draft_key
put_draft slug html s = (len html, record s { blobs = insert (draft_key slug) html s.blobs })

unfoldable pub get_draft : String → Store → Option String
unfolding draft_key
get_draft slug s = lookup (draft_key slug) s.blobs

unfoldable pub delete_draft : String → Store → Store
unfolding draft_key
delete_draft slug s = record s { blobs = delete (draft_key slug) s.blobs }

unfoldable pub put_asset : String → String → String → Store → Store
put_asset slug sha bytes s = record s { assets = insert (nul_key slug sha) bytes s.assets }

unfoldable pub get_asset : String → String → Store → Option String
get_asset slug sha s = lookup (nul_key slug sha) s.assets

unfoldable pub delete_asset : String → String → Store → Store
delete_asset slug sha s = record s { assets = delete (nul_key slug sha) s.assets }
