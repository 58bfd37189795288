-- ===== src/Storage/Backend.antt =====
-- internal/storage/store.go: the interfaces `MetadataStore` and `BlobStore`, over a state `S` of
-- what is stored. The services take a backend as a parameter.
use octo_doc.Base.{ℕ, String, Bool, List, Option}
use octo_doc.Base.Int.{ℤ}
use octo_doc.Platform.Exec.{Exec}
use octo_doc.Core.Types.{Comment}
use octo_doc.Storage.Types.{DocMeta, Session, TokenRecord, MetaEntry, AssetMeta}

pub record MetadataStore (S : Type 0) : Type 0 where
  pub get_meta : String → Exec S (Option DocMeta)
  pub put_meta : String → DocMeta → Exec S (Unit {0})
  pub delete_meta : String → Exec S (Unit {0})
  pub list_meta : Exec S (List MetaEntry)
  pub get_comments : String → Exec S (List Comment)
  pub put_comments : String → List Comment → Exec S (Unit {0})
  pub delete_comments : String → Exec S (Unit {0})
  pub get_session : String → Exec S (Option Session)
  pub put_session : String → Session → ℕ → Exec S (Unit {0})
  pub delete_session : String → Exec S (Unit {0})
  pub get_token : String → Exec S (Option TokenRecord)
  pub put_token : String → TokenRecord → Exec S (Unit {0})
  pub any_token : Exec S Bool
  pub put_asset_meta : AssetMeta → Exec S (Unit {0})
  pub get_asset_meta : String → String → Exec S (Option AssetMeta)
  pub list_asset_meta : String → Exec S (List AssetMeta)
  pub delete_asset_meta : String → String → Exec S (Unit {0})
  pub list_asset_slugs : Exec S (List String)

-- A lookup's value and its `ok` are an `Option`. Bytes are texts.
pub record BlobStore (S : Type 0) : Type 0 where
  pub put_doc : String → ℤ → String → Exec S ℕ
  pub get_doc : String → ℤ → Exec S (Option String)
  pub head_doc : String → ℤ → Exec S (Option ℕ)
  pub list_versions : String → Exec S (List ℤ)
  pub delete_doc : String → Exec S (Unit {0})
  pub put_draft : String → String → Exec S ℕ
  pub get_draft : String → Exec S (Option String)
  pub delete_draft : String → Exec S (Unit {0})
  pub put_asset : String → String → String → Exec S (Unit {0})
  pub get_asset : String → String → Exec S (Option String)
  pub delete_asset : String → String → Exec S (Unit {0})
