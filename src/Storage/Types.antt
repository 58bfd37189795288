-- ===== src/Storage/Types.antt =====
-- internal/storage/store.go: the records that the stores hold.
use octo_doc.Base.{String, Bool, ℕ, List, Option}
use octo_doc.Base.Int.{ℤ}

-- a value of `map[string]any`
mutual
  pub data Json : Type 0 where
    null : Json
    bool : Bool → Json
    number : String → Json
    text : String → Json
    array : Items → Json
    object : Fields → Json

  pub data Items : Type 0 where
    nil : Items
    cons : Json → Items → Items

  pub data Fields : Type 0 where
    end : Fields
    field : String → Json → Fields → Fields

pub record VersionRef : Type 0 where
  pub n : ℤ
  pub created : Option String

-- `extra` is empty for a nil map.
pub record DocMeta : Type 0 where
  pub slug : String
  pub title : String
  pub versions : List VersionRef
  pub extra : List (String × Json)

pub record Session : Type 0 where
  pub login : String
  pub name : String
  pub avatar_url : Option String
  pub created : String

pub record TokenRecord : Type 0 where
  pub token : String
  pub created : String
  pub label : String

pub record MetaEntry : Type 0 where
  pub slug : String
  pub meta : DocMeta

pub record AssetMeta : Type 0 where
  pub slug : String
  pub sha256 : String
  pub mime : String
  pub size : ℕ
  pub original_name : String
  pub created : String
