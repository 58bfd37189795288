-- ===== src/Storage/Metadata.antt =====
-- internal/storage/docmeta.go: the metadata of a document as a JSON object with its further fields
-- beside the known ones. An object is a dictionary; how encoding/json prints and reads the list of
-- versions is a parameter.
pub mod RoundTrip
use octo_doc.Base.{String, List, [], ◌∷◌, Option, none, some}
use octo_doc.Base.Dict.{Dict, lookup, insert, delete}
use octo_doc.Storage.Types.{Json, VersionRef, DocMeta}

pub record Codec : Type 0 where
  pub encode_versions : List VersionRef → Json
  pub decode_versions : Json → Option (List VersionRef)

-- `json.Unmarshal` into a text: null leaves it as it is, and another value is an error.
unfoldable pub decode_text : String → Json → Option String
decode_text old Json.null = some old
decode_text old (Json.text s) = some s
decode_text old (Json.bool b) = none
decode_text old (Json.number n) = none
decode_text old (Json.array xs) = none
decode_text old (Json.object fs) = none

infixl 5 ◌>>=◌
abbrev pub ◌>>=◌ : {A B : Type 0} → Option A → (A → Option B) → Option B
none >>= f = none
some a >>= f = f a

-- the value of a field that may be missing
unfoldable pub field_or : {A : Type 0} → A → (Json → Option A) → Option Json → Option A
field_or old decode none = some old
field_or old decode (some v) = decode v

module _ (codec : Codec) where
  open codec use {encode_versions, decode_versions}

  unfoldable pub marshal_json : DocMeta → Dict Json
  marshal_json m =
      insert "versions" (encode_versions m.versions)
        (insert "title" (Json.text m.title) (insert "slug" (Json.text m.slug) m.extra))

  -- the fields that are not known; a nil map stays where there are none
  unfoldable pub extra_of : Dict Json → Dict Json → Dict Json
  extra_of old [] = old
  extra_of old (f ∷ fs) = f ∷ fs

  -- `m` is the record that is read into; `none` is an error.
  unfoldable pub unmarshal_json : Dict Json → DocMeta → Option DocMeta
  unfolding field_or decode_text extra_of
  unmarshal_json raw m = do
    slug ← field_or m.slug (decode_text m.slug) (lookup "slug" raw)
    title ← field_or m.title (decode_text m.title) (lookup "title" raw)
    versions ← field_or m.versions decode_versions (lookup "versions" raw)
    some (record {
      slug = slug;
      title = title;
      versions = versions;
      extra = extra_of m.extra (delete "versions" (delete "title" (delete "slug" raw)));
    })
