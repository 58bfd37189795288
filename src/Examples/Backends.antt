-- ===== src/Examples/Backends.antt =====
-- A configuration, metadata as an object, and keys and pages of the S3 store.
use octo_doc.Base.{
  ℕ, suc, [], ◌∷◌, ◌++◌, Option, none, some, String, true, false, ◌≡◌, refl, arith, ◌==◌,
  if◌then◌else◌,
}
use octo_doc.Base.Int.{pos}
use octo_doc.Base.Dict.{lookup}
use octo_doc.Platform.Exec.{ok, driver, pure, raise}
use octo_doc.Settings.{Config, load, validate}
use octo_doc.Settings.Checks.{IsUsable, validate-IsUsable}
use octo_doc.Storage.Types.{Json, Items, VersionRef, DocMeta}
use octo_doc.Storage.Metadata.{Codec, marshal_json, unmarshal_json}
use octo_doc.Storage.Metadata.RoundTrip.{IsFurther, unmarshal_json-marshal_json}
use octo_doc.Storage.S3.{
  Client, Errors, Page, key_version, key_for, draft_key_for, asset_key_for, list_pages, sort_ints,
  versions_in, goes_on, version_match, version_here, number_from,
}
use octo_doc.Storage.S3.Keys.{key_version-key_for}
use octo_doc.Storage.S3.Paging.{Lists, last, more, list_pages-Lists}

-- an environment that names the database alone
abbrev environment : String → Option String
environment key = if key == "DATABASE_URL" then some "postgres://db" else none

abbrev settings : Config
settings = load environment (λ s. s) (λ s. s) (λ s. none)

validate-IsUsable_example :
    (validate settings ≡ none → IsUsable settings) × (IsUsable settings → validate settings ≡ none)
validate-IsUsable_example = validate-IsUsable settings

abbrev first : VersionRef
first = record { n = pos 1; created = none }

-- a codec for the lists that have the first version alone
abbrev codec : Codec
codec = record {
  encode_versions = λ vs. Json.array (Items.cons (Json.number "1") Items.nil);
  decode_versions = λ v. elim v [
    | Json.array xs ↦ elim xs [ Items.cons y ys ↦ some (first ∷ []) | Items.nil ↦ some [] ]
    | _ ↦ none
  ];
}

abbrev guide : DocMeta
guide = record {
  slug = "guide";
  title = "Guide";
  versions = first ∷ [];
  extra = ("lang", Json.text "en") ∷ [];
}

guide-IsFurther : IsFurther guide.extra
unfolding lookup
guide-IsFurther = (refl, refl, refl)

unmarshal_json-marshal_json_example :
    unmarshal_json codec
      (marshal_json codec guide)
      (record { slug = ""; title = ""; versions = []; extra = [] })
    ≡ some guide
unmarshal_json-marshal_json_example = unmarshal_json-marshal_json codec guide refl guide-IsFurther

abbrev hash : String → String
hash slug = "0123abcd"

key_version-key_for_example :
    (key_version (some (key_for hash "guide" (pos 12))) ≡ some 12)
    × (key_version (some (draft_key_for hash "guide")) ≡ none)
    × (key_version (some (asset_key_for hash "guide" "beef")) ≡ none)
key_version-key_for_example = key_version-key_for hash "guide" "beef" 12 refl refl (omega arith)

-- A bucket with two pages; the state counts the calls.
abbrev page_one : Page
page_one = record {
  contents = some "docs/0123abcd/v2/index.html" ∷ none ∷ [];
  is_truncated = some true;
  next_token = some "t";
}

abbrev page_two : Page
page_two = record {
  contents = some "docs/0123abcd/draft/index.html" ∷ some "docs/0123abcd/v1/index.html" ∷ [];
  is_truncated = none;
  next_token = none;
}

abbrev page_at : Option String → Page
page_at none = page_one
page_at (some t) = page_two

abbrev bucket : Client ℕ
bucket = record {
  put_object = λ key body. pure tt;
  get_object = λ key. raise (driver "NoSuchKey");
  head_object = λ key. raise (driver "NoSuchKey");
  delete_object = λ key. pure tt;
  list_objects = λ prefix token n. (ok (page_at token), suc n);
  delete_objects = λ keys. pure tt;
}

abbrev errors : Errors
errors = record {
  is_no_such_key = λ e. true;
  is_not_found_kind = λ e. false;
  error_code = λ e. none;
}

two_pages : Lists bucket errors "docs/0123abcd/" 2 none 0 (page_one.contents ++ page_two.contents) 2
unfolding goes_on
two_pages = more page_one refl refl (last page_two refl refl)

list_pages-Lists_example :
    list_pages bucket errors 5 "docs/0123abcd/" none [] 0
    ≡ (ok (sort_ints ([] ++ versions_in (page_one.contents ++ page_two.contents))), 2)
list_pages-Lists_example =
    list_pages-Lists bucket errors "docs/0123abcd/" 5 [] two_pages (omega arith)

listed_versions : sort_ints (versions_in (page_one.contents ++ page_two.contents)) ≡ 1 ∷ 2 ∷ []
unfolding sort_ints versions_in key_version version_match version_here number_from
listed_versions = refl
