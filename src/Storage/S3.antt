-- ===== src/Storage/S3.antt =====
-- internal/storage/s3/s3.go: the store of blobs over a client of an S3 service. The client, the kinds
-- of its errors and the hash of slugs are parameters; a page of a listing names the token of the next.
pub mod Keys
pub mod Paging
use Prim.Native.Char.{Char, code}
use Prim.Native.String.{len}
use octo_doc.Base.{
  ℕ, zero, suc, ◌+◌, ◌-◌, ◌*◌, ◌^◌, String, Bool, true, false, ◌&&◌, ◌||◌, List, [], ◌∷◌, ◌++◌,
  Option, none, some, ◌==◌, eqb, leb, ltb, map, if◌then◌else◌,
}
use octo_doc.Base.Int.{ℤ, pos}
use octo_doc.Base.Text.{concat, strip_prefix}
use octo_doc.Platform.Exec.{Error, driver, Exec, Result, ok, err, pure, raise, ◌>>=◌, ◌>>◌}
use octo_doc.Core.Runtime.{itoa}
use octo_doc.Storage.Backend.{BlobStore}

-- `ListObjectsV2Output`; a key is a pointer.
pub record Page : Type 0 where
  pub contents : List (Option String)
  pub is_truncated : Option Bool
  pub next_token : Option String

-- The calls of a bucket. What `get_object` finds is a body, whose reading may fail.
pub record Client (C : Type 0) : Type 0 where
  pub put_object : String → String → Exec C (Unit {0})
  pub get_object : String → Exec C (Result String)
  pub head_object : String → Exec C (Option ℕ)
  pub delete_object : String → Exec C (Unit {0})
  pub list_objects : String → Option String → Exec C Page
  pub delete_objects : List (Option String) → Exec C (Unit {0})

-- What errors.AsType tells of an error: whether it is a NoSuchKey or a NotFound, and the code of an
-- error of the service.
pub record Errors : Type 0 where
  pub is_no_such_key : Error → Bool
  pub is_not_found_kind : Error → Bool
  pub error_code : Error → Option String

-- a decimal number at the start of a text, and the text behind it; `started` is false in front of the
-- first digit
unfoldable pub number_from : Bool → ℕ → String → Option (ℕ × String)
number_from started n String.[] = if started then some (n, "") else none
number_from started n (String.◌∷◌ c s) =
    let rest = number_from true (n * 10 + (code c - b'0')) s in
    if leb b'0' (code c) && leb (code c) b'9'
    then rest
    else if started
    then some (n, String.◌∷◌ c s)
    else none

-- `/v(\d+)/index\.html$` at the start of a text
unfoldable pub version_here : String → Option ℕ
unfolding strip_prefix
version_here s = elim (strip_prefix "/v" s) [
  | none ↦ none
  | some r ↦ elim (number_from false 0 r) [
    | none ↦ none
    | some (n, rest) ↦ if rest == "/index.html" then some n else none
  ]
]

unfoldable pub version_match : String → Option ℕ
version_match String.[] = none
version_match (String.◌∷◌ c s) =
    let later = version_match s in
    elim (version_here (String.◌∷◌ c s)) [ some n ↦ some n | none ↦ later ]

-- `strconv.Atoi` of the digits fails above the 64-bit integers.
unfoldable pub key_version : Option String → Option ℕ
key_version none = none
key_version (some key) = elim (version_match key) [
  | none ↦ none
  | some n ↦ if ltb n (2 ^ 63) then some n else none
]

unfoldable pub versions_in : List (Option String) → List ℕ
versions_in [] = []
versions_in (k ∷ ks) =
    let rest = versions_in ks in elim (key_version k) [ none ↦ rest | some n ↦ n ∷ rest ]

-- `sort.Ints`
unfoldable pub insert_int : ℕ → List ℕ → List ℕ
insert_int n [] = n ∷ []
insert_int n (m ∷ ms) = let rest = insert_int n ms in if ltb m n then m ∷ rest else n ∷ m ∷ ms

unfoldable pub sort_ints : List ℕ → List ℕ
unfolding insert_int
sort_ints [] = []
sort_ints (n ∷ ns) = insert_int n (sort_ints ns)

unfoldable pub goes_on : Page → Bool
goes_on p = elim p.is_truncated [ none ↦ false | some b ↦ b ]

-- The loops over pages take rounds; this error belongs to the model only.
abbrev pub out_of_rounds : Error
out_of_rounds = driver "out of rounds"

module _ (hash_slug : String → String) where
  unfoldable pub prefix_for : String → String
  prefix_for slug = concat ("docs/" ∷ hash_slug slug ∷ [])

  unfoldable pub key_for : String → ℤ → String
  key_for slug version = concat (prefix_for slug ∷ "/v" ∷ itoa version ∷ "/index.html" ∷ [])

  unfoldable pub draft_key_for : String → String
  draft_key_for slug = concat (prefix_for slug ∷ "/draft/index.html" ∷ [])

  unfoldable pub asset_key_for : String → String → String
  asset_key_for slug sha = concat (prefix_for slug ∷ "/assets/" ∷ sha ∷ [])

module _ (errors : Errors) where
  open errors use {is_no_such_key, is_not_found_kind, error_code}

  unfoldable pub is_not_found : Error → Bool
  is_not_found e = is_no_such_key e || is_not_found_kind e || (elim (error_code e) [
    | none ↦ false
    | some c ↦ c == "NoSuchKey" || c == "NotFound" || c == "404"
  ])

  unfoldable pub recovered : {A S : Type 0} → A → Result A × S → Result A × S
  recovered missing (ok a, s) = (ok a, s)
  recovered missing (err e, s) = if is_not_found e then (ok missing, s) else (err e, s)

  -- a missing object is no error
  unfoldable pub unless_missing : {A S : Type 0} → A → Exec S A → Exec S A
  unfolding recovered
  unless_missing missing action s = recovered missing (action s)

module _ {C : Type 0} (client : Client C) (errors : Errors) where
  open client use {put_object, get_object, head_object, delete_object, list_objects, delete_objects}

  unfoldable pub put_text : String → String → Exec C ℕ
  put_text key html = do put_object key html; pure (len html)

  unfoldable pub read_body : Option (Result String) → Exec C (Option String)
  read_body none = pure none
  read_body (some (ok text)) = pure (some text)
  read_body (some (err e)) = raise e

  unfoldable pub get_text : String → Exec C (Option String)
  unfolding unless_missing read_body
  get_text key = do
    body ← unless_missing errors none (do b ← get_object key; pure (some b))
    read_body body

  unfoldable pub head_size : String → Exec C (Option ℕ)
  unfolding unless_missing
  head_size key =
      unless_missing errors none
        (do length ← head_object key; pure (some (elim length [ none ↦ 0 | some n ↦ n ])))

  unfoldable pub delete_key : String → Exec C (Unit {0})
  unfolding unless_missing
  delete_key key = unless_missing errors tt (delete_object key)

  unfoldable pub list_pages : ℕ → String → Option String → List ℕ → Exec C (List ℕ)
  list_pages zero prefix token out = raise out_of_rounds
  list_pages (suc rounds) prefix token out = do
    page ← list_objects prefix token
    elim (goes_on page) [
      | true ↦ list_pages rounds prefix page.next_token (out ++ versions_in page.contents)
      | false ↦ pure (sort_ints (out ++ versions_in page.contents))
    ]

  unfoldable pub delete_page : List (Option String) → Exec C (Unit {0})
  delete_page [] = pure tt
  delete_page (k ∷ ks) = delete_objects (k ∷ ks)

  unfoldable pub delete_pages : ℕ → String → Option String → Exec C (Unit {0})
  delete_pages zero prefix token = raise out_of_rounds
  delete_pages (suc rounds) prefix token = do
    page ← list_objects prefix token
    delete_page page.contents
    elim (goes_on page) [ true ↦ delete_pages rounds prefix page.next_token | false ↦ pure tt ]

  -- the store, whose loops over pages have `rounds` rounds
  unfoldable pub blob_store : (String → String) → ℕ → BlobStore C
  unfolding put_text get_text head_size delete_key list_pages delete_pages
  blob_store hash_slug rounds = record {
    put_doc = λ slug version html. put_text (key_for hash_slug slug version) html;
    get_doc = λ slug version. get_text (key_for hash_slug slug version);
    head_doc = λ slug version. head_size (key_for hash_slug slug version);
    list_versions = λ slug. (do
      ns ← list_pages rounds (concat (prefix_for hash_slug slug ∷ "/" ∷ [])) none []
      pure (map pos ns));
    delete_doc = λ slug. delete_pages rounds (concat (prefix_for hash_slug slug ∷ "/" ∷ [])) none;
    put_draft = λ slug html. put_text (draft_key_for hash_slug slug) html;
    get_draft = λ slug. get_text (draft_key_for hash_slug slug);
    delete_draft = λ slug. delete_key (draft_key_for hash_slug slug);
    put_asset = λ slug sha bytes. put_object (asset_key_for hash_slug slug sha) bytes;
    get_asset = λ slug sha. get_text (asset_key_for hash_slug slug sha);
    delete_asset = λ slug sha. delete_key (asset_key_for hash_slug slug sha);
  }
