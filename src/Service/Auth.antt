-- ===== src/Service/Auth.antt =====
-- internal/service/auth.go and capability.go: write tokens, sessions, and the share codes of
-- documents. Fresh tokens and codes are arguments. Comparing in constant time is comparing.
pub mod Sharing
pub mod Bootstrap
use octo_doc.Base.{
  ℕ, ◌*◌, String, Bool, true, false, not, ◌&&◌, Option, none, some, ◌==◌, if◌then◌else◌,
}
use octo_doc.Base.Dict.{lookup, insert, delete}
use octo_doc.Base.Text.{concat}
use octo_doc.Base.{List, [], ◌∷◌}
use octo_doc.Platform.Errors.{AppError, new_err, not_found, forbidden, conflict}
use octo_doc.Platform.Exec.{Error, Exec, pure, fail, ◌>>=◌, ◌>>◌}
use octo_doc.Core.Runtime.{Clock, read_rfc3339}
use octo_doc.Core.Reconcile.{CaseFolding}
use octo_doc.Storage.Types.{Json, Fields, text, object, field, end, DocMeta, Session, TokenRecord}
use octo_doc.Storage.Backend.{MetadataStore}
use octo_doc.Service.World.{World, stored, computed, with_lock}

-- `hash_code` is the hexadecimal text of the SHA-256 hash.
pub record AuthConfig : Type 0 where
  pub write_token : String
  pub allow_bootstrap : Bool
  pub owner : String
  pub hash_code : String → String

pub data Capability : Type 0 where
  cap_none : Capability
  cap_reader : Capability
  cap_author : Capability

abbrev pub session_ttl_seconds : ℕ
session_ttl_seconds = 60 * 60 * 24 * 30

abbrev pub share_extra_key : String
share_extra_key = "share"

-- the value of a key of an object
unfoldable pub field_of : String → Fields → Option Json
field_of k end = none
field_of k (field j v fs) = if j == k then some v else field_of k fs

-- the text under `code_hash`, for a value that is an object
unfoldable pub hash_in : Option Json → String
unfolding field_of
hash_in (some (object fs)) = elim (field_of "code_hash" fs) [ some (text h) ↦ h | _ ↦ "" ]
hash_in _ = ""

unfoldable pub share_code_hash : Option DocMeta → String
unfolding hash_in
share_code_hash none = ""
share_code_hash (some m) = hash_in (lookup share_extra_key m.extra)

unfoldable pub no_such_doc : String → AppError
unfolding not_found new_err
no_such_doc slug = not_found (concat ("no such doc: " ∷ slug ∷ []))

unfoldable pub already_bootstrapped : AppError
unfolding conflict new_err
already_bootstrapped = conflict "already bootstrapped" "already_bootstrapped"

-- the value that `GenerateCode` stores
unfoldable pub share_value : String → String → Json
share_value hash created =
    object (field "code_hash" (text hash) (field "created_at" (text created) end))

module _ {S : Type 0} (meta : MetadataStore S) (clock : Clock) (fold : CaseFolding)
    (config : AuthConfig) where
  open meta use {get_meta, put_meta, get_token, put_token, any_token}
  open config use {write_token, allow_bootstrap, owner, hash_code}

  unfoldable pub is_valid_write_token : String → Exec (World S) Bool
  is_valid_write_token token =
      if token == ""
      then pure false
      else if not (write_token == "") && token == write_token
      then pure true
      else (do rec ← stored (get_token token); pure (elim rec [ none ↦ false | some r ↦ true ]))

  -- the check and the write, under the lock
  unfoldable pub mint_first : String → Exec (World S) (Unit {0})
  mint_first token = do
    exists ← stored any_token
    if exists then fail already_bootstrapped else (do
      created ← computed (read_rfc3339 clock)
      stored (put_token token (record { token = token; created = created; label = "bootstrap" })))

  unfoldable pub bootstrap : Option Error → String → Exec (World S) String
  unfolding mint_first
  bootstrap cancelled token =
      if not allow_bootstrap
      then fail (forbidden "bootstrap disabled" "bootstrap_disabled")
      else if not (write_token == "")
      then fail (conflict "a static WRITE_TOKEN is configured" "static_token_configured")
      else with_lock cancelled (mint_first token) >> pure token

  unfoldable pub get_session : String → Exec (World S) (Option Session)
  get_session sid = if sid == "" then pure none else stored (meta.get_session sid)

  unfoldable pub create_session : String → String → String → Option String → Exec (World S) String
  create_session sid login name avatar_url = do
    created ← computed (read_rfc3339 clock)
    stored (
        meta.put_session sid
          (record {
            login = login;
            name = if name == "" then login else name;
            avatar_url = avatar_url;
            created = created;
          })
          session_ttl_seconds)
    pure sid

  unfoldable pub is_owner : Option Session → Bool
  is_owner session =
      not (fold.to_lower owner == "")
      && elim session [ none ↦ false | some s ↦ fold.to_lower s.login == fold.to_lower owner ]

  unfoldable pub logout : String → Exec (World S) (Unit {0})
  logout sid = if sid == "" then pure tt else stored (meta.delete_session sid)

  -- the capability that a share code gives
  unfoldable pub reader_for : String → Option DocMeta → Capability
  unfolding share_code_hash
  reader_for cred m =
      let want = share_code_hash m in
      if not (want == "") && hash_code cred == want then cap_reader else cap_none

  unfoldable pub capability_for : String → String → Exec (World S) Capability
  unfolding is_valid_write_token reader_for
  capability_for slug cred = if cred == "" then pure cap_none else (do
    valid ← is_valid_write_token cred
    if valid then pure cap_author else (do m ← stored (get_meta slug); pure (reader_for cred m)))

  unfoldable pub put_extra : String → DocMeta → List (String × Json) → Exec (World S) (Unit {0})
  put_extra slug m extra = stored (put_meta slug (record m { extra = extra }))

  -- `GenerateCode` under the lock, behind the read of the record
  unfoldable pub share_with : String → String → Option DocMeta → Exec (World S) (Unit {0})
  unfolding put_extra share_value
  share_with slug code none = fail (no_such_doc slug)
  share_with slug code (some m) = do
    created ← computed (read_rfc3339 clock)
    put_extra slug m (insert share_extra_key (share_value (hash_code code) created) m.extra)

  unfoldable pub generate_code : Option Error → String → String → Exec (World S) String
  unfolding share_with
  generate_code cancelled slug code =
      with_lock cancelled (stored (get_meta slug) >>= share_with slug code) >> pure code

  -- `RevokeCode` under the lock, behind the read of the record
  unfoldable pub unshare : String → Option DocMeta → Exec (World S) (Unit {0})
  unfolding put_extra
  unshare slug none = fail (no_such_doc slug)
  unshare slug (some m) = elim (lookup share_extra_key m.extra) [
    | none ↦ pure tt
    | some v ↦ put_extra slug m (delete share_extra_key m.extra)
  ]

  unfoldable pub revoke_code : Option Error → String → Exec (World S) (Unit {0})
  unfolding unshare
  revoke_code cancelled slug = with_lock cancelled (stored (get_meta slug) >>= unshare slug)
