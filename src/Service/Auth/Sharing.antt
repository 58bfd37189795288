-- ===== src/Service/Auth/Sharing.antt =====
-- internal/service/capability.go: what a share code opens, over the store in memory.
use octo_doc.Base.{
  ℕ, String, Bool, true, false, not, ◌&&◌, ◌||◌, none, some, ◌≡◌, ◌∙◌, refl, ap, ◌==◌, inl, inr,
  Option-cases, if◌then◌else◌,
}
use octo_doc.Base.Dict.{Dict, lookup, insert, delete, lookup-insert_self, lookup-delete}
use octo_doc.Platform.Exec.{Exec, ok, pure, ◌>>=◌, then_on}
use octo_doc.Core.Runtime.{Clock, read_rfc3339}
use octo_doc.Core.Reconcile.{CaseFolding}
use octo_doc.Storage.Types.{Json, DocMeta, TokenRecord}
use octo_doc.Storage.Memory.{Store, get_meta, put_meta, get_token}
use octo_doc.Storage.Memory.Instance.{memory_meta}
use octo_doc.Service.World.{World, with_lock}
use octo_doc.Service.Auth.{
  AuthConfig, Capability, cap_none, cap_reader, cap_author, field_of, hash_in, share_code_hash,
  share_value, is_valid_write_token, reader_for, capability_for, put_extra, share_with,
  generate_code, unshare, revoke_code, share_extra_key,
}

-- a write token, static or provisioned
abbrev pub holds_token : AuthConfig → String → Store → Bool
holds_token config token s =
    not (token == "")
    && (not (config.write_token == "") && token == config.write_token
        || elim (get_token token s) [ none ↦ false | some r ↦ true ])

module _ (now : ℕ) (clock : Clock) (fold : CaseFolding) (config : AuthConfig) where
  pub is_valid_write_token_memory :
      (token : String) (w : World Store)
      → is_valid_write_token (memory_meta now) clock fold config token w
        ≡ (ok (holds_token config token w.store), w)
  unfolding is_valid_write_token
  is_valid_write_token_memory token w =
      split (token == "") (not (config.write_token == "") && token == config.write_token)
    where
      provisioned : World Store → Bool
      provisioned v = elim (get_token token v.store) [ none ↦ false | some r ↦ true ]

      split :
          (empty static : Bool)
          → (if empty
                then pure false
                else if static
                then pure true
                else (λ v. (ok (provisioned v), v)))
              w
            ≡ (ok (not empty && (static || provisioned w)), w)
      split true static = refl
      split false true = refl
      split false false = refl

  -- the capability as a function of the store
  unfoldable pub access : String → String → Store → Capability
  unfolding reader_for
  access slug cred s =
      if cred == ""
      then cap_none
      else if holds_token config cred s
      then cap_author
      else reader_for (memory_meta now) clock fold config cred (get_meta slug s)

  pub capability_for_memory :
      (slug cred : String) (w : World Store)
      → capability_for (memory_meta now) clock fold config slug cred w
        ≡ (ok (access slug cred w.store), w)
  unfolding capability_for access
  capability_for_memory slug cred w = split (cred == "")
    where
      reader : World Store → Capability
      reader v = reader_for (memory_meta now) clock fold config cred (get_meta slug v.store)

      grant : Bool → Exec (World Store) Capability
      grant valid = if valid then pure cap_author else (λ v. (ok (reader v), v))

      decided : (valid : Bool) → grant valid w ≡ (ok (if valid then cap_author else reader w), w)
      decided true = refl
      decided false = refl

      split :
          (empty : Bool)
          → (if empty
                then pure cap_none
                else is_valid_write_token (memory_meta now) clock fold config cred >>= grant)
              w
            ≡ (
              ok (
                  if empty
                  then cap_none
                  else if holds_token config cred w.store
                  then cap_author
                  else reader w),
              w,
            )
      split true = refl
      split false =
          ap (then_on grant) (is_valid_write_token_memory cred w)
          ∙ decided (holds_token config cred w.store)

  share_code_hash-share :
      (hash created : String) (m : DocMeta)
      → share_code_hash
          (some (record m { extra = insert share_extra_key (share_value hash created) m.extra }))
        ≡ hash
  unfolding share_code_hash hash_in share_value field_of
  share_code_hash-share hash created m =
      ap hash_in (lookup-insert_self share_extra_key (share_value hash created) m.extra)

  share_code_hash-unshare :
      (m : DocMeta)
      → share_code_hash (some (record m { extra = delete share_extra_key m.extra })) ≡ ""
  unfolding share_code_hash hash_in
  share_code_hash-unshare m = ap hash_in (lookup-delete share_extra_key share_extra_key m.extra)

  -- the store after a code was given to a document
  abbrev shared : String → String → DocMeta → World Store → World Store
  shared slug code m w = record {
    store =
        put_meta slug
          (record m {
            extra =
                insert share_extra_key
                  (share_value (config.hash_code code) (clock.rfc3339 w.machine.readings)) m.extra;
          })
          w.store;
    machine = (read_rfc3339 clock w.machine).1;
  }

  generate_code_memory :
      (slug code : String) (m : DocMeta) (w : World Store)
      → get_meta slug w.store ≡ some m
      → generate_code (memory_meta now) clock fold config none slug code w
        ≡ (ok code, shared slug code m w)
  unfolding generate_code with_lock share_with put_extra read_rfc3339
  generate_code_memory slug code m w h = rw h refl

  reader_for-shared :
      (slug code cred : String) (m : DocMeta) (w : World Store)
      → (config.hash_code code == "") ≡ false
      → reader_for
          (memory_meta now)
          clock
          fold
          config
          cred
          (get_meta slug (shared slug code m w).store)
        ≡ (if config.hash_code cred == config.hash_code code then cap_reader else cap_none)
  unfolding reader_for get_meta put_meta
  reader_for-shared slug code cred m w h =
      let m' : DocMeta = record m {
        extra =
            insert share_extra_key
              (share_value (config.hash_code code) (clock.rfc3339 w.machine.readings)) m.extra;
      } in
      ap opened (
        ap share_code_hash (lookup-insert_self slug m' w.store.meta)
        ∙ share_code_hash-share (config.hash_code code) (clock.rfc3339 w.machine.readings) m)
      ∙ rw h refl
    where
      opened : String → Capability
      opened want =
          if not (want == "") && config.hash_code cred == want then cap_reader else cap_none

  -- the capability of a credential where `open` says whether it opens the document for reading
  abbrev pub granted : String → Bool → Store → Capability
  granted cred open_for s =
      if cred == ""
      then cap_none
      else if holds_token config cred s
      then cap_author
      else if open_for
      then cap_reader
      else cap_none

  -- Giving a document with a record a share code, over the store in memory, succeeds and returns the
  -- code, whose hash is not empty. Afterwards a credential that is not empty and is a write token is
  -- the author's, any other with the hash of the code a reader's, and the rest give no access: a code
  -- that was given before opens nothing any more.
  pub generate_code-capability_for :
      (slug code cred : String) (m : DocMeta) (w : World Store)
      → get_meta slug w.store ≡ some m
      → (config.hash_code code == "") ≡ false
      → (w' : World Store) × (generate_code (memory_meta now) clock fold config none slug code w
          ≡ (ok code, w'))
        × (capability_for (memory_meta now) clock fold config slug cred w'
            ≡ (ok (granted cred (config.hash_code cred == config.hash_code code) w.store), w'))
  unfolding access put_meta get_token
  generate_code-capability_for slug code cred m w h filled = (
    shared slug code m w,
    generate_code_memory slug code m w h,
    capability_for_memory slug cred (shared slug code m w)
        ∙ ap
            (λ c. (
              ok (
                  if cred == ""
                  then cap_none
                  else if holds_token config cred w.store
                  then cap_author
                  else c),
              shared slug code m w,
            ))
            (reader_for-shared slug code cred m w filled),
  )

  abbrev unshared : String → DocMeta → World Store → World Store
  unshared slug m w = record w {
    store = put_meta slug (record m { extra = delete share_extra_key m.extra }) w.store;
  }

  unshare_absent :
      (slug : String) (m : DocMeta) (w : World Store)
      → lookup share_extra_key m.extra ≡ none
      → unshare (memory_meta now) clock fold config slug (some m) w ≡ (ok tt, w)
  unfolding unshare
  unshare_absent slug m w e = rw (e, unshare) refl

  unshare_present :
      (slug : String) (m : DocMeta) (v : Json) (w : World Store)
      → lookup share_extra_key m.extra ≡ some v
      → unshare (memory_meta now) clock fold config slug (some m) w ≡ (ok tt, unshared slug m w)
  unfolding unshare put_extra
  unshare_present slug m v w e = rw (e, unshare) refl

  hash_absent :
      (m : DocMeta) → lookup share_extra_key m.extra ≡ none → share_code_hash (some m) ≡ ""
  unfolding share_code_hash hash_in
  hash_absent m e = ap hash_in e

  hash_unshared :
      (slug : String) (m : DocMeta) (w : World Store)
      → share_code_hash (get_meta slug (unshared slug m w).store) ≡ ""
  unfolding get_meta put_meta
  hash_unshared slug m w =
      let m' : DocMeta = record m { extra = delete share_extra_key m.extra } in
      ap share_code_hash (lookup-insert_self slug m' w.store.meta) ∙ share_code_hash-unshare m

  tokens_kept :
      (slug : String) (m : DocMeta) (w : World Store)
      → (unshared slug m w).store.tokens ≡ w.store.tokens
  unfolding put_meta
  tokens_kept slug m w = refl

  -- no share code is set
  closed :
      (slug cred : String) (w w' : World Store)
      → w'.store.tokens ≡ w.store.tokens
      → share_code_hash (get_meta slug w'.store) ≡ ""
      → capability_for (memory_meta now) clock fold config slug cred w'
        ≡ (ok (granted cred false w.store), w')
  unfolding access reader_for get_token
  closed slug cred w w' t e =
      capability_for_memory slug cred w'
      ∙ (ap (λ want. (ok (opened w'.store.tokens want), w')) e
          ∙ ap (λ tokens. (ok (opened tokens ""), w')) t)
    where
      opened : Dict TokenRecord → String → Capability
      opened tokens want =
          if cred == ""
          then cap_none
          else if not (cred == "")
              && (not (config.write_token == "") && cred == config.write_token
                  || elim (lookup cred tokens) [ none ↦ false | some r ↦ true ])
          then cap_author
          else if not (want == "") && config.hash_code cred == want
          then cap_reader
          else cap_none

  -- Taking the share code of a document with a record back succeeds over the store in memory.
  -- Afterwards a credential that is not empty and is a write token is the author's, and every other
  -- credential gives no access to the document.
  pub revoke_code-capability_for :
      (slug cred : String) (m : DocMeta) (w : World Store)
      → get_meta slug w.store ≡ some m
      → (w' : World Store) × (revoke_code (memory_meta now) clock fold config none slug w
          ≡ (ok tt, w'))
        × (capability_for (memory_meta now) clock fold config slug cred w'
            ≡ (ok (granted cred false w.store), w'))
  unfolding revoke_code with_lock
  revoke_code-capability_for slug cred m w h =
      elim (Option-cases (lookup share_extra_key m.extra)) [
        | inl absent ↦ (
          w,
          ap (λ o. unshare (memory_meta now) clock fold config slug o w) h
              ∙ unshare_absent slug m w absent,
          closed slug cred w w refl (ap share_code_hash h ∙ hash_absent m absent),
        )
        | inr (v, found) ↦ (
          unshared slug m w,
          ap (λ o. unshare (memory_meta now) clock fold config slug o w) h
              ∙ unshare_present slug m v w found,
          closed slug cred w (unshared slug m w) (tokens_kept slug m w) (hash_unshared slug m w),
        )
      ]
