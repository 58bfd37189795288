-- ===== src/Service/Auth/Bootstrap.antt =====
-- internal/service/auth.go, `Bootstrap`: the first write token, over the store in memory.
use octo_doc.Base.{
  ℕ, String, true, false, [], ◌∷◌, none, some, ◌≡◌, ◌∙◌, refl, ap, ◌==◌, eq_iff, arith,
}
use octo_doc.Base.Dict.{Dict, lookup, insert}
use octo_doc.Platform.Exec.{app, err, ok, pure, then_on}
use octo_doc.Core.Runtime.{Clock, read_rfc3339}
use octo_doc.Core.Reconcile.{CaseFolding}
use octo_doc.Storage.Types.{TokenRecord}
use octo_doc.Storage.Memory.{Store, any_token, put_token, get_token}
use octo_doc.Storage.Memory.Instance.{memory_meta}
use octo_doc.Service.World.{World, with_lock}
use octo_doc.Service.Auth.{
  AuthConfig, already_bootstrapped, mint_first, bootstrap, is_valid_write_token,
}
use octo_doc.Service.Auth.Sharing.{holds_token, is_valid_write_token_memory}

module _ (now : ℕ) (clock : Clock) (fold : CaseFolding) (config : AuthConfig) (token : String)
    (w : World Store) where
  abbrev minted : World Store
  minted = record {
    store =
        put_token token
          (record {
            token = token;
            created = clock.rfc3339 w.machine.readings;
            label = "bootstrap";
          })
          w.store;
    machine = (read_rfc3339 clock w.machine).1;
  }

  no_tokens :
      (tokens : Dict TokenRecord) → elim tokens [ [] ↦ false | _ ∷ _ ↦ true ] ≡ false → tokens ≡ []
  no_tokens [] h = refl
  no_tokens (t ∷ ts) h = cc

  mint_first_memory :
      any_token w.store ≡ false
      → mint_first (memory_meta now) clock fold config token w ≡ (ok tt, minted)
  unfolding mint_first read_rfc3339
  mint_first_memory h = rw (h, mint_first) refl

  mint_first_refused :
      any_token w.store ≡ true
      → mint_first (memory_meta now) clock fold config token w ≡ (err (app already_bootstrapped), w)
  unfolding mint_first
  mint_first_refused h = rw (h, mint_first) refl

  bootstrap_open :
      config.allow_bootstrap ≡ true
      → config.write_token ≡ ""
      → bootstrap (memory_meta now) clock fold config none token w
        ≡ then_on (λ u. pure token) (mint_first (memory_meta now) clock fold config token w)
  unfolding bootstrap with_lock
  bootstrap_open allowed dynamic = rw (allowed, bootstrap) (rw dynamic refl)

  tokens-minted :
      any_token w.store ≡ false
      → minted.store.tokens
        ≡ (
          token,
          record { token = token; created = clock.rfc3339 w.machine.readings; label = "bootstrap" },
        )
          ∷ []
  unfolding any_token put_token insert lookup
  tokens-minted h = rw (no_tokens w.store.tokens h) refl

  holds_minted :
      any_token w.store ≡ false
      → (token == "") ≡ false
      → holds_token config token minted.store ≡ true
  unfolding get_token lookup
  holds_minted h filled =
      let found : get_token token minted.store
          ≡ some (record {
            token = token;
            created = clock.rfc3339 w.machine.readings;
            label = "bootstrap";
          }) =
        rw (tokens-minted h) (rw ((eq_iff token token).1 refl, lookup) refl) in
      rw (filled, found) (ground arith)

  any_minted : any_token w.store ≡ false → any_token minted.store ≡ true
  unfolding any_token
  any_minted h = rw (tokens-minted h) refl

-- Over the store in memory, where bootstrapping is allowed, no static token is set and there is no
-- token yet: bootstrapping with a fresh token that is not empty succeeds and makes it a valid write
-- token, and bootstrapping once more is the conflict "already_bootstrapped" and changes nothing.
pub bootstrap_once :
    (now : ℕ) (clock : Clock) (fold : CaseFolding) (config : AuthConfig) (token other : String)
    (w : World Store)
    → config.allow_bootstrap ≡ true
    → config.write_token ≡ ""
    → any_token w.store ≡ false
    → (token == "") ≡ false
    → (w' : World Store) × (bootstrap (memory_meta now) clock fold config none token w
        ≡ (ok token, w'))
      × (is_valid_write_token (memory_meta now) clock fold config token w' ≡ (ok true, w'))
      × (bootstrap (memory_meta now) clock fold config none other w'
          ≡ (err (app already_bootstrapped), w'))
bootstrap_once now clock fold config token other w allowed dynamic none_yet filled =
    let w' = minted now clock fold config token w in
    (
      w',
      bootstrap_open now clock fold config token w allowed dynamic
          ∙ ap (then_on (λ u. pure token))
              (mint_first_memory now clock fold config token w none_yet),
      is_valid_write_token_memory now clock fold config token w'
          ∙ ap (λ b. (ok b, w')) (holds_minted now clock fold config token w none_yet filled),
      bootstrap_open now clock fold config other w' allowed dynamic
          ∙ ap (then_on (λ u. pure other)) (
              mint_first_refused now clock fold config other w'
                (any_minted now clock fold config token w none_yet)),
    )
