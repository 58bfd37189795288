-- ===== src/Transport/Access.antt =====
-- internal/transport/httpx/capability.go and auth_mw.go: which credential of a request counts, and
-- what is refused.
pub mod Strongest
use octo_doc.Base.{
  ℕ, String, Bool, true, false, not, ◌&&◌, ◌||◌, List, [], ◌∷◌, ◌++◌, Option, none, some, ◌==◌, ltb,
  if◌then◌else◌,
}
use Prim.Native.String.{count}
use octo_doc.Base.Dict.{Dict, lookup}
use octo_doc.Base.Slices.{take, drop}
use octo_doc.Base.Text.{concat}
use octo_doc.Platform.Errors.{AppError, not_found, unauthorized, new_err}
use octo_doc.Platform.Exec.{Exec, pure, fail, ◌>>=◌, ◌>>◌}
use octo_doc.Core.Runtime.{Clock}
use octo_doc.Core.Reconcile.{CaseFolding}
use octo_doc.Storage.Backend.{MetadataStore}
use octo_doc.Service.World.{World}
use octo_doc.Service.Auth.{
  AuthConfig, Capability, cap_none, cap_reader, cap_author, capability_for, is_valid_write_token,
}
use octo_doc.Transport.Slugs.{require_slug}

-- The parts of a request that access depends on; a header or a query parameter that is absent is "".
pub record Request : Type 0 where
  pub slug : String
  pub authorization : String
  pub cookies : Dict String
  pub query : Dict String

-- `strings.TrimSpace` and `storage.HashSlug`
pub record Outside : Type 0 where
  pub trim_space : String → String
  pub hash_slug : String → String

unfoldable pub query_value : String → Request → String
query_value k r = elim (lookup k r.query) [ none ↦ "" | some v ↦ v ]

-- the order of `Capability` as a number
abbrev pub rank : Capability → ℕ
rank cap_none = 0
rank cap_reader = 1
rank cap_author = 2

abbrev pub not_found_here : AppError
not_found_here = not_found "Not found"

-- what an HTML gate does with a request that may pass
pub data Gate : Type 0 where
  proceed : Gate
  set_cookie_and_redirect : String → String → Gate

abbrev pub present : String → List String
present s = if s == "" then [] else s ∷ []

module _ (fold : CaseFolding) (outside : Outside) where
  unfoldable pub bearer_token : Request → String
  unfolding take drop
  bearer_token r =
      let h = r.authorization in
      if ltb 7 (count h) && fold.equal_fold (take 7 h) "Bearer "
      then outside.trim_space (drop 7 h)
      else ""

  unfoldable pub cap_cookie_name : String → String
  cap_cookie_name slug = concat ("octo_cap_" ∷ outside.hash_slug slug ∷ [])

  unfoldable pub cookie_value : String → Request → String
  cookie_value name r = elim (lookup name r.cookies) [ none ↦ "" | some v ↦ v ]

  unfoldable pub cred_candidates : Request → String → List String
  unfolding bearer_token cookie_value cap_cookie_name query_value
  cred_candidates r slug =
      present (bearer_token r)
      ++ present (cookie_value (cap_cookie_name slug) r)
      ++ present (query_value "code" r)

  module _ {S : Type 0} (meta : MetadataStore S) (clock : Clock) (config : AuthConfig) where
    -- the loop of `bestCred`, with the best so far
    unfoldable pub best_of :
        String → List String → String × Capability → Exec (World S) (String × Capability)
    unfolding capability_for
    best_of slug [] best = pure best
    best_of slug (cred ∷ creds) best = do
      cap ← capability_for meta clock fold config slug cred
      best_of slug creds (if ltb (rank best.1) (rank cap) then (cred, cap) else best)

    unfoldable pub best_cred : Request → String → Exec (World S) (String × Capability)
    unfolding best_of cred_candidates
    best_cred r slug = best_of slug (cred_candidates r slug) ("", cap_none)

    unfoldable pub resolve_cap : Request → String → Exec (World S) Capability
    unfolding best_cred
    resolve_cap r slug = do best ← best_cred r slug; pure best.1

    -- `docHTMLGate` in front of the handler
    unfoldable pub doc_html_gate : Capability → Request → Exec (World S) Gate
    unfolding best_cred query_value bearer_token
    doc_html_gate least r = do
      slug ← require_slug r.slug
      best ← best_cred r slug
      let code = query_value "code" r
      if ltb (rank best.1) (rank least)
          then fail not_found_here
          else if not (code == "") && code == best.0 && bearer_token r == ""
          then pure (set_cookie_and_redirect slug best.0)
          else pure proceed

    unfoldable pub require_doc_cap : Request → String → Exec (World S) (Unit {0})
    unfolding resolve_cap
    require_doc_cap r slug = do
      cap ← resolve_cap r slug
      if ltb 0 (rank cap) then pure tt else fail not_found_here

    -- `requireDocReadJSON` with the slug of the path or of the query
    unfoldable pub require_doc_read : Request → String → Exec (World S) String
    unfolding require_doc_cap
    require_doc_read r raw = do slug ← require_slug raw; require_doc_cap r slug; pure slug

    unfoldable pub require_doc_author : Request → Exec (World S) String
    unfolding resolve_cap
    require_doc_author r = do
      slug ← require_slug r.slug
      cap ← resolve_cap r slug
      if ltb 1 (rank cap) then pure slug else fail not_found_here

    unfoldable pub require_write_auth : Request → Exec (World S) (Unit {0})
    unfolding is_valid_write_token bearer_token
    require_write_auth r = do
      valid ← is_valid_write_token meta clock fold config (bearer_token r)
      if bearer_token r == "" || not valid then fail (unauthorized "" "") else pure tt
