-- ===== src/Transport/Routes.antt =====
-- internal/transport/httpx/server.go and middleware.go: what stands in front of the handler of each
-- route. A route is found by the router; a header that is absent is "". The access log is left out.
pub mod Headers
pub mod Origins
pub mod Admission
pub mod Guards
use octo_doc.Base.{
  ℕ, String, Bool, true, false, ◌&&◌, ◌||◌, List, [], ◌∷◌, Option, none, some, ◌==◌, if◌then◌else◌,
  member,
}
use octo_doc.Base.Dict.{Dict, insert}
use octo_doc.Base.Text.{concat}
use octo_doc.Platform.Errors.{rate_limited}
use octo_doc.Platform.Exec.{Result, ok, err, Exec, app}
use octo_doc.Core.Runtime.{Clock}
use octo_doc.Core.Reconcile.{CaseFolding}
use octo_doc.Storage.Backend.{MetadataStore}
use octo_doc.Service.Auth.{AuthConfig, Capability, cap_reader, cap_author}
use octo_doc.Service.World.{World}
use octo_doc.Settings.{Config, parts}
use octo_doc.Transport.Access.{
  Request, Outside, Gate, proceed, set_cookie_and_redirect, bearer_token, query_value,
  doc_html_gate, require_doc_read, require_doc_author, require_write_auth,
}
use octo_doc.Transport.Limiter.{Limiter, allow}
use octo_doc.Transport.Responses.{Failure, write_err}

-- A request on the wire. `requested_method` is Access-Control-Request-Method, and `now` is when the
-- limiter reads the clock.
pub record Wire : Type 0 where
  pub method : String
  pub origin : String
  pub requested_method : String
  pub forwarded_for : String
  pub real_ip : String
  pub remote_addr : String
  pub now : ℕ
  pub access : Request

pub data Answer (A : Type 0) : Type 0 where
  answered : A → Answer A
  refused : Failure → Answer A
  no_content : Answer A
  redirected : String → String → Answer A

-- What a request changes: the world of the services, the limiter that every route shares, and the
-- headers of its answer.
pub record Exchange (S : Type 0) : Type 0 where
  pub world : World S
  pub limiter : Limiter
  pub headers : Dict String

abbrev pub Handler : Type 0 → Type 0 → Type 0
Handler S A = Wire → Exchange S → Answer A × Exchange S

unfoldable pub effective_method : Wire → String
effective_method r =
    if r.method == "OPTIONS"
    then (if r.requested_method == "" then r.method else r.requested_method)
    else r.method

unfoldable pub is_read : Wire → Bool
unfolding effective_method
is_read r = effective_method r == "GET" || effective_method r == "HEAD"

abbrev pub allow_origin : String
allow_origin = "Access-Control-Allow-Origin"

-- the headers about the origin
unfoldable pub origin_headers : List String → Wire → Dict String → Dict String
unfolding is_read
origin_headers allowed r headers =
    if is_read r
    then insert allow_origin "*" headers
    else if r.origin == ""
    then headers
    else if member r.origin allowed
    then insert "Vary" "Origin" (insert allow_origin r.origin headers)
    else headers

unfoldable pub cors_headers : List String → Wire → Dict String → Dict String
unfolding origin_headers
cors_headers allowed r headers =
    insert "Access-Control-Allow-Headers" "Content-Type, Authorization" (
      insert "Access-Control-Allow-Methods" "GET, POST, PATCH, DELETE, OPTIONS"
        (origin_headers allowed r headers))

-- `docSecurityHeaders`
unfoldable pub doc_security_headers : String → Dict String
doc_security_headers frame_ancestors =
    (
      "Content-Security-Policy",
      concat (
          "default-src 'self' data: blob: https:; "
          ∷ "script-src 'self' 'unsafe-inline' 'unsafe-eval' data: blob: https:; "
          ∷ "style-src 'self' 'unsafe-inline' https:; " ∷ "img-src 'self' data: blob: https:; "
          ∷ "media-src 'self' data: blob: https:; " ∷ "font-src 'self' data: https:; "
          ∷ "connect-src 'self' https:; " ∷ "frame-src 'self' https:; "
          ∷ "object-src 'self' data: blob: https:; " ∷ "base-uri 'self'; " ∷ "frame-ancestors "
          ∷ frame_ancestors ∷ []),
    )
    ∷ ("X-Frame-Options", if frame_ancestors == "'none'" then "DENY" else "SAMEORIGIN")
    ∷ ("X-Content-Type-Options", "nosniff")
    ∷ ("Referrer-Policy", "no-referrer")
    ∷ []

unfoldable pub set_all : Dict String → Dict String → Dict String
set_all [] headers = headers
set_all ((k, v) ∷ kvs) headers = set_all kvs (insert k v headers)

-- the routes whose answer depends on the services
pub data Route : Type 0 where
  bootstrap auth_me logout : Route
  post_docs get_versions delete_doc put_draft post_promote post_share delete_share : Route
  post_assets get_assets delete_asset : Route
  get_comments post_comments patch_comments delete_comments post_reactions : Route
  post_agent_replies : Route
  render_draft render fork_export serve_asset catalog : Route

module _ {S : Type 0} (meta : MetadataStore S) (clock : Clock) (fold : CaseFolding)
    (outside : Outside) (auth : AuthConfig) (cfg : Config)
    (split_host_port : String → Option String) where
  -- `resolveClientIP`, where `split_host_port` is the host of `net.SplitHostPort`
  unfoldable pub resolve_client_ip : Wire → String
  unfolding parts
  resolve_client_ip r =
      let peer : String = elim (split_host_port r.remote_addr) [
        | some host ↦ host
        | none ↦ r.remote_addr
      ] in
      if cfg.trust_proxy_headers
      then (if r.forwarded_for == ""
          then (if r.real_ip == "" then peer else outside.trim_space r.real_ip)
          else outside.trim_space (parts r.forwarded_for).0)
      else peer

  module _ {A : Type 0} where
    unfoldable pub answer_of : Result A → Answer A
    answer_of (ok a) = answered a
    answer_of (err e) = refused (write_err e)

    unfoldable pub wrap : (Wire → Exec (World S) A) → Handler S A
    unfolding answer_of
    wrap handle r c = let (res, w) = handle r c.world in (answer_of res, record c { world = w })

    unfoldable pub limited :
        Handler S A → Wire → Option ℕ × Limiter → Exchange S → Answer A × Exchange S
    limited next r (none, rl) c = next r (record c { limiter = rl })
    limited next r (some seconds, rl) c =
        (refused (write_err (app (rate_limited seconds))), record c { limiter = rl })

    unfoldable pub limit : Bool → Handler S A → Handler S A
    unfolding limited resolve_client_ip
    limit skip_get next r c =
        if skip_get && r.method == "GET"
        then next r c
        else limited next r
            (allow
              (record {
                token = bearer_token fold outside r.access;
                ip = resolve_client_ip r;
                now = r.now;
              })
              c.limiter)
            c

    unfoldable pub cors : Handler S A → Handler S A
    unfolding cors_headers
    cors next r c =
        let c' = record c { headers = cors_headers cfg.cors_origins r c.headers } in
        if r.method == "OPTIONS" then (no_content, c') else next r c'

    unfoldable pub sec_headers : Handler S A → Handler S A
    unfolding set_all doc_security_headers
    sec_headers next r c =
        next r (record c { headers = set_all (doc_security_headers cfg.frame_ancestors) c.headers })

    unfoldable pub passed_on :
        {B : Type 0} → Handler S A → Wire → Result B × World S → Exchange S → Answer A × Exchange S
    passed_on next r (ok b, w) c = next r (record c { world = w })
    passed_on next r (err e, w) c = (refused (write_err e), record c { world = w })

    -- a check of the request in front of a handler
    unfoldable pub gated : {B : Type 0} → (Request → Exec (World S) B) → Handler S A → Handler S A
    unfolding passed_on
    gated check next r c = passed_on next r (check r.access c.world) c

    unfoldable pub behind_gate :
        Handler S A → Wire → Result Gate × World S → Exchange S → Answer A × Exchange S
    behind_gate next r (ok proceed, w) c = next r (record c { world = w })
    behind_gate next r (ok (set_cookie_and_redirect slug cred), w) c =
        (redirected slug cred, record c { world = w })
    behind_gate next r (err e, w) c = (refused (write_err e), record c { world = w })

    unfoldable pub html_gated : Capability → Handler S A → Handler S A
    unfolding behind_gate
    html_gated least next r c =
        behind_gate next r (doc_html_gate fold outside meta clock auth least r.access c.world) c

    -- the handler of a route behind its middleware
    unfoldable pub serve : (Route → Wire → Exec (World S) A) → Route → Handler S A
    serve handle route =
        let handler = wrap (handle route) in
        let writer = gated (require_write_auth fold outside meta clock auth) in
        let author = gated (require_doc_author fold outside meta clock auth) in
        let reader : Handler S A → Handler S A =
          gated (λ q. require_doc_read fold outside meta clock auth q q.slug) in
        let listener : Handler S A → Handler S A =
          gated (λ q. require_doc_read fold outside meta clock auth q (query_value "slug" q)) in
        elim route [
          | bootstrap ↦ cors handler
          | auth_me ↦ handler
          | logout ↦ cors handler
          | post_docs ↦ writer (cors (limit false handler))
          | get_versions ↦ cors (reader handler)
          | delete_doc ↦ author (cors handler)
          | put_draft ↦ author (cors (limit false handler))
          | post_promote ↦ author (cors (limit false handler))
          | post_share ↦ author (cors handler)
          | delete_share ↦ author (cors handler)
          | post_assets ↦ author (cors (limit false handler))
          | get_assets ↦ cors (reader handler)
          | delete_asset ↦ author (cors handler)
          | get_comments ↦ cors (listener (limit true handler))
          | post_comments ↦ cors (limit true handler)
          | patch_comments ↦ cors (limit true handler)
          | delete_comments ↦ cors (limit true handler)
          | post_reactions ↦ cors (limit false handler)
          | post_agent_replies ↦ writer (cors (limit false handler))
          | render_draft ↦ html_gated cap_author (sec_headers handler)
          | render ↦ html_gated cap_reader (sec_headers handler)
          | fork_export ↦ html_gated cap_reader (sec_headers handler)
          | serve_asset ↦ html_gated cap_reader handler
          | catalog ↦ handler
        ]
