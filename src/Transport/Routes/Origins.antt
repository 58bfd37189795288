-- ===== src/Transport/Routes/Origins.antt =====
-- Which origins may read the answers of a route in a browser.
use octo_doc.Base.{
  ℕ, String, Bool, true, false, ◌&&◌, [], Option, none, some, ◌≡◌, ◌==◌, member, if◌then◌else◌,
}
use octo_doc.Base.Dict.{lookup}
use octo_doc.Platform.Exec.{Result, ok, err, Exec}
use octo_doc.Core.Runtime.{Clock}
use octo_doc.Core.Reconcile.{CaseFolding}
use octo_doc.Storage.Backend.{MetadataStore}
use octo_doc.Service.Auth.{AuthConfig, Capability}
use octo_doc.Service.World.{World}
use octo_doc.Settings.{Config}
use octo_doc.Transport.Access.{
  Request, Outside, Gate, proceed, set_cookie_and_redirect, bearer_token,
}
use octo_doc.Transport.Limiter.{Limiter, allow}
use octo_doc.Transport.Routes.{
  Wire, no_content, Exchange, Handler, Route, is_read, allow_origin, cors_headers, wrap, limited,
  limit, resolve_client_ip, cors, sec_headers, passed_on, gated, behind_gate, html_gated, serve,
}
use octo_doc.Transport.Routes.Headers.{
  Listed, cors_headers-Listed, doc_headers-Listed, no_headers-Listed,
}

module _ {S : Type 0} (meta : MetadataStore S) (clock : Clock) (fold : CaseFolding)
    (outside : Outside) (auth : AuthConfig) (cfg : Config)
    (split_host_port : String → Option String) {A : Type 0} where
  -- A handler shows no answer to a write to an origin that is not allowed.
  abbrev KeepsListed : Handler S A → Type 0
  KeepsListed h =
      (r : Wire) (c : Exchange S)
      → is_read r ≡ false
      → Listed cfg.cors_origins r c.headers
      → Listed cfg.cors_origins r (h r c).1.headers

  wrap-KeepsListed :
      (handle : Wire → Exec (World S) A)
      → KeepsListed (wrap meta clock fold outside auth cfg split_host_port handle)
  unfolding wrap
  wrap-KeepsListed handle r c write listed = listed

  limited-Listed :
      (next : Handler S A) (r : Wire) (out : Option ℕ × Limiter) (c : Exchange S)
      → KeepsListed next
      → is_read r ≡ false
      → Listed cfg.cors_origins r c.headers
      → Listed cfg.cors_origins r
          (limited meta clock fold outside auth cfg split_host_port next r out c).1.headers
  unfolding limited
  limited-Listed next r (none, rl) c kept write listed =
      kept r (record c { limiter = rl }) write listed
  limited-Listed next r (some seconds, rl) c kept write listed = listed

  limit-KeepsListed :
      (skip_get : Bool) (next : Handler S A)
      → KeepsListed next
      → KeepsListed (limit meta clock fold outside auth cfg split_host_port skip_get next)
  unfolding limit
  limit-KeepsListed skip_get next kept r c write listed =
      elim (skip_get && r.method == "GET")
        as (λ b.
          Listed cfg.cors_origins r
            (if b
              then next r c
              else limited meta clock fold outside auth cfg split_host_port next r
                  (allow
                    (record {
                      token = bearer_token fold outside r.access;
                      ip = resolve_client_ip meta clock fold outside auth cfg split_host_port r;
                      now = r.now;
                    })
                    c.limiter)
                  c).1.headers) [
                    | true ↦ kept r c write listed
                    | false ↦ limited-Listed next r _ c kept write listed
                  ]

  cors-KeepsListed :
      (next : Handler S A)
      → KeepsListed next
      → KeepsListed (cors meta clock fold outside auth cfg split_host_port next)
  unfolding cors
  cors-KeepsListed next kept r c write listed =
      let now_listed = cors_headers-Listed cfg.cors_origins r c.headers write listed in
      elim (r.method == "OPTIONS")
        as (λ b.
          Listed cfg.cors_origins r
            (if b
              then (no_content, record c { headers = cors_headers cfg.cors_origins r c.headers })
              else next r
                  (record c { headers = cors_headers cfg.cors_origins r c.headers })).1.headers) [
                    | true ↦ now_listed
                    | false ↦ kept r _ write now_listed
                  ]

  sec_headers-KeepsListed :
      (next : Handler S A)
      → KeepsListed next
      → KeepsListed (sec_headers meta clock fold outside auth cfg split_host_port next)
  unfolding sec_headers
  sec_headers-KeepsListed next kept r c write listed =
      kept r _ write (doc_headers-Listed cfg.cors_origins r cfg.frame_ancestors c.headers listed)

  passed_on-Listed :
      {B : Type 0} (next : Handler S A) (r : Wire) (checked : Result B × World S) (c : Exchange S)
      → KeepsListed next
      → is_read r ≡ false
      → Listed cfg.cors_origins r c.headers
      → Listed cfg.cors_origins r
          (passed_on meta clock fold outside auth cfg split_host_port next r checked c).1.headers
  unfolding passed_on
  passed_on-Listed next r (ok b, w) c kept write listed =
      kept r (record c { world = w }) write listed
  passed_on-Listed next r (err e, w) c kept write listed = listed

  gated-KeepsListed :
      {B : Type 0} (check : Request → Exec (World S) B) (next : Handler S A)
      → KeepsListed next
      → KeepsListed (gated meta clock fold outside auth cfg split_host_port check next)
  unfolding gated
  gated-KeepsListed check next kept r c write listed =
      passed_on-Listed next r (check r.access c.world) c kept write listed

  behind_gate-Listed :
      (next : Handler S A) (r : Wire) (checked : Result Gate × World S) (c : Exchange S)
      → KeepsListed next
      → is_read r ≡ false
      → Listed cfg.cors_origins r c.headers
      → Listed cfg.cors_origins r
          (behind_gate meta clock fold outside auth cfg split_host_port next r checked c).1.headers
  unfolding behind_gate
  behind_gate-Listed next r (ok proceed, w) c kept write listed =
      kept r (record c { world = w }) write listed
  behind_gate-Listed next r (ok (set_cookie_and_redirect slug cred), w) c kept write listed = listed
  behind_gate-Listed next r (err e, w) c kept write listed = listed

  html_gated-KeepsListed :
      (least : Capability) (next : Handler S A)
      → KeepsListed next
      → KeepsListed (html_gated meta clock fold outside auth cfg split_host_port least next)
  unfolding html_gated
  html_gated-KeepsListed least next kept r c write listed =
      behind_gate-Listed next r _ c kept write listed

  serve-KeepsListed :
      (handle : Route → Wire → Exec (World S) A) (route : Route)
      → KeepsListed (serve meta clock fold outside auth cfg split_host_port handle route)
  unfolding serve
  serve-KeepsListed handle Route.bootstrap = cors-KeepsListed _ (wrap-KeepsListed _)
  serve-KeepsListed handle Route.auth_me = wrap-KeepsListed _
  serve-KeepsListed handle Route.logout = cors-KeepsListed _ (wrap-KeepsListed _)
  serve-KeepsListed handle Route.post_docs =
      gated-KeepsListed _ _ (cors-KeepsListed _ (limit-KeepsListed _ _ (wrap-KeepsListed _)))
  serve-KeepsListed handle Route.get_versions =
      cors-KeepsListed _ (gated-KeepsListed _ _ (wrap-KeepsListed _))
  serve-KeepsListed handle Route.delete_doc =
      gated-KeepsListed _ _ (cors-KeepsListed _ (wrap-KeepsListed _))
  serve-KeepsListed handle Route.put_draft =
      gated-KeepsListed _ _ (cors-KeepsListed _ (limit-KeepsListed _ _ (wrap-KeepsListed _)))
  serve-KeepsListed handle Route.post_promote =
      gated-KeepsListed _ _ (cors-KeepsListed _ (limit-KeepsListed _ _ (wrap-KeepsListed _)))
  serve-KeepsListed handle Route.post_share =
      gated-KeepsListed _ _ (cors-KeepsListed _ (wrap-KeepsListed _))
  serve-KeepsListed handle Route.delete_share =
      gated-KeepsListed _ _ (cors-KeepsListed _ (wrap-KeepsListed _))
  serve-KeepsListed handle Route.post_assets =
      gated-KeepsListed _ _ (cors-KeepsListed _ (limit-KeepsListed _ _ (wrap-KeepsListed _)))
  serve-KeepsListed handle Route.get_assets =
      cors-KeepsListed _ (gated-KeepsListed _ _ (wrap-KeepsListed _))
  serve-KeepsListed handle Route.delete_asset =
      gated-KeepsListed _ _ (cors-KeepsListed _ (wrap-KeepsListed _))
  serve-KeepsListed handle Route.get_comments =
      cors-KeepsListed _ (gated-KeepsListed _ _ (limit-KeepsListed _ _ (wrap-KeepsListed _)))
  serve-KeepsListed handle Route.post_comments =
      cors-KeepsListed _ (limit-KeepsListed _ _ (wrap-KeepsListed _))
  serve-KeepsListed handle Route.patch_comments =
      cors-KeepsListed _ (limit-KeepsListed _ _ (wrap-KeepsListed _))
  serve-KeepsListed handle Route.delete_comments =
      cors-KeepsListed _ (limit-KeepsListed _ _ (wrap-KeepsListed _))
  serve-KeepsListed handle Route.post_reactions =
      cors-KeepsListed _ (limit-KeepsListed _ _ (wrap-KeepsListed _))
  serve-KeepsListed handle Route.post_agent_replies =
      gated-KeepsListed _ _ (cors-KeepsListed _ (limit-KeepsListed _ _ (wrap-KeepsListed _)))
  serve-KeepsListed handle Route.render_draft =
      html_gated-KeepsListed _ _ (sec_headers-KeepsListed _ (wrap-KeepsListed _))
  serve-KeepsListed handle Route.render =
      html_gated-KeepsListed _ _ (sec_headers-KeepsListed _ (wrap-KeepsListed _))
  serve-KeepsListed handle Route.fork_export =
      html_gated-KeepsListed _ _ (sec_headers-KeepsListed _ (wrap-KeepsListed _))
  serve-KeepsListed handle Route.serve_asset = html_gated-KeepsListed _ _ (wrap-KeepsListed _)
  serve-KeepsListed handle Route.catalog = wrap-KeepsListed _

  -- Whatever the handlers: a write, or a preflight for one, has an answer with
  -- Access-Control-Allow-Origin only where the origin of the request is in the configured list, and
  -- the header is then that origin.
  pub serve-allows_listed :
      (handle : Route → Wire → Exec (World S) A) (route : Route) (r : Wire) (w : World S)
      (rl : Limiter) (origin : String)
      → is_read r ≡ false
      → lookup allow_origin
          (serve meta clock fold outside auth cfg split_host_port handle route r
            (record { world = w; limiter = rl; headers = [] })).1.headers
        ≡ some origin
      → (origin ≡ r.origin) × (member r.origin cfg.cors_origins ≡ true)
  serve-allows_listed handle route r w rl origin write h =
      serve-KeepsListed handle route r _ write (no_headers-Listed cfg.cors_origins r) origin h
