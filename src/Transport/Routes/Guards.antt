-- ===== src/Transport/Routes/Guards.antt =====
-- What a request has shown when the handler of its route has answered it.
use octo_doc.Base.{String, Option, ◌≡◌, refl, ◌==◌, arith, Bool-cases, inl, inr}
use octo_doc.Platform.Exec.{Result, ok, err, Exec}
use octo_doc.Core.Runtime.{Clock}
use octo_doc.Core.Reconcile.{CaseFolding}
use octo_doc.Storage.Backend.{MetadataStore}
use octo_doc.Service.Auth.{AuthConfig, Capability, cap_reader, cap_author}
use octo_doc.Service.World.{World}
use octo_doc.Settings.{Config}
use octo_doc.Transport.Access.{
  Request, Outside, Gate, rank, query_value, doc_html_gate, require_doc_read, require_doc_author,
  require_write_auth,
}
use octo_doc.Transport.Routes.{
  Wire, answered, Exchange, Handler, Route, gated, passed_on, html_gated, behind_gate, cors,
  cors_headers, serve,
}
use octo_doc.Transport.Routes.Admission.{
  writer, author, needs, HasRank, IsAdmitted, writer-IsAdmitted, author-IsAdmitted, reader-HasRank,
  html-HasRank,
}

module _ {S : Type 0} (meta : MetadataStore S) (clock : Clock) (fold : CaseFolding)
    (outside : Outside) (auth : AuthConfig) (cfg : Config)
    (split_host_port : String → Option String) where
  module _ {A : Type 0} where
    passed_on-answered :
        {B : Type 0} (next : Handler S A) (r : Wire) (checked : Result B × World S)
        (c c' : Exchange S) (a : A)
        → passed_on meta clock fold outside auth cfg split_host_port next r checked c
          ≡ (answered a, c')
        → (b : B) × (checked ≡ (ok b, checked.1))
    unfolding passed_on
    passed_on-answered next r (ok b, w) c c' a h = (b, refl)
    passed_on-answered next r (err e, w) c c' a h = absurd (ground arith)

    behind_gate-answered :
        (next : Handler S A) (r : Wire) (checked : Result Gate × World S) (c c' : Exchange S)
        (a : A)
        → behind_gate meta clock fold outside auth cfg split_host_port next r checked c
          ≡ (answered a, c')
        → (g : Gate) × (checked ≡ (ok g, checked.1))
    unfolding behind_gate
    behind_gate-answered next r (ok g, w) c c' a h = (g, refl)
    behind_gate-answered next r (err e, w) c c' a h = absurd (ground arith)

    cors-answered :
        (next : Handler S A) (r : Wire) (c c' : Exchange S) (a : A)
        → cors meta clock fold outside auth cfg split_host_port next r c ≡ (answered a, c')
        → next r (record c { headers = cors_headers cfg.cors_origins r c.headers })
          ≡ (answered a, c')
    unfolding cors
    cors-answered next r c c' a h = elim (Bool-cases (r.method == "OPTIONS")) [
      | inl p ↦ absurd (ground arith)
      | inr p ↦ ground arith
    ]

    writer-answered :
        (next : Handler S A) (r : Wire) (c c' : Exchange S) (a : A)
        → gated meta clock fold outside auth cfg split_host_port
            (require_write_auth fold outside meta clock auth)
            next
            r
            c
          ≡ (answered a, c')
        → IsAdmitted meta clock fold outside auth writer r.access c.world
    unfolding gated
    writer-answered next r c c' a h =
        let checked = require_write_auth fold outside meta clock auth r.access c.world in
        let (u, passed) = passed_on-answered next r checked c c' a h in
        writer-IsAdmitted meta clock fold outside auth r.access u c.world checked.1 passed

    author-answered :
        (next : Handler S A) (r : Wire) (c c' : Exchange S) (a : A)
        → gated meta clock fold outside auth cfg split_host_port
            (require_doc_author fold outside meta clock auth)
            next
            r
            c
          ≡ (answered a, c')
        → IsAdmitted meta clock fold outside auth author r.access c.world
    unfolding gated
    author-answered next r c c' a h =
        let checked = require_doc_author fold outside meta clock auth r.access c.world in
        let (slug, passed) = passed_on-answered next r checked c c' a h in
        author-IsAdmitted meta clock fold outside auth r.access slug c.world checked.1 passed

    -- `raw` takes the slug from the path or from the query.
    reader-answered :
        (raw : Request → String) (next : Handler S A) (r : Wire) (c c' : Exchange S) (a : A)
        → cors meta clock fold outside auth cfg split_host_port
            (gated meta clock fold outside auth cfg split_host_port
              (λ q. require_doc_read fold outside meta clock auth q (raw q))
              next)
            r
            c
          ≡ (answered a, c')
        → HasRank meta clock fold outside auth 1 (raw r.access) r.access c.world
    unfolding gated
    reader-answered raw next r c c' a h =
        let checked =
          require_doc_read fold outside meta clock auth r.access (raw r.access) c.world in
        let answer = cors-answered _ r c c' a h in
        let (slug, passed) = passed_on-answered next r checked _ c' a answer in
        reader-HasRank meta clock fold outside auth (raw r.access) r.access slug c.world checked.1
          passed

    html-answered :
        (least : Capability) (next : Handler S A) (r : Wire) (c c' : Exchange S) (a : A)
        → html_gated meta clock fold outside auth cfg split_host_port least next r c
          ≡ (answered a, c')
        → HasRank meta clock fold outside auth (rank least) r.access.slug r.access c.world
    unfolding html_gated
    html-answered least next r c c' a h =
        let checked = doc_html_gate fold outside meta clock auth least r.access c.world in
        let (g, passed) = behind_gate-answered next r checked c c' a h in
        html-HasRank meta clock fold outside auth least r.access g c.world checked.1 passed

    -- Over any backend and whatever the handlers: where a route answers without an error, the request
    -- has what the route needs. To publish and to reply as the agent, it has a valid write token; to
    -- change, share or delete a document, its draft or its assets and to see the draft, a credential
    -- with the author's capability for it; to read it, its versions, assets or comments, one with at
    -- least a reader's.
    pub serve-IsAdmitted :
        (handle : Route → Wire → Exec (World S) A) (route : Route) (r : Wire) (c c' : Exchange S)
        (a : A)
        → serve meta clock fold outside auth cfg split_host_port handle route r c ≡ (answered a, c')
        → IsAdmitted meta clock fold outside auth (needs route) r.access c.world
    unfolding serve
    serve-IsAdmitted handle Route.bootstrap r c c' a h = tt
    serve-IsAdmitted handle Route.auth_me r c c' a h = tt
    serve-IsAdmitted handle Route.logout r c c' a h = tt
    serve-IsAdmitted handle Route.post_docs r c c' a h = writer-answered _ r c c' a h
    serve-IsAdmitted handle Route.get_versions r c c' a h =
        reader-answered (λ q. q.slug) _ r c c' a h
    serve-IsAdmitted handle Route.delete_doc r c c' a h = author-answered _ r c c' a h
    serve-IsAdmitted handle Route.put_draft r c c' a h = author-answered _ r c c' a h
    serve-IsAdmitted handle Route.post_promote r c c' a h = author-answered _ r c c' a h
    serve-IsAdmitted handle Route.post_share r c c' a h = author-answered _ r c c' a h
    serve-IsAdmitted handle Route.delete_share r c c' a h = author-answered _ r c c' a h
    serve-IsAdmitted handle Route.post_assets r c c' a h = author-answered _ r c c' a h
    serve-IsAdmitted handle Route.get_assets r c c' a h = reader-answered (λ q. q.slug) _ r c c' a h
    serve-IsAdmitted handle Route.delete_asset r c c' a h = author-answered _ r c c' a h
    serve-IsAdmitted handle Route.get_comments r c c' a h =
        reader-answered (query_value "slug") _ r c c' a h
    serve-IsAdmitted handle Route.post_comments r c c' a h = tt
    serve-IsAdmitted handle Route.patch_comments r c c' a h = tt
    serve-IsAdmitted handle Route.delete_comments r c c' a h = tt
    serve-IsAdmitted handle Route.post_reactions r c c' a h = tt
    serve-IsAdmitted handle Route.post_agent_replies r c c' a h = writer-answered _ r c c' a h
    serve-IsAdmitted handle Route.render_draft r c c' a h = html-answered cap_author _ r c c' a h
    serve-IsAdmitted handle Route.render r c c' a h = html-answered cap_reader _ r c c' a h
    serve-IsAdmitted handle Route.fork_export r c c' a h = html-answered cap_reader _ r c c' a h
    serve-IsAdmitted handle Route.serve_asset r c c' a h = html-answered cap_reader _ r c c' a h
    serve-IsAdmitted handle Route.catalog r c c' a h = tt
