-- ===== src/Transport/Routes/Admission.antt =====
-- What a route needs of a request, and what a gate has found out about a request that it lets through.
use octo_doc.Base.{
  ℕ, ◌≤◌, String, Bool, true, not, ◌||◌, ◌≡◌, ◌==◌, arith, ltb, Bool-cases, inl, inr, ap, ◌∙◌, ◌+◌,
  false, if◌then◌else◌,
}
use octo_doc.Platform.Errors.{AppError}
use octo_doc.Platform.Exec.{ok, Exec, fail, pure, then_on, then_on-ok}
use octo_doc.Core.Runtime.{Clock}
use octo_doc.Core.Reconcile.{CaseFolding}
use octo_doc.Storage.Backend.{MetadataStore}
use octo_doc.Service.Auth.{AuthConfig, Capability, is_valid_write_token}
use octo_doc.Service.World.{World}
use octo_doc.Transport.Access.{
  Request, Outside, Gate, rank, bearer_token, query_value, best_cred, resolve_cap, doc_html_gate,
  require_doc_cap, require_doc_read, require_doc_author, require_write_auth,
}
use octo_doc.Transport.Routes.{Route}
use octo_doc.Transport.Slugs.{require_slug}

-- Who may use a route.
pub data Needs : Type 0 where
  nobody writer author reader listener : Needs

abbrev pub needs : Route → Needs
needs Route.bootstrap = nobody
needs Route.auth_me = nobody
needs Route.logout = nobody
needs Route.post_docs = writer
needs Route.get_versions = reader
needs Route.delete_doc = author
needs Route.put_draft = author
needs Route.post_promote = author
needs Route.post_share = author
needs Route.delete_share = author
needs Route.post_assets = author
needs Route.get_assets = reader
needs Route.delete_asset = author
needs Route.get_comments = listener
needs Route.post_comments = nobody
needs Route.patch_comments = nobody
needs Route.delete_comments = nobody
needs Route.post_reactions = nobody
needs Route.post_agent_replies = writer
needs Route.render_draft = author
needs Route.render = reader
needs Route.fork_export = reader
needs Route.serve_asset = reader
needs Route.catalog = nobody

module _ {S A : Type 0} (test : Bool) (e : AppError) (m : Exec S A) (a : A) (s s' : S) where
  let_through : (if test then m else fail e) s ≡ (ok a, s') → test ≡ true
  let_through h = elim (Bool-cases test) [ inl p ↦ p | inr p ↦ absurd (ground arith) ]

  not_stopped : (if test then fail e else m) s ≡ (ok a, s') → test ≡ false
  not_stopped h = elim (Bool-cases test) [ inl p ↦ absurd (ground arith) | inr p ↦ p ]

valid_here : (valid missing : Bool) → (missing || not valid) ≡ false → valid ≡ true
valid_here valid missing h = ground arith

above : (n k : ℕ) → ltb n k ≡ true → n + 1 ≤ k
above n k h = ground arith

not_below : (k n : ℕ) → ltb k n ≡ false → n ≤ k
not_below k n h = ground arith

module _ {S : Type 0} (meta : MetadataStore S) (clock : Clock) (fold : CaseFolding)
    (outside : Outside) (auth : AuthConfig) where
  -- The request's credentials give at least the rank for the document that the text names.
  abbrev pub HasRank : ℕ → String → Request → World S → Type 0
  HasRank least raw q w =
      (slug : String) × (cap : Capability) × (w₁ w₂ : World S) × (require_slug raw w
        ≡ (ok slug, w₁))
      × (resolve_cap fold outside meta clock auth q slug w₁ ≡ (ok cap, w₂))
      × (least ≤ rank cap)

  abbrev pub IsAdmitted : Needs → Request → World S → Type 0
  IsAdmitted nobody q w = Unit {0}
  IsAdmitted writer q w =
      (w' : World S) × (is_valid_write_token meta clock fold auth (bearer_token fold outside q) w
        ≡ (ok true, w'))
  IsAdmitted author q w = HasRank 2 q.slug q w
  IsAdmitted reader q w = HasRank 1 q.slug q w
  IsAdmitted listener q w = HasRank 1 (query_value "slug" q) q w

  pub writer-IsAdmitted :
      (q : Request) (u : Unit {0}) (w w' : World S)
      → require_write_auth fold outside meta clock auth q w ≡ (ok u, w')
      → IsAdmitted writer q w
  unfolding require_write_auth
  writer-IsAdmitted q u w w' h =
      let (valid, w₁, tested, rest) =
        then_on-ok (is_valid_write_token meta clock fold auth (bearer_token fold outside q) w) _ u
          w' h in
      (
        w₁,
        tested
            ∙ ap (λ v. (ok v, w₁))
                (valid_here valid (bearer_token fold outside q == "")
                  (not_stopped _ _ _ u w₁ w' rest)),
      )

  pub author-IsAdmitted :
      (q : Request) (slug : String) (w w' : World S)
      → require_doc_author fold outside meta clock auth q w ≡ (ok slug, w')
      → IsAdmitted author q w
  unfolding require_doc_author
  author-IsAdmitted q s w w' h =
      let (slug, w₁, named, h₁) = then_on-ok (require_slug q.slug w) _ s w' h in
      let (cap, w₂, found, h₂) =
        then_on-ok (resolve_cap fold outside meta clock auth q slug w₁) _ s w' h₁ in
      (slug, cap, w₁, w₂, named, found, above 1 (rank cap) (let_through _ _ _ s w₂ w' h₂))

  pub reader-HasRank :
      (raw : String) (q : Request) (slug : String) (w w' : World S)
      → require_doc_read fold outside meta clock auth q raw w ≡ (ok slug, w')
      → HasRank 1 raw q w
  unfolding require_doc_read require_doc_cap
  reader-HasRank raw q s w w' h =
      let (slug, w₁, named, h₁) = then_on-ok (require_slug raw w) _ s w' h in
      let (u, w₂, allowed, h₂) =
        then_on-ok (require_doc_cap fold outside meta clock auth q slug w₁) _ s w' h₁ in
      let (cap, w₃, found, h₃) =
        then_on-ok (resolve_cap fold outside meta clock auth q slug w₁) _ u w₂ allowed in
      (slug, cap, w₁, w₃, named, found, above 0 (rank cap) (let_through _ _ _ u w₃ w₂ h₃))

  pub html-HasRank :
      (least : Capability) (q : Request) (g : Gate) (w w' : World S)
      → doc_html_gate fold outside meta clock auth least q w ≡ (ok g, w')
      → HasRank (rank least) q.slug q w
  unfolding doc_html_gate resolve_cap
  html-HasRank least q g w w' h =
      let (slug, w₁, named, h₁) = then_on-ok (require_slug q.slug w) _ g w' h in
      let (best, w₂, found, h₂) =
        then_on-ok (best_cred fold outside meta clock auth q slug w₁) _ g w' h₁ in
      (
        slug,
        best.1,
        w₁,
        w₂,
        named,
        ap (then_on (λ b. pure b.1)) found,
        not_below (rank best.1) (rank least) (not_stopped _ _ _ g w₂ w' h₂),
      )
