-- ===== src/Transport/Comments/Authority.antt =====
-- Who may change a comment of a session.
use octo_doc.Base.{
  String, true, false, not, ◌&&◌, List, Option, none, some, ◌⊎◌, inl, inr, ◌≡◌, ap, ◌==◌, eq_iff,
  arith, Bool-cases,
}
use octo_doc.Base.Int.{ℤ}
use octo_doc.Platform.Exec.{Error, ok, then_on-ok, guard-ok}
use octo_doc.Core.Types.{Author, Comment}
use octo_doc.Core.Runtime.{Clock}
use octo_doc.Core.Reconcile.{CaseFolding}
use octo_doc.Storage.Types.{Session}
use octo_doc.Storage.Backend.{MetadataStore}
use octo_doc.Service.Auth.{AuthConfig, is_owner}
use octo_doc.Service.Comments
use octo_doc.Service.World.{World}
use octo_doc.Transport.Access.{Request, Outside, query_value, require_doc_cap}
use octo_doc.Transport.Comments.{
  Answer, viewer, remove_one, permit, find_author_record, authorize_mutation,
}

module _ {S : Type 0} (meta : MetadataStore S) (clock : Clock) (fold : CaseFolding)
    (outside : Outside) (config : AuthConfig) (atoi : String → Option ℤ) where
  -- The session is the owner's, or that of the comment's author.
  abbrev pub IsAllowed : Session → Option Author → Type 0
  IsAllowed session none = ⊥
  IsAllowed session (some author) =
      (is_owner meta clock fold config (some session) ≡ true)
      ⊎ ((author.login ≡ session.login) × ((session.login == "") ≡ false))

  permit-IsAllowed :
      (session : Session) (found : Option Author) (w w' : World S)
      → permit meta clock fold outside config atoi session found w ≡ (ok tt, w')
      → IsAllowed session found
  unfolding permit
  permit-IsAllowed session none w w' h = absurd (ground arith)
  permit-IsAllowed session (some author) w w' h =
      elim (Bool-cases (is_owner meta clock fold config (some session))) [
        | inl p ↦ inl p
        | inr p ↦ elim (Bool-cases (not (author.login == "") && author.login == session.login)) [
          | inl q ↦
              let same : author.login ≡ session.login =
                (eq_iff author.login session.login).0 (ground arith) in
              inr (same, ground (arith, ap (λ l. l == "") same))
          | inr q ↦ absurd (ground arith)
        ]
      ]

  -- What a change needs of a session in a state: nothing of no session; otherwise the comments can be
  -- read there, and the session is allowed to change the comment.
  abbrev pub IsAuthorized : Option Error → String → String → Option Session → World S → Type 0
  IsAuthorized ctx slug id none w = Unit {0}
  IsAuthorized ctx slug id (some session) w =
      (cs : List Comment) × (between : World S) × (Comments.read meta clock fold ctx slug w
        ≡ (ok cs, between))
      × IsAllowed session (find_author_record cs id)

  authorize_mutation-IsAuthorized :
      (ctx : Option Error) (slug id : String) (session : Option Session) (w w' : World S)
      → authorize_mutation meta clock fold outside config atoi ctx slug id session w ≡ (ok tt, w')
      → IsAuthorized ctx slug id session w
  unfolding authorize_mutation
  authorize_mutation-IsAuthorized ctx slug id none w w' h = tt
  authorize_mutation-IsAuthorized ctx slug id (some session) w w' h =
      let (cs, between, read, allowed) =
        then_on-ok (Comments.read meta clock fold ctx slug w)
          (λ cs. permit meta clock fold outside config atoi session (find_author_record cs id)) tt
          w' h in
      (cs, between, read, permit-IsAllowed session (find_author_record cs id) between w' allowed)

  -- Over any backend: where the removal of one comment is answered without an error, the caller had
  -- the capability for the document, and either there was no session, or the session was the owner's
  -- or that of the author of the comment or of the reply.
  pub remove_one-IsAuthorized :
      (ctx : Option Error) (sid slug : String) (r : Request) (w w' : World S) (a : Answer)
      → remove_one meta clock fold outside config atoi ctx sid r slug w ≡ (ok a, w')
      → (session : Option Session) × (w₁ w₂ : World S) × (viewer meta clock fold outside config atoi
            sid w
          ≡ (ok session, w₁))
        × (require_doc_cap fold outside meta clock config r slug w₁ ≡ (ok tt, w₂))
        × IsAuthorized ctx slug (query_value "id" r) session w₂
  unfolding remove_one
  remove_one-IsAuthorized ctx sid slug r w w' a h =
      let (session, w₁, seen, h₁) =
        then_on-ok (viewer meta clock fold outside config atoi sid w) _ a w' h in
      let h₂ = guard-ok (query_value "id" r == "") _ _ a w₁ w' h₁ in
      let (u, w₂, gate, h₃) =
        then_on-ok (require_doc_cap fold outside meta clock config r slug w₁) _ a w' h₂ in
      let (v, w₃, passed, h₄) =
        then_on-ok
          (authorize_mutation meta clock fold outside config atoi ctx slug (query_value "id" r)
            session w₂)
          _ a w' h₃ in
      let authority =
        authorize_mutation-IsAuthorized ctx slug (query_value "id" r) session w₂ w₃ passed in
      (session, w₁, w₂, seen, gate, authority)
