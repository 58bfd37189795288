-- ===== src/Transport/Sessions.antt =====
-- internal/transport/httpx/handlers_auth.go and the catalog of handlers_pages.go. The session id of
-- the cookie is an argument; the setting of cookies and the text of the pages are left out.
use octo_doc.Base.{String, Bool, false, List, Option, none, some, if◌then◌else◌}
use octo_doc.Platform.Exec.{Error, Exec, pure, ◌>>=◌}
use octo_doc.Core.Reconcile.{CaseFolding}
use octo_doc.Core.Runtime.{Clock}
use octo_doc.Storage.Types.{Session}
use octo_doc.Storage.Backend.{MetadataStore, BlobStore}
use octo_doc.Service.Auth.{AuthConfig, bootstrap, get_session, is_owner, logout}
use octo_doc.Service.Docs.{list_all_for_owner}
use octo_doc.Service.Records.{Config, OwnerDoc}
use octo_doc.Service.World.{World}

pub record Identity : Type 0 where
  pub login : String
  pub avatar_url : Option String
  pub name : String

pub record Me : Type 0 where
  pub identity : Option Identity
  pub is_owner : Bool
  pub auth_configured : Bool

unfoldable pub identity_of : Option Session → Option Identity
identity_of none = none
identity_of (some s) = some (record { login = s.login; avatar_url = s.avatar_url; name = s.name })

-- a visitor who is not the owner is sent to the repository
pub data Catalog : Type 0 where
  redirect : String → Catalog
  listing : Option Session → List OwnerDoc → Catalog

module _ {S : Type 0} (meta : MetadataStore S) (blobs : BlobStore S) (clock : Clock)
    (fold : CaseFolding) (auth : AuthConfig) (docs : Config) where
  -- `handleBootstrap`, with the fresh token
  unfoldable pub handle_bootstrap : Option Error → String → Exec (World S) String
  unfolding bootstrap
  handle_bootstrap ctx token = bootstrap meta clock fold auth ctx token

  unfoldable pub handle_auth_me : String → Exec (World S) Me
  unfolding get_session is_owner identity_of
  handle_auth_me sid = do
    session ← get_session meta clock fold auth sid
    pure (record {
      identity = identity_of session;
      is_owner = is_owner meta clock fold auth session;
      auth_configured = false;
    })

  unfoldable pub handle_logout : String → Exec (World S) (Unit {0})
  unfolding logout
  handle_logout sid = logout meta clock fold auth sid

  unfoldable pub handle_catalog : String → String → Exec (World S) Catalog
  unfolding get_session is_owner list_all_for_owner
  handle_catalog repo_url sid = do
    session ← get_session meta clock fold auth sid
    if is_owner meta clock fold auth session
        then (do
          all ← list_all_for_owner meta blobs clock fold docs
          pure (Catalog.listing session all))
        else pure (Catalog.redirect repo_url)
