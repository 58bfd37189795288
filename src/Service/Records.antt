-- ===== src/Service/Records.antt =====
-- internal/service/doc.go: what the document service takes and returns.
use octo_doc.Base.{ℕ, String, List}
use octo_doc.Base.Int.{ℤ}
use octo_doc.Core.Types.{Comment, StampedArtifact}
use octo_doc.Storage.Types.{VersionRef}

pub record StampResult : Type 0 where
  pub html : String
  pub aids : List StampedArtifact

-- `core.StampAids` is a parameter of the service here.
pub record Config : Type 0 where
  pub base_url : String
  pub max_bytes : ℕ
  pub stamp_aids : String → StampResult

pub record PublishInput : Type 0 where
  pub slug : String
  pub html : String
  pub version : ℤ
  pub title : String
  pub local_comments : List Comment

pub record PublishResult : Type 0 where
  pub slug : String
  pub version : ℤ
  pub url : String
  pub size : ℕ
  pub aids : ℕ
  pub merged_comments : ℕ

pub record RenderData : Type 0 where
  pub html : String
  pub versions : List VersionRef

pub record VersionList : Type 0 where
  pub slug : String
  pub title : String
  pub versions : List VersionRef

pub record DraftResult : Type 0 where
  pub slug : String
  pub url : String
  pub size : ℕ
  pub aids : ℕ

pub record OwnerDoc : Type 0 where
  pub slug : String
  pub title : String
  pub latest : ℤ
