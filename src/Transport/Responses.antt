-- ===== src/Transport/Responses.antt =====
-- internal/transport/httpx/envelope.go, dto.go and shared.go: what is answered.
use octo_doc.Base.{
  ℕ, String, Bool, ◌||◌, List, [], Option, none, some, ◌==◌, eqb, map, if◌then◌else◌,
}
use octo_doc.Base.Int.{ℤ, pos}
use octo_doc.Base.Dict.{Dict, lookup, insert}
use octo_doc.Platform.Errors.{AppError}
use octo_doc.Platform.Exec.{Error, app, driver}
use octo_doc.Core.Types.{
  Author, Anchor, AgentStatus, Reactions, Status, ReplySnapshot, CommentSnapshot,
}
use octo_doc.Core.Requests.{Body, snapshot}
use octo_doc.Core.Runtime.{itoa}
use octo_doc.Storage.Types.{Session, VersionRef}
use octo_doc.Service.Records.{VersionList}

pub record ErrorBody : Type 0 where
  pub code : String
  pub message : String
  pub details : Dict String
  pub hint : String

-- `retry_after` is the header of that name.
pub record Failure : Type 0 where
  pub status : ℕ
  pub retry_after : Option String
  pub body : ErrorBody

unfoldable pub error_enum : ℕ → String
error_enum status =
    if eqb status 400
    then "VALIDATION_ERROR"
    else if eqb status 401
    then "AUTH_REQUIRED"
    else if eqb status 403
    then "FORBIDDEN"
    else if eqb status 404
    then "NOT_FOUND"
    else if eqb status 409
    then "CONFLICT"
    else if eqb status 413
    then "PAYLOAD_TOO_LARGE"
    else if eqb status 415
    then "UNSUPPORTED_MEDIA_TYPE"
    else if eqb status 429
    then "RATE_LIMITED"
    else if eqb status 502 || eqb status 503
    then "UPSTREAM_UNAVAILABLE"
    else "INTERNAL_ERROR"

-- the details with the code of the application, unless they have one
unfoldable pub with_code : AppError → Dict String
with_code e = if e.code == "" then e.details else elim (lookup "code" e.details) [
  | some c ↦ e.details
  | none ↦ insert "code" e.code e.details
]

unfoldable pub write_err : Error → Failure
unfolding error_enum with_code
write_err (driver s) = record {
  status = 500;
  retry_after = none;
  body = record {
    code = "INTERNAL_ERROR";
    message = "an unexpected error occurred";
    details = [];
    hint = "";
  };
}
write_err (app e) = record {
  status = e.status;
  retry_after = if eqb e.status 429 then some (itoa (pos e.retry_after)) else none;
  body = record {
    code = error_enum e.status;
    message = e.msg;
    details =
        if eqb e.status 429
        then insert "retry_after_seconds" (itoa (pos e.retry_after)) (with_code e)
        else with_code e;
    hint = e.hint;
  };
}

pub record ReplyDto : Type 0 where
  pub id : String
  pub parent_id : String
  pub author : Option Author
  pub text : String
  pub agent_status : Option AgentStatus
  pub created_at : String
  pub reactions : Reactions
  pub deleted : Bool

pub record CommentDto : Type 0 where
  pub id : String
  pub author : Option Author
  pub created_at : String
  pub created_in : ℤ
  pub version : ℤ
  pub anchor : Option Anchor
  pub text : String
  pub status : Status
  pub applied_in : Option ℤ
  pub replies : List ReplyDto
  pub reactions : Reactions
  pub deleted : Bool

unfoldable pub to_reply_dto : ReplySnapshot → ReplyDto
to_reply_dto r = record {
  id = r.id;
  parent_id = r.parent_id;
  author = r.author;
  text = r.text;
  agent_status = r.agent_status;
  created_at = r.created;
  reactions = r.reactions;
  deleted = r.deleted;
}

unfoldable pub to_comment_dto : CommentSnapshot → CommentDto
unfolding to_reply_dto
to_comment_dto c = record {
  id = c.id;
  author = c.author;
  created_at = c.created;
  created_in = c.created_in;
  version = c.version;
  anchor = c.anchor;
  text = c.text;
  status = c.status;
  applied_in = c.applied_in;
  replies = map to_reply_dto c.replies;
  reactions = c.reactions;
  deleted = c.deleted;
}

pub record VersionRefDto : Type 0 where
  pub n : ℤ
  pub created_at : Option String

pub record VersionListDto : Type 0 where
  pub slug : String
  pub title : String
  pub versions : List VersionRefDto

unfoldable pub to_version_dto : VersionRef → VersionRefDto
to_version_dto v = record { n = v.n; created_at = v.created }

unfoldable pub to_version_list_dto : VersionList → VersionListDto
unfolding to_version_dto
to_version_list_dto vl = record {
  slug = vl.slug;
  title = vl.title;
  versions = map to_version_dto vl.versions;
}

-- a body of a mutation on the wire
pub data MutationDto : Type 0 where
  comment : CommentDto → MutationDto
  other : Body → MutationDto

unfoldable pub mutation_dto : Body → MutationDto
unfolding to_comment_dto
mutation_dto (snapshot (some c)) = comment (to_comment_dto c)
mutation_dto body = other body

-- `core.OverlayIdentity` and `core.Author` of a session; "" is an absent name
pub record OverlayIdentity : Type 0 where
  pub login : String
  pub avatar_url : Option String
  pub name : String

unfoldable pub identity_from_session : Option Session → Option OverlayIdentity
identity_from_session none = none
identity_from_session (some s) =
    some (record { login = s.login; avatar_url = s.avatar_url; name = s.name })

unfoldable pub author_from_session : Option Session → Option Author
author_from_session none = none
author_from_session (some s) =
    some (record { login = s.login; name = s.name; avatar_url = s.avatar_url; kind = "" })
