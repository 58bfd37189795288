-- ===== src/Transport/Comments.antt =====
-- internal/transport/httpx/handlers_comments.go. A request's JSON body, as far
-- as it was decoded, and the session of its cookie are arguments; fresh random digits too.
pub mod Authority
use octo_doc.Base.{
  ℕ, String, Bool, true, false, not, ◌&&◌, ◌||◌, List, [], ◌∷◌, Option, none, some, ◌==◌, ltb, eqb,
  get_elem?, map, if◌then◌else◌,
}
use Prim.Native.String.{len}
use octo_doc.Base.Int.{ℤ, pos, eqb_ℤ}
use octo_doc.Base.Text.{concat}
use octo_doc.Platform.Errors.{validation, forbidden, unauthorized}
use octo_doc.Platform.Exec.{Error, Exec, pure, fail, ◌>>=◌, ◌>>◌}
use octo_doc.Core.Types.{Author, Anchor, AgentStatus, CommentEvent, EventKind, zero_event, Comment}
use octo_doc.Core.Runtime.{Clock, read_iso}
use octo_doc.Core.Fold.{version_latest}
use octo_doc.Core.Reconcile.{CaseFolding}
use octo_doc.Core.Requests.{find_by_id, find_host}
use octo_doc.Storage.Types.{Session}
use octo_doc.Storage.Backend.{MetadataStore}
use octo_doc.Service.Auth.{AuthConfig, is_owner, is_valid_write_token, get_session}
use octo_doc.Service.Comments
use octo_doc.Service.Comments.{MutationResult}
use octo_doc.Service.Ids.{compact_time}
use octo_doc.Service.World.{World, computed}
use octo_doc.Transport.Access.{Request, Outside, require_doc_cap, bearer_token, query_value}
use octo_doc.Transport.Responses.{
  CommentDto, MutationDto, to_comment_dto, mutation_dto, author_from_session,
}
use octo_doc.Transport.Slugs.{require_slug, version_param}

-- `version` is the number of a `json.Number` that is a 64-bit integer.
pub record CreateBody : Type 0 where
  pub slug : String
  pub text : String
  pub version : Option ℤ
  pub parent_id : Option String
  pub anchor : Option Anchor

pub record PatchBody : Type 0 where
  pub slug : String
  pub id : String
  pub anchor : Option Anchor
  pub version : Option ℤ

pub record ReactBody : Type 0 where
  pub slug : String
  pub comment_id : String
  pub emoji : String
  pub version : Option ℤ

pub record Answer : Type 0 where
  pub status : ℕ
  pub body : MutationDto

unfoldable pub answered : MutationResult → Answer
unfolding mutation_dto
answered r = record { status = r.status; body = mutation_dto r.body }

unfoldable pub num_or_one : Option ℤ → ℤ
num_or_one none = pos 1
num_or_one (some v) = if eqb_ℤ v (pos 0) then pos 1 else v

unfoldable pub parse_version_query : (String → Option ℤ) → String → ℤ
unfolding version_param
parse_version_query atoi raw =
    if raw == "" || raw == "all"
    then version_latest
    else elim (version_param atoi raw) [ some n ↦ n | none ↦ version_latest ]

unfoldable pub actor_login : Option Session → String
actor_login (some s) = s.login
actor_login none = "local"

-- the author of the comment or of the reply; `none` too where the author is nil
unfoldable pub find_author_record : List Comment → String → Option Author
unfolding find_host
find_author_record cs id = elim (find_host cs id) [
  | none ↦ none
  | some (i, some seed) ↦ seed.author
  | some (i, none) ↦ elim (get_elem? cs i) [ none ↦ none | some c ↦ c.author ]
]

-- the text of the parameter `parent_id`, if there is one
unfoldable pub reply_target : Option String → Option String
reply_target none = none
reply_target (some id) = if id == "" then none else some id

module _ {S : Type 0} (meta : MetadataStore S) (clock : Clock) (fold : CaseFolding)
    (outside : Outside) (config : AuthConfig) (atoi : String → Option ℤ) where
  unfoldable pub viewer : String → Exec (World S) (Option Session)
  unfolding get_session
  viewer sid = get_session meta clock fold config sid

  -- `authorizeMutation` behind the reading of the comments
  unfoldable pub permit : Session → Option Author → Exec (World S) (Unit {0})
  unfolding is_owner
  permit session none = fail (validation "not found" "not_found")
  permit session (some author) =
      if is_owner meta clock fold config (some session)
      then pure tt
      else if not (author.login == "") && author.login == session.login
      then pure tt
      else fail (forbidden "not the author" "not_author")

  unfoldable pub authorize_mutation :
      Option Error → String → String → Option Session → Exec (World S) (Unit {0})
  unfolding permit find_author_record
  authorize_mutation ctx slug id none = pure tt
  authorize_mutation ctx slug id (some session) = do
    cs ← Comments.read meta clock fold ctx slug
    permit session (find_author_record cs id)

  unfoldable pub handle_list : Option Error → Request → Exec (World S) (List CommentDto)
  unfolding parse_version_query to_comment_dto
  handle_list ctx r = do
    slug ← require_slug (query_value "slug" r)
    snaps ←
        Comments.list meta clock fold ctx slug (parse_version_query atoi (query_value "version" r))
    pure (map to_comment_dto snaps)

  unfoldable pub create_or_reply :
      String → Option Error → String → Option Session → CreateBody → Exec (World S) MutationResult
  unfolding reply_target num_or_one author_from_session
  create_or_reply random ctx slug session body = elim (reply_target body.parent_id) [
    | some parent ↦
        Comments.reply_to meta clock fold random ctx slug parent (author_from_session session)
          body.text (num_or_one body.version)
    | none ↦
        Comments.create_comment meta clock fold random ctx slug (author_from_session session)
          body.text body.anchor (num_or_one body.version)
  ]

  unfoldable pub handle_create :
      String → Option Error → String → Request → CreateBody → Exec (World S) Answer
  unfolding viewer create_or_reply answered
  handle_create random ctx sid r body = do
    session ← viewer sid
    slug ← require_slug body.slug
    require_doc_cap fold outside meta clock config r slug
    if body.text == ""
        then fail (validation "slug and text required" "text_required")
        else (do res ← create_or_reply random ctx slug session body; pure (answered res))

  abbrev is_set : Option Anchor → Bool
  is_set none = false
  is_set (some a) = true

  unfoldable pub handle_patch : Option Error → String → Request → PatchBody → Exec (World S) Answer
  unfolding viewer authorize_mutation answered num_or_one actor_login
  handle_patch ctx sid r body = do
    session ← viewer sid
    slug ← require_slug body.slug
    if body.id == "" || not (is_set body.anchor)
        then fail (validation "slug, id, anchor required" "anchor_required")
        else (do
          require_doc_cap fold outside meta clock config r slug
          authorize_mutation ctx slug body.id session
          res ←
              Comments.reanchor meta clock fold ctx slug body.id body.anchor
                (num_or_one body.version) (actor_login session)
          pure (answered res))

  unfoldable pub wipe_comments : Option Error → Request → String → Exec (World S) Answer
  unfolding answered bearer_token
  wipe_comments ctx r slug = do
    valid ← is_valid_write_token meta clock fold config (bearer_token fold outside r)
    if bearer_token fold outside r == "" || not valid
        then fail (unauthorized "" "")
        else (do res ← Comments.wipe_all meta clock fold ctx slug; pure (answered res))

  -- the version of a removal: the latest is written as 999 999
  unfoldable pub removal_version : String → ℤ
  unfolding parse_version_query
  removal_version raw =
      let version = parse_version_query atoi raw in
      if eqb_ℤ version version_latest then pos 999999 else version

  unfoldable pub remove_one : Option Error → String → Request → String → Exec (World S) Answer
  unfolding viewer authorize_mutation answered actor_login removal_version
  remove_one ctx sid r slug = do
    session ← viewer sid
    if query_value "id" r == "" then fail (validation "slug and id required" "id_required") else (do
      require_doc_cap fold outside meta clock config r slug
      authorize_mutation ctx slug (query_value "id" r) session
      res ←
          Comments.remove meta clock fold ctx slug (query_value "id" r)
            (removal_version (query_value "version" r)) (actor_login session)
      pure (answered res))

  unfoldable pub handle_delete : Option Error → String → Request → Exec (World S) Answer
  unfolding wipe_comments remove_one
  handle_delete ctx sid r = do
    slug ← require_slug (query_value "slug" r)
    if query_value "all" r == "1" then wipe_comments ctx r slug else remove_one ctx sid r slug

  -- the name that a reaction is counted under
  unfoldable pub reactor : Option Session → String
  reactor (some s) = s.login
  reactor none = "anon"

  unfoldable pub handle_react : Option Error → String → Request → ReactBody → Exec (World S) Answer
  unfolding viewer answered num_or_one reactor
  handle_react ctx sid r body = do
    session ← viewer sid
    slug ← require_slug body.slug
    if body.comment_id == "" || body.emoji == ""
        then fail (validation "slug, comment_id, emoji required" "reaction_fields_required")
        else if eqb (len body.emoji) 0 || ltb 32 (len body.emoji)
        then fail (validation "invalid emoji" "invalid_emoji")
        else (do
          require_doc_cap fold outside meta clock config r slug
          res ←
              Comments.react_to meta clock fold ctx slug body.comment_id body.emoji
                (reactor session) (num_or_one body.version)
          pure (answered res))
