-- ===== src/Transport/Agent.antt =====
-- internal/transport/httpx/handlers_agent.go. The decoded body of a request and fresh random digits
-- are arguments.
use octo_doc.Base.{
  String, not, ◌||◌, List, [], ◌∷◌, Option, none, some, ◌==◌, get_elem?, if◌then◌else◌,
}
use octo_doc.Base.Int.{ℤ, pos, eqb_ℤ}
use octo_doc.Base.Text.{concat}
use octo_doc.Platform.Errors.{validation}
use octo_doc.Platform.Exec.{Error, Exec, fail, ◌>>=◌}
use octo_doc.Core.Types.{Author, AgentStatus, CommentEvent, EventKind, zero_event, Comment}
use octo_doc.Core.Runtime.{Clock, read_iso}
use octo_doc.Core.Reconcile.{CaseFolding}
use octo_doc.Core.Requests.{find_by_id}
use octo_doc.Storage.Backend.{MetadataStore}
use octo_doc.Service.Comments
use octo_doc.Service.Comments.{MutationResult}
use octo_doc.Service.Ids.{compact_time}
use octo_doc.Service.World.{World, computed}
use octo_doc.Transport.Slugs.{require_slug}

pub record AgentBody : Type 0 where
  pub slug : String
  pub parent_id : String
  pub text : String
  pub status : String
  pub applied_in : ℤ

unfoldable pub normalize_verdict : String → AgentStatus
normalize_verdict s = if s == "applied" || s == "partial" || s == "question" then s else ""

unfoldable pub agent : Author
agent = record { login = "odoc-agent"; name = "odoc-agent"; avatar_url = none; kind = "agent" }

unfoldable pub verdict_events : AgentStatus → ℤ → String → List CommentEvent
verdict_events verdict version now =
    if verdict == "applied"
    then record zero_event {
      kind = EventKind.marked_applied;
      at_version = version;
      at = now;
      applied_in = some version;
      by = "odoc-agent";
      agent_status = verdict;
    }
      ∷ []
    else if verdict == "partial" || verdict == "question"
    then record zero_event {
      kind = EventKind.marked_open;
      at_version = version;
      at = now;
      by = "odoc-agent";
      agent_status = verdict;
    }
      ∷ []
    else []

unfoldable pub agent_reply_events : String → String → AgentStatus → ℤ → String → List CommentEvent
unfolding verdict_events agent
agent_reply_events reply_id text verdict version now =
    record zero_event {
      kind = EventKind.reply_added;
      at_version = version;
      at = now;
      reply =
          some (record { id = reply_id; author = some agent; text = text; agent_status = verdict });
    }
    ∷ verdict_events verdict version now

-- the version of an agent's reply
unfoldable pub agent_version : ℤ → ℤ → ℤ
agent_version applied_in created_in =
    if not (eqb_ℤ applied_in (pos 0))
    then applied_in
    else if not (eqb_ℤ created_in (pos 0))
    then created_in
    else pos 1

module _ {S : Type 0} (meta : MetadataStore S) (clock : Clock) (fold : CaseFolding) where
  -- the version of the parent, if the slug has it
  unfoldable pub parent_version : List Comment → String → Option ℤ
  unfolding find_by_id
  parent_version cs id = elim (find_by_id cs id) [
    | none ↦ none
    | some i ↦ elim (get_elem? cs i) [ none ↦ none | some c ↦ some c.created_in ]
  ]

  -- `handleAgentReply`; `encode` prints the body of the answer
  unfoldable pub handle_agent_reply :
      (String → String → AgentStatus → String → String)
      → String
      → Option Error
      → AgentBody
      → Exec (World S) MutationResult
  unfolding agent_reply_events normalize_verdict agent_version parent_version compact_time
  handle_agent_reply encode random ctx body = do
    slug ← require_slug body.slug
    if body.parent_id == "" || body.text == ""
        then fail (validation "slug, parent_id, text required" "agent_reply_fields_required")
        else (do
          cs ← Comments.read meta clock fold ctx slug
          elim (parent_version cs body.parent_id) [
            | none ↦ fail (validation "parent not found" "parent_not_found")
            | some created_in ↦ (do
              now ← computed (read_iso clock)
              let verdict = normalize_verdict body.status
              let version = agent_version body.applied_in created_in
              let reply_id = concat ("r_" ∷ compact_time now ∷ "_" ∷ random ∷ [])
              Comments.append_raw meta clock fold ctx slug body.parent_id
                  (agent_reply_events reply_id body.text verdict version now)
                  (some (encode reply_id body.text verdict now)))
          ])
