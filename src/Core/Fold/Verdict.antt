-- ===== src/Core/Fold/Verdict.antt =====
-- The synthetic reaction of an agent's verdict hides nobody else's.
use octo_doc.Base.{
  String, true, false, Option, none, some, ◌≡◌, ◌∙◌, refl, ◌==◌, eq_iff, arith, inl, inr,
  Bool-cases,
}
use octo_doc.Core.Types.{AgentStatus, Reactions}
use octo_doc.Core.Apply.{FoldState}
use octo_doc.Core.Apply.Toggle.{has_reacted, IsReactions, has_reacted-apply_reaction}
use octo_doc.Core.Fold.{agent_status_emoji, verdict_reactions, finalize}

has_reacted-verdict_reactions :
    (s : Option AgentStatus) (r : Reactions) (k who : String)
    → IsReactions r
    → (who == "odoc-agent") ≡ false
    → has_reacted (verdict_reactions s r) k who ≡ has_reacted r k who
unfolding verdict_reactions
has_reacted-verdict_reactions none r k who h n = refl
has_reacted-verdict_reactions (some s) r k who h n =
    elim (Bool-cases (agent_status_emoji s == "")) [
      | inl p ↦ rw (p, verdict_reactions)
      | inr p ↦
          rw (p, verdict_reactions)
            (has_reacted-apply_reaction r (agent_status_emoji s) "odoc-agent" true k who h
              ∙ ground (arith, eq_iff who "odoc-agent", eq_iff "odoc-agent" who))
    ]

pub has_reacted-finalize :
    (st : FoldState) (k who : String)
    → IsReactions st.snap.reactions
    → (who == "odoc-agent") ≡ false
    → has_reacted (finalize st).reactions k who ≡ has_reacted st.snap.reactions k who
unfolding finalize
has_reacted-finalize st k who h n =
    has_reacted-verdict_reactions st.agent_verdict st.snap.reactions k who h n
