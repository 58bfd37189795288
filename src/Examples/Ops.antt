-- ===== src/Examples/Ops.antt =====
-- A user takes a reaction back.
use octo_doc.Base.{
  ℕ, All, length, ◌++◌, true, false, not, ◌&&◌, List, ◌∷◌, [], ◌≡◌, refl, ◌==◌, member,
  if◌then◌else◌,
}
use octo_doc.Base.Int.{pos}
use octo_doc.Core.Types.{CommentEvent, Comment}
use octo_doc.Base.Dict.{lookup}
use octo_doc.Core.Events.{reaction_eid, kind_name}
use octo_doc.Core.Events.Eids.{eids}
use octo_doc.Core.Events.Backfill.{with_log}
use octo_doc.Core.Apply.{apply_reaction}
use octo_doc.Core.Apply.Toggle.{has_reacted}
use octo_doc.Core.Fold.{is_finite_version, finalize, replay}
use octo_doc.Core.Requests.{CommentOp, react, reactions, answer}
use octo_doc.Core.Ops.Merge.{AreNew, ComesFrom, AreHeld, merge_local_contract}
use octo_doc.Core.Ops.{ids_of, merge_local, react_host}
use octo_doc.Core.Runtime.{Machine}
use octo_doc.Core.Ops.React.{toggled, had_reacted, toggled_log, shown, react_host_toggles}
use octo_doc.Service.Comments.{zero_op}
use octo_doc.Examples.Core.{made, liked, closed, comment, clock, machine}

abbrev take_back : CommentOp
take_back = record zero_op {
  kind = react;
  comment_id = "c1";
  emoji = "+1";
  by = "ann";
  version = pos 2;
}

abbrev old_log : List CommentEvent
old_log = made ∷ liked ∷ closed ∷ []

abbrev new_log : List CommentEvent
new_log = toggled_log clock comment take_back "now" old_log

finite : is_finite_version take_back.version ≡ true
unfolding is_finite_version
finite = refl

fresh :
    member
      (toggled take_back "now" (had_reacted clock comment take_back "now" old_log)).eid
      (eids old_log)
    ≡ false
unfolding toggled eids reaction_eid kind_name lookup finalize replay apply_reaction
fresh = refl

react_host_toggles_example :
    (react_host clock (with_log comment old_log) "" take_back "now" machine
      ≡ (with_log comment new_log, answer 200 (reactions (shown comment new_log (pos 2))), machine))
    × (has_reacted (shown comment new_log (pos 2)) "+1" "ann" ≡ (
        if "+1" == "+1" && "ann" == "ann"
        then not (had_reacted clock comment take_back "now" old_log)
        else has_reacted (shown comment old_log (pos 2)) "+1" "ann"))
react_host_toggles_example =
    react_host_toggles clock comment take_back "now" finite refl made (liked ∷ closed ∷ []) machine
      "+1" "ann" (refl, (refl, (refl, tt))) fresh refl refl refl

-- a new comment, one that is there, and the new one's id again
abbrev others : List Comment
others = record comment { id = "c2" } ∷ comment ∷ record comment { id = "c2" } ∷ []

abbrev merged : List Comment × ℕ × Machine
merged = merge_local clock (comment ∷ []) (ids_of (comment ∷ [])) 0 others machine

merge_local_contract_example :
    ((added : List Comment) × (merged.0 ≡ (comment ∷ []) ++ added)
      × (merged.1 ≡ length added)
      × AreNew (ids_of (comment ∷ [])) added
      × All (ComesFrom clock others) added)
    × AreHeld (ids_of merged.0) others
    × (merge_local clock merged.0 (ids_of merged.0) 0 others machine ≡ (merged.0, 0, machine))
merge_local_contract_example = merge_local_contract clock (comment ∷ []) others machine machine

one_comes_in : merged.1 ≡ 1
unfolding merge_local ids_of
one_comes_in = refl
