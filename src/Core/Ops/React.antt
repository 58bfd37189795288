-- ===== src/Core/Ops/React.antt =====
-- `react_host` on a comment with a log: a reaction is toggled.
use octo_doc.Base.{
  All-append, String, Bool, true, false, not, ◌&&◌, List, [], ◌∷◌, ◌++◌, some, ◌≡◌, ◌∙◌, refl, sym,
  ap, ◌==◌, member, if◌then◌else◌,
}
use octo_doc.Base.Int.{ℤ, ltb_ℤ, leb_ℤ_refl}
use octo_doc.Core.Types.{CommentEvent, Reactions, Comment}
use octo_doc.Core.Runtime.{Clock, Machine}
use octo_doc.Core.Events.{reaction_eid, event_eid, with_eid, append_event}
use octo_doc.Core.Events.Eids.{eids}
use octo_doc.Core.Events.Backfill.{HasEid, HaveEids, reaction_eid-ne-empty, with_log}
use octo_doc.Core.Legacy.Settled.{with_log-IsSettled}
use octo_doc.Core.Apply.{FoldState, apply_reaction, apply_comment_event}
use octo_doc.Core.Apply.Toggle.{has_reacted, has_reacted-apply_reaction}
use octo_doc.Core.Fold.Reading.{replay-append_current}
use octo_doc.Core.Fold.Snapshot.{replay-IsValid}
use octo_doc.Core.Fold.Verdict.{has_reacted-finalize}
use octo_doc.Core.Fold.{is_visible, finalize, replay, fold_at, is_finite_version, snapshot_at}
use octo_doc.Core.Requests.{CommentOp, answer, reactions}
use octo_doc.Core.Ops.{react_event, react_answer, react_seen, react_host}

-- the event that a toggle appends, `had` before it
unfoldable pub toggled : CommentOp → String → Bool → CommentEvent
unfolding react_event
toggled op now had = let e = react_event op now "" had in record e { eid = reaction_eid e }

with_eid-react_event :
    (clock : Clock) (op : CommentOp) (now : String) (had : Bool) (m : Machine)
    → with_eid clock (react_event op now "" had) m ≡ (toggled op now had, m)
unfolding toggled with_eid event_eid
with_eid-react_event clock op now true m = refl
with_eid-react_event clock op now false m = refl

reactions-apply_comment_event :
    (st : FoldState) (op : CommentOp) (now : String) (had : Bool)
    → (op.emoji == "") ≡ false
    → (op.by == "") ≡ false
    → (apply_comment_event st (toggled op now had)).snap.reactions
      ≡ apply_reaction st.snap.reactions op.emoji op.by (not had)
unfolding toggled apply_comment_event
reactions-apply_comment_event st op now true e b = rw (e, b)
reactions-apply_comment_event st op now false e b = rw (e, b)

-- the reactions that a reading as of `v` of the log shows
abbrev pub shown : Comment → List CommentEvent → ℤ → Reactions
shown c es v = (finalize (replay (with_log c es) v)).reactions

module _ (clock : Clock) (c : Comment) (op : CommentOp) (now : String) where
  -- whether the user of the operation has reacted with its emoji, as of its version
  abbrev pub had_reacted : List CommentEvent → Bool
  had_reacted es = has_reacted (shown c es op.version) op.emoji op.by

  -- the log with the event of the operation
  abbrev pub toggled_log : List CommentEvent → List CommentEvent
  toggled_log es = es ++ toggled op now (had_reacted es) ∷ []

  module _ (finite : is_finite_version op.version ≡ true)
      (exists : ltb_ℤ op.version c.created_in ≡ false) where
    fold_at-with_log :
        (d : CommentEvent) (es : List CommentEvent)
        → fold_at (with_log c (d ∷ es)) op.version
          ≡ some (finalize (replay (with_log c (d ∷ es)) op.version))
    unfolding fold_at
    fold_at-with_log d es = rw (finite, exists)

    snapshot_at-with_log :
        (d : CommentEvent) (es : List CommentEvent) (m : Machine)
        → HaveEids (d ∷ es)
        → snapshot_at clock (with_log c (d ∷ es)) op.version m
          ≡ (some (finalize (replay (with_log c (d ∷ es)) op.version)), with_log c (d ∷ es), m)
    unfolding snapshot_at
    snapshot_at-with_log d es m h =
        ap (λ r. (fold_at r.0 op.version, r.0, r.2)) (with_log-IsSettled clock c (d ∷ es) h m)
        ∙ ap (λ o. (o, with_log c (d ∷ es), m)) (fold_at-with_log d es)

    append_event-with_log :
        (es : List CommentEvent) (had : Bool) (m : Machine)
        → append_event clock (with_log c es) (react_event op now "" had) m
          ≡ (with_log c (es ++ toggled op now had ∷ []), m)
    unfolding append_event
    append_event-with_log es had m =
        ap (λ r. (with_log c (es ++ r.0 ∷ []), r.1)) (with_eid-react_event clock op now had m)

    toggled_log-HaveEids : (es : List CommentEvent) → HaveEids es → HaveEids (toggled_log es)
    toggled_log-HaveEids es h =
        All-append HasEid es (toggled op now (had_reacted es) ∷ []) h
          (unfold toggled in reaction_eid-ne-empty (react_event op now "" (had_reacted es)), tt)

    react_host_lem :
        (d : CommentEvent) (es : List CommentEvent) (m : Machine)
        → HaveEids (d ∷ es)
        → react_host clock (with_log c (d ∷ es)) "" op now m ≡ (
          with_log c (toggled_log (d ∷ es)),
          answer 200 (reactions (shown c (toggled_log (d ∷ es)) op.version)),
          m,
        )
    unfolding react_host
    react_host_lem d es m h =
        ap (λ r. react_seen clock r "" op now) (snapshot_at-with_log d es m h)
        ∙ (ap (λ r. react_answer (snapshot_at clock r.0 op.version r.1) "")
              (append_event-with_log (d ∷ es) (had_reacted (d ∷ es)) m)
            ∙ ap (λ r. react_answer r "")
                (snapshot_at-with_log d (es ++ toggled op now (had_reacted (d ∷ es)) ∷ []) m
                  (toggled_log-HaveEids (d ∷ es) h)))

    -- On a comment that exists at a version (not negative, not the latest) and has a log whose events
    -- have eids, a reaction of a user with an emoji, neither of them empty and the eid of its event
    -- new to the log, is appended to the log and answered with the reactions that a reading as of the
    -- version then shows. For users other than the agent, these reactions are as before, but the
    -- user of the reaction has reacted with its emoji exactly if the user had not before.
    pub react_host_toggles :
        (d : CommentEvent) (es : List CommentEvent) (m : Machine) (k who : String)
        → HaveEids (d ∷ es)
        → member (toggled op now (had_reacted (d ∷ es))).eid (eids (d ∷ es)) ≡ false
        → (op.emoji == "") ≡ false
        → (op.by == "") ≡ false
        → (who == "odoc-agent") ≡ false
        → (react_host clock (with_log c (d ∷ es)) "" op now m ≡ (
          with_log c (toggled_log (d ∷ es)),
          answer 200 (reactions (shown c (toggled_log (d ∷ es)) op.version)),
          m,
        ))
          × (has_reacted (shown c (toggled_log (d ∷ es)) op.version) k who ≡ (
              if op.emoji == k && op.by == who
              then not (had_reacted (d ∷ es))
              else has_reacted (shown c (d ∷ es) op.version) k who))
    unfolding toggled
    react_host_toggles d es m k who h fresh e b w = (react_host_lem d es m h, toggles)
      where
        before : FoldState
        before = replay (with_log c (d ∷ es)) op.version

        after : FoldState
        after = replay (with_log c (toggled_log (d ∷ es))) op.version

        visible : is_visible op.version (toggled op now (had_reacted (d ∷ es))) ≡ true
        visible = unfold toggled is_visible in rw (finite, leb_ℤ_refl op.version)

        replayed :
            after.snap.reactions
            ≡ apply_reaction before.snap.reactions op.emoji op.by (not (had_reacted (d ∷ es)))
        replayed =
            ap (λ st. st.snap.reactions)
              (replay-append_current c (d ∷ es) (toggled op now (had_reacted (d ∷ es))) fresh
                visible)
            ∙ reactions-apply_comment_event before op now (had_reacted (d ∷ es)) e b

        toggles : has_reacted (finalize after).reactions k who ≡ (
            if op.emoji == k && op.by == who
            then not (had_reacted (d ∷ es))
            else has_reacted (finalize before).reactions k who)
        toggles =
            has_reacted-finalize after k who
              (replay-IsValid (with_log c (toggled_log (d ∷ es))) op.version).reactions w
            ∙ (ap (λ r. has_reacted r k who) replayed
                ∙ (has_reacted-apply_reaction before.snap.reactions op.emoji op.by
                      (not (had_reacted (d ∷ es))) k who
                      (replay-IsValid (with_log c (d ∷ es)) op.version).reactions
                    ∙ ap
                        (λ x.
                          if op.emoji == k && op.by == who then not (had_reacted (d ∷ es)) else x)
                        (sym (
                          has_reacted-finalize before k who
                            (replay-IsValid (with_log c (d ∷ es)) op.version).reactions w))))
