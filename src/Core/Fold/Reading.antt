-- ===== src/Core/Fold/Reading.antt =====
-- What reading as of a version sees of a log: the visible events, in order.
use mathlib.Core.List.{foldl, foldl-append, append-nil}
use octo_doc.Base.{
  true, false, List, [], ◌∷◌, ◌++◌, none, some, ◌≡◌, ◌∙◌, refl, sym, ap, arith, inl, inr, All, keep,
  keep-append, member, Bool-cases, if◌then◌else◌,
}
use octo_doc.Base.Int.{ℤ, ltb_ℤ}
use octo_doc.Core.Types.{CommentEvent, Comment}
use octo_doc.Core.Events.{dedup_events, events_of}
use octo_doc.Core.Events.Backfill.{with_log}
use octo_doc.Core.Events.Eids.{eids}
use octo_doc.Core.Events.Dedup.{dedup_events-append_fresh}
use octo_doc.Core.Apply.{FoldState, apply_comment_event}
use octo_doc.Core.Fold.{
  insert_by_version, sort_by_version, ordered_events, is_visible, start, replay_events, replay,
  finalize, read_version, fold_at,
}
use octo_doc.Core.Fold.Order.{keep-sort_by_version}

-- the events that a reading as of `at` applies, in the order in which it applies them
pub visible_events : ℤ → List CommentEvent → List CommentEvent
visible_events at es = keep (is_visible at) (ordered_events es)

replay_events-keep :
    (at : ℤ) (st : FoldState) (es : List CommentEvent)
    → replay_events at st es ≡ foldl apply_comment_event st (keep (is_visible at) es)
unfolding replay_events
replay_events-keep at st [] = refl
replay_events-keep at st (e ∷ es) =
    ground (arith, replay_events-keep at (apply_comment_event st e) es, replay_events-keep at st es)

pub replay-visible_events :
    (c : Comment) (at : ℤ)
    → replay c at ≡ foldl apply_comment_event (start c) (visible_events at (events_of c))
unfolding replay visible_events
replay-visible_events c at = replay_events-keep at (start c) (ordered_events (events_of c))

keep-ordered_events :
    (at : ℤ) (es : List CommentEvent)
    → visible_events at es ≡ sort_by_version (keep (is_visible at) (dedup_events es))
unfolding visible_events ordered_events
keep-ordered_events at es = keep-sort_by_version (is_visible at) (dedup_events es)

-- A new event that the reading does not see changes nothing.
pub visible_events-append_hidden :
    (at : ℤ) (es : List CommentEvent) (e : CommentEvent)
    → member e.eid (eids es) ≡ false
    → is_visible at e ≡ false
    → visible_events at (es ++ e ∷ []) ≡ visible_events at es
visible_events-append_hidden at es e f h =
    keep-ordered_events at (es ++ e ∷ [])
    ∙ (ap sort_by_version dropped ∙ sym (keep-ordered_events at es))
  where
    dropped :
        keep (is_visible at) (dedup_events (es ++ e ∷ [])) ≡ keep (is_visible at) (dedup_events es)
    dropped =
        rw
          (
            dedup_events-append_fresh es e f,
            keep-append (is_visible at) (dedup_events es) (e ∷ []),
            h,
          )
          (append-nil (keep (is_visible at) (dedup_events es)))

abbrev IsAbove : CommentEvent → List CommentEvent → Type 0
IsAbove e = All (λ f. ltb_ℤ e.at_version f.at_version ≡ false)

insert_by_version-append :
    (d e : CommentEvent) (es : List CommentEvent)
    → ltb_ℤ e.at_version d.at_version ≡ false
    → insert_by_version d (es ++ e ∷ []) ≡ insert_by_version d es ++ e ∷ []
unfolding insert_by_version
insert_by_version-append d e [] h = ground arith
insert_by_version-append d e (f ∷ es) h = elim (Bool-cases (ltb_ℤ f.at_version d.at_version)) [
  | inl q ↦ rw (q, insert_by_version) (ap (◌∷◌ f) (insert_by_version-append d e es h))
  | inr q ↦ rw (q, insert_by_version)
]

sort_by_version-append :
    (es : List CommentEvent) (e : CommentEvent)
    → IsAbove e es
    → sort_by_version (es ++ e ∷ []) ≡ sort_by_version es ++ e ∷ []
unfolding sort_by_version insert_by_version
sort_by_version-append [] e h = refl
sort_by_version-append (f ∷ es) e h =
    ap (insert_by_version f) (sort_by_version-append es e h.1)
    ∙ insert_by_version-append f e (sort_by_version es) h.0

IsAbove-keep :
    (at : ℤ) (e : CommentEvent) (es : List CommentEvent)
    → e.at_version ≡ at
    → IsAbove e (keep (is_visible at) es)
IsAbove-keep at e [] h = tt
IsAbove-keep at e (f ∷ es) h = elim (Bool-cases (is_visible at f)) [
  | inl q ↦ rw q (unfold is_visible in ground arith, IsAbove-keep at e es h)
  | inr q ↦ rw q (IsAbove-keep at e es h)
]

-- A new event at the version that is read comes last.
pub visible_events-append_current :
    (at : ℤ) (es : List CommentEvent) (e : CommentEvent)
    → member e.eid (eids es) ≡ false
    → is_visible at e ≡ true
    → e.at_version ≡ at
    → visible_events at (es ++ e ∷ []) ≡ visible_events at es ++ e ∷ []
visible_events-append_current at es e f h v =
    keep-ordered_events at (es ++ e ∷ [])
    ∙ (ap sort_by_version kept
        ∙ (sort_by_version-append (keep (is_visible at) (dedup_events es)) e
              (IsAbove-keep at e (dedup_events es) v)
            ∙ ap (λ l. l ++ e ∷ []) (sym (keep-ordered_events at es))))
  where
    kept :
        keep (is_visible at) (dedup_events (es ++ e ∷ []))
        ≡ keep (is_visible at) (dedup_events es) ++ e ∷ []
    kept = rw (
      dedup_events-append_fresh es e f,
      keep-append (is_visible at) (dedup_events es) (e ∷ []),
      h,
    )

-- Appending an event of a new eid that a reading as of `v` does not see, such as one of a later
-- version, leaves the snapshot as of `v` of a comment with a log as it was.
pub fold_at-append_hidden :
    (c : Comment) (d : CommentEvent) (es : List CommentEvent) (e : CommentEvent) (v : ℤ)
    → member e.eid (eids (d ∷ es)) ≡ false
    → is_visible (read_version v) e ≡ false
    → fold_at (with_log c (d ∷ es ++ e ∷ [])) v ≡ fold_at (with_log c (d ∷ es)) v
unfolding fold_at start
fold_at-append_hidden c d es e v f h =
    ap (λ st. if ltb_ℤ (read_version v) c.created_in then none else some (finalize st))
      (replay-visible_events (with_log c (d ∷ es ++ e ∷ [])) (read_version v)
        ∙ (ap (foldl apply_comment_event (start c))
              (visible_events-append_hidden (read_version v) (d ∷ es) e f h)
            ∙ sym (replay-visible_events (with_log c (d ∷ es)) (read_version v))))

-- Appending a visible event of a new eid at the version that is read applies it to the state that
-- the reading had reached.
pub replay-append_current :
    (c : Comment) (es : List CommentEvent) (e : CommentEvent)
    → member e.eid (eids es) ≡ false
    → is_visible e.at_version e ≡ true
    → replay (with_log c (es ++ e ∷ [])) e.at_version
      ≡ apply_comment_event (replay (with_log c es) e.at_version) e
unfolding start
replay-append_current c es e f h =
    replay-visible_events (with_log c (es ++ e ∷ [])) e.at_version
    ∙ (ap (foldl apply_comment_event (start (with_log c es)))
          (visible_events-append_current e.at_version es e f h refl)
        ∙ (foldl-append apply_comment_event (start (with_log c es)) (visible_events e.at_version es)
              (e ∷ [])
            ∙ ap (λ st. apply_comment_event st e)
                (sym (replay-visible_events (with_log c es) e.at_version))))
