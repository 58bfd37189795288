-- ===== src/Core/Events/Dedup.antt =====
-- What `dedup_events` keeps: the eids of the log, each at its first place, with the last event
-- that has it.
use octo_doc.Base.{
  String, true, false, not, ◌&&◌, ◌||◌, All, Option-cases, List, [], ◌∷◌, ◌++◌, none, some, ◌≡◌,
  ◌∙◌, refl, ap, ◌==◌, eq_iff, inl, inr, arith, member, Distinct, Bool-cases, if◌then◌else◌,
}
use octo_doc.Base.Dict.{Dict, lookup}
use octo_doc.Core.Types.{CommentEvent, zero_event}
use octo_doc.Core.Events.Eids.{
  eids, find_last, first_eids, or_last, lookup-last_by_eid, find_last-eid, member-eids_empty,
  find_last_of_member, first_eids-Distinct, find_last_of_not_member, find_last-append,
  first_eids-append_known,
}
use octo_doc.Core.Events.{last_by_eid, emit, dedup_events}

-- every eid of the log has an entry in `last` that carries it
abbrev Covers : Dict CommentEvent → List CommentEvent → Type 0
Covers last es =
    (k : String)
    → member k (eids es) ≡ true
    → (l : CommentEvent) × (lookup k last ≡ some l) × (l.eid ≡ k)

Covers-tail :
    (last : Dict CommentEvent) (e : CommentEvent) (es : List CommentEvent)
    → Covers last (e ∷ es)
    → Covers last es
unfolding eids
Covers-tail last e es h k m = h k (ground arith)

last_by_eid-Covers : (es : List CommentEvent) → Covers (last_by_eid [] es) es
last_by_eid-Covers es k m =
    let (l, p) = find_last_of_member k es m in
    (
      l,
      ground (arith, lookup-last_by_eid k [] es, member-eids_empty es, eq_iff k ""),
      find_last-eid k es l p,
    )

eids-emit :
    (last : Dict CommentEvent) (seen : List String) (es : List CommentEvent)
    → Covers last es
    → eids (emit last seen es) ≡ first_eids seen es
unfolding eids emit first_eids
eids-emit last seen [] h = refl
eids-emit last seen (e ∷ es) h = elim (Bool-cases (e.eid == "")) [
  | inl p ↦ rw (p, emit) (ground (arith, eids-emit last seen es (Covers-tail last e es h)))
  | inr p ↦
      let (l, q, r) = h e.eid (ground (arith, eq_iff e.eid e.eid)) in
      ground (
        arith,
        eids-emit last seen es (Covers-tail last e es h),
        eids-emit last (e.eid ∷ seen) es (Covers-tail last e es h),
      )
]

-- The eids of the result are those of the log, each once and at its first place.
eids-dedup_events : (es : List CommentEvent) → eids (dedup_events es) ≡ first_eids [] es
unfolding dedup_events
eids-dedup_events es = eids-emit (last_by_eid [] es) [] es (last_by_eid-Covers es)

find_last-emit :
    (k : String) (last : Dict CommentEvent) (seen : List String) (es : List CommentEvent)
    → (k == "") ≡ false
    → Covers last es
    → find_last k (emit last seen es)
      ≡ (if member k (eids es) && not (member k seen) then lookup k last else none)
unfolding eids emit find_last
find_last-emit k last seen [] h c = refl
find_last-emit k last seen (e ∷ es) h c = elim (Bool-cases (e.eid == "")) [
  | inl p ↦
      rw (p, emit)
        (ground (
          arith,
          find_last-emit k last seen es h (Covers-tail last e es c),
          eq_iff e.eid k,
          eq_iff e.eid "",
          eq_iff k "",
        ))
  | inr p ↦
      let (l, q, r) = c e.eid (ground (arith, eq_iff e.eid e.eid)) in
      ground (
        arith,
        find_last-emit k last seen es h (Covers-tail last e es c),
        find_last-emit k last (e.eid ∷ seen) es h (Covers-tail last e es c),
        eq_iff e.eid k,
        eq_iff l.eid k,
      )
]

-- The last event of a log that carries a non-empty eid is also the last one, if there is any, that
-- carries it in the deduplicated log.
pub find_last-dedup_events :
    (k : String) (es : List CommentEvent)
    → (k == "") ≡ false
    → find_last k (dedup_events es) ≡ find_last k es
unfolding dedup_events
find_last-dedup_events k es h = ground (
  arith,
  find_last-emit k (last_by_eid [] es) [] es h (last_by_eid-Covers es),
  lookup-last_by_eid k [] es h,
  find_last_of_not_member k es h,
)

emit_of_Distinct :
    (last : Dict CommentEvent) (seen : List String) (es : List CommentEvent)
    → Distinct (eids es)
    → ((k : String) → member k (eids es) ≡ true → member k seen ≡ false)
    → ((k : String) → member k (eids es) ≡ true → lookup k last ≡ find_last k es)
    → emit last seen es ≡ es
unfolding eids emit find_last
emit_of_Distinct last seen [] d f g = refl
emit_of_Distinct last seen (e ∷ es) d f g = elim (Bool-cases (e.eid == "")) [
  | inl p ↦
      rw (p, emit)
        (ap (◌∷◌ e) (
          emit_of_Distinct last seen es (rw (p, eids) at d) (λ k m. f k (ground arith))
            (λ k m. ground (
              arith,
              g k,
              member-eids_empty es,
              eq_iff e.eid k,
              eq_iff e.eid "",
              find_last_of_member k es m,
            ))))
  | inr p ↦
      let d' : (member e.eid (eids es) ≡ false) × Distinct (eids es) = rw (p, eids) at d in
      let rest : emit last (e.eid ∷ seen) es ≡ es =
        emit_of_Distinct last (e.eid ∷ seen) es d'.1 (λ k m. ground (arith, f k, eq_iff e.eid k))
          (λ k m. ground (arith, g k, eq_iff e.eid k, find_last_of_member k es m)) in
      ground
        (arith, rest, f e.eid, g e.eid, eq_iff e.eid e.eid, find_last_of_not_member e.eid es p d'.0)
]

dedup_events_of_Distinct : (es : List CommentEvent) → Distinct (eids es) → dedup_events es ≡ es
unfolding dedup_events
dedup_events_of_Distinct es d =
    emit_of_Distinct (last_by_eid [] es) [] es d (λ k m. refl)
      (λ k m. ground (
        arith,
        lookup-last_by_eid k [] es,
        member-eids_empty es,
        eq_iff k "",
        find_last_of_member k es m,
      ))

emit-append_fresh :
    (last : Dict CommentEvent) (seen : List String) (es : List CommentEvent) (e : CommentEvent)
    → member e.eid (eids es) ≡ false
    → member e.eid seen ≡ false
    → ((e.eid == "") ≡ false → lookup e.eid last ≡ some e)
    → emit last seen (es ++ e ∷ []) ≡ emit last seen es ++ e ∷ []
unfolding eids emit
emit-append_fresh last seen [] e f s l = ground (arith, l)
emit-append_fresh last seen (x ∷ es) e f s l = ground (
  arith,
  emit-append_fresh last seen es e,
  emit-append_fresh last (x.eid ∷ seen) es e,
  eq_iff x.eid e.eid,
  l,
)

emit_cong :
    (last last' : Dict CommentEvent) (seen : List String) (es : List CommentEvent)
    → ((k : String) → member k (eids es) ≡ true → lookup k last ≡ lookup k last')
    → emit last seen es ≡ emit last' seen es
unfolding eids emit
emit_cong last last' seen [] h = refl
emit_cong last last' seen (e ∷ es) h =
    let h' : (k : String) → member k (eids es) ≡ true → lookup k last ≡ lookup k last' =
      λ k m. h k (ground arith) in
    ground (
      arith,
      emit_cong last last' seen es h',
      emit_cong last last' (e.eid ∷ seen) es h',
      h e.eid,
      eq_iff e.eid e.eid,
    )

pub dedup_events-append_fresh :
    (es : List CommentEvent) (e : CommentEvent)
    → member e.eid (eids es) ≡ false
    → dedup_events (es ++ e ∷ []) ≡ dedup_events es ++ e ∷ []
unfolding dedup_events
dedup_events-append_fresh es e f =
    let last = last_by_eid [] (es ++ e ∷ []) in
    let same : (k : String)
        → member k (eids es) ≡ true
        → lookup k last ≡ lookup k (last_by_eid [] es) =
      λ k m. ground (
        arith,
        lookup-last_by_eid k [] (es ++ e ∷ []),
        lookup-last_by_eid k [] es,
        find_last-append k es e,
        member-eids_empty es,
        eq_iff k "",
        eq_iff e.eid k,
      ) in
    emit-append_fresh last [] es e f refl (λ n. ground (
      arith,
      lookup-last_by_eid e.eid [] (es ++ e ∷ []) n,
      find_last-append e.eid es e,
      eq_iff e.eid e.eid,
    ))
    ∙ ap (λ l. l ++ e ∷ []) (emit_cong last (last_by_eid [] es) [] es same)

-- The deduplicated log has the non-empty eids of the log, each once and at its first place.
pub dedup_events_contract :
    (es : List CommentEvent)
    → (eids (dedup_events es) ≡ first_eids [] es) × Distinct (eids (dedup_events es))
dedup_events_contract es =
    (eids-dedup_events es, rw (eids-dedup_events es) (first_eids-Distinct [] es))

-- A deduplicated log stays as it is.
dedup_events_idem : (es : List CommentEvent) → dedup_events (dedup_events es) ≡ dedup_events es
dedup_events_idem es =
    dedup_events_of_Distinct (dedup_events es)
      (rw (eids-dedup_events es) (first_eids-Distinct [] es))

find_last-append_log :
    (k : String) (es fs : List CommentEvent)
    → find_last k (es ++ fs) ≡ or_last (find_last k fs) (find_last k es)
unfolding find_last
find_last-append_log k [] fs = ground arith
find_last-append_log k (x ∷ es) fs = ground (arith, find_last-append_log k es fs)

-- every event has an eid that is in one of the two lists
abbrev AreKnown : List String → List String → List CommentEvent → Type 0
AreKnown seen known =
    All (λ e. ((e.eid == "") ≡ false) × ((member e.eid seen || member e.eid known) ≡ true))

emit_of_known :
    (last : Dict CommentEvent) (seen : List String) (fs : List CommentEvent)
    → AreKnown seen [] fs
    → emit last seen fs ≡ []
unfolding emit
emit_of_known last seen [] h = refl
emit_of_known last seen (f ∷ fs) h = ground (arith, emit_of_known last seen fs, h)

AreKnown-move :
    (k : String) (seen known : List String) (fs : List CommentEvent)
    → AreKnown seen (k ∷ known) fs
    → AreKnown (k ∷ seen) known fs
AreKnown-move k seen known [] h = tt
AreKnown-move k seen known (f ∷ fs) h =
    ((h.0.0, ground (arith, h.0.1)), AreKnown-move k seen known fs h.1)

AreKnown-drop :
    (k : String) (seen known : List String) (fs : List CommentEvent)
    → member k seen ≡ true
    → AreKnown seen (k ∷ known) fs
    → AreKnown seen known fs
AreKnown-drop k seen known [] m h = tt
AreKnown-drop k seen known (f ∷ fs) m h =
    ((h.0.0, ground (arith, h.0.1, eq_iff k f.eid)), AreKnown-drop k seen known fs m h.1)

emit-append_known :
    (last : Dict CommentEvent) (seen : List String) (es fs : List CommentEvent)
    → AreKnown seen (eids es) fs
    → emit last seen (es ++ fs) ≡ emit last seen es
unfolding eids emit
emit-append_known last seen [] fs h = emit_of_known last seen fs h
emit-append_known last seen (e ∷ es) fs h = elim (Bool-cases (e.eid == "")) [
  | inl p ↦ rw (p, emit) (ap (◌∷◌ e) (emit-append_known last seen es fs (rw (p, eids) at h)))
  | inr p ↦
      let known : AreKnown seen (e.eid ∷ eids es) fs = rw (p, eids) at h in
      elim (Bool-cases (member e.eid seen)) [
        | inl q ↦
            let rest =
              emit-append_known last seen es fs (AreKnown-drop e.eid seen (eids es) fs q known) in
            rw (p, q, emit) rest
        | inr q ↦
            let rest =
              emit-append_known last (e.eid ∷ seen) es fs
                (AreKnown-move e.eid seen (eids es) fs known) in
            rw (p, q, emit)
              (ap (◌∷◌ (elim (lookup e.eid last) [ none ↦ zero_event | some l ↦ l ])) rest)
      ]
]

-- Every event has an eid, and with it an event that the other log has too.
abbrev pub IsReplay : List CommentEvent → List CommentEvent → Type 0
IsReplay es fs =
    All (λ f. ((f.eid == "") ≡ false) × (member f.eid (eids es) ≡ true)) fs
    × ((k : String) (f : CommentEvent) → find_last k fs ≡ some f → find_last k es ≡ some f)

IsReplay-AreKnown :
    (known : List String) (fs : List CommentEvent)
    → All (λ f. ((f.eid == "") ≡ false) × (member f.eid known ≡ true)) fs
    → AreKnown [] known fs
IsReplay-AreKnown known [] h = tt
IsReplay-AreKnown known (f ∷ fs) h = (h.0, IsReplay-AreKnown known fs h.1)

dedup_events-replayed :
    (es fs : List CommentEvent) → IsReplay es fs → dedup_events (es ++ fs) ≡ dedup_events es
unfolding dedup_events
dedup_events-replayed es fs (known, ends) =
    let last = last_by_eid [] (es ++ fs) in
    let same : (k : String)
        → member k (eids es) ≡ true
        → lookup k last ≡ lookup k (last_by_eid [] es) =
      λ k m. elim (Option-cases (find_last k fs)) [
        | inl e ↦ ground (
          arith,
          lookup-last_by_eid k [] (es ++ fs),
          lookup-last_by_eid k [] es,
          find_last-append_log k es fs,
          member-eids_empty es,
          eq_iff k "",
        )
        | inr (f, e) ↦ ground (
          arith,
          ends k f e,
          lookup-last_by_eid k [] (es ++ fs),
          lookup-last_by_eid k [] es,
          find_last-append_log k es fs,
          member-eids_empty es,
          eq_iff k "",
        )
      ] in
    emit-append_known last [] es fs (IsReplay-AreKnown (eids es) fs known)
    ∙ emit_cong last (last_by_eid [] es) [] es same

-- Merging events again that a log has already changes nothing: where every event of a second log has
-- an eid that the first one has, and each eid ends there with the event that it ends with in the
-- second one, the two logs together deduplicate to what the first one alone does, and every eid that
-- is not empty ends with the event that it had.
pub dedup_events_absorbs :
    (es fs : List CommentEvent) (k : String)
    → IsReplay es fs
    → (k == "") ≡ false
    → (dedup_events (es ++ fs) ≡ dedup_events es)
      × (find_last k (dedup_events (es ++ fs)) ≡ find_last k es)
dedup_events_absorbs es fs k replay h =
    let same = dedup_events-replayed es fs replay in
    (same, ap (find_last k) same ∙ find_last-dedup_events k es h)

-- An event whose non-empty eid the log has already adds no entry to the deduplicated log: it takes
-- the place of the earlier one.
pub dedup_events-append_known :
    (es : List CommentEvent) (e : CommentEvent)
    → member e.eid (eids es) ≡ true
    → (eids (dedup_events (es ++ e ∷ [])) ≡ eids (dedup_events es))
      × (find_last e.eid (dedup_events (es ++ e ∷ [])) ≡ some e)
dedup_events-append_known es e m = (
  rw (eids-dedup_events (es ++ e ∷ []), eids-dedup_events es)
      (first_eids-append_known [] es e (ground arith)),
  ground (
    arith,
    find_last-dedup_events e.eid (es ++ e ∷ []),
    find_last-append e.eid es e,
    eq_iff e.eid e.eid,
    member-eids_empty es,
    eq_iff e.eid "",
  ),
)
