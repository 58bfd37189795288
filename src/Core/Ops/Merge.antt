-- ===== src/Core/Ops/Merge.antt =====
-- `merge_local`: local comments come in once.
use mathlib.Core.List.{append_assoc, append-nil}
use octo_doc.Base.{
  length, ℕ, ◌+◌, ◌⊎◌, String, true, false, ◌||◌, List, [], ◌∷◌, ◌++◌, ◌≡◌, ◌∙◌, refl, sym, ap,
  subst, ◌==◌, eq_iff, arith, inl, inr, All, member, member-append, Bool-cases,
}
use octo_doc.Core.Types.{Comment}
use octo_doc.Core.Runtime.{Clock, Machine}
use octo_doc.Core.Legacy.{ensure_event_log, migrate}
use octo_doc.Core.Ops.{ids_of, merge_local}

ids_of-append : (cs ds : List Comment) → ids_of (cs ++ ds) ≡ ids_of cs ++ ids_of ds
unfolding ids_of
ids_of-append [] ds = refl
ids_of-append (c ∷ cs) ds = ground (arith, ids_of-append cs ds)

-- each comment with an id has it in `have`
abbrev pub AreHeld : List String → List Comment → Type 0
AreHeld have = All (λ c. (c.id == "" || member c.id have) ≡ true)

-- each comment has an id that is not in `have` and that no comment before it has
abbrev pub AreNew : List String → List Comment → Type 0
AreNew have [] = Unit {0}
AreNew have (c ∷ cs) = ((c.id == "") ≡ false) × (member c.id have ≡ false) × AreNew (c.id ∷ have) cs

module _ (clock : Clock) where
  migrate-id : (c : Comment) (m : Machine) → (migrate clock c m).0.id ≡ c.id
  unfolding migrate
  migrate-id c m = ground arith

  ensure_event_log-id : (c : Comment) (m : Machine) → (ensure_event_log clock c m).0.id ≡ c.id
  unfolding ensure_event_log
  ensure_event_log-id c m = ground (arith, migrate-id c m)

  merge_local_of_AreHeld :
      (cs : List Comment) (have : List String) (n : ℕ) (local : List Comment) (m : Machine)
      → AreHeld have local
      → merge_local clock cs have n local m ≡ (cs, n, m)
  unfolding merge_local
  merge_local_of_AreHeld cs have n [] m h = refl
  merge_local_of_AreHeld cs have n (lc ∷ local) m h = elim (Bool-cases (lc.id == "")) [
    | inl p ↦ rw (p, merge_local) (merge_local_of_AreHeld cs have n local m h.1)
    | inr p ↦
        let q : member lc.id have ≡ true = ground arith in
        rw (p, q, merge_local) (merge_local_of_AreHeld cs have n local m h.1)
  ]

  -- a local comment with its log, made by the machine in some state
  abbrev pub ComesFrom : List Comment → Comment → Type 0
  ComesFrom [] c = ⊥
  ComesFrom (lc ∷ local) c =
      ((m : Machine) × (c ≡ (ensure_event_log clock lc m).0)) ⊎ ComesFrom local c

  All-ComesFrom :
      (lc : Comment) (local added : List Comment)
      → All (ComesFrom local) added
      → All (ComesFrom (lc ∷ local)) added
  All-ComesFrom lc local [] h = tt
  All-ComesFrom lc local (c ∷ added) h = (inr h.0, All-ComesFrom lc local added h.1)

  -- What came in behind the comments that were there: new comments, each of them a local one, and
  -- their number.
  Added : List Comment → List String → ℕ → List Comment → List Comment × ℕ × Machine → Type 0
  Added cs have n local r =
      (added : List Comment) × (r.0 ≡ cs ++ added)
      × (r.1 ≡ n + length added)
      × AreNew have added
      × All (ComesFrom local) added

  Added-cons :
      (cs : List Comment) (have : List String) (n : ℕ) (lc : Comment) (local : List Comment)
      (m : Machine) (r : List Comment × ℕ × Machine)
      → (lc.id == "") ≡ false
      → member lc.id have ≡ false
      → Added (cs ++ (ensure_event_log clock lc m).0 ∷ []) (lc.id ∷ have) (n + 1) local r
      → Added cs have n (lc ∷ local) r
  unfolding Added
  Added-cons cs have n lc local m r named absent (added, p, q, new, from) =
      let c = (ensure_event_log clock lc m).0 in
      let same : c.id ≡ lc.id = ensure_event_log-id lc m in
      (
        c ∷ added,
        p ∙ append_assoc cs (c ∷ []) added,
        q ∙ omega arith,
        (
          ap (λ k. k == "") same ∙ named,
          ap (λ k. member k have) same ∙ absent,
          subst (λ k. AreNew (k ∷ have) added) (sym same) new,
        ),
        (inl (m, refl), All-ComesFrom lc local added from),
      )

  Added-skip :
      (cs : List Comment) (have : List String) (n : ℕ) (lc : Comment) (local : List Comment)
      (r : List Comment × ℕ × Machine)
      → Added cs have n local r
      → Added cs have n (lc ∷ local) r
  unfolding Added
  Added-skip cs have n lc local r (added, p, q, new, from) =
      (added, p, q, new, All-ComesFrom lc local added from)

  merge_local-Added :
      (cs : List Comment) (have : List String) (n : ℕ) (local : List Comment) (m : Machine)
      → Added cs have n local (merge_local clock cs have n local m)
  unfolding merge_local Added
  merge_local-Added cs have n [] m = ([], sym (append-nil cs), omega arith, tt, tt)
  merge_local-Added cs have n (lc ∷ local) m = elim (Bool-cases (lc.id == "")) [
    | inl p ↦
        rw (p, merge_local)
          (Added-skip cs have n lc local (merge_local clock cs have n local m)
            (merge_local-Added cs have n local m))
    | inr p ↦ elim (Bool-cases (member lc.id have)) [
      | inl q ↦
          rw (p, q, merge_local)
            (Added-skip cs have n lc local (merge_local clock cs have n local m)
              (merge_local-Added cs have n local m))
      | inr q ↦
          let (c, _, m') = ensure_event_log clock lc m in
          rw (p, q, merge_local)
            (Added-cons cs have n lc local m
              (merge_local clock (cs ++ c ∷ []) (lc.id ∷ have) (n + 1) local m') p q
              (merge_local-Added (cs ++ c ∷ []) (lc.id ∷ have) (n + 1) local m'))
    ]
  ]

  member-ids_of-append :
      (k : String) (cs ds : List Comment)
      → member k (ids_of cs) ≡ true
      → member k (ids_of (cs ++ ds)) ≡ true
  member-ids_of-append k cs ds h =
      ap (member k) (ids_of-append cs ds) ∙ ground (arith, member-append k (ids_of cs) (ids_of ds))

  member-ids_of-merge_local :
      (k : String) (cs : List Comment) (have : List String) (n : ℕ) (local : List Comment)
      (m : Machine)
      → member k (ids_of cs) ≡ true
      → member k (ids_of (merge_local clock cs have n local m).0) ≡ true
  unfolding Added
  member-ids_of-merge_local k cs have n local m h =
      let (added, p, q, new, from) = merge_local-Added cs have n local m in
      ap (λ l. member k (ids_of l)) p ∙ member-ids_of-append k cs added h

  -- the ids of the loop's set are those of comments in its list
  abbrev Agrees : List Comment → List String → Type 0
  Agrees cs have = (k : String) → member k have ≡ true → member k (ids_of cs) ≡ true

  Agrees-cons :
      (cs : List Comment) (c : Comment) (have : List String) (id : String)
      → c.id ≡ id
      → (id == "") ≡ false
      → Agrees cs have
      → Agrees (cs ++ c ∷ []) (id ∷ have)
  unfolding ids_of
  Agrees-cons cs c have id e ne a k h =
      ap (member k) (ids_of-append cs (c ∷ []))
      ∙ ground (arith, member-append k (ids_of cs) (ids_of (c ∷ [])), a k, e, eq_iff id k)

  module _ (cs : List Comment) (have : List String) (n : ℕ) (lc : Comment) (local : List Comment)
      (m : Machine) where
    merge_local-skipped :
        (lc.id == "" || member lc.id have) ≡ true
        → merge_local clock cs have n (lc ∷ local) m ≡ merge_local clock cs have n local m
    unfolding merge_local
    merge_local-skipped h = elim (Bool-cases (lc.id == "")) [
      | inl p ↦ rw (p, merge_local)
      | inr p ↦ let q : member lc.id have ≡ true = ground arith in rw (p, q, merge_local)
    ]

    merge_local-taken :
        (lc.id == "") ≡ false
        → member lc.id have ≡ false
        → merge_local clock cs have n (lc ∷ local) m
          ≡ merge_local clock
              (cs ++ (ensure_event_log clock lc m).0 ∷ [])
              (lc.id ∷ have)
              (n + 1)
              local
              (ensure_event_log clock lc m).2
    unfolding merge_local
    merge_local-taken p q = rw (p, q, merge_local)

  Held : Comment → List Comment → List Comment × ℕ × Machine → Type 0
  Held lc local r = AreHeld (ids_of r.0) (lc ∷ local)

  merge_local-AreHeld :
      (cs : List Comment) (have : List String) (n : ℕ) (local : List Comment) (m : Machine)
      → Agrees cs have
      → AreHeld (ids_of (merge_local clock cs have n local m).0) local
  unfolding Held
  merge_local-AreHeld cs have n [] m a = tt
  merge_local-AreHeld cs have n (lc ∷ local) m a =
      elim (Bool-cases (lc.id == "" || member lc.id have)) [
        | inl p ↦ subst (Held lc local) (sym (merge_local-skipped cs have n lc local m p)) (
          ground (arith, member-ids_of-merge_local lc.id cs have n local m, a lc.id),
          merge_local-AreHeld cs have n local m a,
        )
        | inr p ↦
            let c = (ensure_event_log clock lc m).0 in
            let m' = (ensure_event_log clock lc m).2 in
            let a' = Agrees-cons cs c have lc.id (ensure_event_log-id lc m) (ground arith) a in
            subst (Held lc local)
              (sym (merge_local-taken cs have n lc local m (ground arith) (ground arith)))
              (
                ground (
                  arith,
                  member-ids_of-merge_local lc.id (cs ++ c ∷ []) (lc.id ∷ have) (n + 1) local m',
                  a' lc.id,
                  eq_iff lc.id lc.id,
                ),
                merge_local-AreHeld (cs ++ c ∷ []) (lc.id ∷ have) (n + 1) local m' a',
              )
      ]

  -- Merging local comments into those of a slug keeps the comments that are there, in front and as
  -- they are. What comes in are local comments with their logs, each with an id that neither the
  -- comments there nor those before it have; every local comment that has an id is then there under
  -- it; the number reported is the number of those that came in. Merging the same local comments
  -- again, whatever the machine, brings none in.
  pub merge_local_contract :
      (cs local : List Comment) (m m' : Machine)
      → ((added : List Comment) × ((merge_local clock cs (ids_of cs) 0 local m).0 ≡ cs ++ added)
          × ((merge_local clock cs (ids_of cs) 0 local m).1 ≡ length added)
          × AreNew (ids_of cs) added
          × All (ComesFrom local) added)
        × AreHeld (ids_of (merge_local clock cs (ids_of cs) 0 local m).0) local
        × (merge_local clock
              (merge_local clock cs (ids_of cs) 0 local m).0
              (ids_of (merge_local clock cs (ids_of cs) 0 local m).0)
              0
              local
              m'
            ≡ ((merge_local clock cs (ids_of cs) 0 local m).0, 0, m'))
  unfolding Added
  merge_local_contract cs local m m' =
      let (added, p, q, new, from) = merge_local-Added cs (ids_of cs) 0 local m in
      let held = merge_local-AreHeld cs (ids_of cs) 0 local m (λ k h. h) in
      (
        (added, p, q ∙ omega arith, new, from),
        held,
        merge_local_of_AreHeld (merge_local clock cs (ids_of cs) 0 local m).0
            (ids_of (merge_local clock cs (ids_of cs) 0 local m).0) 0 local m' held,
      )
