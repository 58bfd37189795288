-- ===== src/Platform/Lock/Progress.antt =====
-- sluglock.go: no deadlock. Goroutines in `With` can always go on.
use native.Mathlib.Decide.{ℕ_discrete}
use octo_doc.Base.{
  ℕ, zero, suc, ◌≤◌, ◌<◌, String, none, ◌≡◌, inl, inr, arith, refl, Bool-cases, Option-cases,
}
use octo_doc.Base.Dict.{lookup}
use octo_doc.Platform.Lock.Family.{total, total-update, member-le-total, find-total}
use octo_doc.Platform.Lock.System.{
  Phase, waiting, holding, leaving, Thread, System, Step, Steps, stay, go, Reach, next, holds, rank,
  idle, inside, enter, enters, leave, leaves, finish, finishes,
}
use octo_doc.Platform.Lock.Invariant.{IsValid, Reach-IsValid}
use octo_doc.Platform.Lock.Safety.{holds_of, acquire-release_bounded, InFlight}

-- a step that brings the goroutines nearer to their ends
abbrev Advance : ℕ → System → Type 0
Advance n s = (u : System) × Step n s u × (total rank n u.threads < total rank n s.threads)

rank_of : (t : Thread) → 0 < rank t → (p : Phase) × (key : String) × (a : ℕ) × (t ≡ inside p key a)
rank_of idle h = elim h [ ]
rank_of (inside p key a) h = (p, key, a, refl)

module _ (n : ℕ) (s : System) (v : IsValid n s) where
  holder-Advance :
      (i : ℕ) (key : String) (a : ℕ) → i < n → s.threads i ≡ inside holding key a → Advance n s
  unfolding leave
  holder-Advance i key a lt e = (
    leave i key a s,
    leaves i key a lt e refl,
    ground (arith, total-update rank n i s.threads (inside leaving key a)),
  )

  waiting-Advance :
      (i : ℕ) (key : String) (a : ℕ) → i < n → s.threads i ≡ inside waiting key a → Advance n s
  unfolding enter
  waiting-Advance i key a lt e = elim (Bool-cases (s.memory.heap a).locked) [
    | inl taken ↦
        let held : 0 < total (holds a) n s.threads = ground (arith, v.locked_once a) in
        let (j, lt', h) = find-total (holds a) n s.threads held in
        let (k, e') = holds_of a (s.threads j) h in holder-Advance j k a lt' e'
    | inr free ↦ (
      enter i key a s,
      enters i key a lt e free refl,
      ground (arith, total-update rank n i s.threads (inside holding key a)),
    )
  ]

  inside-Advance :
      (i : ℕ) (p : Phase) (key : String) (a : ℕ)
      → i < n
      → s.threads i ≡ inside p key a
      → Advance n s
  unfolding finish
  inside-Advance i waiting key a lt e = waiting-Advance i key a lt e
  inside-Advance i holding key a lt e = holder-Advance i key a lt e
  inside-Advance i leaving key a lt e = (
    finish i key a s,
    finishes i key a lt e refl,
    ground (arith, total-update rank n i s.threads idle),
  )

  ranked-Advance : 0 < total rank n s.threads → Advance n s
  ranked-Advance h =
      let (i, lt, r) = find-total rank n s.threads h in
      let (p, key, a, e) = rank_of (s.threads i) r in inside-Advance i p key a lt e

-- every goroutine is outside `With`, and the map is empty
abbrev pub IsQuiet : System → Type 0
IsQuiet s = (key : String) → (lookup key s.memory.locks ≡ none) × ¬ InFlight s key

initial-IsQuiet : (n : ℕ) (s : System) → Reach n s → total rank n s.threads ≡ 0 → IsQuiet s
initial-IsQuiet n s r h key =
    let v = Reach-IsValid n s r in
    let outside : ¬ InFlight s key = λ (i, p, a, e). ranked i p a e (v.registered i p key a e).0 in
    (
      elim (Option-cases (lookup key s.memory.locks)) [
        | inl absent ↦ absent
        | inr (a, found) ↦ absurd (outside ((acquire-release_bounded n s key r).0 (λ absent. cc)))
      ],
      outside,
    )
  where
    ranked : (i : ℕ) (p : Phase) (a : ℕ) → s.threads i ≡ inside p key a → i < n → ⊥
    ranked i waiting a e lt = ground (arith, member-le-total rank n i s.threads)
    ranked i holding a e lt = ground (arith, member-le-total rank n i s.threads)
    ranked i leaving a e lt = ground (arith, member-le-total rank n i s.threads)

drain_within :
    (m n : ℕ) (s : System)
    → Reach n s
    → total rank n s.threads ≤ m
    → (u : System) × Steps n s u × IsQuiet u
drain_within zero n s r h = (s, stay s, initial-IsQuiet n s r (omega arith))
drain_within (suc m) n s r h = elim (ℕ_discrete (total rank n s.threads) 0) [
  | yes z ↦ (s, stay s, initial-IsQuiet n s r z)
  | no more ↦
      let (t, st, less) = ranked-Advance n s (Reach-IsValid n s r) (omega arith) in
      let (u, sts, quiet) = drain_within m n t (next r st) (omega arith) in (u, go st sts, quiet)
]

-- From every reachable state, there are steps to a state in which no call is between acquiring and
-- releasing a key and the map is empty.
pub With_drains : (n : ℕ) (s : System) → Reach n s → (u : System) × Steps n s u × IsQuiet u
With_drains n s r = drain_within (total rank n s.threads) n s r (omega arith)
