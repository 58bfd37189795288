-- ===== src/Platform/Lock/Safety.antt =====
-- sluglock.go: mutual exclusion, the bound on the map, and progress.
use octo_doc.Base.{ℕ, ◌<◌, String, none, ◌≡◌, ◌≢◌, ◌↔◌, subst, inl, inr, arith, Option-cases}
use octo_doc.Base.Dict.{lookup}
use octo_doc.Platform.Lock.Family.{total, two-le-total, find-total}
use octo_doc.Platform.Lock.System.{
  Phase, waiting, holding, leaving, Thread, System, Reach, uses, holds, idle, inside,
}
use octo_doc.Platform.Lock.Invariant.{IsValid, Reach-IsValid}

-- goroutine `i` runs its `fn` for the key
abbrev pub RunsFor : System → String → ℕ → Type 0
RunsFor s key i = (a : ℕ) × (s.threads i ≡ inside holding key a)

module _ (n : ℕ) (s : System) (v : IsValid n s) where
  open v use {registered, counted, locked_once, in_use}

  not_before :
      (key : String) (i j a b : ℕ)
      → s.threads i ≡ inside holding key a
      → s.threads j ≡ inside holding key b
      → i < j
      → ⊥
  not_before key i j a b p q lt = ground (
    arith,
    locked_once a,
    registered i holding key a,
    registered j holding key b,
    two-le-total (holds a) n i j s.threads,
  )

  exclusive :
      (key : String) (i j a b : ℕ)
      → s.threads i ≡ inside holding key a
      → s.threads j ≡ inside holding key b
      → i ≡ j
  exclusive key i j a b p q = ground (arith, not_before key i j a b p q, not_before key j i b a q p)

-- In every reachable state, two goroutines that run their function for the same key are the same
-- goroutine.
pub With_exclusive :
    (n : ℕ) (s : System) (key : String) (i j : ℕ)
    → Reach n s
    → RunsFor s key i
    → RunsFor s key j
    → i ≡ j
With_exclusive n s key i j r (a, p) (b, q) = exclusive n s (Reach-IsValid n s r) key i j a b p q

-- a call for the key is between `acquire` and `release`
abbrev pub InFlight : System → String → Type 0
InFlight s key = (i : ℕ) × (p : Phase) × (a : ℕ) × (s.threads i ≡ inside p key a)

uses_of : (a : ℕ) (t : Thread) → 0 < uses a t → (p : Phase) × (key : String) × (t ≡ inside p key a)
uses_of a idle h = elim h [ ]
uses_of a (inside p key b) h = (p, key, ground arith)

pub holds_of : (a : ℕ) (t : Thread) → 0 < holds a t → (key : String) × (t ≡ inside holding key a)
holds_of a (inside holding key b) h = (key, ground arith)
holds_of a idle h = elim h [ ]
holds_of a (inside waiting key b) h = elim h [ ]
holds_of a (inside leaving key b) h = elim h [ ]

-- In every reachable state, the map has an entry for a key exactly while a call for the key is
-- between acquiring and releasing it.
pub acquire-release_bounded :
    (n : ℕ) (s : System) (key : String)
    → Reach n s
    → (lookup key s.memory.locks ≢ none) ↔ InFlight s key
acquire-release_bounded n s key r =
    let v = Reach-IsValid n s r in
    (
      λ h. elim (Option-cases (lookup key s.memory.locks)) [
        | inl absent ↦ absurd (h absent)
        | inr (a, found) ↦
            let used : 0 < total (uses a) n s.threads =
              omega (arith, v.in_use key a found, v.counted a) in
            let (i, lt, u) = find-total (uses a) n s.threads used in
            let (p, k, e) = uses_of a (s.threads i) u in
            let same : k ≡ key = v.apart k key a (v.registered i p k a e).1 found in
            (i, p, a, subst (λ x. s.threads i ≡ inside p x a) same e)
      ],
      λ (i, p, a, e) absent. cc ((v.registered i p key a e).1, absent),
    )
