-- ===== src/Platform/Lock/System.antt =====
-- sluglock.go, `With`, run by `n` goroutines at once. The map's own mutex makes `acquire` and
-- `release` one step each; the entry's mutex is taken and given back by steps of their own.
use octo_doc.Base.{ℕ, ◌<◌, String, false, ◌≡◌, eqb, if◌then◌else◌}
use octo_doc.Platform.Lock.Family.{update}
use octo_doc.Platform.Lock.{Memory, new_memory, acquire, release, lock_entry, unlock_entry}

-- Where a goroutine stands in `With`: before `e.mu.Lock()`, in `fn`, and behind `e.mu.Unlock()`.
pub data Phase : Type 0 where
  waiting : Phase
  holding : Phase
  leaving : Phase

pub data Thread : Type 0 where
  idle : Thread
  inside : Phase → String → ℕ → Thread

pub record System : Type 0 where
  pub memory : Memory
  pub threads : ℕ → Thread

unfoldable pub initial : System
unfolding new_memory
initial = record { memory = new_memory; threads = λ i. idle }

unfoldable pub started : ℕ → String → ℕ × Memory → System → System
started i key (a, m) s = record { memory = m; threads = update s.threads i (inside waiting key a) }

unfoldable pub begin_with : ℕ → String → System → System
begin_with i key s = started i key (acquire key s.memory) s

unfoldable pub enter : ℕ → String → ℕ → System → System
unfolding lock_entry
enter i key a s = record {
  memory = lock_entry a s.memory;
  threads = update s.threads i (inside holding key a);
}

unfoldable pub leave : ℕ → String → ℕ → System → System
unfolding unlock_entry
leave i key a s = record {
  memory = unlock_entry a s.memory;
  threads = update s.threads i (inside leaving key a);
}

unfoldable pub finish : ℕ → String → ℕ → System → System
unfolding release
finish i key a s = record { memory = release key a s.memory; threads = update s.threads i idle }

-- A call whose context is cancelled returns before the first of these steps and takes none.
pub data Step (n : ℕ) (s u : System) : Type 0 where
  begins : (i : ℕ) (key : String) → i < n → s.threads i ≡ idle → u ≡ begin_with i key s → Step n s u
  enters :
      (i : ℕ) (key : String) (a : ℕ)
      → i < n
      → s.threads i ≡ inside waiting key a
      → (s.memory.heap a).locked ≡ false
      → u ≡ enter i key a s
      → Step n s u
  leaves :
      (i : ℕ) (key : String) (a : ℕ)
      → i < n
      → s.threads i ≡ inside holding key a
      → u ≡ leave i key a s
      → Step n s u
  finishes :
      (i : ℕ) (key : String) (a : ℕ)
      → i < n
      → s.threads i ≡ inside leaving key a
      → u ≡ finish i key a s
      → Step n s u

pub data Reach (n : ℕ) : System → Type 0 where
  start : Reach n initial
  next : {s u : System} → Reach n s → Step n s u → Reach n u

-- tests of a goroutine, as numbers for counting
abbrev pub uses : ℕ → Thread → ℕ
uses a idle = 0
uses a (inside p k b) = if eqb a b then 1 else 0

abbrev pub holds : ℕ → Thread → ℕ
holds a (inside holding k b) = if eqb a b then 1 else 0
holds a t = 0

-- the steps that a goroutine has still to take
abbrev pub rank : Thread → ℕ
rank idle = 0
rank (inside waiting k a) = 3
rank (inside holding k a) = 2
rank (inside leaving k a) = 1

-- the steps in a row
pub data Steps (n : ℕ) : System → System → Type 0 where
  stay : (s : System) → Steps n s s
  go : {s t u : System} → Step n s t → Steps n t u → Steps n s u
