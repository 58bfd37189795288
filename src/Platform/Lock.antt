-- ===== src/Platform/Lock.antt =====
-- internal/platform/sluglock/sluglock.go: the keyed mutex of one process. A pointer `*entry` is an
-- address of the heap, so that the map and the goroutines share entries.
pub mod Family
pub mod System
pub mod Invariant
pub mod Safety
pub mod Progress
use octo_doc.Base.{ℕ, ◌+◌, ◌-◌, String, Bool, true, false, [], none, some, eqb, if◌then◌else◌}
use octo_doc.Base.Dict.{Dict, lookup, insert, delete}
use octo_doc.Platform.Lock.Family.{update}

-- `locked` is the state of the mutex `mu`.
pub record Entry : Type 0 where
  pub locked : Bool
  pub waiters : ℕ

-- The addresses from `next` on are free.
pub record Memory : Type 0 where
  pub locks : Dict ℕ
  pub heap : ℕ → Entry
  pub next : ℕ

unfoldable pub new_memory : Memory
new_memory = record { locks = []; heap = λ a. record { locked = false; waiters = 0 }; next = 0 }

-- `e.waiters += d`, in two directions
unfoldable pub add_waiter : ℕ → Memory → Memory
add_waiter a m = record m {
  heap = update m.heap a (record (m.heap a) { waiters = (m.heap a).waiters + 1 });
}

unfoldable pub drop_waiter : ℕ → Memory → Memory
drop_waiter a m = record m {
  heap = update m.heap a (record (m.heap a) { waiters = (m.heap a).waiters - 1 });
}

-- `e = &entry{}; m.locks[key] = e`
unfoldable pub new_entry : String → Memory → Memory
new_entry key m = record {
  locks = insert key m.next m.locks;
  heap = update m.heap m.next (record { locked = false; waiters = 0 });
  next = m.next + 1;
}

unfoldable pub acquire : String → Memory → ℕ × Memory
unfolding new_entry add_waiter
acquire key m = elim (lookup key m.locks) [
  | some a ↦ (a, add_waiter a m)
  | none ↦ (m.next, add_waiter m.next (new_entry key m))
]

unfoldable pub release : String → ℕ → Memory → Memory
unfolding drop_waiter
release key a m =
    let m' = drop_waiter a m in
    if eqb (m'.heap a).waiters 0 then record m' { locks = delete key m'.locks } else m'

-- `e.mu.Lock()` once the mutex is free, and `e.mu.Unlock()`
unfoldable pub lock_entry : ℕ → Memory → Memory
lock_entry a m = record m { heap = update m.heap a (record (m.heap a) { locked = true }) }

unfoldable pub unlock_entry : ℕ → Memory → Memory
unlock_entry a m = record m { heap = update m.heap a (record (m.heap a) { locked = false }) }
