-- ===== src/Platform/Lock/Invariant.antt =====
-- The invariant of the keyed mutex, kept by each step.
use native.Mathlib.Decide.{ℕ_discrete}
use octo_doc.Base.{
  ◌≢◌, subst, sym, Option-cases, inl, inr, ℕ, zero, suc, ◌≤◌, ◌<◌, String, Bool, false, true, none,
  some, ◌≡◌, refl, eq_iff, arith,
}
use octo_doc.Base.Dict.{lookup, lookup-insert, lookup-delete}
use octo_doc.Platform.Lock.Family.{update, total, total-update, member-le-total}
use octo_doc.Platform.Lock.{
  new_memory, new_entry, add_waiter, acquire, release, drop_waiter, lock_entry, unlock_entry,
}
use octo_doc.Platform.Lock.System.{
  Phase, Thread, System, initial, begin_with, started, enter, leave, finish, Step, Reach, begins,
  enters, leaves, finishes, start, next, uses, holds, idle, inside, waiting, holding, leaving,
}

abbrev pub bit : Bool → ℕ
bit true = 1
bit false = 0

pub record IsValid (n : ℕ) (s : System) : Type 0 where
  pub registered :
      (i : ℕ) (p : Phase) (key : String) (a : ℕ)
      → s.threads i ≡ inside p key a
      → (i < n) × (lookup key s.memory.locks ≡ some a)
  pub counted : (a : ℕ) → (s.memory.heap a).waiters ≡ total (uses a) n s.threads
  pub locked_once : (a : ℕ) → bit (s.memory.heap a).locked ≡ total (holds a) n s.threads
  pub fresh :
      (a : ℕ)
      → s.memory.next ≤ a
      → ((s.memory.heap a).waiters ≡ 0) × ((s.memory.heap a).locked ≡ false)
  pub in_use :
      (key : String) (a : ℕ) → lookup key s.memory.locks ≡ some a → 0 < (s.memory.heap a).waiters
  pub apart :
      (j k : String) (a : ℕ)
      → lookup j s.memory.locks ≡ some a
      → lookup k s.memory.locks ≡ some a
      → j ≡ k

total-idle : (n : ℕ) (p : Thread → ℕ) → p idle ≡ 0 → total p n (λ i. idle) ≡ 0
total-idle zero p h = refl
total-idle (suc n) p h = ground (arith, total-idle n p)

initial-IsValid : (n : ℕ) → IsValid n initial
unfolding initial new_memory lookup
initial-IsValid n = record {
  registered = λ i p key a h. cc;
  counted = λ a. omega (arith, total-idle n (uses a) refl);
  locked_once = λ a. omega (arith, total-idle n (holds a) refl);
  fresh = λ a h. (refl, refl);
  in_use = λ key a h. cc;
  apart = λ j k a h h'. cc;
}

module _ (n : ℕ) (s : System) (inv : IsValid n s) where
  open inv use {registered, counted, locked_once, fresh, in_use, apart}

  enter-IsValid :
      (i : ℕ) (key : String) (a : ℕ)
      → i < n
      → s.threads i ≡ inside waiting key a
      → (s.memory.heap a).locked ≡ false
      → IsValid n (enter i key a s)
  unfolding enter lock_entry
  enter-IsValid i key a lt at free = record {
    registered = λ j p k b h. ground (arith, registered i waiting key a, registered j p k b);
    counted =
        λ b. ground (arith, counted b, total-update (uses b) n i s.threads (inside holding key a));
    locked_once = λ b.
        ground (arith, locked_once b, total-update (holds b) n i s.threads (inside holding key a));
    fresh = λ b h. ground (arith, fresh b, in_use key a, registered i waiting key a);
    in_use = λ k b h. ground (arith, in_use k b);
    apart = apart;
  }

  leave-IsValid :
      (i : ℕ) (key : String) (a : ℕ)
      → i < n
      → s.threads i ≡ inside holding key a
      → IsValid n (leave i key a s)
  unfolding leave unlock_entry
  leave-IsValid i key a lt at = record {
    registered = λ j p k b h. ground (arith, registered i holding key a, registered j p k b);
    counted =
        λ b. ground (arith, counted b, total-update (uses b) n i s.threads (inside leaving key a));
    locked_once = λ b.
        ground (arith, locked_once b, total-update (holds b) n i s.threads (inside leaving key a));
    fresh = λ b h. ground (arith, fresh b);
    in_use = λ k b h. ground (arith, in_use k b);
    apart = apart;
  }

  join-IsValid :
      (i : ℕ) (key : String) (a : ℕ)
      → i < n
      → s.threads i ≡ idle
      → lookup key s.memory.locks ≡ some a
      → IsValid n (started i key (a, add_waiter a s.memory) s)
  unfolding started add_waiter
  join-IsValid i key a lt at found = record {
    registered = λ j p k b h. ground (arith, registered j p k b);
    counted =
        λ b. ground (arith, counted b, total-update (uses b) n i s.threads (inside waiting key a));
    locked_once = λ b.
        ground (arith, locked_once b, total-update (holds b) n i s.threads (inside waiting key a));
    fresh = λ b h. ground (arith, fresh b, in_use key a);
    in_use = λ k b h. ground (arith, in_use k b);
    apart = apart;
  }

  open_new-IsValid :
      (i : ℕ) (key : String)
      → i < n
      → s.threads i ≡ idle
      → lookup key s.memory.locks ≡ none
      → IsValid n
          (started i key (s.memory.next, add_waiter s.memory.next (new_entry key s.memory)) s)
  unfolding started add_waiter new_entry
  open_new-IsValid i key lt at absent =
      let a = s.memory.next in
      record {
        registered = λ j p k b h.
            ground (arith, registered j p k b, lookup-insert key k a s.memory.locks, eq_iff key k);
        counted = λ b.
            ground (
              arith,
              counted b,
              fresh b,
              total-update (uses b) n i s.threads (inside waiting key a),
            );
        locked_once = λ b. ground (
          arith,
          locked_once b,
          fresh b,
          total-update (holds b) n i s.threads (inside waiting key a),
        );
        fresh = λ b h. ground (arith, fresh b);
        in_use = λ k b h. ground (arith, in_use k b, lookup-insert key k a s.memory.locks);
        apart = λ j k b h h'. ground (
          arith,
          fresh b,
          in_use j b,
          in_use k b,
          apart j k b,
          lookup-insert key j a s.memory.locks,
          lookup-insert key k a s.memory.locks,
          eq_iff key j,
          eq_iff key k,
        );
      }

  pub begin_with-IsValid :
      (i : ℕ) (key : String) → i < n → s.threads i ≡ idle → IsValid n (begin_with i key s)
  unfolding begin_with acquire
  begin_with-IsValid i key lt at = elim (Option-cases (lookup key s.memory.locks)) [
    | inl absent ↦
        let taken : acquire key s.memory
            ≡ (s.memory.next, add_waiter s.memory.next (new_entry key s.memory)) =
          rw (absent, acquire) in
        subst (λ r. IsValid n (started i key r s)) (sym taken) (open_new-IsValid i key lt at absent)
    | inr (a, found) ↦
        let taken : acquire key s.memory ≡ (a, add_waiter a s.memory) = rw (found, acquire) in
        subst (λ r. IsValid n (started i key r s)) (sym taken) (join-IsValid i key a lt at found)
  ]

  -- the removal of an entry that nobody else uses
  reclaim-IsValid :
      (i : ℕ) (key : String) (a : ℕ)
      → i < n
      → s.threads i ≡ inside leaving key a
      → (s.memory.heap a).waiters ≡ 1
      → IsValid n (finish i key a s)
  unfolding finish release drop_waiter
  reclaim-IsValid i key a lt at last = record {
    registered = λ j p k b h. ground (
      arith,
      registered j p k b,
      registered i leaving key a,
      lookup-delete key k s.memory.locks,
      eq_iff key k,
      counted a,
      total-update (uses a) n i s.threads idle,
      member-le-total (uses a) n j (update s.threads i idle),
    );
    counted = λ b. ground (arith, counted b, total-update (uses b) n i s.threads idle);
    locked_once = λ b. ground (arith, locked_once b, total-update (holds b) n i s.threads idle);
    fresh = λ b h. ground (arith, fresh b);
    in_use = λ k b h. ground (
      arith,
      in_use k b,
      registered i leaving key a,
      apart key k a,
      lookup-delete key k s.memory.locks,
      eq_iff key k,
    );
    apart = λ j k b h h'. ground (
      arith,
      apart j k b,
      lookup-delete key k s.memory.locks,
      lookup-delete key j s.memory.locks,
    );
  }

  stay-IsValid :
      (i : ℕ) (key : String) (a : ℕ)
      → i < n
      → s.threads i ≡ inside leaving key a
      → (s.memory.heap a).waiters ≢ 1
      → IsValid n (finish i key a s)
  unfolding finish release drop_waiter
  stay-IsValid i key a lt at others = record {
    registered =
        λ j p k b h. ground (arith, registered j p k b, in_use key a, registered i leaving key a);
    counted = λ b. ground (arith, counted b, total-update (uses b) n i s.threads idle);
    locked_once = λ b. ground (arith, locked_once b, total-update (holds b) n i s.threads idle);
    fresh = λ b h. ground (arith, fresh b, in_use key a, registered i leaving key a);
    in_use = λ k b h. ground (arith, in_use k b, in_use key a, registered i leaving key a);
    apart = λ j k b h h'. ground (arith, apart j k b, in_use key a, registered i leaving key a);
  }

  finish-IsValid :
      (i : ℕ) (key : String) (a : ℕ)
      → i < n
      → s.threads i ≡ inside leaving key a
      → IsValid n (finish i key a s)
  finish-IsValid i key a lt at = elim (ℕ_discrete (s.memory.heap a).waiters 1) [
    | yes last ↦ reclaim-IsValid i key a lt at last
    | no others ↦ stay-IsValid i key a lt at others
  ]

pub Step-IsValid : (n : ℕ) (s u : System) → IsValid n s → Step n s u → IsValid n u
Step-IsValid n s u v (begins i key lt at e) =
    subst (IsValid n) (sym e) (begin_with-IsValid n s v i key lt at)
Step-IsValid n s u v (enters i key a lt at free e) =
    subst (IsValid n) (sym e) (enter-IsValid n s v i key a lt at free)
Step-IsValid n s u v (leaves i key a lt at e) =
    subst (IsValid n) (sym e) (leave-IsValid n s v i key a lt at)
Step-IsValid n s u v (finishes i key a lt at e) =
    subst (IsValid n) (sym e) (finish-IsValid n s v i key a lt at)

pub Reach-IsValid : (n : ℕ) (s : System) → Reach n s → IsValid n s
Reach-IsValid n s start = initial-IsValid n
Reach-IsValid n s (next {s = t} r st) = Step-IsValid n t s (Reach-IsValid n t r) st
