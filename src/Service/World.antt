-- ===== src/Service/World.antt =====
-- What the services run on: the backend's state and the machine with its clock and event counter.
use octo_doc.Base.{Option, none, some}
use octo_doc.Platform.Exec.{Error, Exec, ok, raise}
use octo_doc.Core.Runtime.{Machine}

pub record World (S : Type 0) : Type 0 where
  pub store : S
  pub machine : Machine

module _ {S A : Type 0} where
  -- an action of the backend
  abbrev pub stored : Exec S A → Exec (World S) A
  stored m w = let (r, s) = m w.store in (r, record w { store = s })

  -- a computation with the machine, which cannot fail
  abbrev pub computed : (Machine → A × Machine) → Exec (World S) A
  computed f w = let (a, m) = f w.machine in (ok a, record w { machine = m })

-- `Locker.With` as one caller sees it: a cancelled context is the error, and nothing runs.
unfoldable pub with_lock : {S A : Type 0} → Option Error → Exec S A → Exec S A
with_lock (some cancelled) m = raise cancelled
with_lock none m = m
