-- ===== src/Examples/Platform.antt =====
-- Two goroutines and one key: the first holds its entry.
use octo_doc.Base.{ℕ, none, ◌≡◌, ◌≢◌, ◌↔◌, refl, arith}
use octo_doc.Base.Dict.{lookup, insert}
use octo_doc.Platform.Lock.{acquire, new_memory, new_entry, add_waiter}
use octo_doc.Platform.Lock.System.{
  System, initial, begin_with, started, enter, Reach, start, next, begins, enters, Steps, inside,
  waiting,
}
use octo_doc.Platform.Lock.Safety.{RunsFor, InFlight, With_exclusive, acquire-release_bounded}
use octo_doc.Platform.Lock.Progress.{IsQuiet, With_drains}

abbrev begun : System
begun = begin_with 0 "guide" initial

abbrev held : System
held = enter 0 "guide" 0 begun

begun_waits : begun.threads 0 ≡ inside waiting "guide" 0
unfolding begin_with started acquire initial new_memory lookup
begun_waits = refl

held-Reach : Reach 2 held
unfolding begin_with started acquire initial new_memory new_entry add_waiter lookup insert
held-Reach =
    next (next start (begins 0 "guide" (omega arith) refl refl))
      (enters 0 "guide" 0 (omega arith) begun_waits refl refl)

held-RunsFor : RunsFor held "guide" 0
unfolding enter
held-RunsFor = (0, refl)

With_exclusive_example : ◌≡◌ {A = ℕ} 0 0
With_exclusive_example = With_exclusive 2 held "guide" 0 0 held-Reach held-RunsFor held-RunsFor

acquire-release_bounded_example : (lookup "guide" held.memory.locks ≢ none) ↔ InFlight held "guide"
acquire-release_bounded_example = acquire-release_bounded 2 held "guide" held-Reach

With_drains_example : (u : System) × Steps 2 held u × IsQuiet u
With_drains_example = With_drains 2 held held-Reach
