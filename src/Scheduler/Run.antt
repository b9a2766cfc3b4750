-- ===== src/Scheduler/Run.antt =====
-- `Scheduler::runOne` and `run` of src/impl/scheduler.cpp.
use legio.Prelude.{ℕ, zero, suc, List, [], ◌∷◌, Option, none, some}
use legio.Scheduler.{Scheduler, dequeue}

-- `effect func` is what the call of a task does to the scheduler, whether it returns or throws, since
-- what it throws is only logged; `clock k` is the k-th time that is read.
module _ {F : Type 0} (effect : F → Scheduler F → Scheduler F) (clock : ℕ → ℕ) where
  -- `task()`
  abbrev call_task : Scheduler F × Option F → Scheduler F × Option F
  call_task (s, none) = (s, none)
  call_task (s, some func) = (effect func s, some func)

  -- `bool runOne()` at the time `now`, with the task that was run
  unfoldable pub run_one : ℕ → Scheduler F → Scheduler F × Option F
  run_one now s = call_task (dequeue now s)

  abbrev prepend : F → Option (Scheduler F × List F) → Option (Scheduler F × List F)
  prepend func none = none
  prepend func (some (final, funcs)) = some (final, func ∷ funcs)

  -- `while (runOne())`
  abbrev while_run :
      (Scheduler F → Option (Scheduler F × List F))
      → Scheduler F × Option F
      → Option (Scheduler F × List F)
  while_run again (s, none) = some (s, [])
  while_run again (s, some func) = prepend func (again s)

  -- `void run()` from the k-th reading of the clock on, with the tasks that were run in their order;
  -- `none` means that the rounds did not suffice.
  unfoldable pub run : ℕ → ℕ → Scheduler F → Option (Scheduler F × List F)
  unfolding run_one
  run zero k s = none
  run (suc rounds) k s = while_run (run rounds (suc k)) (run_one (clock k) s)
