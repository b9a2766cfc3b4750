-- ===== src/Examples/Delivery.antt =====
-- Concrete runs of the theorems on the scheduler's queue.
use legio.Prelude.{ℕ, suc, ◌≡◌, refl, true, [], ◌∷◌, some, arith}
use legio.Scheduler.{Scheduler, TaskIdentifier, before, schedule, cancel}
use legio.Scheduler.Order.{IsScheduled, cancel-schedule}

-- Two tasks, at the times 10 and 20.
abbrev two_tasks : Scheduler ℕ
two_tasks = record { tasks = ((10, 1), 5) ∷ ((20, 0), 6) ∷ []; next_task_number = 2 }

two_tasks-IsScheduled : IsScheduled two_tasks
unfolding before
two_tasks-IsScheduled = record {
  ordered = ((refl, tt), (tt, tt));
  numbered = (omega arith, (omega arith, tt));
}

cancel-schedule_example :
    (s : Scheduler ℕ) × (id : TaskIdentifier) × (schedule two_tasks 15 9 ≡ some (s, id))
    × IsScheduled s
    × (cancel s id ≡ (record two_tasks { next_task_number = suc two_tasks.next_task_number }, true))
cancel-schedule_example = cancel-schedule two_tasks 15 9 two_tasks-IsScheduled (omega arith)
