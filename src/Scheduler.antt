-- ===== src/Scheduler.antt =====
-- src/impl/scheduler.hpp and scheduler.cpp: tasks in the order of their time, then of their number. A
-- time is a number of ticks of the clock, and a task's function is a value of a type `F`.
pub mod Order
pub mod Run
pub mod Progress
use legio.Prelude.Int.{int_max}
use legio.Prelude.{
  ℕ, suc, zero, ◌+◌, Bool, true, false, not, ◌&&◌, ◌||◌, ◌==◌, ltb, if◌then◌else◌, List, [], ◌∷◌,
  Option, none, some,
}

-- `TaskIdentifier`: time and number
abbrev pub TaskIdentifier : Type 0
TaskIdentifier = ℕ × ℕ

-- `operator<` of the pairs
unfoldable pub before : TaskIdentifier → TaskIdentifier → Bool
before (t, n) (t', n') = ltb t t' || (not (ltb t' t) && ltb n n')

-- `mTasks` in the order of its keys, and `mNextTaskNumber`
pub record Scheduler (F : Type 0) : Type 0 where
  pub tasks : List (TaskIdentifier × F)
  pub next_task_number : ℕ

module _ {F : Type 0} where
  -- `mTasks.emplace(id, task)`
  unfoldable pub emplace_task :
      TaskIdentifier → F → List (TaskIdentifier × F) → List (TaskIdentifier × F)
  unfolding before
  emplace_task id func [] = (id, func) ∷ []
  emplace_task id func ((id', func') ∷ tasks) =
      let rest = emplace_task id func tasks in
      if before id id'
      then (id, func) ∷ (id', func') ∷ tasks
      else if before id' id
      then (id', func') ∷ rest
      else (id', func') ∷ tasks

  -- `schedule(clock::time_point time, F &&f, Args &&...args)`: `none` is the undefined behaviour of
  -- `mNextTaskNumber++` at the largest `int`.
  unfoldable pub schedule : Scheduler F → ℕ → F → Option (Scheduler F × TaskIdentifier)
  unfolding emplace_task
  schedule s time func =
      let id : TaskIdentifier = (time, s.next_task_number) in
      if ltb s.next_task_number int_max
      then some (
        record s {
          tasks = emplace_task id func s.tasks;
          next_task_number = suc s.next_task_number;
        },
        id,
      )
      else none

  -- `schedule(clock::duration delay, …)` and `enqueue(…)` at the time `now`
  unfoldable pub schedule_after : ℕ → Scheduler F → ℕ → F → Option (Scheduler F × TaskIdentifier)
  unfolding schedule
  schedule_after now s delay func = schedule s (now + delay) func

  unfoldable pub enqueue : ℕ → Scheduler F → F → Option (Scheduler F × TaskIdentifier)
  unfolding schedule
  enqueue now s func = schedule s now func

  unfoldable pub erase_task :
      TaskIdentifier → List (TaskIdentifier × F) → List (TaskIdentifier × F) × Bool
  erase_task id [] = ([], false)
  erase_task (t, n) (((t', n'), func) ∷ tasks) =
      let (rest, found) = erase_task (t, n) tasks in
      if t == t' && n == n' then (tasks, true) else (((t', n'), func) ∷ rest, found)

  -- `bool cancel(const TaskIdentifier &id)`
  unfoldable pub cancel : Scheduler F → TaskIdentifier → Scheduler F × Bool
  unfolding erase_task
  cancel s id = let (tasks, found) = erase_task id s.tasks in (record s { tasks = tasks }, found)

  unfoldable pub dequeue_at : ℕ → Scheduler F → List (TaskIdentifier × F) → Scheduler F × Option F
  dequeue_at now s [] = (s, none)
  dequeue_at now s (((time, number), func) ∷ tasks) =
      if ltb now time then (s, none) else (record s { tasks = tasks }, some func)

  -- `std::function<void()> dequeue()` at the time `now`
  unfoldable pub dequeue : ℕ → Scheduler F → Scheduler F × Option F
  unfolding dequeue_at
  dequeue now s = dequeue_at now s s.tasks
