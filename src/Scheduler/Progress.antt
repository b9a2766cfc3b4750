-- ===== src/Scheduler/Progress.antt =====
-- What `Scheduler::run` of src/impl/scheduler.cpp runs, and that it ends.
use mathlib.Core.Path.{subst}
use legio.Prelude.{
  ℕ, zero, suc, ◌+◌, ◌<◌, ◌≤◌, ◌≡◌, refl, ap, ◌∙◌, List, [], ◌∷◌, ◌++◌, map, length, All, some,
  none, arith, inl, inr,
}
use legio.Scheduler.{TaskIdentifier, Scheduler, dequeue}
use legio.Scheduler.Order.{IsOrdered, IsScheduled, dequeue_cases}
use legio.Scheduler.Run.{run, run_one}

module _ {F : Type 0} where
  -- None of the tasks is due.
  abbrev pub NotDue : ℕ → List (TaskIdentifier × F) → Type 0
  NotDue now tasks = All (λ task. now < task.0.0) tasks

  abbrev pub functions : List (TaskIdentifier × F) → List F
  functions tasks = map (λ (task : TaskIdentifier × F). task.1) tasks

  -- Each of the tasks was due when the clock was read for it, from the k-th reading on.
  abbrev pub WereDue : (ℕ → ℕ) → ℕ → List (TaskIdentifier × F) → Type 0
  WereDue clock k [] = Unit {0}
  WereDue clock k ((id, func) ∷ tasks) = (id.0 ≤ clock k) × WereDue clock (suc k) tasks

module _ {F : Type 0} (effect : F → Scheduler F → Scheduler F) (clock : ℕ → ℕ) where
  run_one-none :
      (now : ℕ) (s : Scheduler F)
      → dequeue now s ≡ (s, none)
      → run_one effect clock now s ≡ (s, none)
  unfolding run_one
  run_one-none now s h = rw (h, run_one) refl

  run_one-some :
      (now : ℕ) (s t : Scheduler F) (func : F)
      → dequeue now s ≡ (t, some func)
      → run_one effect clock now s ≡ (effect func t, some func)
  unfolding run_one
  run_one-some now s t func h = rw (h, run_one) refl

  run-stop :
      (rounds k : ℕ) (s : Scheduler F)
      → dequeue (clock k) s ≡ (s, none)
      → run effect clock (suc rounds) k s ≡ some (s, [])
  unfolding run
  run-stop rounds k s h = rw (run_one-none (clock k) s h, run) refl

  run-step :
      (rounds k : ℕ) (s t final : Scheduler F) (func : F) (funcs : List F)
      → dequeue (clock k) s ≡ (t, some func)
      → run effect clock rounds (suc k) (effect func t) ≡ some (final, funcs)
      → run effect clock (suc rounds) k s ≡ some (final, func ∷ funcs)
  unfolding run
  run-step rounds k s t final func funcs h r =
      rw (run_one-some (clock k) s t func h, run) (rw r refl)

  add_zero : (k : ℕ) → k + 0 ≡ k
  add_zero k = omega arith

  add_suc : (k n : ℕ) → k + suc n ≡ suc k + n
  add_suc k n = omega arith

  -- What is left of an ordered queue without its first task.
  rest-IsScheduled :
      (s : Scheduler F) (id : TaskIdentifier) (func : F) (tasks : List (TaskIdentifier × F))
      → s.tasks ≡ (id, func) ∷ tasks
      → IsScheduled s
      → IsScheduled (record s { tasks = tasks })
  rest-IsScheduled s id func tasks e v = record {
    ordered = (subst IsOrdered e v.ordered).1;
    numbered =
        (subst (All (λ (task : TaskIdentifier × F). task.0.1 < s.next_task_number)) e v.numbered).1;
  }

  -- `run` ends after at most one round more than there are tasks, if the tasks are in order, and no
  -- task brings them out of order or leaves more tasks than it finds; then the time of each task
  -- that is left lies after the last reading of the clock.
  pub run-ends :
      (rounds k : ℕ) (s : Scheduler F)
      → ((func : F) (t : Scheduler F) → length (effect func t).tasks ≤ length t.tasks)
      → ((func : F) (t : Scheduler F) → IsScheduled t → IsScheduled (effect func t))
      → IsScheduled s
      → length s.tasks < rounds
      → (final : Scheduler F) × (funcs : List F) × (run effect clock rounds k s
          ≡ some (final, funcs))
        × NotDue (clock (k + length funcs)) final.tasks
  run-ends zero k s quiet keeps v l = ground arith
  run-ends (suc rounds) k s quiet keeps v l = elim (dequeue_cases (clock k) s v) [
    | inl (h, after) ↦ (s, [], run-stop rounds k s h, rw (add_zero k) after)
    | inr (id, func, tasks, e, h, due, behind) ↦
        (let t : Scheduler F = record s { tasks = tasks } in
          let (final, funcs, ran, done) =
            run-ends rounds (suc k) (effect func t) quiet keeps
              (keeps func t (rest-IsScheduled s id func tasks e v))
              (omega (arith, quiet func t, ap length e, l)) in
          (
            final,
            func ∷ funcs,
            run-step rounds k s t final func funcs h ran,
            rw (add_suc k (length funcs)) done,
          ))
  ]

  -- Tasks that leave the scheduler alone are run from the front of the queue, each once and when it
  -- is due, until the first one that is not: `run` ends after at most one round more than there are
  -- tasks, and the tasks that were run, followed by those that are left, are the tasks there were.
  pub run-order :
      (rounds k : ℕ) (s : Scheduler F)
      → ((func : F) (t : Scheduler F) → effect func t ≡ t)
      → IsScheduled s
      → length s.tasks < rounds
      → (ran : List (TaskIdentifier × F)) × (left : List (TaskIdentifier × F)) × (s.tasks
          ≡ ran ++ left)
        × (run effect clock rounds k s ≡ some (record s { tasks = left }, functions ran))
        × WereDue clock k ran
        × NotDue (clock (k + length ran)) left
  run-order zero k s still v l = ground arith
  run-order (suc rounds) k s still v l = elim (dequeue_cases (clock k) s v) [
    | inl (h, after) ↦ ([], s.tasks, refl, run-stop rounds k s h, tt, rw (add_zero k) after)
    | inr (id, func, tasks, e, h, due, behind) ↦
        (let t : Scheduler F = record s { tasks = tasks } in
          let (ran, left, parts, all, were, after) =
            run-order rounds (suc k) t still (rest-IsScheduled s id func tasks e v)
              (omega (arith, ap length e, l)) in
          (
            (id, func) ∷ ran,
            left,
            e ∙ ap (◌∷◌ (id, func)) parts,
            run-step rounds k s t (record s { tasks = left }) func (functions ran) h
                (rw (still func t) all),
            (due, were),
            rw (add_suc k (length ran)) after,
          ))
  ]
