-- ===== src/Scheduler/Order.antt =====
-- Tasks are kept in order, and no task is run before its time or before an earlier one.
use legio.Prelude.{
  inr, lt→ltb, ℕ, suc, ◌≤◌, ◌<◌, ◌≡◌, refl, true, false, ◌&&◌, ◌==◌, ltb, List, [], ◌∷◌, none, some,
  All, arith, Bool-cases, ◌⊎◌, inl, ◌∙◌,
}
use legio.Prelude.Int.{int_max}
use legio.Scheduler.{
  TaskIdentifier, before, Scheduler, emplace_task, schedule, erase_task, cancel, dequeue,
  dequeue_at,
}

before_trans : (a b d : TaskIdentifier) → before a b ≡ true → before b d ≡ true → before a d ≡ true
unfolding before
before_trans a b d h k = ground arith

before-lt : (t t' n n' : ℕ) → n' < n → before (t, n) (t', n') ≡ ltb t t'
unfolding before
before-lt t t' n n' h = ground arith

before-ge : (t t' n n' : ℕ) → n' < n → ltb t t' ≡ false → before (t', n') (t, n) ≡ true
unfolding before
before-ge t t' n n' h e = ground arith

different : (t t' n n' : ℕ) → n' < n → (t == t' && n == n') ≡ false
different t t' n n' h = ground arith

before-le : (a b : TaskIdentifier) → before a b ≡ true → a.0 ≤ b.0
unfolding before
before-le a b h = ground arith

module _ {F : Type 0} where
  -- The keys ascend, and their numbers were given out.
  abbrev pub IsOrdered : List (TaskIdentifier × F) → Type 0
  IsOrdered [] = Unit {0}
  IsOrdered ((id, func) ∷ tasks) = All (λ task. before id task.0 ≡ true) tasks × IsOrdered tasks

  all_after :
      (a b : TaskIdentifier) (tasks : List (TaskIdentifier × F))
      → before a b ≡ true
      → All (λ task. before b task.0 ≡ true) tasks
      → All (λ task. before a task.0 ≡ true) tasks
  all_after a b [] h k = tt
  all_after a b ((d, func) ∷ tasks) h k = (before_trans a b d h k.0, all_after a b tasks h k.1)

  emplace_after :
      (a id : TaskIdentifier) (func : F) (tasks : List (TaskIdentifier × F))
      → before a id ≡ true
      → All (λ task. before a task.0 ≡ true) tasks
      → All (λ task. before a task.0 ≡ true) (emplace_task id func tasks)
  unfolding emplace_task
  emplace_after a id func [] h k = (h, tt)
  emplace_after a id func ((d, g) ∷ tasks) h k = ground (arith, emplace_after a id func tasks h k.1)

  emplace-IsOrdered :
      (id : TaskIdentifier) (func : F) (tasks : List (TaskIdentifier × F))
      → IsOrdered tasks
      → IsOrdered (emplace_task id func tasks)
  unfolding emplace_task
  emplace-IsOrdered id func [] h = (tt, tt)
  emplace-IsOrdered id func ((d, g) ∷ tasks) h = elim (Bool-cases (before id d)) [
    | inl e ↦ rw e ((e, all_after id d tasks e h.0), h)
    | inr e ↦ elim (Bool-cases (before d id)) [
      | inl k ↦ rw (e, k) (emplace_after d id func tasks k h.0, emplace-IsOrdered id func tasks h.1)
      | inr k ↦ rw (e, k) h
    ]
  ]

  -- The tasks stand in the order of their keys, and their numbers are below the next one.
  pub record IsScheduled (s : Scheduler F) : Type 0 where
    pub ordered : IsOrdered s.tasks
    pub numbered : All (λ task. task.0.1 < s.next_task_number) s.tasks

  emplace_numbered :
      (n : ℕ) (id : TaskIdentifier) (func : F) (tasks : List (TaskIdentifier × F))
      → id.1 < n
      → All (λ task. task.0.1 < n) tasks
      → All (λ task. task.0.1 < n) (emplace_task id func tasks)
  unfolding emplace_task
  emplace_numbered n id func [] h k = (h, tt)
  emplace_numbered n id func ((d, g) ∷ tasks) h k =
      ground (arith, emplace_numbered n id func tasks h k.1)

  raise :
      (m n : ℕ) (tasks : List (TaskIdentifier × F))
      → m ≤ n
      → All (λ task. task.0.1 < m) tasks
      → All (λ task. task.0.1 < n) tasks
  raise m n [] h k = tt
  raise m n (task ∷ tasks) h k = (omega (arith, h, k.0), raise m n tasks h k.1)

  -- The state that `schedule` leaves.
  abbrev scheduled : Scheduler F → ℕ → F → Scheduler F
  scheduled s time func = record s {
    tasks = emplace_task (time, s.next_task_number) func s.tasks;
    next_task_number = suc s.next_task_number;
  }

  scheduled-IsScheduled :
      (s : Scheduler F) (time : ℕ) (func : F) → IsScheduled s → IsScheduled (scheduled s time func)
  scheduled-IsScheduled s time func v = record {
    ordered = emplace-IsOrdered (time, s.next_task_number) func s.tasks v.ordered;
    numbered =
        emplace_numbered (suc s.next_task_number) (time, s.next_task_number) func s.tasks
          (omega arith)
          (raise s.next_task_number (suc s.next_task_number) s.tasks (omega arith) v.numbered);
  }

  erase-emplace :
      (t n : ℕ) (func : F) (tasks : List (TaskIdentifier × F))
      → All (λ task. task.0.1 < n) tasks
      → erase_task (t, n) (emplace_task (t, n) func tasks) ≡ (tasks, true)
  unfolding erase_task emplace_task
  erase-emplace t n func [] h = ground arith
  erase-emplace t n func (((t', n'), g) ∷ tasks) h = elim (Bool-cases (ltb t t')) [
    | inl e ↦ rw (before-lt t t' n n' h.0 ∙ e) (ground arith)
    | inr e ↦
        rw (before-lt t t' n n' h.0 ∙ e, before-ge t t' n n' h.0 e, different t t' n n' h.0)
          (rw (erase-emplace t n func tasks h.1) (λ i. (((t', n'), g) ∷ tasks, true)))
  ]

  -- While the numbers last, a task can be scheduled: the tasks are in order again, and cancelling it by
  -- the identifier that was returned leaves the tasks what they were, with its number used up.
  pub cancel-schedule :
      (s : Scheduler F) (time : ℕ) (func : F)
      → IsScheduled s
      → s.next_task_number < int_max
      → (s' : Scheduler F) × (id : TaskIdentifier) × (schedule s time func ≡ some (s', id))
        × IsScheduled s'
        × (cancel s' id ≡ (record s { next_task_number = suc s.next_task_number }, true))
  unfolding cancel schedule
  cancel-schedule s time func v h = (
    scheduled s time func,
    (time, s.next_task_number),
    rw (lt→ltb s.next_task_number int_max h) refl,
    scheduled-IsScheduled s time func v,
    rw (erase-emplace time s.next_task_number func s.tasks v.numbered)
        (λ i. (record s { next_task_number = suc s.next_task_number }, true)),
  )

  later :
      (now : ℕ) (id : TaskIdentifier) (tasks : List (TaskIdentifier × F))
      → now < id.0
      → All (λ task. before id task.0 ≡ true) tasks
      → All (λ task. now < task.0.0) tasks
  later now id [] h k = tt
  later now id ((d, g) ∷ tasks) h k =
      (omega (arith, h, before-le id d k.0), later now id tasks h k.1)

  dequeue_at_cases :
      (now : ℕ) (s : Scheduler F) (tasks : List (TaskIdentifier × F))
      → IsOrdered tasks
      → ((dequeue_at now s tasks ≡ (s, none)) × All (λ task. now < task.0.0) tasks)
        ⊎ ((id : TaskIdentifier) × (func : F) × (rest : List (TaskIdentifier × F)) × (tasks
              ≡ (id, func) ∷ rest)
            × (dequeue_at now s tasks ≡ (record s { tasks = rest }, some func))
            × (id.0 ≤ now)
            × All (λ task. before id task.0 ≡ true) rest)
  unfolding dequeue_at
  dequeue_at_cases now s [] h = inl (refl, tt)
  dequeue_at_cases now s (((t, n), g) ∷ tasks) h = elim (Bool-cases (ltb now t)) [
    | inl e ↦
        inl (
          rw e (λ i. (s, none)),
          (ground (arith, e), later now (t, n) tasks (ground (arith, e)) h.0),
        )
    | inr e ↦ inr (
      (t, n),
      g,
      tasks,
      refl,
      rw e (λ i. (record s { tasks = tasks }, some g)),
      ground (arith, e),
      h.0,
    )
  ]

  -- Either no task is due and none is taken, or the first task is: it is due, it leaves the queue, and
  -- every task that stays comes after it.
  pub dequeue_cases :
      (now : ℕ) (s : Scheduler F)
      → IsScheduled s
      → ((dequeue now s ≡ (s, none)) × All (λ task. now < task.0.0) s.tasks)
        ⊎ ((id : TaskIdentifier) × (func : F) × (rest : List (TaskIdentifier × F)) × (s.tasks
              ≡ (id, func) ∷ rest)
            × (dequeue now s ≡ (record s { tasks = rest }, some func))
            × (id.0 ≤ now)
            × All (λ task. before id task.0 ≡ true) rest)
  unfolding dequeue
  dequeue_cases now s v = dequeue_at_cases now s s.tasks v.ordered
