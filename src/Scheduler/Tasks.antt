-- ===== src/Scheduler/Tasks.antt =====
-- The task table of kernel/scheduler.c: its bounds, the stacks that it hands out, and what
-- `scheduler_sleep` does where no other task can run.
use v.Common.{
  ℕ, ◌+◌, ◌≤◌, ◌<◌, ◌≡◌, ◌≢◌, refl, sym, ap, ◌∙◌, inl, inr, true, false, Option, none, some, ltb,
  leb, if◌then◌else◌, arith, Bool-cases,
}
use v.Pages.{PageSource}
use v.Scheduler.{
  Task, ready, Scheduler, max_tasks, initial_cpu, scheduler_add_task, is_ready, wake, wake_in,
  scheduler_schedule, scheduler_sleep, doze,
}
use v.Scheduler.Rounds.{Stops, slot, visited}
use v.Scheduler.Choice.{IsValid, scheduler_schedule_chooses}
use v.Heap.{heap_start, heap_size}

few_lem : (s : Scheduler) → leb s.task_count 1 ≡ true → scheduler_schedule s ≡ some (s, none)
unfolding scheduler_schedule
few_lem s few = rw few

-- `scheduler_schedule` returns from every valid table, keeps the number of tasks, and leaves the
-- current task among them.
pub scheduler_schedule-IsValid :
    (s : Scheduler)
    → IsValid s
    → (r : Scheduler × Option (ℕ × ℕ)) × (scheduler_schedule s ≡ some r)
      × IsValid r.0
      × (r.0.task_count ≡ s.task_count)
scheduler_schedule-IsValid s v = elim (Bool-cases (leb s.task_count 1)) [
  | inl few ↦ ((s, none), few_lem s few, v, refl)
  | inr many ↦
      let (s', e, stops) = scheduler_schedule_chooses s v (ground arith) in
      (
        _,
        e,
        record { few = ground (arith, v.few); current_in = ground (arith, v.current_in) },
        stops.same_count,
      )
]

-- A new task goes to the first entry behind the others, ready to run; the others are untouched, and a
-- full table stays as it is.
pub scheduler_add_task_lem :
    (pages : PageSource) (s : Scheduler) (m : pages.Memory) (entry_point : ℕ)
    → s.task_count ≤ max_tasks
    → let s' = (scheduler_add_task pages s m entry_point).0 in
      (s'.task_count ≡ (if ltb s.task_count max_tasks then s.task_count + 1 else s.task_count))
      × (s'.task_count ≤ max_tasks)
      × (s.task_count < max_tasks
          → ((s'.tasks s.task_count).state ≡ ready)
            × ((s'.tasks s.task_count).cpu.rip ≡ entry_point)
            × ((s'.tasks s.task_count).id ≡ s.task_count))
      × ((i : ℕ) → i < s.task_count → s'.tasks i ≡ s.tasks i)
unfolding scheduler_add_task initial_cpu
scheduler_add_task_lem pages s m entry_point h = (
  ground arith,
  ground arith,
  λ room. (ground arith, ground arith, ground arith),
  λ i lt. ground arith,
)

-- The stack of every task that can be added lies inside the 4 MB that `kmalloc` maps for the heap.
pub task_stack_in_heap :
    (pages : PageSource) (s : Scheduler) (m : pages.Memory) (entry_point : ℕ)
    → s.task_count < max_tasks
    → let top = ((scheduler_add_task pages s m entry_point).0.tasks s.task_count).cpu.rsp in
      (heap_start + 0x10000 ≤ top) × (top ≤ heap_start + heap_size)
unfolding scheduler_add_task initial_cpu
task_stack_in_heap pages s m entry_point h = (ground arith, ground arith)

pub doze-IsValid : (s : Scheduler) (ticks : ℕ) → IsValid s → IsValid (doze s ticks)
doze-IsValid s ticks v = record { few = v.few; current_in = v.current_in }

-- The sleeper itself, counted down once.
dozing_not_ready :
    (s : Scheduler) (ticks : ℕ)
    → 2 ≤ ticks
    → (is_ready ((doze s ticks).tasks s.current_task).state ≡ false)
      × (is_ready (wake ((doze s ticks).tasks s.current_task)).state ≡ false)
unfolding wake wake_in is_ready
dozing_not_ready s ticks two = (ground arith, ground arith)

others_same :
    (s : Scheduler) (ticks i : ℕ) → i ≢ s.current_task → (doze s ticks).tasks i ≡ s.tasks i
others_same s ticks i h = ground arith

-- Round `r` comes back to `old` only after all `n` tasks.
slot_back : (n old r : ℕ) → old < n → 0 < r → r < n → slot n old r ≢ old
slot_back n old r h hr hn = ground arith

slot-visited : (n old r : ℕ) → old < n → 0 < r → r ≤ n → visited n old 0 r (slot n old r) ≡ true
slot-visited n old r h hr hn = ground arith

slot-lt : (n old r : ℕ) → old < n → r ≤ n → slot n old r < n
slot-lt n old r h hr = ground arith

slot_all : (n old : ℕ) → old < n → slot n old n ≡ old
slot_all n old h = ground arith

module _ (s s' : Scheduler) (ticks : ℕ) (v : IsValid s) (two : 2 ≤ ticks)
    (alone : (i : ℕ)
      → i < s.task_count
      → i ≢ s.current_task
      → is_ready (wake (s.tasks i)).state ≡ false)
    (stops : Stops s.task_count s.current_task 0 (doze s ticks) s') where
  -- Where the search stops, the task has been woken from the state that it was found in.
  stopped_at :
      s'.tasks s'.current_task
      ≡ wake ((doze s ticks).tasks (slot s.task_count s.current_task stops.round))
  stopped_at =
      ap s'.tasks stops.current
      ∙ stops.woken (slot s.task_count s.current_task stops.round)
      ∙ rw (
          slot-visited s.task_count s.current_task stops.round v.current_in (omega arith)
            stops.at_most)

  not_early : stops.round < s.task_count → is_ready (s'.tasks s'.current_task).state ≡ false
  not_early early =
      let elsewhere =
        slot_back s.task_count s.current_task stops.round v.current_in (omega arith) early in
      ap (λ (t : Task). is_ready t.state) stopped_at
      ∙ ap (λ (t : Task). is_ready (wake t).state)
          (others_same s ticks (slot s.task_count s.current_task stops.round) elsewhere)
      ∙ alone (slot s.task_count s.current_task stops.round)
          (slot-lt s.task_count s.current_task stops.round v.current_in stops.at_most) elsewhere

  all_rounds : stops.round ≡ s.task_count
  all_rounds = elim stops.choice [
    | inl awake ↦ elim (Bool-cases (ltb stops.round s.task_count)) [
      | inl early ↦ cc (not_early (ground arith))
      | inr full ↦ ground (arith, stops.at_most)
    ]
    | inr full ↦ full
  ]

  back : s'.current_task ≡ s.current_task
  back =
      stops.current
      ∙ ap (λ (r : ℕ). slot s.task_count s.current_task r) all_rounds
      ∙ slot_all s.task_count s.current_task v.current_in

  still_asleep : is_ready (s'.tasks s.current_task).state ≡ false
  still_asleep =
      ap (λ (i : ℕ). is_ready (s'.tasks i).state) (sym back)
      ∙ ap (λ (t : Task). is_ready t.state) stopped_at
      ∙ ap (λ (i : ℕ). is_ready (wake ((doze s ticks).tasks i)).state) (sym stops.current ∙ back)
      ∙ (dozing_not_ready s ticks two).1

pub sleep_schedules :
    (s : Scheduler) (ticks : ℕ)
    → IsValid s
    → scheduler_sleep s ticks ≡ scheduler_schedule (doze s ticks)
unfolding scheduler_sleep
sleep_schedules s ticks v = ground (arith, v.current_in)

-- Where no other task is ready even after its sleep is counted down, `scheduler_sleep` for two ticks
-- or more returns to its caller with no switch, and leaves the caller's own task not ready.
pub scheduler_sleep_returns :
    (s : Scheduler) (ticks : ℕ)
    → IsValid s
    → 2 ≤ ticks
    → ((i : ℕ) → i < s.task_count → i ≢ s.current_task → is_ready (wake (s.tasks i)).state ≡ false)
    → (s' : Scheduler) × (scheduler_sleep s ticks ≡ some (s', none))
      × (s'.current_task ≡ s.current_task)
      × (is_ready (s'.tasks s.current_task).state ≡ false)
scheduler_sleep_returns s ticks v two alone = elim (Bool-cases (leb s.task_count 1)) [
  | inl few ↦ (
    doze s ticks,
    sleep_schedules s ticks v ∙ few_lem (doze s ticks) few,
    refl,
    (dozing_not_ready s ticks two).0,
  )
  | inr many ↦
      let (s', e, stops) =
        scheduler_schedule_chooses (doze s ticks) (doze-IsValid s ticks v) (ground arith) in
      (
        s',
        sleep_schedules s ticks v ∙ e ∙ rw (back s s' ticks v two alone stops) (ground arith),
        back s s' ticks v two alone stops,
        still_asleep s s' ticks v two alone stops,
      )
]
