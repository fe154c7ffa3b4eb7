-- ===== src/Scheduler/Tests.antt =====
-- Runs of the scheduler at concrete tables, and the theorems at them.
use mathlib.Core.Option
use v.Common.{
  ℕ, zero, suc, ◌+◌, ◌≤◌, ◌<◌, ◌≡◌, ◌≢◌, refl, false, Option, none, some, ◌==◌, if◌then◌else◌,
  arith,
}
use v.Pages.{endless}
use v.Heap.{heap_start, heap_size}
use v.Scheduler.{
  Task, TaskState, ready, sleeping, Scheduler, initial_cpu, scheduler_add_task, is_ready, wake,
  wake_in, advance, goes_on, search_next, report, scheduler_schedule, scheduler_sleep, max_tasks,
  timer_callback,
}
use v.Scheduler.Fair.{here, turn, scheduler_schedule_fair}
use v.Scheduler.Rounds.{Stops}
use v.Scheduler.Choice.{IsValid, scheduler_schedule_chooses}
use v.Scheduler.Tasks.{scheduler_add_task_lem, task_stack_in_heap, scheduler_sleep_returns}

abbrev task_of : TaskState → ℕ → Task
task_of st n = record {
  cpu = initial_cpu 0 0;
  id = 0;
  state = st;
  priority = 1;
  ticks = 0;
  sleep_ticks = n;
}

-- Task 0 runs, task 1 sleeps for two more visits, task 2 and those behind it are ready.
abbrev three_tasks : ℕ → Task
three_tasks zero = task_of ready 0
three_tasks (suc zero) = task_of sleeping 2
three_tasks (suc (suc i)) = task_of ready 0

abbrev sample : Scheduler
sample = record { tasks = three_tasks; task_count = 3; current_task = 0 }

-- The same table with every other task asleep.
abbrev two_asleep : ℕ → Task
two_asleep zero = task_of ready 0
two_asleep (suc i) = task_of sleeping 9

abbrev lonely : Scheduler
lonely = record { tasks = two_asleep; task_count = 2; current_task = 0 }

-- The sleeper is passed over and counted down; task 2 is chosen.
passes_over :
    Option.map {B = Option (ℕ × ℕ) × ℕ}
      (λ r. (r.1, (r.0.tasks 1).sleep_ticks))
      (scheduler_schedule sample)
    ≡ some (some (0, 2), 1)
unfolding scheduler_schedule search_next advance goes_on report wake wake_in is_ready
passes_over = refl

-- The fifth tick calls the scheduler, the fourth does not.
fifth_tick :
    (Option.map (λ (r : Scheduler × Option (ℕ × ℕ)). r.1) (timer_callback sample 4).0
      ≡ some (some (0, 2)))
    × ((timer_callback sample 3).0 ≡ some (sample, none))
unfolding timer_callback scheduler_schedule search_next advance goes_on report wake wake_in is_ready
fifth_tick = (refl, refl)

sample-IsValid : IsValid sample
sample-IsValid = omega arith

lonely-IsValid : IsValid lonely
lonely-IsValid = omega arith

scheduler_schedule_chooses_example :
    (s' : Scheduler) × (scheduler_schedule sample
      ≡ some (s', (if s'.current_task == 0 then none else some (0, s'.current_task))))
    × Stops 3 0 0 sample s'
scheduler_schedule_chooses_example = scheduler_schedule_chooses sample sample-IsValid (omega arith)

scheduler_add_task_lem_example :
    let s' = (scheduler_add_task endless sample 4096 0x1000).0 in
    (s'.task_count ≡ 4)
    × (s'.task_count ≤ max_tasks)
    × (3 < max_tasks
        → ((s'.tasks 3).state ≡ ready) × ((s'.tasks 3).cpu.rip ≡ 0x1000) × ((s'.tasks 3).id ≡ 3))
    × ((i : ℕ) → i < 3 → s'.tasks i ≡ three_tasks i)
scheduler_add_task_lem_example = scheduler_add_task_lem endless sample 4096 0x1000 (omega arith)

task_stack_in_heap_example :
    let top = ((scheduler_add_task endless sample 4096 0x1000).0.tasks 3).cpu.rsp in
    (heap_start + 0x10000 ≤ top) × (top ≤ heap_start + heap_size)
task_stack_in_heap_example = task_stack_in_heap endless sample 4096 0x1000 (omega arith)

lonely_others : (i : ℕ) → i < 2 → i ≢ 0 → is_ready (wake (two_asleep i)).state ≡ false
unfolding is_ready wake wake_in
lonely_others zero h e = absurd (e refl)
lonely_others (suc i) h e = refl

scheduler_sleep_returns_example :
    (s' : Scheduler) × (scheduler_sleep lonely 10 ≡ some (s', none))
    × (s'.current_task ≡ 0)
    × (is_ready (s'.tasks 0).state ≡ false)
scheduler_sleep_returns_example =
    scheduler_sleep_returns lonely 10 lonely-IsValid (omega arith) lonely_others

-- Three ready tasks: task 1 is chosen before task 2.
abbrev all_ready : Scheduler
all_ready = record sample { tasks = λ i. record (three_tasks i) { state = ready } }

all_ready-IsValid : IsValid all_ready
all_ready-IsValid = omega arith

passes_once :
    Option.map {B = ℕ}
      (λ (r : Scheduler × Option (ℕ × ℕ)). r.0.current_task)
      (scheduler_schedule all_ready)
    ≡ some 1
unfolding scheduler_schedule search_next advance goes_on report wake wake_in is_ready
passes_once = refl

scheduler_schedule_fair_example : 1 + 2 ≤ all_ready.task_count
unfolding scheduler_schedule search_next advance goes_on report wake wake_in is_ready
scheduler_schedule_fair_example =
    scheduler_schedule_fair 2 1 all_ready _ all_ready-IsValid (omega arith) (omega arith)
      (λ e. omega (arith, e)) refl (turn refl (λ e. omega (arith, e)) here)
