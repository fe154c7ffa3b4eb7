-- ===== src/Scheduler.antt =====
-- kernel/scheduler.c and kernel/timer.c: the task table, the round-robin choice of the next task and
-- the timer interrupt that calls it. `context_switch` is assembly: a call of it is reported as the
-- pair of the tasks' indices.
pub mod Stacks
pub mod Rounds
pub mod Choice
pub mod Tasks
pub mod Fair
mod Tests
use mathlib.Core.Option
use v.Common.{
  ℕ, zero, suc, ◌+◌, ◌-◌, ◌*◌, ◌/◌, ◌%◌, ◌^◌, Bool, true, false, not, ◌&&◌, Option, none, some,
  ◌==◌, ltb, leb, if◌then◌else◌, u32, u64, update,
}
use v.Pages.{PageSource, map_each}

-- MAX_TASKS
abbrev pub max_tasks : ℕ
max_tasks = 64

-- TASK_RUNNING, TASK_READY, TASK_BLOCKED, TASK_SLEEPING and TASK_ZOMBIE
pub data TaskState : Type 0 where
  running ready blocked sleeping zombie : TaskState

-- The registers of `struct task`.
pub record Cpu : Type 0 where
  pub rsp : ℕ
  pub rip : ℕ
  pub rbp : ℕ
  pub rax : ℕ
  pub rbx : ℕ
  pub rcx : ℕ
  pub rdx : ℕ
  pub rsi : ℕ
  pub rdi : ℕ
  pub r8 : ℕ
  pub r9 : ℕ
  pub r10 : ℕ
  pub r11 : ℕ
  pub r12 : ℕ
  pub r13 : ℕ
  pub r14 : ℕ
  pub r15 : ℕ
  pub cs : ℕ
  pub ds : ℕ
  pub es : ℕ
  pub fs : ℕ
  pub gs : ℕ
  pub ss : ℕ
  pub rflags : ℕ

-- `struct task`
pub record Task : Type 0 where
  pub cpu : Cpu
  pub id : ℕ
  pub state : TaskState
  pub priority : ℕ
  pub ticks : ℕ
  pub sleep_ticks : ℕ

-- The static variables of scheduler.c; the array is a function of the index.
pub record Scheduler : Type 0 where
  pub tasks : ℕ → Task
  pub task_count : ℕ
  pub current_task : ℕ

-- The loop of `scheduler_init` over the first `n` entries.
pub clear_tasks : ℕ → (ℕ → Task) → ℕ → Task
clear_tasks zero f = f
clear_tasks (suc n) f =
    let g = clear_tasks n f in update g n (record (g n) { id = 0; state = zombie })

unfoldable pub scheduler_init : Scheduler → Scheduler
scheduler_init s = record {
  tasks = clear_tasks max_tasks s.tasks;
  task_count = 0;
  current_task = 0;
}

-- The registers that a task starts with: it runs `entry_point` on a stack of its own.
unfoldable pub initial_cpu : (entry_point task_id : ℕ) → Cpu
initial_cpu entry_point task_id = record {
  rsp = u64 (0xFFFF800000000000 + u32 ((task_id + 1) * 0x10000));
  rip = entry_point;
  rbp = 0;
  rax = 0;
  rbx = 0;
  rcx = 0;
  rdx = 0;
  rsi = 0;
  rdi = 0;
  r8 = 0;
  r9 = 0;
  r10 = 0;
  r11 = 0;
  r12 = 0;
  r13 = 0;
  r14 = 0;
  r15 = 0;
  cs = 0x08;
  ds = 0x10;
  es = 0x10;
  fs = 0x10;
  gs = 0x10;
  ss = 0x10;
  rflags = 0x202;
}

-- The 16 pages below `rsp` are mapped; a page that fails is passed over.
unfoldable pub scheduler_add_task :
    (pages : PageSource) → Scheduler → pages.Memory → ℕ → Scheduler × pages.Memory
scheduler_add_task pages s m entry_point = if leb max_tasks s.task_count then (s, m) else (
  record s {
    tasks = update s.tasks s.task_count (record {
      cpu = initial_cpu entry_point s.task_count;
      id = s.task_count;
      state = ready;
      priority = 1;
      ticks = 0;
      sleep_ticks = 0;
    });
    task_count = s.task_count + 1;
  },
  map_each pages 16 (u64 ((initial_cpu entry_point s.task_count).rsp + 2 ^ 64 - 0x10000)) 7 m,
)

pub scheduler_get_current_task : Scheduler → Task
scheduler_get_current_task s = s.tasks s.current_task

pub is_ready : TaskState → Bool
is_ready ready = true
is_ready _ = false

-- "Handle sleeping tasks", by the task's state.
pub wake_in : TaskState → Task → Task
wake_in sleeping t =
    let left = (if ltb 0 t.sleep_ticks then t.sleep_ticks - 1 else t.sleep_ticks) in
    if left == 0
    then record t { sleep_ticks = left; state = ready }
    else record t { sleep_ticks = left }
wake_in _ t = t

pub wake : Task → Task
wake t = wake_in t.state t

-- One round of the loop of `scheduler_schedule`.
pub advance : Scheduler → Scheduler
advance s =
    let next = u32 (s.current_task + 1) % s.task_count in
    record s { current_task = next; tasks = update s.tasks next (wake (s.tasks next)) }

-- The loop's test.
pub goes_on : ℕ → Scheduler → Bool
goes_on old s = not (is_ready (s.tasks s.current_task).state) && not (s.current_task == old)

-- The loop; `none` where the fuel runs out.
pub search_next : ℕ → ℕ → Scheduler → Option Scheduler
search_next zero old s = none
search_next (suc fuel) old s =
    let s1 = advance s in
    let rest = search_next fuel old s1 in if goes_on old s1 then rest else some s1

-- With the switch that it makes, from the task of the first index to that of the second.
pub report : ℕ → Scheduler → Scheduler × Option (ℕ × ℕ)
report old s = (s, (if s.current_task == old then none else some (old, s.current_task)))

-- A round visits another task, so the fuel is `task_count` rounds.
pub scheduler_schedule : Scheduler → Option (Scheduler × Option (ℕ × ℕ))
scheduler_schedule s =
    if leb s.task_count 1
    then some (s, none)
    else Option.map (report s.current_task) (search_next s.task_count s.current_task s)

pub scheduler_yield : Scheduler → Option (Scheduler × Option (ℕ × ℕ))
scheduler_yield s = scheduler_schedule s

-- The current task falls asleep.
abbrev pub doze : Scheduler → ℕ → Scheduler
doze s ticks = record s {
  tasks =
      update s.tasks s.current_task
        (record (s.tasks s.current_task) { state = sleeping; sleep_ticks = ticks });
}

unfoldable pub scheduler_sleep : Scheduler → ℕ → Option (Scheduler × Option (ℕ × ℕ))
scheduler_sleep s ticks =
    if s.task_count == 0 then some (s, none) else scheduler_schedule (doze s ticks)

-- The timer interrupt: the tick counter, and the scheduler on every fifth tick. It ends by one
-- `apic_eoi`.
unfoldable pub timer_callback : Scheduler → ℕ → Option (Scheduler × Option (ℕ × ℕ)) × ℕ
timer_callback s tick_count =
    let tick = u32 (tick_count + 1) in
    ((if (tick % 5) == 0 then scheduler_schedule s else some (s, none)), tick)
