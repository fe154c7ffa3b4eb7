-- ===== src/Run/Tests.antt =====
-- A run of the kernel that makes a process and a task.
use v.Common.{ℕ, refl, none, [], ◌∷◌, ◌==◌, if◌then◌else◌, arith}
use v.Keyboard.{keyboard_start}
use v.Paging.{Paging, page_tables}
use v.Paging.Tree.{IsTree, IsValid}
use v.Paging.Each.{Grown}
use v.Scheduler.{Task, ready, initial_cpu, scheduler_add_task}
use v.Process.{terminated, Process, initial_context, process_create}
use v.Run.{System, created, added, at_start, then_step}
use v.Run.Tables.{Reaches-Grown}

abbrev pool : ℕ
pool = 0x10000

-- An empty PML4 at 4096.
abbrev bare : Paging
bare = record { words = λ a. 0; pml4 = 4096; next_free_page = 0x200000; bootstrap_memory_used = 0 }

bare-IsTree : IsTree pool bare (λ t. if t == 4096 then 4 else 0) (λ t. 0) (λ t. 0)
bare-IsTree = record {
  root = refl;
  aligned = λ t l. ground arith;
  child = λ t i k l b p. cc;
  pool_page = refl;
  used_page = refl;
  used_in = omega arith;
  fresh = λ t lo hi. ground arith;
}

bare-IsValid : IsValid pool bare
bare-IsValid = record {
  level = λ t. if t == 4096 then 4 else 0;
  parent = λ t. 0;
  place = λ t. 0;
  tree = bare-IsTree;
}

abbrev ready_task : Task
ready_task = record {
  cpu = initial_cpu 0 0;
  id = 0;
  state = ready;
  priority = 1;
  ticks = 0;
  sleep_ticks = 0;
}

abbrev empty_slot : Process
empty_slot = record {
  pid = 0;
  state = terminated;
  cr3 = 0;
  user_stack = 0;
  kernel_stack = 0;
  context = initial_context 0 0;
  entry_point = 0;
  heap_start = 0;
  heap_end = 0;
  heap_max = 0;
  name = [];
  parent_pid = 0;
  child_count = 0;
}

abbrev started : System Paging
started = record {
  keyboard = keyboard_start;
  console = record { row = 24; column = 79; color = 7; buffer = λ j. j; ports = [] };
  scheduler = record { tasks = λ i. ready_task; task_count = 2; current_task = 0 };
  tick_count = 4;
  eois = 0;
  table = record { processes = λ i. empty_slot; process_count = 0; current_pid = 0 };
  text_at = λ a. [];
  memory = bare;
}

-- A third task.
abbrev three : System Paging
three =
    let (tasks, m) = scheduler_add_task (page_tables pool) started.scheduler bare 0x5000 in
    record started { scheduler = tasks; memory = m }

-- And a process.
abbrev four : System Paging
four =
    let (pid, t, m) =
      process_create (page_tables pool) three.table three.memory 0x400000 (b'a' ∷ []) in
    record three { table = t; memory = m }

Reaches-Grown_example : Grown pool bare four.memory
Reaches-Grown_example =
    Reaches-Grown pool (λ _. none) started four
      (then_step (then_step at_start (added 0x5000)) (created 0x400000 (b'a' ∷ []))) bare-IsValid
