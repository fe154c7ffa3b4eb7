-- ===== src/Start/Tests.antt =====
-- A start with devices that do nothing.
use v.Common.{ℕ, ◌+◌, ◌≡◌, ◌≢◌, refl, update, Bool, true, false, [], ◌∷◌, Option, none, some, arith}
use v.Pages.{endless}
use v.Heap.{
  Heap, heap_start, kmalloc, ensure_heap, ensure_blocks, take_ready, take_block, take_best, place,
  carve, find_best, better, align4,
}
use v.Heap.Alloc.{IsValid}
use v.Paging.{Paging}
use v.Pmm.{MemoryEntry}
use v.Interrupts.{Gate}
use v.Apic.{Mmio}
use v.Ata.{Ports}
use v.Scheduler.{Task, Cpu, TaskState, scheduler_sleep}
use v.Start.{Store, StartState, Given, kernel_start, test_memory_management, zero_bss, zero_words}
use v.Console.{Console}
use v.Process.{terminated, Process, Table, is_terminated, initial_context}
use v.Process.Slots.{in_use}
use v.Process.Create
use v.Handlers
use v.Handlers.{apic_isr_handler}
use v.Syscall.{Handler}
use v.Run.{System, machine, key_interrupt, main_loop_turn, key, turn, at_start, then_step}
use v.Run.Sound.{IsSound, Outside}
use v.Run.Begin.{begins, kernel_start-Reaches}
use v.Start.Messages.{greet, announce}
use v.Start.Memory.{Tested, test_memory_management_lem}
use v.Start.Ready.{Started, kernel_start-Started}

abbrev quiet : Mmio
quiet = record { Device = ℕ; read32 = λ a d. (0, d); write32 = λ a x d. d }

abbrev silent : Ports
silent = record {
  Device = ℕ;
  inb = λ port d. (0, d);
  outb = λ port x d. d;
  inw = λ port d. (0, d);
  outw = λ port x d. d;
}

abbrev no_heap : Heap
no_heap = record { blocks = []; heap_end = 0 }

abbrev entry : MemoryEntry
entry = record {
  base_low = 0;
  base_high = 0;
  length_low = 0x80000;
  length_high = 0;
  type = 1;
  acpi = 0;
}

abbrev given : Given
given = record {
  boot_info = record { signature = 0x1BADB002; entry_at = λ i. entry; memory_entries = 1 };
  isr = λ i. 0x10000 + i;
  apic_isr = λ i. 0x20000 + i;
  idt_address = 0x5000;
  mask1 = 0;
  mask2 = 0;
  msr_low = 0xFEE00900;
  msr_high = 0;
  task1 = 0x100000;
  task2 = 0x100100;
}

abbrev gate : Gate
gate = record {
  offset_low = 0;
  selector = 0;
  ist = 0;
  type_attr = 0;
  offset_mid = 0;
  offset_high = 0;
  reserved = 0;
}

abbrev cpu : Cpu
cpu = record {
  rsp = 0;
  rip = 0;
  rbp = 0;
  rax = 0;
  rbx = 0;
  rcx = 0;
  rdx = 0;
  rsi = 0;
  rdi = 0;
  r8 = 0;
  r9 = 0;
  r10 = 0;
  r11 = 0;
  r12 = 0;
  r13 = 0;
  r14 = 0;
  r15 = 0;
  cs = 0;
  ds = 0;
  es = 0;
  fs = 0;
  gs = 0;
  ss = 0;
  rflags = 0;
}

abbrev task : Task
task = record {
  cpu = cpu;
  id = 0;
  state = TaskState.running;
  priority = 0;
  ticks = 0;
  sleep_ticks = 0;
}

abbrev bare : Paging
bare = record { words = λ a. 0; pml4 = 0; next_free_page = 0x200000; bootstrap_memory_used = 0 }

abbrev before : StartState ℕ ℕ
before = record {
  memory_state = record {
    pmm = record {
      regions = λ i. record { base = 0; length = 0; kind = 0 };
      region_count = 0;
      total_memory = 0;
      free_memory = 0;
    };
    store = record { heap = no_heap; memory = bare; bytes = λ a. 0 };
    cr3 = 4096;
  };
  interrupts = record {
    descriptors = record { idt = λ i. gate; limit = 0; base = 0 };
    pic_writes = [];
    apic = 0;
    lapic_base = 0;
    enabled = false;
  };
  wires = 0;
  scheduler = record { tasks = λ i. task; task_count = 0; current_task = 0 };
}

kernel_start-Started_example :
    Started quiet silent 0x10000 given (kernel_start quiet silent 0x10000 given before)
kernel_start-Started_example = kernel_start-Started quiet silent 0x10000 given before refl

abbrev free_heap : Heap
free_heap = record {
  blocks = record { addr = heap_start; size = 1000; free = true } ∷ [];
  heap_end = heap_start + 1024;
}

free_heap-IsValid : IsValid free_heap
free_heap-IsValid = record { chain = omega arith; bound = omega arith; settled = (refl, tt) }

abbrev store : Store ℕ
store = record { heap = free_heap; memory = 4096; bytes = λ a. 0 }

test_memory_management_lem_example :
    Tested endless free_heap
      (free_heap.heap_end + 10485760)
      true
      (test_memory_management endless store)
unfolding kmalloc ensure_heap ensure_blocks take_ready take_block take_best place carve find_best
    better align4
test_memory_management_lem_example =
    test_memory_management_lem endless store free_heap-IsValid (omega arith)

-- The words at 8 and 12 are cleared.
clears :
    (zero_bss 8 14 (λ a. 5) 8 ≡ 0)
    × (zero_bss 8 14 (λ a. 5) 12 ≡ 0)
    × (zero_bss 8 14 (λ a. 5) 16 ≡ 5)
unfolding zero_bss zero_words
clears = (refl, refl, refl)

abbrev empty_slot : Process
empty_slot = record {
  pid = 0;
  state = terminated;
  cr3 = 0;
  user_stack = 0;
  kernel_stack = 0;
  context = initial_context 0 0;
  entry_point = 0;
  heap_start = 0;
  heap_end = 0;
  heap_max = 0;
  name = [];
  parent_pid = 0;
  child_count = 0;
}

abbrev no_processes : Table
no_processes = record { processes = λ i. empty_slot; process_count = 0; current_pid = 0 }

no_processes-IsValid : Create.IsValid no_processes
unfolding in_use is_terminated
no_processes-IsValid = record {
  counted = refl;
  idle = refl;
  current_in = omega arith;
  own_pid = λ i used. ground arith;
}

abbrev dark : Console
dark = record { row = 0; column = 0; color = 0; buffer = λ j. 0; ports = [] }

abbrev register : (ℕ → Option Handler) → ℕ → Handler → ℕ → Option Handler
register handlers n h = update handlers n (some h)

returns :
    (o : Option (Bool × StartState ℕ ℕ))
    → Started quiet silent 0x10000 given o
    → (passed : Bool) × (t : StartState ℕ ℕ) × (o ≡ some (passed, t))
returns none a = elim a [ ]
returns (some (passed, t)) a = (passed, t, refl)

-- How the start ends.
abbrev outcome :
    (passed : Bool) × (t : StartState ℕ ℕ) × (kernel_start quiet silent 0x10000 given before
      ≡ some (passed, t))
outcome =
    returns (kernel_start quiet silent 0x10000 given before)
      (kernel_start-Started quiet silent 0x10000 given before refl)

abbrev begun : System Paging
begun = begins (announce true (greet 0x1BADB002 dark)) no_processes (λ a. []) outcome.1

-- The key A, and the turn that shows it.
abbrev after_key : System Paging
after_key = main_loop_turn (key_interrupt 30 begun)

kernel_start-Reaches_example :
    IsSound after_key
    × ((int_no err_code : ℕ) → apic_isr_handler int_no err_code (machine after_key) ≢ Handlers.hung)
    × ((ticks : ℕ) → scheduler_sleep after_key.scheduler ticks ≢ none)
    × Outside dark after_key.console
kernel_start-Reaches_example =
    kernel_start-Reaches quiet silent 0x10000 register (λ handlers n h m. refl) (λ _. none) given
      before dark no_processes (λ a. []) 0x1BADB002 true refl no_processes-IsValid outcome.0
      outcome.1 outcome.2 after_key (then_step (then_step at_start (key 30)) turn)
