-- ===== src/Process.antt =====
-- kernel/process.c: the process table.
pub mod Stacks
pub mod Slots
pub mod Create
pub mod Exit
mod Tests
use Prim.Native.Nat.{bit_or}
use mathlib.Core.Option
use v.Common.{
  ℕ, zero, suc, ◌+◌, ◌-◌, ◌*◌, ◌^◌, Bool, true, false, not, ◌||◌, List, [], ◌∷◌, Option, none, some,
  ◌==◌, ltb, leb, if◌then◌else◌, u32, u64, update, take,
}
use v.Pages.{PageSource, map_each}

-- MAX_PROCESSES
abbrev pub max_processes : ℕ
max_processes = 64

-- PROCESS_RUNNING, PROCESS_READY, PROCESS_BLOCKED and PROCESS_TERMINATED
pub data ProcessState : Type 0 where
  running ready blocked terminated : ProcessState

-- `struct registers` of kernel/registers.h.
pub record Registers : Type 0 where
  pub r15 : ℕ
  pub r14 : ℕ
  pub r13 : ℕ
  pub r12 : ℕ
  pub r11 : ℕ
  pub r10 : ℕ
  pub r9 : ℕ
  pub r8 : ℕ
  pub rdi : ℕ
  pub rsi : ℕ
  pub rbp : ℕ
  pub rdx : ℕ
  pub rcx : ℕ
  pub rbx : ℕ
  pub rax : ℕ
  pub rip : ℕ
  pub cs : ℕ
  pub rflags : ℕ
  pub rsp : ℕ
  pub ss : ℕ

-- `struct process`. The name is the text up to its terminating zero.
pub record Process : Type 0 where
  pub pid : ℕ
  pub state : ProcessState
  pub cr3 : ℕ
  pub user_stack : ℕ
  pub kernel_stack : ℕ
  pub context : Registers
  pub entry_point : ℕ
  pub heap_start : ℕ
  pub heap_end : ℕ
  pub heap_max : ℕ
  pub name : List ℕ
  pub parent_pid : ℕ
  pub child_count : ℕ

-- The static variables of process.c; the array is a function of the index.
pub record Table : Type 0 where
  pub processes : ℕ → Process
  pub process_count : ℕ
  pub current_pid : ℕ

unfoldable pub is_terminated : ProcessState → Bool
is_terminated terminated = true
is_terminated _ = false

-- The loop of `process_init` over the first `n` entries.
pub clear_processes : ℕ → (ℕ → Process) → ℕ → Process
clear_processes zero f = f
clear_processes (suc n) f =
    let g = clear_processes n f in update g n (record (g n) { pid = 0; state = terminated })

pub process_init : Table → Table
process_init t = record {
  processes = clear_processes max_processes t.processes;
  process_count = 0;
  current_pid = 0;
}

pub process_get_current : Table → Process
process_get_current t = t.processes t.current_pid

pub process_get_by_pid : Table → ℕ → Option Process
process_get_by_pid t pid =
    if leb max_processes pid
    then none
    else (if is_terminated (t.processes pid).state then none else some (t.processes pid))

-- The search for a free slot: `n` entries from `i` on; 0 where none is free.
pub find_slot : (n i : ℕ) → (ℕ → Process) → ℕ
find_slot zero i f = 0
find_slot (suc n) i f =
    let rest = find_slot n (i + 1) f in if is_terminated (f i).state then i else rest

-- USER_CODE_SEGMENT, USER_DATA_SEGMENT and RPL_USER of kernel/user_mode.h, and PAGE_USER.
abbrev user_code_segment : ℕ
user_code_segment = 0x18

abbrev user_data_segment : ℕ
user_data_segment = 0x20

abbrev rpl_user : ℕ
rpl_user = 0x03

abbrev page_user : ℕ
page_user = 0x04

-- The context that a process starts with.
pub initial_context : (entry_point user_stack : ℕ) → Registers
initial_context entry_point user_stack = record {
  r15 = 0;
  r14 = 0;
  r13 = 0;
  r12 = 0;
  r11 = 0;
  r10 = 0;
  r9 = 0;
  r8 = 0;
  rdi = 0;
  rsi = 0;
  rbp = 0;
  rdx = 0;
  rcx = 0;
  rbx = 0;
  rax = 0;
  rip = entry_point;
  cs = bit_or user_code_segment rpl_user;
  rflags = 0x202;
  rsp = user_stack;
  ss = bit_or user_data_segment rpl_user;
}

-- 0xFFFF800000000000 + (pid + 1) * 0x100000
pub kernel_stack_of : ℕ → ℕ
kernel_stack_of pid = u64 (0xFFFF800000000000 + u32 (u32 (pid + 1) * 0x100000))

-- 0x100000000 + pid * 0x100000
pub user_stack_of : ℕ → ℕ
user_stack_of pid = u64 (0x100000000 + u32 (pid * 0x100000))

-- The entry of a new process over what the slot `p` held.
pub fresh_process : (pid entry_point parent : ℕ) → List ℕ → Process → Process
fresh_process pid entry_point parent name p = record p {
  pid = pid;
  state = ready;
  entry_point = entry_point;
  parent_pid = parent;
  child_count = 0;
  name = take 31 name;
  kernel_stack = kernel_stack_of pid;
  user_stack = user_stack_of pid;
  context = initial_context entry_point (user_stack_of pid);
}

-- The two stacks of two pages each.
pub map_stacks : (pages : PageSource) → ℕ → pages.Memory → pages.Memory
map_stacks pages pid m =
    map_each pages 2 (u64 (user_stack_of pid + 2 ^ 64 - 8192)) (bit_or 0x07 page_user)
      (map_each pages 2 (u64 (kernel_stack_of pid + 2 ^ 64 - 8192)) 0x07 m)

-- `processes[current_pid].child_count++` for a parent that is not 0.
pub count_child : ℕ → (ℕ → Process) → ℕ → Process
count_child parent f =
    if parent == 0
    then f
    else update f parent (record (f parent) { child_count = u32 ((f parent).child_count + 1) })

-- The new process's PID, 0 where there is none, and the table and pages after the call.
pub process_create :
    (pages : PageSource) → Table → pages.Memory → ℕ → List ℕ → ℕ × Table × pages.Memory
process_create pages t m entry_point name =
    let pid = find_slot (max_processes - 1) 1 t.processes in
    if leb max_processes t.process_count || (pid == 0) then (0, t, m) else (
      pid,
      record t {
        processes = count_child t.current_pid (
            update t.processes pid
              (fresh_process pid entry_point t.current_pid name (t.processes pid)));
        process_count = u32 (t.process_count + 1);
      },
      map_stacks pages pid m,
    )

pub process_exit : Table → ℕ → Table
process_exit t pid =
    if leb max_processes pid || is_terminated (t.processes pid).state then t else record t {
      processes = update t.processes pid (record (t.processes pid) { state = terminated });
      process_count = u32 (t.process_count + 2 ^ 32 - 1);
    }

-- The save of the old context and the load of the new one are assembly.
pub process_switch : Table → Process → Table
process_switch t new_process = record t { current_pid = new_process.pid }
