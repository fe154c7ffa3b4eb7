-- ===== src/Run.antt =====
-- The kernel after its start: what the tasks and the main loop of kernel/kernel_loader.c, the interrupt
-- handlers, the system calls, and the callers of process_create and scheduler_add_task do to its parts, one
-- at a time. A call of one of them is a step: a task switch in the middle of a call is not in the model.
pub mod Sound
pub mod Begin
pub mod Tables
mod Tests
use v.Common.{ℕ, suc, ◌≡◌, List, [], ◌∷◌, Option, some}
use v.Pages.{PageSource}
use v.Console.{Console, console_putchar, console_write}
use v.Keyboard.{Keyboard, keyboard_handler, main_turn}
use v.Scheduler.{Scheduler, scheduler_sleep, scheduler_add_task}
use v.Process.{Table, process_create}
use v.Handlers.{Machine, apic_isr_handler}
use v.Handlers
use v.Syscall.{Kernel, Handler, syscall_dispatch}
use v.Syscall

pub record System (Memory : Type 0) : Type 0 where
  pub keyboard : Keyboard
  pub console : Console
  pub scheduler : Scheduler
  pub tick_count : ℕ
  pub eois : ℕ
  pub table : Table
  pub text_at : ℕ → List ℕ
  pub memory : Memory

-- What the interrupt handlers see of it, and what they leave.
abbrev pub machine : {M : Type 0} → System M → Machine
machine s = record {
  console = s.console;
  scheduler = s.scheduler;
  tick_count = s.tick_count;
  eois = s.eois;
}

abbrev pub with_machine : {M : Type 0} → Machine → System M → System M
with_machine m s = record s {
  console = m.console;
  scheduler = m.scheduler;
  tick_count = m.tick_count;
  eois = m.eois;
}

-- The same for the system calls.
abbrev pub kernel : {M : Type 0} → System M → Kernel
kernel s = record { console = s.console; table = s.table; text_at = s.text_at }

abbrev pub with_kernel : {M : Type 0} → Kernel → System M → System M
with_kernel k s = record s { console = k.console; table = k.table; text_at = k.text_at }

-- The keyboard's interrupt, with its EOI.
pub key_interrupt : {M : Type 0} → ℕ → System M → System M
key_interrupt scancode s = record s {
  keyboard = keyboard_handler s.keyboard scancode;
  eois = suc s.eois;
}

-- Characters one after the other.
pub put_all : List ℕ → Console → Console
put_all [] c = c
put_all (x ∷ xs) c = put_all xs (console_putchar c x)

-- One turn of the main loop.
pub main_loop_turn : {M : Type 0} → System M → System M
main_loop_turn s =
    let (typed, k) = main_turn s.keyboard in
    record s { keyboard = k; console = put_all typed s.console }

-- One turn of `task1` or `task2`, up to its sleep: the text that it writes.
pub task_text : {M : Type 0} → List ℕ → System M → System M
task_text text s = record s { console = console_write s.console text }

-- A step of the kernel, over the handlers of the system calls.
pub data Step (pages : PageSource) (handlers : ℕ → Option Handler)
    : System pages.Memory → System pages.Memory → Type 0 where
  key : {s : System pages.Memory} (scancode : ℕ) → Step pages handlers s (key_interrupt scancode s)
  turn : {s : System pages.Memory} → Step pages handlers s (main_loop_turn s)
  wrote : {s : System pages.Memory} (text : List ℕ) → Step pages handlers s (task_text text s)
  slept :
      {s : System pages.Memory} {sleeping : Scheduler} {switch : Option (ℕ × ℕ)} (ticks : ℕ)
      → scheduler_sleep s.scheduler ticks ≡ some (sleeping, switch)
      → Step pages handlers s (record s { scheduler = sleeping })
  interrupted :
      {s : System pages.Memory} {m : Machine} (int_no err_code : ℕ)
      → apic_isr_handler int_no err_code (machine s) ≡ Handlers.returned m
      → Step pages handlers s (with_machine m s)
  switched :
      {s : System pages.Memory} {m : Machine} {switch : ℕ × ℕ} (int_no err_code : ℕ)
      → apic_isr_handler int_no err_code (machine s) ≡ Handlers.switched switch m
      → Step pages handlers s (with_machine m s)
  called :
      {s : System pages.Memory} {k : Kernel} {result : ℕ} (n a1 a2 a3 a4 a5 a6 : ℕ)
      → syscall_dispatch handlers n (kernel s) a1 a2 a3 a4 a5 a6 ≡ Syscall.returned result k
      → Step pages handlers s (with_kernel k s)
  created :
      {s : System pages.Memory} (entry_point : ℕ) (name : List ℕ)
      → Step pages handlers s (
          let (pid, t, m) = process_create pages s.table s.memory entry_point name in
          record s { table = t; memory = m })
  added :
      {s : System pages.Memory} (entry_point : ℕ)
      → Step pages handlers s (
          let (tasks, m) = scheduler_add_task pages s.scheduler s.memory entry_point in
          record s { scheduler = tasks; memory = m })

-- Any number of steps.
pub data Reaches (pages : PageSource) (handlers : ℕ → Option Handler) (s : System pages.Memory)
    : System pages.Memory → Type 0 where
  at_start : Reaches pages handlers s s
  then_step :
      {t u : System pages.Memory}
      → Reaches pages handlers s t
      → Step pages handlers t u
      → Reaches pages handlers s u
