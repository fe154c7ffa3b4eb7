-- ===== src/Syscall.antt =====
-- kernel/syscall.c: the handlers of the system calls and their dispatch, over the console and the
-- process table. `syscall_register` is declared in kernel/syscall.h and defined nowhere: a parameter.
pub mod Keeps
mod Tests
use v.Common.{
  ℕ, zero, suc, ◌+◌, ◌-◌, ◌^◌, Option, none, some, List, [], ◌∷◌, ◌==◌, leb, not, ◌||◌,
  if◌then◌else◌, update,
}
use v.Console.{Console, console_write}
use v.Process.{Table, process_get_current, process_exit}

-- MAX_SYSCALLS
abbrev pub max_syscalls : ℕ
max_syscalls = 128

-- What the handlers work on: the console, the processes, and the text at each address of the user.
pub record Kernel : Type 0 where
  pub console : Console
  pub table : Table
  pub text_at : ℕ → List ℕ

-- A handler returns a value, or stops the processor for ever.
pub data Reply : Type 0 where
  returned : ℕ → Kernel → Reply
  halted : Kernel → Reply

-- syscall_handler_t, with the state.
abbrev pub Handler : Type 0
Handler = Kernel → (a1 a2 a3 a4 a5 a6 : ℕ) → Reply

-- -1 as a uint64_t.
abbrev pub failure : ℕ
failure = 2 ^ 64 - 1

-- `console_write` on the kernel's console.
pub say : List ℕ → Kernel → Kernel
say text k = record k { console = console_write k.console text }

abbrev pub exit_opening : List ℕ
exit_opening =
    b'S' ∷ b'y' ∷ b's' ∷ b't' ∷ b'e' ∷ b'm' ∷ b' ' ∷ b'c' ∷ b'a' ∷ b'l' ∷ b'l' ∷ b':' ∷ b' ' ∷ b'e'
    ∷ b'x' ∷ b'i' ∷ b't' ∷ b'(' ∷ []

abbrev pub sleep_opening : List ℕ
sleep_opening =
    b'S' ∷ b'y' ∷ b's' ∷ b't' ∷ b'e' ∷ b'm' ∷ b' ' ∷ b'c' ∷ b'a' ∷ b'l' ∷ b'l' ∷ b':' ∷ b' ' ∷ b's'
    ∷ b'l' ∷ b'e' ∷ b'e' ∷ b'p' ∷ b'(' ∷ []

abbrev pub closing : List ℕ
closing = b')' ∷ 10 ∷ []

abbrev pub yield_message : List ℕ
yield_message =
    b'S' ∷ b'y' ∷ b's' ∷ b't' ∷ b'e' ∷ b'm' ∷ b' ' ∷ b'c' ∷ b'a' ∷ b'l' ∷ b'l' ∷ b':' ∷ b' ' ∷ b'y'
    ∷ b'i' ∷ b'e' ∷ b'l' ∷ b'd' ∷ b'(' ∷ b')' ∷ 10 ∷ []

abbrev pub invalid_message : List ℕ
invalid_message =
    b'E' ∷ b'R' ∷ b'R' ∷ b'O' ∷ b'R' ∷ b':' ∷ b' ' ∷ b'I' ∷ b'n' ∷ b'v' ∷ b'a' ∷ b'l' ∷ b'i' ∷ b'd'
    ∷ b' ' ∷ b's' ∷ b'y' ∷ b's' ∷ b't' ∷ b'e' ∷ b'm' ∷ b' ' ∷ b'c' ∷ b'a' ∷ b'l' ∷ b'l' ∷ b' '
    ∷ b'n' ∷ b'u' ∷ b'm' ∷ b'b' ∷ b'e' ∷ b'r' ∷ 10 ∷ []

abbrev pub missing_message : List ℕ
missing_message =
    b'E' ∷ b'R' ∷ b'R' ∷ b'O' ∷ b'R' ∷ b':' ∷ b' ' ∷ b'N' ∷ b'o' ∷ b' ' ∷ b'h' ∷ b'a' ∷ b'n' ∷ b'd'
    ∷ b'l' ∷ b'e' ∷ b'r' ∷ b' ' ∷ b'f' ∷ b'o' ∷ b'r' ∷ b' ' ∷ b's' ∷ b'y' ∷ b's' ∷ b't' ∷ b'e'
    ∷ b'm' ∷ b' ' ∷ b'c' ∷ b'a' ∷ b'l' ∷ b'l' ∷ 10 ∷ []

-- `process_get_current` never gives a null pointer.
pub sys_exit : Handler
sys_exit k status a2 a3 a4 a5 a6 =
    let k1 = say closing (say exit_opening k) in
    halted (record k1 { table = process_exit k1.table (process_get_current k1.table).pid })

pub sys_write : Handler
sys_write k fd buf count a4 a5 a6 =
    if not (fd == 1) || (buf == 0)
    then returned failure k
    else returned count (say (k.text_at buf) k)

pub sys_read : Handler
sys_read k fd buf count a4 a5 a6 = returned failure k

pub sys_open : Handler
sys_open k filename flags mode a4 a5 a6 = returned failure k

pub sys_close : Handler
sys_close k fd a2 a3 a4 a5 a6 = returned 0 k

pub sys_fork : Handler
sys_fork k a1 a2 a3 a4 a5 a6 = returned failure k

pub sys_exec : Handler
sys_exec k filename a2 a3 a4 a5 a6 = returned failure k

pub sys_wait : Handler
sys_wait k a1 a2 a3 a4 a5 a6 = returned failure k

pub sys_sleep : Handler
sys_sleep k ticks a2 a3 a4 a5 a6 = returned 0 (say closing (say sleep_opening k))

pub sys_getpid : Handler
sys_getpid k a1 a2 a3 a4 a5 a6 = returned (process_get_current k.table).pid k

pub sys_yield : Handler
sys_yield k a1 a2 a3 a4 a5 a6 = returned 0 (say yield_message k)

-- The loop that clears the array, from entry `i` on.
pub clear_handlers : (n i : ℕ) → (ℕ → Option Handler) → ℕ → Option Handler
clear_handlers zero i handlers = handlers
clear_handlers (suc n) i handlers = clear_handlers n (i + 1) (update handlers i none)

module _ (syscall_register : (ℕ → Option Handler) → ℕ → Handler → ℕ → Option Handler) where
  pub syscall_init : (ℕ → Option Handler) → ℕ → Option Handler
  syscall_init handlers =
      let h0 = clear_handlers max_syscalls 0 handlers in
      let h1 = syscall_register h0 0 sys_exit in
      let h2 = syscall_register h1 1 sys_write in
      let h3 = syscall_register h2 2 sys_read in
      let h4 = syscall_register h3 3 sys_open in
      let h5 = syscall_register h4 4 sys_close in
      let h6 = syscall_register h5 5 sys_fork in
      let h7 = syscall_register h6 6 sys_exec in
      let h8 = syscall_register h7 7 sys_wait in
      let h9 = syscall_register h8 8 sys_sleep in
      let h10 = syscall_register h9 9 sys_getpid in syscall_register h10 10 sys_yield

-- The call through the pointer that the array holds.
pub call_handler : Option Handler → Handler
call_handler none k a1 a2 a3 a4 a5 a6 = returned failure (say missing_message k)
call_handler (some handler) k a1 a2 a3 a4 a5 a6 = handler k a1 a2 a3 a4 a5 a6

pub syscall_dispatch : (ℕ → Option Handler) → ℕ → Handler
syscall_dispatch handlers syscall_num k a1 a2 a3 a4 a5 a6 =
    if leb max_syscalls syscall_num
    then returned failure (say invalid_message k)
    else call_handler (handlers syscall_num) k a1 a2 a3 a4 a5 a6
