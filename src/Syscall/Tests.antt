-- ===== src/Syscall/Tests.antt =====
-- System calls of kernel/syscall.c at given kernels.
use v.Common.{ℕ, refl, Option, none, some, [], ◌∷◌, update, arith}
use v.Process.{ready, terminated, Process, is_terminated, initial_context}
use v.Process.Slots.{in_use}
use v.Syscall.{Kernel, Handler, syscall_init, syscall_dispatch}
use v.Syscall.Keeps.{IsSound, KeptBy, syscall_dispatch_safe}

abbrev empty_slot : Process
empty_slot = record {
  pid = 0;
  state = terminated;
  cr3 = 0;
  user_stack = 0;
  kernel_stack = 0;
  context = initial_context 0 0;
  entry_point = 0;
  heap_start = 0;
  heap_end = 0;
  heap_max = 0;
  name = [];
  parent_pid = 0;
  child_count = 0;
}

-- Process 1 runs, and the user's memory holds the text "ok" everywhere.
abbrev running : Kernel
running = record {
  console = record { row = 24; column = 79; color = 7; buffer = λ j. j; ports = [] };
  table = record {
    processes = update (λ i. empty_slot) 1 (record empty_slot { pid = 1; state = ready });
    process_count = 1;
    current_pid = 1;
  };
  text_at = λ a. b'o' ∷ b'k' ∷ [];
}

running-IsSound : IsSound running
unfolding in_use is_terminated
running-IsSound = record {
  console_valid = record { row_in = omega arith; column_in = omega arith };
  table_valid = record {
    counted = refl;
    idle = refl;
    current_in = omega arith;
    own_pid = λ i used. ground arith;
  };
}

abbrev register : (ℕ → Option Handler) → ℕ → Handler → ℕ → Option Handler
register handlers n h = update handlers n (some h)

syscall_dispatch_safe_example :
    KeptBy running (syscall_dispatch (syscall_init register (λ _. none)) 1 running 1 4096 2 0 0 0)
syscall_dispatch_safe_example =
    syscall_dispatch_safe register (λ handlers n h m. refl) (λ _. none) 1 running 1 4096 2 0 0 0
      running-IsSound
