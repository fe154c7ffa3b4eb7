-- ===== src/Process/Tests.antt =====
-- Runs of the process table at concrete inputs, and the theorems at them.
use v.Common.{ℕ, ◌+◌, ◌≡◌, ◌≢◌, refl, List, [], ◌∷◌, none, arith, update}
use v.Pages.{endless}
use v.Process.{
  Process, ready, terminated, Table, is_terminated, find_slot, fresh_process, count_child,
  process_create, process_exit, process_get_by_pid, initial_context,
}
use v.Process.Slots.{in_use}
use v.Process.Create.{IsValid, process_create_lem, process_exit_lem, Outcome}

abbrev empty_slot : Process
empty_slot = record {
  pid = 0;
  state = terminated;
  cr3 = 0;
  user_stack = 0;
  kernel_stack = 0;
  context = initial_context 0 0;
  entry_point = 0;
  heap_start = 0;
  heap_end = 0;
  heap_max = 0;
  name = [];
  parent_pid = 0;
  child_count = 0;
}

abbrev no_processes : Table
no_processes = record { processes = λ i. empty_slot; process_count = 0; current_pid = 0 }

-- Process 1 runs.
abbrev one_process : Table
one_process = record {
  processes = update (λ i. empty_slot) 1 (record empty_slot { pid = 1; state = ready });
  process_count = 1;
  current_pid = 1;
}

abbrev init_name : List ℕ
init_name = b'i' ∷ b'n' ∷ b'i' ∷ b't' ∷ []

-- The child of process 1 gets slot 2, and its parent counts it.
second_slot :
    let (pid, t, m) = process_create endless one_process 4096 0x400000 init_name in
    (pid ≡ 2)
    × (t.process_count ≡ 2)
    × ((t.processes 1).child_count ≡ 1)
    × ((t.processes 2).parent_pid ≡ 1)
unfolding process_create find_slot is_terminated count_child fresh_process
second_slot = (refl, refl, refl, refl)

no_processes-IsValid : IsValid no_processes
unfolding in_use is_terminated
no_processes-IsValid = record {
  counted = refl;
  idle = refl;
  current_in = omega arith;
  own_pid = λ i used. cc;
}

one_process-IsValid : IsValid one_process
unfolding in_use is_terminated
one_process-IsValid = record {
  counted = refl;
  idle = refl;
  current_in = omega arith;
  own_pid = λ i used. ground arith;
}

process_create_lem_example :
    let (pid, t, m) = process_create endless one_process 4096 0x400000 init_name in
    IsValid t × Outcome one_process 0x400000 init_name (pid, t)
process_create_lem_example =
    process_create_lem endless one_process 4096 0x400000 init_name one_process-IsValid

process_exit_lem_example :
    let t = process_exit one_process 1 in
    IsValid t
    × (process_get_by_pid t 1 ≡ none)
    × (t.process_count + 1 ≡ 1)
    × ((j : ℕ) → j ≢ 1 → t.processes j ≡ one_process.processes j)
unfolding is_terminated
process_exit_lem_example = process_exit_lem one_process 1 one_process-IsValid (omega arith) refl
