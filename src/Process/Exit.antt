-- ===== src/Process/Exit.antt =====
-- `process_exit` of kernel/process.c for any PID, in use or not.
use v.Common.{ℕ, leb, leb→lt, Bool-cases, inl, inr}
use v.Process.{max_processes, Table, is_terminated, process_exit}
use v.Process.Create.{IsValid, process_exit_lem}

pub process_exit-IsValid : (t : Table) (pid : ℕ) → IsValid t → IsValid (process_exit t pid)
unfolding process_exit
process_exit-IsValid t pid v = elim (Bool-cases (leb max_processes pid)) [
  | inl h ↦ rw (process_exit, h) v
  | inr h ↦ elim (Bool-cases (is_terminated (t.processes pid).state)) [
    | inl f ↦ rw (process_exit, h, f) v
    | inr f ↦ (process_exit_lem t pid v (leb→lt max_processes pid h) f).0
  ]
]
