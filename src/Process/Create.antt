-- ===== src/Process/Create.antt =====
-- `process_create` and `process_exit` of kernel/process.c: the count of processes, the slot that a
-- new one gets, and what no call touches.
use v.Common.{
  ℕ, zero, suc, ◌+◌, ◌-◌, ◌^◌, ◌≤◌, ◌<◌, ◌≡◌, ◌≢◌, refl, sym, ap, ◌∙◌, ◌⊎◌, inl, inr, Bool, true,
  false, ◌||◌, List, none, ◌==◌, leb, if◌then◌else◌, u32, update, take, arith,
}
use v.Pages.{PageSource}
use v.Process.{
  Process, ready, terminated, Table, max_processes, is_terminated, find_slot, fresh_process,
  count_child, process_create, process_exit, process_get_by_pid, user_stack_of, initial_context,
}
use v.Process.Slots.{
  is_free, FirstFree, find_slot-FirstFree, in_use, in_use-le, in_use_same, in_use-update,
  count_child_state, count_child_pid,
}

-- `process_count` counts the slots from 1 on that are in use, slot 0 stays free, and a slot in use
-- holds its own PID.
pub record IsValid (t : Table) : Type 0 where
  pub counted : t.process_count ≡ in_use 63 1 t.processes
  pub idle : is_free t.processes 0 ≡ true
  pub current_in : t.current_pid < max_processes
  pub own_pid : (i : ℕ) → is_free t.processes i ≡ false → (t.processes i).pid ≡ i

-- The table after a successful `process_create`.
abbrev pub created : Table → ℕ → ℕ → List ℕ → Table
created t pid entry_point name = record t {
  processes =
      count_child t.current_pid (
        update t.processes pid
          (fresh_process pid entry_point t.current_pid name (t.processes pid)));
  process_count = u32 (t.process_count + 1);
}

created_state :
    (t : Table) (pid e : ℕ) (name : List ℕ) (j : ℕ)
    → ((created t pid e name).processes j).state
      ≡ (if pid == j then ready else (t.processes j).state)
unfolding fresh_process
created_state t pid e name j = count_child_state t.current_pid _ j ∙ ground arith

created_pid :
    (t : Table) (pid e : ℕ) (name : List ℕ) (j : ℕ)
    → ((created t pid e name).processes j).pid ≡ (if pid == j then pid else (t.processes j).pid)
unfolding fresh_process
created_pid t pid e name j = count_child_pid t.current_pid _ j ∙ ground arith

created-IsValid :
    (t : Table) (pid e : ℕ) (name : List ℕ)
    → IsValid t
    → 1 ≤ pid
    → pid < 64
    → is_free t.processes pid ≡ true
    → IsValid (created t pid e name)
unfolding fresh_process is_terminated
created-IsValid t pid e name v h k free = record {
  counted = ground (
    arith,
    v.counted,
    in_use-le 63 1 t.processes,
    in_use-update 63 1 pid t.processes (fresh_process pid e t.current_pid name (t.processes pid)) h
        (omega arith),
    in_use_same 63 1
        (count_child t.current_pid
          (update t.processes pid (fresh_process pid e t.current_pid name (t.processes pid))))
        (update t.processes pid (fresh_process pid e t.current_pid name (t.processes pid)))
        (λ j. ap is_terminated (count_child_state t.current_pid _ j)),
  );
  idle = ap is_terminated (created_state t pid e name 0) ∙ ground (arith, v.idle);
  current_in = v.current_in;
  own_pid = λ i used.
      created_pid t pid e name i ∙ ground (arith, v.own_pid i, created_state t pid e name i);
}

-- What `process_create` returns, `r`, from the table `t` on the slot `pid` that the search found.
abbrev pub Outcome : Table → ℕ → List ℕ → ℕ × Table → Type 0
Outcome t e name (pid, t') =
    ((pid ≡ 0) × (t' ≡ t) × ((j : ℕ) → 1 ≤ j → j < 64 → is_free t.processes j ≡ false))
    ⊎ ((1 ≤ pid)
        × (pid < 64)
        × (is_free t.processes pid ≡ true)
        × ((j : ℕ) → 1 ≤ j → j < pid → is_free t.processes j ≡ false)
        × ((t'.processes pid).state ≡ ready)
        × ((t'.processes pid).context ≡ initial_context e (user_stack_of pid))
        × ((t'.processes pid).name ≡ take 31 name)
        × ((j : ℕ) → j ≢ pid → is_free t'.processes j ≡ is_free t.processes j)
        × (t'.process_count ≡ t.process_count + 1))

or_true : (x y : Bool) → y ≡ true → (x || y) ≡ true
or_true x y p = ground arith

or_false : (x y : Bool) → x ≡ false → y ≡ false → (x || y) ≡ false
or_false x y p q = ground arith

module _ (pages : PageSource) (t : Table) (m : pages.Memory) (e : ℕ) (name : List ℕ) where
  create_none : find_slot 63 1 t.processes ≡ 0 → process_create pages t m e name ≡ (0, t, m)
  unfolding process_create
  create_none z =
      rw (or_true (leb 64 t.process_count) (find_slot 63 1 t.processes == 0) (ground arith))

  create_at :
      (pid : ℕ)
      → find_slot 63 1 t.processes ≡ pid
      → 1 ≤ pid
      → t.process_count < 64
      → ((process_create pages t m e name).0 ≡ pid)
        × ((process_create pages t m e name).1 ≡ created t pid e name)
  unfolding process_create
  create_at pid f h room =
      rw
        (or_false (leb 64 t.process_count) (find_slot 63 1 t.processes == 0) (ground arith)
          (ground arith))
        (f, ap (λ (p : ℕ). created t p e name) f)

count_child_fields :
    (parent : ℕ) (f : ℕ → Process) (j : ℕ)
    → ((count_child parent f j).context ≡ (f j).context)
      × ((count_child parent f j).name ≡ (f j).name)
unfolding count_child
count_child_fields parent f j = (ground arith, ground arith)

created-Outcome :
    (t : Table) (pid e : ℕ) (name : List ℕ)
    → IsValid t
    → 1 ≤ pid
    → pid < 64
    → is_free t.processes pid ≡ true
    → ((j : ℕ) → 1 ≤ j → j < pid → is_free t.processes j ≡ false)
    → Outcome t e name (pid, created t pid e name)
unfolding fresh_process
created-Outcome t pid e name v h k free first = inr (
  h,
  k,
  free,
  first,
  created_state t pid e name pid ∙ ground arith,
  (count_child_fields t.current_pid _ pid).0 ∙ ground arith,
  (count_child_fields t.current_pid _ pid).1 ∙ ground arith,
  λ j ne. ap is_terminated (created_state t pid e name j) ∙ ground arith,
  ground (arith, v.counted, in_use-le 63 1 t.processes),
)

-- On a valid table `process_create` keeps the table valid. Either it returns 0 with the table as it
-- was, and then all 63 slots are in use; or it returns the lowest free slot, which from then on holds
-- a ready process with the initial context for the entry point and the first 31 characters of the
-- name, while the count is one more and every other slot is in use exactly as before.
pub process_create_lem :
    (pages : PageSource) (t : Table) (m : pages.Memory) (e : ℕ) (name : List ℕ)
    → IsValid t
    → let (pid, t', m') = process_create pages t m e name in IsValid t' × Outcome t e name (pid, t')
process_create_lem pages t m e name v =
    go (find_slot 63 1 t.processes) refl (find_slot-FirstFree 63 1 t.processes)
  where
    go :
        (pid : ℕ)
        → find_slot 63 1 t.processes ≡ pid
        → FirstFree 63 1 t.processes (find_slot 63 1 t.processes)
        → let (pid, t', m') = process_create pages t m e name in
          IsValid t' × Outcome t e name (pid, t')
    go pid f (inl (z, all)) =
        rw (create_none pages t m e name z) (v, inl (refl, refl, λ j h k. all j h (omega arith)))
    go pid f (inr (h, k, free, first)) =
        let few = in_use-le 63 1 t.processes in
        let (a, b) =
          create_at pages t m e name (find_slot 63 1 t.processes) refl h
            (omega (arith, v.counted)) in
        rw (a, b)
          (
            created-IsValid t (find_slot 63 1 t.processes) e name v h (omega arith) free,
            created-Outcome t (find_slot 63 1 t.processes) e name v h (omega arith) free first,
          )

-- The table after `process_exit` of a slot in use.
abbrev exited : Table → ℕ → Table
exited t pid = record t {
  processes = update t.processes pid (record (t.processes pid) { state = terminated });
  process_count = u32 (t.process_count + 2 ^ 32 - 1);
}

exit_live :
    (t : Table) (pid : ℕ)
    → pid < 64
    → is_free t.processes pid ≡ false
    → process_exit t pid ≡ exited t pid
unfolding process_exit
exit_live t pid h used = rw (or_false (leb 64 pid) (is_free t.processes pid) (ground arith) used)

not_idle : (t : Table) (pid : ℕ) → IsValid t → is_free t.processes pid ≡ false → 1 ≤ pid
not_idle t zero v used = cc (sym used ∙ v.idle)
not_idle t (suc pid) v used = omega arith

exit_counts :
    (t : Table) (pid : ℕ)
    → IsValid t
    → pid < 64
    → is_free t.processes pid ≡ false
    → ((exited t pid).process_count + 1 ≡ t.process_count)
      × ((exited t pid).process_count ≡ in_use 63 1 (exited t pid).processes)
unfolding is_terminated
exit_counts t pid v h used =
    let change =
      in_use-update 63 1 pid t.processes (record (t.processes pid) { state = terminated })
        (not_idle t pid v used) (omega arith) in
    let most = in_use-le 63 1 t.processes in
    (ground (arith, change, v.counted), ground (arith, change, v.counted))

-- On a valid table `process_exit` of a slot in use keeps the table valid, frees that slot and takes
-- one off the count; every other entry is untouched, the child count of the parent too.
pub process_exit_lem :
    (t : Table) (pid : ℕ)
    → IsValid t
    → pid < 64
    → is_free t.processes pid ≡ false
    → let t' = process_exit t pid in
      IsValid t'
      × (process_get_by_pid t' pid ≡ none)
      × (t'.process_count + 1 ≡ t.process_count)
      × ((j : ℕ) → j ≢ pid → t'.processes j ≡ t.processes j)
unfolding process_get_by_pid is_terminated
process_exit_lem t pid v h used = rw (exit_live t pid h used) (
  record {
    counted = (exit_counts t pid v h used).1;
    idle = ground (arith, v.idle);
    current_in = v.current_in;
    own_pid = λ i live. ground (arith, v.own_pid i);
  },
  ground arith,
  (exit_counts t pid v h used).0,
  λ j ne. ground arith,
)
