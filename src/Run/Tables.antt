-- ===== src/Run/Tables.antt =====
-- The page tables of kernel/memory.c while the kernel of kernel/kernel_loader.c runs.
use v.Common.{ℕ, refl, inl, Option}
use v.Paging.{Paging, page_tables}
use v.Paging.Tree.{IsValid}
use v.Paging.Each.{Grown, Grown-trans}
use v.Scheduler.Stacks.{scheduler_add_task-Grown}
use v.Process.Stacks.{process_create-Grown}
use v.Syscall.{Handler}
use v.Run.{
  System, key_interrupt, main_loop_turn, task_text, Step, key, turn, wrote, slept, interrupted,
  switched, called, created, added, Reaches, at_start, then_step,
}

module _ (pool : ℕ) (handlers : ℕ → Option Handler) where
  Step-Grown :
      (s t : System Paging)
      → Step (page_tables pool) handlers s t
      → IsValid pool s.memory
      → Grown pool s.memory t.memory
  unfolding key_interrupt main_loop_turn task_text
  Step-Grown s t (key scancode) v = (v, λ w o. refl, λ w. inl refl)
  Step-Grown s t turn v = (v, λ w o. refl, λ w. inl refl)
  Step-Grown s t (wrote text) v = (v, λ w o. refl, λ w. inl refl)
  Step-Grown s t (slept ticks e) v = (v, λ w o. refl, λ w. inl refl)
  Step-Grown s t (interrupted int_no err_code e) v = (v, λ w o. refl, λ w. inl refl)
  Step-Grown s t (switched int_no err_code e) v = (v, λ w o. refl, λ w. inl refl)
  Step-Grown s t (called n a1 a2 a3 a4 a5 a6 e) v = (v, λ w o. refl, λ w. inl refl)
  Step-Grown s t (created entry_point name) v =
      process_create-Grown pool s.table s.memory entry_point name v
  Step-Grown s t (added entry_point) v =
      scheduler_add_task-Grown pool s.scheduler s.memory entry_point v

  -- In every state that the kernel reaches from valid page tables, by keys, turns of the main loop, the
  -- tasks' writes and sleeps, interrupts that return or switch, system calls that return, process_create and
  -- scheduler_add_task, the page tables are valid; the entry of every page outside the two areas where tasks
  -- and processes have their stacks is as it was; and an entry that is not as it was is present, writable
  -- and the user's.
  pub Reaches-Grown :
      (s t : System Paging)
      → Reaches (page_tables pool) handlers s t
      → IsValid pool s.memory
      → Grown pool s.memory t.memory
  Reaches-Grown s t at_start v = (v, λ w o. refl, λ w. inl refl)
  Reaches-Grown s t (then_step {t = t1} reached step) v =
      let before = Reaches-Grown s t1 reached v in
      Grown-trans pool s.memory t1.memory t.memory before (Step-Grown t1 t step before.0)
