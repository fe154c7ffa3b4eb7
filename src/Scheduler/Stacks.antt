-- ===== src/Scheduler/Stacks.antt =====
-- The page tables (kernel/memory.c) after `scheduler_add_task` of kernel/scheduler.c.
use v.Common.{
  ℕ, ◌+◌, ◌-◌, ◌*◌, ◌^◌, ◌<◌, ◌≡◌, refl, false, leb, u32, u64, arith, Bool-cases, inl, inr,
}
use v.Paging.{Paging, page_tables}
use v.Paging.Tree.{IsValid}
use v.Paging.Each.{Grown, is_stack, map_each-Grown}
use v.Paging.Run.{Outside}
use v.Scheduler.{Scheduler, max_tasks, initial_cpu, scheduler_add_task}

stack_pages :
    (i w : ℕ) → i < 64 → is_stack w ≡ false → Outside 16 (0xFFFF800000000000 + i * 0x10000) w
stack_pages i w h o j l e = ground (arith, h, o, l, e)

pub scheduler_add_task-Grown :
    (pool : ℕ) (s : Scheduler) (m : Paging) (entry_point : ℕ)
    → IsValid pool m
    → Grown pool m (scheduler_add_task (page_tables pool) s m entry_point).1
unfolding scheduler_add_task initial_cpu
scheduler_add_task-Grown pool s m entry_point ok = elim (Bool-cases (leb max_tasks s.task_count)) [
  | inl full ↦ rw full (ok, λ w o. refl, λ w. inl refl)
  | inr room ↦
      let few : s.task_count < 64 = ground (arith, room) in
      let bottom : u64
            (u64 (0xFFFF800000000000 + u32 ((s.task_count + 1) * 0x10000)) + 2 ^ 64 - 0x10000)
          ≡ 0xFFFF800000000000 + s.task_count * 0x10000 =
        omega (arith, few) in
      rw (room, bottom)
        (map_each-Grown pool 16 (0xFFFF800000000000 + s.task_count * 0x10000) m ok
          (omega (arith, few)) (λ w o. stack_pages s.task_count w few o))
]
