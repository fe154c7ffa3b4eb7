-- ===== src/Process/Stacks.antt =====
-- The page tables (kernel/memory.c) after `process_create` of kernel/process.c.
use v.Common.{
  ℕ, ◌+◌, ◌-◌, ◌*◌, ◌^◌, ◌<◌, ◌≤◌, ◌≡◌, refl, List, false, leb, ◌||◌, ◌==◌, u32, u64, arith,
  Bool-cases, inl, inr,
}
use v.Paging.{Paging, page_tables}
use v.Paging.Tree.{IsValid}
use v.Paging.Each.{Grown, Grown-trans, is_stack, map_each-Grown}
use v.Paging.Run.{Outside}
use v.Pages.{map_each}
use v.Process.{
  Table, Process, max_processes, find_slot, kernel_stack_of, user_stack_of, map_stacks,
  process_create,
}
use v.Process.Slots.{find_slot-FirstFree}

kernel_pages :
    (pid w : ℕ)
    → 1 ≤ pid
    → pid < 64
    → is_stack w ≡ false
    → Outside 2 (0xFFFF8000000FE000 + pid * 0x100000) w
kernel_pages pid w h k o j l e = ground (arith, h, k, o, l, e)

user_pages :
    (pid w : ℕ)
    → 1 ≤ pid
    → pid < 64
    → is_stack w ≡ false
    → Outside 2 (0xFFFFE000 + pid * 0x100000) w
user_pages pid w h k o j l e = ground (arith, h, k, o, l, e)

map_stacks-Grown :
    (pool pid : ℕ) (m : Paging)
    → 1 ≤ pid
    → pid < 64
    → IsValid pool m
    → Grown pool m (map_stacks (page_tables pool) pid m)
unfolding map_stacks kernel_stack_of user_stack_of
map_stacks-Grown pool pid m h k ok =
    let kernel : u64 (u64 (0xFFFF800000000000 + u32 (u32 (pid + 1) * 0x100000)) + 2 ^ 64 - 8192)
        ≡ 0xFFFF8000000FE000 + pid * 0x100000 =
      omega (arith, k) in
    let user : u64 (u64 (0x100000000 + u32 (pid * 0x100000)) + 2 ^ 64 - 8192)
        ≡ 0xFFFFE000 + pid * 0x100000 =
      omega (arith, h, k) in
    let m1 = map_each (page_tables pool) 2 (0xFFFF8000000FE000 + pid * 0x100000) 7 m in
    let first : Grown pool m m1 =
      map_each-Grown pool 2 (0xFFFF8000000FE000 + pid * 0x100000) m ok (omega (arith, k))
        (λ w o. kernel_pages pid w h k o) in
    rw (kernel, user)
      (Grown-trans pool m m1 (map_each (page_tables pool) 2 (0xFFFFE000 + pid * 0x100000) 7 m1)
        first
        (map_each-Grown pool 2 (0xFFFFE000 + pid * 0x100000) m1 first.0 (omega (arith, k))
          (λ w o. user_pages pid w h k o)))

slot_bound : (n i : ℕ) (f : ℕ → Process) → (find_slot n i f == 0) ≡ false → find_slot n i f < i + n
slot_bound n i f used = elim (find_slot-FirstFree n i f) [
  | inl free ↦ ground (arith, free.0, used)
  | inr found ↦ found.1
]

pub process_create-Grown :
    (pool : ℕ) (t : Table) (m : Paging) (entry_point : ℕ) (name : List ℕ)
    → IsValid pool m
    → let (pid, t1, m1) = process_create (page_tables pool) t m entry_point name in Grown pool m m1
unfolding process_create
process_create-Grown pool t m entry_point name ok =
    let pid = find_slot (max_processes - 1) 1 t.processes in
    elim (Bool-cases (leb max_processes t.process_count || (pid == 0))) [
      | inl none_free ↦ rw none_free (ok, λ w o. refl, λ w. inl refl)
      | inr free ↦
          let some_slot : (pid == 0) ≡ false = ground (arith, free) in
          rw free (
            map_stacks-Grown pool pid m (ground (arith, some_slot))
              (omega (arith, slot_bound 63 1 t.processes some_slot)) ok)
    ]
