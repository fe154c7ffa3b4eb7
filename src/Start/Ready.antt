-- ===== src/Start/Ready.antt =====
-- What the start of `kernel_main` (kernel/kernel_loader.c) leaves.
use v.Common.{ℕ, ◌≡◌, refl, Bool, true, [], Option, none, some, arith}
use mathlib.Core.Option
use v.Heap.{Heap, heap_start}
use v.Heap.Alloc.{IsValid}
use v.Paging.{Paging, page_tables, init_vmm}
use v.Apic.{Mmio}
use v.Ata.{Ports}
use v.Scheduler.{ready, Scheduler, scheduler_init, scheduler_add_task, initial_cpu}
use v.Start.{
  Store, MemoryState, StartState, Given, memory_init, idt_init, after_test, kernel_start,
  test_memory_management,
}
use v.Start.Memory.{Tested, test_memory_management_lem}

-- A scheduler with two tasks that are ready, the first the current one.
pub record IsReady (task1 task2 : ℕ) (s : Scheduler) : Type 0 where
  pub two : s.task_count ≡ 2
  pub first : s.current_task ≡ 0
  pub ready1 : ((s.tasks 0).state ≡ ready) × ((s.tasks 0).cpu.rip ≡ task1)
  pub ready2 : ((s.tasks 1).state ≡ ready) × ((s.tasks 1).cpu.rip ≡ task2)

added :
    (pool task1 task2 : ℕ) (s : Scheduler) (m : Paging)
    → let pages = page_tables pool in
      let (t1, m1) = scheduler_add_task pages (scheduler_init s) m task1 in
      IsReady task1 task2 (scheduler_add_task pages t1 m1 task2).0
unfolding scheduler_init scheduler_add_task initial_cpu
added pool task1 task2 s m = record {
  two = refl;
  first = refl;
  ready1 = (refl, refl);
  ready2 = (refl, refl);
}

-- The heap before the first `kmalloc`.
empty-IsValid : (h : Heap) → h.blocks ≡ [] → h.heap_end ≡ heap_start → IsValid h
empty-IsValid h empty end = record {
  chain = rw (empty, end) refl;
  bound = omega (arith, end);
  settled = rw empty tt;
}

module _ (mmio : Mmio) (ports : Ports) (pool : ℕ) where
  -- What the start comes to: both tasks are ready and interrupts are enabled.
  abbrev pub Started : Given → Option (Bool × StartState mmio.Device ports.Device) → Type 0
  Started g none = ⊥
  Started g (some (passed, t)) = IsReady g.task1 g.task2 t.scheduler × (t.interrupts.enabled ≡ true)

  begun :
      (g : Given) (s : StartState mmio.Device ports.Device) (s1 : MemoryState) (h : Heap) (e : ℕ)
      (b : Bool) (r : Option (Bool × Store Paging))
      → Tested (page_tables pool) h e b r
      → Started g (Option.map (after_test mmio ports pool g s s1) r)
  unfolding after_test idt_init
  begun g s s1 h e b none a = a
  begun g s s1 h e b (some (passed, t)) a = (added pool g.task1 g.task2 s.scheduler t.memory, refl)

  -- From a heap without a block, as zero_bss leaves it: kernel_start returns, with its memory test through
  -- without a fault, the two tasks ready at their entry points, the first of them the current one, and
  -- interrupts enabled.
  pub kernel_start-Started :
      (g : Given) (s : StartState mmio.Device ports.Device)
      → s.memory_state.store.heap.blocks ≡ []
      → Started g (kernel_start mmio ports pool g s)
  unfolding kernel_start memory_init init_vmm
  kernel_start-Started g s empty =
      let s1 = memory_init g.boot_info s.memory_state in
      let v : IsValid s1.store.heap = empty-IsValid s1.store.heap empty refl in
      begun g s s1 s1.store.heap _ _ (test_memory_management (page_tables pool) s1.store)
        (test_memory_management_lem (page_tables pool) s1.store v (omega arith))
