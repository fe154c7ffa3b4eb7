-- ===== src/Start.antt =====
-- `memory_init` and `test_memory_management` of kernel/memory.c, `idt_init` of kernel/interrupt.c,
-- `timer_init` of kernel/timer.c and the start of `kernel_main` (kernel/kernel_loader.c), up to its self
-- tests. Their messages are left out; Messages has those of `kernel_main`. `scheduler_add_task` maps stacks over
-- the addresses of the heap: what that does to the headers of its blocks is not in the model.
pub mod Memory
pub mod Ready
pub mod Messages
mod Tests
use v.Common.{
  ℕ, zero, suc, ◌+◌, ◌-◌, ◌*◌, ◌/◌, ◌%◌, ◌^◌, Bool, true, false, List, Option, none, some, ◌==◌,
  ltb, if◌then◌else◌, u8, update,
}
use mathlib.Core.Option
use v.Pages.{PageSource}
use v.Heap.{Heap, kmalloc, kfree}
use v.Paging.{Paging, init_vmm, page_tables}
use v.Pmm.{BootInfo, PmmInfo, init_pmm}
use v.Interrupts.{Descriptors, setup_idt, setup_pic}
use v.Apic.{Mmio, apic_init, apic_timer_init}
use v.Ata.{Ports}
use v.Timer.{pit_init}
use v.Scheduler.{Scheduler, scheduler_init, scheduler_add_task}

-- The loop of `zero_bss` over `n` words of 4 bytes from address `a` on.
pub zero_words : (n a : ℕ) → (ℕ → ℕ) → ℕ → ℕ
zero_words zero a words = words
zero_words (suc n) a words = zero_words n (a + 4) (update words a 0)

-- A word that begins before the end is cleared.
pub zero_bss : (bss_start bss_end : ℕ) → (ℕ → ℕ) → ℕ → ℕ
zero_bss bss_start bss_end words = zero_words ((bss_end - bss_start + 3) / 4) bss_start words

-- The heap with the page tables and the bytes of memory.
pub record Store (Memory : Type 0) : Type 0 where
  pub heap : Heap
  pub memory : Memory
  pub bytes : ℕ → ℕ

-- The loop that writes: `n` bytes from byte `i` on.
pub write_bytes : (n i ptr : ℕ) → (ℕ → ℕ) → ℕ → ℕ
write_bytes zero i ptr bytes = bytes
write_bytes (suc n) i ptr bytes = write_bytes n (i + 1) ptr (update bytes (ptr + i) (u8 (i % 256)))

-- The loop that reads them back.
pub check_bytes : (n i ptr : ℕ) → (ℕ → ℕ) → Bool
check_bytes zero i ptr bytes = true
check_bytes (suc n) i ptr bytes =
    let rest = check_bytes n (i + 1) ptr bytes in
    if bytes (ptr + i) == u8 (i % 256) then rest else false

module _ (pages : PageSource) where
  open pages use {Memory}

  -- `none` where `kfree` faults.
  pub give_back : ℕ → Store Memory → Option (Store Memory)
  give_back ptr s = Option.map (λ h. record s { heap = h }) (kfree s.heap ptr)

  -- The state after a call of `kmalloc`.
  abbrev pub taken : (ℕ → ℕ) → Option ℕ × Heap × Memory → Store Memory
  taken bytes r = record { heap = r.1; memory = r.2; bytes = bytes }

  -- A block is taken and given back, where there is one.
  pub return_block : (ℕ → ℕ) → Option ℕ × Heap × Memory → Option (Store Memory)
  return_block bytes (none, h, m) = some (taken bytes (none, h, m))
  return_block bytes (some ptr, h, m) = give_back ptr (taken bytes (some ptr, h, m))

  -- What the test of `ptr1` does on the block that it has: whether what it wrote is what it reads.
  pub test_block : (ℕ → ℕ) → Option ℕ × Heap × Memory → Option (Bool × Store Memory)
  test_block bytes (none, h, m) = some (false, taken bytes (none, h, m))
  test_block bytes (some ptr, h, m) =
      let bytes1 = write_bytes 128 0 ptr bytes in
      Option.map (λ s. (check_bytes 128 0 ptr bytes1, s))
        (give_back ptr (taken bytes1 (some ptr, h, m)))

  -- Whether the first test passed, and the state; false where it had no block.
  pub test_memory_management : Store Memory → Option (Bool × Store Memory)
  test_memory_management s =
      Option.bind (test_block s.bytes (kmalloc pages s.heap s.memory 128)) (λ (passed, s1).
        Option.map (λ s2. (passed, s2))
          (return_block s1.bytes (kmalloc pages s1.heap s1.memory 256)))

  -- The allocation behind the self tests.
  pub example_allocation : Store Memory → Option (Store Memory)
  example_allocation s = return_block s.bytes (kmalloc pages s.heap s.memory 1024)

-- On the register CR3 and the page tables.
pub load_page_directory : Paging → ℕ → ℕ
load_page_directory s cr3 = s.pml4

-- What `memory_init` works on.
pub record MemoryState : Type 0 where
  pub pmm : PmmInfo
  pub store : Store Paging
  pub cr3 : ℕ

pub memory_init : BootInfo → MemoryState → MemoryState
memory_init b s =
    let (paging, heap) = init_vmm s.store.memory s.store.heap s.cr3 in
    record {
      pmm = init_pmm b s.pmm;
      store = record s.store { heap = heap; memory = paging };
      cr3 = load_page_directory paging s.cr3;
    }

-- The interrupt table, the writes to the PICs, the registers of the APICs with the LAPIC's address, and
-- whether interrupts are enabled.
pub record InterruptState (Device : Type 0) : Type 0 where
  pub descriptors : Descriptors
  pub pic_writes : List (ℕ × ℕ)
  pub apic : Device
  pub lapic_base : ℕ
  pub enabled : Bool

-- What `kernel_main` works on.
pub record StartState (Registers Wires : Type 0) : Type 0 where
  pub memory_state : MemoryState
  pub interrupts : InterruptState Registers
  pub wires : Wires
  pub scheduler : Scheduler

-- What the machine and the linker give: the boot loader's information, the stubs, the address of `idt`, the
-- masks of the PICs, the two halves of IA32_APIC_BASE_MSR, and the addresses of the two tasks.
pub record Given : Type 0 where
  pub boot_info : BootInfo
  pub isr : ℕ → ℕ
  pub apic_isr : ℕ → ℕ
  pub idt_address : ℕ
  pub mask1 : ℕ
  pub mask2 : ℕ
  pub msr_low : ℕ
  pub msr_high : ℕ
  pub task1 : ℕ
  pub task2 : ℕ

module _ (mmio : Mmio) (ports : Ports) (pool : ℕ) where
  pub idt_init : Given → InterruptState mmio.Device → InterruptState mmio.Device
  idt_init g s =
      let (base, d) = apic_init mmio g.msr_low g.msr_high s.apic in
      record {
        descriptors = setup_idt g.isr g.apic_isr g.idt_address s.descriptors;
        pic_writes = setup_pic g.mask1 g.mask2 s.pic_writes;
        apic = d;
        lapic_base = base;
        enabled = true;
      }

  -- The PIT's ports, and the LAPIC's timer.
  pub timer_init : (lapic_base : ℕ) → ports.Device → mmio.Device → ports.Device × mmio.Device
  timer_init lapic_base wires registers =
      (pit_init ports wires, apic_timer_init mmio lapic_base registers)

  -- Behind the memory test: from `idt_init` to the second task.
  pub after_test :
      Given
      → StartState mmio.Device ports.Device
      → MemoryState
      → Bool × Store Paging
      → Bool × StartState mmio.Device ports.Device
  after_test g s s1 (passed, store) =
      let pages = page_tables pool in
      let i = idt_init g s.interrupts in
      let (wires, registers) = timer_init i.lapic_base s.wires i.apic in
      let (t1, m1) = scheduler_add_task pages (scheduler_init s.scheduler) store.memory g.task1 in
      let (t2, m2) = scheduler_add_task pages t1 m1 g.task2 in
      (
        passed,
        record {
          memory_state = record s1 { store = record store { memory = m2 } };
          interrupts = record i { apic = registers };
          wires = wires;
          scheduler = t2;
        },
      )

  -- From `memory_init` to the second task; `none` where a `kfree` of the memory test faults.
  pub kernel_start :
      Given
      → StartState mmio.Device ports.Device
      → Option (Bool × StartState mmio.Device ports.Device)
  kernel_start g s =
      let s1 = memory_init g.boot_info s.memory_state in
      Option.map (after_test g s s1) (test_memory_management (page_tables pool) s1.store)
