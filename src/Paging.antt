-- ===== src/Paging.antt =====
-- kernel/memory.c: physical pages, the pool of early page tables, and the four-level page tables of
-- `map_page`, `unmap_page` and `set_page_flags`. Memory is a function from the address of a 64-bit
-- word to the word. The address of `bootstrap_memory_pool` is a parameter, which the linker chooses.
pub mod Tree
pub mod Entry
pub mod Add
pub mod Descend
pub mod Map
pub mod Change
pub mod Run
pub mod Each
mod Tests
use Prim.Native.Nat.{bit_or}
use v.Common.{
  ℕ, zero, suc, ◌+◌, ◌-◌, ◌*◌, ◌/◌, ◌%◌, ◌^◌, Bool, true, false, Option, none, some, ◌==◌, ltb,
  if◌then◌else◌, u32, u64, update,
}
use mathlib.Core.Option
use v.Pages.{PageSource}
use v.Heap.{Heap}

-- What memory.c keeps: the words in memory, `vmm.pml4`, `next_free_page`, and
-- `bootstrap_memory_used`.
pub record Paging : Type 0 where
  pub words : ℕ → ℕ
  pub pml4 : ℕ
  pub next_free_page : ℕ
  pub bootstrap_memory_used : ℕ

-- sizeof(bootstrap_memory_pool)
abbrev pub pool_size : ℕ
pool_size = 4096 * 16

-- PML4_INDEX, PDPT_INDEX, PD_INDEX and PT_INDEX
abbrev pub pml4_index : ℕ → ℕ
pml4_index v = v / 2 ^ 39 % 512

abbrev pub pdpt_index : ℕ → ℕ
pdpt_index v = v / 2 ^ 30 % 512

abbrev pub pd_index : ℕ → ℕ
pd_index v = v / 2 ^ 21 % 512

abbrev pub pt_index : ℕ → ℕ
pt_index v = v / 2 ^ 12 % 512

-- `entry & PAGE_PRESENT`
abbrev pub present : ℕ → Bool
present e = (e % 2) == 1

-- `x & ~0xFFF`, and `x & ~(PAGE_SIZE - 1)`
abbrev pub page_of : ℕ → ℕ
page_of x = x - x % 4096

-- `&table[i]`
abbrev pub slot : ℕ → ℕ → ℕ
slot table i = table + i * 8

-- Virtual pages: the aligned address, its entry's place, and the new value.
unfoldable pub alloc_physical_page : Paging → ℕ × Paging
alloc_physical_page s =
    let page = page_of (u64 (s.next_free_page + 4096 - 1)) in
    (page, record s { next_free_page = u64 (page + 4096) })

-- It does nothing with the address.
pub free_physical_page : Paging → ℕ → Paging
free_physical_page s physical_addr = s

-- The loop that zeroes a new table: `n` entries from `i` on.
unfoldable pub clear_table : (n i table : ℕ) → (ℕ → ℕ) → ℕ → ℕ
clear_table zero i table words = words
clear_table (suc n) i table words = clear_table n (i + 1) table (update words (slot table i) 0)

-- The part of `unmap_page` and `set_page_flags` that reads one level.
pub existing_table : Paging → ℕ → ℕ → Option ℕ
existing_table s table i =
    let e = s.words (slot table i) in if present e then some (page_of e) else none

-- Their three levels: `none` where a page table is missing.
pub find_table : Paging → ℕ → Option ℕ
find_table s v = Option.bind (existing_table s s.pml4 (pml4_index v)) (λ pdpt.
    Option.bind (existing_table s pdpt (pdpt_index v)) (λ pd. existing_table s pd (pd_index v)))

-- The last step of `unmap_page`, on the page table.
pub unmap_entry : Paging → ℕ → Option ℕ → Bool × Paging
unmap_entry s i none = (false, s)
unmap_entry s i (some pt) =
    if present (s.words (slot pt i))
    then (true, record s { words = update s.words (slot pt i) 0 })
    else (false, s)

-- True for the C code's 0.
pub unmap_page : Paging → ℕ → Bool × Paging
unmap_page s virtual_addr =
    let v = page_of virtual_addr in unmap_entry s (pt_index v) (find_table s v)

pub set_entry_flags : Paging → ℕ → ℕ → Option ℕ → Bool × Paging
set_entry_flags s i flags none = (false, s)
set_entry_flags s i flags (some pt) =
    let e = s.words (slot pt i) in
    if present e
    then (
      true,
      record s { words = update s.words (slot pt i) (bit_or (bit_or (page_of e) flags) 1) },
    )
    else (false, s)

pub set_page_flags : Paging → ℕ → ℕ → Bool × Paging
set_page_flags s virtual_addr flags =
    let v = page_of virtual_addr in set_entry_flags s (pt_index v) flags (find_table s v)

-- The part of `init_vmm` for the page tables, on the value of CR3, and that for the heap.
unfoldable pub init_vmm : Paging → Heap → ℕ → Paging × Heap
init_vmm s h cr3_value =
    (record s { pml4 = page_of cr3_value }, record h { heap_end = 0xFFFF800000000000 })

module _ (pool : ℕ) where
  -- `none` for a null pointer.
  unfoldable pub bootstrap_alloc : Paging → ℕ → Option ℕ × Paging
  bootstrap_alloc s size =
      let aligned = u32 (size + 3) - u32 (size + 3) % 4 in
      let used = u32 (s.bootstrap_memory_used + aligned) in
      if ltb pool_size used
      then (none, s)
      else (some (pool + s.bootstrap_memory_used), record s { bootstrap_memory_used = used })

  -- A new table goes into entry `i` of `table`.
  unfoldable pub add_table : ℕ → ℕ → Option ℕ × Paging → Option ℕ × Paging
  add_table table i (none, s) = (none, s)
  add_table table i (some new, s) = (
    some new,
    record s {
      words = update (clear_table 512 0 new s.words) (slot table i) (bit_or (bit_or new 1) 2);
    },
  )

  -- The part of `map_page` for one level: the table that entry `i` of `table` leads to, a new one
  -- where there is none.
  unfoldable pub next_table : Paging → ℕ → ℕ → Option ℕ × Paging
  next_table s table i =
      let e = s.words (slot table i) in
      if present e then (some (page_of e), s) else add_table table i (bootstrap_alloc s 4096)

  -- The rest of `map_page` once there is a table, or its failure.
  unfoldable pub and_then : Option ℕ × Paging → (ℕ → Paging → Bool × Paging) → Bool × Paging
  and_then (none, s) k = (false, s)
  and_then (some table, s) k = k table s

  -- `pt[pt_index] = physical_addr | flags | PAGE_PRESENT`
  unfoldable pub map_entry : ℕ → ℕ → ℕ → ℕ → Paging → Bool × Paging
  map_entry i p flags pt s =
      (true, record s { words = update s.words (slot pt i) (bit_or (bit_or p flags) 1) })

  -- True for the C code's 0.
  unfoldable pub map_page : Paging → ℕ → ℕ → ℕ → Bool × Paging
  map_page s virtual_addr physical_addr flags =
      let v = page_of virtual_addr in
      let p = page_of physical_addr in
      and_then (next_table s s.pml4 (pml4_index v)) (λ pdpt s1.
        and_then (next_table s1 pdpt (pdpt_index v))
          (λ pd s2. and_then (next_table s2 pd (pd_index v)) (map_entry (pt_index v) p flags)))

  -- What the heap, the tasks and the processes use.
  abbrev pub page_tables : PageSource
  page_tables = record {
    Memory = Paging;
    alloc_physical_page = alloc_physical_page;
    map_page = map_page;
  }
