-- ===== src/Pages.antt =====
-- What the heap, the tasks and the processes use of physical pages and page tables: the two calls of
-- kernel/memory.c, over some state of theirs.
use v.Common.{ℕ, zero, suc, ◌+◌, ◌==◌, Bool, true, false, if◌then◌else◌, u64}

-- `alloc_physical_page` returns an address, 0 for a null pointer. `map_page`, on a virtual address, a
-- physical address and flags, says whether it succeeded.
pub record PageSource : Type 1 where
  pub Memory : Type 0
  pub alloc_physical_page : Memory → ℕ × Memory
  pub map_page : Memory → ℕ → ℕ → ℕ → Bool × Memory

module _ (pages : PageSource) where
  open pages use {Memory, alloc_physical_page, map_page}

  -- `n` rounds of the loops of `kmalloc`: a fresh page is mapped at `addr`, `addr + 4096` and so on;
  -- false at the first page that cannot be had or mapped.
  unfoldable pub map_run : (n addr flags : ℕ) → Memory → Bool × Memory
  map_run zero addr flags m = (true, m)
  map_run (suc n) addr flags m =
      let (page, m1) = alloc_physical_page m in
      let (done, m2) = map_page m1 addr page flags in
      let rest = map_run n (u64 (addr + 4096)) flags m2 in
      if page == 0 then (false, m1) else (if done then rest else (false, m2))

  -- `n` rounds of the loops that map stacks: what fails is passed over.
  unfoldable pub map_each : (n addr flags : ℕ) → Memory → Memory
  map_each zero addr flags m = m
  map_each (suc n) addr flags m =
      let (page, m1) = alloc_physical_page m in
      map_each n (u64 (addr + 4096)) flags
        (if page == 0 then m1 else (map_page m1 addr page flags).1)

-- Pages that never run out, and a page table that accepts every mapping.
abbrev pub endless : PageSource
endless = record {
  Memory = ℕ;
  alloc_physical_page = λ n. (n, n + 4096);
  map_page = λ n v p f. (true, n);
}

-- Pages that are used up.
abbrev pub exhausted : PageSource
exhausted = record {
  Memory = ℕ;
  alloc_physical_page = λ n. (n, n + 4096);
  map_page = λ n v p f. (false, n);
}
