-- ===== src/Paging/Tests.antt =====
-- Page tables of kernel/memory.c at a given pool.
use v.Common.{ℕ, ◌≡◌, refl, true, ◌==◌, if◌then◌else◌, arith}
use v.Paging.{
  Paging, map_page, unmap_page, set_page_flags, clear_table, next_table, add_table, and_then,
  map_entry, bootstrap_alloc,
}
use v.Paging.Tree.{IsTree, IsValid, entry, walk}
use v.Paging.Map.{mapping, Outcome, map_page-Outcome}
use v.Paging.Change.{Change, unmap_page-Change, set_page_flags-Change, unmap_page-map_page}

abbrev pool : ℕ
pool = 0x10000

-- An empty PML4 at 4096.
abbrev bare : Paging
bare = record { words = λ a. 0; pml4 = 4096; next_free_page = 0x200000; bootstrap_memory_used = 0 }

bare-IsTree : IsTree pool bare (λ t. if t == 4096 then 4 else 0) (λ t. 0) (λ t. 0)
bare-IsTree = record {
  root = refl;
  aligned = λ t l. ground arith;
  child = λ t i k l b p. cc;
  pool_page = refl;
  used_page = refl;
  used_in = omega arith;
  fresh = λ t lo hi. ground arith;
}

bare-IsValid : IsValid pool bare
bare-IsValid = record {
  level = λ t. if t == 4096 then 4 else 0;
  parent = λ t. 0;
  place = λ t. 0;
  tree = bare-IsTree;
}

bare-entry : (v : ℕ) → entry bare v ≡ 0
unfolding walk
bare-entry v = refl

map_page-Outcome_example :
    Outcome pool bare 0x400000 (mapping 0x200000 7) (map_page pool bare 0x400000 0x200000 7)
map_page-Outcome_example = map_page-Outcome pool bare 0x400000 0x200000 7 bare-IsValid (omega arith)

maps : (map_page pool bare 0x400000 0x200000 7).0 ≡ true
unfolding map_page next_table bootstrap_alloc add_table and_then map_entry clear_table
maps = refl

-- The page at 4 MB is mapped.
abbrev mapped : Paging
mapped = (map_page pool bare 0x400000 0x200000 7).1

mapped-IsValid : IsValid pool mapped
unfolding map_page next_table bootstrap_alloc add_table and_then map_entry clear_table
mapped-IsValid = (map_page-Outcome pool bare 0x400000 0x200000 7 bare-IsValid (omega arith)).0

unmap_page-Change_example : Change pool mapped 0x400123 0 (unmap_page mapped 0x400123)
unmap_page-Change_example = unmap_page-Change pool mapped 0x400123 mapped-IsValid

set_page_flags-Change_example :
    Change pool mapped 0x400123
      (mapping (entry mapped 0x400123) 1)
      (set_page_flags mapped 0x400123 1)
set_page_flags-Change_example =
    set_page_flags-Change pool mapped 0x400123 1 mapped-IsValid (omega arith)

unmap_page-map_page_example :
    ((unmap_page mapped 0x400000).0 ≡ true)
    × ((w : ℕ) → entry (unmap_page mapped 0x400000).1 w ≡ entry bare w)
unmap_page-map_page_example =
    unmap_page-map_page pool bare 0x400000 0x200000 7 bare-IsValid (omega arith)
      (bare-entry 0x400000) maps
