-- ===== src/UserMode/Tests.antt =====
-- The entry into user mode from an empty PML4.
use v.Common.{ℕ, ◌/◌, ◌^◌, ◌%◌, ◌≡◌, refl, some, ◌==◌, if◌then◌else◌, arith}
use v.Pages.{map_run}
use v.Paging.{
  Paging, page_tables, alloc_physical_page, map_page, clear_table, next_table, add_table, and_then,
  map_entry, bootstrap_alloc,
}
use v.Paging.Tree.{IsTree, IsValid}
use v.UserMode.{enter_user_mode, switch_with, setup_user_segments}
use v.UserMode.Stack.{Stacked, enter_user_mode_lem}

abbrev pool : ℕ
pool = 0x10000

-- An empty PML4 at 4096.
abbrev bare : Paging
bare = record { words = λ a. 0; pml4 = 4096; next_free_page = 0x200000; bootstrap_memory_used = 0 }

bare-IsTree : IsTree pool bare (λ t. if t == 4096 then 4 else 0) (λ t. 0) (λ t. 0)
bare-IsTree = record {
  root = refl;
  aligned = λ t l. ground arith;
  child = λ t i k l b p. cc;
  pool_page = refl;
  used_page = refl;
  used_in = omega arith;
  fresh = λ t lo hi. ground arith;
}

bare-IsValid : IsValid pool bare
bare-IsValid = record {
  level = λ t. if t == 4096 then 4 else 0;
  parent = λ t. 0;
  place = λ t. 0;
  tree = bare-IsTree;
}

-- It begins user mode.
enters : (enter_user_mode (page_tables pool) 5 bare).0 ≡ some (0x100002000, 5)
unfolding enter_user_mode switch_with map_run alloc_physical_page map_page next_table
    bootstrap_alloc add_table and_then map_entry clear_table
enters = refl

-- The third descriptor has a privilege level (the digits 45 and 46) of 0.
kernel_level : setup_user_segments (λ i. 0) 3 / 2 ^ 45 % 4 ≡ 0
unfolding setup_user_segments
kernel_level = refl

enter_user_mode_lem_example : Stacked pool bare 5 (enter_user_mode (page_tables pool) 5 bare)
enter_user_mode_lem_example = enter_user_mode_lem pool 5 bare bare-IsValid
