-- ===== src/UserMode.antt =====
-- kernel/user_mode.c: the user segments and the entry into user mode, over the interface of the page
-- tables. `switch_to_user_mode` is assembly: what it is given is the result.
pub mod Stack
mod Tests
use v.Common.{ℕ, ◌+◌, Bool, true, false, Option, none, some, update}
use v.Pages.{PageSource, map_run}

-- USER_CODE_SEGMENT_DESC and USER_DATA_SEGMENT_DESC
abbrev pub user_code_descriptor : ℕ
user_code_descriptor = 0x0020980000000000

abbrev pub user_data_descriptor : ℕ
user_data_descriptor = 0x0000920000000000

-- On gdt_entries.
pub setup_user_segments : (ℕ → ℕ) → ℕ → ℕ
setup_user_segments gdt_entries =
    update (update gdt_entries 3 user_code_descriptor) 4 user_data_descriptor

-- Where the user's stack stands, and its size.
abbrev pub user_stack_virt : ℕ
user_stack_virt = 0x100000000

abbrev pub user_stack_size : ℕ
user_stack_size = 8192

-- PAGE_PRESENT | PAGE_WRITABLE | PAGE_USER
abbrev pub user_flags : ℕ
user_flags = 7

-- The end of the call: the stack pointer and the function that user mode begins with, or a return.
pub switch_with : {Memory : Type 0} → ℕ → Bool × Memory → Option (ℕ × ℕ) × Memory
switch_with user_function (true, m) = (some (user_stack_virt + user_stack_size, user_function), m)
switch_with user_function (false, m) = (none, m)

-- The first page that it takes is not used.
pub enter_user_mode : (pages : PageSource) → ℕ → pages.Memory → Option (ℕ × ℕ) × pages.Memory
enter_user_mode pages user_function m =
    let (user_stack_phys, m1) = pages.alloc_physical_page m in
    switch_with user_function (map_run pages 2 user_stack_virt user_flags m1)
