-- ===== src/UserMode/Stack.antt =====
-- The stack of `enter_user_mode` (kernel/user_mode.c) in the page tables of kernel/memory.c.
use v.Common.{
  ℕ, ◌+◌, ◌-◌, ◌*◌, ◌/◌, ◌%◌, ◌≤◌, ◌<◌, ◌≡◌, refl, ap, ◌∙◌, Bool, true, false, Option, none, some,
  arith,
}
use v.Pages.{map_run}
use v.Paging.{Paging, page_tables, alloc_physical_page}
use v.Paging.Tree.{entry, IsValid}
use v.Paging.Entry.{page_number, entry-same}
use v.Paging.Run.{Ran, Outside, map_run-Ran, recount}
use v.UserMode.{enter_user_mode, switch_with, user_stack_virt, user_stack_size, user_flags}

-- What the call comes to: user mode begins at the top of a stack whose pages are present, writable and
-- the user's; or it returns. No other page changes, and the tables stay valid.
abbrev pub Stacked : ℕ → Paging → ℕ → Option (ℕ × ℕ) × Paging → Type 0
Stacked pool s f (some (top, g), s1) =
    (top ≡ user_stack_virt + user_stack_size)
    × (g ≡ f)
    × IsValid pool s1
    × ((v : ℕ) → user_stack_virt ≤ v → v < top → entry s1 v % 4096 ≡ user_flags)
    × ((w : ℕ) → Outside 2 user_stack_virt w → entry s1 w ≡ entry s w)
Stacked pool s f (none, s1) =
    IsValid pool s1 × ((w : ℕ) → Outside 2 user_stack_virt w → entry s1 w ≡ entry s w)

switched :
    (pool f : ℕ) (s s0 : Paging) (r : Bool × Paging)
    → ((w : ℕ) → entry s0 w ≡ entry s w)
    → Ran pool user_flags s0 2 user_stack_virt r.0 r.1
    → Stacked pool s f (switch_with f r)
unfolding switch_with
switched pool f s s0 (true, s1) same r = (
  refl,
  refl,
  r.valid,
  λ v lo hi.
      let i = (v - user_stack_virt) / 4096 in
      let here : page_number v ≡ page_number (user_stack_virt + i * 4096) = omega (arith, lo, hi) in
      ap (λ e. e % 4096) (entry-same s1 v (user_stack_virt + i * 4096) here)
      ∙ r.flagged refl i (omega (arith, lo, hi)),
  λ w o. r.outside w o ∙ same w,
)
switched pool f s s0 (false, s1) same r = (r.valid, λ w o. r.outside w o ∙ same w)

-- On valid page tables, enter_user_mode either begins user mode with the given function and the top of
-- the stack, of whose bytes each is in a page that is present, writable and the user's, or returns; in both
-- cases the tables stay valid and no page but the two of the stack has another entry than before.
pub enter_user_mode_lem :
    (pool f : ℕ) (s : Paging)
    → IsValid pool s
    → Stacked pool s f (enter_user_mode (page_tables pool) f s)
unfolding enter_user_mode alloc_physical_page
enter_user_mode_lem pool f s ok =
    let (page, s0) = alloc_physical_page s in
    switched pool f s s0 (map_run (page_tables pool) 2 user_stack_virt user_flags s0) (λ w. refl)
      (map_run-Ran pool user_flags (omega arith) 2 user_stack_virt s0
        (recount pool s s0.next_free_page ok) (omega arith) (omega arith) (omega arith))
