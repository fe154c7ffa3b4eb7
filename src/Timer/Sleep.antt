-- ===== src/Timer/Sleep.antt =====
-- How long `sleep` of kernel/timer.c waits.
use v.Common.{ℕ, suc, ◌≡◌, Bool, true, false, List, [], ◌∷◌, ◌++◌, Option, none, some}

-- The timer's interrupts of a list.
unfoldable pub ticks_in : List Bool → ℕ
ticks_in [] = 0
ticks_in (true ∷ is) = suc (ticks_in is)
ticks_in (false ∷ is) = ticks_in is

-- A wait that ends behind the first interrupts of a list, `n` of which are the timer's.
abbrev pub Ends : (n tick_end : ℕ) → List Bool → Option (ℕ × List Bool) → Type 0
Ends n tick_end is none = ⊥
Ends n tick_end is (some (tick, later)) =
    (tick ≡ tick_end) × ((sooner : List Bool) × (is ≡ sooner ++ later) × (ticks_in sooner ≡ n))
