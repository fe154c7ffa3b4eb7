-- ===== src/Timer/Tests.antt =====
-- A sleep over the wrap of the tick count.
use v.Common.{◌-◌, ◌^◌, ◌≡◌, refl, Bool, true, false, List, [], ◌∷◌, some}
use v.Timer.{sleep, sleep_loop}

abbrev arrivals : List Bool
arrivals = true ∷ false ∷ true ∷ true ∷ []

-- 25 milliseconds are two ticks.
sleeps : sleep 25 (2 ^ 32 - 1) arrivals ≡ some (1, true ∷ [])
unfolding sleep sleep_loop
sleeps = refl
