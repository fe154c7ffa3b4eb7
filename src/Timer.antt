-- ===== src/Timer.antt =====
-- kernel/timer.c: `sleep` and `pit_init`. An interrupt wakes the processor from `hlt`: the interrupts that
-- come are a list that says of each whether it is the timer's, which counts a tick.
pub mod Sleep
mod Tests
use v.Common.{
  ℕ, ◌+◌, ◌-◌, ◌*◌, ◌/◌, ◌%◌, ◌^◌, Bool, true, false, List, [], ◌∷◌, Option, none, some, ltb,
  if◌then◌else◌, u32,
}
use v.Ata.{Ports}

-- TIMER_FREQUENCY and PIT_FREQUENCY
abbrev pub timer_frequency : ℕ
timer_frequency = 100

abbrev pub pit_frequency : ℕ
pit_frequency = 1193182

-- The loop of `sleep`, from the present tick count: `none` where the interrupts end before it does. The
-- tick count at the end, and the interrupts that are still to come.
pub sleep_loop : (start ticks tick_count : ℕ) → List Bool → Option (ℕ × List Bool)
sleep_loop start ticks tick_count [] =
    if ltb (u32 (tick_count + 2 ^ 32 - start)) ticks then none else some (tick_count, [])
sleep_loop start ticks tick_count (is_tick ∷ later) =
    let next = if is_tick then u32 (tick_count + 1) else tick_count in
    let rest = sleep_loop start ticks next later in
    if ltb (u32 (tick_count + 2 ^ 32 - start)) ticks
    then rest
    else some (tick_count, is_tick ∷ later)

pub sleep : (milliseconds tick_count : ℕ) → List Bool → Option (ℕ × List Bool)
sleep milliseconds tick_count interrupts =
    sleep_loop tick_count (milliseconds / (1000 / timer_frequency)) tick_count interrupts

-- The writes to PIT_COMMAND and PIT_CHANNEL0_DATA.
pub pit_init : (ports : Ports) → ports.Device → ports.Device
pit_init ports d =
    let divisor = pit_frequency / timer_frequency in
    let d1 = ports.outb 0x40 (divisor % 2 ^ 8) (ports.outb 0x43 0x36 d) in
    ports.outb 0x40 (divisor / 2 ^ 8 % 2 ^ 8) d1
