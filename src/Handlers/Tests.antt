-- ===== src/Handlers/Tests.antt =====
-- Interrupts of kernel/interrupt.c on a given machine.
use v.Common.{ℕ, ◌≡◌, ◌<◌, [], arith}
use v.Scheduler.{Task, ready, initial_cpu}
use v.Handlers.{Machine, apic_isr_handler, returned, apic_eoi}
use v.Handlers.Replies.{Timer, Halts, apic_isr_handler-ends}

abbrev ready_task : Task
ready_task = record {
  cpu = initial_cpu 0 0;
  id = 0;
  state = ready;
  priority = 1;
  ticks = 0;
  sleep_ticks = 0;
}

-- Two ready tasks, on the fourth tick.
abbrev fourth_tick : Machine
fourth_tick = record {
  console = record { row = 24; column = 79; color = 7; buffer = λ j. j; ports = [] };
  scheduler = record { tasks = λ i. ready_task; task_count = 2; current_task = 0 };
  tick_count = 4;
  eois = 0;
}

abbrev timer_irq : ℕ
timer_irq = 32

apic_isr_handler-ends_example :
    (timer_irq ≡ 32 → Timer fourth_tick (apic_isr_handler timer_irq 0 fourth_tick))
    × (32 < timer_irq → apic_isr_handler timer_irq 0 fourth_tick ≡ returned (apic_eoi fourth_tick))
    × (timer_irq < 32 → Halts timer_irq 0 fourth_tick (apic_isr_handler timer_irq 0 fourth_tick))
apic_isr_handler-ends_example = apic_isr_handler-ends timer_irq 0 fourth_tick (record {
  console_valid = record { row_in = omega arith; column_in = omega arith };
  scheduler_valid = record { few = omega arith; current_in = omega arith };
})
