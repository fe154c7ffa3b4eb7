-- ===== src/Handlers/Replies.antt =====
-- How the interrupt handlers of kernel/interrupt.c end, and what they have done by then.
use v.Common.{
  ℕ, suc, ◌+◌, ◌%◌, ◌<◌, ◌≡◌, refl, Option, none, some, List, [], ◌==◌, ltb, leb, get_or, arith,
  Bool-cases, inl, inr, true, false, u32, length,
}
use v.Console.{Console, console_write}
use v.Console.Cursor
use v.Scheduler.{Scheduler, timer_callback}
use v.Scheduler.Choice
use v.Scheduler.Tasks.{scheduler_schedule-IsValid}
use v.Handlers.{
  Machine, Reply, returned, switched, halted, hung, exception_messages, exception_opening,
  halt_message, code_message, line_end, report_exception, isr_handler, apic_eoi, after_schedule,
  timer_interrupt, apic_isr_handler,
}

-- The cursor is on the screen and the scheduler's indices are valid.
pub record IsSound (m : Machine) : Type 0 where
  pub console_valid : Cursor.IsValid m.console
  pub scheduler_valid : Choice.IsValid m.scheduler

-- The handler of a timer interrupt: it returns with one more EOI, or it leaves with none.
abbrev pub Timer : Machine → Reply → Type 0
Timer m (returned m1) =
    IsSound m1 × (m1.eois ≡ suc m.eois) × (m1.tick_count ≡ u32 (m.tick_count + 1))
Timer m (switched s m1) = IsSound m1 × (m1.eois ≡ m.eois) × (m1.tick_count ≡ u32 (m.tick_count + 1))
Timer m (halted m1) = ⊥
Timer m hung = ⊥

after_schedule-Timer :
    (m : Machine) (r : Scheduler × Option (ℕ × ℕ))
    → IsSound m
    → Choice.IsValid r.0
    → Timer m (after_schedule m (u32 (m.tick_count + 1)) (some r))
unfolding after_schedule apic_eoi
after_schedule-Timer m (s, none) v w =
    (record { console_valid = v.console_valid; scheduler_valid = w }, refl, refl)
after_schedule-Timer m (s, some switch) v w =
    (record { console_valid = v.console_valid; scheduler_valid = w }, refl, refl)

timer_interrupt-Timer : (m : Machine) → IsSound m → Timer m (timer_interrupt m)
unfolding timer_interrupt timer_callback
timer_interrupt-Timer m v = elim (Bool-cases ((u32 (m.tick_count + 1) % 5) == 0)) [
  | inl h ↦
      let (r, e, w, same) = scheduler_schedule-IsValid m.scheduler v.scheduler_valid in
      rw (h, e) (after_schedule-Timer m r v w)
  | inr h ↦ rw h (after_schedule-Timer m (m.scheduler, none) v v.scheduler_valid)
]

-- A reply that goes on with the same console.
abbrev pub Quiet : Machine → Reply → Type 0
Quiet m (returned m1) = m1.console ≡ m.console
Quiet m (switched s m1) = m1.console ≡ m.console
Quiet m (halted m1) = Unit
Quiet m hung = Unit

after_schedule-Quiet :
    (m : Machine) (tick : ℕ) (o : Option (Scheduler × Option (ℕ × ℕ)))
    → Quiet m (after_schedule m tick o)
unfolding after_schedule apic_eoi
after_schedule-Quiet m tick none = tt
after_schedule-Quiet m tick (some (s, none)) = refl
after_schedule-Quiet m tick (some (s, some switch)) = refl

pub apic_isr_handler-Quiet :
    (int_no err_code : ℕ) (m : Machine) → Quiet m (apic_isr_handler int_no err_code m)
unfolding apic_isr_handler isr_handler timer_interrupt apic_eoi
apic_isr_handler-Quiet int_no err_code m = elim (Bool-cases (int_no == 32)) [
  | inl timer ↦
      let (chosen, tick) = timer_callback m.scheduler m.tick_count in
      rw (apic_isr_handler, timer) (after_schedule-Quiet m tick chosen)
  | inr other ↦ elim (Bool-cases (leb 32 int_no)) [
    | inl device ↦ rw (apic_isr_handler, other, device) refl
    | inr exception ↦ elim (Bool-cases (ltb int_no 32)) [
      | inl low ↦ rw (apic_isr_handler, other, exception, low) tt
      | inr high ↦ rw (apic_isr_handler, other, exception, high) refl
    ]
  ]
]

write-IsValid :
    (text : List ℕ) (c : Console) → Cursor.IsValid c → Cursor.IsValid (console_write c text)
write-IsValid text c v = (Cursor.console_write_safe text c v).0

report_exception_safe :
    (int_no err_code : ℕ) (c : Console)
    → Cursor.IsValid c
    → Cursor.IsValid (report_exception int_no err_code c)
unfolding report_exception
report_exception_safe int_no err_code c v =
    let message = get_or exception_messages int_no [] in
    let c1 = console_write c exception_opening in
    let c2 = console_write c1 message in
    let c3 = console_write c2 halt_message in
    let v3 =
      write-IsValid halt_message c2
        (write-IsValid message c1 (write-IsValid exception_opening c v)) in
    elim (Bool-cases (err_code == 0)) [
      | inl h ↦ rw (report_exception, h) v3
      | inr h ↦
          rw (report_exception, h)
            (write-IsValid line_end (console_write c3 code_message)
              (write-IsValid code_message c3 v3))
    ]

-- An exception halts, with its text on the screen and nothing else changed.
abbrev pub Halts : ℕ → ℕ → Machine → Reply → Type 0
Halts int_no err_code m r =
    let m1 = record m { console = report_exception int_no err_code m.console } in
    (r ≡ halted m1) × IsSound m1 × (int_no < length exception_messages)

-- From a cursor on the screen and valid indices of the scheduler, apic_isr_handler ends in every case: the
-- timer interrupt (32) counts one tick and either returns with one more EOI, or leaves for another task
-- with no EOI yet; each interrupt above 32 returns with one more EOI and changes nothing else; each below
-- 32 halts with the text of an exception that the table has. The cursor stays on the screen and the
-- scheduler's indices stay valid.
pub apic_isr_handler-ends :
    (int_no err_code : ℕ) (m : Machine)
    → IsSound m
    → (int_no ≡ 32 → Timer m (apic_isr_handler int_no err_code m))
      × (32 < int_no → apic_isr_handler int_no err_code m ≡ returned (apic_eoi m))
      × (int_no < 32 → Halts int_no err_code m (apic_isr_handler int_no err_code m))
unfolding apic_isr_handler isr_handler
apic_isr_handler-ends int_no err_code m v = (
  λ e.
      let timer : (int_no == 32) ≡ true = ground (arith, e) in
      rw (apic_isr_handler, timer) (timer_interrupt-Timer m v),
  λ l.
      let other : (int_no == 32) ≡ false = ground (arith, l) in
      let device : leb 32 int_no ≡ true = ground (arith, l) in
      rw (apic_isr_handler, other, device) refl,
  λ l.
      let other : (int_no == 32) ≡ false = ground (arith, l) in
      let device : leb 32 int_no ≡ false = ground (arith, l) in
      let exception : ltb int_no 32 ≡ true = ground (arith, l) in
      (
        rw (apic_isr_handler, other, device, exception) refl,
        record {
          console_valid = report_exception_safe int_no err_code m.console v.console_valid;
          scheduler_valid = v.scheduler_valid;
        },
        l,
      ),
)
