-- ===== src/Handlers.antt =====
-- `isr_handler` and `apic_isr_handler` of kernel/interrupt.c, over the console and the scheduler. An
-- interrupt that switches tasks has not returned: the rest of it waits on the stack of the old task.
pub mod Replies
mod Tests
use v.Common.{
  ℕ, zero, suc, ◌+◌, List, [], ◌∷◌, Option, none, some, ◌==◌, ltb, leb, if◌then◌else◌, get_or,
}
use v.Console.{Console, console_write}
use v.Scheduler.{Scheduler, timer_callback}

-- What the handlers work on. `eois` counts the writes of `apic_eoi`.
pub record Machine : Type 0 where
  pub console : Console
  pub scheduler : Scheduler
  pub tick_count : ℕ
  pub eois : ℕ

-- How a handler ends: it returns; it leaves for another task, from the task of the first index to that
-- of the second; it halts the processor for ever; or its search for a task does not end.
pub data Reply : Type 0 where
  returned : Machine → Reply
  switched : ℕ × ℕ → Machine → Reply
  halted : Machine → Reply
  hung : Reply

-- exception_messages
abbrev pub exception_messages : List (List ℕ)
exception_messages =
    (b'D' ∷ b'i' ∷ b'v' ∷ b'i' ∷ b's' ∷ b'i' ∷ b'o' ∷ b'n' ∷ b' ' ∷ b'B' ∷ b'y' ∷ b' ' ∷ b'Z' ∷ b'e'
      ∷ b'r' ∷ b'o' ∷ [])
    ∷ (b'D' ∷ b'e' ∷ b'b' ∷ b'u' ∷ b'g' ∷ [])
    ∷ (b'N' ∷ b'o' ∷ b'n' ∷ b'-' ∷ b'M' ∷ b'a' ∷ b's' ∷ b'k' ∷ b'a' ∷ b'b' ∷ b'l' ∷ b'e' ∷ b' '
        ∷ b'I' ∷ b'n' ∷ b't' ∷ b'e' ∷ b'r' ∷ b'r' ∷ b'u' ∷ b'p' ∷ b't' ∷ [])
    ∷ (b'B' ∷ b'r' ∷ b'e' ∷ b'a' ∷ b'k' ∷ b'p' ∷ b'o' ∷ b'i' ∷ b'n' ∷ b't' ∷ [])
    ∷ (b'O' ∷ b'v' ∷ b'e' ∷ b'r' ∷ b'f' ∷ b'l' ∷ b'o' ∷ b'w' ∷ [])
    ∷ (b'B' ∷ b'o' ∷ b'u' ∷ b'n' ∷ b'd' ∷ b' ' ∷ b'R' ∷ b'a' ∷ b'n' ∷ b'g' ∷ b'e' ∷ b' ' ∷ b'E'
        ∷ b'x' ∷ b'c' ∷ b'e' ∷ b'e' ∷ b'd' ∷ b'e' ∷ b'd' ∷ [])
    ∷ (b'I' ∷ b'n' ∷ b'v' ∷ b'a' ∷ b'l' ∷ b'i' ∷ b'd' ∷ b' ' ∷ b'O' ∷ b'p' ∷ b'c' ∷ b'o' ∷ b'd'
        ∷ b'e' ∷ [])
    ∷ (b'D' ∷ b'e' ∷ b'v' ∷ b'i' ∷ b'c' ∷ b'e' ∷ b' ' ∷ b'N' ∷ b'o' ∷ b't' ∷ b' ' ∷ b'A' ∷ b'v'
        ∷ b'a' ∷ b'i' ∷ b'l' ∷ b'a' ∷ b'b' ∷ b'l' ∷ b'e' ∷ [])
    ∷ (b'D' ∷ b'o' ∷ b'u' ∷ b'b' ∷ b'l' ∷ b'e' ∷ b' ' ∷ b'F' ∷ b'a' ∷ b'u' ∷ b'l' ∷ b't' ∷ [])
    ∷ (b'C' ∷ b'o' ∷ b'p' ∷ b'r' ∷ b'o' ∷ b'c' ∷ b'e' ∷ b's' ∷ b's' ∷ b'o' ∷ b'r' ∷ b' ' ∷ b'S'
        ∷ b'e' ∷ b'g' ∷ b'm' ∷ b'e' ∷ b'n' ∷ b't' ∷ b' ' ∷ b'O' ∷ b'v' ∷ b'e' ∷ b'r' ∷ b'r' ∷ b'u'
        ∷ b'n' ∷ [])
    ∷ (b'I' ∷ b'n' ∷ b'v' ∷ b'a' ∷ b'l' ∷ b'i' ∷ b'd' ∷ b' ' ∷ b'T' ∷ b'S' ∷ b'S' ∷ [])
    ∷ (b'S' ∷ b'e' ∷ b'g' ∷ b'm' ∷ b'e' ∷ b'n' ∷ b't' ∷ b' ' ∷ b'N' ∷ b'o' ∷ b't' ∷ b' ' ∷ b'P'
        ∷ b'r' ∷ b'e' ∷ b's' ∷ b'e' ∷ b'n' ∷ b't' ∷ [])
    ∷ (b'S' ∷ b't' ∷ b'a' ∷ b'c' ∷ b'k' ∷ b' ' ∷ b'F' ∷ b'a' ∷ b'u' ∷ b'l' ∷ b't' ∷ [])
    ∷ (b'G' ∷ b'e' ∷ b'n' ∷ b'e' ∷ b'r' ∷ b'a' ∷ b'l' ∷ b' ' ∷ b'P' ∷ b'r' ∷ b'o' ∷ b't' ∷ b'e'
        ∷ b'c' ∷ b't' ∷ b'i' ∷ b'o' ∷ b'n' ∷ b' ' ∷ b'F' ∷ b'a' ∷ b'u' ∷ b'l' ∷ b't' ∷ [])
    ∷ (b'P' ∷ b'a' ∷ b'g' ∷ b'e' ∷ b' ' ∷ b'F' ∷ b'a' ∷ b'u' ∷ b'l' ∷ b't' ∷ [])
    ∷ (b'R' ∷ b'e' ∷ b's' ∷ b'e' ∷ b'r' ∷ b'v' ∷ b'e' ∷ b'd' ∷ [])
    ∷ (b'x' ∷ b'8' ∷ b'7' ∷ b' ' ∷ b'F' ∷ b'l' ∷ b'o' ∷ b'a' ∷ b't' ∷ b'i' ∷ b'n' ∷ b'g' ∷ b' '
        ∷ b'P' ∷ b'o' ∷ b'i' ∷ b'n' ∷ b't' ∷ b' ' ∷ b'E' ∷ b'x' ∷ b'c' ∷ b'e' ∷ b'p' ∷ b't' ∷ b'i'
        ∷ b'o' ∷ b'n' ∷ [])
    ∷ (b'A' ∷ b'l' ∷ b'i' ∷ b'g' ∷ b'n' ∷ b'm' ∷ b'e' ∷ b'n' ∷ b't' ∷ b' ' ∷ b'C' ∷ b'h' ∷ b'e'
        ∷ b'c' ∷ b'k' ∷ [])
    ∷ (b'M' ∷ b'a' ∷ b'c' ∷ b'h' ∷ b'i' ∷ b'n' ∷ b'e' ∷ b' ' ∷ b'C' ∷ b'h' ∷ b'e' ∷ b'c' ∷ b'k'
        ∷ [])
    ∷ (b'S' ∷ b'I' ∷ b'M' ∷ b'D' ∷ b' ' ∷ b'F' ∷ b'l' ∷ b'o' ∷ b'a' ∷ b't' ∷ b'i' ∷ b'n' ∷ b'g'
        ∷ b' ' ∷ b'P' ∷ b'o' ∷ b'i' ∷ b'n' ∷ b't' ∷ b' ' ∷ b'E' ∷ b'x' ∷ b'c' ∷ b'e' ∷ b'p' ∷ b't'
        ∷ b'i' ∷ b'o' ∷ b'n' ∷ [])
    ∷ (b'V' ∷ b'i' ∷ b'r' ∷ b't' ∷ b'u' ∷ b'a' ∷ b'l' ∷ b'i' ∷ b'z' ∷ b'a' ∷ b't' ∷ b'i' ∷ b'o'
        ∷ b'n' ∷ b' ' ∷ b'E' ∷ b'x' ∷ b'c' ∷ b'e' ∷ b'p' ∷ b't' ∷ b'i' ∷ b'o' ∷ b'n' ∷ [])
    ∷ (b'R' ∷ b'e' ∷ b's' ∷ b'e' ∷ b'r' ∷ b'v' ∷ b'e' ∷ b'd' ∷ [])
    ∷ (b'R' ∷ b'e' ∷ b's' ∷ b'e' ∷ b'r' ∷ b'v' ∷ b'e' ∷ b'd' ∷ [])
    ∷ (b'R' ∷ b'e' ∷ b's' ∷ b'e' ∷ b'r' ∷ b'v' ∷ b'e' ∷ b'd' ∷ [])
    ∷ (b'R' ∷ b'e' ∷ b's' ∷ b'e' ∷ b'r' ∷ b'v' ∷ b'e' ∷ b'd' ∷ [])
    ∷ (b'R' ∷ b'e' ∷ b's' ∷ b'e' ∷ b'r' ∷ b'v' ∷ b'e' ∷ b'd' ∷ [])
    ∷ (b'R' ∷ b'e' ∷ b's' ∷ b'e' ∷ b'r' ∷ b'v' ∷ b'e' ∷ b'd' ∷ [])
    ∷ (b'R' ∷ b'e' ∷ b's' ∷ b'e' ∷ b'r' ∷ b'v' ∷ b'e' ∷ b'd' ∷ [])
    ∷ (b'R' ∷ b'e' ∷ b's' ∷ b'e' ∷ b'r' ∷ b'v' ∷ b'e' ∷ b'd' ∷ [])
    ∷ (b'R' ∷ b'e' ∷ b's' ∷ b'e' ∷ b'r' ∷ b'v' ∷ b'e' ∷ b'd' ∷ [])
    ∷ (b'R' ∷ b'e' ∷ b's' ∷ b'e' ∷ b'r' ∷ b'v' ∷ b'e' ∷ b'd' ∷ [])
    ∷ (b'R' ∷ b'e' ∷ b's' ∷ b'e' ∷ b'r' ∷ b'v' ∷ b'e' ∷ b'd' ∷ [])
    ∷ []

abbrev pub exception_opening : List ℕ
exception_opening = b'E' ∷ b'x' ∷ b'c' ∷ b'e' ∷ b'p' ∷ b't' ∷ b'i' ∷ b'o' ∷ b'n' ∷ b':' ∷ b' ' ∷ []

abbrev pub halt_message : List ℕ
halt_message =
    10 ∷ b'S' ∷ b'y' ∷ b's' ∷ b't' ∷ b'e' ∷ b'm' ∷ b' ' ∷ b'H' ∷ b'a' ∷ b'l' ∷ b't' ∷ b'e' ∷ b'd'
    ∷ b'!' ∷ 10 ∷ []

abbrev pub code_message : List ℕ
code_message =
    b'E' ∷ b'r' ∷ b'r' ∷ b'o' ∷ b'r' ∷ b' ' ∷ b'c' ∷ b'o' ∷ b'd' ∷ b'e' ∷ b':' ∷ b' ' ∷ b'0' ∷ b'x'
    ∷ []

abbrev pub line_end : List ℕ
line_end = 10 ∷ []

-- The text of an exception.
pub report_exception : ℕ → ℕ → Console → Console
report_exception int_no err_code c =
    let c1 = console_write c exception_opening in
    let c2 = console_write c1 (get_or exception_messages int_no []) in
    let c3 = console_write c2 halt_message in
    if err_code == 0 then c3 else console_write (console_write c3 code_message) line_end

pub isr_handler : ℕ → ℕ → Machine → Reply
isr_handler int_no err_code m =
    if ltb int_no 32
    then halted (record m { console = report_exception int_no err_code m.console })
    else returned m

unfoldable pub apic_eoi : Machine → Machine
apic_eoi m = record m { eois = suc m.eois }

-- The end of `timer_callback` once the scheduler has chosen: `apic_eoi` stands behind the call that
-- switches.
pub after_schedule : Machine → ℕ → Option (Scheduler × Option (ℕ × ℕ)) → Reply
after_schedule m tick none = hung
after_schedule m tick (some (s, none)) =
    returned (apic_eoi (record m { scheduler = s; tick_count = tick }))
after_schedule m tick (some (s, some switch)) =
    switched switch (record m { scheduler = s; tick_count = tick })

pub timer_interrupt : Machine → Reply
timer_interrupt m =
    let (chosen, tick) = timer_callback m.scheduler m.tick_count in after_schedule m tick chosen

pub apic_isr_handler : ℕ → ℕ → Machine → Reply
apic_isr_handler int_no err_code m =
    if int_no == 32
    then timer_interrupt m
    else if leb 32 int_no
    then returned (apic_eoi m)
    else isr_handler int_no err_code m
