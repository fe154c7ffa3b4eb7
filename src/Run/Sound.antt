-- ===== src/Run/Sound.antt =====
-- What holds in every state that the kernel reaches.
use v.Common.{
  ◌≤◌, refl, ap, ℕ, ◌<◌, ◌≡◌, ◌≢◌, sym, ◌∙◌, ◌⊎◌, subst, inl, inr, List, [], ◌∷◌, Option, none,
  some, arith,
}
use v.Pages.{PageSource}
use v.Console.{Console, console_putchar}
use v.Console.Cursor
use v.Keyboard.{main_turn}
use v.Keyboard.Ring
use v.Scheduler.{Scheduler, scheduler_sleep, scheduler_add_task, doze}
use v.Scheduler.Choice
use v.Scheduler.Tasks.{scheduler_schedule-IsValid, doze-IsValid, sleep_schedules}
use v.Process.Create
use v.Handlers
use v.Handlers.{Machine, Reply, apic_isr_handler}
use v.Handlers.Replies
use v.Syscall
use v.Syscall.{Kernel, Handler, syscall_init, syscall_dispatch}
use v.Syscall.Keeps
use v.Run.{
  System, machine, kernel, key_interrupt, put_all, main_loop_turn, task_text, Step, key, turn,
  wrote, slept, interrupted, switched, called, created, added, Reaches, at_start, then_step,
}

-- The invariants of the parts.
pub record IsSound {M : Type 0} (s : System M) : Type 0 where
  pub ring : Ring.IsValid s.keyboard
  pub cursor : Cursor.IsValid s.console
  pub indices : Choice.IsValid s.scheduler
  pub slots : Create.IsValid s.table

-- The memory behind the 2000 cells of the screen is the same.
abbrev pub Outside : Console → Console → Type 0
Outside c c1 = (j : ℕ) → 2000 ≤ j → c1.buffer j ≡ c.buffer j

put_all-IsValid :
    (xs : List ℕ) (c : Console)
    → Cursor.IsValid c
    → Cursor.IsValid (put_all xs c) × Outside c (put_all xs c)
unfolding put_all
put_all-IsValid [] c v = (v, λ j h. refl)
put_all-IsValid (x ∷ xs) c v =
    let (w, tells, outside) = Cursor.console_putchar_safe c x v in
    let (w1, outside1) = put_all-IsValid xs (console_putchar c x) w in
    (w1, λ j h. outside1 j h ∙ outside j h)

scheduler_sleep-IsValid :
    (s s1 : Scheduler) (switch : Option (ℕ × ℕ)) (ticks : ℕ)
    → Choice.IsValid s
    → scheduler_sleep s ticks ≡ some (s1, switch)
    → Choice.IsValid s1
scheduler_sleep-IsValid s s1 switch ticks v e =
    let (r, found, w, same) = scheduler_schedule-IsValid (doze s ticks) (doze-IsValid s ticks v) in
    let here : some r ≡ some (s1, switch) = sym found ∙ sym (sleep_schedules s ticks v) ∙ e in
    let there : r ≡ (s1, switch) = cc here in
    subst (λ (x : Scheduler × Option (ℕ × ℕ)). Choice.IsValid x.0) there w

scheduler_sleep-ends :
    (s : Scheduler) (ticks : ℕ) → Choice.IsValid s → scheduler_sleep s ticks ≢ none
scheduler_sleep-ends s ticks v e =
    let (r, found, w, same) = scheduler_schedule-IsValid (doze s ticks) (doze-IsValid s ticks v) in
    cc (sleep_schedules s ticks v, found, e)

-- What the interrupt handlers rely on.
seen : {M : Type 0} {s : System M} → IsSound s → Replies.IsSound (machine s)
seen v = record { console_valid = v.cursor; scheduler_valid = v.indices }

-- A reply of the interrupt handler that leaves a sound machine.
abbrev Leaves : Reply → Type 0
Leaves (Handlers.returned m) = Replies.IsSound m
Leaves (Handlers.switched switch m) = Replies.IsSound m
Leaves (Handlers.halted m) = Replies.IsSound m
Leaves Handlers.hung = ⊥

Timer-Leaves : (m : Machine) (r : Reply) → Replies.Timer m r → Leaves r
Timer-Leaves m (Handlers.returned m1) (v, eoi, tick) = v
Timer-Leaves m (Handlers.switched switch m1) (v, eoi, tick) = v
Timer-Leaves m (Handlers.halted m1) never = elim never [ ]
Timer-Leaves m Handlers.hung never = elim never [ ]

apic_isr_handler-Leaves :
    (int_no err_code : ℕ) (m : Machine)
    → Replies.IsSound m
    → Leaves (apic_isr_handler int_no err_code m)
unfolding Handlers.apic_eoi
apic_isr_handler-Leaves int_no err_code m v =
    let (timer, device, exception) = Replies.apic_isr_handler-ends int_no err_code m v in
    elim (Nat-trichotomy int_no) [
      | inl l ↦ let (halts, w, named) = exception l in subst Leaves (sym halts) w
      | inr (inl e) ↦ Timer-Leaves m (apic_isr_handler int_no err_code m) (timer e)
      | inr (inr l) ↦
          subst Leaves (sym (device l))
            (record { console_valid = v.console_valid; scheduler_valid = v.scheduler_valid })
    ]
  where
    Nat-trichotomy : (n : ℕ) → (n < 32) ⊎ ((n ≡ 32) ⊎ (32 < n))
    Nat-trichotomy n = ground arith

scheduler_add_task-IsValid :
    (pages : PageSource) (s : Scheduler) (m : pages.Memory) (entry_point : ℕ)
    → Choice.IsValid s
    → Choice.IsValid (scheduler_add_task pages s m entry_point).0
unfolding scheduler_add_task
scheduler_add_task-IsValid pages s m entry_point v = record {
  few = ground (arith, v.few);
  current_in = ground (arith, v.current_in);
}

Kept-kernel :
    (k k1 : Kernel) (r : Syscall.Reply) (result : ℕ)
    → r ≡ Syscall.returned result k1
    → Keeps.KeptBy k r
    → Keeps.Kept k k1
Kept-kernel k k1 r result e kept = subst (Keeps.KeptBy k) e kept

module _ (pages : PageSource) (register : (ℕ → Option Handler) → ℕ → Handler → ℕ → Option Handler)
    (promise : Keeps.IsRegister register) (handlers : ℕ → Option Handler) where
  called-Kept :
      (s : System pages.Memory) (k : Kernel) (result n a1 a2 a3 a4 a5 a6 : ℕ)
      → syscall_dispatch (syscall_init register handlers) n (kernel s) a1 a2 a3 a4 a5 a6
        ≡ Syscall.returned result k
      → IsSound s
      → Keeps.Kept (kernel s) k
  called-Kept s k result n a1 a2 a3 a4 a5 a6 e v = Kept-kernel (kernel s) k _ result e (
      Keeps.syscall_dispatch_safe register promise handlers n (kernel s) a1 a2 a3 a4 a5 a6
        (record { console_valid = v.cursor; table_valid = v.slots }))

  Step-IsSound :
      (s t : System pages.Memory)
      → Step pages (syscall_init register handlers) s t
      → IsSound s
      → IsSound t
  unfolding key_interrupt main_loop_turn task_text
  Step-IsSound s t (key scancode) v = record {
    ring = Ring.keyboard_handler-IsValid scancode v.ring;
    cursor = v.cursor;
    indices = v.indices;
    slots = v.slots;
  }
  Step-IsSound s t turn v = record {
    ring = Ring.main_turn-IsValid v.ring;
    cursor = (put_all-IsValid (main_turn s.keyboard).0 s.console v.cursor).0;
    indices = v.indices;
    slots = v.slots;
  }
  Step-IsSound s t (wrote text) v = record {
    cursor = (Cursor.console_write_safe text s.console v.cursor).0;
    ring = v.ring;
    indices = v.indices;
    slots = v.slots;
  }
  Step-IsSound s t (slept {sleeping} {switch} ticks e) v = record {
    indices = scheduler_sleep-IsValid s.scheduler sleeping switch ticks v.indices e;
    ring = v.ring;
    cursor = v.cursor;
    slots = v.slots;
  }
  Step-IsSound s t (interrupted int_no err_code e) v =
      let w = subst Leaves e (apic_isr_handler-Leaves int_no err_code (machine s) (seen v)) in
      record {
        cursor = w.console_valid;
        indices = w.scheduler_valid;
        ring = v.ring;
        slots = v.slots;
      }
  Step-IsSound s t (switched int_no err_code e) v =
      let w = subst Leaves e (apic_isr_handler-Leaves int_no err_code (machine s) (seen v)) in
      record {
        cursor = w.console_valid;
        indices = w.scheduler_valid;
        ring = v.ring;
        slots = v.slots;
      }
  Step-IsSound s t (called {k} {result} n a1 a2 a3 a4 a5 a6 e) v =
      let kept = called-Kept s k result n a1 a2 a3 a4 a5 a6 e v in
      record {
        cursor = kept.sound.console_valid;
        slots = kept.sound.table_valid;
        ring = v.ring;
        indices = v.indices;
      }
  Step-IsSound s t (created entry_point name) v = record {
    slots = (Create.process_create_lem pages s.table s.memory entry_point name v.slots).0;
    ring = v.ring;
    cursor = v.cursor;
    indices = v.indices;
  }
  Step-IsSound s t (added entry_point) v = record {
    indices = scheduler_add_task-IsValid pages s.scheduler s.memory entry_point v.indices;
    ring = v.ring;
    cursor = v.cursor;
    slots = v.slots;
  }

  Step-Outside :
      (s t : System pages.Memory)
      → Step pages (syscall_init register handlers) s t
      → IsSound s
      → Outside s.console t.console
  unfolding key_interrupt main_loop_turn task_text
  Step-Outside s t (key scancode) v j h = refl
  Step-Outside s t turn v j h = (put_all-IsValid (main_turn s.keyboard).0 s.console v.cursor).1 j h
  Step-Outside s t (wrote text) v j h = (Cursor.console_write_safe text s.console v.cursor).1 j h
  Step-Outside s t (slept ticks e) v j h = refl
  Step-Outside s t (interrupted int_no err_code e) v j h =
      let same =
        subst (Replies.Quiet (machine s)) e
          (Replies.apic_isr_handler-Quiet int_no err_code (machine s)) in
      ap (λ (c : Console). c.buffer j) same
  Step-Outside s t (switched int_no err_code e) v j h =
      let same =
        subst (Replies.Quiet (machine s)) e
          (Replies.apic_isr_handler-Quiet int_no err_code (machine s)) in
      ap (λ (c : Console). c.buffer j) same
  Step-Outside s t (called {k} {result} n a1 a2 a3 a4 a5 a6 e) v j h =
      (called-Kept s k result n a1 a2 a3 a4 a5 a6 e v).outside j h
  Step-Outside s t (created entry_point name) v j h = refl
  Step-Outside s t (added entry_point) v j h = refl

  steps-IsSound :
      (s t : System pages.Memory)
      → Reaches pages (syscall_init register handlers) s t
      → IsSound s
      → IsSound t × Outside s.console t.console
  steps-IsSound s t at_start v = (v, λ j h. refl)
  steps-IsSound s t (then_step {t = t1} reached step) v =
      let (w, outside) = steps-IsSound s t1 reached v in
      (Step-IsSound t1 t step w, λ j h. Step-Outside t1 t step w j h ∙ outside j h)

never_hung : (r : Reply) → Leaves r → r ≢ Handlers.hung
never_hung r leaves e = subst Leaves e leaves

-- Where syscall_register puts each handler at its number and leaves the other entries, the handlers are
-- those of syscall_init, and the starting state is sound (the keyboard's indices inside its buffer, the
-- cursor on the screen, the scheduler's current task among its tasks, and the process table valid), every
-- state that the kernel reaches by keys, turns of the main loop, the tasks' writes and sleeps, interrupts
-- that return or switch, system calls that return, process_create and scheduler_add_task is sound. In each
-- such state the scheduler's search ends in every interrupt, scheduler_sleep for any number of ticks ends,
-- and the memory behind the screen is as it was.
pub Reaches-IsSound :
    (pages : PageSource) (register : (ℕ → Option Handler) → ℕ → Handler → ℕ → Option Handler)
    → Keeps.IsRegister register
    → (handlers : ℕ → Option Handler) (s t : System pages.Memory)
    → Reaches pages (syscall_init register handlers) s t
    → IsSound s
    → IsSound t
      × ((int_no err_code : ℕ) → apic_isr_handler int_no err_code (machine t) ≢ Handlers.hung)
      × ((ticks : ℕ) → scheduler_sleep t.scheduler ticks ≢ none)
      × Outside s.console t.console
Reaches-IsSound pages register promise handlers s t reached v =
    let (w, outside) = steps-IsSound pages register promise handlers s t reached v in
    (
      w,
      λ int_no err_code.
          never_hung (apic_isr_handler int_no err_code (machine t))
            (apic_isr_handler-Leaves int_no err_code (machine t) (seen w)),
      λ ticks. scheduler_sleep-ends t.scheduler ticks w.indices,
      outside,
    )
