-- ===== src/Run/Begin.antt =====
-- From the start of `kernel_main` (kernel/kernel_loader.c) on: what holds of every state behind it.
use v.Common.{ℕ, ◌≡◌, ◌≢◌, subst, ◌∙◌, Bool, List, [], Option, none, some, arith}
use v.Console.{Console}
use v.Console.Cursor
use v.Keyboard.{keyboard_start}
use v.Scheduler.{scheduler_sleep}
use v.Process.{Table}
use v.Process.Create
use v.Paging.{Paging, page_tables}
use v.Apic.{Mmio}
use v.Ata.{Ports}
use v.Handlers
use v.Handlers.{apic_isr_handler}
use v.Syscall.{Handler, syscall_init}
use v.Syscall.Keeps
use v.Start.{StartState, Given, kernel_start}
use v.Start.Messages.{greet, announce, announce-greet}
use v.Start.Ready.{IsReady, Started, kernel_start-Started}
use v.Run.{System, machine, Reaches}
use v.Run.Sound.{IsSound, Outside, Reaches-IsSound}

-- The parts behind the start, with a console, a process table and what the user's memory holds.
abbrev pub begins : {R W : Type 0} → Console → Table → (ℕ → List ℕ) → StartState R W → System Paging
begins console table text_at t = record {
  keyboard = keyboard_start;
  console = console;
  scheduler = t.scheduler;
  tick_count = 0;
  eois = 0;
  table = table;
  text_at = text_at;
  memory = t.memory_state.store.memory;
}

begins-IsSound :
    {R W : Type 0} (console : Console) (table : Table) (text_at : ℕ → List ℕ) (t : StartState R W)
    (task1 task2 : ℕ)
    → IsReady task1 task2 t.scheduler
    → Cursor.IsValid console
    → Create.IsValid table
    → IsSound (begins console table text_at t)
begins-IsSound console table text_at t task1 task2 r c v = record {
  ring = record { head_in = omega arith; tail_in = omega arith };
  cursor = c;
  indices = record { few = omega (arith, r.two); current_in = omega (arith, r.two, r.first) };
  slots = v;
}

module _ (mmio : Mmio) (ports : Ports) (pool : ℕ)
    (register : (ℕ → Option Handler) → ℕ → Handler → ℕ → Option Handler)
    (promise : Keeps.IsRegister register) (handlers : ℕ → Option Handler) where
  -- Where syscall_register puts each handler at its number and leaves the other entries, and from a heap
  -- without a block, as zero_bss leaves it, and a valid process table: in every state that the kernel reaches
  -- from the end of kernel_start, with an empty keyboard buffer, the console initialized and with the messages
  -- of kernel_main on it, and the handlers of syscall_init, the keyboard's indices are inside its buffer, the
  -- cursor is on the screen, the scheduler's current task is among its tasks and the process table is valid;
  -- the scheduler's search ends in every interrupt, scheduler_sleep for any number of ticks ends, and the
  -- memory behind the screen is as it was at first.
  pub kernel_start-Reaches :
      (g : Given) (s : StartState mmio.Device ports.Device) (console : Console) (table : Table)
      (text_at : ℕ → List ℕ) (magic : ℕ) (got_block : Bool)
      → s.memory_state.store.heap.blocks ≡ []
      → Create.IsValid table
      → (passed : Bool) (t : StartState mmio.Device ports.Device)
      → kernel_start mmio ports pool g s ≡ some (passed, t)
      → (u : System Paging)
      → Reaches
          (page_tables pool)
          (syscall_init register handlers)
          (begins (announce got_block (greet magic console)) table text_at t)
          u
      → IsSound u
        × ((int_no err_code : ℕ) → apic_isr_handler int_no err_code (machine u) ≢ Handlers.hung)
        × ((ticks : ℕ) → scheduler_sleep u.scheduler ticks ≢ none)
        × Outside console u.console
  kernel_start-Reaches g s console table text_at magic got_block empty v passed t e u reached =
      let both =
        subst (Started mmio ports pool g) e (kernel_start-Started mmio ports pool g s empty) in
      let shown = announce got_block (greet magic console) in
      let (valid, behind) = announce-greet got_block magic console in
      let (sound, ends, wakes, outside) =
        Reaches-IsSound (page_tables pool) register promise handlers (begins shown table text_at t)
          u reached (begins-IsSound shown table text_at t g.task1 g.task2 both.0 valid v) in
      (sound, ends, wakes, λ j h. outside j h ∙ behind j h)
