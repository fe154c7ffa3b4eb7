-- ===== src/Syscall/Keeps.antt =====
-- What the system calls of kernel/syscall.c do to the console and the process table.
use v.Common.{
  ℕ, zero, suc, ◌+◌, ◌≤◌, ◌<◌, ◌≡◌, refl, ◌∙◌, Option, none, some, List, ◌==◌, leb, not, ◌||◌,
  if◌then◌else◌, true, sym, subst, within, leb→lt, Bool-cases, inl, inr, update, arith,
}
use v.Console.Cursor
use v.Process.{process_get_current}
use v.Process.Create
use v.Process.Exit.{process_exit-IsValid}
use v.Syscall.{
  Kernel, Reply, Handler, say, sys_exit, sys_write, sys_read, sys_open, sys_close, sys_fork,
  sys_exec, sys_wait, exit_opening, sleep_opening, closing, yield_message, invalid_message,
  missing_message, sys_sleep, sys_getpid, sys_yield, clear_handlers, syscall_init, call_handler,
  syscall_dispatch, max_syscalls,
}

-- The cursor is on the screen and the process table is valid.
pub record IsSound (k : Kernel) : Type 0 where
  pub console_valid : Cursor.IsValid k.console
  pub table_valid : Create.IsValid k.table

-- `k1` is sound, and as far as the memory behind the screen goes it is as `k`.
pub record Kept (k k1 : Kernel) : Type 0 where
  pub sound : IsSound k1
  pub outside : (j : ℕ) → 2000 ≤ j → k1.console.buffer j ≡ k.console.buffer j

abbrev pub KeptBy : Kernel → Reply → Type 0
KeptBy k (Reply.returned r k1) = Kept k k1
KeptBy k (Reply.halted k1) = Kept k k1

-- A handler that keeps what it works on.
abbrev Keeps : Handler → Type 0
Keeps h = (k : Kernel) (a1 a2 a3 a4 a5 a6 : ℕ) → IsSound k → KeptBy k (h k a1 a2 a3 a4 a5 a6)

say-Kept : (text : List ℕ) (k : Kernel) → IsSound k → Kept k (say text k)
unfolding say
say-Kept text k s =
    let (v, o) = Cursor.console_write_safe text k.console s.console_valid in
    record { sound = record { console_valid = v; table_valid = s.table_valid }; outside = o }

Kept-refl : (k : Kernel) → IsSound k → Kept k k
Kept-refl k s = record { sound = s; outside = λ j h. refl }

Kept-trans : (k k1 k2 : Kernel) → Kept k k1 → Kept k1 k2 → Kept k k2
Kept-trans k k1 k2 a b = record { sound = b.sound; outside = λ j h. b.outside j h ∙ a.outside j h }

sys_exit-Keeps : Keeps sys_exit
unfolding sys_exit
sys_exit-Keeps k a1 a2 a3 a4 a5 a6 s =
    let opened = say-Kept exit_opening k s in
    let k1 = say closing (say exit_opening k) in
    let both =
      Kept-trans k (say exit_opening k) k1 opened
        (say-Kept closing (say exit_opening k) opened.sound) in
    record {
      sound = record {
        console_valid = both.sound.console_valid;
        table_valid =
            process_exit-IsValid k1.table (process_get_current k1.table).pid both.sound.table_valid;
      };
      outside = both.outside;
    }

sys_write-Keeps : Keeps sys_write
unfolding sys_write
sys_write-Keeps k a1 a2 a3 a4 a5 a6 s = elim (Bool-cases (not (a1 == 1) || (a2 == 0))) [
  | inl h ↦ rw (sys_write, h) (Kept-refl k s)
  | inr h ↦ rw (sys_write, h) (say-Kept (k.text_at a2) k s)
]

sys_sleep-Keeps : Keeps sys_sleep
unfolding sys_sleep
sys_sleep-Keeps k a1 a2 a3 a4 a5 a6 s =
    let opened = say-Kept sleep_opening k s in
    Kept-trans k (say sleep_opening k) (say closing (say sleep_opening k)) opened
      (say-Kept closing (say sleep_opening k) opened.sound)

-- The array holds nothing but such handlers.
abbrev Held : Option Handler → Type 0
Held none = Unit {0}
Held (some h) = Keeps h

abbrev AllKeep : (ℕ → Option Handler) → Type 0
AllKeep handlers = (n : ℕ) → n < max_syscalls → Held (handlers n)

clear_handlers_lem :
    (n i : ℕ) (handlers : ℕ → Option Handler) (v : ℕ)
    → clear_handlers n i handlers v ≡ (if within i n v then none else handlers v)
unfolding clear_handlers
clear_handlers_lem zero i handlers v = ground arith
clear_handlers_lem (suc n) i handlers v =
    ground (arith, clear_handlers_lem n (i + 1) (update handlers i none) v)

cleared : (handlers : ℕ → Option Handler) → AllKeep (clear_handlers max_syscalls 0 handlers)
cleared handlers n l =
    let inside : within 0 max_syscalls n ≡ true = ground (arith, l) in
    rw (clear_handlers_lem max_syscalls 0 handlers n, inside) tt

call_handler-Kept :
    (o : Option Handler) (k : Kernel) (a1 a2 a3 a4 a5 a6 : ℕ)
    → Held o
    → IsSound k
    → KeptBy k (call_handler o k a1 a2 a3 a4 a5 a6)
unfolding call_handler
call_handler-Kept none k a1 a2 a3 a4 a5 a6 h s = say-Kept missing_message k s
call_handler-Kept (some f) k a1 a2 a3 a4 a5 a6 h s = h k a1 a2 a3 a4 a5 a6 s

syscall_dispatch-Kept :
    (handlers : ℕ → Option Handler) (n : ℕ) (k : Kernel) (a1 a2 a3 a4 a5 a6 : ℕ)
    → AllKeep handlers
    → IsSound k
    → KeptBy k (syscall_dispatch handlers n k a1 a2 a3 a4 a5 a6)
unfolding syscall_dispatch
syscall_dispatch-Kept handlers n k a1 a2 a3 a4 a5 a6 all s =
    elim (Bool-cases (leb max_syscalls n)) [
      | inl h ↦ rw (syscall_dispatch, h) (say-Kept invalid_message k s)
      | inr h ↦
          rw (syscall_dispatch, h)
            (call_handler-Kept (handlers n) k a1 a2 a3 a4 a5 a6 (all n (leb→lt max_syscalls n h)) s)
    ]

-- What `syscall_register` promises: it puts the handler at its number and leaves the other entries.
abbrev pub IsRegister : ((ℕ → Option Handler) → ℕ → Handler → ℕ → Option Handler) → Type 0
IsRegister register =
    (handlers : ℕ → Option Handler) (n : ℕ) (h : Handler) (m : ℕ)
    → register handlers n h m ≡ (if n == m then some h else handlers m)

module _ (register : (ℕ → Option Handler) → ℕ → Handler → ℕ → Option Handler)
    (promise : IsRegister register) where
  register-AllKeep :
      (handlers : ℕ → Option Handler) (n : ℕ) (h : Handler)
      → AllKeep handlers
      → Keeps h
      → AllKeep (register handlers n h)
  register-AllKeep handlers n h all keeps m l =
      subst Held (sym (promise handlers n h m))
        (elim (Bool-cases (n == m)) [ inl e ↦ rw e keeps | inr e ↦ rw e (all m l) ])

  syscall_init-AllKeep : (handlers : ℕ → Option Handler) → AllKeep (syscall_init register handlers)
  unfolding syscall_init sys_read sys_open sys_close sys_fork sys_exec sys_wait sys_getpid sys_yield
  syscall_init-AllKeep handlers =
      let still : Keeps sys_read = λ k a1 a2 a3 a4 a5 a6 s. Kept-refl k s in
      register-AllKeep _ 10 sys_yield
        (register-AllKeep _ 9 sys_getpid
          (register-AllKeep _ 8 sys_sleep
            (register-AllKeep _ 7 sys_wait
              (register-AllKeep _ 6 sys_exec
                (register-AllKeep _ 5 sys_fork
                  (register-AllKeep _ 4 sys_close
                    (register-AllKeep _ 3 sys_open
                      (register-AllKeep _ 2 sys_read
                        (register-AllKeep _ 1 sys_write
                          (register-AllKeep _ 0 sys_exit (cleared handlers) sys_exit-Keeps)
                          sys_write-Keeps)
                        still)
                      still)
                    (λ k a1 a2 a3 a4 a5 a6 s. Kept-refl k s))
                  still)
                still)
              still)
            sys_sleep-Keeps)
          (λ k a1 a2 a3 a4 a5 a6 s. Kept-refl k s))
        (λ k a1 a2 a3 a4 a5 a6 s. say-Kept yield_message k s)

-- Where syscall_register puts each handler at its number and leaves the other entries, after syscall_init
-- every call of syscall_dispatch, with any number and arguments, from a cursor on the screen and a valid
-- process table leaves the cursor on the screen, the process table valid, and the memory behind the
-- screen as it was, whether it returns or halts the processor.
pub syscall_dispatch_safe :
    (register : (ℕ → Option Handler) → ℕ → Handler → ℕ → Option Handler)
    → IsRegister register
    → (handlers : ℕ → Option Handler) (n : ℕ) (k : Kernel) (a1 a2 a3 a4 a5 a6 : ℕ) → IsSound k
    → KeptBy k (syscall_dispatch (syscall_init register handlers) n k a1 a2 a3 a4 a5 a6)
syscall_dispatch_safe register promise handlers n k a1 a2 a3 a4 a5 a6 s =
    syscall_dispatch-Kept (syscall_init register handlers) n k a1 a2 a3 a4 a5 a6
      (syscall_init-AllKeep register promise handlers) s
