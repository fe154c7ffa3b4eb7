-- ===== src/Start/Messages.antt =====
-- The messages of `kernel_main` itself (kernel/kernel_loader.c), without those of the functions that it calls.
use v.Common.{
  ℕ, ◌≤◌, ◌≡◌, ◌∙◌, List, [], ◌∷◌, Bool, true, false, ◌==◌, if◌then◌else◌, Bool-cases, inl, inr,
}
use v.Console.{Console, console_initialize, console_write}
use v.Console.Cursor.{
  IsValid, console_write_safe, console_initialize-IsValid, console_initialize-outside,
}

abbrev welcome : List ℕ
welcome =
    b'W' ∷ b'e' ∷ b'l' ∷ b'c' ∷ b'o' ∷ b'm' ∷ b'e' ∷ b' ' ∷ b't' ∷ b'o' ∷ b' ' ∷ b'K' ∷ b'a' ∷ b'v'
    ∷ b'i' ∷ b'z' ∷ b' ' ∷ b'O' ∷ b'S' ∷ b'!' ∷ 10 ∷ []

abbrev console_ready : List ℕ
console_ready =
    b'C' ∷ b'o' ∷ b'n' ∷ b's' ∷ b'o' ∷ b'l' ∷ b'e' ∷ b' ' ∷ b'S' ∷ b'y' ∷ b's' ∷ b't' ∷ b'e' ∷ b'm'
    ∷ b':' ∷ b' ' ∷ b'R' ∷ b'E' ∷ b'A' ∷ b'D' ∷ b'Y' ∷ 10 ∷ []

abbrev bad_magic : List ℕ
bad_magic =
    b'E' ∷ b'R' ∷ b'R' ∷ b'O' ∷ b'R' ∷ b':' ∷ b' ' ∷ b'I' ∷ b'n' ∷ b'v' ∷ b'a' ∷ b'l' ∷ b'i' ∷ b'd'
    ∷ b' ' ∷ b'b' ∷ b'o' ∷ b'o' ∷ b't' ∷ b' ' ∷ b'm' ∷ b'a' ∷ b'g' ∷ b'i' ∷ b'c' ∷ b' ' ∷ b'n'
    ∷ b'u' ∷ b'm' ∷ b'b' ∷ b'e' ∷ b'r' ∷ b'!' ∷ 10 ∷ []

abbrev verified : List ℕ
verified =
    b'B' ∷ b'o' ∷ b'o' ∷ b't' ∷ b' ' ∷ b'p' ∷ b'a' ∷ b'r' ∷ b'a' ∷ b'm' ∷ b'e' ∷ b't' ∷ b'e' ∷ b'r'
    ∷ b's' ∷ b' ' ∷ b'v' ∷ b'e' ∷ b'r' ∷ b'i' ∷ b'f' ∷ b'i' ∷ b'e' ∷ b'd' ∷ b'.' ∷ 10 ∷ []

abbrev attempting : List ℕ
attempting =
    b'A' ∷ b't' ∷ b't' ∷ b'e' ∷ b'm' ∷ b'p' ∷ b't' ∷ b'i' ∷ b'n' ∷ b'g' ∷ b' ' ∷ b'm' ∷ b'e' ∷ b'm'
    ∷ b'o' ∷ b'r' ∷ b'y' ∷ b' ' ∷ b'a' ∷ b'l' ∷ b'l' ∷ b'o' ∷ b'c' ∷ b'a' ∷ b't' ∷ b'i' ∷ b'o'
    ∷ b'n' ∷ b'.' ∷ b'.' ∷ b'.' ∷ 10 ∷ []

abbrev message_taken : List ℕ
message_taken =
    b'M' ∷ b'e' ∷ b'm' ∷ b'o' ∷ b'r' ∷ b'y' ∷ b' ' ∷ b'a' ∷ b'l' ∷ b'l' ∷ b'o' ∷ b'c' ∷ b'a' ∷ b't'
    ∷ b'i' ∷ b'o' ∷ b'n' ∷ b' ' ∷ b's' ∷ b'u' ∷ b'c' ∷ b'c' ∷ b'e' ∷ b's' ∷ b's' ∷ b'f' ∷ b'u'
    ∷ b'l' ∷ b'!' ∷ 10 ∷ []

abbrev message_freed : List ℕ
message_freed =
    b'M' ∷ b'e' ∷ b'm' ∷ b'o' ∷ b'r' ∷ b'y' ∷ b' ' ∷ b'd' ∷ b'e' ∷ b'a' ∷ b'l' ∷ b'l' ∷ b'o' ∷ b'c'
    ∷ b'a' ∷ b't' ∷ b'i' ∷ b'o' ∷ b'n' ∷ b' ' ∷ b's' ∷ b'u' ∷ b'c' ∷ b'c' ∷ b'e' ∷ b's' ∷ b's'
    ∷ b'f' ∷ b'u' ∷ b'l' ∷ b'!' ∷ 10 ∷ []

abbrev message_failed : List ℕ
message_failed =
    b'M' ∷ b'e' ∷ b'm' ∷ b'o' ∷ b'r' ∷ b'y' ∷ b' ' ∷ b'a' ∷ b'l' ∷ b'l' ∷ b'o' ∷ b'c' ∷ b'a' ∷ b't'
    ∷ b'i' ∷ b'o' ∷ b'n' ∷ b' ' ∷ b'f' ∷ b'a' ∷ b'i' ∷ b'l' ∷ b'e' ∷ b'd' ∷ b'!' ∷ 10 ∷ []

abbrev timer_ready : List ℕ
timer_ready =
    b'T' ∷ b'i' ∷ b'm' ∷ b'e' ∷ b'r' ∷ b' ' ∷ b'i' ∷ b'n' ∷ b'i' ∷ b't' ∷ b'i' ∷ b'a' ∷ b'l' ∷ b'i'
    ∷ b'z' ∷ b'e' ∷ b'd' ∷ b'.' ∷ b' ' ∷ b'C' ∷ b'u' ∷ b'r' ∷ b'r' ∷ b'e' ∷ b'n' ∷ b't' ∷ b' '
    ∷ b't' ∷ b'i' ∷ b'c' ∷ b'k' ∷ b' ' ∷ b'c' ∷ b'o' ∷ b'u' ∷ b'n' ∷ b't' ∷ b':' ∷ b' ' ∷ []

abbrev line_break : List ℕ
line_break = 10 ∷ []

abbrev complete : List ℕ
complete =
    b'K' ∷ b'e' ∷ b'r' ∷ b'n' ∷ b'e' ∷ b'l' ∷ b' ' ∷ b'i' ∷ b'n' ∷ b'i' ∷ b't' ∷ b'i' ∷ b'a' ∷ b'l'
    ∷ b'i' ∷ b'z' ∷ b'a' ∷ b't' ∷ b'i' ∷ b'o' ∷ b'n' ∷ b' ' ∷ b'c' ∷ b'o' ∷ b'm' ∷ b'p' ∷ b'l'
    ∷ b'e' ∷ b't' ∷ b'e' ∷ b'.' ∷ 10 ∷ []

abbrev prompt : List ℕ
prompt = b'>' ∷ b' ' ∷ []

-- Up to the check of the boot loader's number.
pub greet : ℕ → Console → Console
greet magic c =
    let c1 = console_initialize c in
    let c2 = console_write (console_write c1 welcome) console_ready in
    if magic == 0x1BADB002 then console_write c2 verified else console_write c2 bad_magic

-- Around the allocation behind the self tests, by whether it got a block, and on to the prompt.
pub announce : Bool → Console → Console
announce got_block c =
    let c1 = console_write c attempting in
    let c2 =
      if got_block
      then console_write (console_write c1 message_taken) message_freed
      else console_write c1 message_failed in
    console_write (console_write (console_write (console_write c2 timer_ready) line_break) complete)
      prompt

-- A console with its cursor on the screen, and the memory behind the screen that another has.
abbrev pub Shows : Console → Console → Type 0
Shows c c1 = IsValid c1 × ((j : ℕ) → 2000 ≤ j → c1.buffer j ≡ c.buffer j)

write-Shows : (c c1 : Console) (text : List ℕ) → Shows c c1 → Shows c (console_write c1 text)
write-Shows c c1 text (v, same) =
    let (w, outside) = console_write_safe text c1 v in (w, λ j h. outside j h ∙ same j h)

greet-Shows : (magic : ℕ) (c : Console) → Shows c (greet magic c)
unfolding greet
greet-Shows magic c =
    let c1 = console_initialize c in
    let c2 = console_write (console_write c1 welcome) console_ready in
    let shown : Shows c c2 =
      write-Shows c (console_write c1 welcome) console_ready
        (write-Shows c c1 welcome (console_initialize-IsValid c, console_initialize-outside c)) in
    elim (Bool-cases (magic == 0x1BADB002)) [
      | inl right ↦ rw (greet, right) (write-Shows c c2 verified shown)
      | inr wrong ↦ rw (greet, wrong) (write-Shows c c2 bad_magic shown)
    ]

last_words :
    (c c1 : Console)
    → Shows c c1
    → Shows c (
        console_write
          (console_write (console_write (console_write c1 timer_ready) line_break) complete)
          prompt)
last_words c c1 shown =
    write-Shows c _ prompt
      (write-Shows c _ complete (write-Shows c _ line_break (write-Shows c c1 timer_ready shown)))

announce-Shows : (got_block : Bool) (c c1 : Console) → Shows c c1 → Shows c (announce got_block c1)
unfolding announce
announce-Shows true c c1 shown = last_words c _ (
    write-Shows c _ message_freed
      (write-Shows c _ message_taken (write-Shows c c1 attempting shown)))
announce-Shows false c c1 shown =
    last_words c _ (write-Shows c _ message_failed (write-Shows c c1 attempting shown))

-- Both, one behind the other.
pub announce-greet :
    (got_block : Bool) (magic : ℕ) (c : Console) → Shows c (announce got_block (greet magic c))
announce-greet got_block magic c = announce-Shows got_block c (greet magic c) (greet-Shows magic c)
