-- ===== src/Keyboard.antt =====
-- kernel/drivers/keyboard.c: the ring of typed characters between the interrupt handler and the
-- main loop. The ring's storage is a function of the index.
pub mod Ring
mod Tests
use v.Common.{
  ℕ, ◌+◌, ◌%◌, ◌^◌, ◌/◌, Bool, not, List, [], ◌∷◌, ◌++◌, ◌==◌, ltb, if◌then◌else◌, u32, update,
  length, get_or,
}

-- KEYBOARD_BUFFER_SIZE
abbrev pub keyboard_buffer_size : ℕ
keyboard_buffer_size = 256

-- The static variables of keyboard.c.
pub record Keyboard : Type 0 where
  pub keyboard_buffer : ℕ → ℕ
  pub buffer_head : ℕ
  pub buffer_tail : ℕ

abbrev pub keyboard_start : Keyboard
keyboard_start = record { keyboard_buffer = λ _. 0; buffer_head = 0; buffer_tail = 0 }

-- US layout; 0 where the key has no character.
abbrev pub scancode_to_ascii : List ℕ
scancode_to_ascii =
    0 ∷ 0 ∷ b'1' ∷ b'2' ∷ b'3' ∷ b'4' ∷ b'5' ∷ b'6' ∷ b'7' ∷ b'8' ∷ b'9' ∷ b'0' ∷ b'-' ∷ b'=' ∷ 8
    ∷ 9 ∷ b'q' ∷ b'w' ∷ b'e' ∷ b'r' ∷ b't' ∷ b'y' ∷ b'u' ∷ b'i' ∷ b'o' ∷ b'p' ∷ b'[' ∷ b']' ∷ 10 ∷ 0
    ∷ b'a' ∷ b's' ∷ b'd' ∷ b'f' ∷ b'g' ∷ b'h' ∷ b'j' ∷ b'k' ∷ b'l' ∷ b';' ∷ 39 ∷ b'`' ∷ 0 ∷ 92
    ∷ b'z' ∷ b'x' ∷ b'c' ∷ b'v' ∷ b'b' ∷ b'n' ∷ b'm' ∷ b',' ∷ b'.' ∷ b'/' ∷ 0 ∷ b'*' ∷ 0 ∷ b' ' ∷ []

pub keyboard_has_input : Keyboard → Bool
keyboard_has_input k = not (k.buffer_head == k.buffer_tail)

-- The character, and the state after the call.
pub keyboard_getchar : Keyboard → ℕ × Keyboard
unfolding keyboard_has_input
keyboard_getchar k = if not (keyboard_has_input k) then (0, k) else (
  k.keyboard_buffer k.buffer_tail,
  record k { buffer_tail = u32 (k.buffer_tail + 1) % keyboard_buffer_size },
)

-- The innermost block of `keyboard_handler`: the character goes into the ring unless it is full.
pub add_to_buffer : Keyboard → ℕ → Keyboard
add_to_buffer k c =
    let next_head = u32 (k.buffer_head + 1) % keyboard_buffer_size in
    if next_head == k.buffer_tail then k else record k {
      keyboard_buffer = update k.keyboard_buffer k.buffer_head c;
      buffer_head = next_head;
    }

-- What a byte of the PS/2 data port stands for: 0 on a release, off the table, or with no character.
pub decode : ℕ → ℕ
decode scancode =
    if (scancode / 2 ^ 7 % 2) == 1
    then 0
    else if ltb scancode (length scancode_to_ascii)
    then get_or scancode_to_ascii scancode 0
    else 0

-- The handler on the byte that it reads from the port. It ends by one `apic_eoi`, which changes no
-- state of the keyboard.
pub keyboard_handler : Keyboard → ℕ → Keyboard
keyboard_handler k scancode = let c = decode scancode in if c == 0 then k else add_to_buffer k c

-- What reaches the ring: an interrupt with its scancode, or one turn of `kernel_main`'s main loop.
pub data Event : Type 0 where
  key : ℕ → Event
  turn : Event

-- One turn of the main loop: the character that it hands to `console_putchar`, if one waits.
pub main_turn : Keyboard → List ℕ × Keyboard
main_turn k =
    if keyboard_has_input k then (let (c, k') = keyboard_getchar k in (c ∷ [], k')) else ([], k)

-- The characters that the main loop echoes over a history of interrupts and turns.
pub echoed : Keyboard → List Event → List ℕ
echoed k [] = []
echoed k (key s ∷ es) = echoed (keyboard_handler k s) es
echoed k (turn ∷ es) = let (cs, k') = main_turn k in cs ++ echoed k' es
