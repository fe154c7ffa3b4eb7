-- ===== src/Keyboard/Tests.antt =====
-- Runs of the keyboard's functions at concrete inputs.
use v.Common.{◌≡◌, refl, List, [], ◌∷◌, arith}
use v.Keyboard.{
  Keyboard, keyboard_has_input, keyboard_getchar, add_to_buffer, decode, keyboard_handler, Event,
  key, turn, main_turn, echoed,
}
use v.Keyboard.Ring.{contents, echoed_from, echoed_refines}

-- The indices have gone round: one character waits at the end of the storage.
abbrev near_end : Keyboard
near_end = record { keyboard_buffer = λ _. b'z'; buffer_head = 0; buffer_tail = 255 }

abbrev typing : List Event
typing = key 0x1e ∷ key 0x9e ∷ turn ∷ key 0x30 ∷ turn ∷ turn ∷ turn ∷ []

typed : echoed near_end typing ≡ b'z' ∷ b'a' ∷ b'b' ∷ []
unfolding echoed main_turn keyboard_getchar keyboard_handler decode add_to_buffer keyboard_has_input
typed = refl

echoed_refines_example : echoed near_end typing ≡ echoed_from (contents near_end) typing
echoed_refines_example = echoed_refines typing (omega arith)
