-- ===== src/Console/Cursor.antt =====
-- `console_putchar` of kernel/drivers/console.c: where the cursor goes, which cells change, and what
-- the VGA registers are told.
use v.Common.{
  ℕ, ◌+◌, ◌-◌, ◌*◌, ◌≤◌, ◌<◌, ◌≡◌, ◌≢◌, refl, ◌∙◌, List, [], ◌∷◌, Bool, true, false, ◌==◌, leb, ltb,
  if◌then◌else◌, u64, arith, Bool-cases, inl, inr,
}
use v.Console.{
  Console, vga_entry_color, console_initialize, console_clear, vga_entry, console_scroll,
  console_update_cursor, next_row, finish, print, put_printable, step_back, rub_out,
  console_putchar, console_write,
}
use v.Console.Scroll.{console_scroll_lem, console_clear_lem}

-- The cursor is on the screen.
pub record IsValid (c : Console) : Type 0 where
  pub row_in : c.row < 25
  pub column_in : c.column < 80

pub console_initialize-IsValid : (c : Console) → IsValid (console_initialize c)
unfolding console_initialize console_clear console_update_cursor
console_initialize-IsValid c = record { row_in = omega arith; column_in = omega arith }

pub console_initialize-outside :
    (c : Console) (j : ℕ) → 2000 ≤ j → (console_initialize c).buffer j ≡ c.buffer j
unfolding console_initialize
console_initialize-outside c j h =
    let black = record c { row = 0; column = 0; color = vga_entry_color 7 0 } in
    ground (arith, (console_clear_lem black).0 j, h)

-- The index of the cursor's cell.
abbrev pub position : Console → ℕ
position c = c.row * 80 + c.column

-- The cells after a scroll, if there is one.
abbrev pub scrolled : Bool → ℕ → (ℕ → ℕ) → ℕ → ℕ
scrolled b e buf j =
    if b then (if ltb j 1920 then buf (j + 80) else (if ltb j 2000 then e else buf j)) else buf j

-- The latest four bytes sent to the VGA registers give the position `p`.
abbrev pub Tells : List (ℕ × ℕ) → ℕ → Type 0
Tells ((a, h) ∷ (b, x) ∷ (c, l) ∷ (d, y) ∷ ports) p =
    (a ≡ 0x3D5)
    × (b ≡ 0x3D4)
    × (x ≡ 0x0E)
    × (c ≡ 0x3D5)
    × (d ≡ 0x3D4)
    × (y ≡ 0x0F)
    × (h * 256 + l ≡ p)
Tells _ p = ⊥

update_cursor-Tells :
    (c : Console) → c.row < 25 → c.column < 80 → Tells (console_update_cursor c).ports (position c)
unfolding console_update_cursor
update_cursor-Tells c r k = (refl, refl, refl, refl, refl, refl, omega arith)

finish_row :
    (c : Console) → (finish c).row ≡ (if leb 25 (next_row c).row then 24 else (next_row c).row)
unfolding finish console_update_cursor
finish_row c = ground (arith, (console_scroll_lem (next_row c)).1)

finish_column : (c : Console) → (finish c).column ≡ (next_row c).column
unfolding finish console_update_cursor
finish_column c = ground (arith, (console_scroll_lem (next_row c)).2)

finish_buffer :
    (c : Console) (j : ℕ)
    → (finish c).buffer j ≡ scrolled (leb 25 (next_row c).row) (vga_entry b' ' c.color) c.buffer j
unfolding finish console_update_cursor next_row
finish_buffer c j = ground (arith, (console_scroll_lem (next_row c)).0 j)

finish-Tells :
    (c : Console)
    → (next_row c).row ≤ 25
    → (next_row c).column < 80
    → Tells (finish c).ports (position (finish c))
unfolding finish console_update_cursor
finish-Tells c r k =
    let w = next_row c in
    update_cursor-Tells (if leb 25 w.row then console_scroll w else w)
      (ground (arith, (console_scroll_lem w).1)) (ground (arith, (console_scroll_lem w).2))

finish_color : (c : Console) → (finish c).color ≡ c.color
unfolding finish console_update_cursor next_row console_scroll
finish_color c = ground arith

-- What `console_putchar` hands to `finish` is at most one row past the screen.
abbrev Near : Console → Type 0
Near c = ((next_row c).row ≤ 25) × ((next_row c).column < 80)

-- What holds after every call of `finish` on such a console.
record Shown (c : Console) (buf : ℕ → ℕ) : Type 0 where
  valid : IsValid c
  tells : Tells c.ports (position c)
  outside : (j : ℕ) → 2000 ≤ j → c.buffer j ≡ buf j

finish-Shown : (c : Console) → Near c → Shown (finish c) c.buffer
finish-Shown c (r, k) = record {
  valid = record {
    row_in = ground (arith, finish_row c);
    column_in = ground (arith, finish_column c);
  };
  tells = finish-Tells c r k;
  outside = λ j h. ground (arith, finish_buffer c j);
}

put_printable-Shown : (c : Console) (ch : ℕ) → IsValid c → Shown (put_printable c ch) c.buffer
unfolding put_printable next_row
put_printable-Shown c ch v =
    let s = finish-Shown (print c ch) (ground arith, ground arith) in
    record { valid = s.valid; tells = s.tells; outside = λ j h. ground (arith, s.outside j h) }

position-put_printable :
    (c : Console) (ch : ℕ)
    → IsValid c
    → position (put_printable c ch) ≡ (if position c == 1999 then 1920 else position c + 1)
unfolding put_printable next_row
position-put_printable c ch v = ground (arith, finish_row (print c ch), finish_column (print c ch))

-- Inside a row, a printable character goes into the cursor's cell and the cursor steps right.
put_printable_inside :
    (c : Console) (ch : ℕ)
    → IsValid c
    → c.column < 79
    → ((put_printable c ch).row ≡ c.row)
      × ((put_printable c ch).column ≡ c.column + 1)
      × ((put_printable c ch).color ≡ c.color)
      × ((j : ℕ)
          → (put_printable c ch).buffer j
            ≡ (if position c == j then vga_entry ch c.color else c.buffer j))
unfolding put_printable next_row
put_printable_inside c ch v h = (
  ground (arith, finish_row (print c ch)),
  ground (arith, finish_column (print c ch)),
  finish_color (print c ch),
  λ j. ground (arith, finish_buffer (print c ch) j),
)

rub_out_start : (c : Console) → ltb 0 c.column ≡ false → rub_out c ≡ c
unfolding rub_out
rub_out_start c e = rw e

rub_out_lem :
    (c : Console)
    → IsValid c
    → 0 < c.column
    → ((rub_out c).row ≡ c.row)
      × ((rub_out c).column ≡ c.column - 1)
      × ((j : ℕ)
          → (rub_out c).buffer j
            ≡ (if (position c - 1) == j then vga_entry b' ' c.color else c.buffer j))
unfolding rub_out step_back
rub_out_lem c v h =
    let b = put_printable_inside (step_back c) b' ' (omega arith) (omega arith) in
    (ground (arith, b.0), ground (arith, b.1), λ j. ground (arith, b.3 j))

Shown-if :
    (t : Bool) (x y : Console) (buf : ℕ → ℕ)
    → Shown x buf
    → Shown y buf
    → Shown (if t then x else y) buf
Shown-if true x y buf p q = p
Shown-if false x y buf p q = q

rub_out-Shown : (c : Console) → IsValid c → Shown (finish (rub_out c)) c.buffer
unfolding next_row
rub_out-Shown c v = elim (Bool-cases (ltb 0 c.column)) [
  | inl some_left ↦
      let b = rub_out_lem c v (ground arith) in
      let s = finish-Shown (rub_out c) (ground (arith, b.0, b.1), ground (arith, b.0, b.1)) in
      record {
        valid = s.valid;
        tells = s.tells;
        outside = λ j h. s.outside j h ∙ ground (arith, b.2 j);
      }
  | inr at_start ↦ rw (rub_out_start c at_start) (finish-Shown c (ground arith, ground arith))
]

console_putchar-Shown : (c : Console) (ch : ℕ) → IsValid c → Shown (console_putchar c ch) c.buffer
unfolding console_putchar next_row
console_putchar-Shown c ch v =
    Shown-if (ch == 10) _ _ c.buffer
      (finish-Shown (record c { column = 0; row = u64 (c.row + 1) }) (ground arith, ground arith))
      (Shown-if (ch == 13) _ _ c.buffer
        (finish-Shown (record c { column = 0 }) (ground arith, ground arith))
        (Shown-if (ch == 8) _ _ c.buffer (rub_out-Shown c v) (put_printable-Shown c ch v)))

-- Whatever the character, `console_putchar` keeps the cursor on the screen, tells the VGA registers
-- where it is, and writes to no cell behind the 2000 of the screen.
pub console_putchar_safe :
    (c : Console) (ch : ℕ)
    → IsValid c
    → IsValid (console_putchar c ch)
      × Tells (console_putchar c ch).ports (position (console_putchar c ch))
      × ((j : ℕ) → 2000 ≤ j → (console_putchar c ch).buffer j ≡ c.buffer j)
console_putchar_safe c ch v = let s = console_putchar-Shown c ch v in (s.valid, s.tells, s.outside)

-- Neither a newline, nor a carriage return, nor a backspace.
abbrev pub IsPrintable : ℕ → Type 0
IsPrintable ch = (ch ≢ 10) × (ch ≢ 13) × (ch ≢ 8)

printable_lem : (c : Console) (ch : ℕ) → IsPrintable ch → console_putchar c ch ≡ put_printable c ch
unfolding console_putchar
printable_lem c ch p = ground arith

-- A printable character moves the cursor to the next cell of the screen; from the last cell, where
-- the screen scrolls, to the start of the last row.
pub position-console_putchar :
    (c : Console) (ch : ℕ)
    → IsValid c
    → IsPrintable ch
    → position (console_putchar c ch) ≡ (if position c == 1999 then 1920 else position c + 1)
position-console_putchar c ch v p = rw (printable_lem c ch p) (position-put_printable c ch v)

backspace_lem : (c : Console) → console_putchar c 8 ≡ finish (rub_out c)
unfolding console_putchar
backspace_lem c = refl

-- A backspace after a printable character that is not in the last column puts the cursor back and
-- leaves a blank in the character's cell; every other cell is as it was before the character.
pub console_putchar-backspace :
    (c : Console) (ch : ℕ)
    → IsValid c
    → IsPrintable ch
    → c.column < 79
    → let d = console_putchar (console_putchar c ch) 8 in
      (d.row ≡ c.row)
      × (d.column ≡ c.column)
      × ((j : ℕ) → d.buffer j ≡ (if position c == j then vga_entry b' ' c.color else c.buffer j))
unfolding next_row
console_putchar-backspace c ch v p h =
    rw (printable_lem c ch p, backspace_lem (put_printable c ch))
      (
        ground (arith, finish_row (rub_out c1), b.0, b.1, a.0, a.1),
        ground (arith, finish_column (rub_out c1), b.1, b.0, a.1, a.0),
        λ j. ground (arith, finish_buffer (rub_out c1) j, b.0, b.1, b.2 j, a.0, a.1, a.2, a.3 j),
      )
  where
    c1 : Console
    c1 = put_printable c ch

    a :
        (c1.row ≡ c.row)
        × (c1.column ≡ c.column + 1)
        × (c1.color ≡ c.color)
        × ((j : ℕ) → c1.buffer j ≡ (if position c == j then vga_entry ch c.color else c.buffer j))
    a = put_printable_inside c ch v h

    b :
        ((rub_out c1).row ≡ c1.row)
        × ((rub_out c1).column ≡ c1.column - 1)
        × ((j : ℕ)
            → (rub_out c1).buffer j
              ≡ (if (position c1 - 1) == j then vga_entry b' ' c1.color else c1.buffer j))
    b = rub_out_lem c1 (ground (arith, a.0, a.1)) (ground (arith, a.1))

-- So a text, however long, leaves the cursor on the screen and the memory behind the screen alone.
pub console_write_safe :
    (text : List ℕ) (c : Console)
    → IsValid c
    → IsValid (console_write c text)
      × ((j : ℕ) → 2000 ≤ j → (console_write c text).buffer j ≡ c.buffer j)
unfolding console_write
console_write_safe [] c v = (v, λ j h. refl)
console_write_safe (ch ∷ text) c v =
    let (valid, tells, outside) = console_putchar_safe c ch v in
    let (valid', outside') = console_write_safe text (console_putchar c ch) valid in
    (valid', λ j h. outside' j h ∙ outside j h)
