-- ===== src/Console.antt =====
-- kernel/drivers/console.c with kernel/drivers/vga.h: the text console on the VGA buffer. The buffer
-- is a function of the index, so a write out of range would show; the bytes sent to the VGA ports
-- are a list, the latest first.
pub mod Scroll
pub mod Cursor
mod Tests
use Prim.Native.Nat.{bit_or}
use v.Common.{
  ℕ, zero, suc, ◌+◌, ◌-◌, ◌*◌, ◌/◌, ◌%◌, ◌^◌, List, [], ◌∷◌, ◌==◌, ltb, leb, if◌then◌else◌, u8, u16,
  u64, update,
}

-- VGA_WIDTH and VGA_HEIGHT
abbrev pub vga_width : ℕ
vga_width = 80

abbrev pub vga_height : ℕ
vga_height = 25

-- fg | bg << 4
pub vga_entry_color : ℕ → ℕ → ℕ
vga_entry_color fg bg = u8 (bit_or fg (bg * 2 ^ 4))

-- (uint16_t) uc | (uint16_t) color << 8
pub vga_entry : ℕ → ℕ → ℕ
vga_entry uc color = u16 (bit_or (u8 uc) (color * 2 ^ 8))

-- `struct console`, with what the buffer points to and the bytes sent by `outb`.
pub record Console : Type 0 where
  pub row : ℕ
  pub column : ℕ
  pub color : ℕ
  pub buffer : ℕ → ℕ
  pub ports : List (ℕ × ℕ)

-- The cursor's position goes to the VGA control registers, low byte first.
pub console_update_cursor : Console → Console
console_update_cursor c =
    let pos = u16 (c.row * vga_width + c.column) in
    record c {
      ports =
          (0x3D5, pos / 2 ^ 8 % 2 ^ 8)
          ∷ (0x3D4, 0x0E)
          ∷ (0x3D5, pos % 2 ^ 8)
          ∷ (0x3D4, 0x0F)
          ∷ c.ports;
    }

-- `n` cells from `i` on are set to `e`.
pub fill : (n i e : ℕ) → (ℕ → ℕ) → ℕ → ℕ
fill zero i e buf = buf
fill (suc n) i e buf = fill n (i + 1) e (update buf i e)

-- The outer loop of `console_clear`: `n` rows from row `y` on.
pub clear_rows : (n y e : ℕ) → (ℕ → ℕ) → ℕ → ℕ
clear_rows zero y e buf = buf
clear_rows (suc n) y e buf = clear_rows n (y + 1) e (fill vga_width (y * vga_width) e buf)

pub console_clear : Console → Console
console_clear c = console_update_cursor (record c {
  row = 0;
  column = 0;
  buffer = clear_rows vga_height 0 (vga_entry b' ' c.color) c.buffer;
})

-- The console's state before is whatever the memory holds.
pub console_initialize : Console → Console
console_initialize c = console_clear (record c { row = 0; column = 0; color = vga_entry_color 7 0 })

-- The inner copying loop of `console_scroll`: `n` cells of row `y` from column `x` on.
pub copy_row : (n x y : ℕ) → (ℕ → ℕ) → ℕ → ℕ
copy_row zero x y buf = buf
copy_row (suc n) x y buf =
    copy_row n (x + 1) y (update buf ((y - 1) * vga_width + x) (buf (y * vga_width + x)))

-- The outer one: `n` rows from row `y` on.
pub copy_rows : (n y : ℕ) → (ℕ → ℕ) → ℕ → ℕ
copy_rows zero y buf = buf
copy_rows (suc n) y buf = copy_rows n (y + 1) (copy_row vga_width 0 y buf)

pub console_scroll : Console → Console
console_scroll c = record c {
  buffer =
      fill vga_width ((vga_height - 1) * vga_width) (vga_entry b' ' c.color)
        (copy_rows (vga_height - 1) 1 c.buffer);
  row = vga_height - 1;
}

-- The end of `console_putchar`: the wrap to the next row, the scroll and the cursor.
pub next_row : Console → Console
next_row c = if leb vga_width c.column then record c { column = 0; row = u64 (c.row + 1) } else c

pub finish : Console → Console
finish c =
    let w = next_row c in
    console_update_cursor (if leb vga_height w.row then console_scroll w else w)

-- The last branch: the character goes into the cursor's cell.
abbrev pub print : Console → ℕ → Console
print c ch = record c {
  buffer = update c.buffer (c.row * vga_width + c.column) (vga_entry ch c.color);
  column = u64 (c.column + 1);
}

-- That branch to the end of the function.
pub put_printable : Console → ℕ → Console
put_printable c ch = finish (print c ch)

-- `con.column--`
pub step_back : Console → Console
step_back c = record c { column = u64 (c.column + 2 ^ 64 - 1) }

-- The branch of a backspace: the recursive call is made with a space, which takes the last branch.
pub rub_out : Console → Console
rub_out c = if ltb 0 c.column then step_back (put_printable (step_back c) b' ') else c

-- A `char` is its byte.
pub console_putchar : Console → ℕ → Console
console_putchar c ch =
    if ch == 10
    then finish (record c { column = 0; row = u64 (c.row + 1) })
    else (if ch == 13
        then finish (record c { column = 0 })
        else (if ch == 8 then finish (rub_out c) else put_printable c ch))

-- The text up to its terminating zero.
pub console_write : Console → List ℕ → Console
console_write c [] = c
console_write c (ch ∷ text) = console_write (console_putchar c ch) text
