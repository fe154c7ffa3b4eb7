-- ===== src/Console/Tests.antt =====
-- Runs of the console at concrete inputs, and the theorems at them.
use v.Common.{ℕ, ◌+◌, ◌≤◌, ◌≡◌, refl, [], ◌∷◌, ◌==◌, ltb, if◌then◌else◌, arith}
use v.Console.{
  Console, vga_entry, console_putchar, console_write, console_scroll, console_update_cursor, finish,
  next_row, put_printable, fill, copy_rows, copy_row,
}
use v.Console.Scroll.{console_scroll_lem}
use v.Console.Cursor.{IsValid, Tells, position, console_putchar_safe, console_putchar-backspace}

abbrev at : ℕ → ℕ → Console
at r k = record { row = r; column = k; color = 7; buffer = λ j. j; ports = [] }

hello :
    let c = console_write (at 0 78) (b'o' ∷ b'k' ∷ 10 ∷ b'!' ∷ []) in
    (c.row ≡ 2) × (c.column ≡ 1) × (c.buffer 78 ≡ 0x76f) × (c.buffer 160 ≡ 0x721)
unfolding console_write console_putchar put_printable finish next_row console_update_cursor
    vga_entry
hello = (refl, refl, refl, refl)

-- A newline on the last row scrolls: cell 81 moves up to cell 1.
newline_scrolls :
    let c = console_putchar (at 24 5) 10 in
    (c.row ≡ 24) × (c.column ≡ 0) × (c.buffer 1 ≡ 81) × (c.buffer 1920 ≡ 0x720)
unfolding console_putchar finish next_row console_update_cursor console_scroll vga_entry fill
    copy_rows copy_row
newline_scrolls = (refl, refl, refl, refl)

console_putchar_safe_example :
    IsValid (console_putchar (at 24 79) b'x')
    × Tells (console_putchar (at 24 79) b'x').ports (position (console_putchar (at 24 79) b'x'))
    × ((j : ℕ) → 2000 ≤ j → (console_putchar (at 24 79) b'x').buffer j ≡ j)
console_putchar_safe_example = console_putchar_safe (at 24 79) b'x' (omega arith)

console_putchar-backspace_example :
    let d = console_putchar (console_putchar (at 3 4) b'x') 8 in
    (d.row ≡ 3)
    × (d.column ≡ 4)
    × ((j : ℕ) → d.buffer j ≡ (if 244 == j then vga_entry b' ' 7 else j))
console_putchar-backspace_example =
    console_putchar-backspace (at 3 4) b'x' (omega arith) (omega arith) (omega arith)

console_scroll_lem_example :
    ((j : ℕ)
      → (console_scroll (at 25 0)).buffer j
        ≡ (if ltb j 1920 then j + 80 else (if ltb j 2000 then vga_entry b' ' 7 else j)))
    × ((console_scroll (at 25 0)).row ≡ 24)
    × ((console_scroll (at 25 0)).column ≡ 0)
console_scroll_lem_example = console_scroll_lem (at 25 0)
