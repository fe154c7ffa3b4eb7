-- ===== src/Console/Scroll.antt =====
-- What the loops of kernel/drivers/console.c leave in the VGA buffer.
use v.Common.{
  ℕ, zero, suc, ◌+◌, ◌-◌, ◌*◌, ◌≤◌, ◌≡◌, refl, ltb, if◌then◌else◌, update, arith, within,
}
use v.Console.{
  Console, vga_entry, fill, clear_rows, console_clear, copy_row, copy_rows, console_scroll,
  console_update_cursor,
}

fill_lem :
    (n i e : ℕ) (buf : ℕ → ℕ) (j : ℕ) → fill n i e buf j ≡ (if within i n j then e else buf j)
unfolding fill
fill_lem zero i e buf j = ground arith
fill_lem (suc n) i e buf j = ground (arith, fill_lem n (i + 1) e (update buf i e) j)

clear_rows_lem :
    (n y e : ℕ) (buf : ℕ → ℕ) (j : ℕ)
    → clear_rows n y e buf j ≡ (if within (y * 80) (n * 80) j then e else buf j)
unfolding clear_rows
clear_rows_lem zero y e buf j = ground arith
clear_rows_lem (suc n) y e buf j =
    ground
      (arith, clear_rows_lem n (y + 1) e (fill 80 (y * 80) e buf) j, fill_lem 80 (y * 80) e buf j)

-- `k` is the row that is written, one above the row `y` that is read.
copy_row_lem :
    (n x y k : ℕ) (buf : ℕ → ℕ) (j : ℕ)
    → y ≡ k + 1
    → x + n ≤ 80
    → copy_row n x y buf j ≡ (if within (k * 80 + x) n j then buf (j + 80) else buf j)
unfolding copy_row
copy_row_lem zero x y k buf j e h = ground arith
copy_row_lem (suc n) x y k buf j e h =
    ground (arith, copy_row_lem n (x + 1) y k (update buf ((y - 1) * 80 + x) (buf (y * 80 + x))) j)

copy_rows_lem :
    (n y k : ℕ) (buf : ℕ → ℕ) (j : ℕ)
    → y ≡ k + 1
    → copy_rows n y buf j ≡ (if within (k * 80) (n * 80) j then buf (j + 80) else buf j)
unfolding copy_rows
copy_rows_lem zero y k buf j e = ground arith
copy_rows_lem (suc n) y k buf j e = ground (
  arith,
  copy_rows_lem n (y + 1) (k + 1) (copy_row 80 0 y buf) j,
  copy_row_lem 80 0 y k buf j e,
  copy_row_lem 80 0 y k buf (j + 80) e,
)

-- A scroll moves every row up by one, blanks the last, puts the cursor's row on it and leaves the
-- memory behind the screen alone.
pub console_scroll_lem :
    (c : Console)
    → ((j : ℕ)
        → (console_scroll c).buffer j ≡ (
            if ltb j 1920
            then c.buffer (j + 80)
            else (if ltb j 2000 then vga_entry b' ' c.color else c.buffer j)))
      × ((console_scroll c).row ≡ 24)
      × ((console_scroll c).column ≡ c.column)
unfolding console_scroll
console_scroll_lem c = (
  λ j. ground (
    arith,
    fill_lem 80 1920 (vga_entry b' ' c.color) (copy_rows 24 1 c.buffer) j,
    copy_rows_lem 24 1 0 c.buffer j,
  ),
  refl,
  refl,
)

-- `console_clear` blanks exactly the 2000 cells of the screen and puts the cursor at its start.
pub console_clear_lem :
    (c : Console)
    → ((j : ℕ)
        → (console_clear c).buffer j ≡ (if ltb j 2000 then vga_entry b' ' c.color else c.buffer j))
      × ((console_clear c).row ≡ 0)
      × ((console_clear c).column ≡ 0)
unfolding console_clear console_update_cursor
console_clear_lem c =
    (λ j. ground (arith, clear_rows_lem 25 0 (vga_entry b' ' c.color) c.buffer j), refl, refl)
