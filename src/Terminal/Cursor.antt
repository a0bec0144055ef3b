-- ===== src/Terminal/Cursor.antt =====
-- The cursor: where it stays in its row, and where it leaves the screen.
use own_kernel.Prelude.{ℕ, ◌+◌, ◌-◌, ◌*◌, ◌^◌, ◌≤◌, ◌<◌, ◌≡◌, ◌≢◌, arith}
use own_kernel.Terminal.{
  vga_width, vga_height, Terminal, terminal_make_char, terminal_putchar, terminal_write_plain,
  terminal_backspace, terminal_writechar,
}

-- The cursor stands in a column of the screen.
pub record IsCursor (t : Terminal) : Type 0 where
  pub col : t.col < vga_width
  pub row : t.row < 2 ^ 16

-- Every character but a backspace keeps a cursor in a column of the screen there.
pub terminal_writechar-IsCursor :
    {t : Terminal} (c color : ℕ) → IsCursor t → c ≢ 0x08 → IsCursor (terminal_writechar c color t)
unfolding terminal_writechar terminal_write_plain terminal_putchar
terminal_writechar-IsCursor c color is plain = ground arith

-- A backspace behind a plain character that did not end the line: the cursor is back where it was,
-- and its cell holds a blank.
pub terminal_backspace-writechar :
    {t : Terminal} (c color : ℕ)
    → IsCursor t
    → c ≢ 10
    → c ≢ 0x08
    → t.col + 1 < vga_width
    → ((terminal_backspace (terminal_writechar c color t)).row ≡ t.row)
      × ((terminal_backspace (terminal_writechar c color t)).col ≡ t.col)
      × ((terminal_backspace (terminal_writechar c color t)).video_memory
            (t.row * vga_width + t.col)
          ≡ terminal_make_char b' ' 15)
unfolding terminal_backspace terminal_writechar terminal_write_plain terminal_putchar
terminal_backspace-writechar {t} c color is newline back inside = ground arith

-- A backspace at the start of a row below the first leaves the row, and the column runs below 0.
pub terminal_backspace_row_start :
    (t : Terminal)
    → t.col ≡ 0
    → 0 < t.row
    → t.row < 2 ^ 16
    → ((terminal_backspace t).col ≡ 2 ^ 16 - 1) × ((terminal_backspace t).row ≡ t.row)
unfolding terminal_backspace terminal_write_plain terminal_putchar
terminal_backspace_row_start t start below small = ground arith

-- The screen does not scroll: a plain character on a row past the last is written past its end.
pub terminal_writechar_below :
    (t : Terminal) (c color : ℕ)
    → vga_height ≤ t.row
    → c ≢ 10
    → c ≢ 0x08
    → (k : ℕ) × (vga_width * vga_height ≤ k)
      × ((terminal_writechar c color t).video_memory k ≡ terminal_make_char c color)
unfolding terminal_writechar terminal_write_plain terminal_putchar
terminal_writechar_below t c color below newline back =
    (t.row * vga_width + t.col, omega arith, ground arith)
