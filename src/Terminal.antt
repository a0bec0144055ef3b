-- ===== src/Terminal.antt =====
-- The terminal of src/kernel.c: a cursor over the text screen at 0xB8000.
-- The screen memory is a function of the cell's position, so a cell below the last row can be
-- written like any other. Rows and columns are 16 bits wide.
pub mod Cursor
pub mod Printing
use own_kernel.Prelude.{
  ℕ, zero, suc, ◌+◌, ◌-◌, ◌*◌, ◌%◌, ◌^◌, Bool, Option, none, some, ◌&&◌, ◌==◌, ltb, if◌then◌else◌,
  update, bit_or,
}
use own_kernel.Memory.{Mem}
use own_kernel.Strings.{strlen}

abbrev pub vga_width : ℕ
vga_width = 80

abbrev pub vga_height : ℕ
vga_height = 20

pub record Terminal : Type 0 where
  pub video_memory : ℕ → ℕ
  pub row : ℕ
  pub col : ℕ

-- `char` is signed: a character from 128 on sets all the bits above it.
abbrev pub sign_extend : ℕ → ℕ
sign_extend c = if ltb c 128 then c else 2 ^ 16 - 256 + c

unfoldable pub terminal_make_char : (c color : ℕ) → ℕ
terminal_make_char c color = bit_or (sign_extend color * 2 ^ 8 % 2 ^ 16) (sign_extend c)

unfoldable pub terminal_putchar : (x y c color : ℕ) → Terminal → Terminal
terminal_putchar x y c color t = record t {
  video_memory = update t.video_memory (y * vga_width + x) (terminal_make_char c color);
}

-- The part of `terminal_writechar` behind the tests for a newline and a backspace.
unfoldable pub terminal_write_plain : (c color : ℕ) → Terminal → Terminal
terminal_write_plain c color t =
    let put : Terminal = terminal_putchar t.col t.row c color t in
    if t.col + 1 == vga_width
    then record put { col = 0; row = (t.row + 1) % 2 ^ 16 }
    else record put { col = (t.col + 1) % 2 ^ 16 }

-- `terminal_writechar(' ', 15)` writes a plain character.
unfoldable pub terminal_backspace : Terminal → Terminal
terminal_backspace t =
    let up : Terminal =
      if t.col == 0 then record t { row = (t.row + 2 ^ 16 - 1) % 2 ^ 16; col = vga_width } else t in
    let blanked : Terminal =
      terminal_write_plain b' ' 15 (record up { col = (up.col + 2 ^ 16 - 1) % 2 ^ 16 }) in
    if t.row == 0 && t.col == 0
    then t
    else record blanked { col = (blanked.col + 2 ^ 16 - 1) % 2 ^ 16 }

unfoldable pub terminal_writechar : (c color : ℕ) → Terminal → Terminal
terminal_writechar c color t =
    if c == 10
    then record t { row = (t.row + 1) % 2 ^ 16; col = 0 }
    else if c == 0x08
    then terminal_backspace t
    else terminal_write_plain c color t

-- One row with `n` columns left, and the rows with `n` left.
unfoldable pub clear_row : (n col row : ℕ) → Terminal → Terminal
clear_row zero col row t = t
clear_row (suc n) col row t = clear_row n (col + 1) row (terminal_putchar col row b' ' 0 t)

unfoldable pub clear_rows : (n row : ℕ) → Terminal → Terminal
clear_rows zero row t = t
clear_rows (suc n) row t = clear_rows n (row + 1) (clear_row vga_width 0 row t)

unfoldable pub terminal_initalize : Terminal → Terminal
terminal_initalize t = clear_rows vga_height 0 (record t { row = 0; col = 0 })

-- The loop of `print` with `n` characters left.
unfoldable pub print_loop : (n index : ℕ) → Mem → (str : ℕ) → Terminal → Terminal
print_loop zero index m str t = t
print_loop (suc n) index m str t =
    print_loop n (index + 1) m str (terminal_writechar (m (str + index)) 15 t)

-- `none` means that the fuel of `strlen` ran out.
unfoldable pub print : (fuel : ℕ) → Mem → (str : ℕ) → Terminal → Option Terminal
print fuel m str t = elim (strlen fuel m str) [
  | none ↦ none
  | some len ↦ some (print_loop len 0 m str t)
]
