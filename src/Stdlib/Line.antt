-- ===== src/Stdlib/Line.antt =====
-- programs/stdlib/src/os.c, `os_getkey_block` and `os_terminal_readline`: a line that is typed. The
-- system calls are what they give and take: the list of the keys that `os_getkey` returns in turn, 0
-- where none has been pressed, and the characters that `os_putchar` has printed.
pub mod Editing
pub mod Bounds
use own_kernel.Prelude.{
  ℕ, ◌+◌, ◌-◌, Bool, ◌&&◌, not, Option, none, some, List, [], ◌∷◌, ◌==◌, leb, ltb, if◌then◌else◌,
  update,
}
use own_kernel.Memory.{Mem}

abbrev pub backspace : ℕ
backspace = 0x08

abbrev pub carriage_return : ℕ
carriage_return = 13

-- `printed` has the last character first.
pub record Line : Type 0 where
  pub index : ℕ
  pub memory : Mem
  pub printed : List ℕ

-- The test for a backspace.
abbrev pub erases : (key : ℕ) → Line → Bool
erases key s = key == backspace && leb 1 s.index

-- One key that is not the end of the line; 0 is not a key.
unfoldable pub typed : (output_while_typing : Bool) → (out key : ℕ) → Line → Line
typed output_while_typing out key s = if key == 0 then s else record {
  index = if erases key s then s.index - 1 else s.index + 1;
  memory =
      if erases key s
      then update s.memory (out + (s.index - 1)) 0x00
      else update s.memory (out + s.index) key;
  printed = if output_while_typing then key ∷ s.printed else s.printed;
}

-- `none` is a line that still waits for a key.
unfoldable pub readline_loop :
    (keys : List ℕ) → (output_while_typing : Bool) → (out max : ℕ) → Line → Option Line
readline_loop [] output_while_typing out max s = if ltb (s.index + 1) max then none else some s
readline_loop (key ∷ keys) output_while_typing out max s =
    let rest =
      readline_loop keys output_while_typing out max (typed output_while_typing out key s) in
    if not (ltb (s.index + 1) max) then some s else if key == carriage_return then some s else rest

unfoldable pub os_terminal_readline :
    (keys : List ℕ) → (out max : ℕ) → (output_while_typing : Bool) → Mem → Option Line
os_terminal_readline keys out max output_while_typing m =
    elim (readline_loop keys output_while_typing out max
      (record { index = 0; memory = m; printed = [] })) [
        | none ↦ none
        | some s ↦ some (record s { memory = update s.memory (out + s.index) 0x00 })
      ]
