-- ===== src/Keyboard/Classic.antt =====
-- src/keyboard/classic.c: scan codes of the PS/2 keyboard, and its interrupt handler.
-- `beyond` is the byte that happens to stand behind the table in memory.
use own_kernel.Prelude.{
  ℕ, ◌+◌, Bool, not, ◌&&◌, List, [], ◌∷◌, ltb, leb, ◌==◌, if◌then◌else◌, get_or, length, bit_and,
}
use own_kernel.Keyboard.{KeyboardBuffer, keyboard_push}

abbrev pub scan_set_one : List ℕ
scan_set_one =
    0x00 ∷ 0x1B ∷ b'1' ∷ b'2' ∷ b'3' ∷ b'4' ∷ b'5' ∷ b'6' ∷ b'7' ∷ b'8' ∷ b'9' ∷ b'0' ∷ b'-' ∷ b'='
    ∷ 0x08 ∷ 0x09 ∷ b'Q' ∷ b'W' ∷ b'E' ∷ b'R' ∷ b'T' ∷ b'Y' ∷ b'U' ∷ b'I' ∷ b'O' ∷ b'P' ∷ b'['
    ∷ b']' ∷ 0x0d ∷ 0x00 ∷ b'A' ∷ b'S' ∷ b'D' ∷ b'F' ∷ b'G' ∷ b'H' ∷ b'J' ∷ b'K' ∷ b'L' ∷ b';'
    ∷ 0x27 ∷ b'`' ∷ 0x00 ∷ 0x5C ∷ b'Z' ∷ b'X' ∷ b'C' ∷ b'V' ∷ b'B' ∷ b'N' ∷ b'M' ∷ b',' ∷ b'.'
    ∷ b'/' ∷ 0x00 ∷ b'*' ∷ 0x00 ∷ 0x20 ∷ 0x00 ∷ 0x00 ∷ 0x00 ∷ 0x00 ∷ 0x00 ∷ 0x00 ∷ 0x00 ∷ 0x00
    ∷ 0x00 ∷ 0x00 ∷ 0x00 ∷ b'7' ∷ b'8' ∷ b'9' ∷ b'-' ∷ b'4' ∷ b'5' ∷ b'6' ∷ b'+' ∷ b'1' ∷ b'2'
    ∷ b'3' ∷ b'0' ∷ b'.' ∷ []

abbrev pub key_released : ℕ
key_released = 0x80

abbrev pub caps_lock_key : ℕ
caps_lock_key = 0x3A

-- `capslock_state` and the buffer of the current process
pub record Typing : Type 0 where
  pub caps_lock : Bool
  pub keyboard : KeyboardBuffer

-- The test is `>`: the code one past the table reads the byte behind it.
unfoldable pub classic_keyboard_scancode_to_char :
    (beyond : ℕ) (caps_lock : Bool) (scancode : ℕ) → ℕ
classic_keyboard_scancode_to_char beyond caps_lock scancode =
    let c : ℕ = get_or scan_set_one scancode beyond in
    if ltb (length scan_set_one) scancode
    then 0
    else if leb b'A' c && (leb c b'Z' && not caps_lock)
    then c + 32
    else c

-- The handler between the two page switches, for the byte that `insb` read.
unfoldable pub classic_keyboard_handle_interrupt : (beyond : ℕ) (scancode : ℕ) → Typing → Typing
classic_keyboard_handle_interrupt beyond scancode s =
    let caps_lock : Bool = if scancode == caps_lock_key then not s.caps_lock else s.caps_lock in
    let c : ℕ = classic_keyboard_scancode_to_char beyond caps_lock scancode in
    if bit_and scancode key_released == 0
    then record {
      caps_lock = caps_lock;
      keyboard = if c == 0 then s.keyboard else keyboard_push c s.keyboard;
    }
    else s
