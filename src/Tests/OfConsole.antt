-- ===== src/Tests/OfConsole.antt =====
-- An empty key buffer, a blank screen, and the kernel's code segment.
use own_kernel.Prelude.{ℕ, ◌≡◌, refl, inr, arith, List, [], ◌∷◌, ◌++◌, false, some, get_or}
use own_kernel.Memory.{Mem}
use own_kernel.Strings.Text.{CString}
use own_kernel.Keyboard.{KeyboardBuffer, keyboard_push, keyboard_pop}
use own_kernel.Keyboard.Queue.{IsQueue, keyboard_push-IsQueue, keyboard_pop-cons}
use own_kernel.Keyboard.Classic.{
  Typing, classic_keyboard_scancode_to_char, classic_keyboard_handle_interrupt,
}
use own_kernel.Keyboard.Typed.{caps_after, typed, classic_keyboard_handle_interrupt_lem}
use own_kernel.Terminal.{Terminal}
use own_kernel.Terminal.Cursor.{IsCursor}
use own_kernel.Gdt.{GdtStructured, Gdt, encode_gdt_entry}
use own_kernel.Gdt.Fields.{Encodes, encode_gdt_entry-Encodes}

abbrev pub no_keys : KeyboardBuffer
no_keys = record { buffer = λ _. 0; tail = 0; head = 0 }

pub no_keys-IsQueue : IsQueue no_keys []
no_keys-IsQueue = record {
  small = omega arith;
  tail_at = refl;
  room = omega arith;
  cells = tt;
  free = λ i lo hi. refl;
}

one_key-IsQueue : IsQueue (keyboard_push b'x' no_keys) (b'x' ∷ [])
one_key-IsQueue = keyboard_push-IsQueue b'x' no_keys-IsQueue (omega arith) (omega arith)

keyboard_pop-cons_example :
    ((keyboard_pop (keyboard_push b'x' no_keys)).0 ≡ b'x')
    × IsQueue (keyboard_pop (keyboard_push b'x' no_keys)).1 []
keyboard_pop-cons_example = keyboard_pop-cons one_key-IsQueue

abbrev idle : Typing
idle = record { caps_lock = false; keyboard = no_keys }

classic_keyboard_handle_interrupt_lem_example :
    IsQueue
      (classic_keyboard_handle_interrupt 0 0x1E idle).keyboard
      ([] ++ typed (classic_keyboard_scancode_to_char 0 (caps_after false 0x1E) 0x1E) 0x1E)
    × ((classic_keyboard_handle_interrupt 0 0x1E idle).caps_lock ≡ caps_after false 0x1E)
classic_keyboard_handle_interrupt_lem_example =
    classic_keyboard_handle_interrupt_lem idle [] 0 0x1E no_keys-IsQueue (omega arith)

abbrev screen : Terminal
screen = record { video_memory = λ _. 0; row = 3; col = 5 }

screen-IsCursor : IsCursor screen
screen-IsCursor = record { col = omega arith; row = omega arith }

abbrev row_start : Terminal
row_start = record screen { col = 0 }

abbrev greeting : Mem
greeting j = get_or (b'H' ∷ b'i' ∷ []) j 0

abbrev hi : List ℕ
hi = b'H' ∷ b'i' ∷ []

greeting-CString : CString greeting 0 hi
greeting-CString = (refl, omega arith, (refl, omega arith, refl))

abbrev code_segment : GdtStructured
code_segment = record { base = 0; limit = 0xFFFFFFFF; type = 0x9A }

encode_gdt_entry-Encodes_example :
    (g : Gdt) × (encode_gdt_entry code_segment ≡ some g) × Encodes code_segment g
encode_gdt_entry-Encodes_example =
    encode_gdt_entry-Encodes code_segment (omega arith) (omega arith) (inr refl)
