-- ===== src/Keyboard/Typed.antt =====
-- What a key press does to the queue of the current process.
use own_kernel.Prelude.{
  ap, ℕ, ◌+◌, ◌<◌, ◌≡◌, refl, ◌⊎◌, inl, inr, Bool, true, false, not, ◌&&◌, Bool-cases, List, [],
  ◌∷◌, ◌++◌, arith, ltb, leb, ◌==◌, if◌then◌else◌, get_or, length, bit_and,
}
use own_kernel.Keyboard.{keyboard_buffer_size, KeyboardBuffer, keyboard_push}
use own_kernel.Keyboard.Queue.{IsQueue, keyboard_push-IsQueue}
use own_kernel.Keyboard.Classic.{
  scan_set_one, Typing, key_released, caps_lock_key, classic_keyboard_scancode_to_char,
  classic_keyboard_handle_interrupt,
}

upper_lower :
    (c : ℕ) (out : Bool)
    → ((if out then 0 else if leb b'A' c && (leb c b'Z' && true) then c + 32 else c) < b'A')
      ⊎ (b'Z' < (if out then 0 else if leb b'A' c && (leb c b'Z' && true) then c + 32 else c))
upper_lower c out = ground arith

-- Without caps lock no scan code gives a capital letter.
pub classic_keyboard_scancode_to_char_lower :
    (beyond scancode : ℕ)
    → (classic_keyboard_scancode_to_char beyond false scancode < b'A')
      ⊎ (b'Z' < classic_keyboard_scancode_to_char beyond false scancode)
unfolding classic_keyboard_scancode_to_char
classic_keyboard_scancode_to_char_lower beyond scancode =
    upper_lower (get_or scan_set_one scancode beyond) (ltb (length scan_set_one) scancode)

append-nil : (xs : List ℕ) → xs ++ [] ≡ xs
append-nil [] = refl
append-nil (x ∷ xs) = ap (λ (l : List ℕ). x ∷ l) (append-nil xs)

caps_released :
    (scancode : ℕ)
    → (bit_and scancode key_released == 0) ≡ false
    → (scancode == caps_lock_key) ≡ false
caps_released scancode released = elim (Bool-cases (scancode == caps_lock_key)) [
  | inr other ↦ other
  | inl same ↦
      let e : bit_and scancode key_released ≡ bit_and caps_lock_key key_released =
        ap (λ (n : ℕ). bit_and n key_released) {y = caps_lock_key} (ground arith) in
      ground (arith, e)
]

-- the caps lock state that the handler leaves, and the characters that it queues
abbrev pub caps_after : Bool → ℕ → Bool
caps_after caps_lock scancode = if scancode == caps_lock_key then not caps_lock else caps_lock

abbrev pub typed : (c scancode : ℕ) → List ℕ
typed c scancode = if bit_and scancode key_released == 0 && not (c == 0) then c ∷ [] else []

push_typed-IsQueue :
    {k : KeyboardBuffer} {q : List ℕ} (c : ℕ)
    → IsQueue k q
    → length q < keyboard_buffer_size
    → IsQueue (if c == 0 then k else keyboard_push c k) (q ++ (if not (c == 0) then c ∷ [] else []))
push_typed-IsQueue {q} c is room = elim (Bool-cases (c == 0)) [
  | inl none_typed ↦ rw (none_typed, append-nil q) is
  | inr some_typed ↦ rw some_typed (keyboard_push-IsQueue c is (ground arith) room)
]

-- With room in the queue, a press queues the character that the code stands for, if it stands for
-- one, in the caps lock state that the press leaves; a release queues nothing. The code of the
-- caps lock key switches the state, and no other code does.
pub classic_keyboard_handle_interrupt_lem :
    (s : Typing) (q : List ℕ) (beyond scancode : ℕ)
    → IsQueue s.keyboard q
    → length q < keyboard_buffer_size
    → IsQueue (classic_keyboard_handle_interrupt beyond scancode s).keyboard (
        q
        ++ typed
            (classic_keyboard_scancode_to_char beyond (caps_after s.caps_lock scancode) scancode)
            scancode)
      × ((classic_keyboard_handle_interrupt beyond scancode s).caps_lock
          ≡ caps_after s.caps_lock scancode)
unfolding classic_keyboard_handle_interrupt
classic_keyboard_handle_interrupt_lem s q beyond scancode is room =
    elim (Bool-cases (bit_and scancode key_released == 0)) [
      | inl pressed ↦ rw pressed (
        push_typed-IsQueue
            (classic_keyboard_scancode_to_char beyond (caps_after s.caps_lock scancode) scancode) is
            room,
        refl,
      )
      | inr released ↦
          let other : (scancode == caps_lock_key) ≡ false = caps_released scancode released in
          rw (released, append-nil q) (is, rw other refl)
    ]
