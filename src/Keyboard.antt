-- ===== src/Keyboard.antt =====
-- src/keyboard/keyboard.c: the key buffer of a process (`struct keyboard_buffer` in task/process.h),
-- and src/keyboard/classic.c (`Keyboard.Classic`).
-- `head` and `tail` are the bit patterns of two `int` counters. `tail % sizeof(buffer)` is a
-- remainder of unsigned numbers, so a counter below 0 counts from 2 ^ 32.
pub mod Queue
pub mod Classic
pub mod Typed
use own_kernel.Prelude.{ℕ, ◌+◌, ◌-◌, ◌%◌, ◌^◌, Option, none, some, ◌==◌, if◌then◌else◌, update}

abbrev pub keyboard_buffer_size : ℕ
keyboard_buffer_size = 1024

pub record KeyboardBuffer : Type 0 where
  pub buffer : ℕ → ℕ
  pub tail : ℕ
  pub head : ℕ

unfoldable pub keyboard_get_tail_index : KeyboardBuffer → ℕ
keyboard_get_tail_index keyboard = keyboard.tail % keyboard_buffer_size

unfoldable pub keyboard_backspace : KeyboardBuffer → KeyboardBuffer
unfolding keyboard_get_tail_index
keyboard_backspace keyboard =
    let back : KeyboardBuffer = record keyboard { tail = (keyboard.tail + 2 ^ 32 - 1) % 2 ^ 32 } in
    record back { buffer = update back.buffer (keyboard_get_tail_index back) 0 }

-- The buffer of the current process; with no process nothing happens.
unfoldable pub keyboard_push : ℕ → KeyboardBuffer → KeyboardBuffer
unfolding keyboard_get_tail_index
keyboard_push c keyboard = if c == 0 then keyboard else record keyboard {
  buffer = update keyboard.buffer (keyboard_get_tail_index keyboard) c;
  tail = (keyboard.tail + 1) % 2 ^ 32;
}

-- The buffer of the current task's process; with no task the result is 0.
unfoldable pub keyboard_pop : KeyboardBuffer → ℕ × KeyboardBuffer
keyboard_pop keyboard =
    let index : ℕ = keyboard.head % keyboard_buffer_size in
    let c : ℕ = keyboard.buffer index in
    if c == 0 then (0, keyboard) else (
      c,
      record keyboard {
        buffer = update keyboard.buffer index 0;
        head = (keyboard.head + 1) % 2 ^ 32;
      },
    )
