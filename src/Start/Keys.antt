-- ===== src/Start/Keys.antt =====
-- A key, from its interrupt to the buffer of the current process.
use own_kernel.Prelude.{
  ℕ, ◌<◌, ◌≡◌, ◌≢◌, refl, ap, ◌∙◌, sym, false, true, some, List, ◌++◌, length, arith, inl, inr,
  Bool-cases, ◌==◌, bit_and, update,
}
use mathlib.Core.Path.{subst}
use own_kernel.Keyboard.{keyboard_buffer_size}
use own_kernel.Keyboard.Queue.{IsQueue}
use own_kernel.Keyboard.Classic.{
  key_released, Typing, classic_keyboard_scancode_to_char, classic_keyboard_handle_interrupt,
}
use own_kernel.Keyboard.Typed.{caps_after, typed, classic_keyboard_handle_interrupt_lem}
use own_kernel.Task.{null, InterruptFrame, task_switch, task_save_state}
use own_kernel.Interrupts.{comes_back, Machine, Idt, kernel_page, task_page, interrupt_handler}
use own_kernel.Interrupts.Dispatch.{save_state-some}
use own_kernel.Isr80h.{System, kernel_of}
use own_kernel.Start.{process_current, keyboard_callback, keyboard_get_capslock, keyboard_interrupt}

-- What the key buffers hold after the key `code`: that of the process `p` has what it stands for.
pub record IsTyped (p code beyond : ℕ) (q : List ℕ) (before after : System) : Type 0 where
  pub queue : IsQueue (after.keyboards p) (
      q
      ++ typed
          (classic_keyboard_scancode_to_char beyond (caps_after before.caps_lock code) code)
          code)
  pub caps_lock : after.caps_lock ≡ caps_after before.caps_lock code
  pub others : (other : ℕ) → other ≢ p → after.keyboards other ≡ before.keyboards other

abbrev typing_of : System → ℕ → Typing
typing_of s p = record { caps_lock = s.caps_lock; keyboard = s.keyboards p }

released-same :
    (beyond code : ℕ) (t : Typing)
    → (bit_and code key_released == 0) ≡ false
    → classic_keyboard_handle_interrupt beyond code t ≡ t
unfolding classic_keyboard_handle_interrupt
released-same beyond code t released = rw (released, classic_keyboard_handle_interrupt) refl

callback-IsTyped :
    (kernel_chunk beyond code : ℕ) (frame : InterruptFrame) (s : Machine System) (q : List ℕ)
    → process_current (kernel_of s.world) ≢ 0
    → IsQueue (s.world.keyboards (process_current (kernel_of s.world))) q
    → length q < keyboard_buffer_size
    → (s' : Machine System) × (keyboard_callback kernel_chunk beyond (λ m. code) frame s
        ≡ comes_back s')
      × IsTyped (process_current (kernel_of s.world)) code beyond q s.world s'.world
      × (s'.tasks.current ≡ s.tasks.current)
unfolding keyboard_callback keyboard_get_capslock task_switch
callback-IsTyped kernel_chunk beyond code frame s q nonnull is room =
    let p : ℕ = process_current (kernel_of s.world) in
    let (queue, caps) =
      classic_keyboard_handle_interrupt_lem (typing_of s.world p) q beyond code is room in
    let some_process : (p == 0) ≡ false = ground arith in
    let t : Typing = classic_keyboard_handle_interrupt beyond code (typing_of s.world p) in
    elim (Bool-cases (bit_and code key_released == 0)) [
      | inl pressed ↦ (
        task_page (record (kernel_page kernel_chunk s) {
          world = record s.world {
            caps_lock = t.caps_lock;
            keyboards = update s.world.keyboards p t.keyboard;
          };
        }),
        rw (pressed, keyboard_callback) (rw some_process refl),
        record {
          queue = (let same : (p == p) ≡ true = ground arith in rw same queue);
          caps_lock = caps;
          others =
              λ other apart. (let ne : (other == p) ≡ false = ground (arith, apart) in rw ne refl);
        },
        refl,
      )
      | inr released ↦ (
        kernel_page kernel_chunk s,
        rw (released, keyboard_callback) refl,
        (let same = released-same beyond code (typing_of s.world p) released in
            record {
              queue =
                  subst
                    (λ (x : Typing). IsQueue x.keyboard (
                      q
                      ++ typed
                          (classic_keyboard_scancode_to_char beyond
                            (caps_after s.world.caps_lock code) code)
                          code))
                    same queue;
              caps_lock = sym (ap (λ (x : Typing). x.caps_lock) same) ∙ caps;
              others = λ other apart. refl;
            }),
        refl,
      )
    ]

-- With the handler of the keyboard at its interrupt, a current task and a current process whose queue
-- of keys has room, the interrupt comes back: a press has queued the character of its scan code in the
-- caps lock state that it leaves, if there is one, behind the keys of that process, a release has
-- queued nothing, no other process has another queue, and the pages of the task are in use.
pub interrupt_handler-IsTyped :
    (kernel_chunk beyond code : ℕ) (idt : Idt System) (frame : InterruptFrame) (s : Machine System)
    (q : List ℕ)
    → idt.interrupt_callbacks keyboard_interrupt
      ≡ some (keyboard_callback kernel_chunk beyond (λ m. code))
    → s.tasks.current ≢ null
    → process_current (kernel_of s.world) ≢ 0
    → IsQueue (s.world.keyboards (process_current (kernel_of s.world))) q
    → length q < keyboard_buffer_size
    → (s' : Machine System) × (interrupt_handler kernel_chunk idt keyboard_interrupt frame s
        ≡ comes_back s')
      × IsTyped (process_current (kernel_of s.world)) code beyond q s.world s'.world
      × (s'.tasks.current ≡ s.tasks.current)
      × (s'.tasks.directory ≡ (s'.tasks.task s'.tasks.current).page_directory)
unfolding interrupt_handler task_switch task_save_state
interrupt_handler-IsTyped kernel_chunk beyond code idt frame s q at running nonnull is room =
    let entered : Machine System = kernel_page kernel_chunk s in
    let saved = save_state-some frame entered running in
    let (s', back, typed, current) =
      callback-IsTyped kernel_chunk beyond code frame
        (record entered { tasks = task_save_state entered.tasks.current frame entered.tasks }) q
        nonnull is room in
    (task_page s', rw (at, interrupt_handler) (rw saved (rw back refl)), typed, current, refl)
