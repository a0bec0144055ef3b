-- ===== src/Interrupts/Dispatch.antt =====
-- What the tables dispatch to.
use own_kernel.Prelude.{
  ◌∙◌, ap, ℕ, zero, suc, ◌+◌, ◌*◌, ◌^◌, ◌≤◌, ◌<◌, ◌≡◌, ◌≢◌, refl, inl, inr, ◌&&◌, Bool-cases, none,
  some, arith, true, false, ◌==◌, leb, ltb, if◌then◌else◌, update,
}
use own_kernel.Prelude.Bits.{bit_and-low_mask}
use own_kernel.Prelude.Int.{pos}
use own_kernel.Task.{InterruptFrame, Tasks, task_save_state, task_current_save_state, null}
use own_kernel.Interrupts.{
  total_interrupts, max_isr80h_commands, IdtDesc, Machine, Callback, Command, Idt, idt_set, set_all,
  idt_register_interrupt_callback, register_exceptions, idt_init, save_state,
  isr80h_register_command, isr80h_handle_command, describe_all, clear_descriptors,
}

-- the address that the processor jumps to
abbrev pub target : IdtDesc → ℕ
target d = d.offset_1 + d.offset_2 * 2 ^ 16

set-target :
    (n a : ℕ) (f : ℕ → IdtDesc) (j : ℕ)
    → target (idt_set n a f j) ≡ (if j == n then a else target (f j))
unfolding idt_set
set-target n a f j = ground (arith, bit_and-low_mask 16 a)

set-type :
    (n a : ℕ) (f : ℕ → IdtDesc) (j : ℕ)
    → (idt_set n a f j).type_attr ≡ (if j == n then 0xEE else (f j).type_attr)
unfolding idt_set
set-type n a f j = ground arith

set_all-target :
    (n i : ℕ) (table : ℕ → ℕ) (f : ℕ → IdtDesc) (j : ℕ)
    → target (set_all n i table f j) ≡ (if leb i j && ltb j (i + n) then table j else target (f j))
unfolding set_all
set_all-target zero i table f j = ground arith
set_all-target (suc n) i table f j = ground (
  arith,
  set_all-target n (i + 1) table (idt_set i (table i) f) j,
  set-target i (table i) f j,
  ap table {x = i} {y = j},
)

set_all-type :
    (n i : ℕ) (table : ℕ → ℕ) (f : ℕ → IdtDesc) (j : ℕ)
    → (set_all n i table f j).type_attr
      ≡ (if leb i j && ltb j (i + n) then 0xEE else (f j).type_attr)
unfolding set_all
set_all-type zero i table f j = ground arith
set_all-type (suc n) i table f j =
    ground (arith, set_all-type n (i + 1) table (idt_set i (table i) f) j, set-type i (table i) f j)

callback-get :
    {World : Type 0} (i : ℕ) (callback : Callback World) (idt : Idt World) (j : ℕ)
    → i < total_interrupts
    → ((idt_register_interrupt_callback (pos i) callback idt).1.interrupt_callbacks j
        ≡ (if j == i then some callback else idt.interrupt_callbacks j))
      × ((idt_register_interrupt_callback (pos i) callback idt).1.idt_descriptors
          ≡ idt.idt_descriptors)
unfolding idt_register_interrupt_callback
callback-get i callback idt j bound =
    let inside : leb total_interrupts i ≡ false = ground arith in rw inside (refl, refl)

exceptions-get :
    {World : Type 0} (n i : ℕ) (callback : Callback World) (idt : Idt World) (j : ℕ)
    → i + n ≤ total_interrupts
    → ((register_exceptions n i callback idt).interrupt_callbacks j
        ≡ (if leb i j && ltb j (i + n) then some callback else idt.interrupt_callbacks j))
      × ((register_exceptions n i callback idt).idt_descriptors ≡ idt.idt_descriptors)
unfolding register_exceptions
exceptions-get zero i callback idt j bound = (ground arith, refl)
exceptions-get (suc n) i callback idt j bound =
    let here = callback-get i callback idt j (omega arith) in
    let rest =
      exceptions-get n (i + 1) callback (idt_register_interrupt_callback (pos i) callback idt).1 j
        (omega arith) in
    (ground (arith, here, rest), rest.1 ∙ here.1)

-- After `idt_init` each of the 512 interrupts enters at its own entry point, 0x80 at the one of the
-- system calls; user code may raise each; the first 32 call the exception callback and the next one
-- the clock's.
pub idt_init-target :
    {World : Type 0} (table : ℕ → ℕ) (wrapper : ℕ) (exception clock : Callback World)
    (idt : Idt World) (j : ℕ)
    → j < total_interrupts
    → (target ((idt_init table wrapper exception clock idt).idt_descriptors j)
        ≡ (if j == 0x80 then wrapper else table j))
      × (((idt_init table wrapper exception clock idt).idt_descriptors j).type_attr ≡ 0xEE)
      × ((idt_init table wrapper exception clock idt).interrupt_callbacks j ≡ (
          if ltb j 0x20
          then some exception
          else if j == 0x20
          then some clock
          else idt.interrupt_callbacks j))
unfolding idt_init
idt_init-target {World = World} table wrapper exception clock idt j bound =
    let all : ℕ → IdtDesc =
      set_all total_interrupts 0 table (clear_descriptors idt.idt_descriptors) in
    let d : Idt World = describe_all table wrapper idt in
    let last = callback-get 0x20 clock (register_exceptions 0x20 0 exception d) j (omega arith) in
    let first = exceptions-get 0x20 0 exception d j (omega arith) in
    let same = last.1 ∙ first.1 in
    (
      ap (λ (f : ℕ → IdtDesc). target (f j)) same
          ∙ ground (
            arith,
            set-target 0x80 wrapper all j,
            set_all-target total_interrupts 0 table (clear_descriptors idt.idt_descriptors) j,
          ),
      ap (λ (f : ℕ → IdtDesc). (f j).type_attr) same
          ∙ ground (
            arith,
            set-type 0x80 wrapper all j,
            set_all-type total_interrupts 0 table (clear_descriptors idt.idt_descriptors) j,
          ),
      ground (arith, last.0, first.0),
    )

-- A system call that is registered under a number in range that was free is the one that is
-- called; another number keeps its own, and the number cannot be registered again.
pub isr80h_handle_command-register :
    {World : Type 0} (n k : ℕ) (f : Command World) (idt : Idt World) (frame : InterruptFrame)
    (s : Machine World)
    → n < max_isr80h_commands
    → idt.isr80h_commands n ≡ none
    → (idt' : Idt World) × (isr80h_register_command (pos n) f idt ≡ some idt')
      × (isr80h_handle_command idt' (pos k) frame s
          ≡ (if k == n then f frame s else isr80h_handle_command idt (pos k) frame s))
      × (isr80h_register_command (pos n) f idt' ≡ none)
unfolding isr80h_register_command isr80h_handle_command
isr80h_handle_command-register n k f idt frame s bound free =
    let inside : leb max_isr80h_commands n ≡ false = ground arith in
    let here : (n == n) ≡ true = ground arith in
    (
      record idt { isr80h_commands = update idt.isr80h_commands n (some f) },
      rw (inside, free) refl,
      elim (Bool-cases (k == n)) [
        | inl same ↦ let e : k ≡ n = ground arith in rw (same, e, inside) refl
        | inr other ↦ rw other refl
      ],
      rw (inside, here) refl,
    )

current-some :
    (frame : InterruptFrame) (t : Tasks)
    → t.current ≢ null
    → task_current_save_state frame t ≡ some (task_save_state t.current frame t)
unfolding task_current_save_state
current-some frame t running =
    let some_task : (t.current == null) ≡ false = ground arith in rw some_task refl

pub save_state-some :
    {World : Type 0} (frame : InterruptFrame) (s : Machine World)
    → s.tasks.current ≢ null
    → save_state frame s ≡ some (record s { tasks = task_save_state s.tasks.current frame s.tasks })
unfolding save_state
save_state-some frame s running = rw (current-some frame s.tasks running, save_state) refl
