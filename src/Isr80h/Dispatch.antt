-- ===== src/Isr80h/Dispatch.antt =====
-- Which body a system call's number runs, once the commands are registered.
use own_kernel.Prelude.{
  length, take, ℕ, zero, suc, ◌+◌, ◌<◌, ◌≤◌, ◌≡◌, refl, ◌∙◌, Option, none, some, List, [], ◌∷◌,
  get_elem?, arith, ◌==◌, leb, update, false,
}
use own_kernel.Prelude.Int.{pos}
use own_kernel.Task.{InterruptFrame}
use own_kernel.Interrupts.{
  Machine, Idt, max_isr80h_commands, isr80h_register_command, isr80h_handle_command,
}
use own_kernel.Isr80h.{
  System, Surroundings, Outcome, isr80h_command1_print, isr80h_command2_getkey,
  isr80h_command3_putchar, isr80h_command4_malloc, isr80h_command5_free,
}
use own_kernel.Isr80h.Programs.{
  isr80h_command6_process_load_start, isr80h_command7_invoke_system_command,
  isr80h_command8_get_program_arguments, isr80h_command0_exit,
}
use own_kernel.Isr80h.Commands.{command, also, came_back, with_tasks, isr80h_register_commands}

-- `enum SystemCommands`: the bodies in the order of their numbers.
abbrev pub bodies : Surroundings → List (System → Outcome)
bodies env =
    isr80h_command0_exit
    ∷ isr80h_command1_print env
    ∷ isr80h_command2_getkey
    ∷ isr80h_command3_putchar env
    ∷ isr80h_command4_malloc env
    ∷ isr80h_command5_free env
    ∷ isr80h_command6_process_load_start env
    ∷ isr80h_command7_invoke_system_command env
    ∷ isr80h_command8_get_program_arguments env
    ∷ []

-- The tables with one more body.
abbrev added : (number : ℕ) → (System → Outcome) → Idt System → Idt System
added number body idt = record idt {
  isr80h_commands = update idt.isr80h_commands number (some (command body));
}

also-added :
    (number : ℕ) (body : System → Outcome) (idt : Idt System)
    → number < max_isr80h_commands
    → idt.isr80h_commands number ≡ none
    → also number body (some idt) ≡ some (added number body idt)
unfolding isr80h_register_command
also-added number body idt bound clear =
    let inside : leb max_isr80h_commands number ≡ false = ground arith in rw (inside, clear) refl

-- The tables with the first `n` bodies of a list from `number` on.
abbrev all_added : (number : ℕ) → List (System → Outcome) → Idt System → Idt System
all_added number [] idt = idt
all_added number (body ∷ rest) idt = all_added (number + 1) rest (added number body idt)

-- What a number runs.
abbrev pub runs :
    Option (System → Outcome)
    → InterruptFrame
    → Machine System
    → Option (ℕ × Machine System)
    → Option (ℕ × Machine System)
runs none frame s otherwise = otherwise
runs (some body) frame s otherwise = came_back (body (with_tasks s))

-- The tables with the first `n` bodies.
abbrev pub upto : Surroundings → (n : ℕ) → Idt System → Idt System
upto env n idt = all_added 0 (take n (bodies env)) idt

handle-added :
    (number n : ℕ) (body : System → Outcome) (idt : Idt System) (frame : InterruptFrame)
    (s : Machine System)
    → number < n
    → isr80h_handle_command (added number body idt) (pos n) frame s
      ≡ isr80h_handle_command idt (pos n) frame s
unfolding isr80h_handle_command
handle-added number n body idt frame s above =
    let other : (n == number) ≡ false = ground arith in rw other refl

-- A number behind those of the bodies runs what it ran.
handle-all_added :
    (number n : ℕ) (rest : List (System → Outcome)) (idt : Idt System) (frame : InterruptFrame)
    (s : Machine System)
    → number + length rest ≤ n
    → isr80h_handle_command (all_added number rest idt) (pos n) frame s
      ≡ isr80h_handle_command idt (pos n) frame s
handle-all_added number n [] idt frame s above = refl
handle-all_added number n (body ∷ rest) idt frame s above =
    handle-all_added (number + 1) n rest (added number body idt) frame s (omega arith)
    ∙ handle-added number n body idt frame s (omega arith)

pub runs-added :
    (env : Surroundings) (idt : Idt System) (n : ℕ) (frame : InterruptFrame) (s : Machine System)
    → isr80h_handle_command (upto env 9 idt) (pos n) frame s
      ≡ runs (get_elem? (bodies env) n) frame s (isr80h_handle_command idt (pos n) frame s)
unfolding isr80h_handle_command
runs-added env idt zero frame s = refl
runs-added env idt (suc zero) frame s = refl
runs-added env idt (suc (suc zero)) frame s = refl
runs-added env idt (suc (suc (suc zero))) frame s = refl
runs-added env idt (suc (suc (suc (suc zero)))) frame s = refl
runs-added env idt (suc (suc (suc (suc (suc zero))))) frame s = refl
runs-added env idt (suc (suc (suc (suc (suc (suc zero)))))) frame s = refl
runs-added env idt (suc (suc (suc (suc (suc (suc (suc zero))))))) frame s = refl
runs-added env idt (suc (suc (suc (suc (suc (suc (suc (suc zero)))))))) frame s = refl
runs-added env idt (suc (suc (suc (suc (suc (suc (suc (suc (suc n))))))))) frame s =
    handle-all_added 0 (suc (suc (suc (suc (suc (suc (suc (suc (suc n))))))))) (bodies env) idt
      frame s (omega arith)

-- On tables whose first nine numbers are free, the registration adds the bodies in their order.
pub isr80h_register_commands-upto :
    (env : Surroundings) (idt : Idt System)
    → ((n : ℕ) → n < 9 → idt.isr80h_commands n ≡ none)
    → isr80h_register_commands env idt ≡ some (upto env 9 idt)
unfolding isr80h_register_commands
isr80h_register_commands-upto env idt clear =
    rw
      (
        also-added 0 isr80h_command0_exit (upto env 0 idt) (omega arith) (clear 0 (omega arith)),
        also-added 1 (isr80h_command1_print env) (upto env 1 idt) (omega arith)
            (clear 1 (omega arith)),
        also-added 2 isr80h_command2_getkey (upto env 2 idt) (omega arith) (clear 2 (omega arith)),
        also-added 3 (isr80h_command3_putchar env) (upto env 3 idt) (omega arith)
            (clear 3 (omega arith)),
        also-added 4 (isr80h_command4_malloc env) (upto env 4 idt) (omega arith)
            (clear 4 (omega arith)),
        also-added 5 (isr80h_command5_free env) (upto env 5 idt) (omega arith)
            (clear 5 (omega arith)),
        also-added 6 (isr80h_command6_process_load_start env) (upto env 6 idt) (omega arith)
            (clear 6 (omega arith)),
        also-added 7 (isr80h_command7_invoke_system_command env) (upto env 7 idt) (omega arith)
            (clear 7 (omega arith)),
        also-added 8 (isr80h_command8_get_program_arguments env) (upto env 8 idt) (omega arith)
            (clear 8 (omega arith)),
      )
      refl

-- On tables whose first nine numbers are free, the registration of the system calls succeeds, and
-- then each of these numbers runs the body that the enumeration gives it, on the tasks of the caller,
-- and every other number what it ran before.
pub isr80h_register_commands-runs :
    (env : Surroundings) (idt : Idt System)
    → ((n : ℕ) → n < 9 → idt.isr80h_commands n ≡ none)
    → (idt' : Idt System) × (isr80h_register_commands env idt ≡ some idt')
      × ((n : ℕ) (frame : InterruptFrame) (s : Machine System)
          → isr80h_handle_command idt' (pos n) frame s
            ≡ runs (get_elem? (bodies env) n) frame s (isr80h_handle_command idt (pos n) frame s))
isr80h_register_commands-runs env idt clear =
    (upto env 9 idt, isr80h_register_commands-upto env idt clear, runs-added env idt)
