-- ===== src/Isr80h/Commands.antt =====
-- src/isr80h/isr80h.c: the numbers of the system calls, and their registration.
use own_kernel.Prelude.{ℕ, Option, none, some}
use own_kernel.Prelude.Int.{pos}
use own_kernel.Interrupts.{Machine, Command, Idt, isr80h_register_command}
use own_kernel.Isr80h.{
  System, Surroundings, Outcome, back, resumes, stuck, kernel_of, with_kernel,
  isr80h_command1_print, isr80h_command2_getkey, isr80h_command3_putchar, isr80h_command4_malloc,
  isr80h_command5_free,
}
use own_kernel.Isr80h.Programs.{
  isr80h_command6_process_load_start, isr80h_command7_invoke_system_command,
  isr80h_command8_get_program_arguments, isr80h_command0_exit,
}

-- The tasks are kept once, in the machine that the tables of Interrupts act on: a body sees them in
-- its kernel.
abbrev pub with_tasks : Machine System → System
with_tasks s = with_kernel s.world (record (kernel_of s.world) { tasks = s.tasks })

abbrev pub came_back : Outcome → Option (ℕ × Machine System)
came_back (back result s) = some (result, record { tasks = (kernel_of s).tasks; world = s })
came_back (resumes registers s) = none
came_back stuck = none

-- None of the bodies reads the frame.
abbrev pub command : (System → Outcome) → Command System
command body frame s = came_back (body (with_tasks s))

-- The next registration, where the ones before did not panic.
abbrev pub also : (number : ℕ) → (System → Outcome) → Option (Idt System) → Option (Idt System)
also number body none = none
also number body (some idt) = isr80h_register_command (pos number) (command body) idt

unfoldable pub isr80h_register_commands : Surroundings → Idt System → Option (Idt System)
isr80h_register_commands env idt = also 8 (isr80h_command8_get_program_arguments env) (
    also 7 (isr80h_command7_invoke_system_command env) (
      also 6 (isr80h_command6_process_load_start env) (
        also 5 (isr80h_command5_free env) (
          also 4 (isr80h_command4_malloc env) (
            also 3 (isr80h_command3_putchar env) (
              also 2 isr80h_command2_getkey
                (also 1 (isr80h_command1_print env) (also 0 isr80h_command0_exit (some idt)))))))))
