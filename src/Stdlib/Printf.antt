-- ===== src/Stdlib/Printf.antt =====
-- programs/stdlib/src/stdio.c: `putchar` and `printf`. What is printed is the list of the system
-- calls in order: `print` gets a pointer, and sees memory as it is at the call. `none` means that
-- fuel ran out, or that an argument that is read is not there or is of the other type.
pub mod Pieces
use own_kernel.Prelude.{ℕ, zero, suc, ◌+◌, Option, none, some, List, [], ◌∷◌, ◌==◌, if◌then◌else◌}
use own_kernel.Prelude.Int.{ℤ}
use own_kernel.Memory.{Mem}
use own_kernel.Stdlib.Numbers.{itoa}

-- `va_arg(ap, int)` and `va_arg(ap, char *)`
pub data Argument : Type 0 where
  int : ℤ → Argument
  pointer : ℕ → Argument

pub data Call : Type 0 where
  os_putchar : ℕ → Call
  print : (massage : ℕ) → Mem → Call

-- A call before the rest of them.
abbrev pub before : Call → Option (List Call × Mem) → Option (List Call × Mem)
before call none = none
before call (some (calls, m)) = some (call ∷ calls, m)

-- `(char) c`
abbrev pub putchar : ℕ → Call
putchar c = os_putchar c

-- `print(itoa(ival))`, with what follows it.
abbrev pub print_int :
    (text : ℕ)
    → (List Argument → Mem → Option (List Call × Mem))
    → List Argument
    → Mem
    → Option (List Call × Mem)
print_int text rest [] m = none
print_int text rest (pointer sval ∷ arguments) m = none
print_int text rest (int ival ∷ arguments) m = elim (itoa ival text m) [
  | none ↦ none
  | some (ptr, m') ↦ before (print ptr m') (rest arguments m')
]

-- `print(sval)`, with what follows it.
abbrev pub print_string :
    (List Argument → Mem → Option (List Call × Mem))
    → List Argument
    → Mem
    → Option (List Call × Mem)
print_string rest [] m = none
print_string rest (int ival ∷ arguments) m = none
print_string rest (pointer sval ∷ arguments) m = before (print sval m) (rest arguments m)

-- The loop at `p`; `text` is the buffer of `itoa`. Behind a `%` the next character is taken, whatever
-- it is.
unfoldable pub printf_loop : (fuel text p : ℕ) → List Argument → Mem → Option (List Call × Mem)
printf_loop zero text p arguments m = none
printf_loop (suc fuel) text p arguments m =
    let plain = before (putchar (m p)) (printf_loop fuel text (p + 1) arguments m) in
    let number = print_int text (printf_loop fuel text (p + 2)) arguments m in
    let string = print_string (printf_loop fuel text (p + 2)) arguments m in
    let other = before (putchar (m (p + 1))) (printf_loop fuel text (p + 2) arguments m) in
    if m p == 0
    then some ([], m)
    else if m p == b'%'
    then (if m (p + 1) == b'i' then number else if m (p + 1) == b's' then string else other)
    else plain

unfoldable pub printf : (fuel text fmt : ℕ) → List Argument → Mem → Option (List Call × Mem)
printf fuel text fmt arguments m = printf_loop fuel text fmt arguments m
