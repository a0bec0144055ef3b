-- ===== src/Tests/OfStdlib.antt =====
-- A number, a typed line and a command line.
use own_kernel.Prelude.{
  ◌-◌, update, get_or, inl, ℕ, ◌+◌, ◌<◌, ◌≡◌, ◌≢◌, refl, true, some, List, [], ◌∷◌, ◌++◌, length,
  arith, ◌==◌, if◌then◌else◌,
}
use own_kernel.Prelude.Int.{negsuc}
use own_kernel.Memory.{Mem}
use own_kernel.Strings.Text.{CString}
use own_kernel.Stdlib.Numbers.{itoa, signed, are_digits, value, magnitude, itoa-value}
use own_kernel.Stdlib.Line.{readline_loop, typed, Line, carriage_return, os_terminal_readline}
use own_kernel.Stdlib.Line.Editing.{edited, text_of, os_terminal_readline-edited}
use own_kernel.Stdlib.Line.Bounds.{IsInside, os_terminal_readline-IsInside}
use own_kernel.Stdlib.Printf.{Call, printf}
use own_kernel.Stdlib.Printf.Pieces.{
  Piece, plain, number, string, arguments_of, Prints, printf-Prints,
}
use own_kernel.Stdlib.Tokens.{Tokens, strtok}
use own_kernel.Stdlib.Tokens.Words.{behind, strtok-word}

itoa-value_example :
    (ptr : ℕ) × (m' : Mem) × (ds : List ℕ) × (itoa (negsuc 304) 0x1000 (λ _. 7) ≡ some (ptr, m'))
    × CString m' ptr (signed (negsuc 304) ds)
    × (are_digits ds ≡ true)
    × (0 < length ds)
    × (value 0 ds ≡ magnitude (negsuc 304))
itoa-value_example = itoa-value (negsuc 304) 0x1000 (λ _. 7) (omega arith)

-- `l`, `x`, a backspace and `s`, with a wait before the last
abbrev keys : List ℕ
keys = b'l' ∷ b'x' ∷ 8 ∷ 0 ∷ b's' ∷ []

os_terminal_readline-edited_example :
    (s : Line) × (os_terminal_readline (keys ++ carriage_return ∷ []) 0x1000 80 true (λ _. 7)
      ≡ some s)
    × CString s.memory 0x1000 (text_of (edited keys []) [])
os_terminal_readline-edited_example =
    os_terminal_readline-edited keys 0x1000 80 true (λ _. 7)
      (refl, (refl, (refl, (refl, (refl, tt))))) (omega arith)

-- The text `  ab c` at 0x1000, and the delimiter at 0x2000.
abbrev memory : Mem
memory i =
    if i == 0x1000
    then 32
    else if i == 0x1001
    then 32
    else if i == 0x1002
    then b'a'
    else if i == 0x1003
    then b'b'
    else if i == 0x1004
    then 32
    else if i == 0x1005
    then b'c'
    else if i == 0x2000
    then 32
    else 0

abbrev tokens : Tokens
tokens = record { backup_string = 0; memory = memory }

strtok-word_example :
    (s' : Tokens) × (strtok 20 0x1000 0x2000 tokens ≡ some (0x1000 + 2, s'))
    × CString s'.memory (0x1000 + 2) (b'a' ∷ b'b' ∷ [])
    × CString s'.memory s'.backup_string (behind (32 ∷ b'c' ∷ []))
    × ((j : ℕ) → j ≢ 0x1000 + 2 + 2 → s'.memory j ≡ memory j)
strtok-word_example =
    strtok-word 20 0x1000 0x2000 (32 ∷ []) (32 ∷ 32 ∷ []) b'a' (b'b' ∷ []) (32 ∷ b'c' ∷ []) tokens
      (omega arith) (refl, omega arith, refl)
      (
        refl,
        omega arith,
        (
          refl,
          omega arith,
          (refl, omega arith, (refl, omega arith, (refl, omega arith, (refl, omega arith, refl)))),
        ),
      )
      (refl, (refl, tt)) (refl, (refl, tt)) refl (omega arith) (omega arith)

abbrev ls : List ℕ
ls = b'l' ∷ b's' ∷ carriage_return ∷ []

abbrev ls_line : Line
ls_line = record {
  index = 2;
  memory = update (update (update (λ _. 7) 0x1000 b'l') 0x1001 b's') 0x1002 0;
  printed = b's' ∷ b'l' ∷ [];
}

os_terminal_readline-IsInside_example : IsInside 0x1000 80 (λ _. 7) ls_line
unfolding os_terminal_readline readline_loop typed
os_terminal_readline-IsInside_example =
    os_terminal_readline-IsInside ls 0x1000 80 true (λ _. 7) (omega arith) refl

-- The format `n=%i %s` at 0x1000, and a text at 0x2000; the buffer of `itoa` is at 0x3000.
abbrev pieces : List Piece
pieces =
    plain b'n' ∷ plain b'=' ∷ number (negsuc 304) ∷ plain 32 ∷ string 0x2000 (b'o' ∷ b'k' ∷ []) ∷ []

abbrev format_memory : Mem
format_memory i =
    if i == 0x2000
    then b'o'
    else if i == 0x2001
    then b'k'
    else if i == 0x2002
    then 0
    else get_or (b'n' ∷ b'=' ∷ b'%' ∷ b'i' ∷ 32 ∷ b'%' ∷ b's' ∷ []) (i - 0x1000) 0

printf-Prints_example :
    (calls : List Call) × (m' : Mem) × (printf 20 0x3000 0x1000 (arguments_of pieces) format_memory
      ≡ some (calls, m'))
    × Prints pieces calls
printf-Prints_example =
    printf-Prints 20 0x3000 0x1000 format_memory pieces
      (
        refl,
        omega arith,
        (
          refl,
          omega arith,
          (
            refl,
            omega arith,
            (
              refl,
              omega arith,
              (refl, omega arith, (refl, omega arith, (refl, omega arith, refl))),
            ),
          ),
        ),
      )
      (inl (omega arith))
      (
        omega arith,
        (
          omega arith,
          (
            omega arith,
            (omega arith, ((refl, omega arith, (refl, omega arith, refl)), inl (omega arith), tt)),
          ),
        ),
      )
      (omega arith)
