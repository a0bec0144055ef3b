-- ===== src/Stdlib/Printf/Pieces.antt =====
-- What `printf` prints for a format that is made of pieces.
use own_kernel.Stdlib.Numbers.Buffer.{Outside, itoa-frame}
use mathlib.Core.Path.{ap}
use own_kernel.Prelude.{
  Option, ℕ, zero, suc, ◌+◌, ◌^◌, ◌≤◌, ◌<◌, ◌≡◌, ◌≢◌, ◌⊎◌, refl, ◌∙◌, true, false, some, List, [],
  ◌∷◌, length, arith, ◌==◌, if◌then◌else◌,
}
use own_kernel.Prelude.Int.{ℤ}
use own_kernel.Memory.{Mem}
use own_kernel.Strings.Text.{CString, CString-frame}
use own_kernel.Stdlib.Numbers.{signed, are_digits, value, magnitude, itoa-value}
use own_kernel.Stdlib.Printf.{
  print_string, print_int, Argument, int, pointer, Call, os_putchar, print, before, printf_loop,
  printf,
}

-- A piece of a format, with the argument that it takes: a character, one behind a `%`, `%i` and `%s`.
pub data Piece : Type 0 where
  plain : ℕ → Piece
  escaped : ℕ → Piece
  number : ℤ → Piece
  string : (sval : ℕ) → List ℕ → Piece

abbrev pub format_of : List Piece → List ℕ
format_of [] = []
format_of (plain c ∷ pieces) = c ∷ format_of pieces
format_of (escaped c ∷ pieces) = b'%' ∷ c ∷ format_of pieces
format_of (number i ∷ pieces) = b'%' ∷ b'i' ∷ format_of pieces
format_of (string sval s ∷ pieces) = b'%' ∷ b's' ∷ format_of pieces

abbrev pub arguments_of : List Piece → List Argument
arguments_of [] = []
arguments_of (plain c ∷ pieces) = arguments_of pieces
arguments_of (escaped c ∷ pieces) = arguments_of pieces
arguments_of (number i ∷ pieces) = int i ∷ arguments_of pieces
arguments_of (string sval s ∷ pieces) = pointer sval ∷ arguments_of pieces

-- The pieces are what they are meant to be; a text is in memory, apart from the buffer of `itoa`.
abbrev pub AreFit : (text : ℕ) → Mem → List Piece → Type 0
AreFit text m [] = Unit
AreFit text m (plain c ∷ pieces) = (c ≢ b'%') × AreFit text m pieces
AreFit text m (escaped c ∷ pieces) = (c ≢ b'i') × (c ≢ b's') × AreFit text m pieces
AreFit text m (number i ∷ pieces) = (magnitude i ≤ 2 ^ 31) × AreFit text m pieces
AreFit text m (string sval s ∷ pieces) =
    CString m sval s × ((sval + length s < text) ⊎ (text + 12 ≤ sval)) × AreFit text m pieces

-- The text of a number: digits behind a sign, which are worth its magnitude.
pub record IsNumber (m : Mem) (ptr : ℕ) (i : ℤ) : Type 0 where
  pub digits : List ℕ
  pub text : CString m ptr (signed i digits)
  pub decimal : are_digits digits ≡ true
  pub some_digits : 0 < length digits
  pub worth : value 0 digits ≡ magnitude i

-- The calls print the pieces, one each and in order.
abbrev pub Prints : List Piece → List Call → Type 0
Prints [] [] = Unit
Prints (plain c ∷ pieces) (os_putchar d ∷ calls) = (d ≡ c) × Prints pieces calls
Prints (escaped c ∷ pieces) (os_putchar d ∷ calls) = (d ≡ c) × Prints pieces calls
Prints (number i ∷ pieces) (print ptr m ∷ calls) = IsNumber m ptr i × Prints pieces calls
Prints (string sval s ∷ pieces) (print ptr m ∷ calls) =
    (ptr ≡ sval) × CString m ptr s × Prints pieces calls
Prints _ _ = ⊥

AreFit-frame :
    (text : ℕ) (m m' : Mem) (pieces : List Piece)
    → ((j : ℕ) → Outside text j → m' j ≡ m j)
    → AreFit text m pieces
    → AreFit text m' pieces
AreFit-frame text m m' [] same fit = tt
AreFit-frame text m m' (plain c ∷ pieces) same fit =
    (fit.0, AreFit-frame text m m' pieces same fit.1)
AreFit-frame text m m' (escaped c ∷ pieces) same fit =
    (fit.0, fit.1, AreFit-frame text m m' pieces same fit.2)
AreFit-frame text m m' (number i ∷ pieces) same fit =
    (fit.0, AreFit-frame text m m' pieces same fit.1)
AreFit-frame text m m' (string sval s ∷ pieces) same fit = (
  CString-frame m m' sval s fit.0 λ j lo hi. same j (omega (arith, fit.1)),
  fit.1,
  AreFit-frame text m m' pieces same fit.2,
)

-- The loop has printed the pieces.
abbrev Printed : List Piece → Option (List Call × Mem) → Type 0
Printed pieces r = (calls : List Call) × (m' : Mem) × (r ≡ some (calls, m')) × Prints pieces calls

module _ (fuel text p : ℕ) (arguments : List Argument) (m : Mem) where
  loop-plain :
      (c : ℕ)
      → m p ≡ c
      → c ≢ 0
      → c ≢ b'%'
      → printf_loop (suc fuel) text p arguments m
        ≡ before (os_putchar c) (printf_loop fuel text (p + 1) arguments m)
  unfolding printf_loop
  loop-plain c at more usual =
      let some_char : (m p == 0) ≡ false = ground arith in
      let not_percent : (m p == b'%') ≡ false = ground arith in
      rw (some_char, not_percent)
        (ap (λ d. before (os_putchar d) (printf_loop fuel text (p + 1) arguments m)) at)

  -- What stands behind a `%`.
  loop-percent :
      (c : ℕ)
      → m p ≡ b'%'
      → m (p + 1) ≡ c
      → printf_loop (suc fuel) text p arguments m ≡ (
          if c == b'i'
          then print_int text (printf_loop fuel text (p + 2)) arguments m
          else if c == b's'
          then print_string (printf_loop fuel text (p + 2)) arguments m
          else before (os_putchar c) (printf_loop fuel text (p + 2) arguments m))
  unfolding printf_loop
  loop-percent c at next =
      let some_char : (m p == 0) ≡ false = ground arith in
      let percent : (m p == b'%') ≡ true = ground arith in
      rw (some_char, percent)
        (ap
          (λ d.
            if d == b'i'
            then print_int text (printf_loop fuel text (p + 2)) arguments m
            else if d == b's'
            then print_string (printf_loop fuel text (p + 2)) arguments m
            else before (os_putchar d) (printf_loop fuel text (p + 2) arguments m))
          next)

number-Prints :
    (fuel text p : ℕ) (m : Mem) (i : ℤ) (pieces : List Piece)
    → magnitude i ≤ 2 ^ 31
    → ((m' : Mem)
        → ((j : ℕ) → Outside text j → m' j ≡ m j)
        → Printed pieces (printf_loop fuel text p (arguments_of pieces) m'))
    → Printed
        (number i ∷ pieces)
        (print_int text (printf_loop fuel text p) (arguments_of (number i ∷ pieces)) m)
number-Prints fuel text p m i pieces bound rest =
    let (ptr, m1, ds, e, is, decimal, some_digits, worth) = itoa-value i text m bound in
    let (calls, m', e', prints) = rest m1 (itoa-frame i text ptr m m1 e) in
    (
      print ptr m1 ∷ calls,
      m',
      rw (e, print_int) (ap (before (print ptr m1)) e'),
      (
        record {
          digits = ds;
          text = is;
          decimal = decimal;
          some_digits = some_digits;
          worth = worth;
        },
        prints,
      ),
    )

loop-Prints :
    (fuel text p : ℕ) (m : Mem) (pieces : List Piece)
    → CString m p (format_of pieces)
    → ((p + length (format_of pieces) < text) ⊎ (text + 12 ≤ p))
    → AreFit text m pieces
    → length (format_of pieces) < fuel
    → Printed pieces (printf_loop fuel text p (arguments_of pieces) m)
unfolding printf_loop
loop-Prints zero text p m pieces is apart fit enough = absurd (omega arith)
loop-Prints (suc fuel) text p m [] is apart fit enough = ([], m, rw is refl, tt)
loop-Prints (suc fuel) text p m (plain c ∷ pieces) is apart fit enough =
    let (calls, m', e, prints) =
      loop-Prints fuel text (p + 1) m pieces is.2 (omega arith) fit.1 (omega arith) in
    (
      os_putchar c ∷ calls,
      m',
      loop-plain fuel text p (arguments_of pieces) m c is.0 is.1 fit.0
          ∙ ap (before (os_putchar c)) e,
      (refl, prints),
    )
loop-Prints (suc fuel) text p m (escaped c ∷ pieces) is apart fit enough =
    let two : p + 1 + 1 ≡ p + 2 = omega arith in
    let (calls, m', e, prints) =
      loop-Prints fuel text (p + 2) m pieces (rw two at (is.2.2)) (omega arith) fit.2
        (omega arith) in
    let not_i : (c == b'i') ≡ false = ground (arith, fit.0) in
    let not_s : (c == b's') ≡ false = ground (arith, fit.1) in
    (
      os_putchar c ∷ calls,
      m',
      loop-percent fuel text p (arguments_of pieces) m c is.0 is.2.0
          ∙ rw (not_i, not_s) (ap (before (os_putchar c)) e),
      (refl, prints),
    )
loop-Prints (suc fuel) text p m (number i ∷ pieces) is apart fit enough =
    let two : p + 1 + 1 ≡ p + 2 = omega arith in
    let format : CString m (p + 2) (format_of pieces) = rw two at (is.2.2) in
    let (calls, m', e, prints) = number-Prints fuel text (p + 2) m i pieces fit.0 λ m1 same.
      loop-Prints fuel text (p + 2) m1 pieces
        (CString-frame m m1 (p + 2) (format_of pieces) format
          λ j lo hi. same j (omega (arith, apart)))
        (omega arith) (AreFit-frame text m m1 pieces same fit.1) (omega arith) in
    (
      calls,
      m',
      loop-percent fuel text p (arguments_of (number i ∷ pieces)) m b'i' is.0 is.2.0 ∙ e,
      prints,
    )
loop-Prints (suc fuel) text p m (string sval s ∷ pieces) is apart fit enough =
    let two : p + 1 + 1 ≡ p + 2 = omega arith in
    let (calls, m', e, prints) =
      loop-Prints fuel text (p + 2) m pieces (rw two at (is.2.2)) (omega arith) fit.2
        (omega arith) in
    (
      print sval m ∷ calls,
      m',
      loop-percent fuel text p (arguments_of (string sval s ∷ pieces)) m b's' is.0 is.2.0
          ∙ ap (before (print sval m)) e,
      (refl, fit.0, prints),
    )

-- With fuel above its length, a format in memory that is made of fitting pieces, apart from the
-- buffer of `itoa`, is printed with their arguments: each character and each text as it is, each
-- number as its digits behind its sign, in order and nothing else.
pub printf-Prints :
    (fuel text fmt : ℕ) (m : Mem) (pieces : List Piece)
    → CString m fmt (format_of pieces)
    → ((fmt + length (format_of pieces) < text) ⊎ (text + 12 ≤ fmt))
    → AreFit text m pieces
    → length (format_of pieces) < fuel
    → (calls : List Call) × (m' : Mem) × (printf fuel text fmt (arguments_of pieces) m
        ≡ some (calls, m'))
      × Prints pieces calls
unfolding printf
printf-Prints fuel text fmt m pieces is apart fit enough =
    loop-Prints fuel text fmt m pieces is apart fit enough
