-- ===== src/Prelude/Int.antt =====
-- A C `int` that holds a result: a value, or a negated status code of status.h.
use Prim.Native.Nat.{ℕ, zero, suc}
use mathlib.Core.Bool.{Bool, true, false}

-- `negsuc n` is -(n + 1).
pub data ℤ : Type 0 where
  pos : ℕ → ℤ
  negsuc : ℕ → ℤ

-- `res < 0`, and the macro ISERR
abbrev pub is_err : ℤ → Bool
is_err (pos n) = false
is_err (negsuc n) = true

-- `res == ALL_OK`
abbrev pub is_ok : ℤ → Bool
is_ok (pos n) = elim n [ zero ↦ true | suc k ↦ false ]
is_ok (negsuc n) = false

abbrev pub all_ok : ℤ
all_ok = pos 0

-- the negated codes, as the functions return them
abbrev pub io_error : ℤ
io_error = negsuc 0

abbrev pub invalid_argument_error : ℤ
invalid_argument_error = negsuc 1

abbrev pub no_memory_error : ℤ
no_memory_error = negsuc 2

abbrev pub bad_path_error : ℤ
bad_path_error = negsuc 3

abbrev pub invalid_format_error : ℤ
invalid_format_error = negsuc 8
