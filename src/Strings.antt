-- ===== src/Strings.antt =====
-- src/string/string.c: C strings in memory. `programs/stdlib/src/string.c` has the same functions.
-- The loops that end only at the terminating zero run on fuel; the others run on their bound.
pub mod Text
use own_kernel.Prelude.{
  ℕ, zero, suc, ◌+◌, ◌-◌, Bool, ◌&&◌, ◌||◌, not, Option, none, some, ◌==◌, ltb, leb, if◌then◌else◌,
  update,
}
use own_kernel.Prelude.Int.{ℤ, pos, negsuc}
use own_kernel.Memory.{Mem}

-- `while (str[len++]);` at the count `len`
unfoldable pub strlen_loop : (fuel : ℕ) → Mem → (str len : ℕ) → Option ℕ
strlen_loop zero m str len = none
strlen_loop (suc fuel) m str len =
    let rest = strlen_loop fuel m str (len + 1) in
    if m (str + len) == 0 then some (len + 1) else rest

unfoldable pub strlen : (fuel : ℕ) → Mem → (str : ℕ) → Option ℕ
strlen fuel m str = strlen_loop fuel m str 0

-- `while (str[len++] && max--);`
unfoldable pub strnlen_loop : (max : ℕ) → Mem → (str len : ℕ) → ℕ
strnlen_loop zero m str len = len + 1
strnlen_loop (suc max) m str len =
    let rest = strnlen_loop max m str (len + 1) in if m (str + len) == 0 then len + 1 else rest

unfoldable pub strnlen : Mem → (str max : ℕ) → ℕ
strnlen m str max = strnlen_loop max m str 0

unfoldable pub is_digit : ℕ → Bool
is_digit c = leb 48 c && leb c 57

-- It is called on digits.
unfoldable pub to_numeric_digit : ℕ → ℕ
to_numeric_digit c = c - 48

unfoldable pub strcpy : (fuel dest src : ℕ) → Mem → Option Mem
strcpy zero dest src m = none
strcpy (suc fuel) dest src m =
    let rest = strcpy fuel (dest + 1) (src + 1) (update m dest (m src)) in
    if m src == 0 then some (update m dest 0) else rest

-- The loop with `n` rounds left, and the zero that is written behind it.
unfoldable pub strncpy_loop : (n i dest src : ℕ) → Mem → Mem
strncpy_loop zero i dest src m = update m (dest + i) 0
strncpy_loop (suc n) i dest src m =
    let rest = strncpy_loop n (i + 1) dest src (update m (dest + i) (m (src + i))) in
    if m (src + i) == 0 then update m (dest + i) 0 else rest

unfoldable pub strncpy : (dest src count : ℕ) → Mem → Mem
strncpy dest src count m = strncpy_loop (count - 1) 0 dest src m

unfoldable pub strnlen_terminator_loop : (n i : ℕ) → Mem → (str terminator : ℕ) → ℕ
strnlen_terminator_loop zero i m str terminator = i
strnlen_terminator_loop (suc n) i m str terminator =
    let rest = strnlen_terminator_loop n (i + 1) m str terminator in
    if m (str + i) == 0 || m (str + i) == terminator then i else rest

unfoldable pub strnlen_terminator : Mem → (str max terminator : ℕ) → ℕ
strnlen_terminator m str max terminator = strnlen_terminator_loop max 0 m str terminator

-- A byte from 128 on is a negative `char`, below 64.
unfoldable pub tolower : ℕ → ℕ
tolower s1 = if leb 64 s1 && leb s1 90 then s1 + 32 else s1

-- `u1 - u2`, of two `unsigned char`
abbrev pub difference : ℕ → ℕ → ℤ
difference u1 u2 = if leb u2 u1 then pos (u1 - u2) else negsuc (u2 - u1 - 1)

unfoldable pub istrncmp : Mem → (str1 str2 n : ℕ) → ℤ
istrncmp m str1 str2 zero = pos 0
istrncmp m str1 str2 (suc n) =
    let rest = istrncmp m (str1 + 1) (str2 + 1) n in
    if not (m str1 == m str2) && not (tolower (m str1) == tolower (m str2))
    then difference (m str1) (m str2)
    else if m str1 == 0
    then pos 0
    else rest

unfoldable pub strncmp : Mem → (str1 str2 n : ℕ) → ℤ
strncmp m str1 str2 zero = pos 0
strncmp m str1 str2 (suc n) =
    let rest = strncmp m (str1 + 1) (str2 + 1) n in
    if not (m str1 == m str2)
    then difference (m str1) (m str2)
    else if m str1 == 0
    then pos 0
    else rest
