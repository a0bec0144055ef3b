-- ===== src/Memory.antt =====
-- src/memory/memory.c: byte regions. `programs/stdlib/src/memory.c` has the same three functions.
-- Memory is a function from addresses to bytes; a size is not negative where these are called.
pub mod Regions
pub mod Longs
use own_kernel.Prelude.{
  ℕ, zero, suc, ◌+◌, ◌*◌, ◌/◌, ◌%◌, ◌^◌, Bool, ◌==◌, ltb, if◌then◌else◌, update,
}
use own_kernel.Prelude.Int.{ℤ, pos, negsuc}

abbrev pub Mem : Type 0
Mem = ℕ → ℕ

-- The loop with `n` rounds left. `(char) c` keeps the low byte.
unfoldable pub memset_loop : (n index ptr c : ℕ) → Mem → Mem
memset_loop zero index ptr c m = m
memset_loop (suc n) index ptr c m =
    memset_loop n (index + 1) ptr c (update m (ptr + index) (c % 256))

unfoldable pub memset : (ptr c size : ℕ) → Mem → Mem
memset ptr c size m = memset_loop size 0 ptr c m

-- `c1[-1] < c2[-1]` compares `char`, which is signed here: a byte from 128 on is negative.
unfoldable pub char_lt : ℕ → ℕ → Bool
char_lt a b = ltb ((a + 128) % 256) ((b + 128) % 256)

unfoldable pub memcmp : (s1 s2 size : ℕ) → Mem → ℤ
memcmp s1 s2 zero m = pos 0
memcmp s1 s2 (suc size) m =
    let rest = memcmp (s1 + 1) (s2 + 1) size m in
    if m s1 == m s2 then rest else if char_lt (m s1) (m s2) then negsuc 0 else pos 1

unfoldable pub memcpy : (dest src len : ℕ) → Mem → Mem
memcpy dest src zero m = m
memcpy dest src (suc len) m = memcpy (dest + 1) (src + 1) len (update m dest (m src))

-- four bytes, the low one first
unfoldable pub put_long : (address value : ℕ) → Mem → Mem
put_long address value m =
    update
      (update (update (update m address (value % 2 ^ 8)) (address + 1) (value / 2 ^ 8 % 2 ^ 8))
        (address + 2) (value / 2 ^ 16 % 2 ^ 8))
      (address + 3) (value / 2 ^ 24 % 2 ^ 8)

-- two and four bytes, the low one first
abbrev pub word_at : Mem → ℕ → ℕ
word_at m a = m a + 2 ^ 8 * m (a + 1)

abbrev pub long_at : Mem → ℕ → ℕ
long_at m a = word_at m a + 2 ^ 16 * word_at m (a + 2)
