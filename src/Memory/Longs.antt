-- ===== src/Memory/Longs.antt =====
-- Numbers of four bytes in memory.
use own_kernel.Prelude.{ℕ, ◌+◌, ◌*◌, ◌/◌, ◌%◌, ◌^◌, ◌≤◌, ◌<◌, ◌≡◌, refl, ◌⊎◌, inl, inr, arith}
use own_kernel.Memory.{Mem, put_long, long_at}

pub put_long-frame : (a v : ℕ) (m : Mem) (j : ℕ) → (j < a) ⊎ (a + 4 ≤ j) → put_long a v m j ≡ m j
unfolding put_long
put_long-frame a v m j (inl below) = ground arith
put_long-frame a v m j (inr above) = ground arith

long_of_bytes :
    (v : ℕ)
    → v < 2 ^ 32
    → v % 2 ^ 8
        + 2 ^ 8 * (v / 2 ^ 8 % 2 ^ 8)
        + 2 ^ 16 * (v / 2 ^ 16 % 2 ^ 8 + 2 ^ 8 * (v / 2 ^ 24 % 2 ^ 8))
      ≡ v
long_of_bytes v bound = omega arith

put_long-bytes :
    (a v : ℕ) (m : Mem)
    → (put_long a v m a ≡ v % 2 ^ 8)
      × (put_long a v m (a + 1) ≡ v / 2 ^ 8 % 2 ^ 8)
      × (put_long a v m (a + 2) ≡ v / 2 ^ 16 % 2 ^ 8)
      × (put_long a v m (a + 2 + 1) ≡ v / 2 ^ 24 % 2 ^ 8)
unfolding put_long
put_long-bytes a v m = (ground arith, ground arith, ground arith, ground arith)

-- A number is read back as it was written.
pub long_at-put_long : (a v : ℕ) (m : Mem) → v < 2 ^ 32 → long_at (put_long a v m) a ≡ v
long_at-put_long a v m bound =
    let (b0, b1, b2, b3) = put_long-bytes a v m in rw (b0, b1, b2, b3) (long_of_bytes v bound)

-- A number is the same in memory that has the same four bytes there.
pub long_at-same :
    (m m' : Mem) (a : ℕ) → ((j : ℕ) → a ≤ j → j < a + 4 → m' j ≡ m j) → long_at m' a ≡ long_at m a
long_at-same m m' a same =
    rw
      (
        same a (omega arith) (omega arith),
        same (a + 1) (omega arith) (omega arith),
        same (a + 2) (omega arith) (omega arith),
        same (a + 2 + 1) (omega arith) (omega arith),
      )
      refl

pub long_at-bound : (m : Mem) (a : ℕ) → ((j : ℕ) → m j < 2 ^ 8) → long_at m a < 2 ^ 32
long_at-bound m a bytes = omega (arith, bytes a, bytes (a + 1), bytes (a + 2), bytes (a + 2 + 1))
