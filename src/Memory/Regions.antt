-- ===== src/Memory/Regions.antt =====
-- What the three functions do to a region and to the rest of memory.
use own_kernel.Prelude.{
  ap, ℕ, zero, suc, ◌+◌, ◌-◌, ◌%◌, ◌≤◌, ◌<◌, ◌≡◌, refl, ◌⊎◌, inl, inr, ◌↔◌, ◌&&◌, Bool-cases, arith,
  leb, ltb, if◌then◌else◌, update,
}
use own_kernel.Prelude.Int.{pos}
use own_kernel.Memory.{Mem, memset_loop, memset, memcmp, memcpy}

memset_loop-get :
    (n index ptr c : ℕ) (m : Mem) (j : ℕ)
    → memset_loop n index ptr c m j
      ≡ (if leb (ptr + index) j && ltb j (ptr + index + n) then c % 256 else m j)
unfolding memset_loop
memset_loop-get zero index ptr c m j = ground arith
memset_loop-get (suc n) index ptr c m j =
    ground (arith, memset_loop-get n (index + 1) ptr c (update m (ptr + index) (c % 256)) j)

-- `memset` writes the byte to the whole region and to nothing else.
pub memset-get :
    (ptr c size : ℕ) (m : Mem) (j : ℕ)
    → memset ptr c size m j ≡ (if leb ptr j && ltb j (ptr + size) then c % 256 else m j)
unfolding memset
memset-get ptr c size m j = ground (arith, memset_loop-get size 0 ptr c m j)

-- `memcpy` copies a region to one that does not meet it, and writes nothing else.
pub memcpy-get :
    (dest src len : ℕ) (m : Mem)
    → (dest + len ≤ src) ⊎ (src + len ≤ dest)
    → (j : ℕ)
    → memcpy dest src len m j
      ≡ (if leb dest j && ltb j (dest + len) then m (src + (j - dest)) else m j)
unfolding memcpy
memcpy-get dest src zero m apart j = ground arith
memcpy-get dest src (suc len) m apart j = elim (Bool-cases (ltb dest j)) [
  | inl past ↦
      let e : src + 1 + (j - (dest + 1)) ≡ src + (j - dest) = ground arith in
      ground
        (arith, memcpy-get (dest + 1) (src + 1) len (update m dest (m src)) (omega arith) j, ap m e)
  | inr here ↦
      let e : src + (j - dest) ≡ src = ground arith in
      ground
        (arith, memcpy-get (dest + 1) (src + 1) len (update m dest (m src)) (omega arith) j, ap m e)
]

memcmp-eq :
    (s1 s2 size : ℕ) (m : Mem)
    → memcmp s1 s2 size m ≡ pos 0
    → (i : ℕ) → i < size
    → m (s1 + i) ≡ m (s2 + i)
unfolding memcmp
memcmp-eq s1 s2 zero m e i h = absurd (omega arith)
memcmp-eq s1 s2 (suc size) m e zero h =
    let first : s1 + 0 ≡ s1 = omega arith in
    let second : s2 + 0 ≡ s2 = omega arith in rw (first, second) (ground arith)
memcmp-eq s1 s2 (suc size) m e (suc i) h =
    let first : s1 + suc i ≡ s1 + 1 + i = omega arith in
    let second : s2 + suc i ≡ s2 + 1 + i = omega arith in
    rw (first, second) (memcmp-eq (s1 + 1) (s2 + 1) size m (ground arith) i (omega arith))

memcmp-zero :
    (s1 s2 size : ℕ) (m : Mem)
    → ((i : ℕ) → i < size → m (s1 + i) ≡ m (s2 + i))
    → memcmp s1 s2 size m ≡ pos 0
unfolding memcmp
memcmp-zero s1 s2 zero m h = refl
memcmp-zero s1 s2 (suc size) m h =
    let zero_first : s1 + 0 ≡ s1 = omega arith in
    let zero_second : s2 + 0 ≡ s2 = omega arith in
    let same : m s1 ≡ m s2 = rw (zero_first, zero_second) at (h 0 (omega arith)) in
    ground (
      arith,
      memcmp-zero (s1 + 1) (s2 + 1) size m λ i b.
          let first : s1 + 1 + i ≡ s1 + (i + 1) = omega arith in
          let second : s2 + 1 + i ≡ s2 + (i + 1) = omega arith in
          rw (first, second) (h (i + 1) (omega arith)),
    )

-- `memcmp` is 0 exactly on equal regions.
pub memcmp-zero_iff :
    (s1 s2 size : ℕ) (m : Mem)
    → (memcmp s1 s2 size m ≡ pos 0) ↔ ((i : ℕ) → i < size → m (s1 + i) ≡ m (s2 + i))
memcmp-zero_iff s1 s2 size m = (memcmp-eq s1 s2 size m, memcmp-zero s1 s2 size m)
