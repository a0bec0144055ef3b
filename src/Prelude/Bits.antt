-- ===== src/Prelude/Bits.antt =====
-- The laws of `&` and `|` that the page tables and the descriptor tables need: a mask of low or of
-- high bits, and the union of fields that do not meet.
use Prim.Native.Nat.{
  ℕ, zero, suc, ◌+◌, ◌-◌, ◌*◌, ◌/◌, ◌%◌, ◌^◌, ◌≤◌, ◌<◌, min, max, bit_and, bit_or, digits, bitwise,
  bit_and-bitwise, bit_or-bitwise,
}
use mathlib.Core.Path.{◌≡◌, refl, sym, ap, ◌∙◌}
use mathlib.Core.Bool.{Bool, true, ◌&&◌}
use own_kernel.Prelude.Tests.{◌==◌}
use native.Mathlib.Omega.{arith}
use native.Mathlib.Decide.{dec_lt}
use native.Mathlib.Nat.{
  pow-suc, one-le-pow, div-div-eq-div-mul, mod-eq-sub-div-mul, div-mul-le_self,
}

module _ (rest : ℕ → ℕ) (op : ℕ → ℕ → ℕ) where
  -- One more unit of fuel changes nothing once there is enough.
  digits-suc : (n a b : ℕ) → a ≤ n → digits rest op (suc n) a b ≡ digits rest op n a b
  digits-suc zero zero b h = refl
  digits-suc zero (suc a) b h = absurd (omega arith)
  digits-suc (suc n) zero b h = refl
  digits-suc (suc n) (suc a) b h =
      ap (λ (t : ℕ). t * 2 + op (suc a % 2) (b % 2))
        (digits-suc n (suc a / 2) (b / 2) (omega arith))

  digits_enough : (n a b : ℕ) → a ≤ n → digits rest op n a b ≡ digits rest op a a b
  digits_enough zero zero b h = refl
  digits_enough zero (suc a) b h = absurd (omega arith)
  digits_enough (suc n) a b h = elim (dec_lt n a) [
    | yes top ↦ let e : suc n ≡ a = omega arith in ap (λ k. digits rest op k a b) e
    | no below ↦ digits-suc n a b (omega arith) ∙ digits_enough n a b (omega arith)
  ]

  -- The lowest digit and the rest of a positive number.
  bitwise_low :
      (a b : ℕ)
      → bitwise rest op (suc a) b ≡ bitwise rest op (suc a / 2) (b / 2) * 2 + op (suc a % 2) (b % 2)
  bitwise_low a b =
      ap (λ (t : ℕ). t * 2 + op (suc a % 2) (b % 2))
        (digits_enough a (suc a / 2) (b / 2) (omega arith))

or_low : (a b : ℕ) → bit_or a b ≡ bit_or (a / 2) (b / 2) * 2 + max (a % 2) (b % 2)
or_low zero b = simp bit_or-bitwise (omega arith)
or_low (suc a) b = simp bit_or-bitwise (bitwise_low (λ t. t) max a b)

and_low : (a b : ℕ) → bit_and a b ≡ bit_and (a / 2) (b / 2) * 2 + min (a % 2) (b % 2)
and_low zero b = simp bit_and-bitwise (omega arith)
and_low (suc a) b = simp bit_and-bitwise (bitwise_low (λ t. 0) min a b)

or-zero_upto : (n a : ℕ) → a ≤ n → bit_or a 0 ≡ a
or-zero_upto n zero h = refl
or-zero_upto zero (suc a) h = absurd (omega arith)
or-zero_upto (suc n) (suc a) h =
    omega (arith, or_low (suc a) 0, or-zero_upto n (suc a / 2) (omega arith))

and-zero_upto : (n a : ℕ) → a ≤ n → bit_and a 0 ≡ 0
and-zero_upto n zero h = refl
and-zero_upto zero (suc a) h = absurd (omega arith)
and-zero_upto (suc n) (suc a) h =
    omega (arith, and_low (suc a) 0, and-zero_upto n (suc a / 2) (omega arith))

double-pow : (w k : ℕ) → k * 2 ^ suc w ≡ 2 * (k * 2 ^ w)
double-pow w k = omega (arith, ap (λ (t : ℕ). k * t) (pow-suc 2 w))

-- A value below the weight of the other's lowest bit is added.
pub bit_or-low_field : (w k r : ℕ) → r < 2 ^ w → bit_or (k * 2 ^ w) r ≡ k * 2 ^ w + r
bit_or-low_field zero k zero h = omega (arith, or-zero_upto (k * 1) (k * 1) (omega arith))
bit_or-low_field zero k (suc r) h = absurd (omega arith)
bit_or-low_field (suc w) k r h = omega (
  arith,
  or_low (k * 2 ^ suc w) r,
  double-pow w k,
  pow-suc 2 w,
  (let e : k * 2 ^ suc w / 2 ≡ k * 2 ^ w = omega (arith, double-pow w k) in
      ap (λ (t : ℕ). bit_or t (r / 2)) e
      ∙ bit_or-low_field w k (r / 2) (omega (arith, pow-suc 2 w))),
)

-- Low fields are joined below the rest of a value.
pub bit_or-fields :
    (w k r b : ℕ)
    → r < 2 ^ w
    → b < 2 ^ w
    → (bit_or (k * 2 ^ w + r) b ≡ k * 2 ^ w + bit_or r b) × (bit_or r b < 2 ^ w)
bit_or-fields zero k zero zero h h' =
    (omega (arith, or-zero_upto (k * 1 + 0) (k * 1 + 0) (omega arith)), omega arith)
bit_or-fields zero k zero (suc b) h h' = absurd (omega arith)
bit_or-fields zero k (suc r) b h h' = absurd (omega arith)
bit_or-fields (suc w) k r b h h' =
    let p = pow-suc 2 w in
    let (rest, small) = bit_or-fields w k (r / 2) (b / 2) (omega arith) (omega arith) in
    let half : (k * 2 ^ suc w + r) / 2 ≡ k * 2 ^ w + r / 2 = omega (arith, double-pow w k) in
    let low : (k * 2 ^ suc w + r) % 2 ≡ r % 2 = omega (arith, double-pow w k) in
    let high : bit_or ((k * 2 ^ suc w + r) / 2) (b / 2) ≡ k * 2 ^ w + bit_or (r / 2) (b / 2) =
      rw half rest in
    let digit : max ((k * 2 ^ suc w + r) % 2) (b % 2) ≡ max (r % 2) (b % 2) =
      ap (λ (t : ℕ). max t (b % 2)) low in
    (
      omega (arith, or_low (k * 2 ^ suc w + r) b, or_low r b, high, digit, double-pow w k),
      omega (arith, or_low r b, small, p),
    )

-- A bit that is set stays.
pub bit_or-odd : (a b : ℕ) → a % 2 ≡ 1 → bit_or a b % 2 ≡ 1
bit_or-odd a b odd = omega (arith, or_low a b, odd)

div-pow-suc : (w a : ℕ) → a / 2 ^ suc w ≡ a / 2 / 2 ^ w
div-pow-suc w a =
    ap (λ (t : ℕ). a / t) {y = 2 * 2 ^ w} (omega (arith, pow-suc 2 w))
    ∙ sym (div-div-eq-div-mul a 2 (2 ^ w))

mod-pow-suc : (w a : ℕ) → a % 2 ^ suc w ≡ a % 2 + 2 * (a / 2 % 2 ^ w)
mod-pow-suc w a = omega (
  arith,
  mod-eq-sub-div-mul a (2 ^ suc w),
  div-mul-le_self a (2 ^ suc w),
  mod-eq-sub-div-mul (a / 2) (2 ^ w),
  div-mul-le_self (a / 2) (2 ^ w),
  ap (λ (t : ℕ). t * 2 ^ suc w) (div-pow-suc w a),
  double-pow w (a / 2 / 2 ^ w),
)

-- The mask of the `w` low bits is the remainder by `2 ^ w`.
pub bit_and-low_mask : (w a : ℕ) → bit_and a (2 ^ w - 1) ≡ a % 2 ^ w
bit_and-low_mask zero a = omega (arith, and-zero_upto a a (omega arith))
bit_and-low_mask (suc w) a =
    let half : (2 ^ suc w - 1) / 2 ≡ 2 ^ w - 1 = omega (arith, pow-suc 2 w, one-le-pow w 2) in
    omega (
      arith,
      and_low a (2 ^ suc w - 1),
      pow-suc 2 w,
      one-le-pow w 2,
      mod-pow-suc w a,
      ap (λ (t : ℕ). bit_and (a / 2) t) half ∙ bit_and-low_mask w (a / 2),
    )

-- A mask whose `w` low bits are clear keeps none of the `w` low bits of the value.
pub bit_and-high_mask : (w a m : ℕ) → bit_and a (m * 2 ^ w) ≡ bit_and (a / 2 ^ w) m * 2 ^ w
bit_and-high_mask zero a m =
    let whole : a / 1 ≡ a = omega arith in
    let one : m * 1 ≡ m = omega arith in rw (one, whole) (omega arith)
bit_and-high_mask (suc w) a m =
    let half : m * 2 ^ suc w / 2 ≡ m * 2 ^ w = omega (arith, double-pow w m) in
    omega (
      arith,
      and_low a (m * 2 ^ suc w),
      double-pow w m,
      double-pow w (bit_and (a / 2 / 2 ^ w) m),
      ap (λ (t : ℕ). bit_and t m * 2 ^ suc w) (div-pow-suc w a),
      ap (λ (t : ℕ). bit_and (a / 2) t) half ∙ bit_and-high_mask w (a / 2) m,
    )

-- The frame address of a page table entry: `entry & 0xFFFFF000` on 32 bits.
pub frame_mask : (e : ℕ) → e < 2 ^ 32 → bit_and e 0xFFFFF000 ≡ e / 4096 * 4096
frame_mask e h = omega (arith, bit_and-high_mask 12 e 0xFFFFF, bit_and-low_mask 20 (e / 4096))

-- A test of every number below a small bound, by evaluation.
pub all_below : ℕ → (ℕ → Bool) → Bool
all_below zero test = true
all_below (suc n) test = test n && all_below n test

pub all_below-true :
    (n : ℕ) (test : ℕ → Bool) (x : ℕ) → all_below n test ≡ true → x < n → test x ≡ true
unfolding all_below
all_below-true zero test x all bound = absurd (omega arith)
all_below-true (suc n) test x all bound = ground (arith, all_below-true n test x)

drive_table : all_below 16 (λ h. bit_or h 0xE0 == 0xE0 + h) ≡ true
unfolding all_below
drive_table = refl

-- The LBA mode bits of the drive port do not meet the four bits of the sector number.
pub bit_or-drive : (h : ℕ) → h < 16 → bit_or h 0xE0 ≡ 0xE0 + h
bit_or-drive h small =
    let e = all_below-true 16 (λ h. bit_or h 0xE0 == 0xE0 + h) h drive_table small in ground arith
