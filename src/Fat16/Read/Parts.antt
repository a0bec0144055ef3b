-- ===== src/Fat16/Read/Parts.antt =====
-- Memory that is written part by part.
use own_kernel.Prelude.{
  ap, ◌⊎◌, ℕ, zero, suc, ◌+◌, ◌-◌, ◌*◌, ◌≤◌, ◌<◌, ◌≡◌, sym, ◌∙◌, inl, inr, Bool-cases, arith, ltb,
  leb, ◌&&◌, if◌then◌else◌,
}
use own_kernel.Memory.{Mem}

mul_split : (b k n : ℕ) → n ≤ k → k * b ≡ n * b + (k - n) * b
mul_split b k n over =
    let e : n + (k - n) ≡ k = omega arith in ap (λ i. i * b) (sym e) ∙ grind arith

pub below_of_mul : (b k n : ℕ) → k * b < n * b → k < n
below_of_mul b k n bound = elim (Bool-cases (leb n k)) [
  | inl over ↦
      let split : k * b ≡ n * b + (k - n) * b = mul_split b k n (ground arith) in
      absurd (omega arith)
  | inr inside ↦ ground arith
]

-- Memory after a part of `n` bytes at `out`, and after the rest behind it.
module _ (part : ℕ → ℕ) (n total out : ℕ) (m m1 m2 : Mem)
    (get : (j : ℕ) → m1 j ≡ (if leb out j && ltb j (out + n) then part (j - out) else m j))
    (rest : (j : ℕ) → (j < out + n) ⊎ (out + n + (total - n) ≤ j) → m2 j ≡ m1 j) where
  pub get-first_part : (r : ℕ) → r < n → m2 (out + r) ≡ part r
  get-first_part r inside =
      let at : out + r - out ≡ r = omega arith in
      rest (out + r) (inl (omega arith)) ∙ ground (arith, get (out + r), ap part at)

  pub frame-cons : (j : ℕ) → n < total → (j < out) ⊎ (out + total ≤ j) → m2 j ≡ m j
  frame-cons j more (inl below) = rest j (inl (omega arith)) ∙ ground (arith, get j)
  frame-cons j more (inr above) = rest j (inr (omega arith)) ∙ ground (arith, get j)

-- The same for bytes that are counted in parts of `n`: byte `r` of part `q` is `b q r`.
pub bytes-cons :
    (b : ℕ → ℕ → ℕ) (n total out : ℕ) (m2 : Mem)
    → ((r : ℕ) → r < n → m2 (out + r) ≡ b 0 r)
    → ((q r : ℕ) → r < n → q * n + r < total - n → m2 (out + n + (q * n + r)) ≡ b (suc q) r)
    → (q r : ℕ) → r < n
    → q * n + r < total
    → m2 (out + (q * n + r)) ≡ b q r
bytes-cons b n total out m2 first rest zero r inside bound = ap m2 (omega arith) ∙ first r inside
bytes-cons b n total out m2 first rest (suc q) r inside bound =
    let e : suc q * n ≡ n + q * n = grind arith in
    ap m2 (omega arith) ∙ rest q r inside (omega arith)

pub bytes-one :
    (b : ℕ → ℕ → ℕ) (n total out : ℕ) (m1 : Mem)
    → total ≤ n
    → ((r : ℕ) → r < total → m1 (out + r) ≡ b 0 r)
    → (q r : ℕ) → r < n
    → q * n + r < total
    → m1 (out + (q * n + r)) ≡ b q r
bytes-one b n total out m1 short first zero r inside bound =
    ap m1 (omega arith) ∙ first r (omega arith)
bytes-one b n total out m1 short first (suc q) r inside bound =
    let e : suc q * n ≡ n + q * n = grind arith in omega arith

pub frame-one :
    (j total out v : ℕ) (m m1 : Mem)
    → (j < out) ⊎ (out + total ≤ j)
    → m1 j ≡ (if leb out j && ltb j (out + total) then v else m j)
    → m1 j ≡ m j
frame-one j total out v m m1 (inl below) get = ground arith
frame-one j total out v m m1 (inr above) get = ground arith
