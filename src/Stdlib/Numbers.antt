-- ===== src/Stdlib/Numbers.antt =====
-- programs/stdlib/src/stdlib.c, `itoa`: a number as decimal text.
pub mod Buffer
use own_kernel.Prelude.{
  ℕ, zero, suc, ◌+◌, ◌-◌, ◌*◌, ◌/◌, ◌%◌, ◌^◌, ◌≤◌, ◌<◌, ◌≡◌, ◌≢◌, length, refl, ◌∙◌, sym, ap, inl,
  inr, Bool, Bool-cases, true, false, Option, none, some, List, [], ◌∷◌, arith, ◌==◌, ◌&&◌, leb,
  if◌then◌else◌, update,
}
use own_kernel.Prelude.Int.{ℤ, pos, negsuc, is_err}
use own_kernel.Memory.{Mem}
use own_kernel.Strings.Text.{CString, CString-frame}

-- `while (i)`, for a number of magnitude `i`: the source divides the negative number, and C rounds
-- to 0. `text` is the address of the buffer. `none` means that fuel ran out.
unfoldable pub itoa_loop : (fuel i loc : ℕ) → (text : ℕ) → Mem → Option (ℕ × Mem)
itoa_loop zero i loc text m = if i == 0 then some (loc, m) else none
itoa_loop (suc fuel) i loc text m =
    let rest =
      itoa_loop fuel (i / 10) (loc - 1) text (update m (text + (loc - 1)) (b'0' + i % 10)) in
    if i == 0 then some (loc, m) else rest

abbrev pub magnitude : ℤ → ℕ
magnitude (pos n) = n
magnitude (negsuc n) = n + 1

-- A digit where there is none, and the sign; the result is `&text[loc]`.
unfoldable pub itoa_finish : ℤ → (text : ℕ) → (ℕ × Mem) → ℕ × Mem
itoa_finish i text (loc, m) =
    let digits : ℕ × Mem =
      if loc == 11 then (loc - 1, update m (text + (loc - 1)) b'0') else (loc, m) in
    if is_err i
    then (text + (digits.0 - 1), update digits.1 (text + (digits.0 - 1)) b'-')
    else (text + digits.0, digits.1)

-- Ten rounds are the digits of an `int`.
unfoldable pub itoa : ℤ → (text : ℕ) → Mem → Option (ℕ × Mem)
itoa i text m = elim (itoa_loop 10 (magnitude i) 11 text (update m (text + 11) 0)) [
  | none ↦ none
  | some result ↦ some (itoa_finish i text result)
]

-- What a text of digits is worth behind a number `acc`.
abbrev pub value : (acc : ℕ) → List ℕ → ℕ
value acc [] = acc
value acc (c ∷ cs) = value (acc * 10 + (c - b'0')) cs

abbrev pub are_digits : List ℕ → Bool
are_digits [] = true
are_digits (c ∷ cs) = (leb b'0' c && leb c b'9') && are_digits cs

-- 10 to the power of `n`
abbrev limit : ℕ → ℕ
limit zero = 1
limit (suc n) = 10 * limit n

-- The digits that the loop puts in front of the text `ds`.
itoa_loop-value :
    (fuel i loc text : ℕ) (m : Mem) (ds : List ℕ)
    → CString m (text + loc) ds
    → are_digits ds ≡ true
    → i < limit fuel
    → fuel ≤ loc
    → (loc' : ℕ) × (m' : Mem) × (ds' : List ℕ) × (itoa_loop fuel i loc text m ≡ some (loc', m'))
      × CString m' (text + loc') ds'
      × (are_digits ds' ≡ true)
      × (value 0 ds' ≡ value i ds)
      × (loc - fuel ≤ loc')
      × (loc' ≤ loc)
      × (i ≢ 0 → loc' < loc)
unfolding itoa_loop
itoa_loop-value zero i loc text m ds is digits bound room =
    let e : i ≡ 0 = omega arith in
    let none_left : (i == 0) ≡ true = ground arith in
    (
      loc,
      m,
      ds,
      rw none_left refl,
      is,
      digits,
      ap (λ k. value k ds) (sym e),
      omega arith,
      omega arith,
      λ some_i. absurd (some_i e),
    )
itoa_loop-value (suc fuel) i loc text m ds is digits bound room = elim (Bool-cases (i == 0)) [
  | inl stop ↦
      let e : i ≡ 0 = ground arith in
      (
        loc,
        m,
        ds,
        rw stop refl,
        is,
        digits,
        ap (λ k. value k ds) (sym e),
        omega arith,
        omega arith,
        λ some_i. absurd (some_i e),
      )
  | inr more ↦
      let c : ℕ = b'0' + i % 10 in
      let m1 : Mem = update m (text + (loc - 1)) c in
      let next : text + (loc - 1) + 1 ≡ text + loc = omega arith in
      let behind : CString m1 (text + (loc - 1) + 1) ds =
        rw next (CString-frame m m1 (text + loc) ds is (λ j lo hi. ground arith)) in
      let is1 : CString m1 (text + (loc - 1)) (c ∷ ds) =
        (ground arith, (λ e. absurd (omega (arith, e))), behind) in
      let digits1 : are_digits (c ∷ ds) ≡ true = ground (arith, digits) in
      let (loc', m', ds', e, is', digits', worth, lo, hi, down) =
        itoa_loop-value fuel (i / 10) (loc - 1) text m1 (c ∷ ds) is1 digits1 (omega arith)
          (omega arith) in
      let back : i / 10 * 10 + (c - b'0') ≡ i = omega arith in
      (
        loc',
        m',
        ds',
        rw more e,
        is',
        digits',
        worth ∙ ap (λ k. value k ds) back,
        omega arith,
        omega arith,
        λ some_i. omega arith,
      )
]

value-nonempty : (ds : List ℕ) → value 0 ds ≢ 0 → 0 < length ds
value-nonempty [] worth = absurd (worth refl)
value-nonempty (c ∷ ds) worth = omega arith

abbrev pub signed : ℤ → List ℕ → List ℕ
signed (pos n) ds = ds
signed (negsuc n) ds = b'-' ∷ ds

CString-at :
    {r : ℕ × Mem} {p : ℕ} {m : Mem} (s : List ℕ) → r ≡ (p, m) → CString m p s → CString r.1 r.0 s
CString-at s e is = rw e is

-- The digits of the number at `loc`, with a zero for none.
finish_sign :
    (i : ℤ) (text loc : ℕ) (m : Mem) (ds : List ℕ)
    → (loc == 11) ≡ false
    → 0 < loc
    → CString m (text + loc) ds
    → CString (itoa_finish i text (loc, m)).1 (itoa_finish i text (loc, m)).0 (signed i ds)
unfolding itoa_finish
finish_sign (pos n) text loc m ds some_digits room is = rw some_digits is
finish_sign (negsuc n) text loc m ds some_digits room is =
    let next : text + (loc - 1) + 1 ≡ text + loc = omega arith in
    let m1 : Mem = update m (text + (loc - 1)) b'-' in
    let e : itoa_finish (negsuc n) text (loc, m) ≡ (text + (loc - 1), m1) = rw some_digits refl in
    CString-at (b'-' ∷ ds) e (
      ground arith,
      (λ e. absurd (omega (arith, e))),
      rw next (CString-frame m m1 (text + loc) ds is (λ j lo hi. ground arith)),
    )

abbrev IsDecimal : ℤ → (text : ℕ) → Mem → Type 0
IsDecimal i text m =
    (ptr : ℕ) × (m' : Mem) × (ds : List ℕ) × (itoa i text m ≡ some (ptr, m'))
    × CString m' ptr (signed i ds)
    × (are_digits ds ≡ true)
    × (0 < length ds)
    × (value 0 ds ≡ magnitude i)

itoa-nonzero :
    (i : ℤ) (text : ℕ) (m : Mem) → magnitude i ≤ 2 ^ 31 → magnitude i ≢ 0 → IsDecimal i text m
unfolding itoa
itoa-nonzero i text m bound some_i =
    let m0 : Mem = update m (text + 11) 0 in
    let (loc', m', ds, e, is, digits, worth, lo, hi, down) =
      itoa_loop-value 10 (magnitude i) 11 text m0 [] (ground arith) refl (omega arith)
        (omega arith) in
    (
      (itoa_finish i text (loc', m')).0,
      (itoa_finish i text (loc', m')).1,
      ds,
      rw (e, itoa) refl,
      finish_sign i text loc' m' ds (ground (arith, down some_i)) (omega arith) is,
      digits,
      value-nonempty ds (λ z. some_i (sym worth ∙ z)),
      worth,
    )

itoa-zero : (text : ℕ) (m : Mem) → IsDecimal (pos 0) text m
unfolding itoa itoa_loop itoa_finish
itoa-zero text m =
    let m1 : Mem = update (update m (text + 11) 0) (text + 10) b'0' in
    (
      text + 10,
      m1,
      b'0' ∷ [],
      refl,
      (ground arith, (λ e. absurd (omega (arith, e))), ground arith),
      refl,
      omega arith,
      refl,
    )

-- `itoa` of an `int` gives a text of at least one digit, with a minus sign where it is negative, and
-- the digits are worth its magnitude.
pub itoa-value :
    (i : ℤ) (text : ℕ) (m : Mem)
    → magnitude i ≤ 2 ^ 31
    → (ptr : ℕ) × (m' : Mem) × (ds : List ℕ) × (itoa i text m ≡ some (ptr, m'))
      × CString m' ptr (signed i ds)
      × (are_digits ds ≡ true)
      × (0 < length ds)
      × (value 0 ds ≡ magnitude i)
itoa-value (pos zero) text m bound = itoa-zero text m
itoa-value (pos (suc n)) text m bound =
    itoa-nonzero (pos (suc n)) text m bound (λ z. absurd (omega (arith, z)))
itoa-value (negsuc n) text m bound =
    itoa-nonzero (negsuc n) text m bound (λ z. absurd (omega (arith, z)))
