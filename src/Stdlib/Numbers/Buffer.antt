-- ===== src/Stdlib/Numbers/Buffer.antt =====
-- `itoa` writes in its buffer of twelve bytes only.
use mathlib.Core.Path.{ap}
use own_kernel.Prelude.{
  ℕ, zero, suc, ◌+◌, ◌-◌, ◌/◌, ◌%◌, ◌≤◌, ◌<◌, ◌≡◌, ◌⊎◌, inl, inr, sym, ◌∙◌, Bool-cases,
  Option-cases, some, arith, ◌==◌, update,
}
use own_kernel.Prelude.Int.{ℤ}
use own_kernel.Memory.{Mem}
use own_kernel.Stdlib.Numbers.{itoa_loop, itoa_finish, itoa, magnitude}

-- An address outside the buffer of `itoa`.
abbrev pub Outside : (text j : ℕ) → Type 0
Outside text j = (j < text) ⊎ (text + 12 ≤ j)

itoa_loop-frame :
    (fuel i loc text : ℕ) (m : Mem) (loc' : ℕ) (m' : Mem)
    → loc ≤ 11
    → itoa_loop fuel i loc text m ≡ some (loc', m')
    → (loc' ≤ 11) × ((j : ℕ) → Outside text j → m' j ≡ m j)
unfolding itoa_loop
itoa_loop-frame zero i loc text m loc' m' room e = ground (arith, e)
itoa_loop-frame (suc fuel) i loc text m loc' m' room e = elim (Bool-cases (i == 0)) [
  | inl stop ↦ let e' = rw stop at e in ground arith
  | inr more ↦
      let (le, same) =
        itoa_loop-frame fuel (i / 10) (loc - 1) text (update m (text + (loc - 1)) (b'0' + i % 10))
          loc' m' (omega arith) (rw more at e) in
      (le, λ j out. same j out ∙ ground arith)
]

finish-frame :
    (i : ℤ) (text loc : ℕ) (m : Mem)
    → loc ≤ 11
    → (j : ℕ) → Outside text j
    → (itoa_finish i text (loc, m)).1 j ≡ m j
unfolding itoa_finish
finish-frame i text loc m room j out = ground arith

-- `itoa` writes in its buffer only.
pub itoa-frame :
    (i : ℤ) (text ptr : ℕ) (m m' : Mem)
    → itoa i text m ≡ some (ptr, m')
    → (j : ℕ) → Outside text j
    → m' j ≡ m j
unfolding itoa
itoa-frame i text ptr m m' e j out =
    let m0 : Mem = update m (text + 11) 0 in
    elim (Option-cases (itoa_loop 10 (magnitude i) 11 text m0)) [
      | inl nothing ↦ absurd (let bad = rw (nothing, itoa) at e in cc)
      | inr ((loc, m1), found) ↦
          let (le, same) = itoa_loop-frame 10 (magnitude i) 11 text m0 loc m1 (omega arith) found in
          let e' : some (itoa_finish i text (loc, m1)) ≡ some (ptr, m') = rw (found, itoa) at e in
          let last : (itoa_finish i text (loc, m1)).1 ≡ m' = cc in
          ap (λ (f : Mem). f j) (sym last)
          ∙ finish-frame i text loc m1 le j out
          ∙ same j out
          ∙ ground arith
    ]
