-- ===== src/Stdlib/Line/Bounds.antt =====
-- The line that is typed stays in its buffer.
use mathlib.Core.Path.{subst}
use own_kernel.Prelude.{
  ℕ, ◌+◌, ◌≤◌, ◌<◌, ◌≡◌, refl, ◌⊎◌, inl, inr, Bool, Bool-cases, Option-cases, some, List, [], ◌∷◌,
  arith, ◌==◌, ltb,
}
use own_kernel.Memory.{Mem}
use own_kernel.Stdlib.Line.{
  carriage_return, Line, erases, typed, readline_loop, os_terminal_readline,
}

-- The index is in the buffer, and memory has changed there only.
pub record IsInside (out max : ℕ) (m : Mem) (s : Line) : Type 0 where
  pub index : s.index < max
  pub frame : (j : ℕ) → (j < out) ⊎ (out + max ≤ j) → s.memory j ≡ m j

typed-IsInside :
    {out max : ℕ} {m : Mem} {s : Line} (output_while_typing : Bool) (key : ℕ)
    → IsInside out max m s
    → s.index + 1 < max
    → IsInside out max m (typed output_while_typing out key s)
unfolding typed
typed-IsInside {out} {max} {m} {s} output_while_typing key is room = elim (Bool-cases (key == 0)) [
  | inl none_pressed ↦ rw none_pressed is
  | inr pressed ↦ elim (Bool-cases (erases key s)) [
    | inl back ↦
        rw (pressed, back)
          (record { index = ground arith; frame = λ j far. ground (arith, is.frame j far) })
    | inr stored ↦
        rw (pressed, stored)
          (record { index = room; frame = λ j far. ground (arith, is.frame j far) })
  ]
]

same-IsInside :
    {out max : ℕ} {m : Mem} {s s' : Line}
    → IsInside out max m s
    → some s ≡ some s'
    → IsInside out max m s'
same-IsInside {out} {max} {m} is e = subst (IsInside out max m) (cc) is

loop-IsInside :
    {out max : ℕ} {m : Mem} (keys : List ℕ) (output_while_typing : Bool) (s s' : Line)
    → IsInside out max m s
    → readline_loop keys output_while_typing out max s ≡ some s'
    → IsInside out max m s'
unfolding readline_loop
loop-IsInside {out} {max} {m} [] output_while_typing s s' is e =
    elim (Bool-cases (ltb (s.index + 1) max)) [
      | inl waits ↦ absurd (let bad = rw waits at e in cc)
      | inr full ↦ same-IsInside is (rw full at e)
    ]
loop-IsInside {out} {max} {m} (key ∷ keys) output_while_typing s s' is e =
    elim (Bool-cases (ltb (s.index + 1) max)) [
      | inr full ↦ same-IsInside is (rw full at e)
      | inl room ↦ elim (Bool-cases (key == carriage_return)) [
        | inl end ↦ same-IsInside is (rw (room, end) at e)
        | inr more ↦
            loop-IsInside keys output_while_typing (typed output_while_typing out key s) s'
              (typed-IsInside output_while_typing key is (ground arith)) (rw (room, more) at e)
      ]
    ]

-- With a buffer of at least one byte, a line that has been read, whatever keys were pressed, ends in
-- the buffer, and no byte of memory outside the buffer has changed.
pub os_terminal_readline-IsInside :
    {s : Line} (keys : List ℕ) (out max : ℕ) (output_while_typing : Bool) (m : Mem)
    → 0 < max
    → os_terminal_readline keys out max output_while_typing m ≡ some s
    → IsInside out max m s
unfolding os_terminal_readline
os_terminal_readline-IsInside {s} keys out max output_while_typing m room e =
    let start : Line = record { index = 0; memory = m; printed = [] } in
    elim (Option-cases (readline_loop keys output_while_typing out max start)) [
      | inl waits ↦ absurd (let bad = rw (waits, os_terminal_readline) at e in cc)
      | inr (s1, read) ↦
          let is =
            loop-IsInside keys output_while_typing start s1
              (record { index = room; frame = λ j far. refl }) read in
          same-IsInside
            (record { index = is.index; frame = λ j far. ground (arith, is.index, is.frame j far) })
            (rw (read, os_terminal_readline) at e)
    ]
