-- ===== src/Stdlib/Line/Editing.antt =====
-- The line in memory, against a list of characters that is edited.
use own_kernel.Prelude.{
  ℕ, suc, ◌+◌, ◌-◌, ◌≤◌, ◌<◌, ◌≡◌, ◌≢◌, refl, ◌∙◌, inl, inr, Bool, Bool-cases, true, false, some,
  List, [], ◌∷◌, ◌++◌, length, All, arith, ◌==◌, ltb, if◌then◌else◌, update,
}
use own_kernel.Memory.{Mem}
use own_kernel.Strings.Text.{CString}
use own_kernel.Stdlib.Line.{
  backspace, carriage_return, Line, erases, typed, readline_loop, os_terminal_readline,
}

-- A line as a list, its last character first. A backspace takes one away; on the empty line it is a
-- character like any other.
abbrev pub edit : (key : ℕ) → List ℕ → List ℕ
edit key [] = if key == 0 then [] else key ∷ []
edit key (c ∷ line) =
    if key == 0 then c ∷ line else if key == backspace then line else key ∷ c ∷ line

abbrev pub edited : (keys line : List ℕ) → List ℕ
edited [] line = line
edited (key ∷ keys) line = edited keys (edit key line)

-- the text of a line, and then `t`
abbrev pub text_of : (line t : List ℕ) → List ℕ
text_of [] t = t
text_of (c ∷ line) t = text_of line (c ∷ t)

-- The characters of the line from `out` on.
abbrev LineAt : Mem → ℕ → List ℕ → Type 0
LineAt m out [] = true ≡ true
LineAt m out (c ∷ line) = (m (out + length line) ≡ c) × (c ≢ 0) × LineAt m out line

LineAt-frame :
    (m m' : Mem) (out : ℕ) (line : List ℕ)
    → ((j : ℕ) → j < out + length line → m' j ≡ m j)
    → LineAt m out line
    → LineAt m' out line
LineAt-frame m m' out [] same at = refl
LineAt-frame m m' out (c ∷ line) same (at, nonzero, rest) = (
  same (out + length line) (omega arith) ∙ at,
  nonzero,
  LineAt-frame m m' out line (λ j below. same j (omega arith)) rest,
)

text_of-CString :
    (m : Mem) (out : ℕ) (line t : List ℕ)
    → LineAt m out line
    → CString m (out + length line) t
    → CString m out (text_of line t)
text_of-CString m out [] t at is = let e : out + 0 ≡ out = omega arith in rw e at is
text_of-CString m out (c ∷ line) t (at, nonzero, rest) is =
    let e : out + suc (length line) ≡ out + length line + 1 = omega arith in
    text_of-CString m out line (c ∷ t) rest (at, nonzero, rw e at is)

-- The loop's state stands for the line.
abbrev Stands : (out : ℕ) → List ℕ → Line → Type 0
Stands out line s = (s.index ≡ length line) × LineAt s.memory out line

store-Stands :
    (out key : ℕ) (line printed : List ℕ) (m : Mem)
    → key ≢ 0
    → LineAt m out line
    → Stands out (key ∷ line) (record {
      index = length line + 1;
      memory = update m (out + length line) key;
      printed = printed;
    })
store-Stands out key line printed m nonzero at = (
  omega arith,
  (
    ground arith,
    nonzero,
    LineAt-frame m (update m (out + length line) key) out line (λ j below. ground arith) at,
  ),
)

Stands-at :
    (out : ℕ) {s s' : Line} (line : List ℕ) → s ≡ s' → Stands out line s' → Stands out line s
Stands-at out line e stands = rw e stands

typed-zero : (echo : Bool) (out key : ℕ) (s : Line) → (key == 0) ≡ true → typed echo out key s ≡ s
unfolding typed
typed-zero echo out key s no_key = rw no_key refl

-- A key that is stored, and one that takes the last character away.
stored-Stands :
    (echo : Bool) (out key : ℕ) (line : List ℕ) (s : Line)
    → (key == 0) ≡ false
    → erases key s ≡ false
    → Stands out line s
    → Stands out (key ∷ line) (typed echo out key s)
unfolding typed
stored-Stands echo out key line s some_key stores (index, at) =
    let printed : List ℕ = if echo then key ∷ s.printed else s.printed in
    let stored : Line = record {
      index = length line + 1;
      memory = update s.memory (out + length line) key;
      printed = printed;
    } in
    let e : typed echo out key s ≡ stored = rw (some_key, stores, index) refl in
    Stands-at out (key ∷ line) e
      (store-Stands out key line printed s.memory (λ z. absurd (ground arith)) at)

erased-Stands :
    (echo : Bool) (out key c : ℕ) (line : List ℕ) (s : Line)
    → (key == 0) ≡ false
    → erases key s ≡ true
    → Stands out (c ∷ line) s
    → Stands out line (typed echo out key s)
unfolding typed
erased-Stands echo out key c line s some_key takes (index, (here, nonzero, at)) =
    rw (some_key, takes)
      (
        omega (arith, index),
        LineAt-frame s.memory (update s.memory (out + (s.index - 1)) 0x00) out line
            (λ j below. ground (arith, index)) at,
      )

typed-Stands :
    (echo : Bool) (out key : ℕ) (line : List ℕ) (s : Line)
    → Stands out line s
    → Stands out (edit key line) (typed echo out key s)
typed-Stands echo out key [] s stands = elim (Bool-cases (key == 0)) [
  | inl no_key ↦ rw no_key (Stands-at out [] (typed-zero echo out key s no_key) stands)
  | inr some_key ↦
      rw some_key (stored-Stands echo out key [] s some_key (ground (arith, stands.0)) stands)
]
typed-Stands echo out key (c ∷ line) s stands = elim (Bool-cases (key == 0)) [
  | inl no_key ↦ rw no_key (Stands-at out (c ∷ line) (typed-zero echo out key s no_key) stands)
  | inr some_key ↦ elim (Bool-cases (key == backspace)) [
    | inl back ↦
        rw (some_key, back)
          (erased-Stands echo out key c line s some_key (ground (arith, stands.0)) stands)
    | inr plain ↦
        rw (some_key, plain)
          (stored-Stands echo out key (c ∷ line) s some_key (ground (arith, stands.0)) stands)
  ]
]

length-edit : (key : ℕ) (line : List ℕ) → length (edit key line) ≤ length line + 1
length-edit key [] = elim (Bool-cases (key == 0)) [
  | inl no_key ↦ rw no_key (omega arith)
  | inr some_key ↦ rw some_key (omega arith)
]
length-edit key (c ∷ line) = elim (Bool-cases (key == 0)) [
  | inl no_key ↦ rw no_key (omega arith)
  | inr some_key ↦ elim (Bool-cases (key == backspace)) [
    | inl back ↦ rw (some_key, back) (omega arith)
    | inr plain ↦ rw (some_key, plain) (omega arith)
  ]
]

-- The loop, on keys that end with the carriage return and leave room for each of them.
readline_loop-Stands :
    (keys : List ℕ) (echo : Bool) (out max : ℕ) (line : List ℕ) (s : Line)
    → All (λ key. (key == carriage_return) ≡ false) keys
    → length line + length keys + 1 < max
    → Stands out line s
    → (s' : Line) × (readline_loop (keys ++ carriage_return ∷ []) echo out max s ≡ some s')
      × Stands out (edited keys line) s'
unfolding readline_loop
readline_loop-Stands [] echo out max line s others room stands =
    let open_line : ltb (s.index + 1) max ≡ true = ground (arith, stands.0) in
    (s, rw open_line refl, stands)
readline_loop-Stands (key ∷ keys) echo out max line s (other, others) room stands =
    let open_line : ltb (s.index + 1) max ≡ true = ground (arith, stands.0) in
    let (s', e, stands') =
      readline_loop-Stands keys echo out max (edit key line) (typed echo out key s) others
        (omega (arith, length-edit key line)) (typed-Stands echo out key line s stands) in
    (s', rw (open_line, other) e, stands')

-- A line that is ended by the carriage return, with no more keys than there is room for, is in memory
-- the text that the same keys edit.
pub os_terminal_readline-edited :
    (keys : List ℕ) (out max : ℕ) (output_while_typing : Bool) (m : Mem)
    → All (λ key. (key == carriage_return) ≡ false) keys
    → length keys + 1 < max
    → (s : Line) × (os_terminal_readline
          (keys ++ carriage_return ∷ [])
          out
          max
          output_while_typing
          m
        ≡ some s)
      × CString s.memory out (text_of (edited keys []) [])
unfolding os_terminal_readline
os_terminal_readline-edited keys out max output_while_typing m others room =
    let first : Line = record { index = 0; memory = m; printed = [] } in
    let (s, e, (index, at)) =
      readline_loop-Stands keys output_while_typing out max [] first others (omega arith)
        (refl, refl) in
    let line : List ℕ = edited keys [] in
    let ended : Mem = update s.memory (out + s.index) 0x00 in
    (
      record s { memory = ended },
      rw (e, os_terminal_readline) refl,
      text_of-CString ended out line []
          (LineAt-frame s.memory ended out line (λ j below. ground (arith, index)) at)
          (ground (arith, index)),
    )
