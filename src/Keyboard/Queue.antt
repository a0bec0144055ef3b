-- ===== src/Keyboard/Queue.antt =====
-- The key buffer is a queue of at most 1024 characters.
use own_kernel.Prelude.{
  ◌∙◌, ap, ℕ, suc, ◌+◌, ◌-◌, ◌%◌, ◌^◌, ◌≤◌, ◌<◌, ◌≡◌, ◌≢◌, List, [], ◌∷◌, ◌++◌, arith, length,
  length-append, update, false, ◌==◌,
}
use own_kernel.Keyboard.{
  keyboard_buffer_size, KeyboardBuffer, keyboard_get_tail_index, keyboard_backspace, keyboard_push,
  keyboard_pop,
}

-- The characters of the list stand from counter `h` on.
abbrev pub Cells : (ℕ → ℕ) → ℕ → List ℕ → Type 0
Cells buffer h [] = Unit
Cells buffer h (c ∷ cs) =
    (buffer (h % keyboard_buffer_size) ≡ c) × (c ≢ 0) × Cells buffer (h + 1) cs

pub record IsQueue (k : KeyboardBuffer) (q : List ℕ) : Type 0 where
  pub small : k.head < 2 ^ 32
  pub tail_at : k.tail ≡ (k.head + length q) % 2 ^ 32
  pub room : length q ≤ keyboard_buffer_size
  pub cells : Cells k.buffer k.head q
  pub free :
      (i : ℕ)
      → length q ≤ i
      → i < keyboard_buffer_size
      → k.buffer ((k.head + i) % keyboard_buffer_size) ≡ 0

Cells-frame :
    (b b' : ℕ → ℕ) (h : ℕ) (q : List ℕ)
    → Cells b h q
    → ((i : ℕ)
        → i < length q
        → b' ((h + i) % keyboard_buffer_size) ≡ b ((h + i) % keyboard_buffer_size))
    → Cells b' h q
Cells-frame b b' h [] cells same = tt
Cells-frame b b' h (c ∷ q) cells same =
    let e : (h + 0) % keyboard_buffer_size ≡ h % keyboard_buffer_size = omega arith in
    (
      (rw e at (same 0 (omega arith))) ∙ cells.0,
      cells.1,
      Cells-frame b b' (h + 1) q cells.2 λ i bound.
          let e' : (h + (i + 1)) % keyboard_buffer_size ≡ (h + 1 + i) % keyboard_buffer_size =
            omega arith in
          rw e' at (same (i + 1) (omega arith)),
    )

Cells-append :
    (b : ℕ → ℕ) (h c : ℕ) (q : List ℕ)
    → Cells b h q
    → b ((h + length q) % keyboard_buffer_size) ≡ c
    → c ≢ 0
    → Cells b h (q ++ c ∷ [])
Cells-append b h c [] cells last nonzero =
    let e : (h + 0) % keyboard_buffer_size ≡ h % keyboard_buffer_size = omega arith in
    (rw e at last, nonzero, tt)
Cells-append b h c (d ∷ q) cells last nonzero =
    let e : (h + suc (length q)) % keyboard_buffer_size
        ≡ (h + 1 + length q) % keyboard_buffer_size =
      omega arith in
    (cells.0, cells.1, Cells-append b (h + 1) c q cells.2 (rw e at last) nonzero)

-- A shift of the start by a multiple of the size changes nothing.
Cells-shift :
    (b : ℕ → ℕ) (h h' : ℕ) (q : List ℕ)
    → h % keyboard_buffer_size ≡ h' % keyboard_buffer_size
    → Cells b h q
    → Cells b h' q
Cells-shift b h h' [] e cells = tt
Cells-shift b h h' (c ∷ q) e cells =
    (rw e at cells.0, cells.1, Cells-shift b (h + 1) (h' + 1) q (omega arith) cells.2)

-- A character other than 0 that is pushed while there is room is queued behind the others.
pub keyboard_push-IsQueue :
    {k : KeyboardBuffer} {q : List ℕ} (c : ℕ)
    → IsQueue k q
    → c ≢ 0
    → length q < keyboard_buffer_size
    → IsQueue (keyboard_push c k) (q ++ c ∷ [])
unfolding keyboard_push keyboard_get_tail_index
keyboard_push-IsQueue {k} {q} c is nonzero room =
    let b : ℕ → ℕ = update k.buffer (k.tail % keyboard_buffer_size) c in
    let n = length-append q (c ∷ []) in
    let at : (k.head + length q) % keyboard_buffer_size ≡ k.tail % keyboard_buffer_size =
      omega (arith, is.tail_at) in
    let kept : Cells b k.head q =
      Cells-frame k.buffer b k.head q is.cells λ i bound. ground arith in
    let new : (c == 0) ≡ false = ground arith in
    rw new (record {
      small = is.small;
      tail_at = omega (arith, is.tail_at);
      room = omega arith;
      cells = Cells-append b k.head c q kept (ground arith) nonzero;
      free = λ i lo hi. ground (arith, is.free i);
    })

-- A pop of a queue that is not empty returns its oldest character and leaves the rest.
pub keyboard_pop-cons :
    {k : KeyboardBuffer} {c : ℕ} {q : List ℕ}
    → IsQueue k (c ∷ q)
    → ((keyboard_pop k).0 ≡ c) × IsQueue (keyboard_pop k).1 q
unfolding keyboard_pop
keyboard_pop-cons {k} {c} {q} is =
    let h : ℕ = (k.head + 1) % 2 ^ 32 in
    let b : ℕ → ℕ = update k.buffer (k.head % keyboard_buffer_size) 0 in
    let kept : Cells b (k.head + 1) q =
      Cells-frame k.buffer b (k.head + 1) q is.cells.2 λ i bound. ground (arith, is.room) in
    let some_key : (k.buffer (k.head % keyboard_buffer_size) == 0) ≡ false =
      ground (arith, is.cells) in
    rw some_key (
      is.cells.0,
      record {
        small = omega arith;
        tail_at = omega (arith, is.tail_at);
        room = omega (arith, is.room);
        cells = Cells-shift b (k.head + 1) h q (omega arith) kept;
        free = λ i lo hi.
            let e : (h + i) % keyboard_buffer_size ≡ (k.head + (i + 1)) % keyboard_buffer_size =
              omega arith in
            rw e (ground (arith, is.free (i + 1)));
      },
    )

-- A pop of the empty queue returns 0 and changes nothing.
pub keyboard_pop-nil : {k : KeyboardBuffer} → IsQueue k [] → keyboard_pop k ≡ (0, k)
unfolding keyboard_pop
keyboard_pop-nil {k} is =
    let e : (k.head + 0) % keyboard_buffer_size ≡ k.head % keyboard_buffer_size = omega arith in
    ground (arith, is.free 0, ap k.buffer e)

Cells-prefix : (b : ℕ → ℕ) (h : ℕ) (q r : List ℕ) → Cells b h (q ++ r) → Cells b h q
Cells-prefix b h [] r cells = tt
Cells-prefix b h (c ∷ q) r cells = (cells.0, cells.1, Cells-prefix b (h + 1) q r cells.2)

-- A backspace drops the newest character of a queue that holds one.
pub keyboard_backspace-IsQueue :
    {k : KeyboardBuffer} (q : List ℕ) (c : ℕ)
    → IsQueue k (q ++ c ∷ [])
    → IsQueue (keyboard_backspace k) q
unfolding keyboard_backspace keyboard_get_tail_index
keyboard_backspace-IsQueue {k} q c is =
    let n = length-append q (c ∷ []) in
    let t : ℕ = (k.tail + 2 ^ 32 - 1) % 2 ^ 32 in
    let b : ℕ → ℕ = update k.buffer (t % keyboard_buffer_size) 0 in
    let at : t ≡ (k.head + length q) % 2 ^ 32 = omega (arith, is.tail_at, is.room) in
    record {
      small = is.small;
      tail_at = at;
      room = omega (arith, is.room);
      cells =
          Cells-frame k.buffer b k.head q (Cells-prefix k.buffer k.head q (c ∷ []) is.cells)
            λ i bound. ground (arith, is.room);
      free = λ i lo hi. ground (arith, is.free i);
    }

-- The buffer does not know that it is full: one key more takes the place of the oldest, and the
-- next pop returns it.
pub keyboard_push_full :
    {k : KeyboardBuffer} {q : List ℕ} (c : ℕ)
    → IsQueue k q
    → length q ≡ keyboard_buffer_size
    → c ≢ 0
    → (keyboard_pop (keyboard_push c k)).0 ≡ c
unfolding keyboard_push keyboard_get_tail_index keyboard_pop
keyboard_push_full {k} {q} c is full nonzero =
    let at : k.tail % keyboard_buffer_size ≡ k.head % keyboard_buffer_size =
      omega (arith, is.tail_at) in
    ground arith

-- After a backspace on the empty queue, the next character that is pushed is not what the next pop
-- returns: that returns 0.
pub keyboard_backspace_empty :
    {k : KeyboardBuffer} (c : ℕ)
    → IsQueue k []
    → (keyboard_pop (keyboard_push c (keyboard_backspace k))).0 ≡ 0
unfolding keyboard_backspace keyboard_push keyboard_get_tail_index keyboard_pop
keyboard_backspace_empty {k} c is =
    let e : (k.head + 0) % keyboard_buffer_size ≡ k.head % keyboard_buffer_size = omega arith in
    let t : ℕ = (k.tail + 2 ^ 32 - 1) % 2 ^ 32 in
    let apart : t % keyboard_buffer_size ≢ k.head % keyboard_buffer_size =
      omega (arith, is.tail_at, is.small) in
    ground (arith, is.free 0, ap k.buffer e)
