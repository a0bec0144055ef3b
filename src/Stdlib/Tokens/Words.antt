-- ===== src/Stdlib/Tokens/Words.antt =====
-- The words that `strtok` finds.
use own_kernel.Prelude.{
  ℕ, zero, suc, ◌+◌, ◌<◌, ◌≡◌, ◌≢◌, refl, ◌∙◌, sym, ap, inl, inr, Bool, Bool-cases, true, false,
  some, List, [], ◌∷◌, ◌++◌, length, All, arith, ◌==◌, if◌then◌else◌, update,
}
use own_kernel.Memory.{Mem}
use own_kernel.Strings.Text.{CString, CString-frame}
use own_kernel.Stdlib.Tokens.{is_delim, skip_delims, end_token, Tokens, strtok_from, strtok}

abbrev pub member : ℕ → List ℕ → Bool
member c [] = false
member c (x ∷ xs) = if c == x then true else member c xs

is_delim-member :
    (fuel : ℕ) (m : Mem) (c delim : ℕ) (d : List ℕ)
    → CString m delim d
    → length d < fuel
    → is_delim fuel m c delim ≡ some (member c d)
unfolding is_delim
is_delim-member zero m c delim d is enough = absurd (omega arith)
is_delim-member (suc fuel) m c delim [] is enough = rw is refl
is_delim-member (suc fuel) m c delim (x ∷ d) (at, nonzero, is) enough =
    let more : (x == 0) ≡ false = ground (arith, nonzero) in
    elim (Bool-cases (c == x)) [
      | inl same ↦ rw (at, more, same) refl
      | inr other ↦ rw (at, more, other) (is_delim-member fuel m c (delim + 1) d is (omega arith))
    ]

CString-drop : (m : Mem) (p : ℕ) (s t : List ℕ) → CString m p (s ++ t) → CString m (p + length s) t
CString-drop m p [] t is = let e : p + 0 ≡ p = omega arith in rw e is
CString-drop m p (c ∷ s) t (at, nonzero, is) =
    let e : p + suc (length s) ≡ p + 1 + length s = omega arith in
    rw e (CString-drop m (p + 1) s t is)

-- The start of a text, ended where `m'` has a 0.
CString-take :
    (m m' : Mem) (p : ℕ) (s t : List ℕ)
    → CString m p (s ++ t)
    → ((j : ℕ) → j < p + length s → m' j ≡ m j)
    → m' (p + length s) ≡ 0
    → CString m' p s
CString-take m m' p [] t is same ended = let e : p + 0 ≡ p = omega arith in ap m' (sym e) ∙ ended
CString-take m m' p (c ∷ s) t (at, nonzero, is) same ended =
    let e : p + suc (length s) ≡ p + 1 + length s = omega arith in
    (
      same p (omega arith) ∙ at,
      nonzero,
      CString-take m m' (p + 1) s t is (λ j below. same j (omega arith)) (ap m' (sym e) ∙ ended),
    )

-- The text behind a word: nothing, or a delimiter and the rest.
abbrev pub EndsWord : (d rest : List ℕ) → Type 0
EndsWord d [] = true ≡ true
EndsWord d (x ∷ rest) = member x d ≡ true

abbrev pub behind : List ℕ → List ℕ
behind [] = []
behind (x ∷ rest) = rest

module _ (m : Mem) (delim : ℕ) (d : List ℕ) (delims : CString m delim d) where
  skip_delims-length :
      (fuel string : ℕ) (gap : List ℕ) (c : ℕ) (rest : List ℕ)
      → CString m string (gap ++ c ∷ rest)
      → All (λ x. member x d ≡ true) gap
      → member c d ≡ false
      → length gap + length d + 1 < fuel
      → skip_delims fuel m string delim ≡ some (string + length gap)
  unfolding skip_delims
  skip_delims-length zero string gap c rest is delimited plain enough = absurd (omega arith)
  skip_delims-length (suc fuel) string [] c rest (at, nonzero, is) delimited plain enough =
      let more : (c == 0) ≡ false = ground (arith, nonzero) in
      let e : string ≡ string + 0 = omega arith in
      rw
        (
          is_delim-member fuel m (m string) delim d delims (omega arith),
          skip_delims,
          at,
          plain,
          more,
        )
        (ap some e)
  skip_delims-length (suc fuel) string (x ∷ gap) c rest (at, nonzero, is) (found, delimited) plain
        enough =
      let e : string + 1 + length gap ≡ string + suc (length gap) = omega arith in
      rw (is_delim-member fuel m (m string) delim d delims (omega arith), skip_delims, at, found)
        (skip_delims-length fuel (string + 1) gap c rest is delimited plain (omega arith)
          ∙ ap some e)

  end_token-last :
      (fuel string : ℕ) (word : List ℕ)
      → CString m string (word ++ [])
      → All (λ x. member x d ≡ false) word
      → length word + length d + 1 < fuel
      → end_token fuel m string delim ≡ some (string + length word, m)
  unfolding end_token
  end_token-last zero string word is plain enough = absurd (omega arith)
  end_token-last (suc fuel) string [] is plain enough =
      let e : string ≡ string + 0 = omega arith in
      rw (is_delim-member fuel m (m string) delim d delims (omega arith), end_token, is)
        (ap (λ p. some (p, m)) e)
  end_token-last (suc fuel) string (c ∷ word) (at, nonzero, is) (other, plain) enough =
      let more : (c == 0) ≡ false = ground (arith, nonzero) in
      let e : string + 1 + length word ≡ string + suc (length word) = omega arith in
      rw
        (is_delim-member fuel m (m string) delim d delims (omega arith), end_token, at, more, other)
        (end_token-last fuel (string + 1) word is plain (omega arith) ∙ ap (λ p. some (p, m)) e)

  end_token-more :
      (fuel string : ℕ) (word : List ℕ) (x : ℕ) (rest : List ℕ)
      → CString m string (word ++ x ∷ rest)
      → All (λ x. member x d ≡ false) word
      → member x d ≡ true
      → length word + length d + 1 < fuel
      → end_token fuel m string delim
        ≡ some (string + length word + 1, update m (string + length word) 0)
  unfolding end_token
  end_token-more zero string word x rest is plain found enough = absurd (omega arith)
  end_token-more (suc fuel) string [] x rest (at, nonzero, is) plain found enough =
      let more : (x == 0) ≡ false = ground (arith, nonzero) in
      let e : string ≡ string + 0 = omega arith in
      rw
        (is_delim-member fuel m (m string) delim d delims (omega arith), end_token, at, more, found)
        (ap (λ p. some (p + 1, update m p 0)) e)
  end_token-more (suc fuel) string (c ∷ word) x rest (at, nonzero, is) (other, plain) found enough =
      let more : (c == 0) ≡ false = ground (arith, nonzero) in
      let e : string + 1 + length word ≡ string + suc (length word) = omega arith in
      rw
        (is_delim-member fuel m (m string) delim d delims (omega arith), end_token, at, more, other)
        (end_token-more fuel (string + 1) word x rest is plain found (omega arith)
          ∙ ap (λ p. some (p + 1, update m p 0)) e)

strtok-from :
    (fuel string delim start next : ℕ) (m' : Mem) (s : Tokens)
    → string ≢ 0
    → skip_delims fuel s.memory string delim ≡ some start
    → start ≢ 0
    → end_token fuel s.memory start delim ≡ some (next, m')
    → strtok fuel string delim s ≡ some (start, record { backup_string = next; memory = m' })
unfolding strtok strtok_from
strtok-from fuel string delim start next m' s nonnull skipped some_start ended =
    let given : (string == 0) ≡ false = ground (arith, nonnull) in
    let started : (start == 0) ≡ false = ground (arith, some_start) in
    rw (given, skipped, strtok_from, started, ended) (rw given refl)

-- A search in a text of delimiters, a word and what ends it gives the word, ended by a 0, and the
-- next search starts behind that; no other byte changes.
pub strtok-word :
    (fuel string delim : ℕ) (d gap : List ℕ) (c : ℕ) (word rest : List ℕ) (s : Tokens)
    → string ≢ 0
    → CString s.memory delim d
    → CString s.memory string (gap ++ ((c ∷ word) ++ rest))
    → All (λ x. member x d ≡ true) gap
    → All (λ x. member x d ≡ false) (c ∷ word)
    → EndsWord d rest
    → length gap + length d + 1 < fuel
    → length word + length d + 2 < fuel
    → (s' : Tokens) × (strtok fuel string delim s ≡ some (string + length gap, s'))
      × CString s'.memory (string + length gap) (c ∷ word)
      × CString s'.memory s'.backup_string (behind rest)
      × ((j : ℕ) → j ≢ string + length gap + length (c ∷ word) → s'.memory j ≡ s.memory j)
strtok-word fuel string delim d gap c word [] s nonnull delims is gaps plain ends room room' =
    let start : ℕ = string + length gap in
    let m : Mem = s.memory in
    let here = CString-drop m string gap ((c ∷ word) ++ []) is in
    let skipped =
      skip_delims-length m delim d delims fuel string gap c (word ++ []) is gaps plain.0 room in
    let ended = end_token-last m delim d delims fuel start (c ∷ word) here plain (omega arith) in
    let zero_at = CString-drop m start (c ∷ word) [] here in
    (
      record { backup_string = start + length (c ∷ word); memory = m },
      strtok-from fuel string delim start _ m s nonnull skipped (λ e. nonnull (omega arith)) ended,
      CString-take m m start (c ∷ word) [] here (λ j below. refl) zero_at,
      zero_at,
      λ j other. refl,
    )
strtok-word fuel string delim d gap c word (x ∷ rest) s nonnull delims is gaps plain ends room
      room' =
    let start : ℕ = string + length gap in
    let m : Mem = s.memory in
    let end : ℕ = start + length (c ∷ word) in
    let m' : Mem = update m end 0 in
    let here = CString-drop m string gap ((c ∷ word) ++ x ∷ rest) is in
    let skipped =
      skip_delims-length m delim d delims fuel string gap c (word ++ x ∷ rest) is gaps plain.0
        room in
    let ended =
      end_token-more m delim d delims fuel start (c ∷ word) x rest here plain ends (omega arith) in
    let (at, nonzero, left) = CString-drop m start (c ∷ word) (x ∷ rest) here in
    (
      record { backup_string = end + 1; memory = m' },
      strtok-from fuel string delim start _ m' s nonnull skipped (λ e. nonnull (omega arith)) ended,
      CString-take m m' start (c ∷ word) (x ∷ rest) here (λ j below. ground arith) (ground arith),
      CString-frame m m' (end + 1) rest left (λ j lo hi. ground arith),
      λ j other. ground (arith, other),
    )
