-- ===== src/Fat16/Names/Text.antt =====
-- The text that an item's name and extension come to.
use own_kernel.Prelude.{
  ℕ, zero, suc, ◌+◌, ◌≤◌, ◌<◌, ◌≡◌, ◌≢◌, refl, ◌⊎◌, inl, inr, true, false, some, List, [], ◌∷◌,
  ◌++◌, length, arith, ◌==◌, if◌then◌else◌, update, ap, ◌∙◌,
}
use own_kernel.Memory.{Mem, memset}
use own_kernel.Memory.Regions.{memset-get}
use own_kernel.Strings.Text.{CString}
use own_kernel.Fat16.{ext_at}
use own_kernel.Fat16.Names.{ends_name, fat16_to_proper_string, fat16_get_full_relative_filename}

-- From address `p` the bytes of the text, none of which ends a name, and then one that does.
abbrev pub Field : Mem → ℕ → List ℕ → Type 0
Field m p [] = ends_name (m p) ≡ true
Field m p (c ∷ s) = (m p ≡ c) × (ends_name c ≡ false) × Field m (p + 1) s

-- Memory that differs from `text` in the `n + 1` bytes from `out` on at most.
abbrev SameOutside : Mem → (out n : ℕ) → Mem → Type 0
SameOutside text out n text' = (j : ℕ) → (j < out) ⊎ (out + n < j) → text' j ≡ text j

name_char-nonzero : (c : ℕ) → ends_name c ≡ false → c ≢ 0
name_char-nonzero c plain e = ground arith

fat16_to_proper_string-CString :
    (fuel : ℕ) (m : Mem) (out input : ℕ) (text : Mem) (s : List ℕ)
    → Field m input s
    → length s < fuel
    → text (out + length s) ≡ 0
    → (text' : Mem) × (fat16_to_proper_string fuel m out input text ≡ some (out + length s, text'))
      × CString text' out s
      × SameOutside text out (length s) text'
unfolding fat16_to_proper_string
fat16_to_proper_string-CString zero m out input text s field enough blank = absurd (omega arith)
fat16_to_proper_string-CString (suc fuel) m out input text [] field enough blank =
    let at : out + 0 ≡ out = omega arith in
    (
      if m input == 0x20 then update text out 0x00 else text,
      rw (field, at) refl,
      ground arith,
      λ j outside. ground arith,
    )
fat16_to_proper_string-CString (suc fuel) m out input text (c ∷ s) field enough blank =
    let (at, plain, rest) = field in
    let e1 : out + suc (length s) ≡ out + 1 + length s = omega arith in
    let (text', e, is_text, same) =
      fat16_to_proper_string-CString fuel m (out + 1) (input + 1) (update text out (m input)) s rest
        (omega arith) (ground (arith, blank, ap text e1)) in
    (
      text',
      rw (at, plain, e1) (rw at at e),
      (same out (inl (omega arith)) ∙ ground arith, name_char-nonzero c plain, is_text),
      λ j outside. ground (arith, same j),
    )

-- A text that stays where it is but for its 0, and goes on there.
CString-append :
    (m m' : Mem) (p : ℕ) (s t : List ℕ)
    → CString m p s
    → ((j : ℕ) → p ≤ j → j < p + length s → m' j ≡ m j)
    → CString m' (p + length s) t
    → CString m' p (s ++ t)
CString-append m m' p [] t first same rest = let at : p + 0 ≡ p = omega arith in rw at at rest
CString-append m m' p (c ∷ s) t (at, nonzero, first) same rest =
    let e : p + suc (length s) ≡ p + 1 + length s = omega arith in
    (
      same p (omega arith) (omega arith) ∙ at,
      nonzero,
      CString-append m m' (p + 1) s t first (λ j lo hi. same j (omega arith) (omega arith))
          (rw e at rest),
    )

-- `NAME.EXT`, or the name alone
abbrev pub full_name : List ℕ → List ℕ → List ℕ
full_name s [] = s
full_name s (c ∷ t) = s ++ (b'.' ∷ c ∷ t)

module _ (fuel : ℕ) (m : Mem) (item out max_len : ℕ) (text : Mem) (s : List ℕ)
    (field : Field m item s) (enough : length s < fuel) where
  cleared-get : (j : ℕ) → out ≤ j → j < out + max_len → memset out 0x00 max_len text j ≡ 0
  cleared-get j lo hi = ground (arith, memset-get out 0x00 max_len text j)

  cleared-frame :
      (j : ℕ) → (j < out) ⊎ (out + max_len ≤ j) → memset out 0x00 max_len text j ≡ text j
  cleared-frame j (inl below) = ground (arith, memset-get out 0x00 max_len text j)
  cleared-frame j (inr above) = ground (arith, memset-get out 0x00 max_len text j)

  outside-frame :
      (n : ℕ) (text' : Mem)
      → n < max_len
      → SameOutside (memset out 0x00 max_len text) out n text'
      → (j : ℕ) → (j < out) ⊎ (out + max_len ≤ j)
      → text' j ≡ text j
  outside-frame n text' room same j (inl below) = same j (inl below) ∙ cleared-frame j (inl below)
  outside-frame n text' room same j (inr above) =
      same j (inr (omega arith)) ∙ cleared-frame j (inr above)

  name_of_parts :
      (after : ℕ) (text1 : Mem)
      → fat16_to_proper_string fuel m out item (memset out 0x00 max_len text) ≡ some (after, text1)
      → ends_name (m (ext_at item)) ≡ true
      → fat16_get_full_relative_filename fuel m item out max_len text ≡ some text1
  unfolding fat16_get_full_relative_filename
  name_of_parts after text1 e ends = rw (e, fat16_get_full_relative_filename, ends) refl

  name_and_ext_of_parts :
      (after stop : ℕ) (text1 text2 : Mem)
      → fat16_to_proper_string fuel m out item (memset out 0x00 max_len text) ≡ some (after, text1)
      → ends_name (m (ext_at item)) ≡ false
      → fat16_to_proper_string fuel m (after + 1) (ext_at item) (update text1 after b'.')
        ≡ some (stop, text2)
      → fat16_get_full_relative_filename fuel m item out max_len text ≡ some text2
  unfolding fat16_get_full_relative_filename
  name_and_ext_of_parts after stop text1 text2 e more e' =
      rw (e, fat16_get_full_relative_filename, more, e') refl

  -- The buffer holds the name, a point and the extension, without the point where the item has no
  -- extension; and no byte beyond `max_len` has changed.
  pub fat16_get_full_relative_filename-full_name :
      (t : List ℕ)
      → Field m (ext_at item) t
      → length t < fuel
      → length s + length t + 2 ≤ max_len
      → (text' : Mem) × (fat16_get_full_relative_filename fuel m item out max_len text ≡ some text')
        × CString text' out (full_name s t)
        × ((j : ℕ) → (j < out) ⊎ (out + max_len ≤ j) → text' j ≡ text j)
  fat16_get_full_relative_filename-full_name [] ext enough' room =
      let (text1, e1, is_name, same1) =
        fat16_to_proper_string-CString fuel m out item (memset out 0x00 max_len text) s field enough
          (cleared-get (out + length s) (omega arith) (omega arith)) in
      (
        text1,
        name_of_parts _ text1 e1 ext,
        is_name,
        outside-frame (length s) text1 (omega arith) same1,
      )
  fat16_get_full_relative_filename-full_name (c ∷ t) (at, plain, ext) enough' room =
      let (text1, e1, is_name, same1) =
        fat16_to_proper_string-CString fuel m out item (memset out 0x00 max_len text) s field enough
          (cleared-get (out + length s) (omega arith) (omega arith)) in
      let dotted : Mem = update text1 (out + length s) b'.' in
      let (text2, e2, is_ext, same2) =
        fat16_to_proper_string-CString fuel m (out + length s + 1) (ext_at item) dotted (c ∷ t)
          (at, plain, ext) enough'
          (ground (
            arith,
            same1 (out + length s + 1 + suc (length t)) (inr (omega arith)),
            cleared-get (out + length s + 1 + suc (length t)),
          )) in
      (
        text2,
        name_and_ext_of_parts _ _ text1 text2 e1 (ap ends_name at ∙ plain) e2,
        CString-append text1 text2 out s (b'.' ∷ c ∷ t) is_name (λ j lo hi. ground (arith, same2 j))
            (ground (arith, same2 (out + length s)), (λ e. absurd (omega (arith, e))), is_ext),
        outside-frame (length s + 1 + suc (length t)) text2 (omega arith)
            (λ j outside. ground (arith, same1 j, same2 j)),
      )
