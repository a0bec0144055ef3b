-- ===== src/Strings/Text.antt =====
-- The string functions on the text that a pointer stands for.
use own_kernel.Prelude.{
  ℕ, zero, suc, ◌+◌, ◌-◌, ◌≤◌, ◌<◌, ◌≡◌, ◌≢◌, refl, ◌⊎◌, ◌↔◌, arith, update, List, [], ◌∷◌, length,
  some, take, ap, ◌∙◌, sym, min,
}
use mathlib.Core.Path.{subst}
use own_kernel.Prelude.Int.{pos}
use own_kernel.Memory.{Mem}
use own_kernel.Strings.{
  strlen_loop, strlen, strnlen_loop, strnlen, strncpy_loop, strncpy, tolower, istrncmp, strncmp,
}

-- From address `p` the bytes of the text, none of them 0, and then a 0.
abbrev pub CString : Mem → ℕ → List ℕ → Type 0
CString m p [] = m p ≡ 0
CString m p (c ∷ cs) = (m p ≡ c) × (c ≢ 0) × CString m (p + 1) cs

strlen_loop-length :
    (fuel : ℕ) (m : Mem) (str len : ℕ) (s : List ℕ)
    → CString m (str + len) s
    → length s < fuel
    → strlen_loop fuel m str len ≡ some (len + length s + 1)
unfolding strlen_loop
strlen_loop-length zero m str len s h enough = absurd (omega arith)
strlen_loop-length (suc fuel) m str len [] h enough = rw h (ap (λ (n : ℕ). some n) (omega arith))
strlen_loop-length (suc fuel) m str len (c ∷ s) h enough =
    let next : CString m (str + (len + 1)) s =
      (let e : str + (len + 1) ≡ str + len + 1 = omega arith in rw e h.2) in
    ground (arith, h.0, h.1, strlen_loop-length fuel m str (len + 1) s next (omega arith))

-- With fuel above the length of the text, `strlen` counts its terminating zero: it is one more
-- than the length.
pub strlen-length :
    (fuel : ℕ) (m : Mem) (str : ℕ) (s : List ℕ)
    → CString m str s
    → length s < fuel
    → strlen fuel m str ≡ some (length s + 1)
unfolding strlen
strlen-length fuel m str s h enough =
    let start : CString m (str + 0) s = (let e : str + 0 ≡ str = omega arith in rw e h) in
    strlen_loop-length fuel m str 0 s start enough ∙ ap (λ (n : ℕ). some n) (omega arith)

strnlen_loop-length :
    (max : ℕ) (m : Mem) (str len : ℕ) (s : List ℕ)
    → CString m (str + len) s
    → strnlen_loop max m str len ≡ len + min (length s) max + 1
unfolding strnlen_loop
strnlen_loop-length zero m str len s h = omega arith
strnlen_loop-length (suc max) m str len [] h = rw h (omega arith)
strnlen_loop-length (suc max) m str len (c ∷ s) h =
    let next : CString m (str + (len + 1)) s =
      (let e : str + (len + 1) ≡ str + len + 1 = omega arith in rw e h.2) in
    ground (arith, h.0, h.1, strnlen_loop-length max m str (len + 1) s next)

-- So does `strnlen`, which is bounded by `max + 1`.
pub strnlen-length :
    (m : Mem) (str max : ℕ) (s : List ℕ)
    → CString m str s
    → strnlen m str max ≡ min (length s) max + 1
unfolding strnlen
strnlen-length m str max s h =
    let start : CString m (str + 0) s = (let e : str + 0 ≡ str = omega arith in rw e h) in
    omega (arith, strnlen_loop-length max m str 0 s start)

-- `strncmp` of two texts is 0 exactly if their first `n` characters agree.
pub strncmp-zero_iff :
    (m : Mem) (str1 str2 n : ℕ) (s t : List ℕ)
    → CString m str1 s
    → CString m str2 t
    → (strncmp m str1 str2 n ≡ pos 0) ↔ (take n s ≡ take n t)
unfolding strncmp
strncmp-zero_iff m str1 str2 zero s t hs ht = (λ e. refl, λ e. refl)
strncmp-zero_iff m str1 str2 (suc n) [] [] hs ht = rw (hs, ht) (λ e. refl, λ e. refl)
strncmp-zero_iff m str1 str2 (suc n) [] (d ∷ t) hs ht = (λ e. ground arith, λ e. cc)
strncmp-zero_iff m str1 str2 (suc n) (c ∷ s) [] hs ht = (λ e. ground arith, λ e. cc)
strncmp-zero_iff m str1 str2 (suc n) (c ∷ s) (d ∷ t) hs ht =
    let ih = strncmp-zero_iff m (str1 + 1) (str2 + 1) n s t hs.2 ht.2 in
    (λ e. ground (arith, ih.0), λ e. ground (arith, ih.1))

-- The text with its ASCII capitals made small (and `@`, which `tolower` takes for one).
abbrev pub fold_case : List ℕ → List ℕ
fold_case [] = []
fold_case (c ∷ cs) = tolower c ∷ fold_case cs

tolower-zero : (c : ℕ) → tolower c ≡ 0 → c ≡ 0
unfolding tolower
tolower-zero c h = ground arith

tolower_nul : tolower 0 ≡ 0
unfolding tolower
tolower_nul = refl

-- `istrncmp` of two texts is 0 exactly if their first `n` characters agree after `tolower`.
pub istrncmp-zero_iff :
    (m : Mem) (str1 str2 n : ℕ) (s t : List ℕ)
    → CString m str1 s
    → CString m str2 t
    → (istrncmp m str1 str2 n ≡ pos 0) ↔ (take n (fold_case s) ≡ take n (fold_case t))
unfolding istrncmp
istrncmp-zero_iff m str1 str2 zero s t hs ht = (λ e. refl, λ e. refl)
istrncmp-zero_iff m str1 str2 (suc n) [] [] hs ht = rw (hs, ht) (λ e. refl, λ e. refl)
istrncmp-zero_iff m str1 str2 (suc n) [] (d ∷ t) hs ht =
    (λ e. ground (arith, tolower-zero d, tolower_nul), λ e. cc)
istrncmp-zero_iff m str1 str2 (suc n) (c ∷ s) [] hs ht =
    (λ e. ground (arith, tolower-zero c, tolower_nul, ap tolower {x = m str2} {y = 0}), λ e. cc)
istrncmp-zero_iff m str1 str2 (suc n) (c ∷ s) (d ∷ t) hs ht =
    let ih = istrncmp-zero_iff m (str1 + 1) (str2 + 1) n s t hs.2 ht.2 in
    (λ e. ground (arith, ih.0, ap tolower {x = c} {y = d}), λ e. ground (arith, ih.1))

-- A text survives any change that spares its own bytes.
pub CString-frame :
    (m m' : Mem) (p : ℕ) (s : List ℕ)
    → CString m p s
    → ((j : ℕ) → p ≤ j → j ≤ p + length s → m' j ≡ m j)
    → CString m' p s
CString-frame m m' p [] h same = ground (arith, same p)
CString-frame m m' p (c ∷ s) h same = (
  ground (arith, same p),
  h.1,
  CString-frame m m' (p + 1) s h.2 λ j lo hi. same j (omega arith) (omega arith),
)

strncpy_loop-frame :
    (n i dest src : ℕ) (m : Mem) (j : ℕ)
    → (j < dest + i) ⊎ (dest + i + n < j)
    → strncpy_loop n i dest src m j ≡ m j
unfolding strncpy_loop
strncpy_loop-frame zero i dest src m j out = ground arith
strncpy_loop-frame (suc n) i dest src m j out =
    ground (arith, strncpy_loop-frame n (i + 1) dest src (update m (dest + i) (m (src + i))) j)

strncpy_loop-suc :
    (n i dest src : ℕ) (m : Mem)
    → m (src + i) ≢ 0
    → strncpy_loop (suc n) i dest src m
      ≡ strncpy_loop n (i + 1) dest src (update m (dest + i) (m (src + i)))
unfolding strncpy_loop
strncpy_loop-suc n i dest src m more = ground arith

strncpy_loop-nul :
    (n i dest src : ℕ) (m : Mem)
    → m (src + i) ≡ 0
    → strncpy_loop n i dest src m ≡ update m (dest + i) 0
unfolding strncpy_loop
strncpy_loop-nul zero i dest src m end = refl
strncpy_loop-nul (suc n) i dest src m end = rw end

strncpy_loop-take :
    (n i dest src : ℕ) (m : Mem) (s : List ℕ)
    → CString m (src + i) s
    → (dest + n < src) ⊎ (src + length s < dest)
    → CString (strncpy_loop n i dest src m) (dest + i) (take n s)
strncpy_loop-take zero i dest src m s h apart = unfold strncpy_loop in ground arith
strncpy_loop-take (suc n) i dest src m [] h apart =
    rw (strncpy_loop-nul (suc n) i dest src m h) (ground arith)
strncpy_loop-take (suc n) i dest src m (c ∷ s) h apart =
    let m1 : Mem = update m (dest + i) (m (src + i)) in
    let e : src + (i + 1) ≡ src + i + 1 = omega arith in
    let f : dest + (i + 1) ≡ dest + i + 1 = omega arith in
    let next : CString m1 (src + (i + 1)) s =
      rw e (CString-frame m m1 (src + i + 1) s h.2 λ j lo hi. ground arith) in
    let ih : CString (strncpy_loop n (i + 1) dest src m1) (dest + (i + 1)) (take n s) =
      strncpy_loop-take n (i + 1) dest src m1 s next (omega arith) in
    subst (λ r. CString r (dest + i) (c ∷ take n s))
      (sym (strncpy_loop-suc n i dest src m (ground arith)))
      (ground (arith, strncpy_loop-frame n (i + 1) dest src m1 (dest + i)), h.1, rw f at ih)

-- With a count above 0 and a source that the copy does not meet, `strncpy` leaves at `dest` the
-- text cut to `count - 1` characters with its zero, and writes nothing outside the `count` bytes
-- there.
pub strncpy-take :
    (dest src count : ℕ) (m : Mem) (s : List ℕ)
    → 0 < count
    → CString m src s
    → (dest + count ≤ src) ⊎ (src + length s < dest)
    → CString (strncpy dest src count m) dest (take (count - 1) s)
      × ((j : ℕ) → (j < dest) ⊎ (dest + count ≤ j) → strncpy dest src count m j ≡ m j)
unfolding strncpy
strncpy-take dest src count m s room h apart =
    let e : src + 0 ≡ src = omega arith in
    let f : dest + 0 ≡ dest = omega arith in
    let copied = strncpy_loop-take (count - 1) 0 dest src m s (rw e h) (omega arith) in
    (rw f at copied, λ j out. strncpy_loop-frame (count - 1) 0 dest src m j (omega arith))
