-- ===== src/PathParser/Scan.antt =====
-- One part of a path: what `pathparser_extract_path_part` takes from the text.
use own_kernel.Prelude.{
  ℕ, zero, suc, ◌+◌, ◌<◌, ◌≡◌, ◌≢◌, refl, false, none, some, List, [], ◌∷◌, ◌++◌, arith, length,
  All,
}
use own_kernel.Memory.{Mem}
use own_kernel.Strings.Text.{CString}
use own_kernel.PathParser.{
  max_path, at_end, scan_part, after_slash, part_or_null, pathparser_extract_path_part,
}

-- A part: some characters, and no slash among them.
abbrev pub IsPart : List ℕ → Type 0
IsPart [] = ⊥
IsPart (c ∷ cs) = All (λ d. d ≢ b'/') (c ∷ cs)

abbrev pub slash : ℕ
slash = b'/'

scan_part-slash :
    (fuel : ℕ) (m : Mem) (path : ℕ) (part rest : List ℕ)
    → CString m path (part ++ slash ∷ rest)
    → All (λ d. d ≢ b'/') part
    → length part < fuel
    → (scan_part fuel m path ≡ some (part, path + length part))
      × (m (path + length part) ≡ slash)
      × CString m (path + length part + 1) rest
unfolding scan_part
scan_part-slash zero m path part rest h plain enough = absurd (omega arith)
scan_part-slash (suc fuel) m path [] rest h plain enough =
    let e : path + 0 ≡ path = omega arith in rw (e, h.0) (refl, refl, h.2)
scan_part-slash (suc fuel) m path (c ∷ part) rest h plain enough =
    let (scanned, stop, behind) =
      scan_part-slash fuel m (path + 1) part rest h.2 plain.1 (omega arith) in
    let e : path + suc (length part) ≡ path + 1 + length part = omega arith in
    let inside : at_end (m path) ≡ false = ground (arith, plain.0) in
    rw (e, inside, scanned, h.0) (refl, stop, behind)

scan_part-end :
    (fuel : ℕ) (m : Mem) (path : ℕ) (part : List ℕ)
    → CString m path part
    → All (λ d. d ≢ b'/') part
    → length part < fuel
    → (scan_part fuel m path ≡ some (part, path + length part)) × (m (path + length part) ≡ 0)
unfolding scan_part
scan_part-end zero m path part h plain enough = absurd (omega arith)
scan_part-end (suc fuel) m path [] h plain enough =
    let e : path + 0 ≡ path = omega arith in rw (e, h) (refl, refl)
scan_part-end (suc fuel) m path (c ∷ part) h plain enough =
    let (scanned, stop) = scan_part-end fuel m (path + 1) part h.2 plain.1 (omega arith) in
    let e : path + suc (length part) ≡ path + 1 + length part = omega arith in
    let inside : at_end (m path) ≡ false = ground (arith, plain.0) in
    rw (e, inside, scanned, h.0) (refl, stop)

extract_of_scan :
    (m : Mem) (path stop : ℕ) (part : List ℕ)
    → scan_part max_path m path ≡ some (part, stop)
    → pathparser_extract_path_part m path ≡ some (part_or_null part, after_slash m stop)
unfolding pathparser_extract_path_part
extract_of_scan m path stop part scanned = rw (scanned, pathparser_extract_path_part)

-- A part with a slash behind it is taken with the slash.
pub extract-slash :
    (m : Mem) (path : ℕ) (part rest : List ℕ)
    → CString m path (part ++ slash ∷ rest)
    → IsPart part
    → length part < max_path
    → (pathparser_extract_path_part m path ≡ some (some part, path + length part + 1))
      × CString m (path + length part + 1) rest
extract-slash m path [] rest h plain enough = absurd plain
extract-slash m path (c ∷ part) rest h plain enough =
    let (scanned, stop, behind) = scan_part-slash max_path m path (c ∷ part) rest h plain enough in
    (rw (extract_of_scan m path _ _ scanned, stop), behind)

-- The last part is taken up to the end of the text.
pub extract-last :
    (m : Mem) (path : ℕ) (part : List ℕ)
    → CString m path part
    → IsPart part
    → length part < max_path
    → (pathparser_extract_path_part m path ≡ some (some part, path + length part))
      × CString m (path + length part) []
extract-last m path [] h plain enough = absurd plain
extract-last m path (c ∷ part) h plain enough =
    let (scanned, stop) = scan_part-end max_path m path (c ∷ part) h plain enough in
    (rw (extract_of_scan m path _ _ scanned, stop), stop)

-- At the end of the text there is no part.
pub extract-none :
    (m : Mem) (path : ℕ)
    → CString m path []
    → pathparser_extract_path_part m path ≡ some (none, path)
extract-none m path h =
    let (scanned, stop) = scan_part-end max_path m path [] h tt (omega arith) in
    let e : path + 0 ≡ path = omega arith in rw (extract_of_scan m path _ _ scanned, e, h)
