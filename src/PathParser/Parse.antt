-- ===== src/PathParser/Parse.antt =====
-- What `pathparser_parse` makes of a path with the parts p1/p2/.../pn.
use own_kernel.Prelude.{
  ltb, ℕ, zero, suc, ◌+◌, ◌<◌, ◌≤◌, ◌≡◌, refl, sym, ◌∙◌, false, true, Option, none, some, List, [],
  ◌∷◌, ◌++◌, arith, length, length-append, All, leb,
}
use own_kernel.Memory.{Mem}
use own_kernel.Strings.Text.{CString, strlen-length, strnlen-length}
use own_kernel.Strings.{strnlen, is_digit, to_numeric_digit}
use own_kernel.PathParser.{
  max_path, Parts, no_parts, pathparser_path_valid_format, pathparser_extract_drive_by_path, link,
  new_part, pathparser_parse_path_part, parse_rest, parse_parts, pathparser_parse,
}
use own_kernel.PathParser.Scan.{IsPart, slash, extract-slash, extract-last, extract-none}

-- the text of the parts `p` and `ps`
abbrev pub path_text : List ℕ → List (List ℕ) → List ℕ
path_text p [] = p
path_text p (q ∷ qs) = p ++ slash ∷ path_text q qs

-- the last of them
abbrev pub last_part : List ℕ → List (List ℕ) → List ℕ
last_part p [] = p
last_part p (q ∷ qs) = last_part q qs

length-path_text :
    (p : List ℕ) (ps : List (List ℕ)) → length p + length ps ≤ length (path_text p ps)
length-path_text p [] = omega arith
length-path_text p (q ∷ qs) =
    omega (arith, length-append {0} p (slash ∷ path_text q qs), length-path_text q qs)

-- A call on the text `p/ps` allocates the part `p` and leaves the text of `ps`.
abbrev Left : Mem → ℕ → List (List ℕ) → Type 0
Left m stop [] = CString m stop []
Left m stop (q ∷ qs) = CString m stop (path_text q qs)

parse_part-new :
    (m : Mem) (last : Option ℕ) (path : ℕ) (parts : Parts) (p : List ℕ) (ps : List (List ℕ))
    → CString m path (path_text p ps)
    → IsPart p
    → length (path_text p ps) < max_path
    → (stop : ℕ) × (pathparser_parse_path_part m last path parts
        ≡ some (some parts.count, stop, new_part p last parts))
      × Left m stop ps
unfolding pathparser_parse_path_part
parse_part-new m last path parts p [] h plain enough =
    let (e, left) = extract-last m path p h plain enough in
    (path + length p, rw (e, pathparser_parse_path_part), left)
parse_part-new m last path parts p (q ∷ qs) h plain enough =
    let (e, left) =
      extract-slash m path p (path_text q qs) h plain
        (omega (arith, length-append {0} p (slash ∷ path_text q qs))) in
    (path + length p + 1, rw (e, pathparser_parse_path_part), left)

parse_part-none :
    (m : Mem) (last : Option ℕ) (path : ℕ) (parts : Parts)
    → CString m path []
    → pathparser_parse_path_part m last path parts ≡ some (none, path, parts)
unfolding pathparser_parse_path_part
parse_part-none m last path parts h = rw (extract-none m path h, pathparser_parse_path_part)

-- The list of parts is the first part `p` and one more, `q`.
pub record IsPair (parts : Parts) (p q : List ℕ) : Type 0 where
  pub second : ℕ
  pub first_part : (parts.cells 0).part ≡ p
  pub first_next : (parts.cells 0).next ≡ some second
  pub second_part : (parts.cells second).part ≡ q
  pub second_next : (parts.cells second).next ≡ none

second_of :
    (parts : Parts) (q : List ℕ)
    → 0 < parts.count
    → IsPair (new_part q (some 0) parts) (parts.cells 0).part q
unfolding new_part link
second_of parts q first = record {
  second = parts.count;
  first_part = ground arith;
  first_next = ground arith;
  second_part = ground arith;
  second_next = ground arith;
}

first-new_part :
    (parts : Parts) (q : List ℕ)
    → 0 < parts.count
    → ((new_part q (some 0) parts).cells 0).part ≡ (parts.cells 0).part
unfolding new_part link
first-new_part parts q first = ground arith

parse_rest-more :
    (fuel : ℕ) (m : Mem) (path stop new : ℕ) (parts parts' : Parts)
    → pathparser_parse_path_part m (some 0) path parts ≡ some (some new, stop, parts')
    → parse_rest (suc fuel) m 0 path parts ≡ parse_rest fuel m 0 stop parts'
unfolding parse_rest
parse_rest-more fuel m path stop new parts parts' e = rw (e, parse_rest)

parse_rest-end :
    (fuel : ℕ) (m : Mem) (path : ℕ) (parts : Parts)
    → CString m path []
    → parse_rest (suc fuel) m 0 path parts ≡ some parts
unfolding parse_rest
parse_rest-end fuel m path parts h = rw (parse_part-none m (some 0) path parts h, parse_rest)

parse_rest-last :
    (qs : List (List ℕ)) (q : List ℕ) (fuel : ℕ) (m : Mem) (path : ℕ) (parts : Parts)
    → CString m path (path_text q qs)
    → All IsPart (q ∷ qs)
    → length (path_text q qs) < max_path
    → length qs + 1 < fuel
    → 0 < parts.count
    → (parts' : Parts) × (parse_rest fuel m 0 path parts ≡ some parts')
      × IsPair parts' (parts.cells 0).part (last_part q qs)
parse_rest-last qs q zero m path parts h plain short enough first = absurd (omega arith)
parse_rest-last [] q (suc zero) m path parts h plain short enough first = absurd (omega arith)
parse_rest-last [] q (suc (suc fuel)) m path parts h plain short enough first =
    let (stop, e, left) = parse_part-new m (some 0) path parts q [] h plain.0 short in
    (
      new_part q (some 0) parts,
      parse_rest-more (suc fuel) m path stop parts.count parts (new_part q (some 0) parts) e
          ∙ parse_rest-end fuel m stop (new_part q (some 0) parts) left,
      second_of parts q first,
    )
parse_rest-last (r ∷ rs) q (suc fuel) m path parts h plain short enough first =
    let (stop, e, left) = parse_part-new m (some 0) path parts q (r ∷ rs) h plain.0 short in
    let linked : Parts = new_part q (some 0) parts in
    let (parts', e', pair) =
      parse_rest-last rs r fuel m stop linked left plain.1
        (omega (arith, length-append {0} q (slash ∷ path_text r rs))) (omega arith)
        (unfold new_part in omega arith) in
    (
      parts',
      parse_rest-more fuel m path stop parts.count parts linked e ∙ e',
      rw (sym (first-new_part parts q first)) pair,
    )

-- A path with one part keeps it; of a path with more, the list holds the first and the last.
abbrev pub Holds : Parts → List ℕ → List (List ℕ) → Type 0
Holds parts p [] = ((parts.cells 0).part ≡ p) × ((parts.cells 0).next ≡ none)
Holds parts p (q ∷ qs) = IsPair parts p (last_part q qs)

parse_parts_lem :
    (m : Mem) (drive path : ℕ) (p : List ℕ) (ps : List (List ℕ))
    → CString m path (path_text p ps)
    → All IsPart (p ∷ ps)
    → length (path_text p ps) + 1 < max_path
    → (parts : Parts) × (parse_parts m drive path
        ≡ some (record { drive_number = drive; first = some 0 }, parts))
      × Holds parts p ps
unfolding parse_parts new_part link
parse_parts_lem m drive path p [] h plain short =
    let (stop, e, left) = parse_part-new m none path no_parts p [] h plain.0 (omega arith) in
    (
      new_part p none no_parts,
      rw (e, parse_parts) (rw (parse_rest-end 107 m stop (new_part p none no_parts) left) refl),
      (refl, refl),
    )
parse_parts_lem m drive path p (q ∷ qs) h plain short =
    let (stop, e, left) = parse_part-new m none path no_parts p (q ∷ qs) h plain.0 (omega arith) in
    let (parts, e', pair) =
      parse_rest-last qs q max_path m stop (new_part p none no_parts) left plain.1
        (omega (arith, length-append {0} p (slash ∷ path_text q qs)))
        (omega (arith, length-append {0} p (slash ∷ path_text q qs), length-path_text q qs))
        (omega arith) in
    (parts, rw (e, parse_parts) (rw e'), pair)

drive-prefix :
    (m : Mem) (path d : ℕ) (text : List ℕ)
    → CString m path (d ∷ b':' ∷ b'/' ∷ text)
    → is_digit d ≡ true
    → pathparser_extract_drive_by_path m path ≡ some (to_numeric_digit d, path + 3)
unfolding pathparser_extract_drive_by_path pathparser_path_valid_format
drive-prefix m path d text h digit =
    let second : path + 2 ≡ path + 1 + 1 = omega arith in
    let long : leb 3 (strnlen m path max_path) ≡ true =
      ground (arith, strnlen-length m path max_path (d ∷ b':' ∷ b'/' ∷ text) h) in
    rw (long, h.0, digit, h.2.0, second, h.2.2.0)

-- A path `d:/p1/.../pn` of a digit and parts that are not empty, of at most 107 characters, parses
-- to the drive `d` and a list of parts: the part of a path with one, and of a path with more the
-- first and the last only.
pub pathparser_parse_lem :
    (m : Mem) (path d : ℕ) (p : List ℕ) (ps : List (List ℕ))
    → CString m path (d ∷ b':' ∷ b'/' ∷ path_text p ps)
    → is_digit d ≡ true
    → All IsPart (p ∷ ps)
    → length (path_text p ps) + 3 < max_path
    → (parts : Parts) × (pathparser_parse m path
        ≡ some (record { drive_number = to_numeric_digit d; first = some 0 }, parts))
      × Holds parts p ps
unfolding pathparser_parse
pathparser_parse_lem m path d p ps h digit plain short =
    let counted =
      strlen-length (max_path + 1) m path (d ∷ b':' ∷ b'/' ∷ path_text p ps) h (omega arith) in
    let text : CString m (path + 3) (path_text p ps) =
      (let e : path + 3 ≡ path + 1 + 1 + 1 = omega arith in rw e h.2.2.2) in
    let (parts, e, holds) =
      parse_parts_lem m (to_numeric_digit d) (path + 3) p ps text plain (omega arith) in
    let fits : ltb max_path (length (path_text p ps) + 4) ≡ false = ground arith in
    let total : suc (suc (suc (length (path_text p ps)))) + 1 ≡ length (path_text p ps) + 4 =
      omega arith in
    (
      parts,
      rw (counted, total, pathparser_parse, fits)
          (rw (drive-prefix m path d (path_text p ps) h digit) e),
      holds,
    )
