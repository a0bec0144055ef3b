-- ===== src/Tests/OfBytes.antt =====
-- Small texts and regions.
use own_kernel.Prelude.{
  ℕ, ◌+◌, ◌-◌, ◌≤◌, ◌<◌, ◌≡◌, refl, ◌⊎◌, inr, arith, List, [], ◌∷◌, some, get_or, take,
}
use own_kernel.Memory.{Mem}
use own_kernel.Strings.{strncpy, is_digit, to_numeric_digit}
use own_kernel.Strings.Text.{CString, strncpy-take}
use own_kernel.PathParser.{Parts, pathparser_parse}
use own_kernel.PathParser.Parse.{path_text, Holds, pathparser_parse_lem}

-- `Ab` at 0, `aB` at 3
abbrev texts : Mem
texts j = get_or (b'A' ∷ b'b' ∷ 0 ∷ b'a' ∷ b'B' ∷ []) j 0

abbrev upper_first : List ℕ
upper_first = b'A' ∷ b'b' ∷ []

abbrev upper_second : List ℕ
upper_second = b'a' ∷ b'B' ∷ []

first : CString texts 0 upper_first
first = (refl, omega arith, (refl, omega arith, refl))

second : CString texts 3 upper_second
second = (refl, omega arith, (refl, omega arith, refl))

strncpy-take_example :
    CString (strncpy 16 3 2 texts) 16 (take (2 - 1) upper_second)
    × ((j : ℕ) → (j < 16) ⊎ (16 + 2 ≤ j) → strncpy 16 3 2 texts j ≡ texts j)
strncpy-take_example =
    strncpy-take 16 3 2 texts upper_second (omega arith) second (inr (omega arith))

-- the path `0:/a/b/c`
abbrev path : Mem
path j = get_or (b'0' ∷ b':' ∷ b'/' ∷ b'a' ∷ b'/' ∷ b'b' ∷ b'/' ∷ b'c' ∷ []) j 0

abbrev behind_a : List (List ℕ)
behind_a = (b'b' ∷ []) ∷ (b'c' ∷ []) ∷ []

path-CString : CString path 0 (b'0' ∷ b':' ∷ b'/' ∷ path_text (b'a' ∷ []) behind_a)
path-CString = (
  refl,
  omega arith,
  (
    refl,
    omega arith,
    (
      refl,
      omega arith,
      (
        refl,
        omega arith,
        (refl, omega arith, (refl, omega arith, (refl, omega arith, (refl, omega arith, refl)))),
      ),
    ),
  ),
)

pathparser_parse_lem_example :
    (parts : Parts) × (pathparser_parse path 0
      ≡ some (record { drive_number = to_numeric_digit b'0'; first = some 0 }, parts))
    × Holds parts (b'a' ∷ []) behind_a
pathparser_parse_lem_example =
    pathparser_parse_lem path 0 b'0' (b'a' ∷ []) behind_a path-CString (unfold is_digit in refl)
      ((omega arith, tt), ((omega arith, tt), ((omega arith, tt), tt))) (omega arith)
