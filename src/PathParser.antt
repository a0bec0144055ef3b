-- ===== src/PathParser.antt =====
-- src/fileSystem/pathParser.c: a path `0:/a/b` to a drive number and a linked list of parts.
-- A part's buffer is the text in it; `kernel_zalloc` is taken to succeed, as the source does not
-- test it. Every loop runs on `max_path` rounds, which the test on the length makes enough.
pub mod Scan
pub mod Parse
use own_kernel.Prelude.{
  ℕ, zero, suc, ◌+◌, Bool, true, false, ◌&&◌, ◌||◌, Option, none, some, List, [], ◌∷◌, ◌==◌, ltb,
  leb, if◌then◌else◌, update,
}
use own_kernel.Memory.{Mem}
use own_kernel.Strings.{strlen, strnlen, is_digit, to_numeric_digit}

abbrev pub max_path : ℕ
max_path = 108

pub record PathPart : Type 0 where
  pub part : List ℕ
  pub next : Option ℕ

pub record PathRoot : Type 0 where
  pub drive_number : ℕ
  pub first : Option ℕ

-- The parts that were allocated, in order; a pointer to one is its position.
pub record Parts : Type 0 where
  pub cells : ℕ → PathPart
  pub count : ℕ

abbrev pub no_parts : Parts
no_parts = record { cells = λ _. record { part = []; next = none }; count = 0 }

-- `memcmp(&filename[1], ":/", 2) == 0` compares two bytes.
unfoldable pub pathparser_path_valid_format : Mem → ℕ → Bool
pathparser_path_valid_format m filename =
    leb 3 (strnlen m filename max_path)
    && (is_digit (m filename) && (m (filename + 1) == b':' && m (filename + 2) == b'/'))

-- `none` is `-BAD_PATH_ERROR`.
unfoldable pub pathparser_extract_drive_by_path : Mem → ℕ → Option (ℕ × ℕ)
pathparser_extract_drive_by_path m path =
    if pathparser_path_valid_format m path then some (to_numeric_digit (m path), path + 3) else none

abbrev pub at_end : ℕ → Bool
at_end c = c == b'/' || c == 0

-- What the loop copies, and where it stops; `none` means that the fuel ran out.
unfoldable pub scan_part : (fuel : ℕ) → Mem → (path : ℕ) → Option (List ℕ × ℕ)
scan_part zero m path = none
scan_part (suc fuel) m path =
    let rest = scan_part fuel m (path + 1) in
    if at_end (m path)
    then some ([], path)
    else elim rest [ none ↦ none | some (part, stop) ↦ some (m path ∷ part, stop) ]

abbrev pub after_slash : Mem → ℕ → ℕ
after_slash m path = if m path == b'/' then path + 1 else path

abbrev pub part_or_null : List ℕ → Option (List ℕ)
part_or_null [] = none
part_or_null (c ∷ cs) = some (c ∷ cs)

unfoldable pub pathparser_extract_path_part : Mem → ℕ → Option (Option (List ℕ) × ℕ)
pathparser_extract_path_part m path = elim (scan_part max_path m path) [
  | none ↦ none
  | some (part, stop) ↦ some (part_or_null part, after_slash m stop)
]

-- `last_part->next = part`
unfoldable pub link : Option ℕ → ℕ → (ℕ → PathPart) → ℕ → PathPart
link none new cells = cells
link (some last) new cells = update cells last (record (cells last) { next = some new })

unfoldable pub new_part : List ℕ → Option ℕ → Parts → Parts
new_part part last_part parts = record {
  cells =
      link last_part parts.count
        (update parts.cells parts.count (record { part = part; next = none }));
  count = parts.count + 1;
}

abbrev pub parsed : Option ℕ → Parts → Option (List ℕ) → ℕ → Option ℕ × ℕ × Parts
parsed last_part parts none stop = (none, stop, parts)
parsed last_part parts (some part) stop = (some parts.count, stop, new_part part last_part parts)

unfoldable pub pathparser_parse_path_part :
    Mem → (last_part : Option ℕ) → (path : ℕ) → Parts → Option (Option ℕ × ℕ × Parts)
pathparser_parse_path_part m last_part path parts = elim (pathparser_extract_path_part m path) [
  | none ↦ none
  | some (part, stop) ↦ some (parsed last_part parts part stop)
]

-- The calls behind the first, up to the one that returns null: each is given `first_part`.
unfoldable pub parse_rest : (fuel : ℕ) → Mem → (first_part path : ℕ) → Parts → Option Parts
parse_rest zero m first_part path parts = none
parse_rest (suc fuel) m first_part path parts =
    elim (pathparser_parse_path_part m (some first_part) path parts) [
      | none ↦ none
      | some (part, stop, parts') ↦ elim part [
        | none ↦ some parts'
        | some p ↦ parse_rest fuel m first_part stop parts'
      ]
    ]

unfoldable pub parse_parts : Mem → (drive_number path : ℕ) → Option (PathRoot × Parts)
parse_parts m drive path = elim (pathparser_parse_path_part m none path no_parts) [
  | none ↦ none
  | some (first_part, stop, parts) ↦ elim first_part [
    | none ↦ some (record { drive_number = drive; first = none }, parts)
    | some p ↦ elim (parse_rest max_path m p stop parts) [
      | none ↦ none
      | some parts' ↦ some (record { drive_number = drive; first = some p }, parts')
    ]
  ]
]

-- A null pointer for a path that is too long or has no drive. A text that `strlen` does not end in
-- `max_path + 1` rounds is too long.
unfoldable pub pathparser_parse : Mem → ℕ → Option (PathRoot × Parts)
pathparser_parse m path = elim (strlen (max_path + 1) m path) [
  | none ↦ none
  | some len ↦ if ltb max_path len then none else elim (pathparser_extract_drive_by_path m path) [
    | none ↦ none
    | some (drive, rest) ↦ parse_parts m drive rest
  ]
]
