-- ===== src/Stdlib/Tokens.antt =====
-- programs/stdlib/src/string.c, `is_delim` and `strtok`, and src/os.c, `os_parse_command` and
-- `os_system_run`. Loops that end only at the 0 of a text run on fuel, and `none` means that it ran
-- out.
pub mod Words
use own_kernel.Prelude.{
  ℕ, zero, suc, ◌+◌, ◌*◌, Bool, true, false, ◌&&◌, not, Option, none, some, List, [], ◌∷◌, ◌==◌,
  leb, if◌then◌else◌, update,
}
use own_kernel.Prelude.Int.{ℤ, negsuc}
use own_kernel.Memory.{Mem, put_long}
use own_kernel.Strings.{strncpy}

unfoldable pub is_delim : (fuel : ℕ) → Mem → (c delim : ℕ) → Option Bool
is_delim zero m c delim = none
is_delim (suc fuel) m c delim =
    let rest = is_delim fuel m c (delim + 1) in
    if m delim == 0 then some false else if c == m delim then some true else rest

-- The first loop: where it ends, and 0 at the end of the text.
unfoldable pub skip_delims : (fuel : ℕ) → Mem → (string delim : ℕ) → Option ℕ
skip_delims zero m string delim = none
skip_delims (suc fuel) m string delim = elim (is_delim fuel m (m string) delim) [
  | none ↦ none
  | some found ↦
      let rest = skip_delims fuel m (string + 1) delim in
      if found then rest else if m string == 0 then some 0 else some string
]

-- The second loop: the new start of the next search, and the memory.
unfoldable pub end_token : (fuel : ℕ) → Mem → (string delim : ℕ) → Option (ℕ × Mem)
end_token zero m string delim = none
end_token (suc fuel) m string delim = elim (is_delim fuel m (m string) delim) [
  | none ↦ none
  | some found ↦
      let rest = end_token fuel m (string + 1) delim in
      if m string == 0
      then some (string, m)
      else if found
      then some (string + 1, update m string 0)
      else rest
]

-- `backup_string`, and memory
pub record Tokens : Type 0 where
  pub backup_string : ℕ
  pub memory : Mem

-- From the string that is not null.
unfoldable pub strtok_from : (fuel string delim : ℕ) → Tokens → Option (ℕ × Tokens)
strtok_from fuel string delim s = elim (skip_delims fuel s.memory string delim) [
  | none ↦ none
  | some start ↦
      let ended = elim (end_token fuel s.memory start delim) as (λ _. Option (ℕ × Tokens)) [
        | none ↦ none
        | some (next, memory) ↦ some (start, record { backup_string = next; memory = memory })
      ] in
      if start == 0 then some (0, s) else ended
]

unfoldable pub strtok : (fuel string delim : ℕ) → Tokens → Option (ℕ × Tokens)
strtok fuel string delim s =
    let start : ℕ = if string == 0 then s.backup_string else string in
    let tokens = strtok_from fuel start delim s in if start == 0 then some (0, s) else tokens

-- The size of `argument`, behind which the pointer `next` stands, and of the local `scommand`.
abbrev pub argument_size : ℕ
argument_size = 512

abbrev pub scommand_size : ℕ
scommand_size = 1025

-- The fields of the argument that was allocated at `command`.
abbrev pub put_argument : (command token : ℕ) → Tokens → Tokens
put_argument command token s = record s {
  memory = put_long (command + argument_size) 0 (strncpy command token argument_size s.memory);
}

-- The loop at the token `token`. What `os_malloc` gives, a system call, is a list of addresses, one
-- for each call.
unfoldable pub parse_loop :
    (fuel delim : ℕ) → (blocks : List ℕ) → (current token : ℕ) → Tokens → Option Tokens
parse_loop zero delim blocks current token s = none
parse_loop (suc fuel) delim [] current token s = if token == 0 then some s else none
parse_loop (suc fuel) delim (new_command ∷ blocks) current token s =
    let stored : Tokens = put_argument new_command token s in
    let linked : Tokens = record stored {
      memory = put_long (current + argument_size) new_command stored.memory;
    } in
    let rest = elim (strtok (suc fuel) 0 delim linked) as (λ _. Option Tokens) [
      | none ↦ none
      | some (token', s') ↦ parse_loop fuel delim blocks new_command token' s'
    ] in
    if token == 0 then some s else if new_command == 0 then some s else rest

-- The call behind the first token.
unfoldable pub parse_first :
    (fuel delim : ℕ)
    → (root_command : ℕ) → (blocks : List ℕ) → (token : ℕ) → Tokens
    → Option (ℕ × Tokens)
parse_first fuel delim root_command blocks token s =
    elim (strtok fuel 0 delim (put_argument root_command token s)) [
      | none ↦ none
      | some (token', s') ↦ elim (parse_loop fuel delim blocks root_command token' s') [
        | none ↦ none
        | some s'' ↦ some (root_command, s'')
      ]
    ]

-- `scommand` and `delim` are the addresses of the local copy and of the text " ". The result is the
-- list's root, or null.
unfoldable pub os_parse_command :
    (fuel scommand delim : ℕ) → (blocks : List ℕ) → (command max : ℕ) → Tokens → Option (ℕ × Tokens)
os_parse_command fuel scommand delim blocks command max s =
    let copied : Tokens = record s { memory = strncpy scommand command scommand_size s.memory } in
    let parsed = elim (strtok fuel scommand delim copied) as (λ _. Option (ℕ × Tokens)) [
      | none ↦ none
      | some (token, s') ↦
          let first = elim blocks as (λ _. Option (ℕ × Tokens)) [
            | [] ↦ none
            | root_command ∷ rest ↦
                let list = parse_first fuel delim root_command rest token s' in
                if root_command == 0 then some (0, s') else list
          ] in
          if token == 0 then some (0, s') else first
    ] in
    if leb scommand_size max then some (0, s) else parsed

abbrev pub buff_size : ℕ
buff_size = 1024

-- `buff` is the address of the local copy. `os_system`, a system call, gets the list's root; -1 is
-- the result where the command is not parsed.
unfoldable pub os_system_run :
    (os_system : ℕ → Tokens → ℤ × Tokens)
    → (fuel buff scommand delim : ℕ) → (blocks : List ℕ) → (command : ℕ) → Tokens
    → Option (ℤ × Tokens)
os_system_run os_system fuel buff scommand delim blocks command s =
    let copied : Tokens = record s { memory = strncpy buff command buff_size s.memory } in
    elim (os_parse_command fuel scommand delim blocks buff buff_size copied) [
      | none ↦ none
      | some (root, parsed) ↦
          let run = os_system root parsed in if root == 0 then some (negsuc 0, parsed) else some run
    ]
