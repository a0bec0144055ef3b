-- ===== src/Fat16/Names.antt =====
-- fat16.c, `fat16_to_proper_string` and `fat16_get_full_relative_filename`: an item's name as text.
-- `m` holds the item, and the text goes into a memory of its own. `none` means that fuel ran out.
pub mod Text
use own_kernel.Prelude.{
  ℕ, zero, suc, ◌+◌, ◌||◌, Bool, Option, none, some, ◌==◌, if◌then◌else◌, update, List, [], ◌∷◌,
}
use own_kernel.Memory.{Mem, memset}
use own_kernel.Fat16.{ext_at}

-- the bytes at which the loop ends
abbrev pub ends_name : ℕ → Bool
ends_name c = c == 0x00 || c == 0x20

-- The new value of `*out`, and the memory it points into.
unfoldable pub fat16_to_proper_string : (fuel : ℕ) → Mem → (out input : ℕ) → Mem → Option (ℕ × Mem)
fat16_to_proper_string zero m out input text = none
fat16_to_proper_string (suc fuel) m out input text =
    let rest = fat16_to_proper_string fuel m (out + 1) (input + 1) (update text out (m input)) in
    if ends_name (m input)
    then some (out, if m input == 0x20 then update text out 0x00 else text)
    else rest

unfoldable pub fat16_get_full_relative_filename :
    (fuel : ℕ) → Mem → (item out max_len : ℕ) → Mem → Option Mem
fat16_get_full_relative_filename fuel m item out max_len text =
    elim (fat16_to_proper_string fuel m out item (memset out 0x00 max_len text)) [
      | none ↦ none
      | some (out_tmp, text') ↦
          if ends_name (m (ext_at item))
          then some text'
          else elim (fat16_to_proper_string fuel m (out_tmp + 1) (ext_at item)
              (update text' out_tmp b'.')) [ none ↦ none | some (stop, text'') ↦ some text'' ]
    ]
