-- ===== src/Gdt.antt =====
-- src/gdt/gdt.c: segment descriptors in the processor's eight-byte form.
pub mod Fields
use own_kernel.Prelude.{
  Bool, ℕ, zero, suc, ◌+◌, ◌*◌, ◌/◌, ◌%◌, ◌^◌, ◌&&◌, not, Option, none, some, List, [], ◌∷◌, ltb,
  ◌==◌, if◌then◌else◌, bit_and, bit_or, update,
}

-- `struct gdt_structured`
pub record GdtStructured : Type 0 where
  pub base : ℕ
  pub limit : ℕ
  pub type : ℕ

-- `target`: the bytes of a `struct gdt`
pub record Gdt : Type 0 where
  pub b0 : ℕ
  pub b1 : ℕ
  pub b2 : ℕ
  pub b3 : ℕ
  pub b4 : ℕ
  pub b5 : ℕ
  pub b6 : ℕ
  pub b7 : ℕ

-- `target[6]` before the limit, and the limit that is encoded: in pages above 65536
abbrev pub large : GdtStructured → Bool
large source = ltb 65536 source.limit

abbrev pub encode_bytes : (granularity limit : ℕ) → GdtStructured → Gdt
encode_bytes granularity limit source = record {
  b0 = bit_and limit 0xFF;
  b1 = bit_and (limit / 2 ^ 8) 0xFF;
  b2 = bit_and source.base 0xFF;
  b3 = bit_and (source.base / 2 ^ 8) 0xFF;
  b4 = bit_and (source.base / 2 ^ 16) 0xFF;
  b5 = source.type;
  b6 = bit_or granularity (bit_and (limit / 2 ^ 16) 0x0F);
  b7 = bit_and (source.base / 2 ^ 24) 0xFF;
}

-- `none` is the call of `panic`, which does not return.
unfoldable pub encode_gdt_entry : GdtStructured → Option Gdt
encode_gdt_entry source =
    if large source && not (bit_and source.limit 0xFFF == 0xFFF)
    then none
    else some (
        if large source
        then encode_bytes 0xC0 (source.limit / 2 ^ 12) source
        else encode_bytes 0x40 source.limit source)

-- The entries in order, up to the first that panics.
unfoldable pub gdt_structured_to_gdt : List GdtStructured → Option (List Gdt)
gdt_structured_to_gdt [] = some []
gdt_structured_to_gdt (source ∷ rest) = elim (encode_gdt_entry source) [
  | none ↦ none
  | some entry ↦ elim (gdt_structured_to_gdt rest) [
    | none ↦ none
    | some entries ↦ some (entry ∷ entries)
  ]
]

-- The table of kernel.c; `tss` is the address of the task state segment, of 100 bytes.
unfoldable pub kernel_segments : (tss : ℕ) → List GdtStructured
kernel_segments tss =
    record { base = 0x00; limit = 0x00; type = 0x00 }
    ∷ record { base = 0x00; limit = 0xFFFFFFFF; type = 0x9A }
    ∷ record { base = 0x00; limit = 0xFFFFFFFF; type = 0x92 }
    ∷ record { base = 0x00; limit = 0xFFFFFFFF; type = 0xF8 }
    ∷ record { base = 0x00; limit = 0xFFFFFFFF; type = 0xF2 }
    ∷ record { base = tss; limit = 100; type = 0xE9 }
    ∷ []
