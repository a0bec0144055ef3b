-- ===== src/Gdt/Fields.antt =====
-- What the processor reads from an encoded descriptor.
use own_kernel.Prelude.{
  ◌⊎◌, ℕ, ◌+◌, ◌*◌, ◌/◌, ◌%◌, ◌^◌, ◌≤◌, ◌<◌, ◌≡◌, ◌≢◌, refl, true, Bool-cases, inl, inr, none, some,
  arith, ltb, ◌==◌, if◌then◌else◌, bit_and,
}
use own_kernel.Prelude.Bits.{bit_and-low_mask, bit_or-low_field}
use own_kernel.Gdt.{GdtStructured, Gdt, large, encode_bytes, encode_gdt_entry}

-- The base address of a descriptor.
abbrev pub base : Gdt → ℕ
base g = g.b2 + 2 ^ 8 * g.b3 + 2 ^ 16 * g.b4 + 2 ^ 24 * g.b7

-- The last offset in the segment: with the granularity bit the field counts pages.
abbrev pub limit_field : Gdt → ℕ
limit_field g = g.b0 + 2 ^ 8 * g.b1 + 2 ^ 16 * (g.b6 % 16)

abbrev pub limit : Gdt → ℕ
limit g = if ltb g.b6 128 then limit_field g else limit_field g * 2 ^ 12 + 0xFFF

-- The segment that is asked for is the one that the processor sees.
pub record Encodes (source : GdtStructured) (g : Gdt) : Type 0 where
  pub base_kept : base g ≡ source.base
  pub limit_kept : limit g ≡ source.limit
  pub type_kept : g.b5 ≡ source.type

bytes-base :
    (granularity n : ℕ) (source : GdtStructured)
    → source.base < 2 ^ 32
    → base (encode_bytes granularity n source) ≡ source.base
bytes-base granularity n source small = omega (
  arith,
  bit_and-low_mask 8 source.base,
  bit_and-low_mask 8 (source.base / 2 ^ 8),
  bit_and-low_mask 8 (source.base / 2 ^ 16),
  bit_and-low_mask 8 (source.base / 2 ^ 24),
)

bytes-limit :
    (granularity n k : ℕ) (source : GdtStructured)
    → n < 2 ^ 20
    → granularity ≡ k * 2 ^ 4
    → (limit_field (encode_bytes granularity n source) ≡ n)
      × ((encode_bytes granularity n source).b6 ≡ granularity + n / 2 ^ 16)
bytes-limit granularity n k source small shape = rw shape (
    omega (
      arith,
      bit_and-low_mask 8 n,
      bit_and-low_mask 8 (n / 2 ^ 8),
      bit_and-low_mask 4 (n / 2 ^ 16),
      bit_or-low_field 4 k (bit_and (n / 2 ^ 16) 0x0F)
          (omega (arith, bit_and-low_mask 4 (n / 2 ^ 16))),
    ))

-- A segment with a base and a limit of 32 bits, whose limit is at most 65536 or ends at a page, is
-- encoded to a descriptor with the same base, limit and type.
pub encode_gdt_entry-Encodes :
    (source : GdtStructured)
    → source.base < 2 ^ 32
    → source.limit < 2 ^ 32
    → (source.limit ≤ 65536) ⊎ (source.limit % 2 ^ 12 ≡ 0xFFF)
    → (g : Gdt) × (encode_gdt_entry source ≡ some g) × Encodes source g
unfolding encode_gdt_entry
encode_gdt_entry-Encodes source base_small limit_small exact =
    let mask = bit_and-low_mask 12 source.limit in
    elim (Bool-cases (large source)) [
      | inl big ↦
          let pages : (bit_and source.limit 0xFFF == 0xFFF) ≡ true = ground (arith, mask) in
          let (field, flags) =
            bytes-limit 0xC0 (source.limit / 2 ^ 12) 0xC source (omega arith) refl in
          (
            encode_bytes 0xC0 (source.limit / 2 ^ 12) source,
            rw (big, pages) refl,
            record {
              base_kept = bytes-base 0xC0 (source.limit / 2 ^ 12) source base_small;
              limit_kept = ground (arith, field, flags);
              type_kept = refl;
            },
          )
      | inr small ↦
          let (field, flags) = bytes-limit 0x40 source.limit 0x4 source (ground arith) refl in
          (
            encode_bytes 0x40 source.limit source,
            rw small refl,
            record {
              base_kept = bytes-base 0x40 source.limit source base_small;
              limit_kept = ground (arith, field, flags);
              type_kept = refl;
            },
          )
    ]

pub encode_gdt_entry-panics :
    (source : GdtStructured)
    → 65536 < source.limit
    → source.limit % 2 ^ 12 ≢ 0xFFF
    → encode_gdt_entry source ≡ none
unfolding encode_gdt_entry
encode_gdt_entry-panics source big inexact = ground (arith, bit_and-low_mask 12 source.limit)
