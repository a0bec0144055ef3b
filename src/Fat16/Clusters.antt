-- ===== src/Fat16/Clusters.antt =====
-- fat16.c from `fat16_get_fat_entry` to `fat16_read_internal`: a file's bytes along its clusters.
-- A stream read has fuel for its length. `none` means that fuel ran out.
use own_kernel.Prelude.{
  ℕ, zero, suc, ◌+◌, ◌-◌, ◌*◌, ◌/◌, ◌%◌, ◌^◌, Bool, false, ◌||◌, not, Option, none, some, ◌==◌, ltb,
  if◌then◌else◌,
}
use own_kernel.Prelude.Int.{ℤ, pos, negsuc, is_err, is_ok, io_error}
use own_kernel.Memory.{word_at, Mem}
use own_kernel.Disk.{Device, sector_size}
use own_kernel.Disk.Streamer.{disk_stream_seek, disk_stream_read}
use own_kernel.Fat16.{
  to_word, of_word, FatPrivate, fat16_get_first_fat_sector, fat16_cluster_to_sector,
}

-- The position is a product of two positions, of 32 bits.
unfoldable pub fat_entry_position : FatPrivate → ℕ → ℕ
fat_entry_position private_data cluster =
    fat16_get_first_fat_sector private_data * sector_size % 2 ^ 32 * (cluster * 2 % 2 ^ 32) % 2 ^ 32

unfoldable pub fat16_get_fat_entry : Device → FatPrivate → ℕ → Option (ℤ × FatPrivate)
fat16_get_fat_entry device private_data cluster =
    let (res, sought) =
      disk_stream_seek private_data.fat_read_stream (fat_entry_position private_data cluster) in
    elim (disk_stream_read device 3 sought 0 2 (λ _. 0)) [
      | none ↦ none
      | some (res', stream, result) ↦ some (
        if is_err res' then res' else pos (word_at result 0),
        record private_data { fat_read_stream = stream },
      )
    ]

-- The entries at which the loop gives up.
abbrev pub ends_chain : ℤ → Bool
ends_chain (pos entry) =
    entry == 0xFF8
    || (entry == 0xFFF || (entry == 0xF77 || (entry == 0xFF0 || (entry == 0xFF6 || entry == 0))))
ends_chain (negsuc n) = false

-- The loop with `n` rounds left. An entry that is negative is followed like any other.
unfoldable pub cluster_loop : Device → (n : ℕ) → FatPrivate → ℕ → Option (ℤ × FatPrivate)
cluster_loop device zero private_data cluster = some (of_word cluster, private_data)
cluster_loop device (suc n) private_data cluster =
    elim (fat16_get_fat_entry device private_data cluster) [
      | none ↦ none
      | some (entry, private_data') ↦
          let rest = cluster_loop device n private_data' (to_word entry) in
          if ends_chain entry then some (io_error, private_data') else rest
    ]

abbrev pub cluster_bytes : FatPrivate → ℕ
cluster_bytes private_data = private_data.header.sectors_per_cluster * sector_size

unfoldable pub fat16_get_cluster_for_offset :
    Device → FatPrivate → (starting_cluster offset : ℕ) → Option (ℤ × FatPrivate)
fat16_get_cluster_for_offset device private_data starting_cluster offset =
    cluster_loop device (offset / cluster_bytes private_data) private_data starting_cluster

-- `starting_pos`
unfoldable pub position_in_cluster : FatPrivate → (cluster offset : ℕ) → ℕ
position_in_cluster private_data cluster offset =
    (fat16_cluster_to_sector private_data cluster * sector_size
      + offset % cluster_bytes private_data)
    % 2 ^ 32

abbrev pub part_size : FatPrivate → ℕ → ℕ
part_size private_data total =
    if ltb (cluster_bytes private_data) total then cluster_bytes private_data else total

-- One call of `fat16_read_internal_from_stream` up to its own call: seek and read, on the stream for
-- clusters, which is the one that is passed.
unfoldable pub read_part :
    Device
    → FatPrivate
    → (cluster_to_use offset total out : ℕ) → Mem
    → Option (ℤ × FatPrivate × Mem)
read_part device private_data cluster_to_use offset total out m =
    let (res, sought) =
      disk_stream_seek private_data.cluster_read_stream
        (position_in_cluster private_data cluster_to_use offset) in
    elim (disk_stream_read device (part_size private_data total + 1) sought out
      (part_size private_data total) m) [
        | none ↦ none
        | some (res', stream, m') ↦
            some (res', record private_data { cluster_read_stream = stream }, m')
      ]

unfoldable pub fat16_read_internal_from_stream :
    Device
    → (fuel : ℕ) → FatPrivate
    → (cluster offset total out : ℕ) → Mem
    → Option (ℤ × FatPrivate × Mem)
fat16_read_internal_from_stream device zero private_data cluster offset total out m = none
fat16_read_internal_from_stream device (suc fuel) private_data cluster offset total out m =
    elim (fat16_get_cluster_for_offset device private_data cluster offset) [
      | none ↦ none
      | some (found, sought) ↦
          let after = read_part device sought (to_word found) offset total out m in
          if is_err found then some (found, sought, m) else elim after [
            | none ↦ none
            | some (res, private_data', m') ↦
                let n : ℕ = part_size private_data total in
                let rest =
                  fat16_read_internal_from_stream device fuel private_data' cluster (offset + n)
                    (total - n) (out + n) m' in
                if not (is_ok res)
                then some (res, private_data', m')
                else if total - n == 0
                then some (res, private_data', m')
                else rest
          ]
    ]

unfoldable pub fat16_read_internal :
    Device
    → (fuel : ℕ) → FatPrivate
    → (starting_cluster offset total out : ℕ) → Mem
    → Option (ℤ × FatPrivate × Mem)
fat16_read_internal device fuel private_data starting_cluster offset total out m =
    fat16_read_internal_from_stream device fuel private_data starting_cluster offset total out m
