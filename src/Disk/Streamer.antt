-- ===== src/Disk/Streamer.antt =====
-- src/disk/streamer.c: byte streams over the disk. The 512-byte buffer of a call is a memory of its
-- own, at address 0.
use own_kernel.Prelude.{
  ℕ, zero, suc, ◌+◌, ◌-◌, ◌/◌, ◌%◌, Bool, Option, none, some, ltb, if◌then◌else◌, update,
}
use own_kernel.Prelude.Int.{ℤ, pos, is_err}
use own_kernel.Memory.{Mem}
use own_kernel.Disk.{sector_size, Device, DiskPointer, disk_get, disk_read_block}

-- A position is an `int` that is not negative.
pub record Stream : Type 0 where
  pub position : ℕ
  pub disk : DiskPointer

-- The stream is allocated by `kernel_zalloc`, taken to succeed.
unfoldable pub disk_stream_new : ℕ → Option Stream
disk_stream_new disk_id = elim (disk_get disk_id) [
  | none ↦ none
  | some disk ↦ some (record { position = 0; disk = disk })
]

unfoldable pub disk_stream_seek : Stream → ℕ → ℤ × Stream
disk_stream_seek stream position = (pos 0, record stream { position = position })

-- `*(char*)out++ = buffer[offset + i]`, with `n` bytes left
unfoldable pub copy_out : (buffer : Mem) (n from out : ℕ) → Mem → Mem
copy_out buffer zero from out m = m
copy_out buffer (suc n) from out m =
    copy_out buffer n (from + 1) (out + 1) (update m out (buffer from))

abbrev pub overflows : (offset total : ℕ) → Bool
overflows offset total = ltb sector_size (offset + total)

-- `total_to_read`
abbrev pub first_part : (offset total : ℕ) → ℕ
first_part offset total =
    if overflows offset total then total - (offset + total - sector_size) else total

-- `none` means that the fuel ran out.
unfoldable pub disk_stream_read :
    Device → (fuel : ℕ) → Stream → (out total : ℕ) → Mem → Option (ℤ × Stream × Mem)
disk_stream_read device zero stream out total m = none
disk_stream_read device (suc fuel) stream out total m =
    let offset : ℕ = stream.position % sector_size in
    let n : ℕ = first_part offset total in
    let (res, buffer) =
      disk_read_block device stream.disk (stream.position / sector_size) 1 0 (λ _. 0) in
    let moved : Stream = record stream { position = stream.position + n } in
    let copied : Mem = copy_out buffer n offset out m in
    let rest = disk_stream_read device fuel moved (out + n) (total - n) copied in
    if is_err res
    then some (res, stream, m)
    else if overflows offset total
    then rest
    else some (res, moved, copied)
