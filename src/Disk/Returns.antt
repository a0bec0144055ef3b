-- ===== src/Disk/Returns.antt =====
-- That a stream's read returns, whatever the drive gives.
use own_kernel.Prelude.{
  Bool, ℕ, zero, suc, ◌+◌, ◌-◌, ◌/◌, ◌%◌, ◌<◌, ◌≡◌, refl, true, false, if◌then◌else◌, Option, some,
  arith,
}
use own_kernel.Prelude.Int.{is_err}
use own_kernel.Memory.{Mem}
use own_kernel.Disk.{Device, sector_size, disk_read_block}
use own_kernel.Disk.Streamer.{Stream, overflows, first_part, copy_out, disk_stream_read}

abbrev pub Returns {ℓ} : {A : Type ℓ} → Option A → Type ℓ
Returns {A} r = (a : A) × (r ≡ some a)

pub Returns-if {ℓ} :
    {A : Type ℓ} {x y : Option A} (b : Bool)
    → (b ≡ true → Returns x)
    → (b ≡ false → Returns y)
    → Returns (if b then x else y)
Returns-if true first second = first refl
Returns-if false first second = second refl

-- The part that is read when more than the sector's rest is asked for leaves less to read.
first_part-shorter :
    (position total : ℕ)
    → overflows (position % sector_size) total ≡ true
    → total - first_part (position % sector_size) total < total
first_part-shorter position total more = ground arith

pub disk_stream_read-Returns :
    (device : Device) (fuel : ℕ) (stream : Stream) (out total : ℕ) (m : Mem)
    → total < fuel
    → Returns (disk_stream_read device fuel stream out total m)
unfolding disk_stream_read
disk_stream_read-Returns device zero stream out total m enough = absurd (omega arith)
disk_stream_read-Returns device (suc fuel) stream out total m enough =
    let offset : ℕ = stream.position % sector_size in
    let n : ℕ = first_part offset total in
    let block = disk_read_block device stream.disk (stream.position / sector_size) 1 0 (λ _. 0) in
    let moved : Stream = record stream { position = stream.position + n } in
    Returns-if (is_err block.0) (λ failed. (_, refl))
      (λ read.
        Returns-if (overflows offset total)
          (λ more.
            let shorter = first_part-shorter stream.position total more in
            disk_stream_read-Returns device fuel moved (out + n) (total - n)
              (copy_out block.1 n offset out m) (omega arith))
          (λ last. (_, refl)))
