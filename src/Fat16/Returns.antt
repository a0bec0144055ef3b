-- ===== src/Fat16/Returns.antt =====
-- That a read along a chain returns, whatever the drive gives and wherever the chain leads.
use own_kernel.Prelude.{
  ap, ◌∙◌, ℕ, zero, suc, ◌+◌, ◌-◌, ◌*◌, ◌/◌, ◌<◌, ◌≡◌, refl, true, false, Bool, Option, some, arith,
  not, ◌==◌, if◌then◌else◌,
}
use own_kernel.Prelude.Int.{ℤ, pos, is_err, is_ok, io_error}
use own_kernel.Memory.{word_at, Mem}
use own_kernel.Disk.{sector_size, Device}
use own_kernel.Disk.Streamer.{disk_stream_seek}
use own_kernel.Disk.Returns.{Returns, Returns-if, disk_stream_read-Returns}
use own_kernel.Fat16.{pos, FatPrivate, to_word}
use own_kernel.Fat16.Clusters.{
  fat_entry_position, fat16_get_fat_entry, ends_chain, cluster_loop, cluster_bytes,
  fat16_get_cluster_for_offset, position_in_cluster, part_size, read_part,
  fat16_read_internal_from_stream, fat16_read_internal,
}

-- A result with the header of the file system's data unchanged.
abbrev KeepsHeader : FatPrivate → Option (ℤ × FatPrivate) → Type 0
KeepsHeader p r = (a : ℤ × FatPrivate) × (r ≡ some a) × (a.1.header ≡ p.header)

KeepsHeader-if :
    (p : FatPrivate) {x y : Option (ℤ × FatPrivate)} (b : Bool)
    → KeepsHeader p x
    → KeepsHeader p y
    → KeepsHeader p (if b then x else y)
KeepsHeader-if p true first second = first
KeepsHeader-if p false first second = second

fat16_get_fat_entry-KeepsHeader :
    (device : Device) (p : FatPrivate) (cluster : ℕ)
    → KeepsHeader p (fat16_get_fat_entry device p cluster)
unfolding fat16_get_fat_entry disk_stream_seek
fat16_get_fat_entry-KeepsHeader device p cluster =
    let ((res', moved, result), e) =
      disk_stream_read-Returns device 3
        (record p.fat_read_stream { position = fat_entry_position p cluster }) 0 2 (λ _. 0)
        (omega arith) in
    (
      (if is_err res' then res' else pos (word_at result 0), record p { fat_read_stream = moved }),
      rw (e, fat16_get_fat_entry) refl,
      refl,
    )

cluster_loop-KeepsHeader :
    (device : Device) (n : ℕ) (p : FatPrivate) (cluster : ℕ)
    → KeepsHeader p (cluster_loop device n p cluster)
unfolding cluster_loop
cluster_loop-KeepsHeader device zero p cluster = (_, refl, refl)
cluster_loop-KeepsHeader device (suc n) p cluster =
    let ((entry, p'), e, same) = fat16_get_fat_entry-KeepsHeader device p cluster in
    let ((found, p''), e', same') = cluster_loop-KeepsHeader device n p' (to_word entry) in
    rw (e, cluster_loop)
      (KeepsHeader-if p (ends_chain entry) ((io_error, p'), refl, same)
        ((found, p''), e', same' ∙ same))

read_part-Returns :
    (device : Device) (p : FatPrivate) (cluster offset total out : ℕ) (m : Mem)
    → (a : ℤ × FatPrivate × Mem) × (read_part device p cluster offset total out m ≡ some a)
      × (a.1.header ≡ p.header)
unfolding read_part disk_stream_seek
read_part-Returns device p cluster offset total out m =
    let ((res', moved, m'), e) =
      disk_stream_read-Returns device (part_size p total + 1)
        (record p.cluster_read_stream { position = position_in_cluster p cluster offset }) out
        (part_size p total) m (omega arith) in
    ((res', record p { cluster_read_stream = moved }, m'), rw (e, read_part) refl, refl)

fat16_read_internal_from_stream-Returns :
    (device : Device) (fuel : ℕ) (p : FatPrivate) (cluster offset total out : ℕ) (m : Mem)
    → 0 < cluster_bytes p
    → total < fuel
    → Returns (fat16_read_internal_from_stream device fuel p cluster offset total out m)
unfolding fat16_read_internal_from_stream fat16_get_cluster_for_offset
fat16_read_internal_from_stream-Returns device zero p cluster offset total out m some_bytes enough =
    absurd (omega arith)
fat16_read_internal_from_stream-Returns device (suc fuel) p cluster offset total out m some_bytes
      enough =
    let ((found, p1), e, same) =
      cluster_loop-KeepsHeader device (offset / cluster_bytes p) p cluster in
    let ((res, p2, m2), e', same') =
      read_part-Returns device p1 (to_word found) offset total out m in
    let n : ℕ = part_size p total in
    let bytes : cluster_bytes p2 ≡ cluster_bytes p =
      ap (λ h. h.sectors_per_cluster * sector_size) (same' ∙ same) in
    rw (e, fat16_read_internal_from_stream)
      (Returns-if (is_err found) (λ failed. (_, refl))
        (λ ok. rw e' (
          Returns-if (not (is_ok res)) (λ failed. (_, refl))
            (λ read.
              Returns-if (total - n == 0) (λ done. (_, refl))
                (λ left.
                  fat16_read_internal_from_stream-Returns device fuel p2 cluster (offset + n)
                    (total - n) (out + n) m2 (omega arith) (ground arith))))))

pub fat16_read_internal-Returns :
    (device : Device) (fuel : ℕ) (p : FatPrivate) (starting_cluster offset total out : ℕ) (m : Mem)
    → 0 < cluster_bytes p
    → total < fuel
    → Returns (fat16_read_internal device fuel p starting_cluster offset total out m)
unfolding fat16_read_internal
fat16_read_internal-Returns = fat16_read_internal_from_stream-Returns
