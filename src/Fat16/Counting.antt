-- ===== src/Fat16/Counting.antt =====
-- The count of a directory's items.
use own_kernel.Prelude.{
  ℕ, zero, suc, ◌+◌, ◌*◌, ◌%◌, ◌^◌, ◌<◌, ◌≡◌, ◌≢◌, refl, ◌∙◌, ap, false, some, arith, ◌==◌,
  if◌then◌else◌,
}
use own_kernel.Prelude.Int.{pos}
use own_kernel.Memory.{Mem}
use own_kernel.Disk.{Device, the_disk, sector_size}
use own_kernel.Disk.Streamer.{Stream, disk_stream_seek, disk_stream_read}
use own_kernel.Disk.Image.{Holds, disk_stream_read-image}
use own_kernel.Fat16.{FatPrivate, item_size}
use own_kernel.Fat16.Directory.{total_items_loop, fat16_get_total_items_for_directory}

-- Of the `n` items from `start` on, those that are not marked as deleted.
abbrev pub live : (ℕ → ℕ) → (start n : ℕ) → ℕ
live image start zero = 0
live image start (suc n) = (if image start == 0xE5 then 0 else 1) + live image (start + item_size) n

-- The directory at `start` has `n` items before the first whose name starts with 0.
pub record IsDirectory (image : ℕ → ℕ) (start n : ℕ) : Type 0 where
  pub used : (j : ℕ) → j < n → image (start + item_size * j) ≢ 0
  pub last : image (start + item_size * n) ≡ 0
  pub on_disk : start + item_size * (n + 1) < 2 ^ 31

IsDirectory-tail :
    (image : ℕ → ℕ) (start n : ℕ)
    → IsDirectory image start (suc n)
    → IsDirectory image (start + item_size) n
IsDirectory-tail image start n directory = record {
  used = λ j bound e. directory.used (suc j) (omega arith) (ap image (omega arith) ∙ e);
  last = ap image (omega arith) ∙ directory.last;
  on_disk = omega (arith, directory.on_disk);
}

loop-last :
    (device : Device) (fuel i : ℕ) (stream stream' : Stream) (m : Mem)
    → disk_stream_read device (item_size + 1) stream 0 item_size (λ _. 0) ≡ some (pos 0, stream', m)
    → m 0 ≡ 0
    → total_items_loop device (suc fuel) stream i ≡ some (pos i, stream')
unfolding total_items_loop
loop-last device fuel i stream stream' m e at = rw (e, total_items_loop, at) refl

loop-next :
    (device : Device) (fuel i : ℕ) (stream stream' : Stream) (m : Mem)
    → disk_stream_read device (item_size + 1) stream 0 item_size (λ _. 0) ≡ some (pos 0, stream', m)
    → (m 0 == 0) ≡ false
    → total_items_loop device (suc fuel) stream i
      ≡ total_items_loop device fuel stream' (if m 0 == 0xE5 then i else i + 1)
unfolding total_items_loop
loop-next device fuel i stream stream' m e at = rw (e, total_items_loop, at) refl

add_one :
    (b : ℕ) (i k : ℕ)
    → (if b == 0xE5 then i else i + 1) + k ≡ i + ((if b == 0xE5 then 0 else 1) + k)
add_one b i k = ground arith

module _ {device : Device} {image : ℕ → ℕ} (drive : Holds device image) where
  total_items_loop-live :
      (fuel n i : ℕ) (stream : Stream)
      → stream.disk ≡ the_disk
      → IsDirectory image stream.position n
      → n < fuel
      → (stream' : Stream) × (stream'.disk ≡ the_disk)
        × (total_items_loop device fuel stream i
            ≡ some (pos (i + live image stream.position n), stream'))
  total_items_loop-live zero n i stream disk directory enough = absurd (omega arith)
  total_items_loop-live (suc fuel) zero i stream disk directory enough =
      let (m', e, get) =
        disk_stream_read-image 33 stream 0 32 (λ _. 0) drive disk (omega (arith, directory.on_disk))
          (omega arith) in
      let moved : Stream = record stream { position = stream.position + 32 } in
      let at : m' 0 ≡ 0 = get 0 ∙ (ap image (omega arith) ∙ directory.last) in
      let total : i ≡ i + 0 = omega arith in
      (
        moved,
        disk,
        loop-last device fuel i stream moved m' e at ∙ ap (λ t. some (pos t, moved)) total,
      )
  total_items_loop-live (suc fuel) (suc n) i stream disk directory enough =
      let (m', e, get) =
        disk_stream_read-image 33 stream 0 32 (λ _. 0) drive disk (omega (arith, directory.on_disk))
          (omega arith) in
      let moved : Stream = record stream { position = stream.position + 32 } in
      let first : m' 0 ≡ image stream.position = get 0 ∙ ap image (omega arith) in
      let more : (m' 0 == 0) ≡ false = ground (
        arith,
        first,
        directory.used 0 (omega arith),
        ap image {x = stream.position + 32 * 0} {y = stream.position},
      ) in
      let (stream', disk', rest) =
        total_items_loop-live fuel n (if m' 0 == 0xE5 then i else i + 1) moved disk
          (IsDirectory-tail image stream.position n directory) (omega arith) in
      let total = add_one (m' 0) i (live image (stream.position + 32) n) in
      let same =
        ap (λ b. i + ((if b == 0xE5 then 0 else 1) + live image (stream.position + 32) n)) first in
      (
        stream',
        disk',
        loop-next device fuel i stream moved m' e more
            ∙ (rest ∙ ap (λ t. some (pos t, stream')) (total ∙ same)),
      )

  -- The items before the first whose name starts with 0 are counted, those left out that are marked
  -- as deleted.
  pub fat16_get_total_items_for_directory-live :
      (fuel n sector : ℕ) (p : FatPrivate)
      → p.directory_stream.disk ≡ the_disk
      → IsDirectory image (sector * sector_size) n
      → n < fuel
      → (stream' : Stream) × (stream'.disk ≡ the_disk)
        × (fat16_get_total_items_for_directory device fuel p sector
            ≡ some (
              pos (live image (sector * sector_size) n),
              record p { directory_stream = stream' },
            ))
  unfolding fat16_get_total_items_for_directory disk_stream_seek
  fat16_get_total_items_for_directory-live fuel n sector p disk directory enough =
      let at : sector * sector_size % 2 ^ 32 ≡ sector * sector_size =
        omega (arith, directory.on_disk) in
      let (stream', disk', e) =
        total_items_loop-live fuel n 0
          (record p.directory_stream { position = sector * sector_size }) disk directory enough in
      (
        stream',
        disk',
        rw (at, fat16_get_total_items_for_directory, e)
            (ap (λ t. some (pos t, record p { directory_stream = stream' })) (omega arith)),
      )
