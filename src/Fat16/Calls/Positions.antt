-- ===== src/Fat16/Calls/Positions.antt =====
-- What the calls on an open file do with its position, its size and its bytes.
use own_kernel.Prelude.{
  ℕ, zero, suc, ◌+◌, ◌*◌, ◌%◌, ◌^◌, ◌≤◌, ◌<◌, ◌≡◌, refl, ◌∙◌, ap, inl, inr, Bool-cases, true, false,
  some, arith, ◌==◌, leb,
}
use own_kernel.Prelude.Int.{ℤ, pos, all_ok, io_error, invalid_argument_error}
use own_kernel.Memory.{Mem}
use own_kernel.Disk.{Device, the_disk}
use own_kernel.Disk.Image.{Holds}
use own_kernel.Fat16.{FatPrivate, filesize_of, fat16_get_first_cluster}
use own_kernel.Fat16.Clusters.{cluster_bytes, fat16_read_internal}
use own_kernel.Fat16.Chain.{IsChain, with_streams}
use own_kernel.Fat16.Read.{IsRead, fat16_read_internal-IsRead}
use own_kernel.Fat16.Directory.{FatFs, FatItem, file_type}
use own_kernel.Fat16.Calls.{
  unimplemented_error, with_descriptor, read_loop, fat16_read, seek_to, fat16_seek,
}

abbrev pub item_of : FatFs → (descriptor : ℕ) → FatItem
item_of fs descriptor = fs.items (fs.descriptors descriptor).item

abbrev pub moved_to : FatFs → (descriptor position : ℕ) → FatFs
moved_to fs descriptor position =
    with_descriptor descriptor (record (fs.descriptors descriptor) { position = position }) fs

-- What a call of `fat16_seek` may come to.
pub data Seeks (fs : FatFs) (descriptor offset : ℕ) : (seek_mode : ℕ) → ℤ → FatFs → Type 0 where
  no_file :
      {seek_mode : ℕ}
      → ((item_of fs descriptor).item_type == file_type) ≡ false
      → Seeks fs descriptor offset seek_mode invalid_argument_error fs
  past_end :
      {seek_mode : ℕ}
      → filesize_of fs.memory (item_of fs descriptor).pointer ≤ offset
      → Seeks fs descriptor offset seek_mode io_error fs
  set :
      offset < filesize_of fs.memory (item_of fs descriptor).pointer
      → Seeks fs descriptor offset 0 all_ok (moved_to fs descriptor offset)
  forward :
      offset < filesize_of fs.memory (item_of fs descriptor).pointer
      → Seeks fs descriptor offset 1 all_ok
          (moved_to fs descriptor (((fs.descriptors descriptor).position + offset) % 2 ^ 32))
  from_end : Seeks fs descriptor offset 2 unimplemented_error fs
  no_mode :
      {seek_mode : ℕ}
      → 2 < seek_mode
      → Seeks fs descriptor offset seek_mode invalid_argument_error fs

seek_to-Seeks :
    (fs : FatFs) (descriptor offset seek_mode : ℕ)
    → offset < filesize_of fs.memory (item_of fs descriptor).pointer
    → Seeks fs descriptor offset seek_mode
        (seek_to descriptor offset seek_mode fs).0
        (seek_to descriptor offset seek_mode fs).1
unfolding seek_to
seek_to-Seeks fs descriptor offset zero inside = set inside
seek_to-Seeks fs descriptor offset (suc zero) inside = forward inside
seek_to-Seeks fs descriptor offset (suc (suc zero)) inside = from_end
seek_to-Seeks fs descriptor offset (suc (suc (suc n))) inside =
    let not_set : (suc (suc (suc n)) == 0) ≡ false = ground arith in
    let not_end : (suc (suc (suc n)) == 2) ≡ false = ground arith in
    let not_current : (suc (suc (suc n)) == 1) ≡ false = ground arith in
    rw (seek_to, not_set, not_end, not_current) (no_mode (omega arith))

-- A call of `fat16_seek` sets the position, to an offset within the file or that much further on, or
-- gives an error and changes nothing.
pub fat16_seek-Seeks :
    (fs : FatFs) (descriptor offset seek_mode : ℕ)
    → Seeks fs descriptor offset seek_mode
        (fat16_seek descriptor offset seek_mode fs).0
        (fat16_seek descriptor offset seek_mode fs).1
unfolding fat16_seek
fat16_seek-Seeks fs descriptor offset seek_mode =
    elim (Bool-cases ((item_of fs descriptor).item_type == file_type)) [
      | inr other ↦ rw other (no_file other)
      | inl is_file ↦
          elim (Bool-cases (leb (filesize_of fs.memory (item_of fs descriptor).pointer) offset)) [
            | inl past ↦ rw (is_file, past) (past_end (ground arith))
            | inr inside ↦
                rw (is_file, inside) (seek_to-Seeks fs descriptor offset seek_mode (ground arith))
          ]
    ]

-- An open file whose bytes stand in the first `n` clusters that the source goes through.
pub record IsOpen (image : ℕ → ℕ) (fs : FatFs) (descriptor : ℕ) (cluster : ℕ → ℕ) (n : ℕ)
    : Type 0 where
  pub is_file : (item_of fs descriptor).item_type ≡ file_type
  pub first_cluster : fat16_get_first_cluster fs.memory (item_of fs descriptor).pointer ≡ cluster 0
  pub chain : IsChain image fs.private_data cluster n
  pub cluster_stream : fs.private_data.cluster_read_stream.disk ≡ the_disk
  pub fat_stream : fs.private_data.fat_read_stream.disk ≡ the_disk
  pub some_bytes : 0 < cluster_bytes fs.private_data

read_of_internal :
    (device : Device) (descriptor size out_ptr cluster offset : ℕ) (fs : FatFs) (p : FatPrivate)
    (m : Mem)
    → fat16_get_first_cluster fs.memory (item_of fs descriptor).pointer ≡ cluster
    → (fs.descriptors descriptor).position ≡ offset
    → fat16_read_internal device (size + 1) fs.private_data cluster offset size out_ptr fs.memory
      ≡ some (pos 0, p, m)
    → fat16_read device descriptor size 1 out_ptr fs
      ≡ some (pos 1, record fs { private_data = p; memory = m })
unfolding fat16_read read_loop
read_of_internal device descriptor size out_ptr cluster offset fs p m first at e =
    rw (first, at, e, fat16_read) refl

-- A file that is read from a position at the start of its cluster `k`, as one item of `size` bytes:
-- the read gives 1, and the bytes are those of the file's clusters from `k` on.
pub fat16_read-IsRead :
    {device : Device} {image : ℕ → ℕ} {cluster : ℕ → ℕ} {n : ℕ} (fs : FatFs)
    (descriptor k size out_ptr : ℕ)
    → Holds device image
    → IsOpen image fs descriptor cluster n
    → (fs.descriptors descriptor).position ≡ k * cluster_bytes fs.private_data
    → 0 < size
    → k * cluster_bytes fs.private_data + size ≤ n * cluster_bytes fs.private_data
    → (fs' : FatFs) × (fat16_read device descriptor size 1 out_ptr fs ≡ some (pos 1, fs'))
      × IsRead image fs.private_data cluster k size out_ptr fs.memory fs'.memory
fat16_read-IsRead fs descriptor k size out_ptr drive file at some_size bound =
    let p = fs.private_data in
    let (c, f, m, e, is_read) =
      fat16_read_internal-IsRead drive p (size + 1) k size out_ptr p.cluster_read_stream
        p.fat_read_stream fs.memory file.chain file.cluster_stream file.fat_stream file.some_bytes
        some_size bound (omega arith) in
    (
      record fs { private_data = with_streams p c f; memory = m },
      read_of_internal _ descriptor size out_ptr _ _ fs (with_streams p c f) m file.first_cluster at
          e,
      is_read,
    )

moved-descriptor :
    (fs : FatFs) (descriptor position : ℕ)
    → (moved_to fs descriptor position).descriptors descriptor
      ≡ record (fs.descriptors descriptor) { position = position }
moved-descriptor fs descriptor position =
    let self : (descriptor == descriptor) ≡ true = ground arith in rw self refl

IsOpen-moved :
    {image : ℕ → ℕ} {cluster : ℕ → ℕ} {n : ℕ} (fs : FatFs) (descriptor position : ℕ)
    → IsOpen image fs descriptor cluster n
    → IsOpen image (moved_to fs descriptor position) descriptor cluster n
IsOpen-moved fs descriptor position file =
    let same = ap (λ d. fs.items d.item) (moved-descriptor fs descriptor position) in
    record {
      is_file = ap (λ i. i.item_type) same ∙ file.is_file;
      first_cluster =
          ap (λ i. fat16_get_first_cluster fs.memory i.pointer) same ∙ file.first_cluster;
      chain = file.chain;
      cluster_stream = file.cluster_stream;
      fat_stream = file.fat_stream;
      some_bytes = file.some_bytes;
    }

fat16_seek_inside :
    (fs : FatFs) (descriptor offset : ℕ)
    → (item_of fs descriptor).item_type ≡ file_type
    → offset < filesize_of fs.memory (item_of fs descriptor).pointer
    → fat16_seek descriptor offset 0 fs ≡ (all_ok, moved_to fs descriptor offset)
unfolding fat16_seek seek_to
fat16_seek_inside fs descriptor offset is_file inside =
    let some_type : ((item_of fs descriptor).item_type == file_type) ≡ true = ground arith in
    let not_past : leb (filesize_of fs.memory (item_of fs descriptor).pointer) offset ≡ false =
      ground arith in
    rw (some_type, not_past) refl

-- For an open file whose bytes stand in the clusters that the source goes through, linked by the
-- numbers at the product of the position of the table and of the offset of the entry, a seek to the
-- start of cluster `k` of them, within the size of the file, succeeds, and a read of one item from
-- there, within the clusters, gives 1, puts the bytes of the clusters from `k` on, in their order,
-- into memory and changes no other byte.
pub fat16_read-fat16_seek :
    {device : Device} {image : ℕ → ℕ} {cluster : ℕ → ℕ} {n : ℕ} (fs : FatFs)
    (descriptor k size out_ptr : ℕ)
    → Holds device image
    → IsOpen image fs descriptor cluster n
    → k * cluster_bytes fs.private_data < filesize_of fs.memory (item_of fs descriptor).pointer
    → 0 < size
    → k * cluster_bytes fs.private_data + size ≤ n * cluster_bytes fs.private_data
    → (fs1 : FatFs) × (fs2 : FatFs) × (fat16_seek descriptor
          (k * cluster_bytes fs.private_data)
          0
          fs
        ≡ (all_ok, fs1))
      × (fat16_read device descriptor size 1 out_ptr fs1 ≡ some (pos 1, fs2))
      × IsRead image fs.private_data cluster k size out_ptr fs.memory fs2.memory
fat16_read-fat16_seek fs descriptor k size out_ptr drive file inside some_size bound =
    let q : ℕ = k * cluster_bytes fs.private_data in
    let (fs2, e, is_read) =
      fat16_read-IsRead (moved_to fs descriptor q) descriptor k size out_ptr drive
        (IsOpen-moved fs descriptor q file)
        (ap (λ d. d.position) (moved-descriptor fs descriptor q)) some_size bound in
    (
      moved_to fs descriptor q,
      fs2,
      fat16_seek_inside fs descriptor q file.is_file inside,
      e,
      is_read,
    )
