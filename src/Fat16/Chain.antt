-- ===== src/Fat16/Chain.antt =====
-- A chain of clusters on the disk, and how the code steps along it.
use native.Mathlib.Nat.{mul-mod_left, le-mul_of_pos_right, mul-le-mul_left, mul-le-mul_right}
use own_kernel.Prelude.{
  ◌≢◌, ℕ, zero, suc, ◌+◌, ◌-◌, ◌*◌, ◌%◌, ◌^◌, ◌≤◌, ◌<◌, ◌≡◌, refl, true, false, some, arith, ltb,
  ◌==◌, if◌then◌else◌,
}
use own_kernel.Prelude.Int.{pos}
use own_kernel.Memory.{word_at, Mem}
use own_kernel.Disk.{Device, the_disk, sector_size}
use own_kernel.Disk.Streamer.{Stream, disk_stream_seek, disk_stream_read}
use own_kernel.Disk.Image.{Holds, disk_stream_read-image}
use own_kernel.Fat16.{FatPrivate, fat16_get_first_fat_sector, fat16_cluster_to_sector}
use own_kernel.Fat16.Clusters.{
  fat_entry_position, fat16_get_fat_entry, ends_chain, cluster_loop, cluster_bytes,
  fat16_get_cluster_for_offset, position_in_cluster, part_size, read_part,
  fat16_read_internal_from_stream,
}

-- the file system's data while its streams move
abbrev pub with_streams : FatPrivate → Stream → Stream → FatPrivate
with_streams p c f = record p { cluster_read_stream = c; fat_read_stream = f }

-- Where the source looks for the entry of a cluster: at the product of the position of the table and
-- of the entry's offset in it. FAT16 has the entry at their sum, `fat16_place`.
abbrev pub entry_place : FatPrivate → ℕ → ℕ
entry_place p cluster = p.header.reserved_sectors * 512 * (cluster * 2)

abbrev pub fat16_place : FatPrivate → ℕ → ℕ
fat16_place p cluster = p.header.reserved_sectors * 512 + cluster * 2

-- the number that stands there, lower byte first
abbrev pub entry_of : (ℕ → ℕ) → FatPrivate → ℕ → ℕ
entry_of image p cluster = image (entry_place p cluster) + 256 * image (entry_place p cluster + 1)

-- None of the numbers at which the source gives up, which are not those of FAT16: its marks of the
-- end of a chain are from 0xFFF8 on, and are numbers like any other here.
abbrev pub IsPlain : ℕ → Type 0
IsPlain n = (n ≢ 0) × (n ≢ 0xFF0) × (n ≢ 0xFF6) × (n ≢ 0xF77) × (n ≢ 0xFF8) × (n ≢ 0xFFF)

-- the position of the first byte of a data cluster
abbrev pub cluster_position : FatPrivate → ℕ → ℕ
cluster_position p cluster =
    (p.root_directory.ending_sector_pos + (cluster - 2) * p.header.sectors_per_cluster)
    * sector_size

-- The `n` clusters that the source goes through from the first one on: data clusters on the disk, each
-- the number at the place of the one before, and none with a number at which the source gives up.
-- A single cluster has no entry that is looked at, and is a chain of FAT16 too.
pub record IsChain (image : ℕ → ℕ) (p : FatPrivate) (cluster : ℕ → ℕ) (n : ℕ) : Type 0 where
  pub link : (k : ℕ) → suc k < n → entry_of image p (cluster k) ≡ cluster (suc k)
  pub entry_on_disk : (k : ℕ) → suc k < n → entry_place p (cluster k) + 2 < 2 ^ 31
  pub plain : (k : ℕ) → k < n → IsPlain (cluster k)
  pub is_data : (k : ℕ) → k < n → (2 ≤ cluster k) × (cluster k < 2 ^ 16)
  pub on_disk : (k : ℕ) → k < n → cluster_position p (cluster k) + cluster_bytes p < 2 ^ 31

ends_chain-plain : (n : ℕ) → IsPlain n → ends_chain (pos n) ≡ false
ends_chain-plain n plain = ground (arith, plain)

fat_entry_position-place :
    (p : FatPrivate) (cluster : ℕ)
    → 2 ≤ cluster
    → cluster < 2 ^ 16
    → entry_place p cluster + 2 < 2 ^ 31
    → fat_entry_position p cluster ≡ entry_place p cluster
unfolding fat_entry_position fat16_get_first_fat_sector
fat_entry_position-place p cluster lo hi bound =
    let le =
      le-mul_of_pos_right {m = cluster * 2} (p.header.reserved_sectors * 512) (omega arith) in
    let table : p.header.reserved_sectors * 512 % 2 ^ 32 ≡ p.header.reserved_sectors * 512 =
      omega (arith, le) in
    let offset : cluster * 2 % 2 ^ 32 ≡ cluster * 2 = omega arith in
    rw (table, offset) (omega arith)

-- Both bytes of the FAT16 entry stand before the place.
fat16_place-before :
    (p : FatPrivate) (cluster : ℕ)
    → 0 < p.header.reserved_sectors
    → 2 ≤ cluster
    → fat16_place p cluster + 1 < entry_place p cluster
fat16_place-before p cluster some_sectors lo =
    let rows : 512 * (cluster * 2) ≤ entry_place p cluster =
      mul-le-mul_right (cluster * 2) (omega arith) in
    let columns : p.header.reserved_sectors * 512 * 4 ≤ entry_place p cluster =
      mul-le-mul_left (p.header.reserved_sectors * 512) (omega arith) in
    omega (arith, rows, columns)

-- A read that succeeds gives the entry.
get_fat_entry_of_read :
    (device : Device) (p : FatPrivate) (c f st : Stream) (cluster place : ℕ) (m : Mem)
    → fat_entry_position p cluster ≡ place
    → disk_stream_read device 3 (record f { position = place }) 0 2 (λ _. 0) ≡ some (pos 0, st, m)
    → fat16_get_fat_entry device (with_streams p c f) cluster
      ≡ some (pos (word_at m 0), with_streams p c st)
unfolding fat16_get_fat_entry disk_stream_seek fat_entry_position fat16_get_first_fat_sector
get_fat_entry_of_read device p c f st cluster place m at e =
    rw (at, fat16_get_fat_entry) (rw e refl)

module _ {device : Device} {image : ℕ → ℕ} (drive : Holds device image) (p : FatPrivate) where
  get_fat_entry-image :
      (c f : Stream) (cluster : ℕ)
      → f.disk ≡ the_disk
      → 2 ≤ cluster
      → cluster < 2 ^ 16
      → entry_place p cluster + 2 < 2 ^ 31
      → (f' : Stream) × (f'.disk ≡ the_disk)
        × (fat16_get_fat_entry device (with_streams p c f) cluster
            ≡ some (pos (entry_of image p cluster), with_streams p c f'))
  get_fat_entry-image c f cluster disk lo hi bound =
      let place = fat_entry_position-place p cluster lo hi bound in
      let sought : Stream = record f { position = entry_place p cluster } in
      let (m', e, get) =
        disk_stream_read-image 3 sought 0 2 (λ _. 0) drive disk bound (omega arith) in
      (
        record sought { position = entry_place p cluster + 2 },
        disk,
        rw
            (get_fat_entry_of_read device p c f
              (record sought { position = entry_place p cluster + 2 }) cluster
              (entry_place p cluster) m' place e)
            (ground (arith, get 0, get 1)),
      )

  -- With a drive that holds an image, at least one reserved sector and a data cluster whose place is on
  -- the disk, the entry that is got is the number at the product of the position of the table and the
  -- offset of the entry, and both bytes of the cluster's FAT16 entry, at the sum of the two, stand
  -- before it.
  pub fat16_get_fat_entry-misses :
      (c f : Stream) (cluster : ℕ)
      → f.disk ≡ the_disk
      → 0 < p.header.reserved_sectors
      → 2 ≤ cluster
      → cluster < 2 ^ 16
      → entry_place p cluster + 2 < 2 ^ 31
      → (f' : Stream) × (fat16_get_fat_entry device (with_streams p c f) cluster
          ≡ some (pos (entry_of image p cluster), with_streams p c f'))
        × (fat16_place p cluster + 1 < entry_place p cluster)
  fat16_get_fat_entry-misses c f cluster disk some_sectors lo hi bound =
      let (f', disk', e) = get_fat_entry-image c f cluster disk lo hi bound in
      (f', e, fat16_place-before p cluster some_sectors lo)

  pub cluster_loop-image :
      {cluster : ℕ → ℕ} {n : ℕ} (rounds k : ℕ) (c f : Stream)
      → IsChain image p cluster n
      → f.disk ≡ the_disk
      → k + rounds < n
      → (f' : Stream) × (f'.disk ≡ the_disk)
        × (cluster_loop device rounds (with_streams p c f) (cluster k)
            ≡ some (pos (cluster (k + rounds)), with_streams p c f'))
  unfolding cluster_loop
  cluster_loop-image {cluster} zero k c f chain disk bound =
      let e : k + 0 ≡ k = omega arith in
      let small : ltb (cluster k) (2 ^ 31) ≡ true = ground (arith, chain.is_data k) in
      (f, disk, rw (e, small) refl)
  cluster_loop-image {cluster} (suc rounds) k c f chain disk bound =
      let (f1, disk1, read) =
        get_fat_entry-image c f (cluster k) disk (chain.is_data k (omega arith)).0
          (chain.is_data k (omega arith)).1 (chain.entry_on_disk k (omega arith)) in
      let next : entry_of image p (cluster k) ≡ cluster (suc k) = chain.link k (omega arith) in
      let more : ends_chain (pos (cluster (suc k))) ≡ false =
        ends_chain-plain (cluster (suc k)) (chain.plain (suc k) (omega arith)) in
      let word : cluster (suc k) % 2 ^ 32 ≡ cluster (suc k) =
        omega (arith, chain.is_data (suc k) (omega arith)) in
      let (f2, disk2, rest) = cluster_loop-image rounds (suc k) c f1 chain disk1 (omega arith) in
      let e : k + suc rounds ≡ suc k + rounds = omega arith in
      (f2, disk2, rw (read, cluster_loop) (rw (next, more, word, e) rest))

pub position_in_cluster-eq :
    (p : FatPrivate) (c f : Stream) (cluster k : ℕ)
    → 2 ≤ cluster
    → cluster < 2 ^ 16
    → cluster_position p cluster + cluster_bytes p < 2 ^ 31
    → position_in_cluster (with_streams p c f) cluster (k * cluster_bytes p)
      ≡ cluster_position p cluster
unfolding position_in_cluster fat16_cluster_to_sector
position_in_cluster-eq p c f cluster k lo hi bound =
    let start : k * cluster_bytes p % cluster_bytes p ≡ 0 = mul-mod_left k (cluster_bytes p) in
    let number : (cluster + 2 ^ 32 - 2) % 2 ^ 32 ≡ cluster - 2 = omega arith in
    rw (start, number) (omega arith)

-- A part that is read is the first bytes of its cluster.
pub read_part_of_read :
    (device : Device) (p : FatPrivate) (c f st : Stream) (cluster offset total out position : ℕ)
    (m m' : Mem)
    → position_in_cluster (with_streams p c f) cluster offset ≡ position
    → disk_stream_read device
        (part_size p total + 1)
        (record c { position = position })
        out
        (part_size p total)
        m
      ≡ some (pos 0, st, m')
    → read_part device (with_streams p c f) cluster offset total out m
      ≡ some (pos 0, with_streams p st f, m')
unfolding read_part disk_stream_seek
read_part_of_read device p c f st cluster offset total out position m m' at e =
    rw (at, e, read_part) refl

pub read_step :
    (device : Device) (fuel : ℕ) (p p1 p2 : FatPrivate) (start cluster offset total out : ℕ)
    (m m1 : Mem)
    → cluster < 2 ^ 16
    → fat16_get_cluster_for_offset device p start offset ≡ some (pos cluster, p1)
    → read_part device p1 cluster offset total out m ≡ some (pos 0, p2, m1)
    → fat16_read_internal_from_stream device (suc fuel) p start offset total out m ≡ (
        if total - part_size p total == 0
        then some (pos 0, p2, m1)
        else fat16_read_internal_from_stream device fuel p2 start
            (offset + part_size p total)
            (total - part_size p total)
            (out + part_size p total)
            m1)
unfolding fat16_read_internal_from_stream
read_step device fuel p p1 p2 start cluster offset total out m m1 small found read =
    let word : cluster % 2 ^ 32 ≡ cluster = omega arith in
    rw (found, fat16_read_internal_from_stream, word, read) refl
