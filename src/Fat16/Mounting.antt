-- ===== src/Fat16/Mounting.antt =====
-- `fat16_resolve` on a drive that holds a FAT16 volume.
use own_kernel.Prelude.{
  ℕ, ◌+◌, ◌-◌, ◌*◌, ◌/◌, ◌^◌, ◌≤◌, ◌<◌, ◌≡◌, ◌≢◌, refl, ap, ◌∙◌, false, some, arith, ◌==◌,
}
use own_kernel.Prelude.Int.{pos, all_ok}
use own_kernel.Memory.{Mem, memset}
use own_kernel.Heap.{heap_malloc}
use own_kernel.Heap.Alloc.{blocks}
use own_kernel.Heap.Room.{HasFree, blocks_le, heap_malloc-HasFree}
use own_kernel.KernelHeap.{kernel_malloc, kernel_zalloc}
use own_kernel.Disk.{Device, the_disk, sector_size}
use own_kernel.Disk.Streamer.{Stream, disk_stream_seek, disk_stream_read}
use own_kernel.Disk.Image.{Holds, disk_stream_read-image}
use own_kernel.Fat16.{FatHeader, FatPrivate, header_at, header_size, fat16_sectore_to_absolute}
use own_kernel.Fat16.Counting.{live, IsDirectory, fat16_get_total_items_for_directory-live}
use own_kernel.Fat16.Directory.{
  FatFs, zalloc, no_directory, fat16_get_total_items_for_directory, root_dir_sector_pos,
  root_dir_size, load_root, fat16_get_root_directory, new_stream, private_size, fat16_init_private,
  resolve_header, resolve_out, fat16_resolve,
}

-- The sector of the root directory, and the number of places in it, as the header of a volume has them.
abbrev pub root_sector : (ℕ → ℕ) → ℕ
root_sector image = image 16 * (image 22 + 256 * image 23) + (image 14 + 256 * image 15)

abbrev pub root_places : (ℕ → ℕ) → ℕ
root_places image = image 17 + 256 * image 18

-- A volume with a root directory of at least one place, whose first `n` items are in use or deleted.
pub record IsVolume (image : ℕ → ℕ) (n : ℕ) : Type 0 where
  pub signature : image 38 ≡ 0x29
  pub places : 0 < root_places image
  pub directory : IsDirectory image (root_sector image * 512) n
  pub on_disk : root_sector image * 512 + root_places image * 32 < 2 ^ 31

-- What a volume that is mounted has: its root directory has been read to memory and counted.
pub record IsMounted (image : ℕ → ℕ) (n : ℕ) (fs : FatFs) : Type 0 where
  pub total : fs.private_data.root_directory.total ≡ pos (live image (root_sector image * 512) n)
  pub sector_pos : fs.private_data.root_directory.sector_pos ≡ root_sector image
  pub ending_sector_pos :
      fs.private_data.root_directory.ending_sector_pos
      ≡ root_sector image + root_places image * 32 / 512
  pub sectors_per_cluster : fs.private_data.header.sectors_per_cluster ≡ image 13
  pub items :
      (i : ℕ)
      → i < root_places image * 32
      → fs.memory (fs.private_data.root_directory.item + i) ≡ image (root_sector image * 512 + i)

-- The state behind an allocation that is granted.
abbrev allocated : (size : ℕ) → FatFs → FatFs
allocated size fs = record fs {
  heap = (heap_malloc fs.heap size).1;
  memory = memset (heap_malloc fs.heap size).0 0x00 size fs.memory;
}

zalloc-allocated :
    (size : ℕ) (fs : FatFs)
    → (heap_malloc fs.heap size).0 ≢ 0
    → zalloc size fs ≡ ((heap_malloc fs.heap size).0, allocated size fs)
unfolding zalloc kernel_zalloc kernel_malloc
zalloc-allocated size fs nonnull =
    let some_address : ((heap_malloc fs.heap size).0 == 0) ≡ false = ground (arith, nonnull) in
    rw some_address refl

header_at-image :
    (image : ℕ → ℕ) (m : Mem) (a : ℕ)
    → ((i : ℕ) → i < 62 → m (a + i) ≡ image i)
    → header_at m a ≡ header_at image 0
unfolding header_at
header_at-image image m a get =
    let reserved : m (a + 14 + 1) ≡ image 15 = ap m (omega arith) ∙ get 15 (omega arith) in
    let places : m (a + 17 + 1) ≡ image 18 = ap m (omega arith) ∙ get 18 (omega arith) in
    let per_fat : m (a + 22 + 1) ≡ image 23 = ap m (omega arith) ∙ get 23 (omega arith) in
    rw
      (
        get 13 (omega arith),
        get 14 (omega arith),
        reserved,
        get 16 (omega arith),
        get 17 (omega arith),
        places,
        get 22 (omega arith),
        per_fat,
        get 38 (omega arith),
      )
      refl

-- The state behind the read of the root directory.
abbrev rooted : (dir total : ℕ) → Stream → Mem → FatFs → FatFs
rooted dir total stream m fs = record fs {
  memory = m;
  private_data = record fs.private_data {
    directory_stream = stream;
    root_directory = record {
      item = dir;
      total = pos total;
      sector_pos = root_dir_sector_pos fs.private_data.header;
      ending_sector_pos =
          root_dir_sector_pos fs.private_data.header
          + root_dir_size fs.private_data.header / sector_size;
    };
  };
}

load_root_of_read :
    (device : Device) (dir total position : ℕ) (fs : FatFs) (st : Stream) (m : Mem)
    → fat16_sectore_to_absolute (root_dir_sector_pos fs.private_data.header) ≡ position
    → disk_stream_read device
        (root_dir_size fs.private_data.header + 1)
        (record fs.private_data.directory_stream { position = position })
        dir
        (root_dir_size fs.private_data.header)
        fs.memory
      ≡ some (pos 0, st, m)
    → load_root device dir (pos total) fs ≡ some (all_ok, rooted dir total st m fs)
unfolding load_root disk_stream_seek
load_root_of_read device dir total position fs st m at read = rw (at, load_root) (rw read refl)

root_of_load :
    (device : Device) (fuel total dir : ℕ) (fs fs1 fs2 : FatFs) (p : FatPrivate)
    → fat16_get_total_items_for_directory device fuel fs.private_data
        (root_dir_sector_pos fs.private_data.header)
      ≡ some (pos total, p)
    → zalloc (root_dir_size fs.private_data.header) (record fs { private_data = p }) ≡ (dir, fs1)
    → dir ≢ 0
    → load_root device dir (pos total) fs1 ≡ some (all_ok, fs2)
    → fat16_get_root_directory device fuel fs ≡ some (all_ok, fs2)
unfolding fat16_get_root_directory
root_of_load device fuel total dir fs fs1 fs2 p counted made nonnull loaded =
    let some_address : (dir == 0) ≡ false = ground (arith, nonnull) in
    rw (counted, fat16_get_root_directory) (rw made (rw some_address loaded))

-- The state in which the header has been read.
abbrev headed : (address : ℕ) → Mem → FatFs → FatFs
headed address m fs = record fs {
  memory = m;
  fs_private = address;
  private_data = record {
    header = header_at m address;
    root_directory = no_directory;
    cluster_read_stream = new_stream;
    fat_read_stream = new_stream;
    directory_stream = new_stream;
  };
}

header_of_root :
    (device : Device) (fuel : ℕ) (fs fs2 : FatFs)
    → fs.private_data.header.signature ≡ 0x29
    → fat16_get_root_directory device fuel fs ≡ some (all_ok, fs2)
    → resolve_header device fuel (pos 0) fs ≡ some (all_ok, fs2)
unfolding resolve_header
header_of_root device fuel fs fs2 signed root = rw (root, resolve_header) (rw signed refl)

resolve_of_parts :
    (device : Device) (fuel : ℕ) (fs fs2 : FatFs) (st : Stream) (m : Mem)
    → disk_stream_read device
        (header_size + 1)
        new_stream
        (zalloc private_size fs).0
        header_size
        (memset (zalloc private_size fs).0 0 private_size (zalloc private_size fs).1.memory)
      ≡ some (pos 0, st, m)
    → resolve_header device fuel
        (pos 0)
        (headed (zalloc private_size fs).0 m (zalloc private_size fs).1)
      ≡ some (all_ok, fs2)
    → fat16_resolve device fuel fs ≡ some (all_ok, fs2)
unfolding fat16_resolve fat16_init_private resolve_out
resolve_of_parts device fuel fs fs2 st m read header = rw (read, fat16_resolve) (rw header refl)

resolve_of_root :
    (device : Device) (fuel address : ℕ) (fs fs1 fs2 : FatFs) (st : Stream) (m : Mem)
    → zalloc private_size fs ≡ (address, fs1)
    → disk_stream_read device
        (header_size + 1)
        new_stream
        address
        header_size
        (memset address 0 private_size fs1.memory)
      ≡ some (pos 0, st, m)
    → (header_at m address).signature ≡ 0x29
    → fat16_get_root_directory device fuel (headed address m fs1) ≡ some (all_ok, fs2)
    → fat16_resolve device fuel fs ≡ some (all_ok, fs2)
resolve_of_root device fuel address fs fs1 fs2 st m made read signed root =
    resolve_of_parts device fuel fs fs2 st m (rw made read)
      (rw made (header_of_root device fuel (headed address m fs1) fs2 signed root))

module _ {device : Device} {image : ℕ → ℕ} (drive : Holds device image) where
  places_small : root_places image < 2 ^ 16
  places_small = omega (arith, drive.byte 17, drive.byte 18)

  fat16_get_root_directory-IsMounted :
      (fuel n : ℕ) {total j : ℕ} (fs : FatFs)
      → fs.private_data.directory_stream.disk ≡ the_disk
      → root_dir_sector_pos fs.private_data.header ≡ root_sector image
      → root_dir_size fs.private_data.header ≡ root_places image * 32
      → fs.private_data.header.sectors_per_cluster ≡ image 13
      → IsVolume image n
      → n < fuel
      → HasFree fs.heap total j
      → j + 512 ≤ total
      → (fs2 : FatFs) × (fat16_get_root_directory device fuel fs ≡ some (all_ok, fs2))
        × IsMounted image n fs2
        × HasFree fs2.heap total (j + blocks (root_places image * 32))
  unfolding fat16_sectore_to_absolute
  fat16_get_root_directory-IsMounted fuel n {j = j} fs disk sector long clusters v enough has room =
      let size : ℕ = root_places image * 32 in
      let small = places_small in
      let (nonnull, has') =
        heap_malloc-HasFree size has (omega (arith, v.places)) (omega arith)
          (omega (arith, blocks_le size (omega arith))) in
      let (st, disk', counted) =
        fat16_get_total_items_for_directory-live drive fuel n (root_sector image) fs.private_data
          disk v.directory enough in
      let p : FatPrivate = record fs.private_data { directory_stream = st } in
      let dir : ℕ = (heap_malloc fs.heap size).0 in
      let fs1 : FatFs = allocated size (record fs { private_data = p }) in
      let (m, read, get) =
        disk_stream_read-image (size + 1) (record st { position = root_sector image * 512 }) dir
          size fs1.memory drive disk' v.on_disk (omega arith) in
      let at : fat16_sectore_to_absolute (root_dir_sector_pos fs.private_data.header)
          ≡ root_sector image * 512 =
        rw sector (omega (arith, v.on_disk)) in
      let loaded =
        load_root_of_read device dir (live image (root_sector image * 512) n)
          (root_sector image * 512) fs1 (record st { position = root_sector image * 512 + size }) m
          at (rw long read) in
      (
        rooted dir (live image (root_sector image * 512) n)
            (record st { position = root_sector image * 512 + size }) m fs1,
        root_of_load device fuel (live image (root_sector image * 512) n) dir fs fs1 _ p
            (rw sector counted)
            (rw long (zalloc-allocated size (record fs { private_data = p }) nonnull)) nonnull
            loaded,
        record {
          total = refl;
          sector_pos = sector;
          ending_sector_pos = rw (sector, long) refl;
          sectors_per_cluster = clusters;
          items = λ i bound.
              (let here : dir + i - dir ≡ i = omega arith in
                ground (arith, get (dir + i), ap (λ q. image (root_sector image * 512 + q)) here));
        },
        has',
      )

  -- On a drive that holds a volume, with fuel above the number of items in its root directory and a
  -- heap that is free from some block on, with at least 513 blocks behind it, `fat16_resolve` comes
  -- back with 0: the items of the root directory are in memory, their number without the deleted ones
  -- and the sectors where the directory starts and ends are those of the volume, as is the number of
  -- sectors of a cluster; the heap is well formed and free behind at most 513 blocks more.
  pub fat16_resolve-IsMounted :
      (fuel n : ℕ) {total j : ℕ} (fs : FatFs)
      → IsVolume image n
      → n < fuel
      → HasFree fs.heap total j
      → j + 513 ≤ total
      → (fs2 : FatFs) × (j2 : ℕ) × (fat16_resolve device fuel fs ≡ some (all_ok, fs2))
        × IsMounted image n fs2
        × HasFree fs2.heap total j2
        × (j2 ≤ j + 513)
  unfolding header_at
  fat16_resolve-IsMounted fuel n {j = j} fs v enough has room =
      let small = places_small in
      let (nonnull, has1) =
        heap_malloc-HasFree private_size has (omega arith) (omega arith)
          (omega (arith, blocks_le private_size (omega arith))) in
      let address : ℕ = (heap_malloc fs.heap private_size).0 in
      let fs1 : FatFs = allocated private_size fs in
      let (m, read, get) =
        disk_stream_read-image 63 new_stream address 62 (memset address 0 private_size fs1.memory)
          drive refl (omega arith) (omega arith) in
      let header = header_at-image image m address (λ i bound.
        (let here : address + i - address ≡ i = omega arith in
          ground (arith, get (address + i), ap (λ q. image (0 + q)) here))) in
      let (fs2, root, mounted, has2) =
        fat16_get_root_directory-IsMounted fuel n (headed address m fs1) refl
          (ap root_dir_sector_pos header) (ap root_dir_size header)
          (ap (λ (h : FatHeader). h.sectors_per_cluster) header) v enough has1
          (omega (arith, blocks_le private_size (omega arith))) in
      (
        fs2,
        j + blocks private_size + blocks (root_places image * 32),
        resolve_of_root device fuel address fs fs1 fs2 _ m
            (zalloc-allocated private_size fs nonnull) read
            (ap (λ (h : FatHeader). h.signature) header ∙ v.signature) root,
        mounted,
        has2,
        omega (
          arith,
          blocks_le private_size (omega arith),
          blocks_le (root_places image * 32) (omega arith),
        ),
      )
