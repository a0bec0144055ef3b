-- ===== src/Disk.antt =====
-- src/disk/disk.c: the ATA disk, read by port I/O, and src/disk/streamer.c (`Disk.Streamer`).
-- The drive itself is a parameter: what the data port gives for a command, word by word.
pub mod Streamer
pub mod Image
pub mod Returns
use own_kernel.Prelude.{
  ℕ, zero, suc, ◌+◌, ◌*◌, ◌/◌, ◌%◌, ◌^◌, Option, none, some, bit_or, bit_and, ◌==◌, if◌then◌else◌,
  update,
}
use own_kernel.Prelude.Int.{ℤ, pos, invalid_argument_error}
use own_kernel.Memory.{Mem}

abbrev pub sector_size : ℕ
sector_size = 512

-- the bytes that `outb` puts into the ports 0x1F6, 0x1F2, 0x1F3, 0x1F4 and 0x1F5, before the read
-- command 0x20 goes to 0x1F7
pub record Command : Type 0 where
  pub drive : ℕ
  pub count : ℕ
  pub lba_low : ℕ
  pub lba_mid : ℕ
  pub lba_high : ℕ

-- The words that `insw(0x1F0)` gives after a command, by their position. The loop that waits for
-- the ready bit ends when the drive is ready.
abbrev pub Device : Type 0
Device = Command → ℕ → ℕ

unfoldable pub read_command : (lba total : ℕ) → Command
read_command lba total = record {
  drive = bit_or (lba / 2 ^ 24) 0xE0 % 256;
  count = total % 256;
  lba_low = bit_and lba 0xFF;
  lba_mid = lba / 2 ^ 8 % 256;
  lba_high = lba / 2 ^ 16 % 256;
}

-- `n` words left, from word `index` on; a word is stored with its low byte first.
unfoldable pub read_words : (words : ℕ → ℕ) (n index ptr : ℕ) → Mem → Mem
read_words words zero index ptr m = m
read_words words (suc n) index ptr m =
    read_words words n (index + 1) (ptr + 2)
      (update (update m ptr (words index % 256)) (ptr + 1) (words index / 256 % 256))

unfoldable pub disk_read_sector : Device → (lba total buffer : ℕ) → Mem → ℤ × Mem
disk_read_sector device lba total buffer m =
    (pos 0, read_words (device (read_command lba total)) (total * 256) 0 buffer m)

-- A `struct disk *`: there is one disk.
pub data DiskPointer : Type 0 where
  the_disk other_disk : DiskPointer

-- `none` is a null pointer.
unfoldable pub disk_get : ℕ → Option DiskPointer
disk_get index = if index == 0 then some the_disk else none

unfoldable pub disk_read_block : Device → DiskPointer → (lba total buffer : ℕ) → Mem → ℤ × Mem
disk_read_block device the_disk lba total buffer m = disk_read_sector device lba total buffer m
disk_read_block device other_disk lba total buffer m = (invalid_argument_error, m)
