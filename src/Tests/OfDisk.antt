-- ===== src/Tests/OfDisk.antt =====
-- A drive whose image repeats the bytes from 0 to 255.
use own_kernel.Prelude.{
  ℕ, ◌+◌, ◌-◌, ◌*◌, ◌%◌, ◌≡◌, refl, arith, leb, ltb, ◌&&◌, if◌then◌else◌, some,
}
use own_kernel.Prelude.Int.{pos}
use own_kernel.Memory.{Mem}
use own_kernel.Disk.{Device, the_disk}
use own_kernel.Disk.Streamer.{Stream, disk_stream_read}
use own_kernel.Disk.Image.{lba28, Holds, disk_stream_read-image}

abbrev image : ℕ → ℕ
image i = i % 256

abbrev device : Device
device c j = image (lba28 c * 512 + 2 * j) + 256 * image (lba28 c * 512 + 2 * j + 1)

drive : Holds device image
drive = record { byte = λ i. omega arith; word = λ c j one bound. refl }

abbrev stream : Stream
stream = record { position = 500; disk = the_disk }

disk_stream_read-image_example :
    (m' : Mem) × (disk_stream_read device 1001 stream 0x8000 1000 (λ _. 0)
      ≡ some (pos 0, record stream { position = 500 + 1000 }, m'))
    × ((j : ℕ)
        → m' j ≡ (if leb 0x8000 j && ltb j (0x8000 + 1000) then image (500 + (j - 0x8000)) else 0))
disk_stream_read-image_example =
    disk_stream_read-image 1001 stream 0x8000 1000 (λ _. 0) drive refl (omega arith) (omega arith)
