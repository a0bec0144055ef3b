-- ===== src/Disk/Image.antt =====
-- A stream reads the bytes of the disk image in order, over any number of sectors.
use own_kernel.Prelude.{
  ◌∙◌, sym, ap, ℕ, zero, suc, ◌+◌, ◌-◌, ◌*◌, ◌/◌, ◌%◌, ◌^◌, ◌≤◌, ◌<◌, ◌≡◌, refl, true, false, some,
  inl, inr, Bool-cases, arith, ltb, leb, ◌&&◌, if◌then◌else◌, update,
}
use own_kernel.Prelude.Bits.{bit_and-low_mask, bit_or-drive}
use own_kernel.Prelude.Int.{pos}
use own_kernel.Memory.{Mem}
use own_kernel.Disk.{
  sector_size, Command, Device, the_disk, read_command, read_words, disk_read_sector,
  disk_read_block,
}
use own_kernel.Disk.Streamer.{Stream, copy_out, overflows, disk_stream_read}

-- The 28-bit sector number that a drive takes from the ports.
abbrev pub lba28 : Command → ℕ
lba28 c = c.drive % 16 * 2 ^ 24 + c.lba_high * 2 ^ 16 + c.lba_mid * 2 ^ 8 + c.lba_low

-- The drive holds the image: word `j` of a one-sector read is the two bytes there.
pub record Holds (device : Device) (image : ℕ → ℕ) : Type 0 where
  pub byte : (i : ℕ) → image i < 256
  pub word :
      (c : Command) (j : ℕ)
      → c.count ≡ 1
      → j < 256
      → device c j ≡ image (lba28 c * 512 + 2 * j) + 256 * image (lba28 c * 512 + 2 * j + 1)

-- The ports carry the sector number.
pub lba28-read_command : (lba : ℕ) → lba < 2 ^ 28 → lba28 (read_command lba 1) ≡ lba
unfolding read_command
lba28-read_command lba small =
    omega (arith, bit_or-drive (lba / 2 ^ 24) (omega arith), bit_and-low_mask 8 lba)

read_words-get :
    (words : ℕ → ℕ) (n index ptr : ℕ) (m : Mem) (j : ℕ)
    → read_words words n index ptr m j ≡ (
        if leb ptr j && ltb j (ptr + 2 * n)
        then (if ltb ((j - ptr) % 2) 1
            then words (index + (j - ptr) / 2) % 256
            else words (index + (j - ptr) / 2) / 256 % 256)
        else m j)
unfolding read_words
read_words-get words zero index ptr m j = ground arith
read_words-get words (suc n) index ptr m j =
    let m' : Mem = update (update m ptr (words index % 256)) (ptr + 1) (words index / 256 % 256) in
    elim (Bool-cases (ltb (ptr + 1) j)) [
      | inl past ↦
          let e : index + 1 + (j - (ptr + 2)) / 2 ≡ index + (j - ptr) / 2 = ground arith in
          ground (arith, read_words-get words n (index + 1) (ptr + 2) m' j, ap words e)
      | inr here ↦
          let e : index + (j - ptr) / 2 ≡ index = ground arith in
          ground (arith, read_words-get words n (index + 1) (ptr + 2) m' j, ap words e)
    ]

copy_out-get :
    (buffer : Mem) (n from out : ℕ) (m : Mem) (j : ℕ)
    → copy_out buffer n from out m j
      ≡ (if leb out j && ltb j (out + n) then buffer (from + (j - out)) else m j)
unfolding copy_out
copy_out-get buffer zero from out m j = ground arith
copy_out-get buffer (suc n) from out m j = elim (Bool-cases (ltb out j)) [
  | inl past ↦
      let e : from + 1 + (j - (out + 1)) ≡ from + (j - out) = ground arith in
      ground (
        arith,
        copy_out-get buffer n (from + 1) (out + 1) (update m out (buffer from)) j,
        ap buffer e,
      )
  | inr here ↦
      let e : from + (j - out) ≡ from = ground arith in
      ground (
        arith,
        copy_out-get buffer n (from + 1) (out + 1) (update m out (buffer from)) j,
        ap buffer e,
      )
]

module _ {device : Device} {image : ℕ → ℕ} (drive : Holds device image) where
  -- The buffer after the read of one sector.
  sector-get :
      (lba : ℕ) (m : Mem) (j : ℕ)
      → lba < 2 ^ 28
      → j < sector_size
      → (disk_read_block device the_disk lba 1 0 m).1 j ≡ image (lba * sector_size + j)
  unfolding disk_read_block disk_read_sector
  sector-get lba m j small bound =
      let c : Command = read_command lba 1 in
      let one : c.count ≡ 1 = (unfold read_command in refl) in
      let at : ℕ = lba28 c * 512 + 2 * (j / 2) in
      let here : lba28 c ≡ lba = lba28-read_command lba small in
      let index : 0 + (j - 0) / 2 ≡ j / 2 = omega arith in
      elim (Bool-cases (ltb (j % 2) 1)) [
        | inl even ↦
            let e : at ≡ lba * 512 + j = ground arith in
            ground (
              arith,
              read_words-get (device c) 256 0 0 m j,
              ap (device c) index,
              drive.word c (j / 2) one,
              drive.byte at,
              drive.byte (at + 1),
              ap image e,
            )
        | inr odd ↦
            let e : at + 1 ≡ lba * 512 + j = ground arith in
            ground (
              arith,
              read_words-get (device c) 256 0 0 m j,
              ap (device c) index,
              drive.word c (j / 2) one,
              drive.byte at,
              drive.byte (at + 1),
              ap image e,
            )
      ]

  disk_read_block-status :
      (lba : ℕ) (m : Mem) → (disk_read_block device the_disk lba 1 0 m).0 ≡ pos 0
  unfolding disk_read_block disk_read_sector
  disk_read_block-status lba m = refl

  -- The bytes that one call takes from its sector.
  sector_part-get :
      (position n out : ℕ) (m : Mem) (j : ℕ)
      → position % sector_size + n ≤ sector_size
      → position + n ≤ 2 ^ 28 * sector_size
      → copy_out
          (disk_read_block device the_disk (position / sector_size) 1 0 (λ _. 0)).1
          n
          (position % sector_size)
          out
          m
          j
        ≡ (if leb out j && ltb j (out + n) then image (position + (j - out)) else m j)
  sector_part-get position n out m j inside small =
      let i : ℕ = position % sector_size + (j - out) in
      let at : position / sector_size * sector_size + i ≡ position + (j - out) = omega arith in
      let buffer : Mem =
        (disk_read_block device the_disk (position / sector_size) 1 0 (λ _. 0)).1 in
      ground (
        arith,
        copy_out-get buffer n (position % sector_size) out m j,
        sector-get (position / sector_size) (λ _. 0) i,
        ap image at,
      )

  abbrev Reads : ℕ → Stream → (out total : ℕ) → Mem → Type 0
  Reads fuel stream out total m =
      (m' : Mem) × (disk_stream_read device fuel stream out total m
        ≡ some (pos 0, record stream { position = stream.position + total }, m'))
      × ((j : ℕ)
          → m' j ≡ (
              if leb out j && ltb j (out + total)
              then image (stream.position + (j - out))
              else m j))

  abbrev at : ℕ → Stream
  at position = record { position = position; disk = the_disk }

  abbrev sector_part : (position n out : ℕ) → Mem → Mem
  sector_part position n out m =
      copy_out (disk_read_block device the_disk (position / sector_size) 1 0 (λ _. 0)).1 n
        (position % sector_size) out m

  disk_stream_read-last :
      (fuel position out total : ℕ) (m : Mem)
      → overflows (position % sector_size) total ≡ false
      → disk_stream_read device (suc fuel) (at position) out total m
        ≡ some (pos 0, at (position + total), sector_part position total out m)
  unfolding disk_stream_read
  disk_stream_read-last fuel position out total m last =
      rw (disk_read_block-status (position / sector_size) (λ _. 0), last)

  disk_stream_read-more :
      (fuel position out total n : ℕ) (m : Mem)
      → overflows (position % sector_size) total ≡ true
      → n ≡ total - (position % sector_size + total - sector_size)
      → disk_stream_read device (suc fuel) (at position) out total m
        ≡ disk_stream_read device fuel
            (at (position + n))
            (out + n)
            (total - n)
            (sector_part position n out m)
  unfolding disk_stream_read
  disk_stream_read-more fuel position out total n m more part =
      rw (disk_read_block-status (position / sector_size) (λ _. 0), more, part)

  -- The bytes of the first sector, and behind them those that the later calls read.
  parts-get :
      (position out total n : ℕ) (m m' : Mem) (j : ℕ)
      → position % sector_size + n ≤ sector_size
      → n ≤ total
      → position + total ≤ 2 ^ 28 * sector_size
      → 0 < total
      → m' j ≡ (
          if leb (out + n) j && ltb j (out + n + (total - n))
          then image (position + n + (j - (out + n)))
          else sector_part position n out m j)
      → m' j ≡ (if leb out j && ltb j (out + total) then image (position + (j - out)) else m j)
  parts-get position out total n m m' j inside part bound some_bytes get =
      elim (Bool-cases (leb (out + n) j)) [
        | inl later ↦
            let same : position + n + (j - (out + n)) ≡ position + (j - out) = ground arith in
            ground (arith, ap image same, sector_part-get position n out m j)
        | inr now ↦ ground (arith, sector_part-get position n out m j)
      ]

  stream_read :
      (fuel position out total : ℕ) (m : Mem)
      → position + total ≤ 2 ^ 28 * sector_size
      → total < fuel
      → Reads fuel (at position) out total m
  stream_read zero position out total m bound enough = absurd (omega arith)
  stream_read (suc fuel) position out total m bound enough =
      let n : ℕ = total - (position % sector_size + total - sector_size) in
      elim (Bool-cases (overflows (position % sector_size) total)) [
        | inr last ↦ (
          sector_part position total out m,
          disk_stream_read-last fuel position out total m last,
          λ j. ground (arith, sector_part-get position total out m j),
        )
        | inl more ↦
            let (m', e, get) =
              stream_read fuel (position + n) (out + n) (total - n) (sector_part position n out m)
                (ground arith) (ground arith) in
            let inside : position % sector_size + n ≤ sector_size = ground arith in
            let some_bytes : 0 < total = ground arith in
            let end : position + n + (total - n) ≡ position + total = ground arith in
            (
              m',
              disk_stream_read-more fuel position out total n m more refl
                  ∙ e
                  ∙ ap (λ (p : ℕ). some (pos 0, at p, m')) end,
              λ j.
                  parts-get position out total n m m' j inside (omega arith) bound some_bytes
                    (get j),
            )
      ]

-- With a drive that holds the image, the disk of the stream, an end that is a positive `int` and fuel
-- above the length, `disk_stream_read` copies the next `total` bytes of the image, over any number
-- of sectors, moves the stream behind them and writes nothing else.
pub disk_stream_read-image :
    {device : Device} {image : ℕ → ℕ} (fuel : ℕ) (stream : Stream) (out total : ℕ) (m : Mem)
    → Holds device image
    → stream.disk ≡ the_disk
    → stream.position + total < 2 ^ 31
    → total < fuel
    → (m' : Mem) × (disk_stream_read device fuel stream out total m
        ≡ some (pos 0, record stream { position = stream.position + total }, m'))
      × ((j : ℕ)
          → m' j ≡ (
              if leb out j && ltb j (out + total)
              then image (stream.position + (j - out))
              else m j))
disk_stream_read-image {device} {image} fuel stream out total m drive disk bound enough =
    let (m', e, get) = stream_read drive fuel stream.position out total m (omega arith) enough in
    (m', rw (sym disk) at e, get)
