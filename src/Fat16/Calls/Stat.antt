-- ===== src/Fat16/Calls/Stat.antt =====
-- What `fat16_stat` writes.
use own_kernel.Prelude.{
  ℕ, ◌+◌, ◌^◌, ◌≤◌, ◌<◌, ◌≡◌, refl, ◌∙◌, ◌⊎◌, inl, inr, Bool-cases, true, arith, ◌==◌,
  if◌then◌else◌, bit_and,
}
use own_kernel.Prelude.Int.{all_ok}
use own_kernel.Memory.{Mem, put_long, long_at}
use own_kernel.Memory.Longs.{put_long-frame, long_at-put_long, long_at-same, long_at-bound}
use own_kernel.Fat16.{attributes_of, filesize_of}
use own_kernel.Fat16.Directory.{FatFs, file_type}
use own_kernel.Fat16.Calls.{fat16_stat}
use own_kernel.Fat16.Calls.Positions.{item_of}

-- The flags of an item: 1 for a file that is only read.
abbrev pub stat_flags : Mem → (item : ℕ) → ℕ
stat_flags m item = if bit_and (attributes_of m item) 0x01 == 0 then 0x00 else 0x01

-- Both fields, after the size at `stat + 4` and the flags at `stat` were written.
pub record IsStat (stat size flags : ℕ) (m m' : Mem) : Type 0 where
  pub filesize : long_at m' (stat + 4) ≡ size
  pub flags_at : long_at m' stat ≡ flags
  pub frame : (j : ℕ) → (j < stat) ⊎ (stat + 8 ≤ j) → m' j ≡ m j

fields-frame :
    (stat size : ℕ) (m : Mem) (j : ℕ)
    → (j < stat) ⊎ (stat + 8 ≤ j)
    → put_long stat 0x00 (put_long (stat + 4) size m) j ≡ m j
fields-frame stat size m j (inl below) =
    put_long-frame stat 0x00 (put_long (stat + 4) size m) j (inl below)
    ∙ put_long-frame (stat + 4) size m j (inl (omega arith))
fields-frame stat size m j (inr above) =
    put_long-frame stat 0x00 (put_long (stat + 4) size m) j (inr (omega arith))
    ∙ put_long-frame (stat + 4) size m j (inr (omega arith))

IsStat-sized :
    (stat size : ℕ) (m : Mem)
    → size < 2 ^ 32
    → IsStat stat size 0 m (put_long stat 0x00 (put_long (stat + 4) size m))
IsStat-sized stat size m bound =
    let sized : Mem = put_long (stat + 4) size m in
    record {
      filesize =
          long_at-same sized (put_long stat 0x00 sized) (stat + 4)
            (λ j lo hi. put_long-frame stat 0x00 sized j (inr (omega arith)))
          ∙ long_at-put_long (stat + 4) size m bound;
      flags_at = long_at-put_long stat 0x00 sized (omega arith);
      frame = fields-frame stat size m;
    }

flag-frame :
    (stat new : ℕ) (m : Mem) (j : ℕ) → (j < stat) ⊎ (stat + 8 ≤ j) → put_long stat new m j ≡ m j
flag-frame stat new m j (inl below) = put_long-frame stat new m j (inl below)
flag-frame stat new m j (inr above) = put_long-frame stat new m j (inr (omega arith))

IsStat-flags :
    (stat size flags new : ℕ) (m m' : Mem)
    → new < 2 ^ 32
    → IsStat stat size flags m m'
    → IsStat stat size new m (put_long stat new m')
IsStat-flags stat size flags new m m' bound is = record {
  filesize =
      long_at-same m' (put_long stat new m') (stat + 4)
        (λ j lo hi. put_long-frame stat new m' j (inr (omega arith)))
      ∙ is.filesize;
  flags_at = long_at-put_long stat new m' bound;
  frame = λ j outside. flag-frame stat new m' j outside ∙ is.frame j outside;
}

-- The size and the flags of an open file are those of its item, whose bytes the structure does not
-- meet; no other byte changes.
pub fat16_stat-IsStat :
    (fs : FatFs) (descriptor stat : ℕ)
    → (item_of fs descriptor).item_type ≡ file_type
    → ((j : ℕ) → fs.memory j < 2 ^ 8)
    → (stat + 8 ≤ (item_of fs descriptor).pointer) ⊎ ((item_of fs descriptor).pointer + 32 ≤ stat)
    → (fs' : FatFs) × (fat16_stat descriptor stat fs ≡ (all_ok, fs'))
      × IsStat stat
          (filesize_of fs.memory (item_of fs descriptor).pointer)
          (stat_flags fs.memory (item_of fs descriptor).pointer)
          fs.memory
          fs'.memory
unfolding fat16_stat
fat16_stat-IsStat fs descriptor stat is_file bytes apart =
    let item : ℕ = (item_of fs descriptor).pointer in
    let m : Mem = fs.memory in
    let size : ℕ = filesize_of m item in
    let cleared : Mem = put_long stat 0x00 (put_long (stat + 4) size m) in
    let sized = IsStat-sized stat size m (long_at-bound m (item + 28) bytes) in
    let some_type : ((item_of fs descriptor).item_type == file_type) ≡ true = ground arith in
    let same : attributes_of cleared item ≡ attributes_of m item = elim apart [
      | inl below ↦ sized.frame (item + 11) (inr (omega arith))
      | inr above ↦ sized.frame (item + 11) (inl (omega arith))
    ] in
    elim (Bool-cases (bit_and (attributes_of m item) 0x01 == 0)) [
      | inl plain ↦
          (record fs { memory = cleared }, rw (some_type, same, plain) refl, rw plain sized)
      | inr only_read ↦ (
        record fs { memory = put_long stat 0x01 cleared },
        rw (some_type, same, only_read) refl,
        rw only_read (IsStat-flags stat size 0 1 m cleared (omega arith) sized),
      )
    ]
