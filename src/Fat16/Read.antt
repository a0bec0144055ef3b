-- ===== src/Fat16/Read.antt =====
-- The bytes that a read finds along a chain of clusters.
mod Parts
use native.Mathlib.Nat.{mul-div_left}
use own_kernel.Prelude.{
  ap, ◌⊎◌, ℕ, zero, suc, ◌+◌, ◌-◌, ◌*◌, ◌≤◌, ◌<◌, ◌≡◌, refl, sym, ◌∙◌, true, false, Option, some,
  inl, inr, Bool-cases, arith, ltb, leb, ◌&&◌, ◌==◌, if◌then◌else◌,
}
use own_kernel.Prelude.Int.{ℤ, pos}
use own_kernel.Memory.{Mem}
use own_kernel.Disk.{Device, the_disk}
use own_kernel.Disk.Streamer.{Stream}
use own_kernel.Disk.Image.{Holds, disk_stream_read-image}
use own_kernel.Fat16.{FatPrivate}
use own_kernel.Fat16.Clusters.{
  cluster_loop, cluster_bytes, fat16_get_cluster_for_offset, part_size, read_part,
  fat16_read_internal_from_stream, fat16_read_internal,
}
use own_kernel.Fat16.Chain.{
  with_streams, IsChain, cluster_position, cluster_loop-image, position_in_cluster-eq,
  read_part_of_read, read_step,
}
use own_kernel.Fat16.Read.Parts.{
  below_of_mul, get-first_part, frame-cons, bytes-cons, bytes-one, frame-one,
}

-- What a read of `total` bytes from cluster `k` of a chain leaves in memory.
pub record IsRead (image : ℕ → ℕ) (p : FatPrivate) (cluster : ℕ → ℕ) (k total out : ℕ) (m m' : Mem)
    : Type 0 where
  pub bytes :
      (q r : ℕ)
      → r < cluster_bytes p
      → q * cluster_bytes p + r < total
      → m' (out + (q * cluster_bytes p + r)) ≡ image (cluster_position p (cluster (k + q)) + r)
  pub frame : (j : ℕ) → (j < out) ⊎ (out + total ≤ j) → m' j ≡ m j

get_cluster_of_loop :
    (device : Device) (p : FatPrivate) (start k : ℕ) {r : Option (ℤ × FatPrivate)}
    → 0 < cluster_bytes p
    → cluster_loop device k p start ≡ r
    → fat16_get_cluster_for_offset device p start (k * cluster_bytes p) ≡ r
unfolding fat16_get_cluster_for_offset
get_cluster_of_loop device p start k some_bytes e = rw (mul-div_left k some_bytes) e

module _ {device : Device} {image : ℕ → ℕ} (drive : Holds device image) (p : FatPrivate) where
  get_cluster-image :
      {cluster : ℕ → ℕ} {n : ℕ} (k : ℕ) (c f : Stream)
      → IsChain image p cluster n
      → f.disk ≡ the_disk
      → 0 < cluster_bytes p
      → k < n
      → (f' : Stream) × (f'.disk ≡ the_disk)
        × (fat16_get_cluster_for_offset device
              (with_streams p c f)
              (cluster 0)
              (k * cluster_bytes p)
            ≡ some (pos (cluster k), with_streams p c f'))
  get_cluster-image {cluster} k c f chain disk some_bytes bound =
      let (f', disk', e) = cluster_loop-image drive p k 0 c f chain disk (omega arith) in
      let at : 0 + k ≡ k = omega arith in
      (
        f',
        disk',
        get_cluster_of_loop device (with_streams p c f) (cluster 0) k some_bytes
            (e ∙ ap (λ j. some (pos (cluster j), with_streams p c f')) at),
      )

  read_part-image :
      {cluster : ℕ → ℕ} {n : ℕ} (k total out : ℕ) (c f : Stream) (m : Mem)
      → IsChain image p cluster n
      → c.disk ≡ the_disk
      → k < n
      → (c' : Stream) × (m' : Mem) × (c'.disk ≡ the_disk)
        × (read_part device (with_streams p c f) (cluster k) (k * cluster_bytes p) total out m
            ≡ some (pos 0, with_streams p c' f, m'))
        × ((j : ℕ)
            → m' j ≡ (
                if leb out j && ltb j (out + part_size p total)
                then image (cluster_position p (cluster k) + (j - out))
                else m j))
  read_part-image {cluster} k total out c f m chain disk bound =
      let (lo, hi) = chain.is_data k bound in
      let fits = chain.on_disk k bound in
      let at : Stream = record c { position = cluster_position p (cluster k) } in
      let (m', e, get) =
        disk_stream_read-image (part_size p total + 1) at out (part_size p total) m drive disk
          (ground arith) (omega arith) in
      (
        record at { position = cluster_position p (cluster k) + part_size p total },
        m',
        disk,
        read_part_of_read device p c f _ (cluster k) (k * cluster_bytes p) total out _ m m'
            (position_in_cluster-eq p c f (cluster k) k lo hi fits) e,
        get,
      )

  -- The parts of a read, joined.
  IsRead-cons :
      (cluster : ℕ → ℕ) (k total out : ℕ) (m m1 m2 : Mem)
      → cluster_bytes p < total
      → ((j : ℕ)
          → m1 j ≡ (
              if leb out j && ltb j (out + cluster_bytes p)
              then image (cluster_position p (cluster k) + (j - out))
              else m j))
      → IsRead image p cluster (suc k) (total - cluster_bytes p) (out + cluster_bytes p) m1 m2
      → IsRead image p cluster k total out m m2
  IsRead-cons cluster k total out m m1 m2 more get rest =
      let b : ℕ → ℕ → ℕ = λ q r. image (cluster_position p (cluster (k + q)) + r) in
      let at : k + 0 ≡ k = omega arith in
      let first =
        get-first_part (λ r. image (cluster_position p (cluster k) + r)) (cluster_bytes p) total out
          m m1 m2 get rest.frame in
      record {
        bytes =
            bytes-cons b (cluster_bytes p) total out m2
              (λ r inside.
                first r inside ∙ ap (λ i. image (cluster_position p (cluster i) + r)) (sym at))
              (λ q r inside bound.
                rest.bytes q r inside bound
                ∙ ap (λ i. image (cluster_position p (cluster i) + r)) (omega arith));
        frame = λ j outside.
            frame-cons (λ r. image (cluster_position p (cluster k) + r)) (cluster_bytes p) total out
              m m1 m2 get rest.frame j more outside;
      }

  -- A read that ends in its first cluster.
  IsRead-one :
      (cluster : ℕ → ℕ) (k total out : ℕ) (m m1 : Mem)
      → total ≤ cluster_bytes p
      → ((j : ℕ)
          → m1 j ≡ (
              if leb out j && ltb j (out + total)
              then image (cluster_position p (cluster k) + (j - out))
              else m j))
      → IsRead image p cluster k total out m m1
  IsRead-one cluster k total out m m1 short get = record {
    bytes =
        bytes-one (λ q r. image (cluster_position p (cluster (k + q)) + r)) (cluster_bytes p) total
          out m1 short
          (λ r inside.
            let at : k + 0 ≡ k = omega arith in
            let back : out + r - out ≡ r = omega arith in
            ground (arith, get (out + r))
            ∙ (ap (λ i. image (cluster_position p (cluster k) + i)) back
                ∙ ap (λ i. image (cluster_position p (cluster i) + r)) (sym at)));
    frame = λ j outside. frame-one j total out _ m m1 outside (get j);
  }

  -- One call on a chain: it is done, or it goes on with the next cluster.
  read_step-image :
      {cluster : ℕ → ℕ} {n : ℕ} (fuel k total out : ℕ) (c f : Stream) (m : Mem)
      → IsChain image p cluster n
      → c.disk ≡ the_disk
      → f.disk ≡ the_disk
      → 0 < cluster_bytes p
      → k < n
      → (c' : Stream) × (f' : Stream) × (m' : Mem) × (c'.disk ≡ the_disk)
        × (f'.disk ≡ the_disk)
        × (fat16_read_internal_from_stream device
              (suc fuel)
              (with_streams p c f)
              (cluster 0)
              (k * cluster_bytes p)
              total
              out
              m
            ≡ (if total - part_size p total == 0
                then some (pos 0, with_streams p c' f', m')
                else fat16_read_internal_from_stream device fuel
                    (with_streams p c' f')
                    (cluster 0)
                    (k * cluster_bytes p + part_size p total)
                    (total - part_size p total)
                    (out + part_size p total)
                    m'))
        × ((j : ℕ)
            → m' j ≡ (
                if leb out j && ltb j (out + part_size p total)
                then image (cluster_position p (cluster k) + (j - out))
                else m j))
  read_step-image {cluster} fuel k total out c f m chain disk disk' some_bytes bound =
      let (f1, disk1, found) = get_cluster-image k c f chain disk' some_bytes bound in
      let (c1, m1, disk2, read, get) = read_part-image k total out c f1 m chain disk bound in
      let (lo, hi) = chain.is_data k bound in
      (
        c1,
        f1,
        m1,
        disk2,
        disk1,
        read_step device fuel (with_streams p c f) (with_streams p c f1) (with_streams p c1 f1)
            (cluster 0) (cluster k) (k * cluster_bytes p) total out m m1 hi found read,
        get,
      )

  fat16_read_internal_from_stream-IsRead :
      {cluster : ℕ → ℕ} {n : ℕ} (fuel k total out : ℕ) (c f : Stream) (m : Mem)
      → IsChain image p cluster n
      → c.disk ≡ the_disk
      → f.disk ≡ the_disk
      → 0 < cluster_bytes p
      → 0 < total
      → k * cluster_bytes p + total ≤ n * cluster_bytes p
      → total ≤ fuel
      → (c' : Stream) × (f' : Stream) × (m' : Mem) × (fat16_read_internal_from_stream device fuel
            (with_streams p c f)
            (cluster 0)
            (k * cluster_bytes p)
            total
            out
            m
          ≡ some (pos 0, with_streams p c' f', m'))
        × IsRead image p cluster k total out m m'
  fat16_read_internal_from_stream-IsRead zero k total out c f m chain disk disk' some_bytes
        some_total bound enough =
      absurd (omega arith)
  fat16_read_internal_from_stream-IsRead {cluster} {n} (suc fuel) k total out c f m chain disk disk'
        some_bytes some_total bound enough =
      let inside : k < n = below_of_mul (cluster_bytes p) k n (omega arith) in
      let (c1, f1, m1, disk1, disk2, step, get) =
        read_step-image fuel k total out c f m chain disk disk' some_bytes inside in
      elim (Bool-cases (ltb (cluster_bytes p) total)) [
        | inl more ↦
            let moved : k * cluster_bytes p + cluster_bytes p ≡ suc k * cluster_bytes p =
              grind arith in
            let left : (total - cluster_bytes p == 0) ≡ false = ground arith in
            let (c2, f2, m2, rest, is_read) =
              fat16_read_internal_from_stream-IsRead fuel (suc k) (total - cluster_bytes p)
                (out + cluster_bytes p) c1 f1 m1 chain disk1 disk2 some_bytes (ground arith)
                (ground arith) (ground arith) in
            let size : part_size p total ≡ cluster_bytes p = rw more refl in
            (
              c2,
              f2,
              m2,
              step ∙ rw (size, left, moved) rest,
              IsRead-cons cluster k total out m m1 m2 (ground arith) (rw size at get) is_read,
            )
        | inr short ↦
            let size : part_size p total ≡ total = rw short refl in
            let done : (total - total == 0) ≡ true = ground arith in
            (
              c1,
              f1,
              m1,
              step ∙ rw (size, done) refl,
              IsRead-one cluster k total out m m1 (ground arith) (rw size at get),
            )
      ]

  -- A read of at least one byte from the start of cluster `k` of the clusters that the source goes
  -- through, within them, with fuel for its length, returns 0, puts the bytes of these clusters from
  -- `k` on into memory in their order, and changes no other byte. The clusters are linked by the
  -- numbers at the product of the position of the table and of the offset of the entry.
  pub fat16_read_internal-IsRead :
      {cluster : ℕ → ℕ} {n : ℕ} (fuel k total out : ℕ) (c f : Stream) (m : Mem)
      → IsChain image p cluster n
      → c.disk ≡ the_disk
      → f.disk ≡ the_disk
      → 0 < cluster_bytes p
      → 0 < total
      → k * cluster_bytes p + total ≤ n * cluster_bytes p
      → total ≤ fuel
      → (c' : Stream) × (f' : Stream) × (m' : Mem) × (fat16_read_internal device fuel
            (with_streams p c f)
            (cluster 0)
            (k * cluster_bytes p)
            total
            out
            m
          ≡ some (pos 0, with_streams p c' f', m'))
        × IsRead image p cluster k total out m m'
  unfolding fat16_read_internal
  fat16_read_internal-IsRead = fat16_read_internal_from_stream-IsRead
