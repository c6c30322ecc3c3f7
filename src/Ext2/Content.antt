-- ===== src/Ext2/Content.antt =====
-- src/kernel/fs/ext2.c: what the reading of direct and of single indirect blocks returns.
use swag_os.Base.{
  ℕ, zero, suc, ◌+◌, ◌-◌, ◌*◌, ◌<◌, ◌≤◌, ◌≡◌, ◌≢◌, refl, sym, ap, ◌∙◌, inl, inr, Bool, true, false,
  ◌==◌, ltb, Bool-cases, ==_ne, arith,
}
use swag_os.Base.Outcome.{ok}
use swag_os.Libc.{Bytes}
use swag_os.Ext2.{Calls, Inode, Ext2Driver}
use swag_os.Ext2.Blocks.{
  fs_byte, IsGeometry, IsOnDisk, block_data, read_block-block_data, block_data_lem,
}
use swag_os.Ext2.File.{count_direct, read_direct}

-- A block of a buffer that starts at `place` holds the block `b` of the file system.
abbrev pub Holds : Calls → Ext2Driver → Bytes → ℕ → ℕ → Type 0
Holds e d buf place b =
    (j : ℕ) → j < d.block_size → buf (place + j) ≡ fs_byte e (b * d.block_size + j)

pub count_direct-le : (n i : ℕ) (inode : Inode) → count_direct n i inode ≤ n
unfolding count_direct
count_direct-le zero i inode = omega arith
count_direct-le (suc n) i inode = elim (Bool-cases (inode.blocks i == 0)) [
  | inl e ↦ rw (e, count_direct) omega arith
  | inr e ↦ rw (e, count_direct) omega (arith, count_direct-le n (suc i) inode)
]

-- What read_direct makes of a buffer from an offset on, with `c` blocks to read.
pub record Direct (e : Calls) (d : Ext2Driver) (n i c : ℕ) (inode : Inode) (buf : Bytes)
    (offset : ℕ) (r : Bytes × ℕ × Bool) : Type 0 where
  pub content : (k : ℕ) → k < c → Holds e d r.0 (offset + k * d.block_size) (inode.blocks (i + k))
  pub before : (a : ℕ) → a < offset → r.0 a ≡ buf a
  pub reaches : r.1 ≡ offset + c * d.block_size
  pub stopped : r.2 ≡ ltb c n

direct-stops :
    (e : Calls) (d : Ext2Driver) (n i : ℕ) (inode : Inode) (buf : Bytes) (offset : ℕ)
    → inode.blocks i ≡ 0
    → (read_direct e d (suc n) i inode buf offset ≡ ok (buf, offset, true))
      × (count_direct (suc n) i inode ≡ 0)
unfolding read_direct count_direct
direct-stops e d n i inode buf offset z =
    (rw (ap (λ x. x == 0) z, read_direct) refl, rw (ap (λ x. x == 0) z, count_direct) refl)

direct-goes :
    (e : Calls) (d : Ext2Driver) (n i : ℕ) (inode : Inode) (buf : Bytes) (offset : ℕ)
    → IsGeometry d
    → IsOnDisk d (inode.blocks i)
    → inode.blocks i ≢ 0
    → (read_direct e d (suc n) i inode buf offset
        ≡ read_direct e d n
            (suc i)
            inode
            (block_data e d buf offset (inode.blocks i))
            (offset + d.block_size))
      × (count_direct (suc n) i inode ≡ suc (count_direct n (suc i) inode))
unfolding read_direct count_direct
direct-goes e d n i inode buf offset geometry on_disk ne =
    let e0 = ==_ne (inode.blocks i) 0 ne in
    let runs = read_block-block_data e d buf offset (inode.blocks i) geometry on_disk in
    (rw (e0, runs, read_direct) refl, rw (e0, count_direct) refl)

direct-none :
    (e : Calls) (d : Ext2Driver) (i : ℕ) (inode : Inode) (buf : Bytes) (offset : ℕ)
    → (read_direct e d 0 i inode buf offset ≡ ok (buf, offset, false))
      × (count_direct 0 i inode ≡ 0)
unfolding read_direct count_direct
direct-none e d i inode buf offset = (refl, refl)

nothing_read :
    (e : Calls) (d : Ext2Driver) (n i : ℕ) (inode : Inode) (buf : Bytes) (offset : ℕ)
    (zero_met : Bool)
    → zero_met ≡ ltb 0 n
    → Direct e d n i 0 inode buf offset (buf, offset, zero_met)
nothing_read e d n i inode buf offset zero_met met = record {
  content = λ k lt. absurd (omega (arith, lt));
  before = λ a lt. refl;
  reaches = omega arith;
  stopped = met;
}

-- One block read in front of the others.
one_more :
    (e : Calls) (d : Ext2Driver) (n i c : ℕ) (inode : Inode) (buf : Bytes) (offset : ℕ)
    → (r : Bytes × ℕ × Bool) → IsGeometry d
    → Direct e d n
        (suc i)
        c
        inode
        (block_data e d buf offset (inode.blocks i))
        (offset + d.block_size)
        r
    → Direct e d (suc n) i (suc c) inode buf offset r
one_more e d n i c inode buf offset r geometry rest =
    let (inside, outside) = block_data_lem e d buf offset (inode.blocks i) geometry in
    record {
      content = λ k lt j small. elim (Bool-cases (k == 0)) [
        | inl z ↦
            let first : k ≡ 0 = ground (arith, z) in
            let place : offset + k * d.block_size + j ≡ offset + j =
              ap (λ x. offset + x * d.block_size + j) first ∙ omega arith in
            let same : i ≡ i + k = omega (arith, first) in
            ap r.0 place
            ∙ rest.before (offset + j) (omega (arith, small))
            ∙ inside j small
            ∙ ap (λ x. fs_byte e (inode.blocks x * d.block_size + j)) same
        | inr z ↦
            let one : suc (k - 1) ≡ k = ground (arith, z) in
            let place : offset + k * d.block_size + j
                ≡ offset + d.block_size + (k - 1) * d.block_size + j =
              ap (λ x. offset + x * d.block_size + j) (sym one) ∙ omega arith in
            let same : suc i + (k - 1) ≡ i + k = omega (arith, one) in
            ap r.0 place
            ∙ rest.content (k - 1) (omega (arith, one, lt)) j small
            ∙ ap (λ x. fs_byte e (inode.blocks x * d.block_size + j)) same
      ];
      before = λ a lt. rest.before a (omega (arith, lt)) ∙ outside a (inl lt);
      reaches = rest.reaches ∙ omega arith;
      stopped = rest.stopped ∙ ground arith;
    }

pub read_direct_lem :
    (e : Calls) (d : Ext2Driver) (n i : ℕ) (inode : Inode) (buf : Bytes) (offset : ℕ)
    → IsGeometry d
    → ((k : ℕ) → k < i + n → IsOnDisk d (inode.blocks k))
    → (r : Bytes × ℕ × Bool) × (read_direct e d n i inode buf offset ≡ ok r)
      × Direct e d n i (count_direct n i inode) inode buf offset r
read_direct_lem e d zero i inode buf offset geometry on_disk =
    let (reads, counts) = direct-none e d i inode buf offset in
    (
      (buf, offset, false),
      reads,
      rw counts (nothing_read e d 0 i inode buf offset false (ground arith)),
    )
read_direct_lem e d (suc n) i inode buf offset geometry on_disk =
    elim (Bool-cases (inode.blocks i == 0)) [
      | inl z ↦
          let (reads, counts) = direct-stops e d n i inode buf offset (ground (arith, z)) in
          (
            (buf, offset, true),
            reads,
            rw counts (nothing_read e d (suc n) i inode buf offset true (ground arith)),
          )
      | inr z ↦
          let (reads, counts) =
            direct-goes e d n i inode buf offset geometry (on_disk i (omega arith))
              (λ y. ground (arith, y, z)) in
          let (r, runs, direct) =
            read_direct_lem e d n (suc i) inode (block_data e d buf offset (inode.blocks i))
              (offset + d.block_size) geometry (λ k lt. on_disk k (omega (arith, lt))) in
          (
            r,
            reads ∙ runs,
            rw counts (
                one_more e d n i (count_direct n (suc i) inode) inode buf offset r geometry direct),
          )
    ]
