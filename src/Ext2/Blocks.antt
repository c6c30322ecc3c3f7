-- ===== src/Ext2/Blocks.antt =====
-- ext2_read_block and ext2_read_inode of src/kernel/fs/ext2.c: which bytes of the disk they read.
use swag_os.Base.{
  ℕ, zero, suc, ◌+◌, ◌-◌, ◌*◌, ◌/◌, ◌%◌, ◌^◌, ◌<◌, ◌≤◌, ◌≡◌, refl, ap, ap₂, ◌∙◌, ◌⊎◌, inl, inr,
  bit_and, true, false, ltb, leb, ◌&&◌, if◌then◌else◌, lt→ltb, le→leb, ltb→lt, Bool-cases, arith,
}
use swag_os.Base.Bits.{bit_and-low}
use swag_os.Base.Outcome.{ok, panic, ◌>>=◌}
use swag_os.Libc.{Bytes}
use swag_os.BufferCache.Disk.{fssize}
use swag_os.Ext2.{
  device_start, Calls, Inode, Ext2Driver, inode_at, inode_table_at, copy_in, offset_to_sector,
  ext2_block_to_disk_sector, ext2_get_inode_block_group, ext2_get_inode_block_group_index,
  ext2_get_inode_offset, sector_data, inode_sector, read_disk_sector, read_sectors, ext2_read_block,
  ext2_read_inode,
}

-- The byte of the file system at an address: its first sector is the one at `DEVICE_START`.
abbrev pub fs_byte : Calls → ℕ → ℕ
fs_byte e a = e.sector (device_start + a / 512) (a % 512)

pub copy_in-inside :
    (m : Bytes) (out : ℕ) (src : Bytes) (n j : ℕ) → j < n → copy_in m out src n (out + j) ≡ src j
unfolding copy_in
copy_in-inside m out src n j lt =
    let lo : leb out (out + j) ≡ true = le→leb out (out + j) (omega arith) in
    let hi : ltb (out + j) (out + n) ≡ true = lt→ltb (out + j) (out + n) (omega arith) in
    let same : out + j - out ≡ j = omega arith in rw (lo, hi, same) refl

pub copy_in-outside :
    (m : Bytes) (out : ℕ) (src : Bytes) (n a : ℕ)
    → (a < out) ⊎ (out + n ≤ a)
    → copy_in m out src n a ≡ m a
unfolding copy_in
copy_in-outside m out src n a h = elim (Bool-cases (leb out a && ltb a (out + n))) [
  | inl e ↦ absurd (ground (arith, h, e))
  | inr e ↦ rw e refl
]

pub sector_data-reads : (e : Calls) (s : ℕ) → s < fssize → sector_data e s ≡ ok (e.sector s)
unfolding sector_data
sector_data-reads e s lt =
    let on_disk : leb fssize s ≡ false = ground (arith, lt) in rw on_disk refl

-- What `n` sectors from one on leave in a buffer.
unfoldable sectors : Calls → ℕ → Bytes → ℕ → ℕ → ℕ → Bytes
sectors e zero m out offset sector = m
sectors e (suc n) m out offset sector =
    sectors e n (copy_in m (out + offset) (e.sector sector) 512) out (offset + 512) (suc sector)

read_sectors-sectors :
    (e : Calls) (n : ℕ) (m : Bytes) (out offset sector : ℕ)
    → sector + n ≤ fssize
    → read_sectors e n m out offset sector ≡ ok (sectors e n m out offset sector)
unfolding read_sectors read_disk_sector sectors
read_sectors-sectors e zero m out offset sector fits = refl
read_sectors-sectors e (suc n) m out offset sector fits =
    rw (sector_data-reads e sector (omega (arith, fits))) (
      read_sectors-sectors e n (copy_in m (out + offset) (e.sector sector) 512) out (offset + 512)
        (suc sector) (omega (arith, fits)))

sectors-outside :
    (e : Calls) (n : ℕ) (m : Bytes) (out offset sector a : ℕ)
    → (a < out + offset) ⊎ (out + offset + n * 512 ≤ a)
    → sectors e n m out offset sector a ≡ m a
unfolding sectors
sectors-outside e zero m out offset sector a h = refl
sectors-outside e (suc n) m out offset sector a h =
    sectors-outside e n (copy_in m (out + offset) (e.sector sector) 512) out (offset + 512)
      (suc sector) a (ground (arith, h))
    ∙ copy_in-outside m (out + offset) (e.sector sector) 512 a (ground (arith, h))

sectors-inside :
    (e : Calls) (n : ℕ) (m : Bytes) (out offset sector j : ℕ)
    → j < n * 512
    → sectors e n m out offset sector (out + offset + j) ≡ e.sector (sector + j / 512) (j % 512)
unfolding sectors
sectors-inside e zero m out offset sector j lt = absurd (omega arith)
sectors-inside e (suc n) m out offset sector j lt = elim (Bool-cases (ltb j 512)) [
  | inl t ↦
      let small = ltb→lt j 512 t in
      let here : sector ≡ sector + j / 512 = omega (arith, small) in
      let same : j ≡ j % 512 = omega (arith, small) in
      sectors-outside e n (copy_in m (out + offset) (e.sector sector) 512) out (offset + 512)
        (suc sector) (out + offset + j) (inl (omega (arith, small)))
      ∙ copy_in-inside m (out + offset) (e.sector sector) 512 j small
      ∙ ap₂ e.sector here same
  | inr t ↦
      let big : 512 ≤ j = ground (arith, t) in
      let shift : out + offset + j ≡ out + (offset + 512) + (j - 512) = omega (arith, big) in
      let there : suc sector + (j - 512) / 512 ≡ sector + j / 512 = omega (arith, big) in
      let same : (j - 512) % 512 ≡ j % 512 = omega (arith, big) in
      let rest = copy_in m (out + offset) (e.sector sector) 512 in
      ap (sectors e n rest out (offset + 512) (suc sector)) shift
      ∙ sectors-inside e n rest out (offset + 512) (suc sector) (j - 512) (omega (arith, big))
      ∙ ap₂ e.sector there same
]

-- A driver whose block size is the one that its superblock gives.
abbrev pub IsGeometry : Ext2Driver → Type 0
IsGeometry d = d.block_size ≡ 1024 * 2 ^ d.superblock.log2block_size

-- Below 4 GB, a block starts at the sector of its first byte.
pub block_to_disk_sector_lem :
    (d : Ext2Driver) (b : ℕ)
    → IsGeometry d
    → b * d.block_size < 2 ^ 32
    → ext2_block_to_disk_sector d b ≡ device_start + b * d.block_size / 512
unfolding ext2_block_to_disk_sector
block_to_disk_sector_lem d b geometry lt =
    let p = 2 ^ d.superblock.log2block_size in
    let bytes : b * d.block_size ≡ 1024 * (b * p) = ap (λ s. b * s) geometry ∙ omega arith in
    let whole : b * p % 2 ^ 32 * 2 ^ 10 % 2 ^ 32 ≡ b * d.block_size = omega (arith, bytes, lt) in
    ap (λ x. device_start + x / 512) whole

-- A block whose sectors are all below `FSSIZE`.
abbrev pub IsOnDisk : Ext2Driver → ℕ → Type 0
IsOnDisk d b = b * d.block_size + d.block_size ≤ (fssize - device_start) * 512

-- What ext2_read_block leaves of a buffer where it returns.
unfoldable pub block_data : Calls → Ext2Driver → Bytes → ℕ → ℕ → Bytes
unfolding sectors
block_data e d m out b =
    sectors e (d.block_size / 512) m out 0 (device_start + b * d.block_size / 512)

pub read_block-block_data :
    (e : Calls) (d : Ext2Driver) (m : Bytes) (out b : ℕ)
    → IsGeometry d
    → IsOnDisk d b
    → ext2_read_block e d m out b ≡ ok (block_data e d m out b)
unfolding ext2_read_block block_data
read_block-block_data e d m out b geometry on_disk =
    let p = 2 ^ d.superblock.log2block_size in
    let bytes : b * d.block_size ≡ 1024 * (b * p) = ap (λ s. b * s) geometry ∙ omega arith in
    let start = block_to_disk_sector_lem d b geometry (omega (arith, on_disk)) in
    rw start (
      read_sectors-sectors e (d.block_size / 512) m out 0 (device_start + b * d.block_size / 512)
        (omega (arith, bytes, geometry, on_disk)))

-- A block on the disk gives the buffer the bytes of that block of the file system, in order, and nothing
-- outside the block's place in the buffer is written.
pub block_data_lem :
    (e : Calls) (d : Ext2Driver) (m : Bytes) (out b : ℕ)
    → IsGeometry d
    → ((j : ℕ)
        → j < d.block_size
        → block_data e d m out b (out + j) ≡ fs_byte e (b * d.block_size + j))
      × ((a : ℕ) → (a < out) ⊎ (out + d.block_size ≤ a) → block_data e d m out b a ≡ m a)
unfolding block_data
block_data_lem e d m out b geometry =
    let p = 2 ^ d.superblock.log2block_size in
    let bytes : b * d.block_size ≡ 1024 * (b * p) = ap (λ s. b * s) geometry ∙ omega arith in
    let n = d.block_size / 512 in
    let sector = device_start + b * d.block_size / 512 in
    let whole : n * 512 ≡ d.block_size = omega (arith, geometry) in
    (
      λ j small.
          ap (sectors e n m out 0 sector) (omega arith)
          ∙ sectors-inside e n m out 0 sector j (omega (arith, whole, small))
          ∙ ap₂ e.sector (omega (arith, bytes)) (omega (arith, bytes)),
      λ a h. sectors-outside e n m out 0 sector a (ground (arith, whole, h)),
    )

-- The address of an inode: its place in the table of its group.
abbrev pub inode_address : Ext2Driver → ℕ → ℕ
inode_address d inode =
    inode_table_at d.bgdt ((inode - 1) / d.superblock.inodes_per_group) * d.block_size
    + (inode - 1) % d.superblock.inodes_per_group * d.inode_size

-- An inode size with which no inode crosses the end of a sector.
pub data IsInodeSize : ℕ → Type 0 where
  size_128 : IsInodeSize 128
  size_256 : IsInodeSize 256
  size_512 : IsInodeSize 512

low_nine : (x : ℕ) → bit_and x 511 ≡ x % 512
low_nine x = ap (λ y. bit_and y 511) (omega arith) ∙ bit_and-low 9 (x / 512) (x % 512) (omega arith)

fits_sector : (k s : ℕ) → IsInodeSize s → k * s % 512 + 128 ≤ 512
fits_sector k _ size_128 = omega arith
fits_sector k _ size_256 = omega arith
fits_sector k _ size_512 = omega arith

-- An address that is a whole number of sectors and a place `x` in the table of a group.
sector_of_place :
    (base x : ℕ)
    → base % 512 ≡ 0
    → base + x < 2 ^ 32
    → offset_to_sector ((base + x) % 2 ^ 32 / 512 * 512) ≡ device_start + (base + x) / 512
sector_of_place base x aligned lt =
    let same : (base + x) % 2 ^ 32 / 512 * 512 / 512 ≡ (base + x) / 512 = omega arith in
    ap (λ s. device_start + s) same

place_in_sector : (base x : ℕ) → base % 512 ≡ 0 → bit_and x (512 - 1) ≡ (base + x) % 512
place_in_sector base x aligned =
    let place : x % 512 ≡ (base + x) % 512 = omega arith in low_nine x ∙ place

-- The sector that is read and the place in it, of an inode below 2 ^ 32 that lies below 4 GB.
pub inode_place :
    (d : Ext2Driver) (inode : ℕ)
    → IsGeometry d
    → 0 < inode
    → inode < 2 ^ 32
    → inode_address d inode < 2 ^ 32
    → (inode_sector d inode ≡ device_start + inode_address d inode / 512)
      × (bit_and (ext2_get_inode_block_group_index d inode * d.inode_size) (512 - 1)
          ≡ inode_address d inode % 512)
unfolding ext2_get_inode_offset ext2_get_inode_block_group ext2_get_inode_block_group_index
inode_place d inode geometry pos lt below =
    let wrap : (inode + (2 ^ 32 - 1)) % 2 ^ 32 ≡ inode - 1 = omega arith in
    let index = (inode - 1) % d.superblock.inodes_per_group in
    let table = inode_table_at d.bgdt ((inode - 1) / d.superblock.inodes_per_group) in
    let bytes : table * d.block_size ≡ 1024 * (table * 2 ^ d.superblock.log2block_size) =
      ap (λ s. table * s) geometry ∙ omega arith in
    let turned : d.block_size * table ≡ table * d.block_size = omega arith in
    (
      rw (wrap, turned)
          (sector_of_place (table * d.block_size) (index * d.inode_size) (omega (arith, bytes))
            below),
      rw wrap
          (place_in_sector (table * d.block_size) (index * d.inode_size) (omega (arith, bytes))),
    )

inode-in_sector :
    (d : Ext2Driver) (inode : ℕ)
    → IsGeometry d
    → IsInodeSize d.inode_size
    → inode_address d inode % 512 + 128 ≤ 512
inode-in_sector d inode geometry size =
    let index = (inode - 1) % d.superblock.inodes_per_group in
    let table = inode_table_at d.bgdt ((inode - 1) / d.superblock.inodes_per_group) in
    let bytes : table * d.block_size ≡ 1024 * (table * 2 ^ d.superblock.log2block_size) =
      ap (λ s. table * s) geometry ∙ omega arith in
    omega (arith, bytes, fits_sector index d.inode_size size)

pub read_inode-ok :
    (e : Calls) (d : Ext2Driver) (inode : ℕ)
    → inode_sector d inode < fssize
    → (i : Inode) × (ext2_read_inode e d inode ≡ ok i)
unfolding ext2_read_inode
read_inode-ok e d inode lt =
    let place = bit_and (ext2_get_inode_block_group_index d inode * d.inode_size) (512 - 1) in
    (
      inode_at (e.sector (inode_sector d inode)) place,
      ap (λ r. r >>= λ b. ok (inode_at b place)) (sector_data-reads e (inode_sector d inode) lt),
    )

sector-decoded :
    (e : Calls) (s place : ℕ)
    → (sector_data e s >>= λ b. ok (inode_at b place))
      ≡ (if leb fssize s then panic else ok (inode_at (e.sector s) place))
unfolding sector_data
sector-decoded e s place = elim (Bool-cases (leb fssize s)) [
  | inl past ↦ rw past refl
  | inr within ↦ rw within refl
]

-- ext2_read_inode of an inode below 2 ^ 32 whose place lies below 4 GB panics where the sector of that
-- place is at or behind FSSIZE, and otherwise decodes the bytes at that place: the whole of its 128
-- bytes lies in the one sector that is read.
pub read_inode_lem :
    (e : Calls) (d : Ext2Driver) (inode : ℕ)
    → IsGeometry d
    → IsInodeSize d.inode_size
    → 0 < inode
    → inode < 2 ^ 32
    → inode_address d inode < 2 ^ 32
    → (ext2_read_inode e d inode ≡ (
        if leb fssize (device_start + inode_address d inode / 512)
        then panic
        else ok (
            inode_at
              (e.sector (device_start + inode_address d inode / 512))
              (inode_address d inode % 512))))
      × (inode_address d inode % 512 + 128 ≤ 512)
unfolding ext2_read_inode
read_inode_lem e d inode geometry size pos lt below =
    let (sector, place) = inode_place d inode geometry pos lt below in
    (
      rw (sector, place)
          (sector-decoded e (device_start + inode_address d inode / 512)
            (inode_address d inode % 512)),
      inode-in_sector d inode geometry size,
    )
