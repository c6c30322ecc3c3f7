-- ===== src/Ext2.antt =====
-- src/kernel/fs/ext2.c and include/fs/ext2.h: the driver's state, its arithmetic on blocks, sectors and
-- inodes, and the reading of sectors, blocks and inodes.
pub mod Blocks
pub mod Content
pub mod Directory
pub mod File
pub mod Indirect
pub mod Init
pub mod Names
pub mod Paths
pub mod ReadFile
pub mod Sample
pub mod Split
mod Tests
use swag_os.Base.{
  ℕ, zero, suc, ◌+◌, ◌-◌, ◌*◌, ◌/◌, ◌%◌, ◌^◌, bit_and, bit_or, Bool, true, false, ◌&&◌, Option, ltb,
  leb, ◌==◌, if◌then◌else◌,
}
use swag_os.Base.Outcome.{Outcome, ok, panic, ◌>>=◌}
use swag_os.Libc.{Bytes}
use swag_os.BufferCache.Disk.{fssize}

abbrev pub disk_sector_size : ℕ
disk_sector_size = 512

abbrev pub device_start : ℕ
device_start = 2048

abbrev pub superblock_sector : ℕ
superblock_sector = device_start + 2

abbrev pub inode_type_directory : ℕ
inode_type_directory = 0x4000

abbrev pub inode_type_file : ℕ
inode_type_file = 0x8000

-- The fields of the packed structs, little-endian.
abbrev pub u16 : Bytes → ℕ → ℕ
u16 b o = b o + 256 * b (o + 1)

abbrev pub u32 : Bytes → ℕ → ℕ
u32 b o = b o + 256 * b (o + 1) + 65536 * b (o + 2) + 16777216 * b (o + 3)

-- What the driver calls: `sector n` is the data of a sector of the disk, `kalloc` of a size gives NULL
-- or the memory from the new buffer's address on, and `shift_32` is what the compiled code makes of
-- `sizeHigh << 32`, which C leaves undefined on 32 bits.
pub record Calls : Type 0 where
  pub sector : ℕ → Bytes
  pub kalloc : ℕ → Option Bytes
  pub shift_32 : ℕ → ℕ

-- The fields of `ext2_superblock` that the driver reads.
pub record Superblock : Type 0 where
  pub total_inodes : ℕ
  pub total_blocks : ℕ
  pub log2block_size : ℕ
  pub blocks_per_group : ℕ
  pub inodes_per_group : ℕ
  pub ext2_magic : ℕ
  pub major : ℕ
  pub inode_size : ℕ

-- The fields of `ext2_inode_t` that the driver reads.
pub record Inode : Type 0 where
  pub mode : ℕ
  pub size : ℕ
  pub blocks : ℕ → ℕ
  pub size_high : ℕ

-- `EXT2_DRIVER`; `bgdt` is the memory from the address of the table on.
pub record Ext2Driver : Type 0 where
  pub total_inodes : ℕ
  pub total_blocks : ℕ
  pub block_size : ℕ
  pub blocks_per_group : ℕ
  pub inodes_per_group : ℕ
  pub extended_fields_available : Bool
  pub total_groups : ℕ
  pub superblock : Superblock
  pub bgdt : Bytes
  pub bgdt_blockno : ℕ
  pub inode_size : ℕ
  pub root_inode : Inode

unfoldable pub superblock_at : Bytes → Superblock
superblock_at b = record {
  total_inodes = u32 b 0;
  total_blocks = u32 b 4;
  log2block_size = u32 b 24;
  blocks_per_group = u32 b 32;
  inodes_per_group = u32 b 40;
  ext2_magic = u16 b 56;
  major = u32 b 76;
  inode_size = u16 b 88;
}

unfoldable pub inode_at : Bytes → ℕ → Inode
inode_at b o = record {
  mode = u16 b o;
  size = u32 b (o + 4);
  blocks = λ i. u32 b (o + 40 + 4 * i);
  size_high = u32 b (o + 108);
}

-- `sizeof(ext2_block_group_desc)` is 32; the table's block of inodes is its third word.
unfoldable pub inode_table_at : Bytes → ℕ → ℕ
inode_table_at b i = u32 b (i * 32 + 8)

-- `memcpy` into a buffer from another one.
unfoldable pub copy_in : Bytes → ℕ → Bytes → ℕ → Bytes
copy_in m out src n a = if leb out a && ltb a (out + n) then src (a - out) else m a

unfoldable pub ext2_extended_fields_available : Superblock → Bool
ext2_extended_fields_available s = ltb 1 s.major

unfoldable pub ext2_getblocksize : Superblock → ℕ
ext2_getblocksize s = 1024 * 2 ^ s.log2block_size % 2 ^ 32

-- `OFFSET_TO_SECTOR`
abbrev pub offset_to_sector : ℕ → ℕ
offset_to_sector offset = device_start + offset / disk_sector_size

unfoldable pub ext2_block_to_disk_sector : Ext2Driver → ℕ → ℕ
ext2_block_to_disk_sector d blockno =
    offset_to_sector (blockno * 2 ^ d.superblock.log2block_size % 2 ^ 32 * 2 ^ 10 % 2 ^ 32)

unfoldable pub ext2_disk_sector_to_block : Ext2Driver → ℕ → ℕ
ext2_disk_sector_to_block d disk_sector = disk_sector / 2 ^ d.superblock.log2block_size / 2 ^ 10

-- `inode - 1` wraps for inode 0.
unfoldable pub ext2_get_inode_block_group : Ext2Driver → ℕ → ℕ
ext2_get_inode_block_group d inode = (inode + (2 ^ 32 - 1)) % 2 ^ 32 / d.superblock.inodes_per_group

unfoldable pub ext2_get_inode_block_group_index : Ext2Driver → ℕ → ℕ
ext2_get_inode_block_group_index d inode =
    (inode + (2 ^ 32 - 1)) % 2 ^ 32 % d.superblock.inodes_per_group

-- A sum and products of 32 bits, widened when it is returned.
unfoldable pub ext2_get_inode_offset : Ext2Driver → ℕ → ℕ
unfolding inode_table_at ext2_get_inode_block_group ext2_get_inode_block_group_index
ext2_get_inode_offset d inode =
    let block = inode_table_at d.bgdt (ext2_get_inode_block_group d inode) in
    (d.block_size * block + ext2_get_inode_block_group_index d inode * d.inode_size) % 2 ^ 32

-- The data of the buffer that `bread(0, sector)` gives; the request of a sector at or behind `FSSIZE`
-- panics.
unfoldable pub sector_data : Calls → ℕ → Outcome Bytes
sector_data e sector = if leb fssize sector then panic else ok (e.sector sector)

unfoldable pub read_disk_sector : Calls → Bytes → ℕ → ℕ → ℕ → Outcome Bytes
unfolding copy_in sector_data
read_disk_sector e m out sector byte_count =
    sector_data e sector >>= λ b. ok (copy_in m out b byte_count)

-- The loop of ext2_read_block with `n` sectors left.
unfoldable pub read_sectors : Calls → ℕ → Bytes → ℕ → ℕ → ℕ → Outcome Bytes
unfolding read_disk_sector
read_sectors e zero m out offset sector = ok m
read_sectors e (suc n) m out offset sector =
    read_disk_sector e m (out + offset) sector disk_sector_size >>= λ next.
    read_sectors e n next out (offset + disk_sector_size) (suc sector)

unfoldable pub ext2_read_block : Calls → Ext2Driver → Bytes → ℕ → ℕ → Outcome Bytes
unfolding read_sectors ext2_block_to_disk_sector
ext2_read_block e d m out block =
    read_sectors e (d.block_size / disk_sector_size) m out 0 (ext2_block_to_disk_sector d block)

-- The sector that ext2_read_inode reads: `& ~511U` clears the low nine bits of a number below 2 ^ 32.
abbrev pub inode_sector : Ext2Driver → ℕ → ℕ
inode_sector d inode_num = offset_to_sector (ext2_get_inode_offset d inode_num / 512 * 512)

unfoldable pub ext2_read_inode : Calls → Ext2Driver → ℕ → Outcome Inode
unfolding ext2_get_inode_offset ext2_get_inode_block_group_index inode_at sector_data
ext2_read_inode e d inode_num =
    let index = ext2_get_inode_block_group_index d inode_num in
    sector_data e (inode_sector d inode_num) >>= λ b2.
    ok (inode_at b2 (bit_and (index * d.inode_size) (512 - 1)))
