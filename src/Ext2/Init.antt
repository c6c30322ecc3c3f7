-- ===== src/Ext2/Init.antt =====
-- src/kernel/fs/ext2.c: ext2_driver_init and ext2_get_bgd.
use swag_os.Base.{
  ℕ, zero, suc, ◌+◌, ◌-◌, ◌*◌, ◌/◌, ◌%◌, ◌^◌, not, List, [], ◌∷◌, get_or, none, some, leb, ◌==◌,
  if◌then◌else◌,
}
use swag_os.Base.Outcome.{Outcome, ok, panic, ◌>>=◌}
use swag_os.Libc.{Bytes}
use swag_os.Ext2.{
  disk_sector_size, superblock_sector, inode_type_directory, Calls, Superblock, Ext2Driver,
  superblock_at, sector_data, read_disk_sector, ext2_extended_fields_available,
  ext2_block_to_disk_sector, ext2_disk_sector_to_block, ext2_read_block, ext2_read_inode,
}
use swag_os.Ext2.Directory.{from, is_type, ext2_read_from_directory, ext2_find_file_inode}

-- `EXT2_SIGNATURE`
abbrev pub ext2_signature : ℕ
ext2_signature = 0xEF53

-- `DIV_CEIL` on 32 bits
unfoldable pub div_ceil : ℕ → ℕ → ℕ
div_ceil x y = (x + y + (2 ^ 32 - 1)) % 2 ^ 32 / y

-- `DIV_CEIL` on 64 bits, cut to 32 where it is stored
unfoldable pub div_ceil_wide : ℕ → ℕ → ℕ
div_ceil_wide x y = (x + y - 1) / y % 2 ^ 32

-- The loop that reads the `n` blocks of the table from block `i` on.
unfoldable pub read_bgdt : Calls → Ext2Driver → ℕ → ℕ → Bytes → Outcome Bytes
unfolding ext2_read_block ext2_disk_sector_to_block
read_bgdt e d zero i m = ok m
read_bgdt e d (suc n) i m =
    ext2_read_block e d m (i * d.block_size) ((ext2_disk_sector_to_block d 2048 + 1 + i) % 2 ^ 32)
    >>= λ next. read_bgdt e d n (suc i) next

-- The driver once its superblock is known, with its table still to be read: the size of an inode is
-- that of the struct, unless the revision has it written down.
unfoldable pub driver_of : Superblock → Ext2Driver → Ext2Driver
unfolding ext2_extended_fields_available div_ceil
driver_of s d = record d {
  superblock = s;
  inode_size = if leb 1 s.major then s.inode_size else 128;
  total_inodes = s.total_inodes;
  block_size = 1024 * 2 ^ s.log2block_size % 2 ^ 32;
  total_blocks = s.total_blocks;
  blocks_per_group = s.blocks_per_group;
  inodes_per_group = s.inodes_per_group;
  extended_fields_available = ext2_extended_fields_available s;
  total_groups = div_ceil s.total_blocks s.blocks_per_group;
}

-- A string constant, with its zero byte.
unfoldable pub string : List ℕ → Bytes
string s i = get_or s i 0

-- `__hello.txt`
abbrev pub hello_name : Bytes
hello_name = string (95 ∷ 95 ∷ 104 ∷ 101 ∷ 108 ∷ 108 ∷ 111 ∷ 46 ∷ 116 ∷ 120 ∷ 116 ∷ [])

-- `/test`
abbrev pub test_path : Bytes
test_path = string (47 ∷ 116 ∷ 101 ∷ 115 ∷ 116 ∷ [])

-- The walk over the entries of the `n` direct blocks of the root from block `i` on, whose result is not
-- used.
unfoldable pub walk_root : Calls → Ext2Driver → ℕ → ℕ → ℕ → Bytes → Outcome Bytes
unfolding ext2_read_block ext2_read_from_directory
walk_root e d fuel zero i buf = ok buf
walk_root e d fuel (suc n) i buf =
    let block = d.root_inode.blocks i in
    if block == 0
    then ok buf
    else (ext2_read_block e d buf 0 block >>= λ buf1.
        ext2_read_from_directory e d fuel hello_name buf1 0 >>= λ node.
        walk_root e d fuel n (suc i) buf1)

-- The end of the initialisation: two searches whose results are only logged. A buffer that kalloc
-- refuses is written through NULL, which faults.
unfoldable pub try_searches : Calls → Ext2Driver → ℕ → Outcome Ext2Driver
unfolding walk_root ext2_find_file_inode
try_searches e d fuel = elim (e.kalloc d.block_size) [
  | none ↦ panic
  | some root_buf ↦ walk_root e d fuel 12 0 root_buf >>= λ buf.
      ext2_find_file_inode e d fuel test_path >>= λ hello. ok d
]

-- The table of descriptors and the root inode.
unfoldable pub load_tables : Calls → Ext2Driver → Outcome Ext2Driver
unfolding div_ceil_wide read_bgdt ext2_read_inode
load_tables e d =
    let blockno = div_ceil_wide (d.total_groups * 32) d.block_size in
    elim (e.kalloc (blockno * d.block_size % 2 ^ 32)) [
      | none ↦ panic
      | some m ↦ read_bgdt e d blockno 0 m >>= λ table.
          let d1 = record d { bgdt_blockno = blockno; bgdt = table } in
          ext2_read_inode e d1 2 >>= λ root.
          if not (is_type root inode_type_directory)
          then panic
          else ok (record d1 { root_inode = root })
    ]

unfoldable pub ext2_driver_init : Calls → Ext2Driver → ℕ → Outcome Ext2Driver
unfolding superblock_at sector_data read_disk_sector driver_of load_tables try_searches
ext2_driver_init e d fuel = sector_data e superblock_sector >>= λ b.
    if not ((superblock_at b).ext2_magic == ext2_signature) then panic else elim (e.kalloc 1024) [
      | none ↦ panic
      | some m ↦ read_disk_sector e m 0 superblock_sector 512 >>= λ first.
          read_disk_sector e first 512 (superblock_sector + 1) 512 >>= λ both.
          let d1 = driver_of (superblock_at both) d in
          if d1.total_groups == div_ceil d1.total_inodes d1.inodes_per_group
          then (load_tables e d1 >>= λ d2. try_searches e d2 fuel)
          else panic
    ]

-- The descriptor that ext2_get_bgd copies out, as the 32 bytes it consists of.
unfoldable pub ext2_get_bgd : Calls → Ext2Driver → ℕ → Outcome Bytes
unfolding sector_data ext2_disk_sector_to_block ext2_block_to_disk_sector
ext2_get_bgd e d descriptor_index =
    let desc_table_block = ext2_disk_sector_to_block d superblock_sector + 1 in
    let start_disk_sector =
      (ext2_block_to_disk_sector d desc_table_block + descriptor_index * 32 / disk_sector_size)
      % 2 ^ 32 in
    sector_data e start_disk_sector >>= λ b. ok (from b (descriptor_index * 32 % disk_sector_size))
