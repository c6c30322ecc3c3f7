-- ===== src/Ext2/Sample.antt =====
-- A file system of blocks of 1 KB: `/a` is a directory with the file `b`, of one block, which is also
-- `/f`.
use swag_os.Base.{ℕ, ◌+◌, ◌-◌, ◌*◌, false, some, List, [], ◌∷◌, ◌==◌, if◌then◌else◌}
use swag_os.Libc.{Bytes}
use swag_os.Ext2.{Calls, Inode, Ext2Driver}

abbrev pub find_byte : List (ℕ × ℕ) → ℕ → ℕ
find_byte [] a = 0
find_byte ((b, v) ∷ rest) a = let other = find_byte rest a in if b == a then v else other

-- The bytes of the disk that are not zero. Block 5 has the inodes, blocks 10 and 11 the directories,
-- block 12 the file, block 13 a table that names it once.
abbrev pub disk : List (ℕ × ℕ)
disk =
    (5377, 0x40)
    ∷ (5416, 11)
    ∷ (5505, 0x80)
    ∷ (5508, 3)
    ∷ (5544, 12)
    ∷ (10240, 3)
    ∷ (10244, 16)
    ∷ (10246, 1)
    ∷ (10248, 97)
    ∷ (10256, 4)
    ∷ (10260, 16)
    ∷ (10262, 1)
    ∷ (10264, 102)
    ∷ (11264, 4)
    ∷ (11268, 16)
    ∷ (11270, 1)
    ∷ (11272, 98)
    ∷ (12288, 104)
    ∷ (12289, 105)
    ∷ (12290, 33)
    ∷ (12292, 16)
    ∷ (12294, 1)
    ∷ (12296, 33)
    ∷ (13312, 12)
    ∷ []

abbrev pub calls : Calls
calls = record {
  sector = λ s o. find_byte disk ((s - 2048) * 512 + o);
  kalloc = λ n. some (λ a. 0);
  shift_32 = λ x. x;
}

abbrev pub root : Inode
root = record { mode = 0x4000; size = 1024; blocks = λ i. if i == 0 then 10 else 0; size_high = 0 }

abbrev pub driver : Ext2Driver
driver = record {
  total_inodes = 8;
  total_blocks = 64;
  block_size = 1024;
  blocks_per_group = 64;
  inodes_per_group = 8;
  extended_fields_available = false;
  total_groups = 1;
  superblock = record {
    total_inodes = 8;
    total_blocks = 64;
    log2block_size = 0;
    blocks_per_group = 64;
    inodes_per_group = 8;
    ext2_magic = 0xEF53;
    major = 0;
    inode_size = 128;
  };
  bgdt = λ a. if a == 8 then 5 else 0;
  bgdt_blockno = 1;
  inode_size = 128;
  root_inode = root;
}

abbrev pub buffer : Bytes
buffer = λ a. 0

abbrev pub path : Bytes
path = λ j. if j == 0 then 47 else if j == 1 then 102 else 0
