-- ===== src/Ext2/Tests.antt =====
-- The theorems on ext2, on the small file system of Sample.
use swag_os.Ext2.Sample.{calls, driver, buffer, path}
use swag_os.Base.{
  ℕ, zero, suc, ◌+◌, ◌*◌, ◌/◌, ◌%◌, ◌<◌, ◌≤◌, ◌≡◌, refl, inl, inr, Bool, true, none, some, [], ◌∷◌,
  ◌==◌, ltb, ltb→lt, ==_iff, Bool-cases, ◌&&◌, ap, ◌∙◌, leb, ◌||◌, if◌then◌else◌, arith,
}
use swag_os.Base.Outcome.{ok, panic}
use swag_os.Libc.{Bytes, strlen, store_byte}
use swag_os.BufferCache.Disk.{fssize}
use swag_os.Ext2.{
  u32, Inode, inode_at, ext2_read_block, ext2_read_inode, inode_table_at, copy_in,
  ext2_get_inode_offset, inode_sector, inode_type_file,
}
use swag_os.Ext2.Paths.{arrived, through, find_file_inode_too_deep}
use swag_os.Ext2.Names.{Entries, end_of, entry_of, Looked, read_from_directory_lem}
use swag_os.Ext2.Indirect.{FirstZero, Indirect, single_indirect_lem}
use swag_os.Ext2.ReadFile.{read_file_lem}
use swag_os.Ext2.Content.{Holds}
use swag_os.Ext2.File.{count_direct, ext2_read_file, ext2_read_single_indirect}
use swag_os.Ext2.Blocks.{IsGeometry, IsOnDisk, block_data, size_128, inode_address, read_inode_lem}
use swag_os.Ext2.Directory.{
  from, is_type, search_blocks, ext2_read_from_directory, ext2_read_from_root_directory,
  ext2_find_file_inode, strcmp, strsplit, slash, root_path,
}

root_lookup : ext2_read_from_root_directory calls driver 20 (λ j. if j == 0 then 97 else 0) ≡ ok 3
unfolding ext2_read_from_root_directory
root_lookup = refl

geometry : IsGeometry driver
geometry = refl

address : inode_address driver 4 ≡ 5504
unfolding inode_table_at
address = refl

read_inode_lem_example :
    (ext2_read_inode calls driver 4 ≡ (
      if leb fssize (2048 + inode_address driver 4 / 512)
      then panic
      else ok (
          inode_at
            (calls.sector (2048 + inode_address driver 4 / 512))
            (inode_address driver 4 % 512))))
    × (inode_address driver 4 % 512 + 128 ≤ 512)
read_inode_lem_example =
    read_inode_lem calls driver 4 geometry size_128 (omega arith) (omega arith)
      (omega (arith, address))

abbrev deep_path : Bytes
deep_path = λ j. if j == 0 || j == 2 then slash else if j == 1 then 97 else if j == 3 then 98 else 0

-- The copy of `/a/b`, and what strsplit leaves of it.
abbrev copied : Bytes
copied = store_byte (copy_in buffer 0 deep_path 4) 4 0

abbrev names : Bytes
names = store_byte (store_byte copied 0 0) 2 0

deep_compared : strcmp 20 deep_path root_path ≡ ok 97
unfolding strcmp
deep_compared = refl

deep_length : strlen 20 deep_path 0 ≡ ok 4
unfolding strlen
deep_length = refl

deep_split : strsplit 20 copied slash ≡ ok (names, 3)
unfolding strsplit copy_in store_byte
deep_split = refl

abbrev block_11 : Bytes
block_11 = block_data calls driver buffer 0 11

first_lookup : ext2_read_from_root_directory calls driver 20 (from names 1) ≡ ok 3
unfolding ext2_read_from_root_directory store_byte copy_in
first_lookup = refl

first_length : strlen 20 names 1 ≡ ok 1
unfolding strlen store_byte copy_in
first_length = refl

second_length : strlen 20 names 3 ≡ ok 1
unfolding strlen store_byte copy_in
second_length = refl

second_lookup : search_blocks calls driver 20 3 (from names 3) buffer ≡ ok (some (4, block_11))
unfolding search_blocks block_data store_byte copy_in
second_lookup = refl

abbrev file : Inode
file = inode_at (calls.sector 2058) 384

file_read : ext2_read_inode calls driver 4 ≡ ok file
unfolding ext2_read_inode
file_read = refl

last_block : file.blocks 0 ≡ 12
unfolding inode_at
last_block = refl

abbrev block_12 : Bytes
block_12 = block_data calls driver block_11 0 12

block_12_read : ext2_read_block calls driver block_11 0 12 ≡ ok block_12
unfolding ext2_read_block block_data
block_12_read = refl

third_lookup : ext2_read_from_directory calls driver 20 (from names 5) block_12 0 ≡ ok 0
unfolding ext2_read_from_directory block_data store_byte copy_in
third_lookup = refl

find_file_inode_too_deep_example : ext2_find_file_inode calls driver 20 deep_path ≡ ok none
find_file_inode_too_deep_example =
    find_file_inode_too_deep calls driver 20 1 97 4 3 1 4 5 deep_path buffer names buffer block_11
      block_12 file (omega arith) (omega arith) deep_compared (λ z. omega (arith, z)) deep_length
      refl deep_split first_lookup first_length refl (through second_lookup second_length arrived)
      file_read (λ z. omega (arith, z, last_block))
      (ap (ext2_read_block calls driver block_11 0) last_block ∙ block_12_read) third_lookup

-- A directory with one entry, `b`.
abbrev entries : Bytes
entries =
    λ j. if j == 0 then 4 else if j == 4 then 16 else if j == 6 then 1 else if j == 8 then 98 else 0

abbrev name_b : Bytes
name_b = λ j. if j == 0 then 98 else 0

entry_sector : inode_sector driver 4 ≡ 2058
unfolding ext2_get_inode_offset
entry_sector = refl

one_entry : Entries calls driver entries 0 (0 ∷ [])
one_entry =
    entry_of buffer (λ z. omega (arith, z)) (λ j lt z. ground (arith, lt, z)) refl
      (omega (arith, entry_sector)) (end_of refl)

read_from_directory_lem_example :
    (r : ℕ) × (ext2_read_from_directory calls driver 5 name_b entries 0 ≡ ok r)
    × Looked name_b entries (0 ∷ []) r
read_from_directory_lem_example =
    read_from_directory_lem calls driver 5 name_b entries 0 (0 ∷ []) (λ i. ground arith)
      (λ i. ground arith) one_entry (omega arith)

abbrev table : Bytes
table = block_data calls driver buffer 0 13

table_read : ext2_read_block calls driver buffer 0 13 ≡ ok table
unfolding ext2_read_block block_data
table_read = refl

word_0 : u32 table 0 ≡ 12
unfolding block_data copy_in
word_0 = refl

word_1 : u32 table 4 ≡ 0
unfolding block_data copy_in
word_1 = refl

only_first : (k : ℕ) → k < 1 → u32 table (4 * k) ≡ 12
only_first zero lt = word_0
only_first (suc k) lt = absurd (omega (arith, lt))

one_word : FirstZero table 1
one_word = record { filled = λ y lt z. omega (arith, z, only_first y lt); empty = word_1 }

single_indirect_lem_example :
    Indirect calls driver table 1 (ext2_read_single_indirect calls driver 20 13)
single_indirect_lem_example =
    single_indirect_lem calls driver 20 13 1 buffer table geometry (omega arith) refl table_read
      one_word (λ k lt. omega (arith, only_first k lt)) (omega arith)

file_found : ext2_find_file_inode calls driver 20 path ≡ ok (some (0, file))
unfolding ext2_find_file_inode
file_found = refl

file_type : is_type file inode_type_file ≡ true
unfolding inode_at
file_type = refl

abbrev all_below : ℕ → (ℕ → Bool) → Bool
all_below zero test = true
all_below (suc n) test = test n && all_below n test

all_below-at : (n : ℕ) (test : ℕ → Bool) (k : ℕ) → all_below n test ≡ true → k < n → test k ≡ true
all_below-at zero test k all lt = absurd (omega (arith, lt))
all_below-at (suc n) test k all lt = elim (Bool-cases (k == n)) [
  | inl e ↦ ap test ((==_iff k n).0 e) ∙ ground (arith, all)
  | inr e ↦ all_below-at n test k (ground (arith, all)) (ground (arith, lt, e))
]

file_blocks_small : all_below 12 (λ k. ltb (file.blocks k) 13) ≡ true
unfolding inode_at
file_blocks_small = refl

file_blocks : (k : ℕ) → k < 12 → IsOnDisk driver (file.blocks k)
file_blocks k lt = omega (
  arith,
  ltb→lt (file.blocks k) 13 (all_below-at 12 (λ i. ltb (file.blocks i) 13) k file_blocks_small lt),
)

file_count : count_direct 12 0 file ≡ 1
unfolding count_direct inode_at
file_count = refl

read_file_lem_example :
    (b : Bytes) × (ext2_read_file calls driver 20 path ≡ ok (some b))
    × ((k : ℕ) → k < count_direct 12 0 file → Holds calls driver b (k * 1024) (file.blocks k))
read_file_lem_example =
    read_file_lem calls driver 20 0 path buffer file geometry file_found file_type
      (inl (omega (arith, file_count))) file_blocks refl
