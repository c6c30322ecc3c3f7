-- ===== src/Ext2/Paths.antt =====
-- ext2_find_file_inode of src/kernel/fs/ext2.c: the rounds of its loop over the names of a path.
use swag_os.Base.{
  ℕ, suc, ◌+◌, ◌-◌, ◌%◌, ◌^◌, ◌<◌, ◌≡◌, ◌≢◌, refl, ap, ◌∙◌, false, leb, ==_ne, none, some, arith,
}
use swag_os.Base.Outcome.{ok, ◌>>=◌}
use swag_os.Libc.{Bytes, strlen, store_byte}
use swag_os.Ext2.{Calls, Inode, Ext2Driver, copy_in, ext2_read_block, ext2_read_inode}
use swag_os.Ext2.Directory.{
  from, search_blocks, descend, find_below, find_split, ext2_read_from_directory,
  ext2_read_from_root_directory, strcmp, strsplit, slash, root_path, ext2_find_file_inode,
}

-- `n` rounds of the loop that each find their name: from an inode, the place of its next name and a
-- buffer to those after the rounds.
pub data Reaches (e : Calls) (d : Ext2Driver) (fuel : ℕ) (names : Bytes)
    : ℕ → ℕ → ℕ → Bytes → ℕ → ℕ → Bytes → Type 0 where
  arrived : {inode at : ℕ} {buf : Bytes} → Reaches e d fuel names 0 inode at buf inode at buf
  through :
      {n inode at next len last end : ℕ} {buf buf1 buf2 : Bytes}
      → search_blocks e d fuel inode (from names at) buf ≡ ok (some (next, buf1))
      → strlen fuel names at ≡ ok len
      → Reaches e d fuel names n next (at + len + 1) buf1 last end buf2
      → Reaches e d fuel names (suc n) inode at buf last end buf2

descend-round :
    (e : Calls) (d : Ext2Driver) (fuel n inode : ℕ) (names : Bytes) (at next len : ℕ)
    (buf buf1 : Bytes)
    → search_blocks e d fuel inode (from names at) buf ≡ ok (some (next, buf1))
    → strlen fuel names at ≡ ok len
    → descend e d fuel (suc n) inode names at buf
      ≡ descend e d fuel n next names (at + len + 1) buf1
unfolding descend
descend-round e d fuel n inode names at next len buf buf1 finds ends =
    rw (finds, ends, descend) refl

descend-missed :
    (e : Calls) (d : Ext2Driver) (fuel n inode : ℕ) (names : Bytes) (at : ℕ) (buf : Bytes)
    → search_blocks e d fuel inode (from names at) buf ≡ ok none
    → descend e d fuel (suc n) inode names at buf ≡ ok none
unfolding descend
descend-missed e d fuel n inode names at buf misses = rw (misses, descend) refl

-- The rounds that find their names, and then the others.
descend-Reaches :
    (e : Calls) (d : Ext2Driver) (fuel m : ℕ) (names : Bytes) {n inode at last end : ℕ}
    {buf buf2 : Bytes}
    → Reaches e d fuel names n inode at buf last end buf2
    → descend e d fuel (n + m) inode names at buf ≡ descend e d fuel m last names end buf2
descend-Reaches e d fuel m names {inode = inode} {at = at} {buf = buf} arrived =
    ap (λ x. descend e d fuel x inode names at buf) (omega arith)
descend-Reaches e d fuel m names {n = suc n} {inode = inode} {at = at} {buf = buf}
      (through {next = next} {len = len} {buf1 = buf1} finds ends rest) =
    ap (λ x. descend e d fuel x inode names at buf) (omega arith)
    ∙ descend-round e d fuel (n + m) inode names at next len buf buf1 finds ends
    ∙ descend-Reaches e d fuel m names rest

-- The first block of an inode names no file so called.
search-missed :
    (e : Calls) (d : Ext2Driver) (fuel inode_num : ℕ) (filename buf buf1 : Bytes) (inode : Inode)
    → ext2_read_inode e d inode_num ≡ ok inode
    → inode.blocks 0 ≢ 0
    → ext2_read_block e d buf 0 (inode.blocks 0) ≡ ok buf1
    → ext2_read_from_directory e d fuel filename buf1 0 ≡ ok 0
    → search_blocks e d fuel inode_num filename buf ≡ ok none
unfolding search_blocks
search-missed e d fuel inode_num filename buf buf1 inode reads ne loads misses =
    rw (reads, ==_ne (inode.blocks 0) 0 ne, loads, misses, search_blocks) refl

below-deep :
    (e : Calls) (d : Ext2Driver) (fuel depth first at : ℕ) (names buf : Bytes)
    → leb depth 1 ≡ false
    → e.kalloc d.block_size ≡ some buf
    → descend e d fuel depth first names at buf ≡ ok none
    → find_below e d fuel names depth first at ≡ ok none
unfolding find_below
below-deep e d fuel depth first at names buf deep given goes =
    rw (deep, given, goes, find_below) refl

split-below :
    (e : Calls) (d : Ext2Driver) (fuel parts first len : ℕ) (names : Bytes)
    → ext2_read_from_root_directory e d fuel (from names 1) ≡ ok first
    → strlen fuel names 1 ≡ ok len
    → find_split e d fuel names parts
      ≡ find_below e d fuel names ((parts + (2 ^ 32 - 1)) % 2 ^ 32) first (1 + len + 1)
unfolding find_split
split-below e d fuel parts first len names root ends =
    let depth = (parts + (2 ^ 32 - 1)) % 2 ^ 32 in
    ap
      (λ o. o >>= λ inode.
        strlen fuel names 1 >>= λ l. find_below e d fuel names depth inode (1 + l + 1))
      root
    ∙ ap (λ o. o >>= λ l. find_below e d fuel names depth first (1 + l + 1)) ends

split-deep :
    (e : Calls) (d : Ext2Driver) (fuel n first len : ℕ) (names buf : Bytes)
    → 0 < n
    → suc (suc n) < 2 ^ 32
    → ext2_read_from_root_directory e d fuel (from names 1) ≡ ok first
    → strlen fuel names 1 ≡ ok len
    → e.kalloc d.block_size ≡ some buf
    → descend e d fuel (n + 1) first names (1 + len + 1) buf ≡ ok none
    → find_split e d fuel names (suc (suc n)) ≡ ok none
split-deep e d fuel n first len names buf pos lt root ends given goes =
    let depth : (suc (suc n) + (2 ^ 32 - 1)) % 2 ^ 32 ≡ n + 1 = omega (arith, lt) in
    split-below e d fuel (suc (suc n)) first len names root ends
    ∙ ap (λ x. find_below e d fuel names x first (1 + len + 1)) depth
    ∙ below-deep e d fuel (n + 1) first (1 + len + 1) names buf (ground (arith, pos)) given goes

find-split :
    (e : Calls) (d : Ext2Driver) (fuel res len parts : ℕ) (path m names : Bytes)
    → strcmp fuel path root_path ≡ ok res
    → res ≢ 0
    → strlen fuel path 0 ≡ ok len
    → e.kalloc (len + 1) ≡ some m
    → strsplit fuel (store_byte (copy_in m 0 path len) len 0) slash ≡ ok (names, parts)
    → ext2_find_file_inode e d fuel path ≡ find_split e d fuel names parts
unfolding ext2_find_file_inode
find-split e d fuel res len parts path m names says ne ends given splits =
    rw (says, ==_ne res 0 ne, ends, given, splits, ext2_find_file_inode) refl

-- ext2_find_file_inode on a path that is not `/` and that strsplit cuts into two or more names behind
-- the first slash, each of which is found, where kalloc gives memory for the copy of the path and for a
-- block: where the loop comes to the inode of the last name with a first block, it goes on to search
-- that block for the string behind the copy of the path, and returns UINT32_MAX unless the block names
-- a file so called.
pub find_file_inode_too_deep :
    (e : Calls) (d : Ext2Driver) (fuel n res size first len last end : ℕ)
    (path m names buf buf2 block : Bytes) (inode : Inode)
    → 0 < n
    → suc (suc n) < 2 ^ 32
    → strcmp fuel path root_path ≡ ok res
    → res ≢ 0
    → strlen fuel path 0 ≡ ok size
    → e.kalloc (size + 1) ≡ some m
    → strsplit fuel (store_byte (copy_in m 0 path size) size 0) slash ≡ ok (names, suc (suc n))
    → ext2_read_from_root_directory e d fuel (from names 1) ≡ ok first
    → strlen fuel names 1 ≡ ok len
    → e.kalloc d.block_size ≡ some buf
    → Reaches e d fuel names n first (1 + len + 1) buf last end buf2
    → ext2_read_inode e d last ≡ ok inode
    → inode.blocks 0 ≢ 0
    → ext2_read_block e d buf2 0 (inode.blocks 0) ≡ ok block
    → ext2_read_from_directory e d fuel (from names end) block 0 ≡ ok 0
    → ext2_find_file_inode e d fuel path ≡ ok none
find_file_inode_too_deep e d fuel n res size first len last end path m names buf buf2 block inode
      pos lt says other whole copied splits root ends given reach reads ne loads misses =
    find-split e d fuel res size (suc (suc n)) path m names says other whole copied splits
    ∙ split-deep e d fuel n first len names buf pos lt root ends given (
        descend-Reaches e d fuel 1 names reach
        ∙ descend-missed e d fuel 0 last names end buf2
            (search-missed e d fuel last (from names end) buf2 block inode reads ne loads misses))
