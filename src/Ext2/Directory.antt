-- ===== src/Ext2/Directory.antt =====
-- src/kernel/fs/ext2.c: the search of a directory and of a path, with strcmp.c and strsplit.c of
-- src/libc.
use swag_os.Base.{
  ℕ, zero, suc, ◌+◌, ◌-◌, ◌%◌, ◌^◌, bit_and, Bool, true, false, not, ◌&&◌, Option, none, some, leb,
  ◌==◌, if◌then◌else◌,
}
use swag_os.Base.Outcome.{Outcome, ok, panic, hang, ◌>>=◌}
use swag_os.Libc.{Bytes, strlen, store_byte}
use swag_os.Ext2.{
  u16, u32, inode_type_directory, inode_type_file, Calls, Inode, Ext2Driver, copy_in,
  ext2_read_block, ext2_read_inode,
}

-- A string from an address `i` on.
abbrev pub from : Bytes → ℕ → Bytes
from s i j = s (i + j)

-- The loop of strcmp from position `i` on, on two strings, with `fuel` steps; the difference of the
-- bytes becomes a `size_t`.
unfoldable pub strcmp_from : ℕ → ℕ → Bytes → Bytes → Outcome ℕ
strcmp_from zero i str1 str2 = hang
strcmp_from (suc fuel) i str1 str2 =
    let rest = strcmp_from fuel (suc i) str1 str2 in
    let res = (str1 i + 2 ^ 64 - str2 i) % 2 ^ 64 in
    if res == 0 && not (str2 i == 0) then rest else ok res

unfoldable pub strcmp : ℕ → Bytes → Bytes → Outcome ℕ
unfolding strcmp_from
strcmp fuel str1 str2 = strcmp_from fuel 0 str1 str2

-- The loop of strsplit from position `i` on, with `num` separators met.
unfoldable pub strsplit_from : ℕ → ℕ → ℕ → Bytes → ℕ → Outcome (Bytes × ℕ)
unfolding store_byte
strsplit_from zero i num str split_on = hang
strsplit_from (suc fuel) i num str split_on =
    let split = strsplit_from fuel (suc i) (suc num) (store_byte str i 0) split_on in
    let rest = strsplit_from fuel (suc i) num str split_on in
    if str i == 0 then ok (str, suc num) else if str i == split_on then split else rest

unfoldable pub strsplit : ℕ → Bytes → ℕ → Outcome (Bytes × ℕ)
unfolding strsplit_from
strsplit fuel str split_on = strsplit_from fuel 0 0 str split_on

-- The fields of the `ext2_dir_entry` at `o`; the name follows them.
abbrev pub entry_inode : Bytes → ℕ → ℕ
entry_inode b o = u32 b o

abbrev pub entry_size : Bytes → ℕ → ℕ
entry_size b o = u16 b (o + 4)

-- The copy of an entry's name, with its zero byte; strcmp reads nothing behind that byte.
unfoldable pub entry_name : Bytes → ℕ → Bytes
unfolding copy_in store_byte
entry_name b o = store_byte (copy_in (λ a. 0) 0 (from b (o + 8)) (b (o + 6))) (b (o + 6)) 0

-- A name has at most 255 bytes, so that 256 steps of strcmp reach its zero byte.
abbrev pub name_steps : ℕ
name_steps = 256

-- The walk over the entries from offset `o` of a buffer on, with `fuel` entries. A name's copy that
-- kalloc refuses is written through NULL, which faults; the inode that is read on a match is not used.
unfoldable pub ext2_read_from_directory : Calls → Ext2Driver → ℕ → Bytes → Bytes → ℕ → Outcome ℕ
unfolding strcmp entry_name ext2_read_inode
ext2_read_from_directory e d zero filename buf o = hang
ext2_read_from_directory e d (suc fuel) filename buf o =
    let rest = ext2_read_from_directory e d fuel filename buf (o + entry_size buf o) in
    if entry_inode buf o == 0 then ok 0 else elim (e.kalloc (buf (o + 6) + 1)) [
      | none ↦ panic
      | some m ↦ strcmp name_steps filename (entry_name buf o) >>= λ res.
          if res == 0
          then (ext2_read_inode e d (entry_inode buf o) >>= λ inode. ok (entry_inode buf o))
          else rest
    ]

-- The loop over the direct blocks of the root from block `i` on, on a buffer `buf`.
unfoldable pub root_blocks : Calls → Ext2Driver → ℕ → ℕ → ℕ → Bytes → Bytes → Outcome ℕ
unfolding ext2_read_block ext2_read_from_directory
root_blocks e d fuel zero i filename buf = ok 0
root_blocks e d fuel (suc n) i filename buf =
    let block = d.root_inode.blocks i in
    if block == 0
    then ok 0
    else (ext2_read_block e d buf 0 block >>= λ buf1.
        ext2_read_from_directory e d fuel filename buf1 0 >>= λ inode_num.
        let rest = root_blocks e d fuel n (suc i) filename buf1 in
        if inode_num == 0 then rest else ok inode_num)

abbrev pub is_type : Inode → ℕ → Bool
is_type inode type = bit_and inode.mode 0xF000 == type

unfoldable pub ext2_read_from_root_directory : Calls → Ext2Driver → ℕ → Bytes → Outcome ℕ
unfolding root_blocks
ext2_read_from_root_directory e d fuel filename =
    if not (is_type d.root_inode inode_type_directory)
    then panic
    else elim (e.kalloc d.block_size) [
      | none ↦ panic
      | some buf ↦ root_blocks e d fuel 12 0 filename buf
    ]

-- The loop over the direct blocks of the inode `inode_num`: nothing where a block does not name the
-- file, otherwise the inode to go on with and the buffer. Its body leaves the loop at the first block,
-- found or not.
unfoldable pub search_blocks :
    Calls → Ext2Driver → ℕ → ℕ → Bytes → Bytes → Outcome (Option (ℕ × Bytes))
unfolding ext2_read_block ext2_read_inode ext2_read_from_directory
search_blocks e d fuel inode_num filename buf = ext2_read_inode e d inode_num >>= λ inode.
    if inode.blocks 0 == 0
    then ok (some (inode_num, buf))
    else (ext2_read_block e d buf 0 (inode.blocks 0) >>= λ buf1.
        ext2_read_from_directory e d fuel filename buf1 0 >>= λ tmp.
        if tmp == 0 then ok none else ok (some (tmp, buf1)))

-- `while(dir_depth--)` with `n` rounds left; `at` is where the next name starts in `names`.
unfoldable pub descend : Calls → Ext2Driver → ℕ → ℕ → ℕ → Bytes → ℕ → Bytes → Outcome (Option ℕ)
unfolding search_blocks strlen
descend e d fuel zero inode_num names at buf = ok (some inode_num)
descend e d fuel (suc n) inode_num names at buf =
    search_blocks e d fuel inode_num (from names at) buf >>= λ r. elim r [
      | none ↦ ok none
      | some (next, buf1) ↦
          strlen fuel names at >>= λ len. descend e d fuel n next names (at + len + 1) buf1
    ]

-- The inode of a path that is searched to a depth: `inode_num` is that of its first name in the root,
-- `at` is where its second name starts in `names`. Nothing stands for `UINT32_MAX`.
unfoldable pub find_below :
    Calls → Ext2Driver → ℕ → Bytes → ℕ → ℕ → ℕ → Outcome (Option (ℕ × Inode))
unfolding ext2_read_inode descend
find_below e d fuel names depth inode_num at =
    if leb depth 1
    then (if inode_num == 0
        then ok none
        else (ext2_read_inode e d inode_num >>= λ inode. ok (some (0, inode))))
    else elim (e.kalloc d.block_size) [
      | none ↦ panic
      | some buf ↦ descend e d fuel depth inode_num names at buf >>= λ r. elim r [
        | none ↦ ok none
        | some found ↦ ext2_read_inode e d found >>= λ inode. ok (some (0, inode))
      ]
    ]

-- The result for a path that is not `/`: `names` is the copy of the path, split at its slashes into
-- `parts` strings.
unfoldable pub find_split : Calls → Ext2Driver → ℕ → Bytes → ℕ → Outcome (Option (ℕ × Inode))
unfolding ext2_read_from_root_directory strlen find_below
find_split e d fuel names parts =
    ext2_read_from_root_directory e d fuel (from names 1) >>= λ inode_num.
    strlen fuel names 1 >>= λ len.
    find_below e d fuel names ((parts + (2 ^ 32 - 1)) % 2 ^ 32) inode_num (1 + len + 1)

abbrev pub slash : ℕ
slash = 47

-- The string `/`
abbrev pub root_path : Bytes
root_path i = if i == 0 then slash else 0

unfoldable pub ext2_find_file_inode : Calls → Ext2Driver → ℕ → Bytes → Outcome (Option (ℕ × Inode))
unfolding strcmp strlen copy_in store_byte strsplit find_split
ext2_find_file_inode e d fuel path = strcmp fuel path root_path >>= λ res.
    if res == 0
    then ok (some (2, d.root_inode))
    else (strlen fuel path 0 >>= λ len. elim (e.kalloc (len + 1)) [
      | none ↦ panic
      | some m ↦ strsplit fuel (store_byte (copy_in m 0 path len) len 0) slash >>= λ s.
          find_split e d fuel s.0 s.1
    ])

-- Whether a path is found and its inode is of a type.
unfoldable pub ext2_file_exists : Calls → Ext2Driver → ℕ → Bytes → Outcome Bool
unfolding ext2_find_file_inode
ext2_file_exists e d fuel filepath = ext2_find_file_inode e d fuel filepath >>= λ r. elim r [
  | none ↦ ok false
  | some (code, inode) ↦ ok (is_type inode inode_type_file)
]

unfoldable pub ext2_dir_exists : Calls → Ext2Driver → ℕ → Bytes → Outcome Bool
unfolding strcmp ext2_find_file_inode
ext2_dir_exists e d fuel filepath = strcmp fuel root_path filepath >>= λ res.
    if res == 0
    then ok true
    else (ext2_find_file_inode e d fuel filepath >>= λ r. elim r [
      | none ↦ ok false
      | some (code, inode) ↦ ok (is_type inode inode_type_directory)
    ])
