-- ===== src/Ext2/File.antt =====
-- src/kernel/fs/ext2.c: the size and the content of files, and the blocks of directories.
use swag_os.Base.{
  ℕ, zero, suc, ◌+◌, ◌-◌, ◌*◌, ◌/◌, ◌%◌, ◌^◌, bit_or, Bool, true, false, not, ◌&&◌, List, [], ◌∷◌,
  Option, none, some, ltb, ◌==◌, if◌then◌else◌,
}
use swag_os.Base.Outcome.{Outcome, ok, panic, hang, ◌>>=◌}
use swag_os.Libc.{Bytes}
use swag_os.Ext2.{
  u32, inode_type_directory, inode_type_file, Calls, Inode, Ext2Driver, copy_in, ext2_read_block,
}
use swag_os.Ext2.Directory.{is_type, ext2_find_file_inode, ext2_file_exists, ext2_dir_exists, from}

unfoldable pub ext2_get_file_size : Calls → Ext2Driver → Inode → ℕ
ext2_get_file_size e d inode =
    if not (is_type inode inode_type_file)
    then 0x1000
    else bit_or (if d.extended_fields_available then e.shift_32 inode.size_high else 0) inode.size

unfoldable pub path_to_file_size : Calls → Ext2Driver → ℕ → Bytes → Outcome ℕ
unfolding ext2_file_exists ext2_find_file_inode ext2_dir_exists ext2_get_file_size
path_to_file_size e d fuel filepath = ext2_file_exists e d fuel filepath >>= λ file.
    if file
    then (ext2_find_file_inode e d fuel filepath >>= λ r. elim r [
      | none ↦ ok (2 ^ 64 - 1)
      | some (code, inode) ↦ ok (ext2_get_file_size e d inode)
    ])
    else (ext2_dir_exists e d fuel filepath >>= λ dir.
        if dir then ok (0x1000 * 12) else ok (2 ^ 64 - 1))

-- The number of words before the first zero word of a table, from word `x` on.
unfoldable pub count_blocks : ℕ → ℕ → Bytes → Outcome ℕ
count_blocks zero x table = hang
count_blocks (suc fuel) x table =
    let rest = count_blocks fuel (suc x) table in if u32 table (4 * x) == 0 then ok x else rest

-- The blocks that a table names from word `i` on, `n` of them, read one after the other.
unfoldable pub read_table : Calls → Ext2Driver → ℕ → ℕ → Bytes → Bytes → Outcome Bytes
unfolding ext2_read_block
read_table e d zero i table ret_buf = ok ret_buf
read_table e d (suc n) i table ret_buf =
    if u32 table (4 * i) == 0
    then panic
    else (ext2_read_block e d ret_buf (i * d.block_size % 2 ^ 32) (u32 table (4 * i)) >>= λ next.
        read_table e d n (suc i) table next)

-- The buffer and the size that ext2_read_single_indirect returns; all `max_blocks` words are read,
-- whatever their number before the first zero word.
unfoldable pub ext2_read_single_indirect : Calls → Ext2Driver → ℕ → ℕ → Outcome (Bytes × ℕ)
unfolding count_blocks read_table ext2_read_block
ext2_read_single_indirect e d fuel blockno =
    let max_blocks = d.block_size / 4 in
    elim (e.kalloc d.block_size) [
      | none ↦ panic
      | some m ↦ ext2_read_block e d m 0 blockno >>= λ table. count_blocks fuel 0 table >>= λ total.
          if ltb max_blocks total then panic else elim (e.kalloc (total * d.block_size % 2 ^ 32)) [
            | none ↦ panic
            | some ret_buf ↦ read_table e d max_blocks 0 table ret_buf >>= λ b.
                ok (b, total * d.block_size % 2 ^ 32)
          ]
    ]

-- The buffers of the single indirect blocks that a table names from word `i` on, with their sizes.
unfoldable pub read_tables : Calls → Ext2Driver → ℕ → ℕ → ℕ → Bytes → Outcome (List (Bytes × ℕ))
unfolding ext2_read_single_indirect
read_tables e d fuel zero i table = ok []
read_tables e d fuel (suc n) i table =
    if u32 table (4 * i) == 0
    then panic
    else (ext2_read_single_indirect e d fuel (u32 table (4 * i)) >>= λ r.
        read_tables e d fuel n (suc i) table >>= λ rs. ok (r ∷ rs))

unfoldable pub total_size : List (Bytes × ℕ) → ℕ
total_size [] = 0
total_size (r ∷ rs) = r.1 + total_size rs

-- The copies into the result, all to the offset 0, which the loop never advances.
unfoldable pub copy_all : List (Bytes × ℕ) → Bytes → Bytes
unfolding copy_in
copy_all [] out_buf = out_buf
copy_all (r ∷ rs) out_buf = copy_all rs (copy_in out_buf 0 r.0 r.1)

-- The buffer, and the size cut to 32 bits.
unfoldable pub ext2_read_double_indirect : Calls → Ext2Driver → ℕ → ℕ → Outcome (Bytes × ℕ)
unfolding count_blocks read_tables ext2_read_block total_size copy_all
ext2_read_double_indirect e d fuel blockno =
    let max_blocks = d.block_size / 4 in
    elim (e.kalloc d.block_size) [
      | none ↦ panic
      | some m ↦ ext2_read_block e d m 0 blockno >>= λ table. count_blocks fuel 0 table >>= λ total.
          if ltb max_blocks total then panic else elim (e.kalloc (total * 8)) [
            | none ↦ panic
            | some pointers ↦ elim (e.kalloc (total * 4)) [
              | none ↦ panic
              | some sizes ↦ read_tables e d fuel total 0 table >>= λ rs.
                  elim (e.kalloc (total_size rs)) [
                    | none ↦ panic
                    | some out_buf ↦ ok (copy_all rs out_buf, total_size rs % 2 ^ 32)
                  ]
            ]
          ]
    ]

-- How many of the `n` direct blocks from `i` on come before the first zero.
unfoldable pub count_direct : ℕ → ℕ → Inode → ℕ
count_direct zero i inode = 0
count_direct (suc n) i inode =
    let rest = count_direct n (suc i) inode in if inode.blocks i == 0 then 0 else suc rest

-- The direct blocks from `i` on, read one after the other from an offset on, until a zero; the flag says
-- whether a zero was met.
unfoldable pub read_direct :
    Calls → Ext2Driver → ℕ → ℕ → Inode → Bytes → ℕ → Outcome (Bytes × ℕ × Bool)
unfolding ext2_read_block
read_direct e d zero i inode buf offset = ok (buf, offset, false)
read_direct e d (suc n) i inode buf offset =
    if inode.blocks i == 0
    then ok (buf, offset, true)
    else (ext2_read_block e d buf offset (inode.blocks i) >>= λ next.
        read_direct e d n (suc i) inode next (offset + d.block_size))

-- The memory from the returned pointer on, which ext2_read_dir moves past the blocks that it has read.
unfoldable pub ext2_read_dir : Calls → Ext2Driver → ℕ → Bytes → Outcome (Option Bytes)
unfolding ext2_dir_exists ext2_find_file_inode count_direct read_direct
ext2_read_dir e d fuel dir = ext2_dir_exists e d fuel dir >>= λ exists.
    if not exists
    then ok none
    else (ext2_find_file_inode e d fuel dir >>= λ r. elim r [
      | none ↦ ok none
      | some (code, inode) ↦ elim (e.kalloc (count_direct 12 0 inode * d.block_size % 2 ^ 32)) [
        | none ↦ ok none
        | some m ↦ read_direct e d 12 0 inode m 0 >>= λ blocks. ok (some (from blocks.0 blocks.1))
      ]
    ])

-- An indirect block, where the inode has one, copied to an offset of the result.
unfoldable pub append_indirect : (ℕ → Outcome (Bytes × ℕ)) → ℕ → Bytes → ℕ → Outcome (Bytes × ℕ)
unfolding copy_in
append_indirect read block buf offset =
    if block == 0
    then ok (buf, offset)
    else (read block >>= λ r. ok (copy_in buf offset r.0 r.1, offset + r.1))

-- The content of an inode in a buffer of kalloc.
unfoldable pub read_content : Calls → Ext2Driver → ℕ → Inode → Bytes → Outcome Bytes
unfolding read_direct append_indirect ext2_read_single_indirect ext2_read_double_indirect
read_content e d fuel inode ret_buf = read_direct e d 12 0 inode ret_buf 0 >>= λ direct.
    if direct.2
    then ok direct.0
    else (append_indirect (ext2_read_single_indirect e d fuel) (inode.blocks 12) direct.0 direct.1
        >>= λ single.
            append_indirect (ext2_read_double_indirect e d fuel) (inode.blocks 13) single.0 single.1
            >>= λ double. ok double.0)

-- The end of ext2_read_file, on what kalloc has given for the size.
unfoldable pub read_allocated :
    Calls → Ext2Driver → ℕ → Inode → Option Bytes → Outcome (Option Bytes)
unfolding read_content
read_allocated e d fuel inode none = panic
read_allocated e d fuel inode (some ret_buf) =
    read_content e d fuel inode ret_buf >>= λ b. ok (some b)

-- What ext2_read_file does with the inode that it has found, and without one. Nothing stands for NULL.
unfoldable pub read_found :
    Calls → Ext2Driver → ℕ → Bytes → Option (ℕ × Inode) → Outcome (Option Bytes)
unfolding ext2_read_dir ext2_get_file_size read_allocated
read_found e d fuel filepath none = ok none
read_found e d fuel filepath (some (code, inode)) =
    if not (is_type inode inode_type_file) && not (is_type inode inode_type_directory)
    then ext2_read_dir e d fuel filepath
    else read_allocated e d fuel inode (e.kalloc (ext2_get_file_size e d inode))

unfoldable pub ext2_read_file : Calls → Ext2Driver → ℕ → Bytes → Outcome (Option Bytes)
unfolding ext2_find_file_inode read_found
ext2_read_file e d fuel filepath =
    ext2_find_file_inode e d fuel filepath >>= read_found e d fuel filepath
