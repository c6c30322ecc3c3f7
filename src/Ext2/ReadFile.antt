-- ===== src/Ext2/ReadFile.antt =====
-- ext2_read_file and ext2_read_dir of src/kernel/fs/ext2.c: what they return for an inode whose content
-- lies in its direct blocks.
use swag_os.Base.{
  ℕ, ◌+◌, ◌*◌, ◌<◌, ◌≡◌, refl, ap, ◌∙◌, ◌⊎◌, inl, inr, Bool, true, false, not, ◌&&◌, ◌==◌, ltb,
  if◌then◌else◌, Bool-cases, Option, some, arith,
}
use swag_os.Base.Outcome.{Outcome, ok, ◌>>=◌}
use swag_os.Libc.{Bytes}
use swag_os.Ext2.{inode_type_file, inode_type_directory, Calls, Inode, Ext2Driver}
use swag_os.Ext2.Blocks.{fs_byte, IsGeometry, IsOnDisk}
use swag_os.Ext2.Directory.{is_type, ext2_find_file_inode}
use swag_os.Ext2.Content.{Holds, read_direct_lem}
use swag_os.Ext2.File.{
  ext2_get_file_size, count_direct, read_direct, append_indirect, read_content, read_allocated,
  read_found, ext2_read_file, ext2_read_dir, ext2_read_single_indirect, ext2_read_double_indirect,
}

-- A file that ends within its direct blocks.
abbrev pub IsSmall : Inode → Type 0
IsSmall inode = (count_direct 12 0 inode < 12) ⊎ ((inode.blocks 12 ≡ 0) × (inode.blocks 13 ≡ 0))

append-none :
    (read : ℕ → Outcome (Bytes × ℕ)) (block : ℕ) (buf : Bytes) (offset : ℕ)
    → block ≡ 0
    → append_indirect read block buf offset ≡ ok (buf, offset)
unfolding append_indirect
append-none read block buf offset z = rw (ap (λ x. x == 0) z) refl

content-stops :
    (e : Calls) (d : Ext2Driver) (fuel : ℕ) (inode : Inode) (buf : Bytes)
    (direct : Bytes × ℕ × Bool)
    → read_direct e d 12 0 inode buf 0 ≡ ok direct
    → direct.2 ≡ true
    → read_content e d fuel inode buf ≡ ok direct.0
unfolding read_content
content-stops e d fuel inode buf direct reads stop = rw (reads, stop) refl

content-goes :
    (e : Calls) (d : Ext2Driver) (fuel : ℕ) (inode : Inode) (buf : Bytes)
    (direct : Bytes × ℕ × Bool)
    → read_direct e d 12 0 inode buf 0 ≡ ok direct
    → direct.2 ≡ false
    → inode.blocks 12 ≡ 0
    → inode.blocks 13 ≡ 0
    → read_content e d fuel inode buf ≡ ok direct.0
unfolding read_content
content-goes e d fuel inode buf direct reads goes z12 z13 =
    rw
      (
        reads,
        goes,
        append-none (ext2_read_single_indirect e d fuel) (inode.blocks 12) direct.0 direct.1 z12,
        append-none (ext2_read_double_indirect e d fuel) (inode.blocks 13) direct.0 direct.1 z13,
      )
      refl

content_lem :
    (e : Calls) (d : Ext2Driver) (fuel : ℕ) (inode : Inode) (buf : Bytes)
    → IsGeometry d
    → IsSmall inode
    → ((k : ℕ) → k < 12 → IsOnDisk d (inode.blocks k))
    → (b : Bytes) × (read_content e d fuel inode buf ≡ ok b)
      × ((k : ℕ) → k < count_direct 12 0 inode → Holds e d b (k * d.block_size) (inode.blocks k))
content_lem e d fuel inode buf geometry small on_disk =
    let c = count_direct 12 0 inode in
    let (direct, reads, said) = read_direct_lem e d 12 0 inode buf 0 geometry on_disk in
    (
      direct.0,
      elim (Bool-cases (ltb c 12)) [
        | inl fewer ↦ content-stops e d fuel inode buf direct reads (said.stopped ∙ fewer)
        | inr all ↦ elim small [
          | inl lt ↦ absurd (ground (arith, all, lt))
          | inr (z12, z13) ↦
              content-goes e d fuel inode buf direct reads (said.stopped ∙ all) z12 z13
        ]
      ],
      λ k lt j within.
          ap direct.0 (omega arith)
          ∙ said.content k lt j within
          ∙ ap (λ x. fs_byte e (inode.blocks x * d.block_size + j)) (omega arith),
    )

allocated-read :
    (e : Calls) (d : Ext2Driver) (fuel : ℕ) (inode : Inode) (buf b : Bytes)
    → read_content e d fuel inode buf ≡ ok b
    → read_allocated e d fuel inode (some buf) ≡ ok (some b)
unfolding read_allocated
allocated-read e d fuel inode buf b reads = rw (reads, read_allocated) refl

abbrev by_type : Calls → Ext2Driver → ℕ → Bytes → Inode → Bool → Outcome (Option Bytes)
by_type e d fuel filepath inode file =
    if not file && not (is_type inode inode_type_directory)
    then ext2_read_dir e d fuel filepath
    else read_allocated e d fuel inode (e.kalloc (ext2_get_file_size e d inode))

found-read :
    (e : Calls) (d : Ext2Driver) (fuel code : ℕ) (filepath : Bytes) (inode : Inode)
    → read_found e d fuel filepath (some (code, inode))
      ≡ by_type e d fuel filepath inode (is_type inode inode_type_file)
unfolding read_found
found-read e d fuel code filepath inode = refl

file-found :
    (e : Calls) (d : Ext2Driver) (fuel : ℕ) (filepath : Bytes) (r : Option (ℕ × Inode))
    → ext2_find_file_inode e d fuel filepath ≡ ok r
    → ext2_read_file e d fuel filepath ≡ read_found e d fuel filepath r
unfolding ext2_read_file
file-found e d fuel filepath r found = ap (λ o. o >>= read_found e d fuel filepath) found

file-read :
    (e : Calls) (d : Ext2Driver) (fuel code : ℕ) (filepath buf b : Bytes) (inode : Inode)
    → ext2_find_file_inode e d fuel filepath ≡ ok (some (code, inode))
    → is_type inode inode_type_file ≡ true
    → e.kalloc (ext2_get_file_size e d inode) ≡ some buf
    → read_content e d fuel inode buf ≡ ok b
    → ext2_read_file e d fuel filepath ≡ ok (some b)
file-read e d fuel code filepath buf b inode found file given reads =
    file-found e d fuel filepath (some (code, inode)) found
    ∙ found-read e d fuel code filepath inode
    ∙ ap (by_type e d fuel filepath inode) file
    ∙ ap (read_allocated e d fuel inode) given
    ∙ allocated-read e d fuel inode buf b reads

-- ext2_read_file of a path whose inode is found, is a regular file that ends within its direct blocks
-- all blocks of which lie in sectors below FSSIZE, and for whose size kalloc gives a buffer, returns a
-- buffer that holds all the blocks of the file up to the first zero, one after the other.
pub read_file_lem :
    (e : Calls) (d : Ext2Driver) (fuel code : ℕ) (filepath buf : Bytes) (inode : Inode)
    → IsGeometry d
    → ext2_find_file_inode e d fuel filepath ≡ ok (some (code, inode))
    → is_type inode inode_type_file ≡ true
    → IsSmall inode
    → ((k : ℕ) → k < 12 → IsOnDisk d (inode.blocks k))
    → e.kalloc (ext2_get_file_size e d inode) ≡ some buf
    → (b : Bytes) × (ext2_read_file e d fuel filepath ≡ ok (some b))
      × ((k : ℕ) → k < count_direct 12 0 inode → Holds e d b (k * d.block_size) (inode.blocks k))
read_file_lem e d fuel code filepath buf inode geometry found file small on_disk given =
    let (b, reads, holds) = content_lem e d fuel inode buf geometry small on_disk in
    (b, file-read e d fuel code filepath buf b inode found file given reads, holds)
