-- ===== src/Files/Stat.antt =====
-- SYSHANDLER_fstat of src/kernel/arch/x86_64/syscalls.c with src/kernel/fs/vfs.c.
use swag_os.Base.{
  ℕ, zero, suc, ◌+◌, ◌-◌, ◌*◌, ◌/◌, ◌%◌, ◌^◌, ◌<◌, ◌≤◌, ◌≡◌, refl, ap, ◌∙◌, Bool, true, false, not,
  Option, none, some, ltb, ◌==◌, if◌then◌else◌, arith,
}
use native.Mathlib.Numerals.{unary_clauses}
use swag_os.Base.Outcome.{Outcome, ok, ◌>>=◌}
use swag_os.Libc.{Bytes}
use swag_os.Ext2.{Calls, Inode, Ext2Driver, copy_in}
use swag_os.Ext2.Directory.{ext2_find_file_inode, ext2_file_exists, ext2_dir_exists}
use swag_os.Files.{UserMemory, FileState, end_of_interrupt, uint64_max, may_access, write_struct}

-- `struct stat`
pub record Stat : Type 0 where
  pub st_dev : ℕ
  pub st_ino : ℕ
  pub st_mode : ℕ
  pub st_nlink : ℕ
  pub st_uid : ℕ
  pub st_gid : ℕ
  pub st_rdev : ℕ
  pub st_size : ℕ
  pub st_blksize : ℕ
  pub st_blocks : ℕ
  pub st_atime : ℕ
  pub st_mtime : ℕ
  pub st_ctime : ℕ

-- Byte `j` of a number.
unfoldable pub byte_of : ℕ → ℕ → ℕ
byte_of v zero = v % 256
byte_of v (suc j) = byte_of (v / 256) j

-- `struct stat` in memory, with what `gap` holds in the two gaps that align its fields.
unfoldable pub stat_bytes : Stat → Bytes → Bytes
unfolding byte_of
stat_bytes s gap a =
    if ltb a 8
    then byte_of s.st_dev a
    else if ltb a 16
    then byte_of s.st_ino (a - 8)
    else if ltb a 20
    then byte_of s.st_mode (a - 16)
    else if ltb a 24
    then gap a
    else if ltb a 32
    then byte_of s.st_nlink (a - 24)
    else if ltb a 36
    then byte_of s.st_uid (a - 32)
    else if ltb a 40
    then byte_of s.st_gid (a - 36)
    else if ltb a 48
    then byte_of s.st_rdev (a - 40)
    else if ltb a 56
    then byte_of s.st_size (a - 48)
    else if ltb a 60
    then byte_of s.st_blksize (a - 56)
    else if ltb a 64
    then gap a
    else if ltb a 72
    then byte_of s.st_blocks (a - 64)
    else if ltb a 80
    then byte_of s.st_atime (a - 72)
    else if ltb a 88
    then byte_of s.st_mtime (a - 80)
    else byte_of s.st_ctime (a - 88)

-- `sizeof(stat)`
abbrev pub stat_size : ℕ
stat_size = 96

-- What fill_statbuf writes; `st_size` gets the value of the assignment to `st_blksize`, an int that is
-- widened with its sign.
unfoldable pub stat_of : Ext2Driver → ℕ → Inode → Stat
stat_of d inode_num inode = record {
  st_dev = 0;
  st_ino = inode_num;
  st_mode = inode.mode;
  st_nlink = 0;
  st_uid = 0;
  st_gid = 0;
  st_rdev = 0;
  st_size = if ltb d.block_size (2 ^ 31) then d.block_size else d.block_size + (2 ^ 64 - 2 ^ 32);
  st_blksize = d.block_size;
  st_blocks = d.total_blocks * (d.block_size / 512) % 2 ^ 32;
  st_atime = 0;
  st_mtime = 0;
  st_ctime = 0;
}

-- fill_statbuf: its result, 2 ^ 32 - 1 for -1, and the buffer. It has no return where it fills the buffer,
-- so that its result there, `left`, is whatever the register holds. The size of the file, which is
-- computed before, has 32 bits, so that the test for UINT64_MAX never holds.
unfoldable pub fill_statbuf : Calls → Ext2Driver → ℕ → ℕ → Stat → Bytes → Outcome (ℕ × Stat)
unfolding ext2_find_file_inode stat_of
fill_statbuf e d fuel left statbuf filepath = ext2_find_file_inode e d fuel filepath >>= λ r.
    elim r [
      | none ↦ ok (2 ^ 32 - 1, statbuf)
      | some (inode_num, inode) ↦ ok (left, stat_of d inode_num inode)
    ]

-- The end of SYSHANDLER_fstat: the test of the result and the copy to the caller.
unfoldable pub give_stat : FileState → ℕ → Bytes → ℕ × Stat → FileState × ℕ
unfolding write_struct stat_bytes
give_stat s rdx gap r =
    let w = write_struct s.memory rdx (stat_bytes r.1 gap) stat_size in
    if r.0 == 2 ^ 32 - 1
    then (s, uint64_max)
    else (record s { memory = w.1 }, if w.0 then 0 else uint64_max)

-- The state and `rax`. What lies in the stack where `statbuf` is placed are `left`, `statbuf` and `gap`.
unfoldable pub sys_fstat :
    Calls → Ext2Driver → ℕ → ℕ → Stat → Bytes → FileState → ℕ → ℕ → Outcome (FileState × ℕ)
unfolding ext2_file_exists ext2_dir_exists fill_statbuf give_stat
sys_fstat e d fuel left statbuf gap s rsi rdx =
    let path = (s.fd rsi).path in
    let s1 = end_of_interrupt s in
    if not (s.fd rsi).in_use
    then ok (s, uint64_max)
    else (ext2_file_exists e d fuel path >>= λ file.
        (if file then ok true else ext2_dir_exists e d fuel path) >>= λ exists.
        if exists
        then (fill_statbuf e d fuel left statbuf path >>= λ r. ok (give_stat s1 rdx gap r))
        else ok (s1, uint64_max))

-- The number in `w` bytes from `o` on, the lowest first.
unfoldable pub read_int : ℕ → ℕ → Bytes → ℕ
read_int zero o b = 0
read_int (suc w) o b = b o + 256 * read_int w (suc o) b

read_int-bytes :
    (w o v : ℕ) (b : Bytes)
    → v < 256 ^ w
    → ((j : ℕ) → j < w → b (o + j) ≡ byte_of v j)
    → read_int w o b ≡ v
unfolding read_int byte_of
read_int-bytes zero o v b lt same = omega (arith, lt)
read_int-bytes (suc w) o v b lt same =
    let first : b o ≡ v % 256 = ap b (omega arith) ∙ same 0 (omega arith) in
    let bound : v < 256 ^ w * 256 = simp unary_clauses at lt in
    let rest : read_int w (suc o) b ≡ v / 256 =
      read_int-bytes w (suc o) (v / 256) b (omega (arith, bound))
        (λ j j<. ap b (omega arith) ∙ same (suc j) (omega (arith, j<))) in
    omega (arith, first, rest)

copied-inside :
    (m src : Bytes) (out i n : ℕ) → i < n → (a : ℕ) → a ≡ out + i → copy_in m out src n a ≡ src i
unfolding copy_in
copied-inside m src out i n lt a eq = ground (arith, lt, eq)

-- A field of the structure at `rdx`, once the structure has been copied there.
copied-field :
    (m gap : Bytes) (t : Stat) (rdx o w v : ℕ)
    → v < 256 ^ w
    → o + w ≤ stat_size
    → ((j : ℕ) → j < w → stat_bytes t gap (o + j) ≡ byte_of v j)
    → read_int w (rdx + o) (copy_in m rdx (stat_bytes t gap) stat_size) ≡ v
copied-field m gap t rdx o w v lt inside same =
    read_int-bytes w (rdx + o) v (copy_in m rdx (stat_bytes t gap) stat_size) lt (λ j j<.
      copied-inside m (stat_bytes t gap) rdx (o + j) stat_size (omega (arith, inside, j<))
        (rdx + o + j) (omega arith)
      ∙ same j j<)

-- What the caller of SYSHANDLER_fstat finds: the fields st_ino, st_mode and st_size, at their offsets,
-- and all other bytes as they were.
abbrev pub Described : Ext2Driver → ℕ → Inode → ℕ → UserMemory → UserMemory → Type 0
Described d n inode rdx u u1 =
    (read_int 8 (rdx + 8) u1.bytes ≡ n)
    × (read_int 4 (rdx + 16) u1.bytes ≡ inode.mode)
    × (read_int 8 (rdx + 48) u1.bytes ≡ d.block_size)
    × ((a : ℕ) → a < rdx → u1.bytes a ≡ u.bytes a)
    × ((a : ℕ) → rdx + stat_size ≤ a → u1.bytes a ≡ u.bytes a)

stat-Described :
    (d : Ext2Driver) (n rdx : ℕ) (inode : Inode) (u : UserMemory) (gap : Bytes)
    → n < 2 ^ 32
    → inode.mode < 2 ^ 16
    → d.block_size < 2 ^ 31
    → Described d n inode rdx u
        (record u { bytes = copy_in u.bytes rdx (stat_bytes (stat_of d n inode) gap) stat_size })
unfolding copy_in stat_bytes stat_of
stat-Described d n rdx inode u gap n< mode< size< = (
  copied-field u.bytes gap (stat_of d n inode) rdx 8 8 n (omega (arith, n<)) (omega arith)
      (λ j lt. ground arith),
  copied-field u.bytes gap (stat_of d n inode) rdx 16 4 inode.mode (omega (arith, mode<))
      (omega arith) (λ j lt. ground arith),
  copied-field u.bytes gap (stat_of d n inode) rdx 48 8 d.block_size (omega (arith, size<))
      (omega arith) (λ j lt. ground arith),
  (λ a lt. ground arith),
  (λ a le. ground arith),
)

-- SYSHANDLER_fstat of an open descriptor, in its parts.
fstat-opened :
    (e : Calls) (d : Ext2Driver) (fuel left : ℕ) (statbuf : Stat) (gap : Bytes) (s : FileState)
    (rsi rdx n : ℕ) (inode : Inode)
    → (s.fd rsi).in_use ≡ true
    → ext2_file_exists e d fuel (s.fd rsi).path ≡ ok true
    → ext2_find_file_inode e d fuel (s.fd rsi).path ≡ ok (some (n, inode))
    → sys_fstat e d fuel left statbuf gap s rsi rdx
      ≡ ok (give_stat (end_of_interrupt s) rdx gap (left, stat_of d n inode))
unfolding sys_fstat fill_statbuf
fstat-opened e d fuel left statbuf gap s rsi rdx n inode used there found =
    let path = (s.fd rsi).path in
    let s1 = end_of_interrupt s in
    let give : ℕ × Stat → Outcome (FileState × ℕ) = λ r. ok (give_stat s1 rdx gap r) in
    let filled : Option (ℕ × Inode) → Outcome (ℕ × Stat) = λ r. elim r [
      | none ↦ ok (2 ^ 32 - 1, statbuf)
      | some (inode_num, i) ↦ ok (left, stat_of d inode_num i)
    ] in
    let go : Bool → Outcome (FileState × ℕ) =
      λ b. if b then (fill_statbuf e d fuel left statbuf path >>= give) else ok (s1, uint64_max) in
    let rest = ext2_file_exists e d fuel path >>= λ file.
    (if file then ok true else ext2_dir_exists e d fuel path) >>= go in
    ap (λ b. if not b then ok (s, uint64_max) else rest) used
    ∙ ap (λ o. o >>= λ file. (if file then ok true else ext2_dir_exists e d fuel path) >>= go) there
    ∙ ap (λ o. (o >>= filled) >>= give) found

abbrev with_bytes : FileState → Bytes → FileState
with_bytes s b = record s { memory = record s.memory { bytes = b } }

give-written :
    (s : FileState) (rdx : ℕ) (gap : Bytes) (left : ℕ) (t : Stat)
    → left < 2 ^ 32 - 1
    → may_access s.memory rdx stat_size ≡ true
    → give_stat s rdx gap (left, t)
      ≡ (with_bytes s (copy_in s.memory.bytes rdx (stat_bytes t gap) stat_size), 0)
unfolding give_stat write_struct
give-written s rdx gap left t left< may =
    let neq : (left == 2 ^ 32 - 1) ≡ false = ground (arith, left<) in rw (neq, may) refl

-- SYSHANDLER_fstat of a descriptor in use, of a file that exists, with blocks of less than 2 ^ 31 bytes,
-- into a buffer that the thread may access, and where what the register holds at the end of fill_statbuf
-- is not -1, returns 0. The caller finds the result of ext2_find_file_inode as the inode's number, the mode
-- of the inode, and the size of a block as the size of the file; no byte outside the structure changes.
pub sys_fstat_lem :
    (e : Calls) (d : Ext2Driver) (fuel left : ℕ) (statbuf : Stat) (gap : Bytes) (s : FileState)
    (rsi rdx n : ℕ) (inode : Inode)
    → (s.fd rsi).in_use ≡ true
    → ext2_file_exists e d fuel (s.fd rsi).path ≡ ok true
    → ext2_find_file_inode e d fuel (s.fd rsi).path ≡ ok (some (n, inode))
    → n < 2 ^ 32
    → inode.mode < 2 ^ 16
    → d.block_size < 2 ^ 31
    → left < 2 ^ 32 - 1
    → may_access s.memory rdx stat_size ≡ true
    → (s1 : FileState) × (sys_fstat e d fuel left statbuf gap s rsi rdx ≡ ok (s1, 0))
      × Described d n inode rdx s.memory s1.memory
sys_fstat_lem e d fuel left statbuf gap s rsi rdx n inode used there found n< mode< size< left<
      may =
    (
      with_bytes (end_of_interrupt s)
          (copy_in s.memory.bytes rdx (stat_bytes (stat_of d n inode) gap) stat_size),
      fstat-opened e d fuel left statbuf gap s rsi rdx n inode used there found
          ∙ ap ok (give-written (end_of_interrupt s) rdx gap left (stat_of d n inode) left< may),
      stat-Described d n rdx inode s.memory gap n< mode< size<,
    )
