-- ===== src/Files.antt =====
-- The file descriptors of a process: SYSHANDLER_open, SYSHANDLER_read and SYSHANDLER_close of
-- src/kernel/arch/x86_64/syscalls.c, with its functions on user memory.
pub mod Open
pub mod Read
pub mod Stat
mod Tests
use swag_os.Base.{
  ℕ, zero, suc, ◌+◌, ◌-◌, ◌*◌, ◌/◌, ◌%◌, ◌^◌, Bool, true, false, not, ◌&&◌, ◌||◌, Option, none,
  some, ltb, leb, ◌==◌, if◌then◌else◌,
}
use swag_os.Base.Outcome.{Outcome, ok, panic, ◌>>=◌}
use swag_os.Libc.{Bytes, strlen}
use swag_os.Ext2.{Calls, Inode, Ext2Driver, copy_in}
use swag_os.Ext2.Directory.{from, strcmp, ext2_find_file_inode, ext2_file_exists, ext2_dir_exists}
use swag_os.Ext2.File.{ext2_get_file_size, path_to_file_size, ext2_read_file}

-- `UINT64_MAX`
abbrev pub uint64_max : ℕ
uint64_max = 2 ^ 64 - 1

abbrev pub max_path : ℕ
max_path = 260

abbrev pub max_file_desc : ℕ
max_file_desc = 16

-- The memory of the calling thread: which addresses is_frame_mapped_thread and is_frame_mapped_kernel
-- find, and the bytes that its page table gives.
pub record UserMemory : Type 0 where
  pub in_thread : ℕ → Bool
  pub in_kernel : ℕ → Bool
  pub bytes : Bytes

-- The checks that the fetches and WriteStruct make; the end of the range wraps at 64 bits.
unfoldable pub may_access : UserMemory → ℕ → ℕ → Bool
may_access u addr size =
    u.in_thread addr
    && u.in_thread ((addr + size + (2 ^ 64 - 1)) % 2 ^ 64)
    && not (u.in_kernel addr)

-- The fetches of one value assign to their own pointer `out` and leave what it points to: the result and
-- the value that the caller has.
unfoldable pub fetch_byte : UserMemory → ℕ → ℕ → Bool × ℕ
unfolding may_access
fetch_byte u addr out = (may_access u addr 1, out)

unfoldable pub fetch_hword : UserMemory → ℕ → ℕ → Bool × ℕ
unfolding may_access
fetch_hword u addr out = (may_access u addr 2, out)

unfoldable pub fetch_dword : UserMemory → ℕ → ℕ → Bool × ℕ
unfolding may_access
fetch_dword u addr out = (may_access u addr 4, out)

unfoldable pub fetch_qword : UserMemory → ℕ → ℕ → Bool × ℕ
unfolding may_access
fetch_qword u addr out = (may_access u addr 8, out)

unfoldable pub fetch_struct : UserMemory → ℕ → Bytes → ℕ → Bool × Bytes
unfolding may_access copy_in
fetch_struct u addr out size =
    if may_access u addr size then (true, copy_in out 0 (from u.bytes addr) size) else (false, out)

-- The loop of FetchString from byte `i` on, with `n` bytes left.
unfoldable pub fetch_chars : Bytes → ℕ → ℕ → Bytes → Bytes
unfolding copy_in
fetch_chars str zero i buf = buf
fetch_chars str (suc n) i buf =
    let rest = fetch_chars str n (suc i) (copy_in buf i (from str i) 1) in
    if str i == 0 then buf else rest

unfoldable pub fetch_string : UserMemory → ℕ → Bytes → ℕ → Bool × Bytes
unfolding may_access fetch_chars
fetch_string u addr out max_len =
    if may_access u addr max_len
    then (true, fetch_chars (from u.bytes addr) max_len 0 out)
    else (false, out)

unfoldable pub write_struct : UserMemory → ℕ → Bytes → ℕ → Bool × UserMemory
unfolding may_access copy_in
write_struct u addr src size =
    if may_access u addr size
    then (true, record u { bytes = copy_in u.bytes addr src size })
    else (false, u)

pub record FileDescriptor : Type 0 where
  pub in_use : Bool
  pub path : Bytes

-- `enum ERROR`
pub data Error : Type 0 where
  no_error : Error
  file_not_found : Error
  file_read_error : Error

-- What the system calls on files change: the descriptors of the process, with whatever lies around them
-- in memory, the error of the thread, its memory, and how often the end of the interrupt has been
-- signalled.
pub record FileState : Type 0 where
  pub fd : ℕ → FileDescriptor
  pub errno : Error
  pub memory : UserMemory
  pub eois : ℕ

abbrev pub set_fd : FileState → ℕ → FileDescriptor → FileState
set_fd s i f = record s { fd = λ j. if j == i then f else s.fd j }

abbrev pub end_of_interrupt : FileState → FileState
end_of_interrupt s = record s { eois = suc s.eois }

-- A buffer that `memset` has cleared.
abbrev pub cleared : Bytes
cleared a = 0

-- The loop of SYSHANDLER_open over the `n` descriptors from `i` on: the descriptor with the path, or the
-- lowest that is taken as free, for which the test reads `t->fd->in_use`, that of descriptor 0.
pub data FdSearch : Type 0 where
  already_open : ℕ → FdSearch
  lowest : ℕ → FdSearch

unfoldable pub search_fd : ℕ → FileState → Bytes → ℕ → ℕ → ℕ → Outcome FdSearch
unfolding strcmp
search_fd fuel s req_path zero i min_fd = ok (lowest min_fd)
search_fd fuel s req_path (suc n) i min_fd =
    let found = if not (s.fd 0).in_use && ltb i min_fd then i else min_fd in
    let rest = search_fd fuel s req_path n (suc i) found in
    strcmp fuel req_path (s.fd i).path >>= λ res. if res == 0 then ok (already_open i) else rest

-- The end of SYSHANDLER_open where no descriptor has the path.
unfoldable pub open_file : Calls → Ext2Driver → ℕ → FileState → Bytes → ℕ → Outcome (FileState × ℕ)
unfolding ext2_file_exists ext2_dir_exists strlen copy_in
open_file e d fuel s req_path min_fd =
    let s1 = end_of_interrupt s in
    ext2_file_exists e d fuel req_path >>= λ file.
    (if file then ok true else ext2_dir_exists e d fuel req_path) >>= λ exists.
    if exists
    then (strlen fuel req_path 0 >>= λ len. ok (
      set_fd s1 min_fd (record { in_use = true; path = copy_in cleared 0 req_path len }),
      min_fd,
    ))
    else ok (record s1 { errno = file_not_found }, uint64_max)

-- The state and `rax`; the result of FetchStruct is not looked at.
unfoldable pub sys_open : Calls → Ext2Driver → ℕ → FileState → ℕ → ℕ → Outcome (FileState × ℕ)
unfolding fetch_struct search_fd open_file
sys_open e d fuel s rsi rdx =
    let req_path = (fetch_struct s.memory rsi cleared rdx).1 in
    search_fd fuel s req_path max_file_desc 0 (2 ^ 32 - 1) >>= λ r. elim r [
      | already_open i ↦ ok (set_fd s i (record (s.fd i) { in_use = true }), i)
      | lowest min_fd ↦ open_file e d fuel s req_path min_fd
    ]

-- The loop of SYSHANDLER_read with `fuel` chunks: the flag says whether every chunk was written.
unfoldable pub read_chunks : ℕ → Bytes → ℕ → ℕ → ℕ → UserMemory → UserMemory × Bool
unfolding copy_in write_struct
read_chunks zero buf to_read num_read dst u = (u, true)
read_chunks (suc fuel) buf to_read num_read dst u =
    let rw_size = if ltb (to_read - num_read) 0x200 then to_read - num_read else 0x200 in
    let tmp_buf = copy_in cleared 0 (from buf num_read) rw_size in
    let w = write_struct u ((dst + num_read) % 2 ^ 64) tmp_buf rw_size in
    let rest = read_chunks fuel buf to_read (num_read + rw_size) dst w.1 in
    if ltb num_read to_read then (if w.0 then rest else (u, false)) else (u, true)

-- How many bytes SYSHANDLER_read copies: sums and differences of 64 bits.
unfoldable pub clamp : ℕ → ℕ → ℕ → ℕ
clamp file_size r8 rcx =
    if ltb file_size ((r8 + rcx) % 2 ^ 64) then (file_size + (2 ^ 64 - r8)) % 2 ^ 64 else rcx

-- The end of SYSHANDLER_read once the size of the file is known. Every chunk has a byte, so that there
-- are at most as many chunks as bytes.
unfoldable pub read_file_data :
    Calls → Ext2Driver → ℕ → FileState → Bytes → ℕ → ℕ → Outcome (FileState × ℕ)
unfolding ext2_read_file read_chunks
read_file_data e d fuel s path to_read dst = ext2_read_file e d fuel path >>= λ r. elim r [
  | none ↦ ok (record s { errno = file_read_error }, uint64_max)
  | some buf ↦
      let c = read_chunks (suc to_read) buf to_read 0 dst s.memory in
      ok (record s { memory = c.0 }, if c.1 then 0 else uint64_max)
]

unfoldable pub sys_read :
    Calls → Ext2Driver → ℕ → FileState → ℕ → ℕ → ℕ → ℕ → Outcome (FileState × ℕ)
unfolding path_to_file_size clamp read_file_data
sys_read e d fuel s rsi rdx rcx r8 =
    if not (s.fd rsi).in_use
    then ok (s, uint64_max)
    else (let s1 = end_of_interrupt s in
        path_to_file_size e d fuel (s.fd rsi).path >>= λ file_size.
        if file_size == uint64_max
        then ok (record s1 { errno = file_read_error }, uint64_max)
        else read_file_data e d fuel s1 (s.fd rsi).path (clamp file_size r8 rcx) rdx)

-- SYSHANDLER_close: `memset` of the descriptor, whatever its number; an int, of which the upper half of
-- the values stands for negative numbers.
unfoldable pub sys_close : FileState → ℕ → FileState × ℕ
sys_close s rsi = (set_fd s (rsi % 2 ^ 32) (record { in_use = false; path = cleared }), 0)
