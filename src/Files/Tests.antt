-- ===== src/Files/Tests.antt =====
-- The theorems on the system calls on files, for a process with no descriptor in use or with the first.
use swag_os.Base.{ℕ, zero, suc, ◌+◌, ◌-◌, ◌≡◌, refl, true, false, some, ◌==◌, if◌then◌else◌, arith}
use swag_os.Base.Outcome.{ok}
use swag_os.Libc.{Bytes}
use swag_os.Ext2.{Inode, inode_at}
use swag_os.Ext2.Blocks.{block_data}
use swag_os.Ext2.Directory.{ext2_find_file_inode, ext2_file_exists}
use swag_os.Ext2.File.{path_to_file_size, ext2_read_file}
use swag_os.Ext2.Sample.{calls, driver, root, buffer, path}
use swag_os.Files.{UserMemory, FileDescriptor, FileState, no_error, cleared, may_access, sys_read}
use swag_os.Files.Read.{IsOpenRange, Copied, left_over, sys_read_lem}
use swag_os.Files.Stat.{Stat, stat_of, stat_size, sys_fstat, Described, sys_fstat_lem}

-- The path `/f` is at address 4096.
abbrev user : UserMemory
user = record { in_thread = λ a. true; in_kernel = λ a. false; bytes = λ a. path (a - 4096) }

-- Descriptor 0 is open on `/`.
abbrev fds : ℕ → FileDescriptor
fds zero = record { in_use = true; path = λ j. if j == 0 then 47 else 0 }
fds (suc i) = record { in_use = false; path = cleared }

abbrev one_open : FileState
one_open = record { fd = fds; errno = no_error; memory = user; eois = 0 }

abbrev reading : FileState
reading = record {
  fd = λ i. record { in_use = true; path = path };
  errno = no_error;
  memory = user;
  eois = 0;
}

abbrev content : Bytes
content = block_data calls driver buffer 0 12

size_known : path_to_file_size calls driver 20 path ≡ ok 3
unfolding path_to_file_size
size_known = refl

file_read : ext2_read_file calls driver 20 path ≡ ok (some content)
unfolding ext2_read_file block_data
file_read = refl

all_open : IsOpenRange user 8192 (8192 + left_over 3 1 10)
unfolding may_access
all_open a n lo hi pos = refl

sys_read_lem_example :
    (s1 : FileState) × (sys_read calls driver 20 reading 0 8192 10 1 ≡ ok (s1, 0))
    × Copied content (left_over 3 1 10) 0 8192 user (s1.memory, true)
sys_read_lem_example =
    sys_read_lem calls driver 20 reading 0 8192 10 1 3 content refl size_known (omega arith)
      file_read (omega arith) (omega arith) (omega arith) all_open

abbrev file : Inode
file = inode_at (calls.sector 2058) 384

file_there : ext2_file_exists calls driver 20 path ≡ ok true
unfolding ext2_file_exists
file_there = refl

file_found : ext2_find_file_inode calls driver 20 path ≡ ok (some (0, file))
unfolding ext2_find_file_inode inode_at
file_found = refl

file_mode : file.mode ≡ 0x8000
unfolding inode_at
file_mode = refl

writable : may_access user 8192 stat_size ≡ true
unfolding may_access
writable = refl

abbrev old_stat : Stat
old_stat = stat_of driver 2 root

sys_fstat_lem_example :
    (s1 : FileState) × (sys_fstat calls driver 20 0 old_stat cleared reading 0 8192 ≡ ok (s1, 0))
    × Described driver 0 file 8192 user s1.memory
sys_fstat_lem_example =
    sys_fstat_lem calls driver 20 0 old_stat cleared reading 0 8192 0 file refl file_there
      file_found (omega arith) (omega (arith, file_mode)) (omega arith) (omega arith) writable
