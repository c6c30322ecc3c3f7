-- ===== src/Files/Open.antt =====
-- SYSHANDLER_open of src/kernel/arch/x86_64/syscalls.c: which descriptor a new path gets.
use swag_os.Base.{ℕ, ◌-◌, ◌^◌, ◌≡◌, ◌≢◌, not, ◌&&◌, ltb, if◌then◌else◌}
use swag_os.Base.Outcome.{Outcome, ok}
use swag_os.Libc.{Bytes}
use swag_os.Ext2.Directory.{strcmp}
use swag_os.Files.{FileState, cleared, fetch_struct}

-- strcmp tells a path from that of a descriptor.
abbrev pub Differs : ℕ → FileState → Bytes → ℕ → Type 0
Differs fuel s req_path i = (res : ℕ) × (strcmp fuel req_path (s.fd i).path ≡ ok res) × (res ≢ 0)

-- The lowest descriptor so far, after descriptor `i`.
abbrev lower : FileState → ℕ → ℕ → ℕ
lower s i min_fd = if not (s.fd 0).in_use && ltb i min_fd then i else min_fd

-- The descriptor that a new path gets.
pub new_fd : FileState → ℕ
new_fd s = if (s.fd 0).in_use then 2 ^ 32 - 1 else 0

abbrev pub requested : FileState → ℕ → ℕ → Bytes
requested s rsi rdx = (fetch_struct s.memory rsi cleared rdx).1
