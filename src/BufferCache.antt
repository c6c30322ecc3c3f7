-- ===== src/BufferCache.antt =====
-- src/kernel/fs/buffered_io.c: the cache of disk blocks, with the sleep lock of each buffer from
-- src/kernel/kernel/sleeplock.c. The lock of the cache is held across each search.
pub mod Disk
pub mod Reads
pub mod Unique
mod Tests
use swag_os.Base.{
  ℕ, zero, suc, ◌+◌, ◌-◌, ◌%◌, ◌^◌, bit_and, bit_or, Bool, true, false, not, ◌&&◌, ◌||◌, List, [],
  ◌∷◌, Option, none, some, ◌==◌, if◌then◌else◌,
}
use swag_os.Base.Outcome.{Outcome, ok, panic, hang, ◌>>=◌}

abbrev pub nbuf : ℕ
nbuf = 16

abbrev pub b_valid : ℕ
b_valid = 2

abbrev pub b_dirty : ℕ
b_dirty = 4

-- `owner_tid = -1`
abbrev pub no_tid : ℕ
no_tid = 2 ^ 32 - 1

pub record SleepLock : Type 0 where
  pub is_locked : Bool
  pub owner_tid : ℕ

-- `struct iobuf`, without the list pointers, which no search reads.
pub record IoBuf : Type 0 where
  pub flags : ℕ
  pub dev : ℕ
  pub blockno : ℕ
  pub lock : SleepLock
  pub refcnt : ℕ
  pub contents : List ℕ

-- `bcache.buf`
abbrev pub Cache : Type 0
Cache = ℕ → IoBuf

abbrev pub put : Cache → ℕ → IoBuf → Cache
put c i b j = if j == i then b else c j

unfoldable pub init_sleeplock : SleepLock
init_sleeplock = record { is_locked = false; owner_tid = 0 }

-- `hang` is the sleep until the holder releases the lock.
unfoldable pub acquire_sleeplock : SleepLock → ℕ → Outcome SleepLock
acquire_sleeplock l tid =
    if l.is_locked then hang else ok (record { is_locked = true; owner_tid = tid })

unfoldable pub release_sleeplock : SleepLock → SleepLock
release_sleeplock l = record { is_locked = false; owner_tid = no_tid }

unfoldable pub holdingsleep : SleepLock → ℕ → Bool
holdingsleep l tid = l.is_locked && l.owner_tid == tid

unfoldable pub caches : IoBuf → ℕ → ℕ → Bool
caches b dev blockno = b.dev == dev && b.blockno == blockno

unfoldable pub recyclable : IoBuf → Bool
recyclable b = b.refcnt == 0 && bit_and b.flags b_dirty == 0

-- The first of the `n` buffers from `i` on that a test accepts.
unfoldable pub find_buffer : (IoBuf → Bool) → ℕ → ℕ → Cache → Option ℕ
find_buffer test zero i c = none
find_buffer test (suc n) i c =
    let rest = find_buffer test n (suc i) c in if test (c i) then some i else rest

-- The buffer's sleep lock, taken once the cache is unlocked.
unfoldable pub lock_buffer : Cache → ℕ → ℕ → Outcome (Cache × ℕ)
unfolding acquire_sleeplock
lock_buffer c i tid =
    acquire_sleeplock (c i).lock tid >>= λ l. ok (put c i (record (c i) { lock = l }), i)

unfoldable pub recycle : IoBuf → ℕ → ℕ → IoBuf
recycle b dev blockno = record b { dev = dev; blockno = blockno; flags = 0; refcnt = 1 }

unfoldable pub claim : IoBuf → IoBuf
claim b = record b { refcnt = (b.refcnt + 1) % 2 ^ 32 }

-- The cache when `bget` unlocks it, and the buffer it has chosen.
unfoldable pub choose : Cache → ℕ → ℕ → Outcome (Cache × ℕ)
unfolding find_buffer caches recyclable recycle claim
choose c dev blockno = elim (find_buffer (λ b. caches b dev blockno) nbuf 0 c) [
  | some i ↦ ok (put c i (claim (c i)), i)
  | none ↦ elim (find_buffer recyclable nbuf 0 c) [
    | some i ↦ ok (put c i (recycle (c i) dev blockno), i)
    | none ↦ panic
  ]
]

unfoldable pub bget : Cache → ℕ → ℕ → ℕ → Outcome (Cache × ℕ)
unfolding choose lock_buffer
bget c dev blockno tid = choose c dev blockno >>= λ r. lock_buffer r.0 r.1 tid

unfoldable pub brelse : Cache → ℕ → ℕ → Outcome Cache
unfolding holdingsleep release_sleeplock
brelse c i tid =
    if not (holdingsleep (c i).lock tid)
    then panic
    else ok (
        put c i (record (c i) {
          lock = release_sleeplock (c i).lock;
          refcnt = ((c i).refcnt + (2 ^ 32 - 1)) % 2 ^ 32;
        }))
