-- ===== src/BufferCache/Disk.antt =====
-- src/kernel/drivers/ide.c below src/kernel/fs/buffered_io.c: a request that waits for its interrupt,
-- with no other request in the queue, and bread and bwrite on it.
use swag_os.Base.{ℕ, ◌%◌, bit_and, bit_or, Bool, not, ◌&&◌, List, leb, ◌==◌, if◌then◌else◌}
use swag_os.Base.Bits.{bit_not}
use swag_os.Base.Outcome.{Outcome, ok, panic, ◌>>=◌}
use swag_os.BufferCache.{IoBuf, Cache, b_valid, b_dirty, put, holdingsleep, bget, brelse}

-- The drive: the data of each sector, whether `disk1` was found, whether `idewait(1)` reports no error
-- for reads, and whether `kalloc` gives a request.
pub record Drive : Type 0 where
  pub sectors : ℕ → ℕ → List ℕ
  pub disk1 : Bool
  pub reads : Bool
  pub request : Bool

-- `FSSIZE`
abbrev pub fssize : ℕ
fssize = 129024

abbrev pub is_dirty : IoBuf → Bool
is_dirty b = not (bit_and b.flags b_dirty == 0)

unfoldable pub write_sector : Drive → ℕ → ℕ → List ℕ → Drive
write_sector drive dev n contents = record drive {
  sectors = λ k m. if k == dev && m == n then contents else drive.sectors k m;
}

-- The drive is sent the command and, for a write, the data.
unfoldable pub idestart : Drive → IoBuf → Outcome Drive
unfolding write_sector
idestart drive b =
    if leb fssize b.blockno
    then panic
    else ok (if is_dirty b then write_sector drive (b.dev % 2) b.blockno b.contents else drive)

-- What the interrupt makes of the buffer of the first request.
unfoldable pub ideintr : Drive → IoBuf → IoBuf
ideintr drive b = record b {
  contents =
      if not (is_dirty b) && drive.reads then drive.sectors (b.dev % 2) b.blockno else b.contents;
  flags = bit_and (bit_or b.flags b_valid) (bit_not 32 b_dirty);
}

unfoldable pub iderw : Drive → IoBuf → ℕ → Outcome (Drive × IoBuf)
unfolding holdingsleep idestart ideintr
iderw drive b tid =
    if not (holdingsleep b.lock tid)
    then panic
    else if bit_and b.flags (bit_or b_valid b_dirty) == b_valid
    then panic
    else if not (b.dev == 0) && not drive.disk1
    then panic
    else if not drive.request
    then panic
    else (idestart drive b >>= λ drive1. ok (drive1, ideintr drive1 b))

-- The cache, the buffer and the drive when bread returns.
unfoldable pub bread : Cache → Drive → ℕ → ℕ → ℕ → Outcome (Cache × ℕ × Drive)
unfolding bget iderw
bread c drive dev blockno tid = bget c dev blockno tid >>= λ r.
    let b = r.0 r.1 in
    if bit_and b.flags b_valid == 0
    then (iderw drive b tid >>= λ s. ok (put r.0 r.1 s.1, r.1, s.0))
    else ok (r.0, r.1, drive)

unfoldable pub bwrite : Cache → Drive → ℕ → ℕ → Outcome (Cache × Drive)
unfolding holdingsleep iderw
bwrite c drive i tid =
    if not (holdingsleep (c i).lock tid)
    then panic
    else (iderw drive (record (c i) { flags = bit_or (c i).flags b_dirty }) tid >>= λ s.
        ok (put c i s.1, s.0))

-- read_disk_sector of src/kernel/fs/ext2.c on the cache: the data that it copies out.
unfoldable pub read_cached : Cache → Drive → ℕ → ℕ → Outcome (Cache × List ℕ)
unfolding bread brelse
read_cached c drive sector tid =
    bread c drive 0 sector tid >>= λ r. brelse r.0 r.1 tid >>= λ c1. ok (c1, (r.0 r.1).contents)
