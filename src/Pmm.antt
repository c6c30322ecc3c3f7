-- ===== src/Pmm.antt =====
-- src/kernel/mem/pmm.c: the bitmap of 2 MB frames.
pub mod View
mod Tests
pub mod Boot
pub mod Range
pub mod Free
pub mod Request
pub mod Updates
use swag_os.Base.{
  ℕ, zero, suc, ◌+◌, ◌-◌, ◌*◌, ◌/◌, ◌%◌, ◌^◌, bit_and, bit_or, Bool, true, false, not, Option, none,
  some, List, ◌==◌, ltb, if◌then◌else◌, get_or, set, replicate,
}
use swag_os.Base.Bits.{bit_not}
use swag_os.Base.Outcome.{Outcome, ok, panic, ◌>>=◌}

abbrev pub pgsize : ℕ
pgsize = 4096

abbrev pub hugepgsize : ℕ
hugepgsize = 2 * 1024 * 1024

abbrev pub gigabyte : ℕ
gigabyte = 1024 * 1024 * 1024

abbrev pub uint64_max : ℕ
uint64_max = 2 ^ 64 - 1

-- `(sz) + HUGEPGSIZE` wraps in a `uint64_t`.
abbrev pub hugepgroundup : ℕ → ℕ
hugepgroundup sz = ((sz + hugepgsize) % 2 ^ 64) - ((sz + hugepgsize) % 2 ^ 64) % hugepgsize

abbrev pub hugepgrounddown : ℕ → ℕ
hugepgrounddown sz = sz - sz % hugepgsize

abbrev pub pgrounddown : ℕ → ℕ
pgrounddown sz = sz - sz % pgsize

-- The fields of `PhysicalMemoryManager` that the frame bitmap uses.
pub record FrameManager : Type 0 where
  pub bitmap : List ℕ  -- uint64_t PhysicalPageBitmap[512]
  pub free_framecount : ℕ  -- uint32_t
  pub init_success : Bool

abbrev pub absolute_index : ℕ → ℕ
absolute_index physical_address = hugepgrounddown physical_address / (2 * 1024 * 1024)

abbrev pub inner_entry_index : ℕ → ℕ
inner_entry_index physical_address = absolute_index physical_address % 64

abbrev pub entry_index : ℕ → ℕ
entry_index physical_address =
    (absolute_index physical_address - inner_entry_index physical_address) / 64

-- A word of the bitmap. The source reads past the array for an address of 64 GB or more; the
-- theorems bound the address.
abbrev pub word : FrameManager → ℕ → ℕ
word m i = get_or m.bitmap i 0

-- `word & ((uint64_t)1 << j)`, as a condition
abbrev pub bit_is_set : ℕ → ℕ → Bool
bit_is_set w j = not (bit_and w (2 ^ j) == 0)

pub page_bitmap_whiteout : FrameManager → FrameManager
page_bitmap_whiteout m = record m { bitmap = replicate 512 uint64_max }

pub check_physical_page_in_use : FrameManager → ℕ → Bool
check_physical_page_in_use m physical_address =
    bit_is_set (word m (entry_index physical_address)) (inner_entry_index physical_address)

pub physical_frame_checkout : FrameManager → ℕ → Outcome FrameManager
physical_frame_checkout m physical_address =
    if bit_is_set (word m i) j
    then panic
    else ok (record m {
      bitmap = set m.bitmap i (bit_or (word m i) (2 ^ j));
      free_framecount = (m.free_framecount + 2 ^ 32 - 1) % 2 ^ 32;
    })
  where
    i : ℕ
    i = entry_index physical_address

    j : ℕ
    j = inner_entry_index physical_address

pub physical_frame_checkin : FrameManager → ℕ → FrameManager
physical_frame_checkin m physical_address = record m {
  bitmap = set m.bitmap i (bit_and (word m i) (bit_not 64 (2 ^ j)));
  free_framecount = (m.free_framecount + 1) % 2 ^ 32;
}
  where
    i : ℕ
    i = entry_index physical_address

    j : ℕ
    j = inner_entry_index physical_address

pub check_kernel_frame : ℕ → Bool
check_kernel_frame physical_frame = ltb physical_frame gigabyte

-- The inner loop of `physical_frame_request`, from bit `j` on, with `n` bits to go.
scan_word : ℕ → ℕ → ℕ → Option ℕ
scan_word w zero j = none
scan_word w (suc n) j =
    let rest = scan_word w n (j + 1) in if not (bit_is_set w j) then some j else rest

-- The outer loop, from word `i` on, with `n` words to go.
scan_bitmap : FrameManager → ℕ → ℕ → Option (ℕ × ℕ)
scan_bitmap m zero i = none
scan_bitmap m (suc n) i = elim (scan_word (word m i) 64 0) [
  | some j ↦ some (i, j)
  | none ↦ scan_bitmap m n (i + 1)
]

-- `(i*64*(HUGEPGSIZE))+(j*HUGEPGSIZE)`
abbrev pub frame_at : ℕ → ℕ → ℕ
frame_at i j = i * 64 * hugepgsize + j * hugepgsize

-- What the loops do with the first clear bit that they find, and with none.
request_found : FrameManager → Option (ℕ × ℕ) → Outcome (ℕ × FrameManager)
request_found m none = ok (uint64_max, m)
request_found m (some (i, j)) = do
  m' ← physical_frame_checkout m (frame_at i j)
  if ltb (frame_at i j) gigabyte then panic else ok (frame_at i j, m')

-- The address of the frame, or `UINT64_MAX`.
pub physical_frame_request : FrameManager → Outcome (ℕ × FrameManager)
unfolding request_found
physical_frame_request m =
    if m.free_framecount == 0 then ok (uint64_max, m) else request_found m (scan_bitmap m 512 0)

pub physical_frame_free : FrameManager → ℕ → Outcome FrameManager
physical_frame_free m frame =
    if not (frame % hugepgsize == 0)
    then panic
    else if check_kernel_frame frame
    then (if not m.init_success then ok m else panic)
    else if not (check_physical_page_in_use m frame)
    then panic
    else if check_physical_page_in_use (physical_frame_checkin m frame) frame
    then panic
    else ok (physical_frame_checkin m frame)

-- `pg_frame + HUGEPGSIZE < end`, the test of the loop
more_frames : ℕ → ℕ → Bool
more_frames pg_frame end_addr = ltb ((pg_frame + hugepgsize) % 2 ^ 64) end_addr

-- The loop of `free_hugeframe_range`, with at most `n` rounds to go.
free_loop : ℕ → FrameManager → ℕ → ℕ → Outcome FrameManager
free_loop zero m pg_frame end_addr = ok m
free_loop (suc n) m pg_frame end_addr = elim (more_frames pg_frame end_addr) [
  | true ↦ physical_frame_free m pg_frame >>= λ m'.
      free_loop n m' ((pg_frame + hugepgsize) % 2 ^ 64) end_addr
  | false ↦ ok m
]

-- Each round moves up one frame, so the number of frames below `end` is fuel enough.
pub free_hugeframe_range : FrameManager → ℕ → ℕ → Outcome FrameManager
unfolding free_loop more_frames
free_hugeframe_range m start end_addr =
    if ltb ((end_addr + 2 ^ 64 - start) % 2 ^ 64) hugepgsize
    then ok m
    else free_loop (end_addr / hugepgsize + 1) m (hugepgroundup start) end_addr
