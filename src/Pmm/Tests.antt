-- ===== src/Pmm/Tests.antt =====
-- The theorems on src/kernel/mem/pmm.c at concrete managers, and runs of the code.
use swag_os.Base.{
  ◌⊎◌, inr, ℕ, zero, suc, ◌+◌, ◌*◌, ◌≤◌, ◌<◌, ◌≡◌, ◌≢◌, refl, true, false, not, [], arith,
}
use swag_os.Base.Outcome.{ok}
use swag_os.Pmm.{
  FrameManager, hugepgsize, gigabyte, page_bitmap_whiteout, physical_frame_checkin,
  physical_frame_request, physical_frame_free,
}
use swag_os.Pmm.View.{in_use, frames}
use swag_os.Pmm.Updates.{IsValid, checkin_lem, CheckedIn-IsValid}
use swag_os.Pmm.Request.{Granted, request_granted}
use swag_os.Pmm.Free.{free-request}
use swag_os.Pmm.Boot.{
  MmapEntry, any_surrounds, entry_count, IsMap, parse_multiboot_mmap_entries, whiteout-IsValid,
  parse_multiboot_mmap_entries_lem,
}

abbrev blank : FrameManager
blank = record { bitmap = []; free_framecount = 0; init_success = false }

abbrev all_taken : FrameManager
all_taken = page_bitmap_whiteout blank

all_taken-IsValid : IsValid all_taken
all_taken-IsValid = (whiteout-IsValid blank refl).0

all_taken_used : (k : ℕ) → k < frames → in_use all_taken k ≡ true
all_taken_used = (whiteout-IsValid blank refl).1

-- Only the frame at 1 GB is free.
abbrev one_free : FrameManager
one_free = physical_frame_checkin all_taken gigabyte

one_free-IsValid : IsValid one_free
one_free-IsValid =
    CheckedIn-IsValid all_taken one_free 512 all_taken-IsValid
      (checkin_lem all_taken gigabyte all_taken-IsValid.shape (omega arith)) (omega arith)
      (omega arith) (all_taken_used 512 (omega arith))

one_free_count : one_free.free_framecount ≢ 0
unfolding physical_frame_checkin page_bitmap_whiteout
one_free_count = omega arith

request_granted_example :
    (frame : ℕ) × (m' : FrameManager) × (physical_frame_request one_free ≡ ok (frame, m'))
    × Granted one_free frame m'
request_granted_example = request_granted one_free one_free-IsValid one_free_count

abbrev granted :
    (frame : ℕ) × (m' : FrameManager) × (physical_frame_request one_free ≡ ok (frame, m'))
    × Granted one_free frame m'
granted = request_granted one_free one_free-IsValid one_free_count

free-request_example :
    (frame : ℕ) × (m' m'' : FrameManager) × (physical_frame_request one_free ≡ ok (frame, m'))
    × (physical_frame_free m' frame ≡ ok m'')
    × ((k : ℕ) → in_use m'' k ≡ in_use one_free k)
    × (m''.free_framecount ≡ one_free.free_framecount)
free-request_example = free-request one_free one_free-IsValid one_free_count

-- A map with one available region, from 1 GB to 2 GB.
abbrev one_region : ℕ → MmapEntry
one_region zero = record { addr = gigabyte; len = gigabyte; entry_type = 1 }
one_region (suc i) = record { addr = 0; len = 0; entry_type = 2 }

one_region-IsMap : IsMap one_region
one_region-IsMap = record { below = below; apart = apart }
  where
    below : (i : ℕ) → (one_region i).addr + (one_region i).len ≤ frames * hugepgsize
    below zero = omega arith
    below (suc i) = omega arith

    apart :
        (i j : ℕ)
        → i < j
        → ((one_region i).addr + (one_region i).len ≤ (one_region j).addr)
          ⊎ ((one_region j).addr + (one_region j).len ≤ (one_region i).addr)
    apart i zero lt = absurd (omega (arith, lt))
    apart i (suc j) lt = inr (omega arith)

parse_multiboot_mmap_entries_lem_example :
    (m' : FrameManager) × (parse_multiboot_mmap_entries 40 one_region blank ≡ ok m')
    × ((k : ℕ) → k < frames → in_use m' k ≡ not (any_surrounds one_region 0 (entry_count 40) k))
    × IsValid m'
    × (m'.init_success ≡ true)
parse_multiboot_mmap_entries_lem_example =
    parse_multiboot_mmap_entries_lem 40 one_region blank one_region-IsMap (omega arith) refl refl
