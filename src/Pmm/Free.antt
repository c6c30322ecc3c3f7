-- ===== src/Pmm/Free.antt =====
-- `physical_frame_free`: which calls panic, and what the others free.
use swag_os.Base.{
  ℕ, ◌/◌, ◌%◌, ◌≤◌, ◌<◌, ◌≡◌, ◌≢◌, ap, sym, ◌∙◌, true, false, not, ◌&&◌, ◌==◌, ==_ne, ==_self,
  ==_iff, Bool-cases, inl, inr, ltb_ge, lt→ltb, arith,
}
use swag_os.Base.Outcome.{ok, panic}
use swag_os.Pmm.{
  physical_frame_request, FrameManager, hugepgsize, gigabyte, check_physical_page_in_use,
  check_kernel_frame, physical_frame_checkin, physical_frame_free,
}
use swag_os.Pmm.View.{in_use, count_free-le, frames, check_in_use_lem}
use swag_os.Pmm.Updates.{IsValid, CheckedIn, checkin_lem, CheckedIn-IsValid}
use swag_os.Pmm.Request.{Granted, request_granted}

-- The second test of `physical_frame_free` never fires: a frame just checked in is not in use.
checked_in_free :
    (m : FrameManager) (frame : ℕ)
    → IsValid m
    → frame / hugepgsize < frames
    → check_physical_page_in_use (physical_frame_checkin m frame) frame ≡ false
checked_in_free m frame v inside =
    check_in_use_lem (physical_frame_checkin m frame) frame
    ∙ (checkin_lem m frame v.shape inside).freed (frame / hugepgsize)
    ∙ rw (==_self (frame / hugepgsize))

-- An aligned frame that is in use, at or above 1 GB, is freed: `physical_frame_free` returns, that
-- frame and no other leaves the set in use, the free count grows by one modulo 2 ^ 32, and the
-- manager stays valid.
pub free_returns :
    (m : FrameManager) (frame : ℕ)
    → IsValid m
    → frame % hugepgsize ≡ 0
    → gigabyte ≤ frame
    → frame / hugepgsize < frames
    → in_use m (frame / hugepgsize) ≡ true
    → (m' : FrameManager) × (physical_frame_free m frame ≡ ok m')
      × CheckedIn m (frame / hugepgsize) m'
      × IsValid m'
unfolding physical_frame_free check_kernel_frame
free_returns m frame v aligned high inside used = (
  physical_frame_checkin m frame,
  rw (
    aligned,
    ltb_ge frame gigabyte high,
    check_in_use_lem m frame,
    used,
    checked_in_free m frame v inside,
  ),
  back,
  CheckedIn-IsValid m _ (frame / hugepgsize) v back inside (omega arith) used,
)
  where
    back : CheckedIn m (frame / hugepgsize) (physical_frame_checkin m frame)
    back = checkin_lem m frame v.shape inside

-- `physical_frame_free` panics on a misaligned address, on an aligned kernel frame once the manager
-- is initialised, and on an aligned frame above the kernel that is not in use (a double free).
pub free_panics :
    (m : FrameManager) (frame : ℕ)
    → (frame % hugepgsize ≢ 0 → physical_frame_free m frame ≡ panic)
      × (frame % hugepgsize ≡ 0
          → frame < gigabyte
          → m.init_success ≡ true
          → physical_frame_free m frame ≡ panic)
      × (frame % hugepgsize ≡ 0
          → gigabyte ≤ frame
          → in_use m (frame / hugepgsize) ≡ false
          → physical_frame_free m frame ≡ panic)
unfolding physical_frame_free check_kernel_frame
free_panics m frame = (
  λ odd. rw (==_ne (frame % hugepgsize) 0 odd),
  λ aligned low up. rw (aligned, lt→ltb frame gigabyte low, up),
  λ aligned high free. rw (aligned, ltb_ge frame gigabyte high, check_in_use_lem m frame, free),
)

-- While the manager is being initialised, a kernel frame is skipped.
pub free_kernel_skipped :
    (m : FrameManager) (frame : ℕ)
    → frame % hugepgsize ≡ 0
    → frame < gigabyte
    → m.init_success ≡ false
    → physical_frame_free m frame ≡ ok m
unfolding physical_frame_free check_kernel_frame
free_kernel_skipped m frame aligned low early = rw (aligned, lt→ltb frame gigabyte low, early)

-- Freeing a frame that was granted.
free-granted :
    (m : FrameManager) (frame : ℕ) (m' : FrameManager)
    → IsValid m
    → Granted m frame m'
    → (m'' : FrameManager) × (physical_frame_free m' frame ≡ ok m'')
      × ((k : ℕ) → in_use m'' k ≡ in_use m k)
      × (m''.free_framecount ≡ m.free_framecount)
free-granted m frame m' v g =
    let (m'', e, back, v'') =
      free_returns m' frame g.valid g.aligned g.above_kernel g.in_memory held in
    (
      m'',
      e,
      λ k. back.freed k ∙ restored k,
      omega (arith, back.count, g.fewer, v.counted, count_free-le (in_use m) frames),
    )
  where
    held : in_use m' (frame / hugepgsize) ≡ true
    held = g.taken (frame / hugepgsize) ∙ rw (==_self (frame / hugepgsize))

    restored : (k : ℕ) → (not (frame / hugepgsize == k) && in_use m' k) ≡ in_use m k
    restored k = elim (Bool-cases (frame / hugepgsize == k)) [
      | inl same ↦ rw same (sym g.was_free ∙ ap (in_use m) ((==_iff (frame / hugepgsize) k).0 same))
      | inr ne ↦ rw (ne, g.taken k) (rw ne)
    ]

-- On a valid manager with a free frame left, physical_frame_request returns a frame, physical_frame_free
-- of that frame on the new manager returns, and afterwards the set of frames in use and the free count are
-- what they were before the request.
pub free-request :
    (m : FrameManager)
    → IsValid m
    → m.free_framecount ≢ 0
    → (frame : ℕ) × (m' m'' : FrameManager) × (physical_frame_request m ≡ ok (frame, m'))
      × (physical_frame_free m' frame ≡ ok m'')
      × ((k : ℕ) → in_use m'' k ≡ in_use m k)
      × (m''.free_framecount ≡ m.free_framecount)
free-request m v some_free =
    let (frame, m', e, g) = request_granted m v some_free in
    let (m'', freed, same, count) = free-granted m frame m' v g in
    (frame, m', m'', e, freed, same, count)
