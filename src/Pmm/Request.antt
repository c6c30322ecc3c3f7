-- ===== src/Pmm/Request.antt =====
-- `physical_frame_request`: the two scanning loops, and the frame that it hands out.
use swag_os.Base.{
  ℕ, zero, suc, ◌+◌, ◌-◌, ◌*◌, ◌/◌, ◌%◌, ◌≤◌, ◌<◌, ◌≡◌, ◌≢◌, refl, ap, ap₂, sym, ◌∙◌, Bool, true,
  false, ◌||◌, ◌==◌, Bool-cases, inl, inr, Option, none, some, ltb, ltb_ge, ==_ne, arith,
}
use mathlib.Core.Bool.{false≢true}
use swag_os.Base.Bits.{test_bit}
use swag_os.Base.Outcome.{ok}
use swag_os.Pmm.{
  FrameManager, word, hugepgsize, gigabyte, uint64_max, scan_word, scan_bitmap, frame_at,
  request_found, physical_frame_checkout, physical_frame_request,
}
use swag_os.Pmm.View.{in_use, count_free-zero, count_free-le, frames, bit_is_set-test_bit}
use swag_os.Pmm.Updates.{IsValid, CheckedOut, checkout-ok, CheckedOut-IsValid}

-- `o` is the first index from `lo` up to `hi` at which `used` fails.
pub data First (used : ℕ → Bool) (lo hi : ℕ) : Option ℕ → Type 0 where
  absent : ((k : ℕ) → lo ≤ k → k < hi → used k ≡ true) → First used lo hi none
  found :
      (r : ℕ)
      → lo ≤ r
      → r < hi
      → used r ≡ false
      → ((k : ℕ) → lo ≤ k → k < r → used k ≡ true)
      → First used lo hi (some r)

First-later :
    {used : ℕ → Bool} {lo hi : ℕ} {o : Option ℕ}
    → used lo ≡ true
    → First used (lo + 1) hi o
    → First used lo hi o
First-later {used} {lo} here (absent all) = absent (λ k p q. elim (Bool-cases (lo == k)) [
  | inl e ↦ let same : lo ≡ k = ground arith in ap used (omega arith) ∙ here
  | inr ne ↦ all k (ground arith) q
])
First-later {used} {lo} here (found r p q free all) = found r (omega arith) q free (λ k p' q'.
    elim (Bool-cases (lo == k)) [
      | inl e ↦ let same : lo ≡ k = ground arith in ap used (omega arith) ∙ here
      | inr ne ↦ all k (ground arith) q'
    ])

scan_word-First : (w n j hi : ℕ) → j + n ≡ hi → First (test_bit w) j hi (scan_word w n j)
unfolding scan_word
scan_word-First w zero j hi e = absent (λ k p q. absurd (omega arith))
scan_word-First w (suc n) j hi e = rw (bit_is_set-test_bit) (elim (Bool-cases (test_bit w j)) [
  | inl used ↦ rw used (First-later used (scan_word-First w n (j + 1) hi (omega arith)))
  | inr free ↦ rw free (found j (omega arith) (omega arith) free (λ k p q. absurd (omega arith)))
])

-- The pair of loop counters as the number of a frame.
abbrev pub frame_no : Option (ℕ × ℕ) → Option ℕ
frame_no none = none
frame_no (some (i, j)) = some (i * 64 + j)

word_bit :
    (m : FrameManager) (i j k : ℕ) → k ≡ i * 64 + j → j < 64 → in_use m k ≡ test_bit (word m i) j
word_bit m i j k e lt =
    let high : k / 64 ≡ i = omega arith in
    let low : k % 64 ≡ j = omega arith in ap₂ (λ a b. test_bit (word m a) b) high low

-- Bit `k % 64` of word `i`, for a frame `k` of that word.
word_of_frame :
    (m : FrameManager) (i k : ℕ)
    → i * 64 ≤ k
    → k < (i + 1) * 64
    → in_use m k ≡ test_bit (word m i) (k - i * 64)
word_of_frame m i k p q = word_bit m i (k - i * 64) k (omega arith) (omega arith)

found_here :
    (m : FrameManager) (i j hi : ℕ)
    → (i + 1) * 64 ≤ hi
    → First (test_bit (word m i)) 0 64 (some j)
    → First (in_use m) (i * 64) hi (some (i * 64 + j))
found_here m i j hi room (found _ p q free all) =
    found (i * 64 + j) (omega arith) (omega arith) (word_bit m i j (i * 64 + j) refl q ∙ free)
      (λ k p' q'.
        word_of_frame m i k p' (omega arith) ∙ all (k - i * 64) (omega arith) (omega arith))

full_word :
    (m : FrameManager) (i : ℕ)
    → First (test_bit (word m i)) 0 64 none
    → (k : ℕ) → i * 64 ≤ k
    → k < (i + 1) * 64
    → in_use m k ≡ true
full_word m i (absent all) k p q =
    word_of_frame m i k p q ∙ all (k - i * 64) (omega arith) (omega arith)

found_later :
    {used : ℕ → Bool} {lo mid hi : ℕ} {o : Option ℕ}
    → lo ≤ mid
    → ((k : ℕ) → lo ≤ k → k < mid → used k ≡ true)
    → First used mid hi o
    → First used lo hi o
found_later {mid} le below (absent all) = absent (λ k p q. elim (Bool-cases (ltb k mid)) [
  | inl e ↦ below k p (ground arith)
  | inr e ↦ all k (ground arith) q
])
found_later {mid} le below (found r p q free all) = found r (omega arith) q free (λ k p' q'.
    elim (Bool-cases (ltb k mid)) [
      | inl e ↦ below k p' (ground arith)
      | inr e ↦ all k (ground arith) q'
    ])

scan_bitmap-First :
    (m : FrameManager) (n i hi : ℕ)
    → (i + n) * 64 ≡ hi
    → First (in_use m) (i * 64) hi (frame_no (scan_bitmap m n i))
unfolding scan_bitmap
scan_bitmap-First m zero i hi e = absent (λ k p q. absurd (omega arith))
scan_bitmap-First m (suc n) i hi e =
    step (scan_word (word m i) 64 0) (scan_word-First (word m i) 64 0 64 refl)
      (scan_bitmap-First m n (i + 1) hi (omega arith))
  where
    step :
        (o : Option ℕ)
        → First (test_bit (word m i)) 0 64 o
        → First (in_use m) ((i + 1) * 64) hi (frame_no (scan_bitmap m n (i + 1)))
        → First
            (in_use m)
            (i * 64)
            hi
            (frame_no (elim o [ some j ↦ some (i, j) | none ↦ scan_bitmap m n (i + 1) ]))
    step none f rest = found_later (omega arith) (full_word m i f) rest
    step (some j) f rest = found_here m i j hi (omega arith) f

-- What a successful request hands out: the lowest free frame, and it alone changes hands.
pub record Granted (m : FrameManager) (frame : ℕ) (m' : FrameManager) : Type 0 where
  pub aligned : frame % hugepgsize ≡ 0
  pub above_kernel : gigabyte ≤ frame
  pub in_memory : frame / hugepgsize < frames
  pub was_free : in_use m (frame / hugepgsize) ≡ false
  pub lowest : (k : ℕ) → k < frame / hugepgsize → in_use m k ≡ true
  pub taken : (k : ℕ) → in_use m' k ≡ (frame / hugepgsize == k || in_use m k)
  pub fewer : m'.free_framecount + 1 ≡ m.free_framecount
  pub valid : IsValid m'

request_found_lem :
    (m : FrameManager) (o : Option (ℕ × ℕ))
    → IsValid m
    → m.free_framecount ≢ 0
    → First (in_use m) 0 frames (frame_no o)
    → (frame : ℕ) × (m' : FrameManager) × (request_found m o ≡ ok (frame, m')) × Granted m frame m'
unfolding request_found
request_found_lem m none v some_free (absent all) =
    absurd
      (some_free (v.counted ∙ count_free-zero (in_use m) frames (λ k lt. all k (omega arith) lt)))
request_found_lem m (some (i, j)) v some_free (found _ p q free all) = (
  frame_at i j,
  out.0,
  rw (out.1, ltb_ge (frame_at i j) gigabyte high),
  record {
    aligned = omega arith;
    above_kernel = high;
    in_memory = rw no q;
    was_free = free';
    lowest = λ k lt. all k (omega arith) (omega (arith, no));
    taken = out.2.taken;
    fewer = omega (arith, out.2.count, v.counted, count_free-le (in_use m) frames, some_free);
    valid = CheckedOut-IsValid m out.0 (frame_at i j / hugepgsize) v out.2 (rw no q) free';
  },
)
  where
    no : frame_at i j / hugepgsize ≡ i * 64 + j
    no = omega arith

    free' : in_use m (frame_at i j / hugepgsize) ≡ false
    free' = ap (in_use m) no ∙ free

    not_kernel : 512 ≤ i * 64 + j
    not_kernel = elim (Bool-cases (ltb (i * 64 + j) 512)) [
      | inl low ↦ absurd (false≢true (sym free ∙ v.kernel (i * 64 + j) (ground arith)))
      | inr e ↦ ground arith
    ]

    high : gigabyte ≤ frame_at i j
    high = omega (arith, not_kernel)

    out :
        (m' : FrameManager) × (physical_frame_checkout m (frame_at i j) ≡ ok m')
        × CheckedOut m (frame_at i j / hugepgsize) m'
    out = checkout-ok m (frame_at i j) v.shape (rw no q) free'

-- With a free frame left, `physical_frame_request` neither panics nor fails: it returns the lowest
-- free frame, which lies at or above 1 GB and is 2 MB aligned, marks it and no other frame as in
-- use, lowers the free count by one and keeps the manager valid.
pub request_granted :
    (m : FrameManager)
    → IsValid m
    → m.free_framecount ≢ 0
    → (frame : ℕ) × (m' : FrameManager) × (physical_frame_request m ≡ ok (frame, m'))
      × Granted m frame m'
unfolding physical_frame_request
request_granted m v some_free =
    let (frame, m', e, g) =
      request_found_lem m (scan_bitmap m 512 0) v some_free
        (scan_bitmap-First m 512 0 frames refl) in
    (frame, m', rw (==_ne m.free_framecount 0 some_free) e, g)

-- With no free frame `physical_frame_request` returns `UINT64_MAX` and changes nothing.
pub request_exhausted :
    (m : FrameManager) → m.free_framecount ≡ 0 → physical_frame_request m ≡ ok (uint64_max, m)
unfolding physical_frame_request
request_exhausted m e = rw e
