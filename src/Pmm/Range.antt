-- ===== src/Pmm/Range.antt =====
-- `free_hugeframe_range` and the initialisation of the manager from the boot memory map.
use swag_os.Base.{
  ℕ, zero, suc, ◌+◌, ◌-◌, ◌*◌, ◌/◌, ◌%◌, ◌^◌, ◌≤◌, ◌<◌, ◌≡◌, refl, ap, ◌∙◌, Bool, true, false, not,
  ◌&&◌, Bool-cases, inl, inr, ltb, leb, if◌then◌else◌, arith,
}
use swag_os.Base.Outcome.{ok}
use swag_os.Pmm.{
  FrameManager, hugepgsize, hugepgroundup, physical_frame_free, more_frames, free_loop,
  free_hugeframe_range,
}
use swag_os.Pmm.View.{in_use, frames}
use swag_os.Pmm.Updates.{IsValid}
use swag_os.Pmm.Free.{free_returns, free_kernel_skipped}

-- Frame `k` is one of those from `lo` up to `hi` that do not hold the kernel.
abbrev pub released : ℕ → ℕ → ℕ → Bool
released lo hi k = leb lo k && ltb k hi && leb 512 k

pub record RangeFreed (m : FrameManager) (lo hi : ℕ) (m' : FrameManager) : Type 0 where
  pub freed : (k : ℕ) → in_use m' k ≡ (not (released lo hi k) && in_use m k)
  pub phase : m'.init_success ≡ m.init_success
  pub valid : IsValid m'

-- One call of `physical_frame_free` during initialisation.
free_one :
    (m : FrameManager) (p : ℕ)
    → IsValid m
    → m.init_success ≡ false
    → p < frames
    → in_use m p ≡ true
    → (m' : FrameManager) × (physical_frame_free m (p * hugepgsize) ≡ ok m')
      × RangeFreed m p (p + 1) m'
free_one m p v early inside used = elim (Bool-cases (ltb p 512)) [
  | inl low ↦ (
    m,
    free_kernel_skipped m (p * hugepgsize) (omega arith) (ground arith) early,
    record { freed = λ k. ground arith; phase = refl; valid = v },
  )
  | inr high ↦
      let no : p * hugepgsize / hugepgsize ≡ p = omega arith in
      let (m', e, back, v') =
        free_returns m (p * hugepgsize) v (omega arith) (ground arith) (rw no inside)
          (rw no used) in
      (
        m',
        e,
        record { freed = λ k. back.freed k ∙ rw no (ground arith); phase = back.phase; valid = v' },
      )
]

-- The test of the loop: another whole frame fits below `end`.
loop_test :
    (p hi end_addr : ℕ)
    → p < 2 ^ 40
    → (end_addr - 1) / hugepgsize ≡ hi
    → more_frames (p * hugepgsize) end_addr ≡ ltb p hi
unfolding more_frames
loop_test p hi end_addr small e = ground arith

RangeFreed-step :
    (m m₁ m₂ : FrameManager) (p hi : ℕ)
    → p < hi
    → RangeFreed m p (p + 1) m₁
    → RangeFreed m₁ (p + 1) hi m₂
    → RangeFreed m p hi m₂
RangeFreed-step m m₁ m₂ p hi lt one rest = record {
  freed = λ k. ground (arith, one.freed k, rest.freed k);
  phase = rest.phase ∙ one.phase;
  valid = rest.valid;
}

-- One round of the loop, put in front of the rest.
free_loop_next :
    (n : ℕ) (m m₁ m₂ : FrameManager) (p hi end_addr : ℕ)
    → p < 2 ^ 40
    → (end_addr - 1) / hugepgsize ≡ hi
    → ltb p hi ≡ true
    → physical_frame_free m (p * hugepgsize) ≡ ok m₁
    → free_loop n m₁ ((p + 1) * hugepgsize) end_addr ≡ ok m₂
    → free_loop (suc n) m (p * hugepgsize) end_addr ≡ ok m₂
unfolding free_loop
free_loop_next n m m₁ m₂ p hi end_addr small e more e₁ e₂ =
    let next : (p * hugepgsize + hugepgsize) % 2 ^ 64 ≡ (p + 1) * hugepgsize = omega arith in
    let test : more_frames (p * hugepgsize) end_addr ≡ true =
      loop_test p hi end_addr small e ∙ more in
    rw (test, free_loop) (rw (e₁, next) e₂)

still_used :
    (m m₁ : FrameManager) (p hi : ℕ)
    → RangeFreed m p (p + 1) m₁
    → ((k : ℕ) → p ≤ k → k < hi → in_use m k ≡ true)
    → (k : ℕ) → p + 1 ≤ k
    → k < hi
    → in_use m₁ k ≡ true
still_used m m₁ p hi one used k q r = one.freed k ∙ ground (arith, used k)

free_loop_lem :
    (n : ℕ) (m : FrameManager) (p hi end_addr : ℕ)
    → IsValid m
    → m.init_success ≡ false
    → (end_addr - 1) / hugepgsize ≡ hi
    → p < 2 ^ 40
    → hi ≤ frames
    → hi < p + n
    → ((k : ℕ) → p ≤ k → k < hi → in_use m k ≡ true)
    → (m' : FrameManager) × (free_loop n m (p * hugepgsize) end_addr ≡ ok m') × RangeFreed m p hi m'
unfolding free_loop
free_loop_lem zero m p hi end_addr v early e small inside fuel used =
    (m, refl, record { freed = λ k. ground arith; phase = refl; valid = v })
free_loop_lem (suc n) m p hi end_addr v early e small inside fuel used =
    elim (Bool-cases (ltb p hi)) [
      | inr done ↦ (
        m,
        (let test : more_frames (p * hugepgsize) end_addr ≡ false =
              loop_test p hi end_addr small e ∙ done in
            rw (test, free_loop)),
        record { freed = λ k. ground arith; phase = refl; valid = v },
      )
      | inl more ↦
          let (m₁, e₁, one) =
            free_one m p v early (ground arith) (used p (omega arith) (ground arith)) in
          let (m₂, e₂, rest) =
            free_loop_lem n m₁ (p + 1) hi end_addr one.valid (one.phase ∙ early) e (ground arith)
              inside (omega arith) (still_used m m₁ p hi one used) in
          (
            m₂,
            free_loop_next n m m₁ m₂ p hi end_addr small e more e₁ e₂,
            RangeFreed-step m m₁ m₂ p hi (ground arith) one rest,
          )
    ]

-- The first and the last (excluded) frame that `free_hugeframe_range` frees.
abbrev pub first_frame : ℕ → ℕ
first_frame start = hugepgroundup start / hugepgsize

abbrev pub end_frame : ℕ → ℕ → ℕ
end_frame start end_addr =
    if ltb ((end_addr + 2 ^ 64 - start) % 2 ^ 64) hugepgsize then 0 else (end_addr - 1) / hugepgsize

-- During initialisation, over a range below 64 GB whose frames are all in use,
-- `free_hugeframe_range` returns, and frees exactly the frames from the rounded-up start to the
-- last one that ends strictly below `end`, save those of the kernel; the manager stays valid.
pub free_hugeframe_range_lem :
    (m : FrameManager) (start end_addr : ℕ)
    → IsValid m
    → m.init_success ≡ false
    → start ≤ end_addr
    → end_addr ≤ frames * hugepgsize
    → ((k : ℕ) → first_frame start ≤ k → k < end_frame start end_addr → in_use m k ≡ true)
    → (m' : FrameManager) × (free_hugeframe_range m start end_addr ≡ ok m')
      × RangeFreed m (first_frame start) (end_frame start end_addr) m'
unfolding free_hugeframe_range
free_hugeframe_range_lem m start end_addr v early ordered below used =
    elim (Bool-cases (ltb ((end_addr + 2 ^ 64 - start) % 2 ^ 64) hugepgsize)) [
      | inl small ↦
          rw small (m, refl, record { freed = λ k. ground arith; phase = refl; valid = v })
      | inr large ↦
          let at_frame : hugepgroundup start ≡ first_frame start * hugepgsize = omega arith in
          let (m', e, r) =
            free_loop_lem (end_addr / hugepgsize + 1) m (first_frame start)
              ((end_addr - 1) / hugepgsize) end_addr v early refl (omega arith) (omega arith)
              (omega arith) (λ k p q. used k p (rw large q)) in
          rw large
            (m', ap (λ a. free_loop (end_addr / hugepgsize + 1) m a end_addr) at_frame ∙ e, r)
    ]
