-- ===== src/Pmm/Boot.antt =====
-- `parse_multiboot_mmap_entries`: the manager is built from the boot loader's memory map.
use swag_os.Base.{
  ℕ, zero, suc, ◌+◌, ◌-◌, ◌*◌, ◌/◌, ◌%◌, ◌^◌, ◌≤◌, ◌<◌, ◌≡◌, refl, ap, ap₂, sym, ◌⊎◌, ◌∙◌, Bool,
  true, false, not, ◌&&◌, ◌||◌, ◌==◌, Bool-cases, inl, inr, ltb, leb, ltb_ge, if◌then◌else◌, arith,
  lt→ltb, le→leb, get_or-replicate, length-replicate, replicate, get_or,
}
use mathlib.Core.Bool.{false≢true}
use swag_os.Base.Bits.{test_bit, test_bit-bit_not, test_bit-zero}
use swag_os.Base.Outcome.{Outcome, ok, ◌>>=◌}
use swag_os.Pmm.{
  hugepgroundup, gigabyte, FrameManager, uint64_max, hugepgsize, free_hugeframe_range,
  page_bitmap_whiteout,
}
use swag_os.Pmm.View.{in_use, frames, count_free-zero}
use swag_os.Pmm.Updates.{IsValid}
use swag_os.Pmm.Range.{released, first_frame, end_frame, free_hugeframe_range_lem}

-- `struct multiboot_mmap_entry`
pub record MmapEntry : Type 0 where
  pub addr : ℕ
  pub len : ℕ
  pub entry_type : ℕ

abbrev pub multiboot_memory_available : ℕ
multiboot_memory_available = 1

-- sizeof(struct multiboot_tag_mmap) and sizeof(struct multiboot_mmap_entry)
abbrev pub tag_size : ℕ
tag_size = 16

abbrev pub entry_size : ℕ
entry_size = 24

free_entry : MmapEntry → FrameManager → Outcome FrameManager
free_entry entry m =
    if entry.entry_type == multiboot_memory_available
    then free_hugeframe_range m entry.addr ((entry.addr + entry.len) % 2 ^ 64)
    else ok m

-- The loop over the entries from number `i` on, with at most `n` rounds to go.
entries_loop : ℕ → ℕ → (ℕ → MmapEntry) → ℕ → ℕ → FrameManager → Outcome FrameManager
entries_loop zero size entries curr_size i m = ok m
entries_loop (suc n) size entries curr_size i m = elim (ltb curr_size size) [
  | true ↦ free_entry (entries i) m >>= λ m'.
      entries_loop n size entries (curr_size + entry_size) (i + 1) m'
  | false ↦ ok m
]

finish : FrameManager → Outcome FrameManager
finish m = ok (record m { init_success = true })

-- The tag's `size` field bounds the number of rounds.
pub parse_multiboot_mmap_entries : ℕ → (ℕ → MmapEntry) → FrameManager → Outcome FrameManager
unfolding entries_loop free_entry finish
parse_multiboot_mmap_entries size entries m =
    entries_loop (size / entry_size + 1) size entries tag_size 0 (page_bitmap_whiteout m) >>= finish

-- The bits of a word of ones.
ones_bit : (j : ℕ) → j < 64 → test_bit uint64_max j ≡ true
ones_bit j lt = test_bit-bit_not j 64 0 lt (omega arith) ∙ rw (test_bit-zero j)

replicate-lt : (n i a bound : ℕ) → a < bound → get_or (replicate n a) i 0 < bound
replicate-lt zero i a bound h = omega arith
replicate-lt (suc n) zero a bound h = h
replicate-lt (suc n) (suc i) a bound h = replicate-lt n i a bound h

-- Once all bits are set no frame is free: with the counter still 0 from the kernel's zeroed data,
-- the manager is valid.
pub whiteout-IsValid :
    (m : FrameManager)
    → m.free_framecount ≡ 0
    → IsValid (page_bitmap_whiteout m)
      × ((k : ℕ) → k < frames → in_use (page_bitmap_whiteout m) k ≡ true)
unfolding page_bitmap_whiteout
whiteout-IsValid m none_free = (
  record {
    shape = record {
      entries = length-replicate 512 uint64_max;
      fits = λ i. replicate-lt 512 i uint64_max (2 ^ 64) (omega arith);
    };
    counted = none_free ∙ sym (count_free-zero _ frames all);
    kernel = λ k lt. all k (omega arith);
  },
  all,
)
  where
    all :
        (k : ℕ)
        → k < frames
        → test_bit (get_or (replicate 512 uint64_max) (k / 64) 0) (k % 64) ≡ true
    all k lt =
        rw (get_or-replicate 512 (k / 64) uint64_max 0 (omega arith))
          (ones_bit (k % 64) (omega arith))

-- The loop for entry `e` makes frame `k` available.
unfoldable pub frees : MmapEntry → ℕ → Bool
frees e k =
    e.entry_type == multiboot_memory_available
    && released (first_frame e.addr) (end_frame e.addr ((e.addr + e.len) % 2 ^ 64)) k

-- One of the `n` entries from number `i` on does.
pub any_frees : (ℕ → MmapEntry) → ℕ → ℕ → ℕ → Bool
any_frees entries i zero k = false
any_frees entries i (suc n) k = frees (entries i) k || any_frees entries (i + 1) n k

-- Every entry lies below 64 GB, and no two make the same frame available.
record GoodMap (entries : ℕ → MmapEntry) : Type 0 where
  pub below : (i : ℕ) → (entries i).addr + (entries i).len ≤ frames * hugepgsize
  pub apart : (i j k : ℕ) → i < j → frees (entries i) k ≡ true → frees (entries j) k ≡ false

-- What a run over entries leaves.
pub record Available (m : FrameManager) (gone : ℕ → Bool) (m' : FrameManager) : Type 0 where
  pub freed : (k : ℕ) → in_use m' k ≡ (not (gone k) && in_use m k)
  pub phase : m'.init_success ≡ m.init_success
  pub valid : IsValid m'

pub init_success-whiteout :
    (m : FrameManager) → (page_bitmap_whiteout m).init_success ≡ m.init_success
unfolding page_bitmap_whiteout
init_success-whiteout m = refl

-- The frames that `free_hugeframe_range` requires to be in use are.
range_used :
    (e : MmapEntry) (m : FrameManager)
    → IsValid m
    → (e.entry_type == multiboot_memory_available) ≡ true
    → ((k : ℕ) → frees e k ≡ true → in_use m k ≡ true)
    → (k : ℕ) → first_frame e.addr ≤ k
    → k < end_frame e.addr ((e.addr + e.len) % 2 ^ 64)
    → in_use m k ≡ true
unfolding frees
range_used e m v available used k p q = elim (Bool-cases (leb 512 k)) [
  | inr low ↦ v.kernel k (ground arith)
  | inl high ↦ used k (rw (available, le→leb _ _ p, lt→ltb _ _ q) high)
]

free_entry-Available :
    (e : MmapEntry) (m : FrameManager)
    → IsValid m
    → m.init_success ≡ false
    → e.addr + e.len ≤ frames * hugepgsize
    → ((k : ℕ) → frees e k ≡ true → in_use m k ≡ true)
    → (m' : FrameManager) × (free_entry e m ≡ ok m') × Available m (frees e) m'
unfolding free_entry frees
free_entry-Available e m v early below used =
    elim (Bool-cases (e.entry_type == multiboot_memory_available)) [
      | inr other ↦ rw other (m, refl, record { freed = λ k. rw other; phase = refl; valid = v })
      | inl available ↦
          let top : (e.addr + e.len) % 2 ^ 64 ≡ e.addr + e.len = omega arith in
          let (m', eq, r) =
            free_hugeframe_range_lem m e.addr ((e.addr + e.len) % 2 ^ 64) v early (omega arith)
              (omega arith) (range_used e m v available used) in
          let same : (k : ℕ) → frees e k ≡ released _ _ k = λ k. rw available in
          rw available (
            m',
            eq,
            record {
              freed = λ k. r.freed k ∙ ap (λ (b : Bool). not b && in_use m k) (sym (same k));
              phase = r.phase;
              valid = r.valid;
            },
          )
    ]

and_true : (b : Bool) → (b && true) ≡ b
and_true true = refl
and_true false = refl

frees_inside :
    (e : MmapEntry) (k : ℕ) → e.addr + e.len ≤ frames * hugepgsize → frees e k ≡ true → k < frames
unfolding frees
frees_inside e k below h = ground arith

stays :
    (gone : ℕ → Bool) (m m₁ : FrameManager) (k : ℕ)
    → Available m gone m₁
    → gone k ≡ false
    → in_use m k ≡ true
    → in_use m₁ k ≡ true
stays gone m m₁ k r kept used = r.freed k ∙ rw (kept, used)

and_not_or : (a b c : Bool) → (not b && (not a && c)) ≡ (not (a || b) && c)
and_not_or true true c = refl
and_not_or true false c = refl
and_not_or false b c = refl

Available-step :
    (first rest : ℕ → Bool) (m m₁ m₂ : FrameManager)
    → Available m first m₁
    → Available m₁ rest m₂
    → Available m (λ k. first k || rest k) m₂
Available-step first rest m m₁ m₂ a b = record {
  freed = λ k.
      b.freed k
      ∙ ap (λ (x : Bool). not (rest k) && x) (a.freed k)
      ∙ and_not_or (first k) (rest k) (in_use m k);
  phase = b.phase ∙ a.phase;
  valid = b.valid;
}

entries_loop-Available :
    (entries : ℕ → MmapEntry) (good : GoodMap entries) (size c n curr i : ℕ) (m : FrameManager)
    → c ≤ n
    → size ≤ curr + c * entry_size
    → curr + c * entry_size < size + entry_size
    → IsValid m
    → m.init_success ≡ false
    → ((j k : ℕ) → i ≤ j → frees (entries j) k ≡ true → in_use m k ≡ true)
    → (m' : FrameManager) × (entries_loop n size entries curr i m ≡ ok m')
      × Available m (any_frees entries i c) m'
unfolding entries_loop any_frees
entries_loop-Available entries good size zero zero curr i m room enough short v early used =
    (m, refl, record { freed = λ k. refl; phase = refl; valid = v })
entries_loop-Available entries good size zero (suc n) curr i m room enough short v early used = (
  m,
  rw (ltb_ge curr size (omega arith), entries_loop),
  record { freed = λ k. refl; phase = refl; valid = v },
)
entries_loop-Available entries good size (suc c) zero curr i m room enough short v early used =
    absurd (omega arith)
entries_loop-Available entries good size (suc c) (suc n) curr i m room enough short v early used =
    let (m₁, e₁, one) =
      free_entry-Available (entries i) m v early (good.below i) (λ k. used i k (omega arith)) in
    let (m₂, e₂, rest) =
      entries_loop-Available entries good size c n (curr + entry_size) (i + 1) m₁ (omega arith)
        (omega arith) (omega arith) one.valid (one.phase ∙ early)
        (λ j k le h.
          stays (frees (entries i)) m m₁ k one (kept j k le h) (used j k (omega arith) h)) in
    (
      m₂,
      rw (lt→ltb curr size (omega arith), entries_loop) (rw e₁ e₂),
      Available-step _ _ m m₁ m₂ one rest,
    )
  where
    kept : (j k : ℕ) → i + 1 ≤ j → frees (entries j) k ≡ true → frees (entries i) k ≡ false
    kept j k le h = elim (Bool-cases (frees (entries i) k)) [
      | inl both ↦ absurd (false≢true (sym (good.apart i j k (omega arith) both) ∙ h))
      | inr none ↦ none
    ]

-- The number of entries that a tag of `size` bytes holds.
abbrev pub entry_count : ℕ → ℕ
entry_count size = (size - tag_size + (entry_size - 1)) / entry_size

-- The run in terms of the loops for the entries.
parse-frees :
    (size : ℕ) (entries : ℕ → MmapEntry) (m : FrameManager)
    → GoodMap entries
    → tag_size ≤ size
    → m.free_framecount ≡ 0
    → m.init_success ≡ false
    → (m' : FrameManager) × (parse_multiboot_mmap_entries size entries m ≡ ok m')
      × ((k : ℕ) → k < frames → in_use m' k ≡ not (any_frees entries 0 (entry_count size) k))
      × IsValid m'
      × (m'.init_success ≡ true)
unfolding parse_multiboot_mmap_entries
parse-frees size entries m good long none_free early =
    let (v, all) = whiteout-IsValid m none_free in
    let (m', e, r) =
      entries_loop-Available entries good size (entry_count size) (size / entry_size + 1) tag_size 0
        (page_bitmap_whiteout m) (omega arith) (omega arith) (omega arith) v
        (init_success-whiteout m ∙ early)
        (λ j k _ h. all k (frees_inside (entries j) k (good.below j) h)) in
    (
      record m' { init_success = true },
      rw e,
      λ k lt. r.freed k ∙ only k (all k lt),
      record {
        shape = record { entries = r.valid.shape.entries; fits = r.valid.shape.fits };
        counted = r.valid.counted;
        kernel = r.valid.kernel;
      },
      refl,
    )
  where
    only :
        (k : ℕ)
        → in_use (page_bitmap_whiteout m) k ≡ true
        → (not (any_frees entries 0 (entry_count size) k) && in_use (page_bitmap_whiteout m) k)
          ≡ not (any_frees entries 0 (entry_count size) k)
    only k used = rw used (and_true (not (any_frees entries 0 (entry_count size) k)))

-- An available entry has bytes on both sides of a frame that lies at or above 1 GB: it contains the frame,
-- and neither starts nor ends with it.
unfoldable pub surrounds : MmapEntry → ℕ → Bool
surrounds e k =
    e.entry_type == multiboot_memory_available
    && (leb gigabyte (k * hugepgsize)
        && ltb e.addr (k * hugepgsize)
        && ltb (k * hugepgsize + hugepgsize) (e.addr + e.len))

-- One of the `n` entries from number `i` on does.
pub any_surrounds : (ℕ → MmapEntry) → ℕ → ℕ → ℕ → Bool
any_surrounds entries i zero k = false
any_surrounds entries i (suc n) k = surrounds (entries i) k || any_surrounds entries (i + 1) n k

-- Every entry lies below 64 GB, and no two have a byte in common.
pub record IsMap (entries : ℕ → MmapEntry) : Type 0 where
  pub below : (i : ℕ) → (entries i).addr + (entries i).len ≤ frames * hugepgsize
  pub apart :
      (i j : ℕ)
      → i < j
      → ((entries i).addr + (entries i).len ≤ (entries j).addr)
        ⊎ ((entries j).addr + (entries j).len ≤ (entries i).addr)

same_test :
    (e : MmapEntry) (k : ℕ)
    → (leb (e.addr / hugepgsize + 1) k
        && ltb k (if ltb e.len hugepgsize then 0 else (e.addr + e.len - 1) / hugepgsize)
        && leb 512 k)
      ≡ (leb gigabyte (k * hugepgsize)
          && ltb e.addr (k * hugepgsize)
          && ltb (k * hugepgsize + hugepgsize) (e.addr + e.len))
same_test e k = ground arith

frees-surrounds :
    (e : MmapEntry) (k : ℕ) → e.addr + e.len ≤ frames * hugepgsize → frees e k ≡ surrounds e k
unfolding frees surrounds
frees-surrounds e k below =
    let start : hugepgroundup e.addr / hugepgsize ≡ e.addr / hugepgsize + 1 =
      omega (arith, below) in
    let top : (e.addr + e.len) % 2 ^ 64 ≡ e.addr + e.len = omega (arith, below) in
    let wide : ((e.addr + e.len) % 2 ^ 64 + 2 ^ 64 - e.addr) % 2 ^ 64 ≡ e.len =
      omega (arith, below) in
    rw (start, wide, top)
      (ap (λ b. (e.entry_type == multiboot_memory_available) && b) (same_test e k))

any_frees-any_surrounds :
    (entries : ℕ → MmapEntry) (i n k : ℕ)
    → IsMap entries
    → any_frees entries i n k ≡ any_surrounds entries i n k
unfolding any_frees any_surrounds
any_frees-any_surrounds entries i zero k good = refl
any_frees-any_surrounds entries i (suc n) k good =
    ap₂ (λ a b. a || b) (frees-surrounds (entries i) k (good.below i))
      (any_frees-any_surrounds entries (i + 1) n k good)

surrounds-apart :
    (e f : MmapEntry) (k : ℕ)
    → (e.addr + e.len ≤ f.addr) ⊎ (f.addr + f.len ≤ e.addr)
    → surrounds e k ≡ true
    → surrounds f k ≡ false
unfolding surrounds
surrounds-apart e f k out h = ground (arith, out, h)

IsMap-GoodMap : (entries : ℕ → MmapEntry) → IsMap entries → GoodMap entries
IsMap-GoodMap entries good = record {
  below = good.below;
  apart = λ i j k lt h.
      frees-surrounds (entries j) k (good.below j)
      ∙ surrounds-apart (entries i) (entries j) k (good.apart i j lt)
          (sym (frees-surrounds (entries i) k (good.below i)) ∙ h);
}

-- Booting from a memory map whose entries lie below 64 GB and have no byte in common, with a free count of
-- 0 and before the manager is initialised, succeeds: afterwards a frame below 64 GB is free exactly when it
-- lies at or above 1 GB and some available entry of the map has bytes on both sides of it; a frame with
-- which an entry starts or ends stays in use. The manager is valid and marked as initialised.
pub parse_multiboot_mmap_entries_lem :
    (size : ℕ) (entries : ℕ → MmapEntry) (m : FrameManager)
    → IsMap entries
    → tag_size ≤ size
    → m.free_framecount ≡ 0
    → m.init_success ≡ false
    → (m' : FrameManager) × (parse_multiboot_mmap_entries size entries m ≡ ok m')
      × ((k : ℕ) → k < frames → in_use m' k ≡ not (any_surrounds entries 0 (entry_count size) k))
      × IsValid m'
      × (m'.init_success ≡ true)
parse_multiboot_mmap_entries_lem size entries m good long none_free early =
    let (m', e, state, valid, done) =
      parse-frees size entries m (IsMap-GoodMap entries good) long none_free early in
    (
      m',
      e,
      λ k lt. state k lt ∙ ap not (any_frees-any_surrounds entries 0 (entry_count size) k good),
      valid,
      done,
    )
