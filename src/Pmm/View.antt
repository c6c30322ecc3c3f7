-- ===== src/Pmm/View.antt =====
-- The bitmap read as the set of the 2 MB frames in use, and what each update does to that set.
use swag_os.Base.{
  ℕ, zero, suc, ◌+◌, ◌*◌, ◌/◌, ◌%◌, ◌^◌, ◌≤◌, ◌<◌, ◌≡◌, refl, ap, ap₂, ◌∙◌, ◌≢◌, bit_and, bit_or,
  Bool, true, false, not, ◌&&◌, ◌||◌, ◌==◌, ==_iff, ==_ne, if◌then◌else◌, Bool-cases, inl, inr,
  length, get_or, set, List, arith, get_or-set_self, get_or-set_ne,
}
use swag_os.Base.Bits.{
  test_bit, bit_not, bit_and-pow, test_bit-bit_and, test_bit-bit_or, test_bit-pow, test_bit-bit_not,
  pow_pos, pow_lt,
}
use swag_os.Pmm.{
  FrameManager, word, hugepgsize, absolute_index, inner_entry_index, entry_index, bit_is_set,
  check_physical_page_in_use,
}

-- Frame `n` is in use.
abbrev pub in_use : FrameManager → ℕ → Bool
in_use m n = test_bit (word m (n / 64)) (n % 64)

-- How many of the frames below `n` are free.
pub count_free : (ℕ → Bool) → ℕ → ℕ
count_free used zero = 0
count_free used (suc n) = (if used n then 0 else 1) + count_free used n

pub count_free-le : (used : ℕ → Bool) (n : ℕ) → count_free used n ≤ n
unfolding count_free
count_free-le used zero = omega arith
count_free-le used (suc n) = ground (arith, count_free-le used n)

pub count_free-eq :
    (f g : ℕ → Bool) (n : ℕ) → ((k : ℕ) → k < n → f k ≡ g k) → count_free f n ≡ count_free g n
unfolding count_free
count_free-eq f g zero same = refl
count_free-eq f g (suc n) same =
    ground (arith, same n, count_free-eq f g n (λ k lt. same k (omega arith)))

pub count_free-zero :
    (used : ℕ → Bool) (n : ℕ) → ((k : ℕ) → k < n → used k ≡ true) → count_free used n ≡ 0
unfolding count_free
count_free-zero used zero all = refl
count_free-zero used (suc n) all =
    ground (arith, all n, count_free-zero used n (λ k lt. all k (omega arith)))

-- Taking one free frame lowers the count by one.
pub count_free-take :
    (f g : ℕ → Bool) (i n : ℕ)
    → i < n
    → f i ≡ false
    → g i ≡ true
    → ((k : ℕ) → i ≢ k → g k ≡ f k)
    → count_free g n + 1 ≡ count_free f n
unfolding count_free
count_free-take f g i zero lt free taken same = absurd (omega arith)
count_free-take f g i (suc n) lt free taken same = elim (Bool-cases (i == n)) [
  | inl e ↦
      let here : i ≡ n = (==_iff i n).0 e in
      ground (
        arith,
        count_free-eq g f n (λ k below. same k (omega arith)),
        rw here at free,
        rw here at taken,
      )
  | inr ne ↦
      let apart : i ≢ n = ground arith in
      ground (arith, count_free-take f g i n (omega arith) free taken same, same n apart)
]

-- The 64 GB that the bitmap covers.
abbrev pub frames : ℕ
frames = 512 * 64

-- The shape that the array's type gives.
pub record HasShape (m : FrameManager) : Type 0 where
  pub entries : length m.bitmap ≡ 512
  pub fits : (i : ℕ) → word m i < 2 ^ 64

pub bit_is_set-test_bit : (w j : ℕ) → bit_is_set w j ≡ test_bit w j
bit_is_set-test_bit w j = elim (Bool-cases (test_bit w j)) [
  | inl e ↦ ground (arith, bit_and-pow j w, pow_pos j)
  | inr e ↦ ground (arith, bit_and-pow j w, pow_pos j)
]

pub absolute_index_lem : (a : ℕ) → absolute_index a ≡ a / hugepgsize
absolute_index_lem a = omega arith

pub entry_index_lem : (a : ℕ) → entry_index a ≡ a / hugepgsize / 64
entry_index_lem a = omega arith

pub inner_entry_index_lem : (a : ℕ) → inner_entry_index a ≡ a / hugepgsize % 64
inner_entry_index_lem a = omega arith

-- The test of the source reads the frame that holds the address.
pub check_in_use_lem :
    (m : FrameManager) (a : ℕ) → check_physical_page_in_use m a ≡ in_use m (a / hugepgsize)
unfolding check_physical_page_in_use
check_in_use_lem m a =
    bit_is_set-test_bit (word m (entry_index a)) (inner_entry_index a)
    ∙ ap₂ (λ i j. test_bit (word m i) j) (entry_index_lem a) (inner_entry_index_lem a)

-- A write of word `n / 64` that changes bit `n % 64` alone changes frame `n` alone.
module _ (l : List ℕ) (n v : ℕ) (inside : n / 64 < length l) where
  read_set :
      (b : Bool)
      → ((j : ℕ)
          → j < 64
          → test_bit v j ≡ (if n % 64 == j then b else test_bit (get_or l (n / 64) 0) j))
      → (k : ℕ)
      → test_bit (get_or (set l (n / 64) v) (k / 64) 0) (k % 64)
        ≡ (if n == k then b else test_bit (get_or l (k / 64) 0) (k % 64))
  read_set b one k = elim (Bool-cases (n / 64 == k / 64)) [
    | inl same ↦
        let e : n / 64 ≡ k / 64 = (==_iff (n / 64) (k / 64)).0 same in
        rw (← e, get_or-set_self l (n / 64) v 0 inside, one (k % 64) (omega arith))
          (ap (λ (t : Bool). if t then b else test_bit (get_or l (n / 64) 0) (k % 64))
            (ground (arith, same_low e)))
    | inr other ↦
        let ne : n / 64 ≢ k / 64 = ground arith in
        rw
          (get_or-set_ne l (n / 64) (k / 64) v 0 ne, ==_ne n k (λ e. ne (ap (λ (t : ℕ). t / 64) e)))
  ]
    where
      same_low : n / 64 ≡ k / 64 → (n % 64 == k % 64) ≡ (n == k)
      same_low e = ground arith

-- `PhysicalPageBitmap[n / 64] |= 1 << n % 64` puts frame `n` in use.
pub in_use-set_bit :
    (m : FrameManager) (n k : ℕ)
    → n / 64 < length m.bitmap
    → test_bit
        (get_or (set m.bitmap (n / 64) (bit_or (word m (n / 64)) (2 ^ (n % 64)))) (k / 64) 0)
        (k % 64)
      ≡ (n == k || in_use m k)
in_use-set_bit m n k inside = read_set m.bitmap n _ inside true one k ∙ or_if (n == k) (in_use m k)
  where
    or_if : (a b : Bool) → (if a then true else b) ≡ (a || b)
    or_if true b = refl
    or_if false b = refl

    one :
        (j : ℕ)
        → j < 64
        → test_bit (bit_or (word m (n / 64)) (2 ^ (n % 64))) j
          ≡ (if n % 64 == j then true else test_bit (word m (n / 64)) j)
    one j lt =
        test_bit-bit_or j (word m (n / 64)) (2 ^ (n % 64)) ∙ ground (arith, test_bit-pow j (n % 64))

-- `PhysicalPageBitmap[n / 64] &= ~(1 << n % 64)` frees frame `n`.
pub in_use-clear_bit :
    (m : FrameManager) (n k : ℕ)
    → n / 64 < length m.bitmap
    → test_bit
        (get_or
          (set m.bitmap (n / 64) (bit_and (word m (n / 64)) (bit_not 64 (2 ^ (n % 64)))))
          (k / 64)
          0)
        (k % 64)
      ≡ (not (n == k) && in_use m k)
in_use-clear_bit m n k inside =
    read_set m.bitmap n _ inside false one k ∙ and_if (n == k) (in_use m k)
  where
    and_if : (a b : Bool) → (if a then false else b) ≡ (not a && b)
    and_if true b = refl
    and_if false b = refl

    one :
        (j : ℕ)
        → j < 64
        → test_bit (bit_and (word m (n / 64)) (bit_not 64 (2 ^ (n % 64)))) j
          ≡ (if n % 64 == j then false else test_bit (word m (n / 64)) j)
    one j lt =
        test_bit-bit_and j (word m (n / 64)) (bit_not 64 (2 ^ (n % 64)))
        ∙ ground (
          arith,
          test_bit-bit_not j 64 (2 ^ (n % 64)) lt (pow_lt (n % 64) 64 (omega arith)),
          test_bit-pow j (n % 64),
        )
