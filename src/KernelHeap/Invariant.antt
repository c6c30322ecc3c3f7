-- ===== src/KernelHeap/Invariant.antt =====
-- What the flags of the heap tree keep to, and what a successful search leaves.
use swag_os.Base.{ℕ, ◌/◌, ◌≤◌, ◌<◌, ◌≡◌, ◌≢◌, refl, Bool, true, false, ◌||◌, ◌==◌, arith}
use swag_os.KernelHeap.{
  HeapSection, KernelHeap, heap_flag_occupied, occupied, store, mark_in_use, take_section,
}

abbrev pub used : KernelHeap → ℕ → Bool
used h j = (h.heap_tree j).in_use

abbrev pub taken : KernelHeap → ℕ → Bool
taken h j = occupied (h.heap_tree j)

-- A section in use has its parent in use; a section that is handed out is in use; nothing below a
-- section that is handed out is in use.
pub record IsConsistent (h : KernelHeap) : Type 0 where
  pub upward : (j : ℕ) → 1 ≤ j → used h j ≡ true → used h (j / 2) ≡ true
  pub taken_used : (j : ℕ) → taken h j ≡ true → used h j ≡ true
  pub below_free : (j : ℕ) → 1 ≤ j → taken h (j / 2) ≡ true → used h j ≡ false

-- Section `n` has been handed out by a search of the tree below `i`.
pub record Found (h : KernelHeap) (i n : ℕ) (h' : KernelHeap) : Type 0 where
  pub upward : (j : ℕ) → 1 ≤ j → j ≢ i → used h' j ≡ true → used h' (j / 2) ≡ true
  pub taken_used : (j : ℕ) → taken h' j ≡ true → used h' j ≡ true
  pub below_free : (j : ℕ) → 1 ≤ j → j ≢ i → taken h' (j / 2) ≡ true → used h' j ≡ false
  pub top : used h' i ≡ true
  pub handed_out : (j : ℕ) → taken h' j ≡ (j == n || taken h j)
  pub was_free : used h n ≡ false
  pub outside : (j : ℕ) → j < i → h'.heap_tree j ≡ h.heap_tree j
  pub sizes : (j : ℕ) → (h'.heap_tree j).size ≡ (h.heap_tree j).size
  pub offsets : (j : ℕ) → (h'.heap_tree j).offset ≡ (h.heap_tree j).offset
  pub start : h'.va_start ≡ h.va_start

taken_flag :
    (s : HeapSection) → occupied (record s { in_use = true; flags = heap_flag_occupied }) ≡ true
taken_flag s = refl

module _ (h : KernelHeap) (i : ℕ) (ok : IsConsistent h) where
  open ok use {upward, taken_used, below_free}

  -- A section that is not in use has no section in use below it.
  pub Found-take : used h i ≡ false → Found h i i (take_section h i)
  unfolding store
  Found-take free = record {
    upward = λ j pos ne u. ground (arith, upward j);
    taken_used = λ j t. ground (arith, taken_used j);
    below_free = λ j pos ne t. ground (arith, below_free j, upward j);
    top = ground arith;
    handed_out = λ j. ground arith;
    was_free = free;
    outside = λ j lt. ground arith;
    sizes = λ j. ground arith;
    offsets = λ j. ground arith;
    start = refl;
  }

  -- On the way back up, the parent `i` of the subtree `c` is marked.
  pub Found-mark :
      (c n : ℕ) (h' : KernelHeap)
      → c / 2 ≡ i
      → i < c
      → taken h i ≡ false
      → Found h c n h'
      → Found h i n (mark_in_use h' i)
  unfolding store
  Found-mark c n h' par below free f = record {
    upward = λ j pos ne u. ground (arith, f.upward j);
    taken_used = λ j t. ground (arith, f.taken_used j);
    below_free = λ j pos ne t. ground (arith, f.below_free j, f.outside i below);
    top = ground arith;
    handed_out = λ j. ground (arith, f.handed_out j);
    was_free = f.was_free;
    outside = λ j lt. ground (arith, f.outside j);
    sizes = λ j. ground (arith, f.sizes j);
    offsets = λ j. ground (arith, f.offsets j);
    start = f.start;
  }
