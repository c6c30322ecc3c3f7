-- ===== src/KernelHeap/Find.antt =====
-- `find_heap_frame`: it hands out one free section that is large enough, or changes nothing.
use swag_os.Base.{
  ℕ, zero, suc, ◌+◌, ◌*◌, ◌%◌, ◌^◌, ◌≤◌, ◌<◌, ◌≡◌, ◌≢◌, ◌⊎◌, refl, true, false, ◌||◌, ◌==◌, ==_ne,
  Bool-cases, inl, inr, leb, arith,
}
use swag_os.KernelHeap.{
  KernelHeap, kernel_heap_len, uint64_max, refused, fits, mark_in_use, take_section, right_done,
  left_done, find_heap_frame, kheap_request,
}
use swag_os.KernelHeap.Invariant.{used, taken, IsConsistent, Found, Found-take, Found-mark}

-- No section's address is `UINT64_MAX` or wraps.
abbrev pub IsAddressable : KernelHeap → Type 0
IsAddressable h = (j : ℕ) → (h.heap_tree j).offset + h.va_start < uint64_max

abbrev pub address : KernelHeap → ℕ → ℕ
address h j = (h.heap_tree j).offset + h.va_start

-- The outcome of a search below `i`.
pub data Searched (h : KernelHeap) (size i : ℕ) : ℕ × KernelHeap → Type 0 where
  failed : Searched h size i (uint64_max, h)
  found :
      (n : ℕ) (h' : KernelHeap)
      → Found h i n h'
      → n < kernel_heap_len
      → size ≤ (h.heap_tree n).size
      → taken h n ≡ false
      → Searched h size i (address h n, h')

module _ (h : KernelHeap) (size i : ℕ) (ok : IsConsistent h) (addr : IsAddressable h)
    (open_ : taken h i ≡ false) where
  Searched-right :
      (r : ℕ × KernelHeap)
      → Searched h size (i * 2 + 1) r
      → Searched h size i (right_done uint64_max i r)
  unfolding right_done
  Searched-right r failed = failed
  Searched-right r (found n h' f inside large free) =
      rw (==_ne (address h n) uint64_max (omega (arith, addr n))) (
        found n (mark_in_use h' i)
          (Found-mark h i ok (i * 2 + 1) n h' (omega arith) (omega arith) open_ f) inside large
          free)

  Searched-left :
      (r : ℕ × KernelHeap) (search_right : KernelHeap → ℕ × KernelHeap)
      → i ≢ 0
      → Searched h size (i * 2) r
      → Searched h size (i * 2 + 1) (search_right h)
      → Searched h size i (left_done uint64_max i r search_right)
  unfolding left_done
  Searched-left r search_right ne failed right = Searched-right (search_right h) right
  Searched-left r search_right ne (found n h' f inside large free) right =
      rw (==_ne (address h n) uint64_max (omega (arith, addr n))) (
        found n (mark_in_use h' i)
          (Found-mark h i ok (i * 2) n h' (omega arith) (omega arith) open_ f) inside large free)

Searched-take :
    (h : KernelHeap) (size i : ℕ)
    → IsConsistent h
    → IsAddressable h
    → leb kernel_heap_len i ≡ false
    → taken h i ≡ false
    → fits (h.heap_tree i) size ≡ true
    → Searched h size i (((h.heap_tree i).offset + h.va_start) % 2 ^ 64, take_section h i)
Searched-take h size i ok addr inside room fit =
    let plain : address h i % 2 ^ 64 ≡ address h i = omega (arith, addr i) in
    let free : used h i ≡ false = ground arith in
    let large : size ≤ (h.heap_tree i).size = ground arith in
    rw plain (found i (take_section h i) (Found-take h i ok free) (ground arith) large room)

-- A search with any fuel: it hands out one free section that is large enough, or changes nothing.
pub find-Searched :
    (n : ℕ) (h : KernelHeap) (size i : ℕ)
    → IsConsistent h
    → IsAddressable h
    → Searched h size i (find_heap_frame uint64_max n h size i)
unfolding find_heap_frame
find-Searched zero h size i ok addr = failed
find-Searched (suc n) h size i ok addr = elim (Bool-cases (leb kernel_heap_len i)) [
  | inl past ↦ rw (past, find_heap_frame) failed
  | inr inside ↦
      rw (inside, find_heap_frame)
        (elim (Bool-cases (refused (h.heap_tree i) size)) [
          | inl no_room ↦ rw no_room failed
          | inr room ↦
              let open_ : taken h i ≡ false = ground arith in
              rw room (elim (Bool-cases (fits (h.heap_tree i) size)) [
                | inl fit ↦ rw fit (Searched-take h size i ok addr inside open_ fit)
                | inr other ↦ rw other (elim (Bool-cases (i == 0)) [
                  | inl root ↦ rw root (
                      Searched-right h size i ok addr open_ _
                        (find-Searched n h size (i * 2 + 1) ok addr))
                  | inr inner ↦ rw inner (
                      Searched-left h size i ok addr open_ _
                        (λ h'. find_heap_frame uint64_max n h' size (i * 2 + 1)) (ground arith)
                        (find-Searched n h size (i * 2) ok addr)
                        (find-Searched n h size (i * 2 + 1) ok addr))
                ])
              ])
        ])
]

pub Found-IsConsistent : (h h' : KernelHeap) (n : ℕ) → Found h 0 n h' → IsConsistent h'
Found-IsConsistent h h' n f = record {
  upward = λ j pos u. f.upward j pos (omega arith) u;
  taken_used = f.taken_used;
  below_free = λ j pos t. f.below_free j pos (omega arith) t;
}

-- On a consistent heap no address of which reaches UINT64_MAX, `kheap_request` either reports failure and changes nothing, or returns the
-- address of one section of at least `size` bytes that was not handed out, hands that section out
-- and no other, keeps all sizes and offsets, and leaves the heap consistent (the search reads
-- `UINT64_MAX` where it falls off its end).
pub kheap_request_lem :
    (h : KernelHeap) (size : ℕ)
    → IsConsistent h
    → IsAddressable h
    → let (r, h') = kheap_request uint64_max h size in
      ((r ≡ uint64_max) × (h' ≡ h))
      ⊎ ((n : ℕ) × (r ≡ address h n)
          × (n < kernel_heap_len)
          × (size ≤ (h.heap_tree n).size)
          × (taken h n ≡ false)
          × ((j : ℕ) → taken h' j ≡ (j == n || taken h j))
          × ((j : ℕ)
              → ((h'.heap_tree j).size ≡ (h.heap_tree j).size)
                × ((h'.heap_tree j).offset ≡ (h.heap_tree j).offset))
          × IsConsistent h')
unfolding kheap_request
kheap_request_lem h size ok addr = read _ (find-Searched 22 h size 0 ok addr)
  where
    read :
        (r : ℕ × KernelHeap)
        → Searched h size 0 r
        → ((r.0 ≡ uint64_max) × (r.1 ≡ h))
          ⊎ ((n : ℕ) × (r.0 ≡ address h n)
              × (n < kernel_heap_len)
              × (size ≤ (h.heap_tree n).size)
              × (taken h n ≡ false)
              × ((j : ℕ) → taken r.1 j ≡ (j == n || taken h j))
              × ((j : ℕ)
                  → ((r.1.heap_tree j).size ≡ (h.heap_tree j).size)
                    × ((r.1.heap_tree j).offset ≡ (h.heap_tree j).offset))
              × IsConsistent r.1)
    read r failed = inl (refl, refl)
    read r (found n h' f inside large free) = inr (
      n,
      refl,
      inside,
      large,
      free,
      f.handed_out,
      (λ j. (f.sizes j, f.offsets j)),
      Found-IsConsistent h h' n f,
    )
