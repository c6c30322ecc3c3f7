-- ===== src/KernelHeap/Complete.antt =====
-- `find_heap_frame` fails only when there is no section to find: 22 levels of recursion reach every
-- section of the array.
use swag_os.Base.{
  ℕ, zero, suc, ◌+◌, ◌*◌, ◌%◌, ◌^◌, ◌≤◌, ◌<◌, ◌≡◌, ◌≢◌, refl, ap, sym, ◌∙◌, true, false, ◌==◌,
  ==_ne, Bool-cases, inl, inr, leb, arith,
}
use mathlib.Core.Bool.{false≢true}
use swag_os.KernelHeap.{
  KernelHeap, kernel_heap_len, uint64_max, refused, fits, right_done, left_done, find_heap_frame,
  kheap_request,
}
use swag_os.KernelHeap.Invariant.{IsConsistent}
use swag_os.KernelHeap.Find.{IsAddressable, address, Searched, failed, found, find-Searched}

-- Below `i` lies a section that first fit accepts, and no section on the way to it is too small or
-- handed out.
pub data Reachable (h : KernelHeap) (size : ℕ) : ℕ → Type 0 where
  stop :
      {i : ℕ}
      → i < kernel_heap_len
      → refused (h.heap_tree i) size ≡ false
      → fits (h.heap_tree i) size ≡ true
      → Reachable h size i
  left :
      {i : ℕ}
      → i < kernel_heap_len
      → refused (h.heap_tree i) size ≡ false
      → i ≢ 0
      → Reachable h size (i * 2)
      → Reachable h size i
  right :
      {i : ℕ}
      → i < kernel_heap_len
      → refused (h.heap_tree i) size ≡ false
      → Reachable h size (i * 2 + 1)
      → Reachable h size i

open_at :
    (h : KernelHeap) (size i : ℕ)
    → Reachable h size i
    → (leb kernel_heap_len i ≡ false) × (refused (h.heap_tree i) size ≡ false)
open_at h size i (stop lt r f) = (ground arith, r)
open_at h size i (left lt r ne p) = (ground arith, r)
open_at h size i (right lt r p) = (ground arith, r)

right_done-succeeds :
    (i : ℕ) (r : ℕ × KernelHeap) → r.0 ≢ uint64_max → (right_done uint64_max i r).0 ≢ uint64_max
unfolding right_done
right_done-succeeds i r ne = rw (==_ne r.0 uint64_max ne) ne

-- The left search succeeded, or the right one, made on an unchanged heap, does.
left_done-succeeds :
    (h : KernelHeap) (size i : ℕ) (r : ℕ × KernelHeap) (search_right : KernelHeap → ℕ × KernelHeap)
    → Searched h size (i * 2) r
    → IsAddressable h
    → (r.0 ≡ uint64_max → (search_right h).0 ≢ uint64_max)
    → (left_done uint64_max i r search_right).0 ≢ uint64_max
unfolding left_done
left_done-succeeds h size i r search_right failed addr other =
    right_done-succeeds i (search_right h) (other refl)
left_done-succeeds h size i r search_right (found n h' f inside large free) addr other =
    let ne : address h n ≢ uint64_max = omega (arith, addr n) in
    rw (==_ne (address h n) uint64_max ne) ne

took_address :
    (h : KernelHeap) (i : ℕ)
    → IsAddressable h
    → ((h.heap_tree i).offset + h.va_start) % 2 ^ 64 ≢ uint64_max
took_address h i addr = omega (arith, addr i)

module _ (n : ℕ) (h : KernelHeap) (size i : ℕ) (ok : IsConsistent h) (addr : IsAddressable h) where
  -- One level of the search, given that the searches of the two children succeed where they can.
  one_level :
      (Reachable h size (i * 2 + 1)
        → (find_heap_frame uint64_max n h size (i * 2 + 1)).0 ≢ uint64_max)
      → (i ≢ 0
          → Reachable h size (i * 2)
          → (find_heap_frame uint64_max n h size (i * 2)).0 ≢ uint64_max)
      → Reachable h size i
      → (find_heap_frame uint64_max (suc n) h size i).0 ≢ uint64_max
  unfolding find_heap_frame
  one_level go_right go_left p =
      let (inside, open_) = open_at h size i p in
      rw (inside, find_heap_frame)
        (rw open_ (elim (Bool-cases (fits (h.heap_tree i) size)) [
          | inl fit ↦ rw fit (took_address h i addr)
          | inr other ↦ rw other (elim (Bool-cases (i == 0)) [
            | inl root ↦
                rw root (right_done-succeeds i _ (go_right (at_root p other (ground arith))))
            | inr inner ↦ rw inner (
                left_done-succeeds h size i _
                  (λ h'. find_heap_frame uint64_max n h' size (i * 2 + 1))
                  (find-Searched n h size (i * 2) ok addr) addr (at_inner p other (ground arith)))
          ])
        ]))
    where
      at_root :
          Reachable h size i
          → fits (h.heap_tree i) size ≡ false
          → i ≡ 0
          → Reachable h size (i * 2 + 1)
      at_root (stop lt r f) other z = absurd (false≢true (sym other ∙ f))
      at_root (left lt r ne p) other z = absurd (ne z)
      at_root (right lt r p) other z = p

      at_inner :
          Reachable h size i
          → fits (h.heap_tree i) size ≡ false
          → i ≢ 0
          → (find_heap_frame uint64_max n h size (i * 2)).0 ≡ uint64_max
          → (find_heap_frame uint64_max n h size (i * 2 + 1)).0 ≢ uint64_max
      at_inner (stop lt r f) other nz e = absurd (false≢true (sym other ∙ f))
      at_inner (left lt r ne p) other nz e = absurd (go_left nz p e)
      at_inner (right lt r p) other nz e = go_right p

pub doubled :
    (i p q bound : ℕ) → q ≡ 2 * p → bound ≤ i * q → (bound ≤ (i * 2 + 1) * p) × (bound ≤ i * 2 * p)
doubled i p q bound e h = omega (arith, ap (λ (t : ℕ). i * t) e)

-- `n` levels are enough below index `i` where doubling `i` that often leaves the array.
find_complete :
    (n : ℕ) (h : KernelHeap) (size i : ℕ)
    → IsConsistent h
    → IsAddressable h
    → kernel_heap_len ≤ i * 2 ^ n
    → Reachable h size i
    → (find_heap_frame uint64_max n h size i).0 ≢ uint64_max
find_complete zero h size i ok addr deep p =
    let (inside, open_) = open_at h size i p in absurd (ground arith)
find_complete (suc n) h size i ok addr deep p =
    let next = doubled i (2 ^ n) (2 ^ suc n) kernel_heap_len (omega arith) deep in
    one_level n h size i ok addr (find_complete n h size (i * 2 + 1) ok addr next.0)
      (λ _. find_complete n h size (i * 2) ok addr next.1) p

-- On a consistent heap no address of which reaches UINT64_MAX, where the search reads UINT64_MAX as its
-- result where it falls off its end: kheap_request fails only if no free section that first fit accepts
-- can be reached from the root, so that the 22 levels of recursion are enough.
pub kheap_request_complete :
    (h : KernelHeap) (size : ℕ)
    → IsConsistent h
    → IsAddressable h
    → Reachable h size 0
    → (kheap_request uint64_max h size).0 ≢ uint64_max
unfolding kheap_request
kheap_request_complete h size ok addr p =
    one_level 21 h size 0 ok addr (find_complete 21 h size 1 ok addr (omega arith))
      (λ nz _. absurd (nz refl)) p
