-- ===== src/KernelHeap/Runs.antt =====
-- Calls of kheap_request of src/kernel/mem/vmm.c, one after the other on the heap that kheap_init builds.
use swag_os.Base.{ℕ, ◌*◌, ◌<◌, ◌≤◌, ◌≡◌, ◌||◌, ◌==◌, Bool, true}
use swag_os.KernelHeap.{
  KernelHeap, kernel_heap_len, uint64_max, kernel_heap_tree_init, kheap_request,
}
use swag_os.KernelHeap.Invariant.{taken, IsConsistent}
use swag_os.KernelHeap.Init.{IsZeroed}
use swag_os.KernelHeap.Find.{IsAddressable, address}
use swag_os.KernelHeap.Ranges.{HasHalves, Disjoint}

-- The heaps that any requests lead to, from the initialised one on zeroed memory.
pub data Requested : KernelHeap → Type 0 where
  initialised :
      (h : KernelHeap)
      → IsZeroed h
      → h.va_start ≡ 0xffffffff00000000
      → Requested (kernel_heap_tree_init 22 h 0 (2 * 1024 * 1024 * 1024) 0)
  requested :
      {h : KernelHeap} (size : ℕ) → Requested h → Requested (kheap_request uint64_max h size).1

-- What every request keeps.
record IsRegular (h : KernelHeap) : Type 0 where
  consistent : IsConsistent h
  addressable : IsAddressable h
  halves : HasHalves h

-- How a request ends: it fails and changes nothing, or it gives the address of a section that is large
-- enough and has no address in common with any section that has been handed out before.
pub data Granted (h : KernelHeap) (size : ℕ) : ℕ × KernelHeap → Type 0 where
  no_section : Granted h size (uint64_max, h)
  section :
      (n : ℕ) (h' : KernelHeap)
      → n < kernel_heap_len
      → size ≤ (h.heap_tree n).size
      → ((i : ℕ) → i < kernel_heap_len → taken h i ≡ true → Disjoint h' i n)
      → ((j : ℕ) → taken h' j ≡ (j == n || taken h j))
      → Granted h size (address h n, h')
