-- ===== src/KernelHeap/Tests.antt =====
-- The theorems on src/kernel/mem/vmm.c at the heap that `kheap_init` builds.
use swag_os.Base.{
  ℕ, zero, suc, ◌*◌, ◌≤◌, ◌<◌, ◌≡◌, ◌≢◌, ◌⊎◌, refl, sym, ◌∙◌, Bool, true, false, ◌||◌, ◌==◌, ltb,
  if◌then◌else◌, arith,
}
use mathlib.Core.Bool.{false≢true}
use swag_os.Base.Outcome.{ok, panic}
use swag_os.Spinlock.{no_owner}
use swag_os.KernelHeap.{
  KernelHeap, HeapSection, kernel_heap_len, uint64_max, kernel_heap_tree_init, kheap_request,
}
use swag_os.KernelHeap.Invariant.{used, taken, IsConsistent}
use swag_os.KernelHeap.Init.{IsZeroed, IsFresh, kernel_heap_tree_init_lem}
use swag_os.KernelHeap.Find.{IsAddressable, address, kheap_request_lem}
use swag_os.KernelHeap.Complete.{Reachable, stop, right, kheap_request_complete}
use swag_os.KernelHeap.Alloc.{World, null, kalloc, kfree}
use swag_os.KernelHeap.Alloc.Paths.{
  CanLock, unlocked, kalloc_failure_keeps_lock, kfree_frees_nothing,
}

abbrev zeroed : KernelHeap
zeroed = record {
  heap_tree = λ _. record { size = 0; offset = 0; index = 0; in_use = false; flags = 0 };
  va_start = 0xffffffff00000000;
}

zeroed-IsZeroed : IsZeroed zeroed
zeroed-IsZeroed = record { unused = λ j. refl; untaken = λ j. refl; zero_offset = λ j. refl }

kernel_heap_tree_init_lem_example :
    IsFresh (kernel_heap_tree_init 22 zeroed 0 (2 * 1024 * 1024 * 1024) 0)
kernel_heap_tree_init_lem_example = kernel_heap_tree_init_lem zeroed zeroed-IsZeroed refl

-- A heap in which only sections 0 and 1 are of any size, with sections 2 and 3 below.
abbrev sect : ℕ → ℕ → Bool → ℕ → HeapSection
sect size offset in_use flags = record {
  size = size;
  offset = offset;
  index = 0;
  in_use = in_use;
  flags = flags;
}

-- Section 1 is free.
abbrev small : KernelHeap
small = record { heap_tree = tree; va_start = 0x1000 }
  where
    tree : ℕ → HeapSection
    tree zero = sect 0x20000 0 false 0
    tree (suc zero) = sect 0x10000 0x10000 false 0
    tree (suc (suc j)) = sect 0 0 false 0

small-IsConsistent : IsConsistent small
small-IsConsistent = record {
  upward = λ j pos u. absurd (false≢true (sym (unused j) ∙ u));
  taken_used = λ j t. absurd (false≢true (sym (untaken j) ∙ t));
  below_free = λ j pos t. unused j;
}
  where
    unused : (j : ℕ) → used small j ≡ false
    unused zero = refl
    unused (suc zero) = refl
    unused (suc (suc j)) = refl

    untaken : (j : ℕ) → taken small j ≡ false
    untaken zero = refl
    untaken (suc zero) = refl
    untaken (suc (suc j)) = refl

small-IsAddressable : IsAddressable small
small-IsAddressable zero = omega arith
small-IsAddressable (suc zero) = omega arith
small-IsAddressable (suc (suc j)) = omega arith

kheap_request_lem_example :
    let (r, h') = kheap_request uint64_max small 0x10000 in
    ((r ≡ uint64_max) × (h' ≡ small))
    ⊎ ((n : ℕ) × (r ≡ address small n)
        × (n < kernel_heap_len)
        × (0x10000 ≤ (small.heap_tree n).size)
        × (taken small n ≡ false)
        × ((j : ℕ) → taken h' j ≡ (j == n || taken small j))
        × ((j : ℕ)
            → ((h'.heap_tree j).size ≡ (small.heap_tree j).size)
              × ((h'.heap_tree j).offset ≡ (small.heap_tree j).offset))
        × IsConsistent h')
kheap_request_lem_example = kheap_request_lem small 0x10000 small-IsConsistent small-IsAddressable

small-Reachable : Reachable small 0x10000 0
small-Reachable = right (omega arith) refl (stop (omega arith) refl refl)

kheap_request_complete_example : (kheap_request uint64_max small 0x10000).0 ≢ uint64_max
kheap_request_complete_example =
    kheap_request_complete small 0x10000 small-IsConsistent small-IsAddressable small-Reachable

abbrev world : KernelHeap → World
world h = record {
  heap = h;
  lock = record { owner_cpu = no_owner; is_locked = false };
  cpu = record { id = 0; cli_count = 0; no_int = false; interrupts = true };
}

world-CanLock : (h : KernelHeap) → CanLock (world h)
world-CanLock h = record { open_lock = refl; room = omega arith }

-- A request for more than the heap holds.
too_large : (kheap_request uint64_max small 0x20001).0 ≡ uint64_max
unfolding kheap_request
too_large = refl

kalloc_failure_keeps_lock_example :
    (w' : World) × (kalloc uint64_max 0x20001 (world small) ≡ ok (null, w'))
    × (w'.lock.is_locked ≡ true)
    × (w'.cpu.interrupts ≡ false)
    × ((n : ℕ) → kalloc uint64_max n w' ≡ panic)
    × ((addr : ℕ) → kfree addr w' ≡ panic)
kalloc_failure_keeps_lock_example =
    kalloc_failure_keeps_lock uint64_max 0x20001 (world small) (world-CanLock small) too_large

-- The heap after boot and one request.
abbrev fresh : KernelHeap
fresh = kernel_heap_tree_init 22 zeroed 0 (2 * 1024 * 1024 * 1024) 0

abbrev one_request : KernelHeap
one_request = (kheap_request uint64_max fresh 8192).1

abbrev one_taken : KernelHeap
one_taken = record {
  heap_tree = λ j. sect 0x20000 0 (ltb j 2) (if j == 1 then 1 else 0);
  va_start = 0x1000;
}

kfree_frees_nothing_example : kfree 0x1000 (world one_taken) ≡ ok (true, unlocked (world one_taken))
kfree_frees_nothing_example =
    kfree_frees_nothing 0x1000 (world one_taken) (world-CanLock one_taken) refl refl (omega arith)
      (omega arith) (omega arith)
