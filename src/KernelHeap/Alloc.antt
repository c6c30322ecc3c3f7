-- ===== src/KernelHeap/Alloc.antt =====
-- `kalloc` and `kfree`, with the lock that they take.
pub mod Paths
use swag_os.Base.{
  ℕ, zero, suc, ◌+◌, ◌-◌, ◌%◌, ◌^◌, Bool, true, false, not, ◌&&◌, ◌==◌, ltb, if◌then◌else◌,
}
use swag_os.Base.Outcome.{Outcome, ok, panic, hang, ◌>>=◌}
use swag_os.Spinlock.{Spinlock, Cpu, acquire_spinlock, release_spinlock}
use swag_os.KernelHeap.{
  KernelHeap, HeapSection, uint32_max, uint64_max, occupied, kheap_request, heap_search, get_buddy,
  heap_get_parent,
}

-- The heap, its lock, and the CPU that calls.
pub record World : Type 0 where
  pub heap : KernelHeap
  pub lock : Spinlock
  pub cpu : Cpu

abbrev pub null : ℕ
null = 0

unfoldable pub acquire : World → Outcome World
acquire w =
    acquire_spinlock (w.lock, w.cpu) >>= λ (lock, cpu). ok (record w { lock = lock; cpu = cpu })

unfoldable pub release : World → Outcome World
release w =
    release_spinlock (w.lock, w.cpu) >>= λ (lock, cpu). ok (record w { lock = lock; cpu = cpu })

-- On failure the source returns before it releases the lock.
kalloc_result : ℕ × KernelHeap → World → Outcome (ℕ × World)
kalloc_result (kheap_memory, heap) w =
    if kheap_memory == uint64_max
    then ok (null, record w { heap = heap })
    else (release (record w { heap = heap }) >>= λ w'. ok (kheap_memory, w'))

pub kalloc : ℕ → ℕ → World → Outcome (ℕ × World)
unfolding kalloc_result acquire release
kalloc fallen size w = acquire w >>= λ w'. kalloc_result (kheap_request fallen w'.heap size) w'

-- The local variables of `kfree`: `curr`, `buddy` and `parent` are copies of array elements.
pub record Walk : Type 0 where
  pub section_index : ℕ
  pub buddy : HeapSection
  pub parent : HeapSection

-- The loop halves the index until it is 0.
kfree_loop : ℕ → KernelHeap → Walk → Walk
kfree_loop zero h s = s
kfree_loop (suc n) h s =
    elim (not s.buddy.in_use && not (occupied s.buddy) && ltb 0 s.section_index) [
      | true ↦
          let up : ℕ = heap_get_parent s.section_index in
          kfree_loop n h (record {
            section_index = up;
            buddy = get_buddy h up;
            parent = record (h.heap_tree up) { in_use = false; flags = 0 };
          })
      | false ↦ s
    ]

-- What `kfree` does with the section it has found; the walk writes local copies only.
kfree_found : ℕ → World → Outcome (Bool × World)
kfree_found section_index w =
    let curr : HeapSection = record (w.heap.heap_tree section_index) {
      in_use = false;
      flags = 0;
    } in
    let done = kfree_loop (suc section_index) w.heap (record {
      section_index = section_index;
      buddy = get_buddy w.heap section_index;
      parent = curr;
    }) in
    release w >>= λ w'. ok (true, w')

kfree_search : ℕ → World → Outcome (Bool × World)
kfree_search section_index w =
    if section_index == uint32_max then ok (false, w) else kfree_found section_index w

-- Both failure paths return with the lock held.
pub kfree : ℕ → World → Outcome (Bool × World)
unfolding kfree_search kfree_found acquire release
kfree addr w = acquire w >>= λ w'.
    if ltb addr w'.heap.va_start
    then ok (false, w')
    else (heap_search 22 w'.heap ((addr - w'.heap.va_start) % 2 ^ 32) 0 >>= λ section_index.
        kfree_search section_index w')
