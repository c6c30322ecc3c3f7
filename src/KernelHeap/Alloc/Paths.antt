-- ===== src/KernelHeap/Alloc/Paths.antt =====
-- `kalloc` and `kfree`: what they do with the lock and the heap on each path.
use swag_os.Base.{
  ℕ, suc, ◌+◌, ◌-◌, ◌%◌, ◌^◌, ◌≤◌, ◌<◌, ◌≡◌, ◌≢◌, refl, true, false, not, ◌&&◌, ◌==◌, ==_self,
  ==_ne, ltb_ge, lt→ltb, le→leb, arith,
}
use swag_os.Base.Outcome.{ok, panic}
use swag_os.Spinlock.{no_owner, acquire_spinlock, release_spinlock}
use swag_os.KernelHeap.{KernelHeap, uint64_max, kheap_request, heap_search}
use swag_os.KernelHeap.Alloc.{
  World, null, acquire, release, kalloc_result, kalloc, kfree_found, kfree_search, kfree,
}

-- No CPU holds the lock, and the caller's counter has room.
pub record CanLock (w : World) : Type 0 where
  pub open_lock : w.lock.is_locked ≡ false
  pub room : w.cpu.cli_count < 2 ^ 32 - 1

-- The world with the lock held by the calling CPU.
abbrev pub locked : World → World
locked w = record w {
  lock = record { owner_cpu = w.cpu.id; is_locked = true };
  cpu = record (w.cpu) { cli_count = (w.cpu.cli_count + 1) % 2 ^ 32; interrupts = false };
}

-- The world after a lock and an unlock: the lock is free and the counter is back.
abbrev pub unlocked : World → World
unlocked w = record w {
  lock = record { owner_cpu = no_owner; is_locked = false };
  cpu = record (w.cpu) { interrupts = w.cpu.cli_count == 0 && not w.cpu.no_int };
}

acquire-locked : (w : World) → CanLock w → acquire w ≡ ok (locked w)
unfolding acquire acquire_spinlock
acquire-locked w c = rw c.open_lock

release-locked : (w : World) → w.cpu.cli_count < 2 ^ 32 - 1 → release (locked w) ≡ ok (unlocked w)
unfolding release release_spinlock
release-locked w room =
    let count : (w.cpu.cli_count + 1) % 2 ^ 32 ≡ w.cpu.cli_count + 1 = omega (arith, room) in
    let back : w.cpu.cli_count + 1 - 1 ≡ w.cpu.cli_count = omega arith in
    rw (==_self w.cpu.id, count, ==_ne (w.cpu.cli_count + 1) 0 (omega arith), back)

-- Where the search finds a section, `kalloc` returns its address, keeps the searched heap, frees
-- its lock and restores the counter of disabled interrupts.
pub kalloc_succeeds :
    (fallen size : ℕ) (w : World)
    → CanLock w
    → let (r, heap) = kheap_request fallen w.heap size in
      r ≢ uint64_max → kalloc fallen size w ≡ ok (r, unlocked (record w { heap = heap }))
unfolding kalloc kalloc_result
kalloc_succeeds fallen size w c ne =
    rw (acquire-locked w c, ==_ne _ uint64_max ne)
      (rw (release-locked (record w { heap = (kheap_request fallen w.heap size).1 }) c.room))

-- Where the search fails, `kalloc` returns NULL with its lock still held and interrupts off, and
-- the next `kalloc` or `kfree` on the same CPU panics, whatever its argument.
pub kalloc_failure_keeps_lock :
    (fallen size : ℕ) (w : World)
    → CanLock w
    → (kheap_request fallen w.heap size).0 ≡ uint64_max
    → (w' : World) × (kalloc fallen size w ≡ ok (null, w'))
      × (w'.lock.is_locked ≡ true)
      × (w'.cpu.interrupts ≡ false)
      × ((n : ℕ) → kalloc fallen n w' ≡ panic)
      × ((addr : ℕ) → kfree addr w' ≡ panic)
unfolding kalloc kalloc_result kfree acquire acquire_spinlock
kalloc_failure_keeps_lock fallen size w c e = (
  record (locked w) { heap = (kheap_request fallen w.heap size).1 },
  rw (c.open_lock, e),
  refl,
  refl,
  λ n. rw (==_self w.cpu.id),
  λ addr. rw (==_self w.cpu.id),
)

-- As soon as anything has been handed out the root is in use, and the search stops there.
search_stops_at_root :
    (n : ℕ) (h : KernelHeap) (offset : ℕ)
    → (h.heap_tree 0).in_use ≡ true
    → (h.heap_tree 0).offset ≤ offset
    → offset < (h.heap_tree 0).offset + (h.heap_tree 0).size
    → heap_search (suc n) h offset 0 ≡ ok 0
unfolding heap_search
search_stops_at_root n h offset used low high =
    rw (le→leb (h.heap_tree 0).offset offset low, heap_search)
      (rw (lt→ltb offset ((h.heap_tree 0).offset + (h.heap_tree 0).size) high, used))

-- `kfree` of any address inside a heap of which something is handed out returns true, frees its
-- lock and leaves the whole heap as it was: it writes copies of the sections only, so no section
-- ever becomes free again.
pub kfree_frees_nothing :
    (addr : ℕ) (w : World)
    → CanLock w
    → (w.heap.heap_tree 0).in_use ≡ true
    → (w.heap.heap_tree 0).offset ≡ 0
    → w.heap.va_start ≤ addr
    → addr < w.heap.va_start + (w.heap.heap_tree 0).size
    → (w.heap.heap_tree 0).size ≤ 2 ^ 32
    → kfree addr w ≡ ok (true, unlocked w)
unfolding kfree kfree_search kfree_found
kfree_frees_nothing addr w c used base low high small =
    rw (acquire-locked w c, ltb_ge addr w.heap.va_start low)
      (rw
        (search_stops_at_root 21 w.heap ((addr - w.heap.va_start) % 2 ^ 32) used
          (omega (arith, base)) (omega (arith, base)))
        (rw (release-locked w c.room)))

-- `kfree` of an address below the heap returns false with its lock still held.
pub kfree_below_keeps_lock :
    (addr : ℕ) (w : World)
    → CanLock w
    → addr < w.heap.va_start
    → kfree addr w ≡ ok (false, locked w)
unfolding kfree
kfree_below_keeps_lock addr w c low = rw (acquire-locked w c, lt→ltb addr w.heap.va_start low)
