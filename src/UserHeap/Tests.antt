-- ===== src/UserHeap/Tests.antt =====
-- The theorems on the heap of a process, on a heap of which the first two pages are in use.
use swag_os.Base.{◌+◌, ◌/◌, ◌^◌, ◌≡◌, refl, true, none, [], ◌∷◌, ◌==◌, if◌then◌else◌, arith}
use swag_os.Base.Outcome.{ok}
use swag_os.UserHeap.{
  Kernel, UserHeap, nothing_found, search_heap, heap_address, mark_words, find_entry, sbrk,
  free_heap_alloc_entry,
}
use swag_os.UserHeap.FirstFit.{FirstFit, search_heap_lem}
use swag_os.UserHeap.Release.{searched, marking, free-sbrk_lost}

abbrev heap : UserHeap
heap = record { bitmap = λ i. if i == 0 then 3 else 0; used_pages = []; heap_allocations = [] }

search_heap_lem_example : FirstFit heap.bitmap 2 (search_heap heap.bitmap 2 512 0 nothing_found)
search_heap_lem_example = search_heap_lem heap.bitmap 2 (omega arith)

abbrev kernel : Kernel
kernel = record { shift = λ bit. 2 ^ bit; maps = λ va. true }

two_found : (searched 5000 heap).curr_count ≡ 5000 / 0x1000 + 1
unfolding search_heap
two_found = refl

two_marked : (marking kernel (0x100000 ∷ 0x101000 ∷ []) (searched 5000 heap) heap).done ≡ true
unfolding search_heap mark_words
two_marked = refl

nothing_older :
    find_entry (heap_address (searched 5000 heap).i_start (searched 5000 heap).bit_start) [] ≡ none
unfolding find_entry
nothing_older = refl

free-sbrk_lost_example :
    (h1 : UserHeap) × (sbrk kernel true (0x100000 ∷ 0x101000 ∷ []) 5000 heap
      ≡ ok (h1, heap_address (searched 5000 heap).i_start (searched 5000 heap).bit_start))
    × (free_heap_alloc_entry kernel.shift 0
          (heap_address (searched 5000 heap).i_start (searched 5000 heap).bit_start)
          h1
        ≡ (h1, []))
free-sbrk_lost_example =
    free-sbrk_lost kernel (0x100000 ∷ 0x101000 ∷ []) 5000 0 heap (omega arith) two_found two_marked
      nothing_older
