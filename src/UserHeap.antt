-- ===== src/UserHeap.antt =====
-- The heap of a process: SYSHANDLER_sbrk of src/kernel/arch/x86_64/syscalls.c, FreeHeapAllocEntry and
-- FreeUserHeapBits of src/kernel/kernel/proc.c.
pub mod FirstFit
pub mod Release
mod Tests
use swag_os.Base.{
  ℕ, zero, suc, ◌+◌, ◌-◌, ◌*◌, ◌/◌, ◌%◌, ◌^◌, bit_and, bit_or, Bool, true, false, not, ◌&&◌, List,
  [], ◌∷◌, ◌++◌, Option, none, some, ltb, leb, ◌==◌, if◌then◌else◌,
}
use swag_os.Base.Bits.{test_bit, bit_not}
use swag_os.Base.Outcome.{Outcome, ok, panic}

abbrev pub user_heap_start : ℕ
user_heap_start = 0xffffffff00000000 - 0x1000

-- `user_heap_bitmap`, 512 words of 64 bits.
abbrev pub Bitmap : Type 0
Bitmap = ℕ → ℕ

-- `HeapAllocEntry`
pub record HeapAllocEntry : Type 0 where
  pub start : ℕ
  pub end : ℕ
  pub bit_start : ℕ
  pub bit_end : ℕ
  pub i_start : ℕ
  pub i_end : ℕ

-- The local variables of the search of sbrk.
pub record Search : Type 0 where
  pub curr_count : ℕ
  pub i_start : ℕ
  pub bit_start : ℕ
  pub end_i : ℕ
  pub end_bit : ℕ

abbrev pub nothing_found : Search
nothing_found = record { curr_count = 0; i_start = 0; bit_start = 0; end_i = 0; end_bit = 0 }

-- The count after one bit: a run of free bits starts, goes on or is broken.
unfoldable pub count_bit : Bitmap → ℕ → ℕ → Search → Search
count_bit m i bit s =
    if not (test_bit (m i) bit)
    then (if s.curr_count == 0
        then record s { i_start = i; bit_start = bit; curr_count = 1 }
        else record s { curr_count = suc s.curr_count })
    else record s { curr_count = 0 }

-- The bits of word `i` from `bit` on, `n` of them, until the run is long enough.
unfoldable pub search_word : Bitmap → ℕ → ℕ → ℕ → ℕ → Search → Search
unfolding count_bit
search_word m pages i zero bit s = s
search_word m pages i (suc n) bit s =
    let s1 = count_bit m i bit s in
    let rest = search_word m pages i n (suc bit) s1 in
    if s1.curr_count == pages then record s1 { end_bit = bit; end_i = i } else rest

-- The words from `i` on, `n` of them.
unfoldable pub search_heap : Bitmap → ℕ → ℕ → ℕ → Search → Search
unfolding search_word
search_heap m pages zero i s = s
search_heap m pages (suc n) i s =
    let s1 = search_word m pages i 64 0 s in
    let rest = search_heap m pages n (suc i) s1 in if s1.curr_count == pages then s1 else rest

-- `USER_HEAP_START - ((PGSIZE * bit) + ((64*PGSIZE)*i))`
unfoldable pub heap_address : ℕ → ℕ → ℕ
heap_address i bit = user_heap_start - (0x1000 * bit + 64 * 0x1000 * i)

abbrev pub or_else {ℓ} : {A : Type ℓ} → Option A → A → A
or_else none x = x
or_else (some y) x = y

-- The heap of a process as sbrk and free see it: the bitmap, the pages in use, newest first, each with
-- its virtual and its physical address, and the allocations, newest first.
pub record UserHeap : Type 0 where
  pub bitmap : Bitmap
  pub used_pages : List (ℕ × ℕ)
  pub heap_allocations : List HeapAllocEntry

-- What sbrk calls: `1 << bit` is an int in the source, which `shift` gives as a word; and `maps` says for a
-- virtual address of the heap whether map_4kb_page_user returns, which panics where an entry for the page is
-- there already.
pub record Kernel : Type 0 where
  pub shift : ℕ → ℕ
  pub maps : ℕ → Bool

-- The marking as it goes on: the frames that `physical_frame_request_4kb` will give, UINT64_MAX where it
-- fails, the `end` so far, whether every page has been mapped, and whether a mapping has panicked.
pub record Marking : Type 0 where
  pub heap : UserHeap
  pub frames : List ℕ
  pub last : ℕ
  pub done : Bool
  pub crashed : Bool

-- One page: `1 << bit` is an int in the source, and `k.shift` is what it gives as a word.
unfoldable pub mark_page : Kernel → ℕ → ℕ → ℕ → List ℕ → UserHeap → Marking
unfolding heap_address
mark_page k i bit pa frames h = record {
  heap = record h {
    bitmap = λ j. if j == i then bit_or (h.bitmap i) (k.shift bit) else h.bitmap j;
    used_pages = (heap_address i bit, pa) ∷ h.used_pages;
  };
  frames = frames;
  last = heap_address i bit + 0xFFF;
  done = true;
  crashed = false;
}

unfoldable pub request_failed : Marking → List ℕ → Marking
request_failed s frames = record s { frames = frames; done = false }

unfoldable pub map_panicked : Marking → List ℕ → Marking
map_panicked s frames = record s { frames = frames; done = false; crashed = true }

-- The `n` bits of word `i` from `bit` on.
unfoldable pub mark_bits : Kernel → ℕ → ℕ → ℕ → List ℕ → Marking → Marking
unfolding mark_page request_failed map_panicked heap_address
mark_bits k i zero bit frames s = record s { frames = frames }
mark_bits k i (suc n) bit [] s = request_failed s []
mark_bits k i (suc n) bit (pa ∷ frames) s =
    let rest = mark_bits k i n (suc bit) frames (mark_page k i bit pa frames s.heap) in
    if pa == 2 ^ 64 - 1
    then request_failed s frames
    else if k.maps (heap_address i bit)
    then rest
    else map_panicked s frames

-- The `n` words from `i` on: in each word the bits from `bit_start` to `bit_end`.
unfoldable pub mark_words : Kernel → ℕ → ℕ → ℕ → ℕ → Marking → Marking
unfolding mark_bits
mark_words k bit_start bit_end zero i s = s
mark_words k bit_start bit_end (suc n) i s =
    let s1 = mark_bits k i (suc bit_end - bit_start) bit_start s.frames s in
    let rest = mark_words k bit_start bit_end n (suc i) s1 in if s1.done then rest else s1

-- The entry of a new allocation.
unfoldable pub new_entry : Search → ℕ → ℕ → HeapAllocEntry
new_entry s alloc_ptr last = record {
  start = alloc_ptr;
  end = last;
  bit_start = s.bit_start;
  bit_end = s.end_bit;
  i_start = s.i_start;
  i_end = s.end_i;
}

-- The marking of the run that a search has found, and the result. An entry that kalloc refuses is
-- written through NULL, which faults.
unfoldable pub sbrk_found : Kernel → Bool → List ℕ → Search → UserHeap → Outcome (UserHeap × ℕ)
unfolding mark_words heap_address new_entry
sbrk_found k entry_given frames s h =
    let alloc_ptr = heap_address s.i_start s.bit_start in
    let start : Marking = record {
      heap = h;
      frames = frames;
      last = 0;
      done = true;
      crashed = false;
    } in
    let marked = mark_words k s.bit_start s.end_bit (suc s.end_i - s.i_start) s.i_start start in
    if not marked.done
    then if marked.crashed then panic else ok (marked.heap, 2 ^ 64 - 1)
    else if not entry_given
    then panic
    else ok (
      record (marked.heap) {
        heap_allocations = new_entry s alloc_ptr marked.last ∷ marked.heap.heap_allocations;
      },
      alloc_ptr,
    )

-- The heap and `rax` after SYSHANDLER_sbrk of `rsi` bytes.
unfoldable pub sbrk : Kernel → Bool → List ℕ → ℕ → UserHeap → Outcome (UserHeap × ℕ)
unfolding search_heap sbrk_found
sbrk k entry_given frames rsi h =
    let pages = rsi / 0x1000 + 1 in
    let s = search_heap h.bitmap pages 512 0 nothing_found in
    if s.curr_count == pages then sbrk_found k entry_given frames s h else ok (h, 2 ^ 64 - 1)

-- The page behind an entry of the list; `head_pa` is read where the list ends.
unfoldable pub next_frame : ℕ → List (ℕ × ℕ) → ℕ
next_frame head_pa [] = head_pa
next_frame head_pa (page ∷ pages) = page.1

-- The loop over the pages in use: for each page between two addresses the frame of the page behind it is
-- given back. All entries were put in front and have the header as their `prev`, so that the removal of
-- one makes what is behind it the whole list. The result is that list, if there was a removal, and the
-- frames.
unfoldable pub free_pages : ℕ → ℕ → ℕ → List (ℕ × ℕ) → Option (List (ℕ × ℕ)) × List ℕ
unfolding next_frame
free_pages head_pa first last [] = (none, [])
free_pages head_pa first last (page ∷ pages) =
    let rest = free_pages head_pa first last pages in
    if leb first page.0 && leb page.0 last
    then (some (or_else rest.0 pages), next_frame head_pa pages ∷ rest.1)
    else rest

unfoldable pub clear_bits : (ℕ → ℕ) → ℕ → ℕ → ℕ → Bitmap → Bitmap
clear_bits shift i zero bit m = m
clear_bits shift i (suc n) bit m =
    clear_bits shift i n (suc bit)
      (λ j. if j == i then bit_and (m i) (bit_not 64 (shift bit)) else m j)

unfoldable pub clear_words : (ℕ → ℕ) → ℕ → ℕ → ℕ → ℕ → Bitmap → Bitmap
unfolding clear_bits
clear_words shift bit_start bit_end zero i m = m
clear_words shift bit_start bit_end (suc n) i m =
    clear_words shift bit_start bit_end n (suc i)
      (clear_bits shift i (suc bit_end - bit_start) bit_start m)

-- The heap and the frames that are given back.
unfoldable pub free_user_heap_bits : (ℕ → ℕ) → ℕ → HeapAllocEntry → UserHeap → UserHeap × List ℕ
unfolding free_pages clear_words
free_user_heap_bits shift head_pa entry h =
    let pages = free_pages head_pa entry.start entry.end h.used_pages in
    (
      record h {
        used_pages = or_else pages.0 h.used_pages;
        bitmap =
            clear_words shift entry.bit_start entry.bit_end (suc entry.i_end - entry.i_start)
              entry.i_start h.bitmap;
      },
      pages.1,
    )

-- The first allocation that has an address, and what is left of the list when it is removed: what is
-- behind it, for the reason that free_pages gives.
unfoldable pub find_entry : ℕ → List HeapAllocEntry → Option (HeapAllocEntry × List HeapAllocEntry)
find_entry address [] = none
find_entry address (entry ∷ entries) =
    let rest = find_entry address entries in
    if leb entry.start address && leb address entry.end then some (entry, entries) else rest

-- SYSHANDLER_free of an address.
unfoldable pub free_heap_alloc_entry : (ℕ → ℕ) → ℕ → ℕ → UserHeap → UserHeap × List ℕ
unfolding find_entry free_user_heap_bits
free_heap_alloc_entry shift head_pa address h = elim (find_entry address h.heap_allocations) [
  | none ↦ (h, [])
  | some (entry, others) ↦
      free_user_heap_bits shift head_pa entry (record h { heap_allocations = others })
]
