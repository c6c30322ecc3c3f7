-- ===== src/UserHeap/Release.antt =====
-- SYSHANDLER_sbrk followed by SYSHANDLER_free (src/kernel/arch/x86_64/syscalls.c) of the address that it
-- has returned.
use swag_os.Base.{
  ℕ, zero, suc, ◌+◌, ◌-◌, ◌*◌, ◌/◌, ◌^◌, ◌<◌, ◌≤◌, ◌≡◌, refl, sym, ap, ◌∙◌, ◌⊎◌, inl, inr, true,
  false, not, ◌&&◌, List, [], ◌∷◌, none, ◌==◌, leb, if◌then◌else◌, Bool-cases, ==_iff, arith,
}
use mathlib.Core.Bool.{false≢true}
use swag_os.Base.Outcome.{ok, panic}
use swag_os.UserHeap.{
  Search, UserHeap, HeapAllocEntry, Marking, nothing_found, search_heap, heap_address, mark_page,
  Kernel, map_panicked, request_failed, mark_bits, mark_words, new_entry, sbrk_found, sbrk,
  find_entry, free_heap_alloc_entry,
}
use swag_os.UserHeap.FirstFit.{no_room, room, search_heap_lem}

bits-none :
    (kernel : Kernel) (i bit : ℕ) (frames : List ℕ) (s : Marking)
    → (mark_bits kernel i 0 bit frames s).last ≡ s.last
unfolding mark_bits
bits-none kernel i bit frames s = refl

bits-out :
    (kernel : Kernel) (i n bit : ℕ) (s : Marking)
    → (mark_bits kernel i (suc n) bit [] s).done ≡ false
unfolding mark_bits request_failed
bits-out kernel i n bit s = refl

bits-crashed :
    (kernel : Kernel) (i n bit pa : ℕ) (frames : List ℕ) (s : Marking)
    → (pa == 2 ^ 64 - 1) ≡ false
    → kernel.maps (heap_address i bit) ≡ false
    → (mark_bits kernel i (suc n) bit (pa ∷ frames) s).done ≡ false
unfolding mark_bits map_panicked
bits-crashed kernel i n bit pa frames s fine crash = rw (fine, crash) refl

bits-failed :
    (kernel : Kernel) (i n bit pa : ℕ) (frames : List ℕ) (s : Marking)
    → (pa == 2 ^ 64 - 1) ≡ true
    → (mark_bits kernel i (suc n) bit (pa ∷ frames) s).done ≡ false
unfolding mark_bits
bits-failed kernel i n bit pa frames s failed = rw failed refl

bits-marked :
    (kernel : Kernel) (i n bit pa : ℕ) (frames : List ℕ) (s : Marking)
    → (pa == 2 ^ 64 - 1) ≡ false
    → kernel.maps (heap_address i bit) ≡ true
    → mark_bits kernel i (suc n) bit (pa ∷ frames) s
      ≡ mark_bits kernel i n (suc bit) frames (mark_page kernel i bit pa frames s.heap)
unfolding mark_bits
bits-marked kernel i n bit pa frames s fine maps = rw (fine, maps) refl

page-last :
    (kernel : Kernel) (i bit pa : ℕ) (frames : List ℕ) (h : UserHeap)
    → (mark_page kernel i bit pa frames h).last ≡ heap_address i bit + 0xFFF
unfolding mark_page
page-last kernel i bit pa frames h = refl

-- A marking of a page and more that is done has marked the page.
first_marked :
    (kernel : Kernel) (i n bit pa : ℕ) (frames : List ℕ) (s : Marking)
    → (mark_bits kernel i (suc n) bit (pa ∷ frames) s).done ≡ true
    → mark_bits kernel i (suc n) bit (pa ∷ frames) s
      ≡ mark_bits kernel i n (suc bit) frames (mark_page kernel i bit pa frames s.heap)
first_marked kernel i n bit pa frames s done = elim (Bool-cases (pa == 2 ^ 64 - 1)) [
  | inl failed ↦ absurd (false≢true (sym (bits-failed kernel i n bit pa frames s failed) ∙ done))
  | inr fine ↦ elim (Bool-cases (kernel.maps (heap_address i bit))) [
    | inl maps ↦ bits-marked kernel i n bit pa frames s fine maps
    | inr crash ↦
        absurd (false≢true (sym (bits-crashed kernel i n bit pa frames s fine crash) ∙ done))
  ]
]

bits-last :
    (kernel : Kernel) (i n bit : ℕ) (frames : List ℕ) (s : Marking)
    → (mark_bits kernel i (suc n) bit frames s).done ≡ true
    → (mark_bits kernel i (suc n) bit frames s).last ≡ heap_address i (bit + n) + 0xFFF
bits-last kernel i n bit [] s done = absurd (false≢true (sym (bits-out kernel i n bit s) ∙ done))
bits-last kernel i zero bit (pa ∷ frames) s done =
    ap (λ x. x.last) (first_marked kernel i 0 bit pa frames s done)
    ∙ bits-none kernel i (suc bit) frames (mark_page kernel i bit pa frames s.heap)
    ∙ page-last kernel i bit pa frames s.heap
    ∙ ap (λ x. heap_address i x + 0xFFF) (omega arith)
bits-last kernel i (suc n) bit (pa ∷ frames) s done =
    let same = first_marked kernel i (suc n) bit pa frames s done in
    ap (λ x. x.last) same
    ∙ bits-last kernel i n (suc bit) frames (mark_page kernel i bit pa frames s.heap)
        (ap (λ x. x.done) (sym same) ∙ done)
    ∙ ap (λ x. heap_address i x + 0xFFF) (omega arith)

words-none :
    (kernel : Kernel) (bit_start bit_end i : ℕ) (s : Marking)
    → mark_words kernel bit_start bit_end 0 i s ≡ s
unfolding mark_words
words-none kernel bit_start bit_end i s = refl

abbrev one_word : Kernel → ℕ → ℕ → ℕ → Marking → Marking
one_word kernel bit_start bit_end i s =
    mark_bits kernel i (suc bit_end - bit_start) bit_start s.frames s

words-step :
    (kernel : Kernel) (bit_start bit_end n i : ℕ) (s : Marking)
    → mark_words kernel bit_start bit_end (suc n) i s ≡ (
        if (one_word kernel bit_start bit_end i s).done
        then mark_words kernel bit_start bit_end n (suc i) (one_word kernel bit_start bit_end i s)
        else one_word kernel bit_start bit_end i s)
unfolding mark_words
words-step kernel bit_start bit_end n i s = refl

-- A word that is done lets the others follow.
words-goes :
    (kernel : Kernel) (bit_start bit_end n i : ℕ) (s : Marking)
    → (mark_words kernel bit_start bit_end (suc n) i s).done ≡ true
    → ((one_word kernel bit_start bit_end i s).done ≡ true)
      × (mark_words kernel bit_start bit_end (suc n) i s
          ≡ mark_words kernel bit_start bit_end n (suc i) (one_word kernel bit_start bit_end i s))
words-goes kernel bit_start bit_end n i s done =
    let s1 = one_word kernel bit_start bit_end i s in
    let rest = mark_words kernel bit_start bit_end n (suc i) s1 in
    let step = words-step kernel bit_start bit_end n i s in
    elim (Bool-cases s1.done) [
      | inl go ↦ (go, step ∙ ap (λ b. if b then rest else s1) go)
      | inr stop ↦ absurd (
          false≢true (
            sym stop
            ∙ ap (λ x. x.done) (sym (step ∙ ap (λ b. if b then rest else s1) stop))
            ∙ done))
    ]

one-last :
    (kernel : Kernel) (bit_start bit_end i c : ℕ) (s : Marking)
    → suc bit_end - bit_start ≡ c
    → (mark_bits kernel i c bit_start s.frames s).done ≡ true
    → ((bit_start ≤ bit_end)
        × ((mark_bits kernel i c bit_start s.frames s).last ≡ heap_address i bit_end + 0xFFF))
      ⊎ ((bit_end < bit_start) × ((mark_bits kernel i c bit_start s.frames s).last ≡ s.last))
one-last kernel bit_start bit_end i zero s count done =
    inr (omega (arith, count), bits-none kernel i bit_start s.frames s)
one-last kernel bit_start bit_end i (suc c) s count done = inl (
  omega (arith, count),
  bits-last kernel i c bit_start s.frames s done
      ∙ ap (λ x. heap_address i x + 0xFFF) (omega (arith, count)),
)

-- Where a marking that is done ends: with its last page, or, where the words have no bits to mark, as it
-- started.
words-last :
    (kernel : Kernel) (bit_start bit_end n i : ℕ) (s : Marking)
    → (mark_words kernel bit_start bit_end (suc n) i s).done ≡ true
    → ((bit_start ≤ bit_end)
        × ((mark_words kernel bit_start bit_end (suc n) i s).last
            ≡ heap_address (i + n) bit_end + 0xFFF))
      ⊎ ((bit_end < bit_start) × ((mark_words kernel bit_start bit_end (suc n) i s).last ≡ s.last))
words-last kernel bit_start bit_end zero i s done =
    let (go, step) = words-goes kernel bit_start bit_end 0 i s done in
    let s1 = one_word kernel bit_start bit_end i s in
    let same = ap (λ x. x.last) (step ∙ words-none kernel bit_start bit_end (suc i) s1) in
    elim (one-last kernel bit_start bit_end i (suc bit_end - bit_start) s refl go) [
      | inl (le, at) ↦ inl (le, same ∙ at ∙ ap (λ x. heap_address x bit_end + 0xFFF) (omega arith))
      | inr (lt, at) ↦ inr (lt, same ∙ at)
    ]
words-last kernel bit_start bit_end (suc n) i s done =
    let (go, step) = words-goes kernel bit_start bit_end (suc n) i s done in
    let s1 = one_word kernel bit_start bit_end i s in
    let same = ap (λ x. x.last) step in
    elim (words-last kernel bit_start bit_end n (suc i) s1 (ap (λ x. x.done) (sym step) ∙ done)) [
      | inl (le, at) ↦ inl (le, same ∙ at ∙ ap (λ x. heap_address x bit_end + 0xFFF) (omega arith))
      | inr (lt, at) ↦
          elim (one-last kernel bit_start bit_end i (suc bit_end - bit_start) s refl go) [
            | inl (le, _) ↦ absurd (omega (arith, lt, le))
            | inr (_, at0) ↦ inr (lt, same ∙ at ∙ at0)
          ]
    ]

-- The start of a marking.
abbrev start_of : List ℕ → UserHeap → Marking
start_of frames h = record { heap = h; frames = frames; last = 0; done = true; crashed = false }

abbrev pub marking : Kernel → List ℕ → Search → UserHeap → Marking
marking kernel frames s h =
    mark_words kernel s.bit_start s.end_bit (suc s.end_i - s.i_start) s.i_start (start_of frames h)

-- The heap after an allocation for which every request gave a frame.
pub allocated : Kernel → List ℕ → Search → UserHeap → UserHeap
allocated kernel frames s h =
    let marked = marking kernel frames s h in
    record (marked.heap) {
      heap_allocations =
          new_entry s (heap_address s.i_start s.bit_start) marked.last
          ∷ marked.heap.heap_allocations;
    }

found-allocated :
    (kernel : Kernel) (frames : List ℕ) (s : Search) (h : UserHeap)
    → (marking kernel frames s h).done ≡ true
    → sbrk_found kernel true frames s h
      ≡ ok (allocated kernel frames s h, heap_address s.i_start s.bit_start)
unfolding sbrk_found allocated
found-allocated kernel frames s h done =
    ap
      (λ b.
        if not b
        then (if (marking kernel frames s h).crashed
            then panic
            else ok ((marking kernel frames s h).heap, 2 ^ 64 - 1))
        else ok (allocated kernel frames s h, heap_address s.i_start s.bit_start))
      done

-- The search of sbrk.
abbrev pub searched : ℕ → UserHeap → Search
searched rsi h = search_heap h.bitmap (rsi / 0x1000 + 1) 512 0 nothing_found

sbrk-allocated :
    (kernel : Kernel) (frames : List ℕ) (rsi : ℕ) (h : UserHeap)
    → (searched rsi h).curr_count ≡ rsi / 0x1000 + 1
    → (marking kernel frames (searched rsi h) h).done ≡ true
    → sbrk kernel true frames rsi h
      ≡ ok (
        allocated kernel frames (searched rsi h) h,
        heap_address (searched rsi h).i_start (searched rsi h).bit_start,
      )
unfolding sbrk
sbrk-allocated kernel frames rsi h full done =
    ap (λ b. if b then sbrk_found kernel true frames (searched rsi h) h else ok (h, 2 ^ 64 - 1))
      ((==_iff (searched rsi h).curr_count (rsi / 0x1000 + 1)).1 full)
    ∙ found-allocated kernel frames (searched rsi h) h done

bits-keep :
    (kernel : Kernel) (i n bit : ℕ) (frames : List ℕ) (s : Marking)
    → (mark_bits kernel i n bit frames s).heap.heap_allocations ≡ s.heap.heap_allocations
unfolding mark_bits mark_page request_failed map_panicked
bits-keep kernel i zero bit frames s = refl
bits-keep kernel i (suc n) bit [] s = refl
bits-keep kernel i (suc n) bit (pa ∷ frames) s = elim (Bool-cases (pa == 2 ^ 64 - 1)) [
  | inl failed ↦ rw failed refl
  | inr fine ↦ elim (Bool-cases (kernel.maps (heap_address i bit))) [
    | inl maps ↦
        ap (λ x. x.heap.heap_allocations) (bits-marked kernel i n bit pa frames s fine maps)
        ∙ bits-keep kernel i n (suc bit) frames (mark_page kernel i bit pa frames s.heap)
    | inr crash ↦ rw (fine, crash) refl
  ]
]

words-keep :
    (kernel : Kernel) (bit_start bit_end n i : ℕ) (s : Marking)
    → (mark_words kernel bit_start bit_end n i s).heap.heap_allocations ≡ s.heap.heap_allocations
words-keep kernel bit_start bit_end zero i s =
    ap (λ x. x.heap.heap_allocations) (words-none kernel bit_start bit_end i s)
words-keep kernel bit_start bit_end (suc n) i s =
    let s1 = one_word kernel bit_start bit_end i s in
    let rest = mark_words kernel bit_start bit_end n (suc i) s1 in
    let step = words-step kernel bit_start bit_end n i s in
    let first = bits-keep kernel i (suc bit_end - bit_start) bit_start s.frames s in
    elim (Bool-cases s1.done) [
      | inl go ↦
          ap (λ x. x.heap.heap_allocations) (step ∙ ap (λ b. if b then rest else s1) go)
          ∙ words-keep kernel bit_start bit_end n (suc i) s1
          ∙ first
      | inr stop ↦
          ap (λ x. x.heap.heap_allocations) (step ∙ ap (λ b. if b then rest else s1) stop) ∙ first
    ]

entry-passed :
    (address : ℕ) (entry : HeapAllocEntry) (entries : List HeapAllocEntry)
    → (leb entry.start address && leb address entry.end) ≡ false
    → find_entry address (entry ∷ entries) ≡ find_entry address entries
unfolding find_entry
entry-passed address entry entries outside = rw outside refl

free-nothing :
    (kernel : Kernel) (head_pa address : ℕ) (h : UserHeap)
    → find_entry address h.heap_allocations ≡ none
    → free_heap_alloc_entry kernel.shift head_pa address h ≡ (h, [])
unfolding free_heap_alloc_entry
free-nothing kernel head_pa address h missing = rw (missing, free_heap_alloc_entry) refl

-- Addresses of the heap fall as pages rise.
address-falls :
    (i bit j last : ℕ)
    → 64 * i + bit + 1 ≤ 64 * j + last
    → 64 * j + last < 32768
    → heap_address j last + 0xFFF < heap_address i bit
unfolding heap_address
address-falls i bit j last lt low = omega (arith, lt, low)

address-positive : (i bit : ℕ) → 64 * i + bit < 32768 → 0 < heap_address i bit
unfolding heap_address
address-positive i bit lt = omega (arith, lt)

-- The entry of an allocation of several pages has no address at all.
entry-empty :
    (kernel : Kernel) (frames : List ℕ) (rsi : ℕ) (h : UserHeap)
    → 0x1000 ≤ rsi
    → (searched rsi h).curr_count ≡ rsi / 0x1000 + 1
    → (marking kernel frames (searched rsi h) h).done ≡ true
    → (marking kernel frames (searched rsi h) h).last
      < heap_address (searched rsi h).i_start (searched rsi h).bit_start
entry-empty kernel frames rsi h big full done =
    let s = searched rsi h in
    elim (search_heap_lem h.bitmap (rsi / 0x1000 + 1) (omega arith)) [
      | no_room short none_there ↦ absurd (omega (arith, short, full))
      | room p fits counted starts ends in_word free first ↦
          let several : 2 ≤ rsi / 0x1000 + 1 = omega (arith, big) in
          let words : suc (s.end_i - s.i_start) ≡ suc s.end_i - s.i_start =
            omega (arith, starts, ends, several, in_word.0, in_word.1) in
          let more : 64 * s.i_start + s.bit_start + 1 ≤ 64 * s.end_i + s.end_bit =
            omega (arith, starts, ends, several) in
          let low : 64 * s.end_i + s.end_bit < 32768 = omega (arith, ends, fits) in
          let start = start_of frames h in
          let same = ap (λ n. mark_words kernel s.bit_start s.end_bit n s.i_start start) words in
          elim (words-last kernel s.bit_start s.end_bit (s.end_i - s.i_start) s.i_start start
            (ap (λ x. x.done) same ∙ done)) [
              | inl (_, at) ↦
                  let last_word : s.i_start + (s.end_i - s.i_start) ≡ s.end_i =
                    omega (arith, words) in
                  let falls = address-falls s.i_start s.bit_start s.end_i s.end_bit more low in
                  let is_last =
                    ap (λ x. x.last) (sym same)
                    ∙ at
                    ∙ ap (λ x. heap_address x s.end_bit + 0xFFF) last_word in
                  omega (arith, is_last, falls)
              | inr (_, at) ↦
                  let is_zero = ap (λ x. x.last) (sym same) ∙ at in
                  omega (
                    arith,
                    is_zero,
                    address-positive s.i_start s.bit_start (omega (arith, more, low)),
                  )
            ]
    ]

allocated-entries :
    (kernel : Kernel) (frames : List ℕ) (s : Search) (h : UserHeap)
    → (allocated kernel frames s h).heap_allocations
      ≡ new_entry s (heap_address s.i_start s.bit_start) (marking kernel frames s h).last
        ∷ h.heap_allocations
unfolding allocated
allocated-entries kernel frames s h =
    ap
      (λ es. new_entry s (heap_address s.i_start s.bit_start) (marking kernel frames s h).last ∷ es)
      (words-keep kernel s.bit_start s.end_bit (suc s.end_i - s.i_start) s.i_start
        (start_of frames h))

entry-missed :
    (s : Search) (address last : ℕ) (entries : List HeapAllocEntry)
    → last < address
    → find_entry address entries ≡ none
    → find_entry address (new_entry s address last ∷ entries) ≡ none
unfolding new_entry
entry-missed s address last entries lt missing =
    entry-passed address (new_entry s address last) entries (ground (arith, lt)) ∙ missing

-- sbrk of 4096 bytes or more, which takes two pages or more, where it finds a run of pages, every request
-- for a frame and for the entry is granted and no mapping of a page panics, returns the address of the first page of the run;
-- SYSHANDLER_free of that address, which no older allocation covers, then frees nothing and leaves the
-- heap as it is.
pub free-sbrk_lost :
    (kernel : Kernel) (frames : List ℕ) (rsi head_pa : ℕ) (h : UserHeap)
    → 0x1000 ≤ rsi
    → (searched rsi h).curr_count ≡ rsi / 0x1000 + 1
    → (marking kernel frames (searched rsi h) h).done ≡ true
    → find_entry
        (heap_address (searched rsi h).i_start (searched rsi h).bit_start)
        h.heap_allocations
      ≡ none
    → (h1 : UserHeap) × (sbrk kernel true frames rsi h
        ≡ ok (h1, heap_address (searched rsi h).i_start (searched rsi h).bit_start))
      × (free_heap_alloc_entry kernel.shift head_pa
            (heap_address (searched rsi h).i_start (searched rsi h).bit_start)
            h1
          ≡ (h1, []))
free-sbrk_lost kernel frames rsi head_pa h big full done missing =
    let s = searched rsi h in
    let address = heap_address s.i_start s.bit_start in
    let h1 = allocated kernel frames s h in
    let lt = entry-empty kernel frames rsi h big full done in
    (
      h1,
      sbrk-allocated kernel frames rsi h full done,
      free-nothing kernel head_pa address h1 (
          ap (find_entry address) (allocated-entries kernel frames s h)
          ∙ entry-missed s address (marking kernel frames s h).last h.heap_allocations lt missing),
    )
