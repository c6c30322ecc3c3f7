-- ===== src/SmallFrames.antt =====
-- The manager of 4 KB frames in src/kernel/mem/pmm.c: chunks of 2 MB, each with a bitmap of 500 frames,
-- four to a word. The list lock is held around each search.
pub mod Serve
pub mod Return
mod Tests
use swag_os.Base.{
  ℕ, zero, suc, ◌+◌, ◌-◌, ◌*◌, ◌/◌, ◌%◌, ◌^◌, bit_and, bit_or, Bool, true, false, not, ◌&&◌, List,
  [], ◌∷◌, Option, none, some, ◌==◌, ltb, leb, if◌then◌else◌, get_or, set, replicate,
}
use swag_os.Base.Bits.{test_bit, bit_not}
use swag_os.Base.Outcome.{Outcome, ok, panic, ◌>>=◌}
use swag_os.Pmm.{pgsize, hugepgsize, uint64_max, FrameManager, physical_frame_request}

pub record HugeChunk : Type 0 where
  pub start_address : ℕ
  pub use_count : ℕ
  pub frame_bitmap : List ℕ

-- `head`, as the chunks in the order of their `next` pointers, and its count.
pub record SmallPageManager : Type 0 where
  pub chunks : List HugeChunk
  pub entry_count : ℕ

unfoldable pub page_in_use : HugeChunk → ℕ → Bool
page_in_use c i = test_bit (get_or c.frame_bitmap (i / 4) 0) (i % 4)

unfoldable pub small_frame : HugeChunk → ℕ → ℕ
small_frame c i = (c.start_address + i % 4 * pgsize + i / 4 * 4 * pgsize) % 2 ^ 64

unfoldable pub take_page : HugeChunk → ℕ → HugeChunk
take_page c i = record c {
  frame_bitmap =
      set c.frame_bitmap (i / 4) (bit_or (get_or c.frame_bitmap (i / 4) 0) (2 ^ (i % 4)));
  use_count = (c.use_count + 1) % 2 ^ 32;
}

-- The first page of a chunk that is free, from page `i` on with `n` pages left.
unfoldable pub free_page : ℕ → ℕ → HugeChunk → Option ℕ
unfolding page_in_use
free_page zero i c = none
free_page (suc n) i c = let rest = free_page n (suc i) c in if page_in_use c i then rest else some i

-- One round of the loop over the chunks.
unfoldable pub page_of : HugeChunk → Option ℕ
unfolding free_page
page_of c = if ltb c.use_count 500 then free_page 500 0 c else none

-- The loop went past chunk `c`.
unfoldable pub past_chunk : HugeChunk → Option (List HugeChunk × ℕ) → Option (List HugeChunk × ℕ)
past_chunk c none = none
past_chunk c (some r) = some (c ∷ r.0, r.1)

unfoldable pub search_chunks : List HugeChunk → Option (List HugeChunk × ℕ)
unfolding page_of take_page small_frame past_chunk
search_chunks [] = none
search_chunks (c ∷ cs) = elim (page_of c) [
  | some i ↦ some (take_page c i ∷ cs, small_frame c i)
  | none ↦ past_chunk c (search_chunks cs)
]

unfoldable pub check_available_chunked_frame : SmallPageManager → SmallPageManager × ℕ
unfolding search_chunks
check_available_chunked_frame s =
    if s.entry_count == 0 then (s, uint64_max) else elim (search_chunks s.chunks) [
      | some r ↦ (record s { chunks = r.0 }, r.1)
      | none ↦ (s, uint64_max)
    ]

-- What try_free_chunked_frame does to a chunk: whether it holds an address, the page of the address, and
-- the chunk with the page free. A chunk has no words of its bitmap behind the first 125; what is written
-- there is behind the chunk.
unfoldable pub holds : HugeChunk → ℕ → Bool
holds c addr = leb c.start_address addr && ltb addr ((c.start_address + hugepgsize) % 2 ^ 64)

unfoldable pub page_index : HugeChunk → ℕ → ℕ
page_index c addr = (addr / pgsize * pgsize + (2 ^ 64 - c.start_address)) % 2 ^ 64 / pgsize

unfoldable pub release_page : HugeChunk → ℕ → HugeChunk
release_page c i = record c {
  frame_bitmap =
      set c.frame_bitmap (i / 4)
        (bit_and (get_or c.frame_bitmap (i / 4) 0) (bit_not 32 (2 ^ (i % 4))));
  use_count = (c.use_count + (2 ^ 32 - 1)) % 2 ^ 32;
}

-- How the search of try_free_chunked_frame ends: no chunk holds the address, or a chunk has been changed,
-- or it has been removed from the list. All chunks were put in front and have the header as their `prev`,
-- so that the removal of one makes what is behind it the whole list.
pub data Release : Type 0 where
  nowhere : Release
  changed : List HugeChunk → Release
  removed : List HugeChunk → Release

unfoldable pub release_past : HugeChunk → Release → Release
release_past c nowhere = nowhere
release_past c (changed cs) = changed (c ∷ cs)
release_past c (removed cs) = removed cs

-- The chunk that holds the address: it is removed when no page of it is in use.
unfoldable pub release_here : HugeChunk → List HugeChunk → Release
release_here c cs = if c.use_count == 0 then removed cs else changed (c ∷ cs)

unfoldable pub release_chunks : List HugeChunk → ℕ → Release
unfolding holds page_index release_page release_past release_here
release_chunks [] addr = nowhere
release_chunks (c ∷ cs) addr =
    let rest = release_past c (release_chunks cs addr) in
    if holds c addr then release_here (release_page c (page_index c addr)) cs else rest

-- `remove_dll_entry` does not know the header: `entry_count` stays as it is.
unfoldable pub try_free_chunked_frame : SmallPageManager → ℕ → SmallPageManager × Bool
unfolding release_chunks
try_free_chunked_frame s addr =
    if s.entry_count == 0 then (s, false) else elim (release_chunks s.chunks addr) [
      | nowhere ↦ (s, false)
      | changed cs ↦ (record s { chunks = cs }, true)
      | removed cs ↦ (record s { chunks = cs }, true)
    ]

-- `kalloc` gives no chunk, or one whose memory holds `stale` for `use_count`: `kalloc` does not clear it.
unfoldable pub create_new_chunked_frame :
    SmallPageManager → Option ℕ → ℕ → Outcome (SmallPageManager × ℕ)
create_new_chunked_frame s none start = panic
create_new_chunked_frame s (some stale) start = ok (
  record {
    chunks =
        record {
          start_address = start;
          use_count = (stale + 1) % 2 ^ 32;
          frame_bitmap = set (replicate 125 0) 0 (bit_or 0 1);
        }
        ∷ s.chunks;
    entry_count = (s.entry_count + 1) % 2 ^ 32;
  },
  start,
)

-- The frame, with the managers of small and of large frames.
unfoldable pub physical_frame_request_4kb :
    SmallPageManager → FrameManager → Option ℕ → Outcome (ℕ × SmallPageManager × FrameManager)
unfolding check_available_chunked_frame create_new_chunked_frame
physical_frame_request_4kb s m stale =
    let found = check_available_chunked_frame s in
    if not (found.1 == uint64_max)
    then ok (found.1, found.0, m)
    else (physical_frame_request m >>= λ r.
        if r.0 == uint64_max
        then ok (uint64_max, found.0, r.1)
        else (create_new_chunked_frame found.0 stale r.0 >>= λ n. ok (n.1, n.0, r.1)))
