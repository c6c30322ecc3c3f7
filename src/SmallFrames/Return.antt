-- ===== src/SmallFrames/Return.antt =====
-- try_free_chunked_frame of src/kernel/mem/pmm.c undoes what check_available_chunked_frame does.
use swag_os.Base.{
  ℕ, suc, ◌+◌, ◌*◌, ◌/◌, ◌%◌, ◌^◌, ◌<◌, ◌≤◌, ◌≡◌, ◌≢◌, refl, sym, ap, ap₂, ◌∙◌, ◌⊎◌, inl, inr,
  Option, none, some, bit_and, bit_or, Bool, true, false, not, ◌||◌, ◌&&◌, List, [], ◌∷◌, ◌++◌,
  ◌==◌, get_or, set, length-set, get_or-set_self, get_or-set_ne, Bool-cases, ==_ne, ==_iff, arith,
}
use swag_os.Base.Bits.{test_bit, test_bit-bit_and, test_bit-bit_not, test_bit-pow, bit_not, pow_lt}
use swag_os.Pmm.{pgsize, hugepgsize, uint64_max}
use swag_os.SmallFrames.{
  HugeChunk, SmallPageManager, page_in_use, take_page, search_chunks, check_available_chunked_frame,
  try_free_chunked_frame, holds, page_index, release_page, release_past, release_here,
  release_chunks, changed,
}
use swag_os.SmallFrames.Serve.{
  IsChunk, page_in_use-take_page, AreChunks, Served, exhausted, served, search_chunks_lem,
}

and_true : (b : Bool) → (b && true) ≡ b
and_true true = refl
and_true false = refl

-- Releasing a page makes it free, and leaves the other pages of the chunk.
pub page_in_use-release_page :
    (c : HugeChunk) (i j : ℕ)
    → IsChunk c
    → i < 500
    → page_in_use (release_page c i) j ≡ (page_in_use c j && not (i == j))
unfolding page_in_use release_page
page_in_use-release_page c i j k small = elim (Bool-cases (i / 4 == j / 4)) [
  | inl e ↦
      let word : i / 4 ≡ j / 4 = ground (arith, e) in
      let place : (i % 4 == j % 4) ≡ (i == j) = ground (arith, word) in
      let w = get_or c.frame_bitmap (i / 4) 0 in
      let mask = bit_not 32 (2 ^ (i % 4)) in
      ap (λ q. test_bit (get_or (set c.frame_bitmap (i / 4) (bit_and w mask)) q 0) (j % 4))
        (sym word)
      ∙ ap (λ v. test_bit v (j % 4))
          (get_or-set_self c.frame_bitmap (i / 4) (bit_and w mask) 0 (omega (arith, k.words)))
      ∙ test_bit-bit_and (j % 4) w mask
      ∙ ap₂ (λ a b. a && b) (ap (λ q. test_bit (get_or c.frame_bitmap q 0) (j % 4)) word)
          (test_bit-bit_not (j % 4) 32 (2 ^ (i % 4)) (omega arith) (pow_lt (i % 4) 32 (omega arith))
            ∙ ap not (test_bit-pow (j % 4) (i % 4) ∙ place))
  | inr e ↦
      let apart : i / 4 ≢ j / 4 = ground (arith, e) in
      let other : (i == j) ≡ false = ==_ne i j (λ z. apart (ap (λ x. x / 4) z)) in
      ap (λ v. test_bit v (j % 4))
        (get_or-set_ne c.frame_bitmap (i / 4) (j / 4)
          (bit_and (get_or c.frame_bitmap (i / 4) 0) (bit_not 32 (2 ^ (i % 4)))) 0 apart)
      ∙ sym (and_true (page_in_use c j))
      ∙ ap (λ b. page_in_use c j && not b) (sym other)
]

-- A chunk that starts at a page and ends below 2 ^ 64.
pub record IsPlaced (c : HugeChunk) : Type 0 where
  pub chunk : IsChunk c
  pub start : c.start_address % pgsize ≡ 0
  pub below : c.start_address + hugepgsize < 2 ^ 64

-- An address in page `i` of a chunk.
abbrev pub InPage : HugeChunk → ℕ → ℕ → Type 0
InPage c i a = (c.start_address + i * pgsize ≤ a) × (a < c.start_address + suc i * pgsize)

page_index_lem :
    (c : HugeChunk) (i a : ℕ) → IsPlaced c → i < 500 → InPage c i a → page_index c a ≡ i
unfolding page_index
page_index_lem c i a k small (lo, hi) =
    let page : a / pgsize ≡ c.start_address / pgsize + i = omega (arith, lo, hi, k.start) in
    omega (arith, page, k.start, k.below, small)

holds_lem : (c : HugeChunk) (i a : ℕ) → IsPlaced c → i < 500 → InPage c i a → holds c a ≡ true
unfolding holds
holds_lem c i a k small (lo, hi) =
    let end : (c.start_address + hugepgsize) % 2 ^ 64 ≡ c.start_address + hugepgsize =
      omega (arith, k.below) in
    ground (arith, end, lo, hi, small)

-- No chunk of a list holds the address.
pub data NoneHolds (a : ℕ) : List HugeChunk → Type 0 where
  none_left : NoneHolds a []
  not_here :
      {c : HugeChunk} {cs : List HugeChunk}
      → holds c a ≡ false
      → NoneHolds a cs
      → NoneHolds a (c ∷ cs)

release-past :
    (a : ℕ) (before cs ds : List HugeChunk)
    → NoneHolds a before
    → release_chunks cs a ≡ changed ds
    → release_chunks (before ++ cs) a ≡ changed (before ++ ds)
unfolding release_chunks release_past
release-past a [] cs ds none_left e = e
release-past a (c ∷ before) cs ds (not_here miss rest) e =
    rw (miss, release_chunks, release-past a before cs ds rest e) refl

release-here :
    (a : ℕ) (c : HugeChunk) (cs : List HugeChunk)
    → holds c a ≡ true
    → (release_page c (page_index c a)).use_count ≢ 0
    → release_chunks (c ∷ cs) a ≡ changed (release_page c (page_index c a) ∷ cs)
unfolding release_chunks release_here
release-here a c cs here some_left =
    rw (here, release_chunks, ==_ne (release_page c (page_index c a)).use_count 0 some_left) refl

-- Chunks that are in use, each of which lies in memory.
pub data AreUsed : List HugeChunk → Type 0 where
  none_used : AreUsed []
  one_used :
      {c : HugeChunk} {cs : List HugeChunk}
      → IsPlaced c
      → c.use_count ≢ 0
      → c.use_count < 2 ^ 32
      → AreUsed cs
      → AreUsed (c ∷ cs)

-- An address in one chunk is in no chunk before it.
abbrev pub AreApart : List HugeChunk → Type 0
AreApart cs =
    (before : List HugeChunk) (c : HugeChunk) (after : List HugeChunk) (a : ℕ)
    → cs ≡ before ++ c ∷ after
    → holds c a ≡ true
    → NoneHolds a before

used-at :
    (before : List HugeChunk) (c : HugeChunk) (after : List HugeChunk)
    → AreUsed (before ++ c ∷ after)
    → IsPlaced c × (c.use_count ≢ 0) × (c.use_count < 2 ^ 32)
used-at [] c after (one_used p n lt rest) = (p, n, lt)
used-at (b ∷ before) c after (one_used p n lt rest) = used-at before c after rest

-- The same chunk as far as a search sees it.
abbrev pub SameChunk : HugeChunk → HugeChunk → Type 0
SameChunk c d =
    (d.start_address ≡ c.start_address)
    × (d.use_count ≡ c.use_count)
    × ((j : ℕ) → page_in_use d j ≡ page_in_use c j)

pub data SameChunks : List HugeChunk → List HugeChunk → Type 0 where
  same_end : SameChunks [] []
  same_more :
      {c d : HugeChunk} {cs ds : List HugeChunk}
      → SameChunk c d
      → SameChunks cs ds
      → SameChunks (c ∷ cs) (d ∷ ds)

same_refl : (cs : List HugeChunk) → SameChunks cs cs
same_refl [] = same_end
same_refl (c ∷ cs) = same_more (refl, refl, λ j. refl) (same_refl cs)

same-at :
    (before : List HugeChunk) (c d : HugeChunk) (after : List HugeChunk)
    → SameChunk c d
    → SameChunks (before ++ c ∷ after) (before ++ d ∷ after)
same-at [] c d after e = same_more e (same_refl after)
same-at (b ∷ before) c d after e = same_more (refl, refl, λ j. refl) (same-at before c d after e)

take-IsPlaced : (c : HugeChunk) (i : ℕ) → IsPlaced c → IsPlaced (take_page c i)
unfolding take_page
take-IsPlaced c i k = record {
  chunk = record {
    words =
        length-set c.frame_bitmap (i / 4) (bit_or (get_or c.frame_bitmap (i / 4) 0) (2 ^ (i % 4)))
        ∙ k.chunk.words;
    inside = k.chunk.inside;
  };
  start = k.start;
  below = k.below;
}

-- Marking a bit that was clear and clearing it again.
mark-clear : (b e : Bool) → (e ≡ true → b ≡ false) → ((b || e) && not e) ≡ b
mark-clear true true clear = sym (clear refl)
mark-clear false true clear = refl
mark-clear true false clear = refl
mark-clear false false clear = refl

release-take :
    (c : HugeChunk) (i : ℕ)
    → IsPlaced c
    → i < 500
    → c.use_count < 2 ^ 32
    → page_in_use c i ≡ false
    → SameChunk c (release_page (take_page c i) i)
unfolding take_page release_page
release-take c i k small few free = (
  refl,
  omega (arith, few),
  λ j.
      page_in_use-release_page (take_page c i) i j (take-IsPlaced c i k).chunk small
      ∙ ap (λ b. b && not (i == j)) (page_in_use-take_page c i j k.chunk small)
      ∙ mark-clear (page_in_use c j) (i == j)
          (λ e. ap (λ n. page_in_use c n) (sym ((==_iff i j).0 e)) ∙ free),
)

-- What check_available_chunked_frame gives and what try_free_chunked_frame makes of it.
abbrev pub Returned : SmallPageManager → ℕ → Type 0
Returned s d =
    (s1 s2 : SmallPageManager) × (a : ℕ) × (check_available_chunked_frame s ≡ (s1, a))
    × (try_free_chunked_frame s1 (a + d) ≡ (s2, true))
    × SameChunks s.chunks s2.chunks

check-found :
    (s : SmallPageManager) (r : List HugeChunk × ℕ)
    → s.entry_count ≢ 0
    → search_chunks s.chunks ≡ some r
    → check_available_chunked_frame s ≡ (record s { chunks = r.0 }, r.1)
unfolding check_available_chunked_frame
check-found s r some_entry e = rw (==_ne s.entry_count 0 some_entry, e) refl

check-exhausted :
    (s : SmallPageManager)
    → s.entry_count ≢ 0
    → search_chunks s.chunks ≡ none
    → check_available_chunked_frame s ≡ (s, uint64_max)
unfolding check_available_chunked_frame
check-exhausted s some_entry e = rw (==_ne s.entry_count 0 some_entry, e) refl

free-changed :
    (s : SmallPageManager) (a : ℕ) (cs : List HugeChunk)
    → s.entry_count ≢ 0
    → release_chunks s.chunks a ≡ changed cs
    → try_free_chunked_frame s a ≡ (record s { chunks = cs }, true)
unfolding try_free_chunked_frame
free-changed s a cs some_entry e = rw (==_ne s.entry_count 0 some_entry, e) refl

-- The release of an address in the page that has just been taken.
release-served :
    (before : List HugeChunk) (c : HugeChunk) (after : List HugeChunk) (i a : ℕ)
    → IsPlaced c
    → c.use_count ≢ 0
    → c.use_count < 2 ^ 32
    → i < 500
    → page_in_use c i ≡ false
    → InPage c i a
    → NoneHolds a before
    → (d : HugeChunk) × (release_chunks (before ++ take_page c i ∷ after) a
        ≡ changed (before ++ d ∷ after))
      × SameChunk c d
unfolding take_page
release-served before c after i a k used few small free page apart =
    let t = take_page c i in
    let same = release-take c i k small few free in
    let at : page_index t a ≡ i = page_index_lem t i a (take-IsPlaced c i k) small page in
    let here : holds t a ≡ true = holds_lem t i a (take-IsPlaced c i k) small page in
    let left : (release_page t (page_index t a)).use_count ≢ 0 =
      λ z. used (sym same.1 ∙ ap (λ n. (release_page t n).use_count) (sym at) ∙ z) in
    (
      release_page t i,
      release-past a before (t ∷ after) (release_page t i ∷ after) apart
          (release-here a t after here left ∙ ap (λ n. changed (release_page t n ∷ after)) at),
      same,
    )

-- On chunks that are in use and do not overlap, check_available_chunked_frame finds nothing, or gives an
-- address such that try_free_chunked_frame of it, or of any other address in the 4096 bytes from there,
-- returns true and leaves the chunks as they were, with the same counts and the same pages in use.
pub try_free-check :
    (s : SmallPageManager) (d : ℕ)
    → s.entry_count ≢ 0
    → AreChunks s.chunks
    → AreUsed s.chunks
    → AreApart s.chunks
    → d < pgsize
    → (check_available_chunked_frame s ≡ (s, uint64_max)) ⊎ Returned s d
try_free-check s d some_entry k used apart lt =
    go (search_chunks s.chunks) (search_chunks_lem s.chunks k) refl
  where
    go :
        (r : Option (List HugeChunk × ℕ))
        → Served s.chunks r
        → search_chunks s.chunks ≡ r
        → (check_available_chunked_frame s ≡ (s, uint64_max)) ⊎ Returned s d
    go none (exhausted full) e = inl (check-exhausted s some_entry e)
    go (some r) (served before c after i split small free marks) e =
        let a = c.start_address + i * pgsize in
        let u = used-at before c after (rw split at used) in
        let page : InPage c i (a + d) = (omega arith, omega (arith, lt)) in
        let none_before =
          apart before c after (a + d) split (holds_lem c i (a + d) u.0 small page) in
        let f = release-served before c after i (a + d) u.0 u.1 u.2 small free page none_before in
        let s1 : SmallPageManager = record s { chunks = before ++ take_page c i ∷ after } in
        inr (
          s1,
          record s { chunks = before ++ f.0 ∷ after },
          a,
          check-found s (before ++ take_page c i ∷ after, a) some_entry e,
          free-changed s1 (a + d) (before ++ f.0 ∷ after) some_entry f.1,
          rw split (same-at before c f.0 after f.2),
        )
