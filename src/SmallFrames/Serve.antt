-- ===== src/SmallFrames/Serve.antt =====
-- check_available_chunked_frame of src/kernel/mem/pmm.c hands out a page that was free, and marks it alone.
use swag_os.Base.{
  ℕ, zero, suc, ◌+◌, ◌*◌, ◌/◌, ◌%◌, ◌^◌, ◌<◌, ◌≤◌, ◌≡◌, ◌≢◌, refl, sym, ap, ap₂, ◌∙◌, ◌⊎◌, inl, inr,
  bit_or, Bool, true, false, ◌||◌, List, [], ◌∷◌, ◌++◌, Option, none, some, ◌==◌, ltb, get_or, set,
  length, get_or-set_self, get_or-set_ne, Bool-cases, ==_ne, arith,
}
use swag_os.Base.Bits.{test_bit, test_bit-bit_or, test_bit-pow}
use swag_os.Pmm.{pgsize, hugepgsize}
use swag_os.SmallFrames.{
  HugeChunk, page_in_use, small_frame, take_page, free_page, page_of, past_chunk, search_chunks,
}

-- A chunk as it is created: its bitmap has 125 words, and it is a frame of 2 MB.
pub record IsChunk (c : HugeChunk) : Type 0 where
  pub words : length c.frame_bitmap ≡ 125
  pub inside : c.start_address + hugepgsize ≤ 2 ^ 64

pub data AreChunks : List HugeChunk → Type 0 where
  no_chunk : AreChunks []
  one_more : {c : HugeChunk} {cs : List HugeChunk} → IsChunk c → AreChunks cs → AreChunks (c ∷ cs)

or_false : (b : Bool) → (b || false) ≡ b
or_false true = refl
or_false false = refl

-- Marking a page marks no other page of the chunk.
pub page_in_use-take_page :
    (c : HugeChunk) (i j : ℕ)
    → IsChunk c
    → i < 500
    → page_in_use (take_page c i) j ≡ (page_in_use c j || i == j)
unfolding page_in_use take_page
page_in_use-take_page c i j k small = elim (Bool-cases (i / 4 == j / 4)) [
  | inl e ↦
      let word : i / 4 ≡ j / 4 = ground (arith, e) in
      let place : (i % 4 == j % 4) ≡ (i == j) = ground (arith, word) in
      let w = get_or c.frame_bitmap (i / 4) 0 in
      ap (λ q. test_bit (get_or (set c.frame_bitmap (i / 4) (bit_or w (2 ^ (i % 4)))) q 0) (j % 4))
        (sym word)
      ∙ ap (λ v. test_bit v (j % 4))
          (get_or-set_self c.frame_bitmap (i / 4) (bit_or w (2 ^ (i % 4))) 0
            (omega (arith, k.words)))
      ∙ test_bit-bit_or (j % 4) w (2 ^ (i % 4))
      ∙ ap₂ (λ a b. a || b) (ap (λ q. test_bit (get_or c.frame_bitmap q 0) (j % 4)) word)
          (test_bit-pow (j % 4) (i % 4) ∙ place)
  | inr e ↦
      let apart : i / 4 ≢ j / 4 = ground (arith, e) in
      let other : (i == j) ≡ false = ==_ne i j (λ z. apart (ap (λ x. x / 4) z)) in
      ap (λ v. test_bit v (j % 4))
        (get_or-set_ne c.frame_bitmap (i / 4) (j / 4)
          (bit_or (get_or c.frame_bitmap (i / 4) 0) (2 ^ (i % 4))) 0 apart)
      ∙ sym (or_false (page_in_use c j))
      ∙ ap (λ b. page_in_use c j || b) (sym other)
]

-- A chunk that serves no page: its count says so, or every page is taken.
abbrev pub Full : HugeChunk → Type 0
Full c = (500 ≤ c.use_count) ⊎ ((j : ℕ) → j < 500 → page_in_use c j ≡ true)

pub data AreFull : List HugeChunk → Type 0 where
  nothing_left : AreFull []
  also_full : {c : HugeChunk} {cs : List HugeChunk} → Full c → AreFull cs → AreFull (c ∷ cs)

free_page-cases :
    (n i : ℕ) (c : HugeChunk)
    → ((k : ℕ) × (free_page n i c ≡ some k) × (k < i + n) × (page_in_use c k ≡ false))
      ⊎ ((free_page n i c ≡ none) × ((j : ℕ) → i ≤ j → j < i + n → page_in_use c j ≡ true))
unfolding free_page
free_page-cases zero i c = inr (refl, λ j lo hi. absurd (omega arith))
free_page-cases (suc n) i c = elim (Bool-cases (page_in_use c i)) [
  | inr e ↦ inl (i, rw (e, free_page) refl, omega arith, e)
  | inl e ↦ elim (free_page-cases n (suc i) c) [
    | inl (k, found, below, free) ↦ inl (k, rw (e, free_page) found, omega (arith, below), free)
    | inr (nothing, all) ↦ inr (
      rw (e, free_page) nothing,
      λ j lo hi. elim (Bool-cases (i == j)) [
        | inl same ↦ let eq : j ≡ i = ground (arith, same) in ap (λ x. page_in_use c x) eq ∙ e
        | inr ne ↦ all j (ground (arith, ne)) (omega arith)
      ],
    )
  ]
]

page_of-cases :
    (c : HugeChunk)
    → ((k : ℕ) × (page_of c ≡ some k) × (k < 500) × (page_in_use c k ≡ false))
      ⊎ ((page_of c ≡ none) × Full c)
unfolding page_of
page_of-cases c = elim (Bool-cases (ltb c.use_count 500)) [
  | inr e ↦ inr (rw e refl, inl (ground (arith, e)))
  | inl e ↦ elim (free_page-cases 500 0 c) [
    | inl (k, found, below, free) ↦ inl (k, rw e found, omega (arith, below), free)
    | inr (nothing, all) ↦ inr (rw e nothing, inr (λ j h. all j (omega arith) (omega arith)))
  ]
]

-- The frame of a page, for a chunk that does not wrap.
small_frame_lem :
    (c : HugeChunk) (i : ℕ) → IsChunk c → i < 500 → small_frame c i ≡ c.start_address + i * pgsize
unfolding small_frame
small_frame_lem c i k small =
    let sum : i % 4 * pgsize + i / 4 * 4 * pgsize ≡ i * pgsize = omega arith in
    omega (arith, sum, k.inside)

-- How a search of the chunks ends: all are full, or page `i` of a chunk `c` was free, which is now taken,
-- and no other page of any chunk has changed.
pub data Served (cs : List HugeChunk) : Option (List HugeChunk × ℕ) → Type 0 where
  exhausted : AreFull cs → Served cs none
  served :
      (before : List HugeChunk) (c : HugeChunk) (after : List HugeChunk) (i : ℕ)
      → cs ≡ before ++ c ∷ after
      → i < 500
      → page_in_use c i ≡ false
      → ((j : ℕ) → page_in_use (take_page c i) j ≡ (page_in_use c j || i == j))
      → Served cs (some (before ++ take_page c i ∷ after, c.start_address + i * pgsize))

search-here :
    (c : HugeChunk) (cs : List HugeChunk) (i : ℕ)
    → page_of c ≡ some i
    → search_chunks (c ∷ cs) ≡ some (take_page c i ∷ cs, small_frame c i)
unfolding search_chunks
search-here c cs i e = rw (e, search_chunks) refl

search-past :
    (c : HugeChunk) (cs : List HugeChunk)
    → page_of c ≡ none
    → search_chunks (c ∷ cs) ≡ past_chunk c (search_chunks cs)
unfolding search_chunks
search-past c cs e = rw (e, search_chunks) refl

Served-past :
    (c : HugeChunk) (cs : List HugeChunk) (r : Option (List HugeChunk × ℕ))
    → Full c
    → Served cs r
    → Served (c ∷ cs) (past_chunk c r)
unfolding past_chunk
Served-past c cs none f (exhausted fs) = exhausted (also_full f fs)
Served-past c cs (some r) f (served before d after i split small free marks) =
    served (c ∷ before) d after i (ap (λ xs. c ∷ xs) split) small free marks

-- The search for a 4 KB frame over chunks that lie in memory finds nothing only where each chunk has a
-- count of 500 or more or no free page; otherwise it gives the frame of
-- a page that was free, marks that page and no other, and keeps all
-- other chunks.
pub search_chunks_lem : (cs : List HugeChunk) → AreChunks cs → Served cs (search_chunks cs)
unfolding search_chunks
search_chunks_lem [] no_chunk = exhausted nothing_left
search_chunks_lem (c ∷ cs) (one_more k ks) = elim (page_of-cases c) [
  | inl (i, found, small, free) ↦
      rw (search-here c cs i found, small_frame_lem c i k small)
        (served [] c cs i refl small free (λ j. page_in_use-take_page c i j k small))
  | inr (nothing, f) ↦
      rw (search-past c cs nothing)
        (Served-past c cs (search_chunks cs) f (search_chunks_lem cs ks))
]
