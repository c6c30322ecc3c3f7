-- ===== src/UserHeap/FirstFit.antt =====
-- The search of SYSHANDLER_sbrk in src/kernel/arch/x86_64/syscalls.c takes the first run of free pages.
use swag_os.Base.{
  ℕ, zero, suc, ◌+◌, ◌-◌, ◌*◌, ◌/◌, ◌%◌, ◌<◌, ◌≤◌, ◌≡◌, ◌≢◌, refl, ap, ap₂, ◌∙◌, ◌⊎◌, inl, inr,
  Bool, true, false, not, ◌==◌, if◌then◌else◌, Bool-cases, ==_ne, ==_iff, arith,
}
use mathlib.Core.Path.{subst}
use swag_os.Base.Bits.{test_bit}
use swag_os.UserHeap.{Bitmap, Search, nothing_found, count_bit, search_word, search_heap}

-- Page `p` of the heap is free.
abbrev pub is_free_page : Bitmap → ℕ → Bool
is_free_page m p = not (test_bit (m (p / 64)) (p % 64))

-- One of the `n` pages from `r` on is in use.
abbrev pub Broken : Bitmap → ℕ → ℕ → Type 0
Broken m n r = (q : ℕ) × (r ≤ q) × (q < r + n) × (is_free_page m q ≡ false)

-- The search before page `p`, with a run that is too short so far.
pub record Going (m : Bitmap) (pages p : ℕ) (s : Search) : Type 0 where
  pub short : s.curr_count < pages
  pub within : s.curr_count ≤ p
  pub run : (q : ℕ) → p ≤ q + s.curr_count → q < p → is_free_page m q ≡ true
  pub starts : (s.curr_count ≡ p) ⊎ (is_free_page m (p - s.curr_count - 1) ≡ false)
  pub earlier : (r : ℕ) → r + pages ≤ p → Broken m pages r
  pub place : 0 < s.curr_count → 64 * s.i_start + s.bit_start + s.curr_count ≡ p
  pub in_word : s.bit_start < 64

-- The search that ends with page `p`: the last of a run of free pages, the first that is long enough.
pub record Found (m : Bitmap) (pages p : ℕ) (s : Search) : Type 0 where
  pub counted : s.curr_count ≡ pages
  pub run : (q : ℕ) → 64 * s.i_start + s.bit_start ≤ q → q ≤ p → is_free_page m q ≡ true
  pub earlier : (r : ℕ) → r + pages ≤ p → Broken m pages r
  pub place : 64 * s.i_start + s.bit_start + pages ≡ suc p
  pub in_word : s.bit_start < 64
  pub end_place : 64 * s.end_i + s.end_bit ≡ p
  pub end_in_word : s.end_bit < 64

-- A step over a free page, with a run before it or without.
count-goes :
    (m : Bitmap) (i bit : ℕ) (s : Search)
    → test_bit (m i) bit ≡ false
    → s.curr_count ≢ 0
    → count_bit m i bit s ≡ record s { curr_count = suc s.curr_count }
unfolding count_bit
count-goes m i bit s free ne = rw (free, ==_ne s.curr_count 0 ne) refl

count-starts :
    (m : Bitmap) (i bit : ℕ) (s : Search)
    → test_bit (m i) bit ≡ false
    → s.curr_count ≡ 0
    → count_bit m i bit s ≡ record s { i_start = i; bit_start = bit; curr_count = 1 }
unfolding count_bit
count-starts m i bit s free z = rw (free, ap (λ x. x == 0) z) refl

count-breaks :
    (m : Bitmap) (i bit : ℕ) (s : Search)
    → test_bit (m i) bit ≡ true
    → count_bit m i bit s ≡ record s { curr_count = 0 }
unfolding count_bit
count-breaks m i bit s used = rw used refl

-- The run with page `p` counted, whether it is long enough or not.
record Counted (m : Bitmap) (pages p : ℕ) (s : Search) : Type 0 where
  count : s.curr_count ≤ pages
  within : s.curr_count ≤ suc p
  run : (q : ℕ) → p < q + s.curr_count → q ≤ p → is_free_page m q ≡ true
  starts : (s.curr_count ≡ suc p) ⊎ (is_free_page m (p - s.curr_count) ≡ false)
  earlier : (r : ℕ) → r + pages ≤ p → Broken m pages r
  place : 0 < s.curr_count → 64 * s.i_start + s.bit_start + s.curr_count ≡ suc p
  in_word : s.bit_start < 64

moved : (m : Bitmap) (a b : ℕ) {t : Bool} → a ≡ b → is_free_page m b ≡ t → is_free_page m a ≡ t
moved m a b e u = ap (is_free_page m) e ∙ u

page-bit :
    (m : Bitmap) (i bit : ℕ) → bit < 64 → is_free_page m (64 * i + bit) ≡ not (test_bit (m i) bit)
page-bit m i bit lt =
    let word : (64 * i + bit) / 64 ≡ i = omega (arith, lt) in
    let place : (64 * i + bit) % 64 ≡ bit = omega (arith, lt) in
    ap₂ (λ w b. not (test_bit (m w) b)) word place

start-Counted :
    (m : Bitmap) (pages i bit : ℕ) (s : Search)
    → bit < 64
    → Going m pages (64 * i + bit) s
    → is_free_page m (64 * i + bit) ≡ true
    → s.curr_count ≡ 0
    → Counted m pages (64 * i + bit) (record s { i_start = i; bit_start = bit; curr_count = 1 })
start-Counted m pages i bit s lt g free z =
    let p = 64 * i + bit in
    record {
      count = omega (arith, g.short);
      within = omega arith;
      run = λ q lo hi. moved m q p (omega (arith, lo, hi)) free;
      starts = elim g.starts [
        | inl e ↦ inl (omega (arith, e, z))
        | inr used ↦ inr (moved m (p - 1) (p - s.curr_count - 1) (omega (arith, z)) used)
      ];
      earlier = g.earlier;
      place = λ pos. omega arith;
      in_word = lt;
    }

goes-Counted :
    (m : Bitmap) (pages p : ℕ) (s : Search)
    → Going m pages p s
    → is_free_page m p ≡ true
    → s.curr_count ≢ 0
    → Counted m pages p (record s { curr_count = suc s.curr_count })
goes-Counted m pages p s g free ne = record {
  count = g.short;
  within = omega (arith, g.within);
  run = λ q lo hi. elim (Bool-cases (q == p)) [
    | inl e ↦ ap (is_free_page m) ((==_iff q p).0 e) ∙ free
    | inr e ↦ g.run q (omega (arith, lo)) (ground (arith, hi, e))
  ];
  starts = elim g.starts [
    | inl e ↦ inl (omega (arith, e))
    | inr used ↦ inr (moved m (p - suc s.curr_count) (p - s.curr_count - 1) (omega arith) used)
  ];
  earlier = g.earlier;
  place = λ pos. omega (arith, g.place (omega (arith, ne)));
  in_word = g.in_word;
}

broken_on :
    (m : Bitmap) (pages p : ℕ) (s : Search)
    → Going m pages p s
    → is_free_page m p ≡ false
    → Going m pages (suc p) (record s { curr_count = 0 })
broken_on m pages p s g used = record {
  short = omega (arith, g.short);
  within = omega arith;
  run = λ q lo hi. absurd (omega (arith, lo, hi));
  starts = inr (moved m (suc p - 0 - 1) p (omega arith) used);
  earlier = λ r le. elim (Bool-cases (r + pages == suc p)) [
    | inl e ↦
        let last : r + pages ≡ suc p = (==_iff (r + pages) (suc p)).0 e in
        (p, omega (arith, last, g.short), omega (arith, last), used)
    | inr e ↦ g.earlier r (ground (arith, le, e))
  ];
  place = λ pos. absurd (omega (arith, pos));
  in_word = g.in_word;
}

-- A run that is still too short: a longer one that ends here would hold the page before the run.
too_short :
    (m : Bitmap) (pages p : ℕ) (s : Search)
    → Counted m pages p s
    → s.curr_count ≢ pages
    → Going m pages (suc p) s
too_short m pages p s c ne = record {
  short = omega (arith, c.count, ne);
  within = c.within;
  run = λ q lo hi. c.run q (omega (arith, lo)) (omega (arith, hi));
  starts = elim c.starts [
    | inl e ↦ inl e
    | inr used ↦ inr (moved m (suc p - s.curr_count - 1) (p - s.curr_count) (omega arith) used)
  ];
  earlier = λ r le. elim (Bool-cases (r + pages == suc p)) [
    | inl e ↦
        let last : r + pages ≡ suc p = (==_iff (r + pages) (suc p)).0 e in
        elim c.starts [
          | inl all ↦ absurd (omega (arith, all, last, c.count, ne))
          | inr used ↦ (
            p - s.curr_count,
            omega (arith, last, c.count, ne),
            omega (arith, last, c.count, ne),
            used,
          )
        ]
    | inr e ↦ c.earlier r (ground (arith, le, e))
  ];
  place = c.place;
  in_word = c.in_word;
}

long_enough :
    (m : Bitmap) (pages i bit : ℕ) (s : Search)
    → 0 < pages
    → bit < 64
    → Counted m pages (64 * i + bit) s
    → s.curr_count ≡ pages
    → Found m pages (64 * i + bit) (record s { end_bit = bit; end_i = i })
long_enough m pages i bit s pos lt c full =
    let place = c.place (omega (arith, pos, full)) in
    record {
      counted = full;
      run = λ q lo hi. c.run q (omega (arith, lo, place)) hi;
      earlier = c.earlier;
      place = omega (arith, place, full);
      in_word = c.in_word;
      end_place = refl;
      end_in_word = lt;
    }

count_lem :
    (m : Bitmap) (pages i bit : ℕ) (s : Search)
    → bit < 64
    → Going m pages (64 * i + bit) s
    → Counted m pages (64 * i + bit) (count_bit m i bit s)
      ⊎ (((count_bit m i bit s).curr_count ≡ 0)
          × Going m pages (suc (64 * i + bit)) (count_bit m i bit s))
count_lem m pages i bit s lt g = elim (Bool-cases (test_bit (m i) bit)) [
  | inl used ↦
      let same = count-breaks m i bit s used in
      inr (
        ap (λ x. x.curr_count) same,
        rw same (broken_on m pages (64 * i + bit) s g (page-bit m i bit lt ∙ ap not used)),
      )
  | inr free ↦
      let here = page-bit m i bit lt ∙ ap not free in
      inl (elim (Bool-cases (s.curr_count == 0)) [
        | inl z ↦
            let zero_count : s.curr_count ≡ 0 = (==_iff s.curr_count 0).0 z in
            rw (count-starts m i bit s free zero_count)
              (start-Counted m pages i bit s lt g here zero_count)
        | inr z ↦
            let ne : s.curr_count ≢ 0 = λ y. ground (arith, y, z) in
            rw (count-goes m i bit s free ne) (goes-Counted m pages (64 * i + bit) s g here ne)
      ])
]

word-stops :
    (m : Bitmap) (pages i n bit : ℕ) (s : Search)
    → (count_bit m i bit s).curr_count ≡ pages
    → search_word m pages i (suc n) bit s
      ≡ record (count_bit m i bit s) { end_bit = bit; end_i = i }
unfolding search_word
word-stops m pages i n bit s full = rw ((==_iff (count_bit m i bit s).curr_count pages).1 full) refl

word-goes :
    (m : Bitmap) (pages i n bit : ℕ) (s : Search)
    → (count_bit m i bit s).curr_count ≢ pages
    → search_word m pages i (suc n) bit s ≡ search_word m pages i n (suc bit) (count_bit m i bit s)
unfolding search_word
word-goes m pages i n bit s short = rw (==_ne (count_bit m i bit s).curr_count pages short) refl

word-none : (m : Bitmap) (pages i bit : ℕ) (s : Search) → search_word m pages i 0 bit s ≡ s
unfolding search_word
word-none m pages i bit s = refl

-- Where a search stands that has come to page `p`.
pub data Searched (m : Bitmap) (pages p : ℕ) (s : Search) : Type 0 where
  going : Going m pages p s → Searched m pages p s
  found : (q : ℕ) → q < p → Found m pages q s → Searched m pages p s

search_word_lem :
    (m : Bitmap) (pages i n bit : ℕ) (s : Search)
    → 0 < pages
    → bit + n ≤ 64
    → Going m pages (64 * i + bit) s
    → Searched m pages (64 * i + (bit + n)) (search_word m pages i n bit s)
search_word_lem m pages i zero bit s pos le g =
    rw (word-none m pages i bit s) (going (subst (λ p. Going m pages p s) (omega arith) g))
search_word_lem m pages i (suc n) bit s pos le g =
    let s1 = count_bit m i bit s in
    let lt : bit < 64 = omega (arith, le) in
    let next : 64 * i + (suc bit + n) ≡ 64 * i + (bit + suc n) = omega arith in
    let go : s1.curr_count ≢ pages
        → Going m pages (suc (64 * i + bit)) s1
        → Searched m pages (64 * i + (bit + suc n)) (search_word m pages i (suc n) bit s) =
      λ short g1. rw (word-goes m pages i n bit s short) (
        subst (λ p. Searched m pages p (search_word m pages i n (suc bit) s1)) next
          (search_word_lem m pages i n (suc bit) s1 pos (omega (arith, le))
            (subst (λ p. Going m pages p s1) (omega arith) g1))) in
    elim (count_lem m pages i bit s lt g) [
      | inr (z, g1) ↦ go (λ e. omega (arith, e, z, pos)) g1
      | inl c ↦ elim (Bool-cases (s1.curr_count == pages)) [
        | inl full ↦
            let all : s1.curr_count ≡ pages = (==_iff s1.curr_count pages).0 full in
            rw (word-stops m pages i n bit s all)
              (found (64 * i + bit) (omega arith) (long_enough m pages i bit s1 pos lt c all))
        | inr part ↦
            let short : s1.curr_count ≢ pages = λ y. ground (arith, y, part) in
            go short (too_short m pages (64 * i + bit) s1 c short)
      ]
    ]

heap-none : (m : Bitmap) (pages i : ℕ) (s : Search) → search_heap m pages 0 i s ≡ s
unfolding search_heap
heap-none m pages i s = refl

heap-stops :
    (m : Bitmap) (pages n i : ℕ) (s : Search)
    → (search_word m pages i 64 0 s).curr_count ≡ pages
    → search_heap m pages (suc n) i s ≡ search_word m pages i 64 0 s
unfolding search_heap
heap-stops m pages n i s full =
    ap
      (λ b.
        if b
        then search_word m pages i 64 0 s
        else search_heap m pages n (suc i) (search_word m pages i 64 0 s))
      ((==_iff (search_word m pages i 64 0 s).curr_count pages).1 full)

heap-goes :
    (m : Bitmap) (pages n i : ℕ) (s : Search)
    → (search_word m pages i 64 0 s).curr_count ≢ pages
    → search_heap m pages (suc n) i s ≡ search_heap m pages n (suc i) (search_word m pages i 64 0 s)
unfolding search_heap
heap-goes m pages n i s short =
    ap
      (λ b.
        if b
        then search_word m pages i 64 0 s
        else search_heap m pages n (suc i) (search_word m pages i 64 0 s))
      (==_ne (search_word m pages i 64 0 s).curr_count pages short)

search_heap-Searched :
    (m : Bitmap) (pages n i : ℕ) (s : Search)
    → 0 < pages
    → Going m pages (64 * i) s
    → Searched m pages (64 * (i + n)) (search_heap m pages n i s)
search_heap-Searched m pages zero i s pos g =
    rw (heap-none m pages i s) (going (subst (λ p. Going m pages p s) (omega arith) g))
search_heap-Searched m pages (suc n) i s pos g =
    let s1 = search_word m pages i 64 0 s in
    let start : 64 * i ≡ 64 * i + 0 = omega arith in
    elim (search_word_lem m pages i 64 0 s pos (omega arith)
      (subst (λ p. Going m pages p s) start g)) [
        | going g1 ↦ rw (heap-goes m pages n i s (λ e. omega (arith, e, g1.short))) (
            subst (λ p. Searched m pages p (search_heap m pages n (suc i) s1)) (omega arith)
              (search_heap-Searched m pages n (suc i) s1 pos
                (subst (λ p. Going m pages p s1) (omega arith) g1)))
        | found q lt f ↦ rw (heap-stops m pages n i s f.counted) (found q (omega (arith, lt)) f)
      ]

-- How the search of sbrk for a number of pages ends.
pub data FirstFit (m : Bitmap) (pages : ℕ) (s : Search) : Type 0 where
  no_room :
      s.curr_count < pages → ((r : ℕ) → r + pages ≤ 32768 → Broken m pages r) → FirstFit m pages s
  room :
      (p : ℕ)
      → p + pages ≤ 32768
      → s.curr_count ≡ pages
      → 64 * s.i_start + s.bit_start ≡ p
      → 64 * s.end_i + s.end_bit + 1 ≡ p + pages
      → (s.bit_start < 64) × (s.end_bit < 64)
      → ((q : ℕ) → p ≤ q → q < p + pages → is_free_page m q ≡ true)
      → ((r : ℕ) → r < p → Broken m pages r)
      → FirstFit m pages s

-- The search of sbrk over the 32768 pages of the heap takes the first run of that many free pages, and
-- ends with its first and its last page; where it ends with a smaller count, no such run exists.
pub search_heap_lem :
    (m : Bitmap) (pages : ℕ)
    → 0 < pages
    → FirstFit m pages (search_heap m pages 512 0 nothing_found)
search_heap_lem m pages pos =
    let start : Going m pages (64 * 0) nothing_found = record {
      short = pos;
      within = omega arith;
      run = λ q lo hi. absurd (omega (arith, hi));
      starts = inl refl;
      earlier = λ r le. absurd (omega (arith, le, pos));
      place = λ z. absurd (omega (arith, z));
      in_word = omega arith;
    } in
    elim (search_heap-Searched m pages 512 0 nothing_found pos start) [
      | going g ↦ no_room g.short g.earlier
      | found q lt f ↦
          room
            (64 * (search_heap m pages 512 0 nothing_found).i_start
              + (search_heap m pages 512 0 nothing_found).bit_start)
            (omega (arith, f.place, lt)) f.counted refl (omega (arith, f.place, f.end_place))
            (f.in_word, f.end_in_word) (λ x lo hi. f.run x lo (omega (arith, hi, f.place)))
            (λ r lt0. f.earlier r (omega (arith, lt0, f.place)))
    ]
