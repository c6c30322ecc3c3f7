-- ===== src/BufferCache/Unique.antt =====
-- Two users of one disk block share one buffer of src/kernel/fs/buffered_io.c.
use swag_os.Base.{
  ℕ, zero, suc, ◌+◌, ◌-◌, ◌%◌, ◌^◌, ◌<◌, ◌≤◌, ◌≡◌, ◌≢◌, refl, sym, ap, ◌∙◌, ◌⊎◌, inl, inr, Bool,
  true, false, none, some, ◌==◌, Bool-cases, ==_self, ==_ne, arith,
}
use swag_os.Base.Outcome.{Outcome, ok, panic}
use swag_os.BufferCache.{
  nbuf, IoBuf, Cache, put, caches, recyclable, find_buffer, claim, recycle, choose, brelse,
  holdingsleep, release_sleeplock,
}

-- Of two buffers for one block, the later one has no user.
pub record IsShared (c : Cache) : Type 0 where
  pub first_only :
      (i j : ℕ)
      → i < j
      → j < nbuf
      → (c i).dev ≡ (c j).dev
      → (c i).blockno ≡ (c j).blockno
      → (c j).refcnt ≡ 0

-- What a search finds passes the test, and nothing before it does.
pub record IsFirst (test : IoBuf → Bool) (i n : ℕ) (c : Cache) (k : ℕ) : Type 0 where
  pub from : i ≤ k
  pub below : k < i + n
  pub passes : test (c k) ≡ true
  pub before : (j : ℕ) → i ≤ j → j < k → test (c j) ≡ false

find-here :
    (test : IoBuf → Bool) (n i : ℕ) (c : Cache)
    → test (c i) ≡ true
    → find_buffer test (suc n) i c ≡ some i
unfolding find_buffer
find-here test n i c e = rw (e, find_buffer) refl

find-later :
    (test : IoBuf → Bool) (n i : ℕ) (c : Cache)
    → test (c i) ≡ false
    → find_buffer test (suc n) i c ≡ find_buffer test n (suc i) c
unfolding find_buffer
find-later test n i c e = rw (e, find_buffer) refl

-- Either a first buffer passes, or none does.
pub find-cases :
    (test : IoBuf → Bool) (n i : ℕ) (c : Cache)
    → ((k : ℕ) × (find_buffer test n i c ≡ some k) × IsFirst test i n c k)
      ⊎ ((find_buffer test n i c ≡ none) × ((j : ℕ) → i ≤ j → j < i + n → test (c j) ≡ false))
unfolding find_buffer
find-cases test zero i c = inr (refl, λ j lo hi. absurd (omega arith))
find-cases test (suc n) i c = elim (Bool-cases (test (c i))) [
  | inl e ↦ inl (
    i,
    find-here test n i c e,
    record {
      from = omega arith;
      below = omega arith;
      passes = e;
      before = λ j lo hi. absurd (omega arith);
    },
  )
  | inr e ↦ elim (find-cases test n (suc i) c) [
    | inl (k, found, first) ↦ inl (
      k,
      find-later test n i c e ∙ found,
      record {
        from = omega (arith, first.from);
        below = omega (arith, first.below);
        passes = first.passes;
        before = λ j lo hi. elim (Bool-cases (i == j)) [
          | inl same ↦ ap (λ x. test (c x)) (ground (arith, same)) ∙ e
          | inr ne ↦ first.before j (ground (arith, ne)) hi
        ];
      },
    )
    | inr (nothing, all) ↦ inr (
      find-later test n i c e ∙ nothing,
      λ j lo hi. elim (Bool-cases (i == j)) [
        | inl same ↦ ap (λ x. test (c x)) (ground (arith, same)) ∙ e
        | inr ne ↦ all j (ground (arith, ne)) (omega arith)
      ],
    )
  ]
]

pub put_self : (c : Cache) (i : ℕ) (b : IoBuf) → put c i b i ≡ b
put_self c i b = rw (==_self i) refl

pub put_ne : (c : Cache) (i : ℕ) (b : IoBuf) (j : ℕ) → j ≢ i → put c i b j ≡ c j
put_ne c i b j ne = rw (==_ne j i ne) refl

-- A buffer for a block that no other buffer before it is for, and whose later ones have no user.
pub put-IsShared :
    (c : Cache) (i : ℕ) (b : IoBuf)
    → IsShared c
    → ((j : ℕ) → j < i → j < nbuf → (c j).dev ≡ b.dev → (c j).blockno ≡ b.blockno → b.refcnt ≡ 0)
    → ((j : ℕ)
        → i < j
        → j < nbuf
        → b.dev ≡ (c j).dev
        → b.blockno ≡ (c j).blockno
        → (c j).refcnt ≡ 0)
    → IsShared (put c i b)
put-IsShared c i b x earlier later = record {
  first_only = λ k j lt small. elim (Bool-cases (k == i)) [
    | inl e ↦ λ d n.
        let same : k ≡ i = ground (arith, e) in
        let kept = put_ne c i b j (λ z. omega (arith, z, same)) in
        let here = ap (put c i b) same ∙ put_self c i b in
        ap (λ y. y.refcnt) kept
        ∙ later j (omega (arith, same)) small
            (ap (λ y. y.dev) (sym here) ∙ d ∙ ap (λ y. y.dev) kept)
            (ap (λ y. y.blockno) (sym here) ∙ n ∙ ap (λ y. y.blockno) kept)
    | inr e ↦ λ d n. elim (Bool-cases (j == i)) [
      | inl f ↦
          let same : j ≡ i = ground (arith, f) in
          let kept = put_ne c i b k (λ z. omega (arith, z, same)) in
          let here = ap (put c i b) same ∙ put_self c i b in
          ap (λ y. y.refcnt) here
          ∙ earlier k (omega (arith, same)) (omega arith)
              (ap (λ y. y.dev) (sym kept) ∙ d ∙ ap (λ y. y.dev) here)
              (ap (λ y. y.blockno) (sym kept) ∙ n ∙ ap (λ y. y.blockno) here)
      | inr f ↦
          let kept = put_ne c i b k (ground (arith, e)) in
          let kept' = put_ne c i b j (ground (arith, f)) in
          ap (λ y. y.refcnt) kept'
          ∙ x.first_only k j lt small (ap (λ y. y.dev) (sym kept) ∙ d ∙ ap (λ y. y.dev) kept')
              (ap (λ y. y.blockno) (sym kept) ∙ n ∙ ap (λ y. y.blockno) kept')
    ]
  ];
}

-- Buffer `i` is for the block, has a user, and is the only such buffer.
pub record Serves (c : Cache) (i dev blockno : ℕ) : Type 0 where
  pub in_cache : i < nbuf
  pub same_dev : (c i).dev ≡ dev
  pub same_block : (c i).blockno ≡ blockno
  pub used : (c i).refcnt ≢ 0
  pub alone :
      (j : ℕ) → j < nbuf → (c j).dev ≡ dev → (c j).blockno ≡ blockno → (c j).refcnt ≢ 0 → j ≡ i

-- No count of users is about to wrap.
pub record AreCounted (c : Cache) : Type 0 where
  pub room : (i : ℕ) → i < nbuf → (c i).refcnt + 1 < 2 ^ 32

IsShared-Serves :
    (c : Cache) (i dev blockno : ℕ)
    → IsShared c
    → i < nbuf
    → (c i).dev ≡ dev
    → (c i).blockno ≡ blockno
    → (c i).refcnt ≢ 0
    → Serves c i dev blockno
IsShared-Serves c i dev blockno x small d n used = record {
  in_cache = small;
  same_dev = d;
  same_block = n;
  used = used;
  alone = λ j below d' n' used'. elim (order j i) [
    | inl (inl lt) ↦ absurd (used (x.first_only j i lt small (d' ∙ sym d) (n' ∙ sym n)))
    | inl (inr e) ↦ e
    | inr gt ↦ absurd (used' (x.first_only i j gt below (d ∙ sym d') (n ∙ sym n')))
  ];
}
  where
    order : (a b : ℕ) → ((a < b) ⊎ (a ≡ b)) ⊎ (b < a)
    order a b = ground arith

pub caches-true :
    (b : IoBuf) (dev blockno : ℕ)
    → caches b dev blockno ≡ true
    → (b.dev ≡ dev) × (b.blockno ≡ blockno)
unfolding caches
caches-true b dev blockno e = (ground (arith, e), ground (arith, e))

caches-false :
    (b : IoBuf) (dev blockno : ℕ) → caches b dev blockno ≡ false → b.dev ≡ dev → b.blockno ≢ blockno
unfolding caches
caches-false b dev blockno e d n = ground (arith, e, d, n)

claim-IsShared :
    (c : Cache) (k dev blockno : ℕ)
    → IsShared c
    → IsFirst (λ b. caches b dev blockno) 0 nbuf c k
    → IsShared (put c k (claim (c k)))
unfolding claim
claim-IsShared c k dev blockno x f =
    let (d, n) = caches-true (c k) dev blockno f.passes in
    put-IsShared c k (claim (c k)) x
      (λ j lt small d' n'.
        absurd (caches-false (c j) dev blockno (f.before j (omega arith) lt) (d' ∙ d) (n' ∙ n)))
      (λ j lt small d' n'. x.first_only k j lt small d' n')

recycle-IsShared :
    (c : Cache) (k dev blockno : ℕ)
    → IsShared c
    → ((j : ℕ) → 0 ≤ j → j < 0 + nbuf → caches (c j) dev blockno ≡ false)
    → IsShared (put c k (recycle (c k) dev blockno))
unfolding recycle
recycle-IsShared c k dev blockno x fresh =
    put-IsShared c k (recycle (c k) dev blockno) x
      (λ j lt small d n.
        absurd (caches-false (c j) dev blockno (fresh j (omega arith) (omega arith)) d n))
      (λ j lt small d n.
        absurd
          (caches-false (c j) dev blockno (fresh j (omega arith) (omega arith)) (sym d) (sym n)))

-- The ways in which the search of bget ends.
pub data Chosen (c : Cache) (dev blockno : ℕ) : Outcome (Cache × ℕ) → Type 0 where
  no_buffers :
      ((j : ℕ) → 0 ≤ j → j < 0 + nbuf → caches (c j) dev blockno ≡ false)
      → ((j : ℕ) → 0 ≤ j → j < 0 + nbuf → recyclable (c j) ≡ false)
      → Chosen c dev blockno panic
  chosen :
      (c' : Cache) (i : ℕ)
      → (caches (c i) dev blockno ≡ true) ⊎ ((c i).refcnt ≡ 0)
      → ((j : ℕ) → j ≢ i → c' j ≡ c j)
      → IsShared c'
      → Serves c' i dev blockno
      → Chosen c dev blockno (ok (c', i))

recyclable-unused : (b : IoBuf) → recyclable b ≡ true → b.refcnt ≡ 0
unfolding recyclable
recyclable-unused b e = ground (arith, e)

pub choose-claims :
    (c : Cache) (dev blockno k : ℕ)
    → find_buffer (λ b. caches b dev blockno) nbuf 0 c ≡ some k
    → choose c dev blockno ≡ ok (put c k (claim (c k)), k)
unfolding choose
choose-claims c dev blockno k e = rw (e, choose) refl

pub choose-recycles :
    (c : Cache) (dev blockno k : ℕ)
    → find_buffer (λ b. caches b dev blockno) nbuf 0 c ≡ none
    → find_buffer recyclable nbuf 0 c ≡ some k
    → choose c dev blockno ≡ ok (put c k (recycle (c k) dev blockno), k)
unfolding choose
choose-recycles c dev blockno k e e' = rw (e, choose) (rw e' refl)

choose-panics :
    (c : Cache) (dev blockno : ℕ)
    → find_buffer (λ b. caches b dev blockno) nbuf 0 c ≡ none
    → find_buffer recyclable nbuf 0 c ≡ none
    → choose c dev blockno ≡ panic
unfolding choose
choose-panics c dev blockno e e' = rw (e, choose) (rw e' refl)

claim-dev : (b : IoBuf) → (claim b).dev ≡ b.dev
unfolding claim
claim-dev b = refl

claim-blockno : (b : IoBuf) → (claim b).blockno ≡ b.blockno
unfolding claim
claim-blockno b = refl

claim-used : (b : IoBuf) → b.refcnt + 1 < 2 ^ 32 → (claim b).refcnt ≢ 0
unfolding claim
claim-used b h z = omega (arith, z)

recycle-dev : (b : IoBuf) (d n : ℕ) → (recycle b d n).dev ≡ d
unfolding recycle
recycle-dev b d n = refl

recycle-blockno : (b : IoBuf) (d n : ℕ) → (recycle b d n).blockno ≡ n
unfolding recycle
recycle-blockno b d n = refl

recycle-used : (b : IoBuf) (d n : ℕ) → (recycle b d n).refcnt ≢ 0
unfolding recycle
recycle-used b d n z = omega (arith, z)

-- On a cache in which of two buffers for the same block the later one has no user, and in which no count
-- of users is about to wrap, the search of bget panics only where no buffer is for the block and every
-- buffer has a user or is dirty; otherwise it gives a buffer that was for the block or had no user, leaves the others, and on the new cache, which is of the same kind,
-- that buffer is the only one with users for the block.
pub choose_lem :
    (c : Cache) (dev blockno : ℕ)
    → IsShared c
    → AreCounted c
    → Chosen c dev blockno (choose c dev blockno)
choose_lem c dev blockno x counted = elim (find-cases (λ b. caches b dev blockno) nbuf 0 c) [
  | inl (k, found, f) ↦
      let (d, n) = caches-true (c k) dev blockno f.passes in
      let small : k < nbuf = omega (arith, f.below) in
      let x' = claim-IsShared c k dev blockno x f in
      let here = put_self c k (claim (c k)) in
      rw (choose-claims c dev blockno k found) (
        chosen (put c k (claim (c k))) k (inl f.passes) (put_ne c k (claim (c k))) x' (
          IsShared-Serves (put c k (claim (c k))) k dev blockno x' small
            (ap (λ b. b.dev) here ∙ claim-dev (c k) ∙ d)
            (ap (λ b. b.blockno) here ∙ claim-blockno (c k) ∙ n)
            (λ z. claim-used (c k) (counted.room k small) (sym (ap (λ b. b.refcnt) here) ∙ z))))
  | inr (nothing, fresh) ↦ elim (find-cases recyclable nbuf 0 c) [
    | inl (k, found, f) ↦
        let small : k < nbuf = omega (arith, f.below) in
        let x' = recycle-IsShared c k dev blockno x fresh in
        let here = put_self c k (recycle (c k) dev blockno) in
        rw (choose-recycles c dev blockno k nothing found) (
          chosen (put c k (recycle (c k) dev blockno)) k (inr (recyclable-unused (c k) f.passes))
            (put_ne c k (recycle (c k) dev blockno)) x'
            (IsShared-Serves (put c k (recycle (c k) dev blockno)) k dev blockno x' small
              (ap (λ b. b.dev) here ∙ recycle-dev (c k) dev blockno)
              (ap (λ b. b.blockno) here ∙ recycle-blockno (c k) dev blockno)
              (λ z. recycle-used (c k) dev blockno (sym (ap (λ b. b.refcnt) here) ∙ z))))
    | inr (none_free, full) ↦
        rw (choose-panics c dev blockno nothing none_free) (no_buffers fresh full)
  ]
]

-- The buffer that brelse leaves.
abbrev pub released : IoBuf → IoBuf
released b = record b {
  lock = release_sleeplock b.lock;
  refcnt = (b.refcnt + (2 ^ 32 - 1)) % 2 ^ 32;
}

pub brelse-runs :
    (c : Cache) (i tid : ℕ)
    → holdingsleep (c i).lock tid ≡ true
    → brelse c i tid ≡ ok (put c i (released (c i)))
unfolding brelse
brelse-runs c i tid h = rw (h, brelse) refl

brelse-panics :
    (c : Cache) (i tid : ℕ) → holdingsleep (c i).lock tid ≡ false → brelse c i tid ≡ panic
unfolding brelse
brelse-panics c i tid h = rw (h, brelse) refl

-- The ways in which brelse ends.
pub data Released (c : Cache) (i tid : ℕ) : Outcome Cache → Type 0 where
  not_holder : holdingsleep (c i).lock tid ≡ false → Released c i tid panic
  given_back :
      (c' : Cache)
      → holdingsleep (c i).lock tid ≡ true
      → IsShared c'
      → suc (c' i).refcnt ≡ (c i).refcnt
      → (c' i).lock.is_locked ≡ false
      → ((j : ℕ) → j ≢ i → c' j ≡ c j)
      → Released c i tid (ok c')

-- On a cache in which of two buffers for the same block the later one has no user, brelse of a buffer
-- with a user panics where the thread does not hold the buffer's sleep lock; otherwise it counts one user less, frees the
-- sleep lock, leaves the other buffers and keeps the cache as before in this respect.
pub brelse_lem :
    (c : Cache) (i tid : ℕ)
    → IsShared c
    → i < nbuf
    → (c i).refcnt ≢ 0
    → (c i).refcnt < 2 ^ 32
    → Released c i tid (brelse c i tid)
unfolding release_sleeplock
brelse_lem c i tid x small used bound = elim (Bool-cases (holdingsleep (c i).lock tid)) [
  | inr e ↦ rw (brelse-panics c i tid e) (not_holder e)
  | inl e ↦
      let here = put_self c i (released (c i)) in
      rw (brelse-runs c i tid e) (
        given_back (put c i (released (c i))) e
          (put-IsShared c i (released (c i)) x
            (λ j lt below d n. absurd (used (x.first_only j i lt small d n)))
            (λ j lt below d n. x.first_only i j lt below d n))
          (omega (arith, ap (λ b. b.refcnt) here, used)) (ap (λ b. b.lock.is_locked) here)
          (λ j ne. put_ne c i (released (c i)) j ne))
]
