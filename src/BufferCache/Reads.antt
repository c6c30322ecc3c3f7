-- ===== src/BufferCache/Reads.antt =====
-- src/kernel/fs/buffered_io.c refines the disk: a thread that reads sectors through the cache, with no
-- other thread at it, gets what the disk holds.
use swag_os.Base.{
  ℕ, ◌+◌, ◌-◌, ◌%◌, ◌^◌, ◌<◌, ◌≡◌, ◌≢◌, refl, sym, ap, ap₂, ◌∙◌, ◌⊎◌, inl, inr, true, false,
  bit_and, List, [], ◌∷◌, map, leb, ◌==◌, if◌then◌else◌, Bool-cases, ==_self, ==_iff, arith,
}
use mathlib.Core.Bool.{true≢false}
use mathlib.Core.Path.{subst}
use swag_os.Base.Outcome.{Outcome, ok, ◌>>=◌}
use swag_os.BufferCache.{
  nbuf, b_valid, IoBuf, Cache, put, caches, recyclable, claim, recycle, choose, acquire_sleeplock,
  release_sleeplock, holdingsleep, lock_buffer, bget, brelse,
}
use swag_os.BufferCache.Unique.{
  find-cases, put_self, put_ne, choose-claims, choose-recycles, caches-true, released, brelse-runs,
}
use swag_os.BufferCache.Disk.{Drive, fssize, ideintr, iderw, bread, read_cached}

-- What a buffer holds: nothing, or the data of its sector.
abbrev pub IsClean : Drive → IoBuf → Type 0
IsClean drive b =
    (b.flags ≡ 0) ⊎ ((b.flags ≡ b_valid) × (b.contents ≡ drive.sectors (b.dev % 2) b.blockno))

-- A buffer that no thread uses.
pub record IsQuiet (drive : Drive) (b : IoBuf) : Type 0 where
  pub unused : b.refcnt ≡ 0
  pub unlocked : b.lock.is_locked ≡ false
  pub clean : IsClean drive b

abbrev pub AreQuiet : Drive → Cache → Type 0
AreQuiet drive c = (i : ℕ) → i < nbuf → IsQuiet drive (c i)

abbrev held_by : IoBuf → ℕ → IoBuf
held_by b tid = record b { lock = record { is_locked = true; owner_tid = tid } }

lock-free :
    (c : Cache) (i tid : ℕ)
    → (c i).lock.is_locked ≡ false
    → lock_buffer c i tid ≡ ok (put c i (held_by (c i) tid), i)
unfolding lock_buffer acquire_sleeplock
lock-free c i tid free = rw (free, lock_buffer, acquire_sleeplock) refl

bget-chosen :
    (c c1 : Cache) (dev blockno tid k : ℕ)
    → choose c dev blockno ≡ ok (c1, k)
    → (c1 k).lock.is_locked ≡ false
    → bget c dev blockno tid ≡ ok (put c1 k (held_by (c1 k) tid), k)
unfolding bget
bget-chosen c c1 dev blockno tid k chose free =
    ap (λ o. o >>= λ r. lock_buffer r.0 r.1 tid) chose ∙ lock-free c1 k tid free

holds : (tid : ℕ) → holdingsleep (record { is_locked = true; owner_tid = tid }) tid ≡ true
unfolding holdingsleep
holds tid = ==_self tid

-- The rest of bread, once it has its buffer.
abbrev after_bget : Drive → ℕ → Cache × ℕ → Outcome (Cache × ℕ × Drive)
after_bget drive tid r =
    if bit_and (r.0 r.1).flags b_valid == 0
    then (iderw drive (r.0 r.1) tid >>= λ s. ok (put r.0 r.1 s.1, r.1, s.0))
    else ok (r.0, r.1, drive)

bread-got :
    (c c2 : Cache) (drive : Drive) (dev blockno tid k : ℕ)
    → bget c dev blockno tid ≡ ok (c2, k)
    → bread c drive dev blockno tid ≡ after_bget drive tid (c2, k)
unfolding bread
bread-got c c2 drive dev blockno tid k got = ap (λ o. o >>= after_bget drive tid) got

got-valid :
    (c2 : Cache) (drive : Drive) (tid k : ℕ)
    → (bit_and (c2 k).flags b_valid == 0) ≡ false
    → after_bget drive tid (c2, k) ≡ ok (c2, k, drive)
got-valid c2 drive tid k valid = rw valid refl

got-empty :
    (c2 : Cache) (drive : Drive) (tid k : ℕ) (b : IoBuf)
    → (bit_and (c2 k).flags b_valid == 0) ≡ true
    → iderw drive (c2 k) tid ≡ ok (drive, b)
    → after_bget drive tid (c2, k) ≡ ok (put c2 k b, k, drive)
got-empty c2 drive tid k b empty reads = rw (empty, reads) refl

-- A drive that reads without error, and kalloc that gives memory for every request.
pub record IsReading (drive : Drive) : Type 0 where
  pub reads : drive.reads ≡ true
  pub request : drive.request ≡ true

iderw-reads :
    (drive : Drive) (b : IoBuf) (tid : ℕ)
    → IsReading drive
    → holdingsleep b.lock tid ≡ true
    → b.flags ≡ 0
    → b.dev ≡ 0
    → b.blockno < fssize
    → iderw drive b tid ≡ ok (drive, ideintr drive b)
unfolding iderw
iderw-reads drive b tid works held empty dev small =
    let fits : leb fssize b.blockno ≡ false = ground (arith, small) in
    rw (held, empty, dev, works.request, fits) refl

fetched :
    (drive : Drive) (b : IoBuf)
    → IsReading drive
    → b.flags ≡ 0
    → ((ideintr drive b).flags ≡ b_valid)
      × ((ideintr drive b).contents ≡ drive.sectors (b.dev % 2) b.blockno)
unfolding ideintr
fetched drive b works empty = (rw empty refl, rw (empty, works.reads) refl)

fetched-kept :
    (drive : Drive) (b : IoBuf)
    → ((ideintr drive b).dev ≡ b.dev)
      × ((ideintr drive b).blockno ≡ b.blockno)
      × ((ideintr drive b).refcnt ≡ b.refcnt)
      × ((ideintr drive b).lock ≡ b.lock)
unfolding ideintr
fetched-kept drive b = (refl, refl, refl, refl)

-- A cache that reads give: buffer `k` holds the sector `n` for the thread, and the others are as in `c`.
record Holding (drive : Drive) (c c3 : Cache) (k n tid : ℕ) : Type 0 where
  counted : (c3 k).refcnt ≡ 1
  for_disk : (c3 k).dev ≡ 0
  for_sector : (c3 k).blockno ≡ n
  by_thread : holdingsleep (c3 k).lock tid ≡ true
  is_valid : (c3 k).flags ≡ b_valid
  loaded : (c3 k).contents ≡ drive.sectors 0 n
  others : (j : ℕ) → j ≢ k → c3 j ≡ c j

-- A buffer that the search has chosen for a sector of disk 0.
record IsFor (drive : Drive) (b : IoBuf) (n : ℕ) : Type 0 where
  counted : b.refcnt ≡ 1
  for_disk : b.dev ≡ 0
  for_sector : b.blockno ≡ n
  unlocked : b.lock.is_locked ≡ false
  clean : IsClean drive b

read-done :
    (c c3 : Cache) (drive : Drive) (n tid k : ℕ)
    → bread c drive 0 n tid ≡ ok (c3, k, drive)
    → holdingsleep (c3 k).lock tid ≡ true
    → read_cached c drive n tid ≡ ok (put c3 k (released (c3 k)), (c3 k).contents)
unfolding read_cached
read-done c c3 drive n tid k got held =
    ap (λ o. o >>= λ r. brelse r.0 r.1 tid >>= λ c1. ok (c1, (r.0 r.1).contents)) got
    ∙ ap (λ o. o >>= λ c1. ok (c1, (c3 k).contents)) (brelse-runs c3 k tid held)

bread-Holding :
    (c : Cache) (drive : Drive) (n tid k : ℕ) (b : IoBuf)
    → IsReading drive
    → n < fssize
    → choose c 0 n ≡ ok (put c k b, k)
    → IsFor drive b n
    → (c3 : Cache) × (bread c drive 0 n tid ≡ ok (c3, k, drive)) × Holding drive c c3 k n tid
bread-Holding c drive n tid k b works small chose x =
    let c1 = put c k b in
    let here : c1 k ≡ b = put_self c k b in
    let c2 = put c1 k (held_by (c1 k) tid) in
    let taken : c2 k ≡ held_by b tid =
      put_self c1 k (held_by (c1 k) tid) ∙ ap (λ y. held_by y tid) here in
    let got = bget-chosen c c1 0 n tid k chose (ap (λ y. y.lock.is_locked) here ∙ x.unlocked) in
    let starts = bread-got c c2 drive 0 n tid k got in
    let held = ap (λ y. holdingsleep y.lock tid) taken ∙ holds tid in
    let rest : (j : ℕ) → j ≢ k → c2 j ≡ c j =
      λ j ne. put_ne c1 k (held_by (c1 k) tid) j ne ∙ put_ne c k b j ne in
    elim x.clean [
      | inr (valid, content) ↦
          let flags : (c2 k).flags ≡ b_valid = ap (λ y. y.flags) taken ∙ valid in
          let has_data : (bit_and (c2 k).flags b_valid == 0) ≡ false =
            ap (λ f. bit_and f b_valid == 0) flags in
          (
            c2,
            starts ∙ got-valid c2 drive tid k has_data,
            record {
              counted = ap (λ y. y.refcnt) taken ∙ x.counted;
              for_disk = ap (λ y. y.dev) taken ∙ x.for_disk;
              for_sector = ap (λ y. y.blockno) taken ∙ x.for_sector;
              by_thread = held;
              is_valid = flags;
              loaded =
                  ap (λ y. y.contents) taken
                  ∙ content
                  ∙ ap₂ (λ d m. drive.sectors (d % 2) m) x.for_disk x.for_sector;
              others = rest;
            },
          )
      | inl empty ↦
          let flags : (c2 k).flags ≡ 0 = ap (λ y. y.flags) taken ∙ empty in
          let no_data : (bit_and (c2 k).flags b_valid == 0) ≡ true =
            ap (λ f. bit_and f b_valid == 0) flags in
          let dev : (c2 k).dev ≡ 0 = ap (λ y. y.dev) taken ∙ x.for_disk in
          let block : (c2 k).blockno ≡ n = ap (λ y. y.blockno) taken ∙ x.for_sector in
          let reads =
            iderw-reads drive (c2 k) tid works held flags dev (omega (arith, block, small)) in
          let b3 = ideintr drive (c2 k) in
          let at : put c2 k b3 k ≡ b3 = put_self c2 k b3 in
          let (valid, content) = fetched drive (c2 k) works flags in
          let (same_dev, same_block, same_count, same_lock) = fetched-kept drive (c2 k) in
          (
            put c2 k b3,
            starts ∙ got-empty c2 drive tid k b3 no_data reads,
            record {
              counted = ap (λ y. y.refcnt) at ∙ same_count ∙ ap (λ y. y.refcnt) taken ∙ x.counted;
              for_disk = ap (λ y. y.dev) at ∙ same_dev ∙ dev;
              for_sector = ap (λ y. y.blockno) at ∙ same_block ∙ block;
              by_thread =
                  ap (λ y. holdingsleep y.lock tid) at
                  ∙ ap (λ l. holdingsleep l tid) same_lock
                  ∙ held;
              is_valid = ap (λ y. y.flags) at ∙ valid;
              loaded =
                  ap (λ y. y.contents) at
                  ∙ content
                  ∙ ap₂ (λ d m. drive.sectors (d % 2) m) dev block;
              others = λ j ne. put_ne c2 k b3 j ne ∙ rest j ne;
            },
          )
    ]

given_back-quiet :
    (drive : Drive) (c c3 : Cache) (k n tid : ℕ)
    → AreQuiet drive c
    → Holding drive c c3 k n tid
    → AreQuiet drive (put c3 k (released (c3 k)))
unfolding release_sleeplock
given_back-quiet drive c c3 k n tid quiet h j small = elim (Bool-cases (j == k)) [
  | inl e ↦
      let at : put c3 k (released (c3 k)) j ≡ released (c3 k) =
        ap (put c3 k (released (c3 k))) ((==_iff j k).0 e) ∙ put_self c3 k (released (c3 k)) in
      record {
        unused = ap (λ y. y.refcnt) at ∙ ap (λ x. (x + (2 ^ 32 - 1)) % 2 ^ 32) h.counted;
        unlocked = ap (λ y. y.lock.is_locked) at;
        clean = inr (
          ap (λ y. y.flags) at ∙ h.is_valid,
          ap (λ y. y.contents) at
              ∙ h.loaded
              ∙ ap₂ (λ d m. drive.sectors (d % 2) m) (sym h.for_disk ∙ ap (λ y. y.dev) (sym at))
                  (sym h.for_sector ∙ ap (λ y. y.blockno) (sym at)),
        );
      }
  | inr e ↦
      let ne : j ≢ k = λ z. ground (arith, e, z) in
      subst (IsQuiet drive) (sym (put_ne c3 k (released (c3 k)) j ne ∙ h.others j ne))
        (quiet j small)
]

claimed :
    (drive : Drive) (b : IoBuf) (n : ℕ)
    → IsQuiet drive b
    → caches b 0 n ≡ true
    → IsFor drive (claim b) n
unfolding claim
claimed drive b n quiet found =
    let (dev, block) = caches-true b 0 n found in
    record {
      counted = ap (λ x. (x + 1) % 2 ^ 32) quiet.unused;
      for_disk = dev;
      for_sector = block;
      unlocked = quiet.unlocked;
      clean = quiet.clean;
    }

recycled : (drive : Drive) (b : IoBuf) (n : ℕ) → IsQuiet drive b → IsFor drive (recycle b 0 n) n
unfolding recycle
recycled drive b n quiet = record {
  counted = refl;
  for_disk = refl;
  for_sector = refl;
  unlocked = quiet.unlocked;
  clean = inl refl;
}

quiet-recyclable : (drive : Drive) (b : IoBuf) → IsQuiet drive b → recyclable b ≡ true
unfolding recyclable
quiet-recyclable drive b quiet = elim quiet.clean [
  | inl empty ↦ rw (quiet.unused, empty) refl
  | inr (valid, content) ↦ rw (quiet.unused, valid) refl
]

-- On a quiet cache the search always has a buffer for the sector.
quiet-chooses :
    (drive : Drive) (c : Cache) (n : ℕ)
    → AreQuiet drive c
    → (k : ℕ) × (b : IoBuf) × (choose c 0 n ≡ ok (put c k b, k)) × IsFor drive b n
quiet-chooses drive c n quiet = elim (find-cases (λ b. caches b 0 n) nbuf 0 c) [
  | inl (k, found, f) ↦ (
    k,
    claim (c k),
    choose-claims c 0 n k found,
    claimed drive (c k) n (quiet k (omega (arith, f.below))) f.passes,
  )
  | inr (nothing, fresh) ↦ elim (find-cases recyclable nbuf 0 c) [
    | inl (k, found, f) ↦ (
      k,
      recycle (c k) 0 n,
      choose-recycles c 0 n k nothing found,
      recycled drive (c k) n (quiet k (omega (arith, f.below))),
    )
    | inr (none_free, full) ↦ absurd (
        true≢false (
          sym (quiet-recyclable drive (c 0) (quiet 0 (omega arith)))
          ∙ full 0 (omega arith) (omega arith)))
  ]
]

read-quiet :
    (drive : Drive) (c : Cache) (n tid : ℕ)
    → IsReading drive
    → AreQuiet drive c
    → n < fssize
    → (c1 : Cache) × (read_cached c drive n tid ≡ ok (c1, drive.sectors 0 n)) × AreQuiet drive c1
read-quiet drive c n tid works quiet small =
    let (k, b, chose, x) = quiet-chooses drive c n quiet in
    let (c3, got, h) = bread-Holding c drive n tid k b works small chose x in
    let c1 = put c3 k (released (c3 k)) in
    (
      c1,
      read-done c c3 drive n tid k got h.by_thread ∙ ap (λ x. ok (c1, x)) h.loaded,
      given_back-quiet drive c c3 k n tid quiet h,
    )

-- A run of reads.
unfoldable pub read_all : Cache → Drive → ℕ → List ℕ → Outcome (Cache × List (List ℕ))
unfolding read_cached
read_all c drive tid [] = ok (c, [])
read_all c drive tid (n ∷ ns) =
    read_cached c drive n tid >>= λ r. read_all r.0 drive tid ns >>= λ rs. ok (rs.0, r.1 ∷ rs.1)

pub data AreSectors : List ℕ → Type 0 where
  no_sector : AreSectors []
  one_sector : {n : ℕ} {ns : List ℕ} → n < fssize → AreSectors ns → AreSectors (n ∷ ns)

read_all-step :
    (c c1 c2 : Cache) (drive : Drive) (tid n : ℕ) (ns : List ℕ) (content : List ℕ)
    (rest : List (List ℕ))
    → read_cached c drive n tid ≡ ok (c1, content)
    → read_all c1 drive tid ns ≡ ok (c2, rest)
    → read_all c drive tid (n ∷ ns) ≡ ok (c2, content ∷ rest)
unfolding read_all
read_all-step c c1 c2 drive tid n ns content rest first others =
    ap (λ o. o >>= λ r. read_all r.0 drive tid ns >>= λ rs. ok (rs.0, r.1 ∷ rs.1)) first
    ∙ ap (λ o. o >>= λ rs. ok (rs.0, content ∷ rs.1)) others

read_all-none : (c : Cache) (drive : Drive) (tid : ℕ) → read_all c drive tid [] ≡ ok (c, [])
unfolding read_all
read_all-none c drive tid = refl

-- The cache refines the disk: on a cache that no thread uses and whose valid buffers hold what the disk
-- holds, with a drive that reads without error and where kalloc gives memory for every request, a thread
-- that reads any sectors below `FSSIZE` one after the other through bread and brelse never panics or waits
-- for a buffer, gets exactly the disk's data for each of them, and leaves such a cache.
pub read_all_lem :
    (drive : Drive) (c : Cache) (tid : ℕ) (ns : List ℕ)
    → IsReading drive
    → AreQuiet drive c
    → AreSectors ns
    → (c1 : Cache) × (read_all c drive tid ns ≡ ok (c1, map (drive.sectors 0) ns))
      × AreQuiet drive c1
read_all_lem drive c tid [] works quiet no_sector = (c, read_all-none c drive tid, quiet)
read_all_lem drive c tid (n ∷ ns) works quiet (one_sector small rest) =
    let (c1, first, quiet1) = read-quiet drive c n tid works quiet small in
    let (c2, others, quiet2) = read_all_lem drive c1 tid ns works quiet1 rest in
    (
      c2,
      read_all-step c c1 c2 drive tid n ns (drive.sectors 0 n) (map (drive.sectors 0) ns) first
          others,
      quiet2,
    )
