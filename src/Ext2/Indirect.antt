-- ===== src/Ext2/Indirect.antt =====
-- ext2_read_single_indirect of src/kernel/fs/ext2.c: how it ends, by where the table of blocks has its
-- first zero word.
use swag_os.Base.{
  ℕ, zero, suc, ◌+◌, ◌-◌, ◌*◌, ◌/◌, ◌%◌, ◌^◌, ◌<◌, ◌≤◌, ◌≡◌, ◌≢◌, refl, sym, ap, ◌∙◌, inl, inr,
  ◌==◌, ltb, if◌then◌else◌, Bool-cases, Option-cases, ==_ne, ==_iff, lt→ltb, ltb→lt, ltb_ge, none,
  some, Option, Bool, true, false, arith,
}
use mathlib.Core.Bool.{false≢true}
use swag_os.Base.Outcome.{Outcome, ok, panic, ◌>>=◌}
use swag_os.Libc.{Bytes}
use swag_os.Ext2.{u32, Calls, Ext2Driver, ext2_read_block}
use swag_os.Ext2.Blocks.{
  fs_byte, IsGeometry, IsOnDisk, block_data, read_block-block_data, block_data_lem,
}
use swag_os.Ext2.Content.{Holds}
use swag_os.Ext2.File.{count_blocks, read_table, ext2_read_single_indirect}

abbrev pub word : Bytes → ℕ → ℕ
word table x = u32 table (4 * x)

-- The first zero word of a table is word `x`.
pub record FirstZero (table : Bytes) (x : ℕ) : Type 0 where
  pub filled : (y : ℕ) → y < x → word table y ≢ 0
  pub empty : word table x ≡ 0

count-step :
    (fuel y : ℕ) (table : Bytes)
    → word table y ≢ 0
    → count_blocks (suc fuel) y table ≡ count_blocks fuel (suc y) table
unfolding count_blocks
count-step fuel y table ne = rw (==_ne (word table y) 0 ne, count_blocks) refl

count-stop :
    (fuel y : ℕ) (table : Bytes) → word table y ≡ 0 → count_blocks (suc fuel) y table ≡ ok y
unfolding count_blocks
count-stop fuel y table z = rw (ap (λ x. x == 0) z, count_blocks) refl

count_blocks_lem :
    (fuel y x : ℕ) (table : Bytes)
    → FirstZero table x
    → y ≤ x
    → x < y + fuel
    → count_blocks fuel y table ≡ ok x
count_blocks_lem zero y x table first le lt = absurd (omega arith)
count_blocks_lem (suc fuel) y x table first le lt = elim (Bool-cases (y == x)) [
  | inl e ↦
      let same : y ≡ x = ground (arith, e) in
      count-stop fuel y table (ap (word table) same ∙ first.empty) ∙ ap ok same
  | inr e ↦
      let before : y < x = ground (arith, e) in
      count-step fuel y table (first.filled y before)
      ∙ count_blocks_lem fuel (suc y) x table first before (omega arith)
]

table-hole :
    (e : Calls) (d : Ext2Driver) (n i : ℕ) (table buf : Bytes)
    → word table i ≡ 0
    → read_table e d (suc n) i table buf ≡ panic
unfolding read_table
table-hole e d n i table buf z = rw (ap (λ x. x == 0) z, read_table) refl

table-step :
    (e : Calls) (d : Ext2Driver) (n i : ℕ) (table buf : Bytes)
    → IsGeometry d
    → IsOnDisk d (word table i)
    → word table i ≢ 0
    → read_table e d (suc n) i table buf
      ≡ read_table e d n
          (suc i)
          table
          (block_data e d buf (i * d.block_size % 2 ^ 32) (word table i))
unfolding read_table
table-step e d n i table buf geometry on_disk ne =
    let runs =
      read_block-block_data e d buf (i * d.block_size % 2 ^ 32) (word table i) geometry on_disk in
    rw (==_ne (word table i) 0 ne, runs, read_table) refl

-- A table with a zero word among those that are read.
read_table-hole :
    (e : Calls) (d : Ext2Driver) (n i x : ℕ) (table buf : Bytes)
    → IsGeometry d
    → ((k : ℕ) → k < x → IsOnDisk d (word table k))
    → i ≤ x
    → x < i + n
    → word table x ≡ 0
    → read_table e d n i table buf ≡ panic
read_table-hole e d zero i x table buf geometry on_disk le lt z = absurd (omega arith)
read_table-hole e d (suc n) i x table buf geometry on_disk le lt z =
    elim (Bool-cases (word table i == 0)) [
      | inl now ↦ table-hole e d n i table buf (ground (arith, now))
      | inr more ↦
          let before : i < x = elim (Bool-cases (i == x)) [
            | inl same ↦ absurd (ground (arith, more, z, ap (word table) ((==_iff i x).0 same)))
            | inr ne ↦ ground (arith, ne)
          ] in
          table-step e d n i table buf geometry (on_disk i before) (λ y. ground (arith, y, more))
          ∙ read_table-hole e d n (suc i) x table
              (block_data e d buf (i * d.block_size % 2 ^ 32) (word table i)) geometry on_disk
              before (omega arith) z
    ]

-- What the blocks of a table leave in a buffer, from block `i` on, `n` of them.
pub record Loaded (e : Calls) (d : Ext2Driver) (n i : ℕ) (table buf r : Bytes) : Type 0 where
  pub content : (k : ℕ) → i ≤ k → k < i + n → Holds e d r (k * d.block_size) (word table k)
  pub before : (a : ℕ) → a < i * d.block_size → r a ≡ buf a

read_table-done :
    (e : Calls) (d : Ext2Driver) (i : ℕ) (table buf : Bytes) → read_table e d 0 i table buf ≡ ok buf
unfolding read_table
read_table-done e d i table buf = refl

load_one :
    (e : Calls) (d : Ext2Driver) (n i : ℕ) (table buf r : Bytes)
    → IsGeometry d
    → i * d.block_size < 2 ^ 32
    → Loaded e d n (suc i) table (block_data e d buf (i * d.block_size % 2 ^ 32) (word table i)) r
    → Loaded e d (suc n) i table buf r
load_one e d n i table buf r geometry small rest =
    let place : i * d.block_size % 2 ^ 32 ≡ i * d.block_size = omega arith in
    let (inside, outside) =
      block_data_lem e d buf (i * d.block_size % 2 ^ 32) (word table i) geometry in
    let next : suc i * d.block_size ≡ i * d.block_size + d.block_size = omega arith in
    record {
      content = λ k lo hi j within. elim (Bool-cases (i == k)) [
        | inl e0 ↦
            let same : i ≡ k = ground (arith, e0) in
            let at : k * d.block_size + j ≡ i * d.block_size % 2 ^ 32 + j =
              ap (λ x. x * d.block_size + j) (sym same) ∙ ap (λ x. x + j) (sym place) in
            rest.before (k * d.block_size + j) (omega (arith, next, at, place, within))
            ∙ ap (block_data e d buf (i * d.block_size % 2 ^ 32) (word table i)) at
            ∙ inside j within
            ∙ ap (λ x. fs_byte e (word table x * d.block_size + j)) same
        | inr e0 ↦ rest.content k (ground (arith, e0)) (omega arith) j within
      ];
      before = λ a lt.
          rest.before a (omega (arith, next, lt)) ∙ outside a (inl (omega (arith, place, lt)));
    }

read_table_lem :
    (e : Calls) (d : Ext2Driver) (n i : ℕ) (table buf : Bytes)
    → IsGeometry d
    → (i + n) * d.block_size < 2 ^ 32
    → ((k : ℕ) → k < i + n → (word table k ≢ 0) × IsOnDisk d (word table k))
    → (r : Bytes) × (read_table e d n i table buf ≡ ok r) × Loaded e d n i table buf r
read_table_lem e d zero i table buf geometry small blocks = (
  buf,
  read_table-done e d i table buf,
  record { content = λ k lo hi. absurd (omega (arith, lo, hi)); before = λ a lt. refl },
)
read_table_lem e d (suc n) i table buf geometry small blocks =
    let (ne, on_disk) = blocks i (omega arith) in
    let whole : (i + suc n) * d.block_size ≡ i * d.block_size + (d.block_size + n * d.block_size) =
      omega arith in
    let next = block_data e d buf (i * d.block_size % 2 ^ 32) (word table i) in
    let (r, runs, loaded) =
      read_table_lem e d n (suc i) table next geometry (omega (arith, small))
        (λ k lt. blocks k (omega (arith, lt))) in
    (
      r,
      table-step e d n i table buf geometry on_disk ne ∙ runs,
      load_one e d n i table buf r geometry (omega (arith, whole, small)) loaded,
    )

is_none {ℓ} : {A : Type ℓ} → Option A → Bool
is_none none = true
is_none (some a) = false

none_some {ℓ} : {A : Type ℓ} {a : A} → ◌≢◌ {A = Option A} none (some a)
unfolding is_none
none_some e = false≢true (sym (ap is_none e))

abbrev pub max_blocks : Ext2Driver → ℕ
max_blocks d = d.block_size / 4

-- How ext2_read_single_indirect ends where the table that it has read has its first zero word at `x`.
pub data Indirect (e : Calls) (d : Ext2Driver) (table : Bytes) (x : ℕ)
    : Outcome (Bytes × ℕ) → Type 0 where
  partly_filled : x < max_blocks d → Indirect e d table x panic
  no_end : max_blocks d < x → Indirect e d table x panic
  refused : e.kalloc (x * d.block_size) ≡ none → Indirect e d table x panic
  filled :
      (b : Bytes)
      → x ≡ max_blocks d
      → e.kalloc (x * d.block_size) ≢ none
      → ((k : ℕ) → k < x → Holds e d b (k * d.block_size) (word table k))
      → Indirect e d table x (ok (b, x * d.block_size))

-- The part of ext2_read_single_indirect behind the count of the words.
abbrev after_count : Calls → Ext2Driver → Bytes → ℕ → Outcome (Bytes × ℕ)
after_count e d table total =
    if ltb (d.block_size / 4) total
    then panic
    else elim (e.kalloc (total * d.block_size % 2 ^ 32)) [
      | none ↦ panic
      | some ret_buf ↦ read_table e d (d.block_size / 4) 0 table ret_buf >>= λ b.
          ok (b, total * d.block_size % 2 ^ 32)
    ]

single-counted :
    (e : Calls) (d : Ext2Driver) (fuel blockno x : ℕ) (m table : Bytes)
    → e.kalloc d.block_size ≡ some m
    → ext2_read_block e d m 0 blockno ≡ ok table
    → count_blocks fuel 0 table ≡ ok x
    → ext2_read_single_indirect e d fuel blockno ≡ after_count e d table x
unfolding ext2_read_single_indirect
single-counted e d fuel blockno x m table given reads counts =
    rw (given, reads, counts, ext2_read_single_indirect) refl

count-panics :
    (e : Calls) (d : Ext2Driver) (table : Bytes) (x : ℕ)
    → max_blocks d < x
    → after_count e d table x ≡ panic
count-panics e d table x lt = rw (lt→ltb (max_blocks d) x lt) refl

count-refused :
    (e : Calls) (d : Ext2Driver) (table : Bytes) (x : ℕ)
    → x ≤ max_blocks d
    → e.kalloc (x * d.block_size % 2 ^ 32) ≡ none
    → after_count e d table x ≡ panic
count-refused e d table x le nil_got = rw (ltb_ge (max_blocks d) x le, nil_got) refl

count-read :
    (e : Calls) (d : Ext2Driver) (table buf : Bytes) (x : ℕ)
    → x ≤ max_blocks d
    → e.kalloc (x * d.block_size % 2 ^ 32) ≡ some buf
    → after_count e d table x
      ≡ (read_table e d (max_blocks d) 0 table buf >>= λ b. ok (b, x * d.block_size % 2 ^ 32))
count-read e d table buf x le got = rw (ltb_ge (max_blocks d) x le, got) refl

fits : (x n b : ℕ) → x ≤ n → n * b < 2 ^ 32 → x * b % 2 ^ 32 ≡ x * b
fits x n b le lt =
    let more : n ≡ x + (n - x) = omega arith in
    let split : n * b ≡ x * b + (n - x) * b = ap (λ y. y * b) more ∙ omega arith in
    omega (arith, split)

after_count_lem :
    (e : Calls) (d : Ext2Driver) (table : Bytes) (x : ℕ)
    → IsGeometry d
    → max_blocks d * d.block_size < 2 ^ 32
    → FirstZero table x
    → ((k : ℕ) → k < x → IsOnDisk d (word table k))
    → Indirect e d table x (after_count e d table x)
after_count_lem e d table x geometry small first on_disk =
    elim (Bool-cases (ltb (max_blocks d) x)) [
      | inl over ↦
          let lt = ltb→lt (max_blocks d) x over in rw (count-panics e d table x lt) (no_end lt)
      | inr under ↦
          let le : x ≤ max_blocks d = ground (arith, under) in
          let whole : x * d.block_size % 2 ^ 32 ≡ x * d.block_size =
            fits x (max_blocks d) d.block_size le small in
          elim (Option-cases (e.kalloc (x * d.block_size % 2 ^ 32))) [
            | inl nil_got ↦
                rw (count-refused e d table x le nil_got)
                  (refused (ap e.kalloc (sym whole) ∙ nil_got))
            | inr (buf, got) ↦ elim (Bool-cases (x == max_blocks d)) [
              | inl full ↦
                  let all : x ≡ max_blocks d = (==_iff x (max_blocks d)).0 full in
                  let (b, runs, loaded) =
                    read_table_lem e d (max_blocks d) 0 table buf geometry (omega (arith, small))
                      (λ k lt. (
                        first.filled k (omega (arith, lt, all)),
                        on_disk k (omega (arith, lt, all)),
                      )) in
                  rw (count-read e d table buf x le got, runs, whole)
                    (filled b all (λ z. none_some (sym z ∙ ap e.kalloc (sym whole) ∙ got))
                      (λ k lt. loaded.content k (omega arith) (omega (arith, lt, all))))
              | inr partly ↦
                  let lt : x < max_blocks d = ground (arith, under, partly) in
                  rw
                    (
                      count-read e d table buf x le got,
                      read_table-hole e d (max_blocks d) 0 x table buf geometry on_disk
                          (omega arith) (omega (arith, lt)) first.empty,
                    )
                    (partly_filled lt)
            ]
          ]
    ]

-- ext2_read_single_indirect, with a buffer for its table, whose first zero word is at `x`, all blocks in
-- sectors below FSSIZE and a table of blocks of less than 4 GB together: it returns only where `x` is
-- the number of words of a block, so that the table is full and a zero word follows it in memory, and
-- then with the blocks that the table names, in order, in a second buffer that kalloc has given; it
-- panics where the table is only partly filled, where no zero word follows it, and where the second
-- buffer is refused.
pub single_indirect_lem :
    (e : Calls) (d : Ext2Driver) (fuel blockno x : ℕ) (m table : Bytes)
    → IsGeometry d
    → max_blocks d * d.block_size < 2 ^ 32
    → e.kalloc d.block_size ≡ some m
    → ext2_read_block e d m 0 blockno ≡ ok table
    → FirstZero table x
    → ((k : ℕ) → k < x → IsOnDisk d (word table k))
    → x < fuel
    → Indirect e d table x (ext2_read_single_indirect e d fuel blockno)
single_indirect_lem e d fuel blockno x m table geometry small given reads first on_disk lt =
    let counts = count_blocks_lem fuel 0 x table first (omega arith) (omega arith) in
    rw (single-counted e d fuel blockno x m table given reads counts)
      (after_count_lem e d table x geometry small first on_disk)
