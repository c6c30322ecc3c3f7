-- ===== src/Ext2/Names.antt =====
-- strcmp of src/libc and the walk over the entries of a directory in src/kernel/fs/ext2.c.
use swag_os.Base.{
  ℕ, zero, suc, ◌+◌, ◌-◌, ◌%◌, ◌^◌, ◌<◌, ◌≤◌, ◌≡◌, ◌≢◌, refl, sym, ap, ◌∙◌, ◌⊎◌, inl, inr, ◌==◌,
  ltb, if◌then◌else◌, Bool-cases, ==_ne, ==_iff, ltb→lt, List, [], ◌∷◌, length, some, arith,
}
use swag_os.Base.Outcome.{ok, ◌>>=◌}
use swag_os.Libc.{Bytes}
use swag_os.BufferCache.Disk.{fssize}
use swag_os.Libc.Copy.{store_byte-same, store_byte-other}
use swag_os.Ext2.{Calls, Ext2Driver, copy_in, inode_sector, ext2_read_inode}
use swag_os.Ext2.Blocks.{read_inode-ok, copy_in-inside, copy_in-outside}
use swag_os.Ext2.Directory.{
  from, strcmp, strcmp_from, entry_inode, entry_size, entry_name, name_steps,
  ext2_read_from_directory,
}

-- Memory holds bytes.
abbrev pub IsBytes : Bytes → Type 0
IsBytes b = (i : ℕ) → b i < 256

-- A string that ends at `k`.
pub record IsString (s : Bytes) (k : ℕ) : Type 0 where
  pub inside : (j : ℕ) → j < k → s j ≢ 0
  pub ends : s k ≡ 0

-- What strcmp says from position `i` on, of a second string that ends at `k`.
pub data Compared (s t : Bytes) (i k : ℕ) : ℕ → Type 0 where
  same : ((j : ℕ) → i ≤ j → j ≤ k → s j ≡ t j) → Compared s t i k 0
  differs : (res j : ℕ) → res ≢ 0 → i ≤ j → j ≤ k → s j ≢ t j → Compared s t i k res

difference : (a b : ℕ) → a < 256 → b < 256 → a ≢ b → (a + 2 ^ 64 - b) % 2 ^ 64 ≢ 0
difference a b la lb ne e = ne (omega arith)

no_difference : (a b : ℕ) → b < 256 → a ≡ b → (a + 2 ^ 64 - b) % 2 ^ 64 ≡ 0
no_difference a b lb e = omega arith

strcmp-differs :
    (fuel i : ℕ) (s t : Bytes)
    → (s i + 2 ^ 64 - t i) % 2 ^ 64 ≢ 0
    → strcmp_from (suc fuel) i s t ≡ ok ((s i + 2 ^ 64 - t i) % 2 ^ 64)
unfolding strcmp_from
strcmp-differs fuel i s t ne = rw (==_ne ((s i + 2 ^ 64 - t i) % 2 ^ 64) 0 ne, strcmp_from) refl

strcmp-ends :
    (fuel i : ℕ) (s t : Bytes)
    → (s i + 2 ^ 64 - t i) % 2 ^ 64 ≡ 0
    → t i ≡ 0
    → strcmp_from (suc fuel) i s t ≡ ok 0
unfolding strcmp_from
strcmp-ends fuel i s t e z = rw (e, ap (λ x. x == 0) z, strcmp_from) refl

strcmp-goes :
    (fuel i : ℕ) (s t : Bytes)
    → (s i + 2 ^ 64 - t i) % 2 ^ 64 ≡ 0
    → t i ≢ 0
    → strcmp_from (suc fuel) i s t ≡ strcmp_from fuel (suc i) s t
unfolding strcmp_from
strcmp-goes fuel i s t e ne = rw (e, ==_ne (t i) 0 ne, strcmp_from) refl

at_end : (i : ℕ) (s t : Bytes) → s i ≡ t i → (j : ℕ) → i ≤ j → j ≤ i → s j ≡ t j
at_end i s t eq j lo hi = let here : j ≡ i = omega arith in ap s here ∙ eq ∙ ap t (sym here)

earlier :
    (s t : Bytes) (i k res : ℕ) → s i ≡ t i → Compared s t (suc i) k res → Compared s t i k res
earlier s t i k _ eq (same all) = same (λ j lo hi. elim (Bool-cases (i == j)) [
  | inl e ↦ at_end i s t eq j lo (ground (arith, e))
  | inr e ↦ all j (ground (arith, e)) hi
])
earlier s t i k _ eq (differs res j ne lo hi d) = differs res j ne (omega arith) hi d

strcmp_from_lem :
    (fuel i k : ℕ) (s t : Bytes)
    → IsBytes s
    → IsBytes t
    → IsString t k
    → i ≤ k
    → k < i + fuel
    → (res : ℕ) × (strcmp_from fuel i s t ≡ ok res) × Compared s t i k res
strcmp_from_lem zero i k s t bs bt str lo hi = absurd (omega arith)
strcmp_from_lem (suc fuel) i k s t bs bt str lo hi = elim (Bool-cases (s i == t i)) [
  | inr e ↦
      let ne : s i ≢ t i = λ z. ground (arith, z, e) in
      let far = difference (s i) (t i) (bs i) (bt i) ne in
      (
        (s i + 2 ^ 64 - t i) % 2 ^ 64,
        strcmp-differs fuel i s t far,
        differs ((s i + 2 ^ 64 - t i) % 2 ^ 64) i far (omega arith) lo ne,
      )
  | inl e ↦
      let eq : s i ≡ t i = ground (arith, e) in
      let none_yet = no_difference (s i) (t i) (bt i) eq in
      elim (Bool-cases (i == k)) [
        | inl last ↦
            let done : i ≡ k = ground (arith, last) in
            (
              0,
              strcmp-ends fuel i s t none_yet (ap t done ∙ str.ends),
              same (λ j from_i to_k. at_end i s t eq j from_i (omega (arith, done))),
            )
        | inr more ↦
            let before : i < k = ground (arith, more) in
            let (res, runs, said) =
              strcmp_from_lem fuel (suc i) k s t bs bt str before (omega arith) in
            (
              res,
              strcmp-goes fuel i s t none_yet (str.inside i before) ∙ runs,
              earlier s t i k res eq said,
            )
      ]
]

-- strcmp of any string of bytes with one that ends at `k` returns within `k + 1` steps; the result is 0
-- exactly where the two agree up to and with that end.
pub strcmp_lem :
    (fuel k : ℕ) (s t : Bytes)
    → IsBytes s
    → IsBytes t
    → IsString t k
    → k < fuel
    → (res : ℕ) × (strcmp fuel s t ≡ ok res) × Compared s t 0 k res
unfolding strcmp
strcmp_lem fuel k s t bs bt str lt =
    strcmp_from_lem fuel 0 k s t bs bt str (omega arith) (omega arith)

-- The file name that an entry at `o` has.
pub IsNamed : Bytes → Bytes → ℕ → Type 0
IsNamed filename b o =
    ((j : ℕ) → j < b (o + 6) → filename j ≡ b (o + 8 + j)) × (filename (b (o + 6)) ≡ 0)

-- The entries of a directory from an offset on, up to one with inode 0: no name holds a zero byte,
-- kalloc gives memory for a copy of each, and each inode lies in a sector below `FSSIZE`.
pub data Entries (e : Calls) (d : Ext2Driver) (b : Bytes) : ℕ → List ℕ → Type 0 where
  end_of : {o : ℕ} → entry_inode b o ≡ 0 → Entries e d b o []
  entry_of :
      {o : ℕ} {os : List ℕ} (m : Bytes)
      → entry_inode b o ≢ 0
      → ((j : ℕ) → j < b (o + 6) → b (o + 8 + j) ≢ 0)
      → e.kalloc (b (o + 6) + 1) ≡ some m
      → inode_sector d (entry_inode b o) < fssize
      → Entries e d b (o + entry_size b o) os
      → Entries e d b o (o ∷ os)

-- The inode of the first entry with a name, 0 if none has it.
pub data Looked (filename b : Bytes) : List ℕ → ℕ → Type 0 where
  nowhere : Looked filename b [] 0
  here : {o : ℕ} {os : List ℕ} → IsNamed filename b o → Looked filename b (o ∷ os) (entry_inode b o)
  later :
      {o r : ℕ} {os : List ℕ}
      → ¬ IsNamed filename b o
      → Looked filename b os r
      → Looked filename b (o ∷ os) r

entry_name-byte : (b : Bytes) (o j : ℕ) → j < b (o + 6) → entry_name b o j ≡ b (o + 8 + j)
unfolding entry_name
entry_name-byte b o j lt =
    store_byte-other (copy_in (λ a. 0) 0 (from b (o + 8)) (b (o + 6))) (b (o + 6)) 0 j
      (λ e. omega (arith, e))
    ∙ ap (copy_in (λ a. 0) 0 (from b (o + 8)) (b (o + 6))) (omega arith)
    ∙ copy_in-inside (λ a. 0) 0 (from b (o + 8)) (b (o + 6)) j lt

entry_name-end : (b : Bytes) (o : ℕ) → entry_name b o (b (o + 6)) ≡ 0
unfolding entry_name
entry_name-end b o = store_byte-same (copy_in (λ a. 0) 0 (from b (o + 8)) (b (o + 6))) (b (o + 6)) 0

entry_name-past : (b : Bytes) (o j : ℕ) → b (o + 6) < j → entry_name b o j ≡ 0
unfolding entry_name
entry_name-past b o j lt =
    store_byte-other (copy_in (λ a. 0) 0 (from b (o + 8)) (b (o + 6))) (b (o + 6)) 0 j
      (λ e. omega (arith, e))
    ∙ copy_in-outside (λ a. 0) 0 (from b (o + 8)) (b (o + 6)) j (inr (omega arith))

entry_name-IsBytes : (b : Bytes) (o : ℕ) → IsBytes b → IsBytes (entry_name b o)
entry_name-IsBytes b o bytes j = elim (Bool-cases (ltb j (b (o + 6)))) [
  | inl e ↦ omega (arith, entry_name-byte b o j (ltb→lt j (b (o + 6)) e), bytes (o + 8 + j))
  | inr e ↦ elim (Bool-cases (j == b (o + 6))) [
    | inl z ↦ omega (arith, ap (entry_name b o) ((==_iff j (b (o + 6))).0 z), entry_name-end b o)
    | inr z ↦ omega (arith, entry_name-past b o j (ground (arith, e, z)))
  ]
]

entry_name-IsString :
    (b : Bytes) (o : ℕ)
    → ((j : ℕ) → j < b (o + 6) → b (o + 8 + j) ≢ 0)
    → IsString (entry_name b o) (b (o + 6))
entry_name-IsString b o filled = record {
  inside = λ j lt z. filled j lt (sym (entry_name-byte b o j lt) ∙ z);
  ends = entry_name-end b o;
}

-- The name's comparison says whether the entry has the name.
Compared-IsNamed :
    (filename b : Bytes) (o res : ℕ)
    → Compared filename (entry_name b o) 0 (b (o + 6)) res
    → ((res ≡ 0) × IsNamed filename b o) ⊎ ((res ≢ 0) × ¬ IsNamed filename b o)
unfolding IsNamed
Compared-IsNamed filename b o _ (same all) = inl (
  refl,
  (
    λ j lt. all j (omega arith) (omega arith) ∙ entry_name-byte b o j lt,
    all (b (o + 6)) (omega arith) (omega arith) ∙ entry_name-end b o,
  ),
)
Compared-IsNamed filename b o _ (differs res j ne lo hi d) = inr (
  ne,
  λ named. elim (Bool-cases (j == b (o + 6))) [
    | inl e ↦
        let last : j ≡ b (o + 6) = ground (arith, e) in
        d (ap filename last ∙ named.1 ∙ sym (entry_name-end b o) ∙ ap (entry_name b o) (sym last))
    | inr e ↦
        let inner : j < b (o + 6) = ground (arith, e) in
        d (named.0 j inner ∙ sym (entry_name-byte b o j inner))
  ],
)

read_directory-end :
    (e : Calls) (d : Ext2Driver) (fuel : ℕ) (filename b : Bytes) (o : ℕ)
    → entry_inode b o ≡ 0
    → ext2_read_from_directory e d (suc fuel) filename b o ≡ ok 0
unfolding ext2_read_from_directory
read_directory-end e d fuel filename b o z = rw (ap (λ x. x == 0) z, ext2_read_from_directory) refl

read_directory-entry :
    (e : Calls) (d : Ext2Driver) (fuel : ℕ) (filename b : Bytes) (o res : ℕ) (m : Bytes)
    → entry_inode b o ≢ 0
    → e.kalloc (b (o + 6) + 1) ≡ some m
    → strcmp name_steps filename (entry_name b o) ≡ ok res
    → ext2_read_from_directory e d (suc fuel) filename b o ≡ (
        if res == 0
        then (ext2_read_inode e d (entry_inode b o) >>= λ inode. ok (entry_inode b o))
        else ext2_read_from_directory e d fuel filename b (o + entry_size b o))
unfolding ext2_read_from_directory
read_directory-entry e d fuel filename b o res m ne given says =
    rw (==_ne (entry_inode b o) 0 ne, given, says, ext2_read_from_directory) refl

read_directory-match :
    (e : Calls) (d : Ext2Driver) (b : Bytes) (o : ℕ)
    → inode_sector d (entry_inode b o) < fssize
    → (ext2_read_inode e d (entry_inode b o) >>= λ inode. ok (entry_inode b o))
      ≡ ok (entry_inode b o)
read_directory-match e d b o lt =
    let (inode, reads) = read_inode-ok e d (entry_inode b o) lt in
    ap (λ r. r >>= λ i. ok (entry_inode b o)) reads

-- Over the entries of a directory that end with inode 0, where kalloc gives memory for each name's copy
-- and each inode lies in a sector below FSSIZE, the walk returns, as soon as it may visit more than
-- their number: with the inode of the first entry that has the name, 0 if none has it.
pub read_from_directory_lem :
    (e : Calls) (d : Ext2Driver) (fuel : ℕ) (filename b : Bytes) (o : ℕ) (os : List ℕ)
    → IsBytes filename
    → IsBytes b
    → Entries e d b o os
    → length os < fuel
    → (r : ℕ) × (ext2_read_from_directory e d fuel filename b o ≡ ok r) × Looked filename b os r
read_from_directory_lem e d zero filename b o os bf bb es lt = absurd (omega arith)
read_from_directory_lem e d (suc fuel) filename b o [] bf bb (end_of z) lt =
    (0, read_directory-end e d fuel filename b o z, nowhere)
read_from_directory_lem e d (suc fuel) filename b o (_ ∷ os) bf bb
      (entry_of m ne filled given on_disk rest) lt =
    let (res, says, compared) =
      strcmp_lem name_steps (b (o + 6)) filename (entry_name b o) bf (entry_name-IsBytes b o bb)
        (entry_name-IsString b o filled) (bb (o + 6)) in
    let step = read_directory-entry e d fuel filename b o res m ne given says in
    elim (Compared-IsNamed filename b o res compared) [
      | inl (zero_res, named) ↦ (
        entry_inode b o,
        step ∙ rw (ap (λ x. x == 0) zero_res) (read_directory-match e d b o on_disk),
        here named,
      )
      | inr (more, other) ↦
          let (r, runs, looked) =
            read_from_directory_lem e d fuel filename b (o + entry_size b o) os bf bb rest
              (omega arith) in
          (r, step ∙ rw (==_ne res 0 more) runs, later other looked)
    ]
