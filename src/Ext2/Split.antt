-- ===== src/Ext2/Split.antt =====
-- strsplit.c of src/libc: the strings that a path is split into.
use swag_os.Base.{
  ℕ, zero, suc, ◌+◌, ◌<◌, ◌≤◌, ◌≡◌, ◌≢◌, refl, sym, ap, ◌∙◌, ◌⊎◌, inl, inr, true, false, ◌==◌,
  if◌then◌else◌, Bool-cases, ==_ne, ==_iff, arith,
}
use mathlib.Core.Path.{subst}
use swag_os.Base.Outcome.{ok}
use swag_os.Libc.{Bytes, store_byte}
use swag_os.Libc.Copy.{store_byte-same, store_byte-other}
use swag_os.Ext2.Directory.{strsplit, strsplit_from}

-- A string from position `i` on that ends at `k`.
pub record Ends (s : Bytes) (i k : ℕ) : Type 0 where
  pub inside : (j : ℕ) → i ≤ j → j < k → s j ≢ 0
  pub ends : s k ≡ 0

-- How often a byte occurs in the `n` bytes from `i` on.
abbrev pub occurrences : ℕ → ℕ → Bytes → ℕ → ℕ
occurrences zero i s c = 0
occurrences (suc n) i s c =
    let rest = occurrences n (suc i) s c in if s i == c then suc rest else rest

-- What strsplit leaves of the string from `i` to `k`.
pub record Separated (s : Bytes) (i k c : ℕ) (r : Bytes) : Type 0 where
  pub separator : (j : ℕ) → i ≤ j → j < k → s j ≡ c → r j ≡ 0
  pub kept : (j : ℕ) → (j < i) ⊎ ((k ≤ j) ⊎ (s j ≢ c)) → r j ≡ s j

strsplit-ends :
    (fuel i num : ℕ) (s : Bytes) (c : ℕ)
    → s i ≡ 0
    → strsplit_from (suc fuel) i num s c ≡ ok (s, suc num)
unfolding strsplit_from
strsplit-ends fuel i num s c z = rw (ap (λ x. x == 0) z, strsplit_from) refl

strsplit-cuts :
    (fuel i num : ℕ) (s : Bytes) (c : ℕ)
    → s i ≢ 0
    → (s i == c) ≡ true
    → strsplit_from (suc fuel) i num s c ≡ strsplit_from fuel (suc i) (suc num) (store_byte s i 0) c
unfolding strsplit_from
strsplit-cuts fuel i num s c ne cut = rw (==_ne (s i) 0 ne, cut, strsplit_from) refl

strsplit-keeps :
    (fuel i num : ℕ) (s : Bytes) (c : ℕ)
    → s i ≢ 0
    → (s i == c) ≡ false
    → strsplit_from (suc fuel) i num s c ≡ strsplit_from fuel (suc i) num s c
unfolding strsplit_from
strsplit-keeps fuel i num s c ne keep = rw (==_ne (s i) 0 ne, keep, strsplit_from) refl

occurrences-cut :
    (n i : ℕ) (s : Bytes) (c : ℕ)
    → (s i == c) ≡ true
    → occurrences (suc n) i s c ≡ suc (occurrences n (suc i) s c)
occurrences-cut n i s c e = rw e refl

occurrences-keep :
    (n i : ℕ) (s : Bytes) (c : ℕ)
    → (s i == c) ≡ false
    → occurrences (suc n) i s c ≡ occurrences n (suc i) s c
occurrences-keep n i s c e = rw e refl

-- A byte written before the range does not count.
occurrences-store :
    (n i a v : ℕ) (s : Bytes) (c : ℕ)
    → a < i
    → occurrences n i (store_byte s a v) c ≡ occurrences n i s c
occurrences-store zero i a v s c lt = refl
occurrences-store (suc n) i a v s c lt =
    let same = store_byte-other s a v i (λ e. omega (arith, e)) in
    elim (Bool-cases (s i == c)) [
      | inl e ↦
          occurrences-cut n i (store_byte s a v) c (ap (λ x. x == c) same ∙ e)
          ∙ ap suc (occurrences-store n (suc i) a v s c (omega arith))
          ∙ sym (occurrences-cut n i s c e)
      | inr e ↦
          occurrences-keep n i (store_byte s a v) c (ap (λ x. x == c) same ∙ e)
          ∙ occurrences-store n (suc i) a v s c (omega arith)
          ∙ sym (occurrences-keep n i s c e)
    ]

none_cut : (s : Bytes) (i k c : ℕ) → k ≤ i → Separated s i k c s
none_cut s i k c le = record {
  separator = λ j lo hi. absurd (omega (arith, lo, hi));
  kept = λ j h. refl;
}

-- The byte at `i` is no separator, and the rest is split.
keep_one :
    (s : Bytes) (i k c : ℕ) (r : Bytes)
    → (s i == c) ≡ false
    → Separated s (suc i) k c r
    → Separated s i k c r
keep_one s i k c r keep rest = record {
  separator = λ j lo hi e. elim (Bool-cases (i == j)) [
    | inl same ↦ absurd (ground (arith, keep, ap s ((==_iff i j).0 same), e))
    | inr ne ↦ rest.separator j (ground (arith, ne)) hi e
  ];
  kept = λ j h. elim (Bool-cases (i == j)) [
    | inl same ↦ let at : i ≡ j = (==_iff i j).0 same in rest.kept j (inl (omega (arith, at)))
    | inr ne ↦ rest.kept j (ground (arith, ne, h))
  ];
}

-- The byte at `i` is a separator, and the rest is split.
cut_one :
    (s : Bytes) (i k c : ℕ) (r : Bytes)
    → i < k
    → s i ≡ c
    → Separated (store_byte s i 0) (suc i) k c r
    → Separated s i k c r
cut_one s i k c r lt cut rest =
    let first : r i ≡ 0 = rest.kept i (inl (omega arith)) ∙ store_byte-same s i 0 in
    let other : (j : ℕ) → i ≢ j → store_byte s i 0 j ≡ s j =
      λ j ne. store_byte-other s i 0 j (λ e. ne (sym e)) in
    record {
      separator = λ j lo hi e. elim (Bool-cases (i == j)) [
        | inl same ↦ ap r (sym ((==_iff i j).0 same)) ∙ first
        | inr ne ↦
            rest.separator j (ground (arith, ne)) hi (other j (λ y. ground (arith, ne, y)) ∙ e)
      ];
      kept = λ j h. elim (Bool-cases (i == j)) [
        | inl same ↦
            let at : i ≡ j = (==_iff i j).0 same in
            elim h [
              | inl before ↦ absurd (omega (arith, at, before))
              | inr (inl past) ↦ absurd (omega (arith, at, past))
              | inr (inr ne) ↦ absurd (ne (ap s (sym at) ∙ cut))
            ]
        | inr ne ↦
            let far : i ≢ j = λ y. ground (arith, ne, y) in
            rest.kept j (elim h [
              | inl before ↦ inl (omega (arith, before))
              | inr (inl past) ↦ inr (inl past)
              | inr (inr byte) ↦ inr (inr (λ y. byte (sym (other j far) ∙ y)))
            ])
            ∙ other j far
      ];
    }

-- The end of a string is where it was when a byte before it is cleared.
clear_one : (s : Bytes) (i k : ℕ) → i < k → Ends s i k → Ends (store_byte s i 0) (suc i) k
clear_one s i k lt str = record {
  inside = λ j lo hi z.
      str.inside j (omega (arith, lo)) hi
        (sym (store_byte-other s i 0 j (λ e. omega (arith, e, lo))) ∙ z);
  ends = store_byte-other s i 0 k (λ e. omega (arith, e, lt)) ∙ str.ends;
}

strsplit_from_lem :
    (n fuel i num : ℕ) (s : Bytes) (c : ℕ)
    → Ends s i (i + n)
    → n < fuel
    → (r : Bytes) × (strsplit_from fuel i num s c ≡ ok (r, suc (num + occurrences n i s c)))
      × Separated s i (i + n) c r
strsplit_from_lem n zero i num s c str lt = absurd (omega arith)
strsplit_from_lem zero (suc fuel) i num s c str lt = (
  s,
  strsplit-ends fuel i num s c (ap s (omega arith) ∙ str.ends)
      ∙ ap (λ x. ok (s, suc x)) (omega arith),
  none_cut s i (i + 0) c (omega arith),
)
strsplit_from_lem (suc n) (suc fuel) i num s c str lt =
    let next : suc i + n ≡ i + suc n = omega arith in
    let ne : s i ≢ 0 = str.inside i (omega arith) (omega arith) in
    elim (Bool-cases (s i == c)) [
      | inl cut ↦
          let str1 = clear_one s i (i + suc n) (omega arith) str in
          let (r, runs, rest) =
            strsplit_from_lem n fuel (suc i) (suc num) (store_byte s i 0) c
              (subst (Ends (store_byte s i 0) (suc i)) (sym next) str1) (omega arith) in
          let counts : suc num + occurrences n (suc i) (store_byte s i 0) c
              ≡ num + occurrences (suc n) i s c =
            omega (
              arith,
              occurrences-cut n i s c cut,
              occurrences-store n (suc i) i 0 s c (omega arith),
            ) in
          (
            r,
            strsplit-cuts fuel i num s c ne cut ∙ runs ∙ ap (λ x. ok (r, suc x)) counts,
            cut_one s i (i + suc n) c r (omega arith) ((==_iff (s i) c).0 cut)
                (subst (λ x. Separated (store_byte s i 0) (suc i) x c r) next rest),
          )
      | inr keep ↦
          let str1 : Ends s (suc i) (suc i + n) = record {
            inside = λ j lo hi. str.inside j (omega (arith, lo)) (omega (arith, hi));
            ends = ap s next ∙ str.ends;
          } in
          let (r, runs, rest) = strsplit_from_lem n fuel (suc i) num s c str1 (omega arith) in
          (
            r,
            strsplit-keeps fuel i num s c ne keep
                ∙ runs
                ∙ ap (λ x. ok (r, suc (num + x))) (sym (occurrences-keep n i s c keep)),
            keep_one s i (i + suc n) c r keep (subst (λ x. Separated s (suc i) x c r) next rest),
          )
    ]

-- strsplit of a string that ends at `k` returns within `k + 1` steps: it clears each separator, leaves
-- every other byte, and returns one more than the number of the separators.
pub strsplit_lem :
    (fuel k : ℕ) (s : Bytes) (c : ℕ)
    → Ends s 0 k
    → k < fuel
    → (r : Bytes) × (strsplit fuel s c ≡ ok (r, suc (occurrences k 0 s c))) × Separated s 0 k c r
unfolding strsplit
strsplit_lem fuel k s c str lt =
    let whole : 0 + k ≡ k = omega arith in
    let (r, runs, separated) =
      strsplit_from_lem k fuel 0 0 s c (subst (Ends s 0) (sym whole) str) lt in
    (
      r,
      runs ∙ ap (λ x. ok (r, suc x)) (omega arith),
      subst (λ x. Separated s 0 x c r) whole separated,
    )
