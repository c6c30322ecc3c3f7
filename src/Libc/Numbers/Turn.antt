-- ===== src/Libc/Numbers/Turn.antt =====
-- reverse of src/libc/itoa.c turns a range of bytes round and leaves all others.
use swag_os.Base.{
  ℕ, zero, suc, ◌+◌, ◌-◌, ◌<◌, ◌≤◌, ◌≡◌, ◌≢◌, refl, ap, ◌∙◌, ◌⊎◌, inl, inr, ◌==◌, ltb, Bool-cases,
  ltb→lt, lt→ltb, ltb_ge, ==_iff, arith,
}
use swag_os.Libc.{Bytes, store_byte}
use swag_os.Libc.Copy.{store_byte-same, store_byte-other}
use swag_os.Libc.Numbers.{reverse_from}

-- One exchange.
abbrev swapped : ℕ → ℕ → Bytes → Bytes
swapped start end str = store_byte (store_byte str start (str end)) end (str start)

swapped-other :
    (start end j : ℕ) (str : Bytes) → j ≢ start → j ≢ end → swapped start end str j ≡ str j
swapped-other start end j str ne ne' =
    store_byte-other (store_byte str start (str end)) end (str start) j ne'
    ∙ store_byte-other str start (str end) j ne

reverse-step :
    (fuel start end : ℕ) (str : Bytes)
    → start < end
    → reverse_from (suc fuel) start end str
      ≡ reverse_from fuel (suc start) (end - 1) (swapped start end str)
unfolding reverse_from
reverse-step fuel start end str lt = rw (lt→ltb start end lt) refl

reverse-done :
    (fuel start end : ℕ) (str : Bytes) → end ≤ start → reverse_from fuel start end str ≡ str
unfolding reverse_from
reverse-done zero start end str le = refl
reverse-done (suc fuel) start end str le = rw (ltb_ge start end le) refl

pub reverse-outside :
    (fuel start end j : ℕ) (str : Bytes)
    → ((j < start) ⊎ (end < j))
    → reverse_from fuel start end str j ≡ str j
unfolding reverse_from
reverse-outside zero start end j str out = refl
reverse-outside (suc fuel) start end j str out = elim (Bool-cases (ltb start end)) [
  | inr e ↦ ap (λ r. r j) (reverse-done (suc fuel) start end str (ground (arith, e)))
  | inl e ↦
      let lt : start < end = ltb→lt start end e in
      ap (λ r. r j) (reverse-step fuel start end str lt)
      ∙ reverse-outside fuel (suc start) (end - 1) j (swapped start end str)
          (ground (arith, lt, out))
      ∙ swapped-other start end j str (λ z. ground (arith, z, lt, out))
          (λ z. ground (arith, z, lt, out))
]

pub reverse-inside :
    (fuel start end j : ℕ) (str : Bytes)
    → start ≤ j
    → j ≤ end
    → end ≤ start + fuel
    → reverse_from fuel start end str j ≡ str (start + end - j)
reverse-inside zero start end j str lo hi room =
    ap (λ r. r j) (reverse-done zero start end str (omega (arith, room)))
    ∙ ap str (omega (arith, lo, hi, room))
reverse-inside (suc fuel) start end j str lo hi room = elim (Bool-cases (ltb start end)) [
  | inr e ↦
      let le : end ≤ start = ground (arith, e) in
      ap (λ r. r j) (reverse-done (suc fuel) start end str le) ∙ ap str (omega (arith, lo, hi, le))
  | inl e ↦
      let lt : start < end = ltb→lt start end e in
      let s1 = swapped start end str in
      ap (λ r. r j) (reverse-step fuel start end str lt) ∙ elim (Bool-cases (j == start)) [
        | inl at ↦
            let first : j ≡ start = (==_iff j start).0 at in
            reverse-outside fuel (suc start) (end - 1) j s1 (inl (omega (arith, first)))
            ∙ ap s1 first
            ∙ store_byte-other (store_byte str start (str end)) end (str start) start
                (λ z. omega (arith, z, lt))
            ∙ store_byte-same str start (str end)
            ∙ ap str (omega (arith, first))
        | inr ne ↦ elim (Bool-cases (j == end)) [
          | inl at ↦
              let last : j ≡ end = (==_iff j end).0 at in
              reverse-outside fuel (suc start) (end - 1) j s1 (inr (omega (arith, last, lt)))
              ∙ ap s1 last
              ∙ store_byte-same (store_byte str start (str end)) end (str start)
              ∙ ap str (omega (arith, last))
          | inr ne' ↦
              let above : suc start ≤ j = ground (arith, ne, lo) in
              let below : j ≤ end - 1 = ground (arith, ne', hi) in
              reverse-inside fuel (suc start) (end - 1) j s1 above below (omega (arith, room, lt))
              ∙ swapped-other start end (suc start + (end - 1) - j) str
                  (λ z. omega (arith, z, above, below, lt))
                  (λ z. omega (arith, z, above, below, lt))
              ∙ ap str (omega (arith, above, below, lt))
        ]
      ]
]
