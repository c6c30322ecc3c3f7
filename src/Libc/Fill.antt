-- ===== src/Libc/Fill.antt =====
-- memset.c, memcmp.c and strlen.c of src/libc.
use swag_os.Base.{
  ℕ, zero, suc, ◌+◌, ◌%◌, ◌<◌, ◌≤◌, ◌≡◌, ◌≢◌, refl, sym, ap, ◌∙◌, ◌⊎◌, inl, inr, true, false, ◌==◌,
  ltb, Bool-cases, ==_ne, arith,
}
use swag_os.Base.Outcome.{ok}
use swag_os.Libc.{
  Bytes, store_byte, memset_from, memset, memcmp_from, memcmp, equal, strlen_from, strlen,
}
use swag_os.Libc.Copy.{store_byte-same, store_byte-other}

memset_from-before :
    (n i buf value : ℕ) (m : Bytes) (b : ℕ)
    → (b < buf + i) ⊎ (buf + i + n ≤ b)
    → memset_from n i buf value m b ≡ m b
unfolding memset_from
memset_from-before zero i buf value m b h = refl
memset_from-before (suc n) i buf value m b h =
    memset_from-before n (suc i) buf value (store_byte m (buf + i) (value % 256)) b
      (ground (arith, h))
    ∙ store_byte-other m (buf + i) (value % 256) b (λ e. ground (arith, h, e))

memset_from-at :
    (n i buf value : ℕ) (m : Bytes) (j : ℕ)
    → i ≤ j
    → j < i + n
    → memset_from n i buf value m (buf + j) ≡ value % 256
unfolding memset_from
memset_from-at zero i buf value m j lo hi = absurd (omega arith)
memset_from-at (suc n) i buf value m j lo hi = elim (Bool-cases (i == j)) [
  | inl e ↦
      let same : i ≡ j = ground (arith, e) in
      ap (λ k. memset_from n (suc i) buf value (store_byte m (buf + i) (value % 256)) (buf + k))
        (sym same)
      ∙ memset_from-before n (suc i) buf value (store_byte m (buf + i) (value % 256)) (buf + i)
          (inl (omega arith))
      ∙ store_byte-same m (buf + i) (value % 256)
  | inr e ↦
      memset_from-at n (suc i) buf value (store_byte m (buf + i) (value % 256)) j
        (ground (arith, e)) (omega arith)
]

same_bytes :
    (n i a b : ℕ) (m : Bytes)
    → ((j : ℕ) → i ≤ j → j < i + n → m (a + j) ≡ m (b + j))
    → memcmp_from n i a b m ≡ equal
unfolding memcmp_from
same_bytes zero i a b m h = refl
same_bytes (suc n) i a b m h =
    let here = h i (omega arith) (omega arith) in
    let not_less : ltb (m (a + i)) (m (b + i)) ≡ false = ground (arith, here) in
    let not_more : ltb (m (b + i)) (m (a + i)) ≡ false = ground (arith, here) in
    rw (not_less, memcmp_from)
      (rw not_more (same_bytes n (suc i) a b m (λ j lo hi. h j (omega arith) (omega arith))))

-- memset writes the low byte of its value to every byte of the buffer, so that a memcmp of any two
-- parts of the buffer of one size finds them equal.
pub memcmp-memset :
    (m : Bytes) (buf value size a b n : ℕ)
    → a + n ≤ size
    → b + n ≤ size
    → memcmp (memset m buf value size) (buf + a) (buf + b) n ≡ equal
unfolding memcmp memset
memcmp-memset m buf value size a b n p q =
    same_bytes n 0 (buf + a) (buf + b) (memset_from size 0 buf value m) (λ j lo hi.
      ap (memset_from size 0 buf value m) (omega arith)
      ∙ memset_from-at size 0 buf value m (a + j) (omega arith) (omega arith)
      ∙ sym (memset_from-at size 0 buf value m (b + j) (omega arith) (omega arith))
      ∙ ap (memset_from size 0 buf value m) (omega arith))

strlen_from-at :
    (fuel len str k : ℕ) (m : Bytes)
    → len ≤ k
    → k < len + fuel
    → m (str + k) ≡ 0
    → ((j : ℕ) → j < k → m (str + j) ≢ 0)
    → strlen_from fuel len str m ≡ ok k
unfolding strlen_from
strlen_from-at zero len str k m lo hi z before = absurd (omega arith)
strlen_from-at (suc fuel) len str k m lo hi z before = elim (Bool-cases (len == k)) [
  | inl e ↦
      let same : len ≡ k = ground (arith, e) in
      let ends : (m (str + len) == 0) ≡ true = ground (arith, z, ap (λ x. m (str + x)) same) in
      rw (ends, strlen_from) (ap ok same)
  | inr e ↦
      let lt : len < k = ground (arith, e) in
      rw (==_ne (m (str + len)) 0 (before len lt), strlen_from)
        (strlen_from-at fuel (suc len) str k m lt (omega arith) z before)
]

-- strlen of a string whose first zero byte is at `k` returns `k`, as soon as it may read more than `k`
-- bytes.
pub strlen_lem :
    (fuel : ℕ) (m : Bytes) (str k : ℕ)
    → k < fuel
    → m (str + k) ≡ 0
    → ((j : ℕ) → j < k → m (str + j) ≢ 0)
    → strlen fuel m str ≡ ok k
unfolding strlen
strlen_lem fuel m str k h z before =
    strlen_from-at fuel 0 str k m (omega arith) (omega arith) z before
