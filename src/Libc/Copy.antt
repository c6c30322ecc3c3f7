-- ===== src/Libc/Copy.antt =====
-- memcpy.c and memmove.c of src/libc: what they copy, with ranges that overlap or not.
use swag_os.Base.{
  ℕ, zero, suc, ◌+◌, ◌<◌, ◌≤◌, ◌≡◌, ◌≢◌, refl, sym, ap, ◌∙◌, ◌⊎◌, inl, inr, ◌==◌, ltb, Bool-cases,
  ==_self, ==_ne, arith,
}
use swag_os.Libc.{Bytes, store_byte, copy_up, copy_down, memcpy, memmove}

pub store_byte-same : (m : Bytes) (a v : ℕ) → store_byte m a v a ≡ v
unfolding store_byte
store_byte-same m a v = rw (==_self a) refl

pub store_byte-other : (m : Bytes) (a v b : ℕ) → b ≢ a → store_byte m a v b ≡ m b
unfolding store_byte
store_byte-other m a v b ne = rw (==_ne b a ne) refl

-- A loop that goes up writes no byte before its position.
copy_up-before :
    (n i dst src : ℕ) (m : Bytes) (b : ℕ)
    → (b < dst + i) ⊎ (dst + i + n ≤ b)
    → copy_up n i dst src m b ≡ m b
unfolding copy_up
copy_up-before zero i dst src m b h = refl
copy_up-before (suc n) i dst src m b h =
    copy_up-before n (suc i) dst src (store_byte m (dst + i) (m (src + i))) b (ground (arith, h))
    ∙ store_byte-other m (dst + i) (m (src + i)) b (λ e. ground (arith, h, e))

-- Where the destination does not lie above the source, each byte is read before it is written.
copy_up-at :
    (n i dst src : ℕ) (m : Bytes) (j : ℕ)
    → (dst ≤ src) ⊎ (src + i + n ≤ dst + i)
    → i ≤ j
    → j < i + n
    → copy_up n i dst src m (dst + j) ≡ m (src + j)
unfolding copy_up
copy_up-at zero i dst src m j safe lo hi = absurd (omega arith)
copy_up-at (suc n) i dst src m j safe lo hi = elim (Bool-cases (i == j)) [
  | inl e ↦
      let same : i ≡ j = ground (arith, e) in
      ap (λ k. copy_up n (suc i) dst src (store_byte m (dst + i) (m (src + i))) (dst + k))
        (sym same)
      ∙ copy_up-before n (suc i) dst src (store_byte m (dst + i) (m (src + i))) (dst + i)
          (inl (omega arith))
      ∙ store_byte-same m (dst + i) (m (src + i))
      ∙ ap (λ k. m (src + k)) same
  | inr e ↦
      copy_up-at n (suc i) dst src (store_byte m (dst + i) (m (src + i))) j (ground (arith, safe))
        (ground (arith, e)) (omega arith)
      ∙ store_byte-other m (dst + i) (m (src + i)) (src + j) (λ z. ground (arith, safe, z, e))
]

copy_down-outside :
    (n dst src : ℕ) (m : Bytes) (b : ℕ) → (b < dst) ⊎ (dst + n ≤ b) → copy_down n dst src m b ≡ m b
unfolding copy_down
copy_down-outside zero dst src m b h = refl
copy_down-outside (suc n) dst src m b h =
    copy_down-outside n dst src (store_byte m (dst + n) (m (src + n))) b (ground (arith, h))
    ∙ store_byte-other m (dst + n) (m (src + n)) b (λ e. ground (arith, h, e))

copy_down-at :
    (n dst src : ℕ) (m : Bytes) (j : ℕ)
    → src ≤ dst
    → j < n
    → copy_down n dst src m (dst + j) ≡ m (src + j)
unfolding copy_down
copy_down-at zero dst src m j up h = absurd (omega arith)
copy_down-at (suc n) dst src m j up h = elim (Bool-cases (j == n)) [
  | inl e ↦
      let same : j ≡ n = ground (arith, e) in
      ap (λ k. copy_down n dst src (store_byte m (dst + n) (m (src + n))) (dst + k)) same
      ∙ copy_down-outside n dst src (store_byte m (dst + n) (m (src + n))) (dst + n)
          (inr (omega arith))
      ∙ store_byte-same m (dst + n) (m (src + n))
      ∙ ap (λ k. m (src + k)) (sym same)
  | inr e ↦
      copy_down-at n dst src (store_byte m (dst + n) (m (src + n))) j up (ground (arith, e))
      ∙ store_byte-other m (dst + n) (m (src + n)) (src + j) (λ z. ground (arith, e, z))
]

-- memmove copies: whether the two ranges overlap or not, every byte of the destination ends with what
-- the source held before the call.
pub memmove_copies :
    (m : Bytes) (dst src size j : ℕ) → j < size → memmove m dst src size (dst + j) ≡ m (src + j)
unfolding memmove
memmove_copies m dst src size j h = elim (Bool-cases (ltb dst src)) [
  | inl e ↦
      rw e (copy_up-at size 0 dst src m j (inl (ground (arith, e))) (omega arith) (omega arith))
  | inr e ↦ rw e (copy_down-at size dst src m j (ground (arith, e)) h)
]

-- memmove writes no byte outside the destination.
pub memmove_stays :
    (m : Bytes) (dst src size b : ℕ) → (b < dst) ⊎ (dst + size ≤ b) → memmove m dst src size b ≡ m b
unfolding memmove
memmove_stays m dst src size b h = elim (Bool-cases (ltb dst src)) [
  | inl e ↦ rw e (copy_up-before size 0 dst src m b (ground (arith, h)))
  | inr e ↦ rw e (copy_down-outside size dst src m b h)
]

-- Where the two ranges do not overlap, or the destination lies below the source, memcpy does what
-- memmove does, byte for byte.
pub memcpy-memmove :
    (m : Bytes) (dst src size j : ℕ)
    → j < size
    → (dst ≤ src) ⊎ (src + size ≤ dst)
    → memcpy m dst src size (dst + j) ≡ memmove m dst src size (dst + j)
unfolding memcpy
memcpy-memmove m dst src size j h safe =
    copy_up-at size 0 dst src m j (ground (arith, safe)) (omega arith) (omega arith)
    ∙ sym (memmove_copies m dst src size j h)
