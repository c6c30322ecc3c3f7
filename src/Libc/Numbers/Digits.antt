-- ===== src/Libc/Numbers/Digits.antt =====
-- The digits that the loops of src/libc/itoa.c write.
use swag_os.Base.{
  ℕ, zero, suc, ◌+◌, ◌-◌, ◌*◌, ◌/◌, ◌%◌, ◌<◌, ◌≡◌, ◌≢◌, refl, sym, ap, ap₂, ◌∙◌, ==_ne, arith,
}
use native.Mathlib.Nat.{div-add-mod, mod-lt, zero-lt-suc}
use swag_os.Base.Outcome.{ok}
use swag_os.Libc.{Bytes, store_byte}
use swag_os.Libc.Copy.{store_byte-same, store_byte-other}
use swag_os.Libc.Numbers.{digit_char, write_digits, char_digit, read_digits}

char-digit : (d : ℕ) → d < 36 → char_digit (digit_char d) ≡ d
unfolding char_digit digit_char
char-digit d lt = ground (arith, lt)

char-some : (d : ℕ) → digit_char d ≢ 0
unfolding digit_char
char-some d z = ground (arith, z)

-- The number of `n` digits from position `i` on whose lowest comes first, with `acc` above them.
abbrev pub low_first : ℕ → ℕ → ℕ → Bytes → ℕ → ℕ
low_first zero i base s acc = acc
low_first (suc n) i base s acc = char_digit (s i) + base * low_first n (suc i) base s acc

low_first-top :
    (n i base : ℕ) (s : Bytes) (acc : ℕ)
    → low_first (suc n) i base s acc ≡ low_first n i base s (acc * base + char_digit (s (i + n)))
low_first-top zero i base s acc =
    let same : i ≡ i + 0 = omega arith in
    let digit : char_digit (s i) ≡ char_digit (s (i + 0)) = ap (λ k. char_digit (s k)) same in
    omega (arith, digit)
low_first-top (suc n) i base s acc =
    ap (λ x. char_digit (s i) + base * x)
      (low_first-top n (suc i) base s acc
        ∙ ap (λ k. low_first n (suc i) base s (acc * base + char_digit (s k))) (omega arith))

-- Reading a number whose digits stand the other way round.
pub read-reversed :
    (n i base : ℕ) (s t : Bytes) (acc : ℕ)
    → ((k : ℕ) → k < n → t (i + k) ≡ s (n - 1 - k))
    → read_digits n i base t acc ≡ low_first n 0 base s acc
unfolding read_digits
read-reversed zero i base s t acc turned = refl
read-reversed (suc n) i base s t acc turned =
    read-reversed n (suc i) base s t (acc * base + char_digit (t i))
      (λ k lt. ap t (omega arith) ∙ turned (suc k) (omega (arith, lt)) ∙ ap s (omega arith))
    ∙ ap (λ c. low_first n 0 base s (acc * base + char_digit c))
        (ap t (omega arith) ∙ turned 0 (omega arith) ∙ ap s (omega arith))
    ∙ sym (low_first-top n 0 base s acc)

quotient-lt : (num b : ℕ) → num ≢ 0 → num / suc (suc b) < num
quotient-lt num b ne = omega (arith, ne, div-add-mod num (suc (suc b)))

digit-lt : (num b : ℕ) → num % suc (suc b) < suc (suc b)
digit-lt num b = mod-lt num (zero-lt-suc (suc b))

-- What the loop of utoa writes: the digits of the number, its lowest first.
pub record Written (num base i : ℕ) (str s : Bytes) (n : ℕ) : Type 0 where
  pub value : low_first n i base s 0 ≡ num
  pub nonzero : (k : ℕ) → k < n → s (i + k) ≢ 0
  pub kept : (k : ℕ) → k < i → s k ≡ str k

write-step :
    (fuel num base i : ℕ) (str : Bytes)
    → num ≢ 0
    → write_digits (suc fuel) num base i str
      ≡ write_digits fuel (num / base) base (suc i) (store_byte str i (digit_char (num % base)))
unfolding write_digits
write-step fuel num base i str ne = rw (==_ne num 0 ne) refl

write-done : (fuel base i : ℕ) (str : Bytes) → write_digits (suc fuel) 0 base i str ≡ ok (str, i)
unfolding write_digits
write-done fuel base i str = refl

-- Bytes that are not zero, from a first one on.
some-from :
    (s : Bytes) (i n : ℕ)
    → s i ≢ 0
    → ((k : ℕ) → k < n → s (suc i + k) ≢ 0)
    → (k : ℕ) → k < suc n
    → s (i + k) ≢ 0
some-from s i n first rest zero lt z = first (ap s (omega arith) ∙ z)
some-from s i n first rest (suc k) lt z = rest k (omega (arith, lt)) (ap s (omega arith) ∙ z)

pub write_digits_lem :
    (fuel num b i : ℕ) (str : Bytes)
    → num < fuel
    → b < 35
    → (s : Bytes) × (n : ℕ) × (write_digits fuel num (suc (suc b)) i str ≡ ok (s, i + n))
      × Written num (suc (suc b)) i str s n
write_digits_lem zero num b i str enough small = absurd (omega (arith, enough))
write_digits_lem (suc fuel) zero b i str enough small = (
  str,
  0,
  write-done fuel (suc (suc b)) i str ∙ ap (λ k. ok (str, k)) (omega arith),
  record { value = refl; nonzero = λ k lt. absurd (omega (arith, lt)); kept = λ k lt. refl },
)
write_digits_lem (suc fuel) (suc num) b i str enough small =
    let base = suc (suc b) in
    let ne : suc num ≢ 0 = λ z. omega (arith, z) in
    let d = suc num % base in
    let str1 = store_byte str i (digit_char d) in
    let (s, n, e, w) =
      write_digits_lem fuel (suc num / base) b (suc i) str1
        (omega (arith, enough, quotient-lt (suc num) b ne)) small in
    let first : s i ≡ digit_char d =
      w.kept i (omega arith) ∙ store_byte-same str i (digit_char d) in
    let digit : char_digit (s i) ≡ d =
      ap char_digit first ∙ char-digit d (omega (arith, small, digit-lt (suc num) b)) in
    (
      s,
      suc n,
      write-step fuel (suc num) base i str ne ∙ e ∙ ap (λ k. ok (s, k)) (omega arith),
      record {
        value = ap₂ (λ x y. x + base * y) digit w.value ∙ omega (arith, div-add-mod (suc num) base);
        nonzero = some-from s i n (λ z. char-some d (sym first ∙ z)) w.nonzero;
        kept = λ k lt.
            w.kept k (omega (arith, lt))
            ∙ store_byte-other str i (digit_char d) k (λ z. omega (arith, z, lt));
      },
    )
