-- ===== src/Libc/Numbers/Print.antt =====
-- What utoa and itoa of src/libc/itoa.c print is read as the number that was printed.
use swag_os.Base.{
  ℕ, zero, suc, ◌+◌, ◌-◌, ◌^◌, ◌<◌, ◌≡◌, ◌≢◌, refl, sym, ap, ◌∙◌, inr, Bool, true, false, ==_ne,
  arith,
}
use swag_os.Base.Outcome.{ok}
use swag_os.Libc.{Bytes, store_byte}
use swag_os.Libc.Copy.{store_byte-same, store_byte-other}
use swag_os.Libc.Numbers.{write_digits, reverse, put_sign, utoa, itoa, char_digit, read_digits}
use swag_os.Libc.Numbers.Digits.{low_first, read-reversed, Written, write_digits_lem}
use swag_os.Libc.Numbers.Turn.{reverse-outside, reverse-inside}

-- A string of `n` digits, with its end, that is read as a number.
abbrev pub Printed : ℕ → ℕ → Bytes → ℕ → Type 0
Printed num base s n =
    (0 < n) × ((k : ℕ) → k < n → s k ≢ 0) × (s n ≡ 0) × (read_digits n 0 base s 0 ≡ num)

utoa-zero :
    (fuel base : ℕ) (str : Bytes)
    → (s : Bytes) × (n : ℕ) × (utoa fuel 0 str base ≡ ok s) × Printed 0 base s n
unfolding utoa read_digits char_digit store_byte
utoa-zero fuel base str = (
  store_byte (store_byte str 0 48) 1 0,
  1,
  refl,
  (omega arith, (λ k lt z. ground (arith, lt, z)), refl, omega arith),
)

utoa-some :
    (fuel num base n : ℕ) (str s : Bytes)
    → num ≢ 0
    → write_digits fuel num base 0 str ≡ ok (s, n)
    → utoa fuel num str base ≡ ok (reverse (store_byte s n 0) n)
unfolding utoa
utoa-some fuel num base n str s ne e = rw (==_ne num 0 ne, e) refl

digits-some : (num base n : ℕ) (s : Bytes) → num ≢ 0 → low_first n 0 base s 0 ≡ num → 0 < n
digits-some num base zero s ne value = absurd (ne (sym value))
digits-some num base (suc n) s ne value = omega arith

reversed-Printed :
    (num base n : ℕ) (str s : Bytes)
    → num ≢ 0
    → Written num base 0 str s n
    → Printed num base (reverse (store_byte s n 0) n) n
unfolding reverse
reversed-Printed num base n str s ne w =
    let some_digit : 0 < n = digits-some num base n s ne w.value in
    let t = reverse (store_byte s n 0) n in
    let turned : (k : ℕ) → k < n → t (0 + k) ≡ s (n - 1 - k) = λ k lt.
      ap t (omega arith)
      ∙ reverse-inside n 0 (n - 1) k (store_byte s n 0) (omega arith) (omega (arith, lt))
          (omega arith)
      ∙ store_byte-other s n 0 (0 + (n - 1) - k) (λ z. omega (arith, z, lt))
      ∙ ap s (omega arith) in
    (
      some_digit,
      (λ k lt z.
          w.nonzero (n - 1 - k) (omega (arith, lt))
            (ap s (omega arith) ∙ sym (turned k lt) ∙ ap t (omega arith) ∙ z)),
      reverse-outside n 0 (n - 1) n (store_byte s n 0) (inr (omega (arith, some_digit)))
          ∙ store_byte-same s n 0,
      read-reversed n 0 base s t 0 turned ∙ w.value,
    )

-- utoa of any number, for a base from 2 to 36 and as soon as it may take more rounds than the number,
-- returns a string: digits that are not zero bytes, then a zero byte; read in that base, the highest
-- digit first, they give the number back.
pub read-utoa :
    (fuel num b : ℕ) (str : Bytes)
    → num < fuel
    → b < 35
    → (s : Bytes) × (n : ℕ) × (utoa fuel num str (suc (suc b)) ≡ ok s)
      × Printed num (suc (suc b)) s n
read-utoa fuel zero b str enough small = utoa-zero fuel (suc (suc b)) str
read-utoa fuel (suc num) b str enough small =
    let base = suc (suc b) in
    let ne : suc num ≢ 0 = λ z. omega (arith, z) in
    let (s, n, e, w) = write_digits_lem fuel (suc num) b 0 str enough small in
    let same : 0 + n ≡ n = omega arith in
    (
      reverse (store_byte s n 0) n,
      n,
      utoa-some fuel (suc num) base n str s ne (e ∙ ap (λ k. ok (s, k)) same),
      reversed-Printed (suc num) base n str s ne w,
    )

-- itoa of a number that is not negative is utoa.
itoa-utoa :
    (fuel num base : ℕ) (stays : Bool) (str : Bytes)
    → itoa fuel stays false num str base ≡ utoa fuel num str base
unfolding itoa utoa put_sign
itoa-utoa fuel num base stays str = refl

-- itoa of a negative number in base 10, the smallest int excepted.
itoa-negative :
    (fuel num n : ℕ) (stays : Bool) (str s : Bytes)
    → num ≢ 0
    → num < 2 ^ 31
    → write_digits fuel num 10 0 str ≡ ok (s, n)
    → itoa fuel stays true num str 10
      ≡ ok (reverse (store_byte (store_byte s n 45) (suc n) 0) (suc n))
unfolding itoa put_sign
itoa-negative fuel num n stays str s ne lt e =
    rw (==_ne num 0 ne, ==_ne num (2 ^ 31) (λ z. omega (arith, z, lt)), e) refl

-- A sign, then a string of `n` digits with its end.
abbrev pub PrintedNegative : ℕ → ℕ → Bytes → ℕ → Type 0
PrintedNegative num base s n =
    (s 0 ≡ 45)
    × (0 < n)
    × ((k : ℕ) → k < n → s (1 + k) ≢ 0)
    × (s (suc n) ≡ 0)
    × (read_digits n 1 base s 0 ≡ num)

reversed-PrintedNegative :
    (num base n : ℕ) (str s : Bytes)
    → num ≢ 0
    → Written num base 0 str s n
    → PrintedNegative num base (reverse (store_byte (store_byte s n 45) (suc n) 0) (suc n)) n
unfolding reverse
reversed-PrintedNegative num base n str s ne w =
    let signed = store_byte s n 45 in
    let t = reverse (store_byte signed (suc n) 0) (suc n) in
    let turned : (k : ℕ) → k < n → t (1 + k) ≡ s (n - 1 - k) = λ k lt.
      reverse-inside (suc n) 0 (suc n - 1) (1 + k) (store_byte signed (suc n) 0) (omega arith)
        (omega (arith, lt)) (omega arith)
      ∙ store_byte-other signed (suc n) 0 (0 + (suc n - 1) - (1 + k)) (λ z. omega (arith, z, lt))
      ∙ store_byte-other s n 45 (0 + (suc n - 1) - (1 + k)) (λ z. omega (arith, z, lt))
      ∙ ap s (omega arith) in
    (
      reverse-inside (suc n) 0 (suc n - 1) 0 (store_byte signed (suc n) 0) (omega arith)
            (omega arith) (omega arith)
          ∙ store_byte-other signed (suc n) 0 (0 + (suc n - 1) - 0) (λ z. omega (arith, z))
          ∙ ap signed (omega arith)
          ∙ store_byte-same s n 45,
      digits-some num base n s ne w.value,
      (λ k lt z.
          w.nonzero (n - 1 - k) (omega (arith, lt)) (ap s (omega arith) ∙ sym (turned k lt) ∙ z)),
      reverse-outside (suc n) 0 (suc n - 1) (suc n) (store_byte signed (suc n) 0)
            (inr (omega arith))
          ∙ store_byte-same signed (suc n) 0,
      read-reversed n 1 base s t 0 turned ∙ w.value,
    )

-- itoa in base 10 of a negative int other than the smallest one, as soon as it may take more rounds than
-- the distance of the number from 0, returns a string: a minus sign, digits that are not zero bytes, then a
-- zero byte; read in base 10, the highest digit first, the digits give the distance from 0.
pub read-itoa :
    (fuel num : ℕ) (stays : Bool) (str : Bytes)
    → num < fuel
    → num ≢ 0
    → num < 2 ^ 31
    → (s : Bytes) × (n : ℕ) × (itoa fuel stays true num str 10 ≡ ok s) × PrintedNegative num 10 s n
read-itoa fuel num stays str enough ne lt =
    let (s, n, e, w) = write_digits_lem fuel num 8 0 str enough (omega arith) in
    let same : 0 + n ≡ n = omega arith in
    (
      reverse (store_byte (store_byte s n 45) (suc n) 0) (suc n),
      n,
      itoa-negative fuel num n stays str s ne lt (e ∙ ap (λ k. ok (s, k)) same),
      reversed-PrintedNegative num 10 n str s ne w,
    )
