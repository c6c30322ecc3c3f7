-- ===== src/Base/Bits.antt =====
-- `&`, `|`, `~` and `1 << k` on machine words, read digit by digit.
use Prim.Native.Nat.{
  ℕ, zero, suc, ◌+◌, ◌-◌, ◌*◌, ◌/◌, ◌%◌, ◌^◌, ◌≤◌, ◌<◌, min, max, bit_and, bit_or, digits,
  bit_and-bitwise, bit_or-bitwise,
}
use mathlib.Core.Path.{◌≡◌, refl, ◌∙◌, ap, ap₂, sym}
use mathlib.Core.Bool.{Bool, true, false, not, ◌&&◌, ◌||◌}
use native.Mathlib.Omega.{arith}
use swag_os.Base.Tests.{◌==◌, if◌then◌else◌}

-- Bit `k` of `x`.
abbrev pub test_bit : ℕ → ℕ → Bool
test_bit x zero = x % 2 == 1
test_bit x (suc k) = test_bit (x / 2) k

-- `~x` at width `w`.
abbrev pub bit_not : ℕ → ℕ → ℕ
bit_not w x = 2 ^ w - 1 - x

-- One operation on digits `f`, with `z` for what is left once the first number has run out.
module _ (z : ℕ → ℕ) (f : ℕ → ℕ → ℕ) where
  rounds_enough : (b n m a : ℕ) → a ≤ n → a ≤ m → digits z f n a b ≡ digits z f m a b
  rounds_enough b zero zero zero p q = refl
  rounds_enough b zero zero (suc a) p q = absurd (omega arith)
  rounds_enough b (suc n) zero zero p q = refl
  rounds_enough b (suc n) zero (suc a) p q = absurd (omega arith)
  rounds_enough b zero (suc m) zero p q = refl
  rounds_enough b zero (suc m) (suc a) p q = absurd (omega arith)
  rounds_enough b (suc n) (suc m) zero p q = refl
  rounds_enough b (suc n) (suc m) (suc a) p q =
      let rest = rounds_enough (b / 2) n m (suc a / 2) (omega arith) (omega arith) in
      omega (arith, rest)

  lowest_digit :
      ((b : ℕ) → z b ≡ z (b / 2) * 2 + f 0 (b % 2))
      → (a b : ℕ) → digits z f a a b ≡ digits z f (a / 2) (a / 2) (b / 2) * 2 + f (a % 2) (b % 2)
  lowest_digit spent zero b = spent b
  lowest_digit spent (suc a) b =
      omega (arith, rounds_enough (b / 2) a (suc a / 2) (suc a / 2) (omega arith) (omega arith))

pub bit_and_step : (a b : ℕ) → bit_and a b ≡ bit_and (a / 2) (b / 2) * 2 + min (a % 2) (b % 2)
bit_and_step a b = omega (
  arith,
  lowest_digit (λ b. zero) min (λ b. omega arith) a b,
  bit_and-bitwise a b,
  bit_and-bitwise (a / 2) (b / 2),
)

pub bit_or_step : (a b : ℕ) → bit_or a b ≡ bit_or (a / 2) (b / 2) * 2 + max (a % 2) (b % 2)
bit_or_step a b = omega (
  arith,
  lowest_digit (λ b. b) max (λ b. omega arith) a b,
  bit_or-bitwise a b,
  bit_or-bitwise (a / 2) (b / 2),
)

pub test_bit-bit_and : (k a b : ℕ) → test_bit (bit_and a b) k ≡ (test_bit a k && test_bit b k)
test_bit-bit_and zero a b = ground (arith, bit_and_step a b)
test_bit-bit_and (suc k) a b =
    let half : bit_and a b / 2 ≡ bit_and (a / 2) (b / 2) = omega (arith, bit_and_step a b) in
    ap (λ x. test_bit x k) half ∙ test_bit-bit_and k (a / 2) (b / 2)

pub test_bit-bit_or : (k a b : ℕ) → test_bit (bit_or a b) k ≡ (test_bit a k || test_bit b k)
test_bit-bit_or zero a b = ground (arith, bit_or_step a b)
test_bit-bit_or (suc k) a b =
    let half : bit_or a b / 2 ≡ bit_or (a / 2) (b / 2) = omega (arith, bit_or_step a b) in
    ap (λ x. test_bit x k) half ∙ test_bit-bit_or k (a / 2) (b / 2)

pub test_bit-zero : (k : ℕ) → test_bit 0 k ≡ false
test_bit-zero zero = refl
test_bit-zero (suc k) = test_bit-zero k

double-half : (j : ℕ) → 2 ^ suc j / 2 ≡ 2 ^ j
double-half j = omega arith

pub test_bit-pow : (k j : ℕ) → test_bit (2 ^ j) k ≡ (j == k)
test_bit-pow zero zero = refl
test_bit-pow (suc k) zero = test_bit-zero k ∙ ground arith
test_bit-pow zero (suc j) = ground arith
test_bit-pow (suc k) (suc j) =
    ap (λ x. test_bit x k) (double-half j) ∙ test_bit-pow k j ∙ ground arith

-- Below its width, `~` flips every bit.
pub test_bit-bit_not :
    (k w x : ℕ) → k < w → x < 2 ^ w → test_bit (bit_not w x) k ≡ not (test_bit x k)
test_bit-bit_not k zero x p q = absurd (omega arith)
test_bit-bit_not zero (suc w) x p q = ground arith
test_bit-bit_not (suc k) (suc w) x p q =
    let half : bit_not (suc w) x / 2 ≡ bit_not w (x / 2) = omega arith in
    ap (λ y. test_bit y k) half ∙ test_bit-bit_not k w (x / 2) (omega arith) (omega arith)

pub bit_and-zero : (a : ℕ) (n : ℕ) → a ≤ n → bit_and a 0 ≡ 0
bit_and-zero zero n h = refl
bit_and-zero (suc a) zero h = absurd (omega arith)
bit_and-zero (suc a) (suc n) h =
    omega (arith, bit_and_step (suc a) 0, bit_and-zero (suc a / 2) n (omega arith))

double_if : (b : Bool) (p : ℕ) → (if b then p else 0) * 2 ≡ (if b then 2 * p else 0)
double_if true p = omega arith
double_if false p = refl

-- The test `x & (1 << j)` of the source.
pub bit_and-pow : (j x : ℕ) → bit_and x (2 ^ j) ≡ (if test_bit x j then 2 ^ j else 0)
bit_and-pow zero x = ground (arith, bit_and_step x 1, bit_and-zero (x / 2) (x / 2))
bit_and-pow (suc j) x =
    let power : 2 ^ suc j ≡ 2 * 2 ^ j = omega arith in
    let tail = ap (bit_and (x / 2)) (double-half j) ∙ bit_and-pow j (x / 2) in
    let shifted : bit_and x (2 ^ suc j) ≡ bit_and (x / 2) (2 ^ suc j / 2) * 2 =
      omega (arith, bit_and_step x (2 ^ suc j)) in
    shifted
    ∙ ap (λ (t : ℕ). t * 2) tail
    ∙ double_if (test_bit (x / 2) j) (2 ^ j)
    ∙ ap (λ (t : ℕ). if test_bit (x / 2) j then t else 0) (sym power)

pub pow_pos : (j : ℕ) → 0 < 2 ^ j
pow_pos zero = omega arith
pow_pos (suc j) = omega (arith, pow_pos j)

pub pow_lt : (j w : ℕ) → j < w → 2 ^ j < 2 ^ w
pow_lt j zero h = absurd (omega arith)
pow_lt zero (suc w) h = omega (arith, pow_pos w)
pow_lt (suc j) (suc w) h = omega (arith, pow_lt j w (omega arith))

pub bit_and-le : (n a b : ℕ) → a ≤ n → bit_and a b ≤ a
bit_and-le n zero b h = omega (arith, bit_and-bitwise 0 b)
bit_and-le zero (suc a) b h = absurd (omega arith)
bit_and-le (suc n) (suc a) b h =
    omega (arith, bit_and_step (suc a) b, bit_and-le n (suc a / 2) (b / 2) (omega arith))

pub bit_or-lt : (w a b : ℕ) → a < 2 ^ w → b < 2 ^ w → bit_or a b < 2 ^ w
bit_or-lt zero zero b p q = omega (arith, bit_or-bitwise 0 b)
bit_or-lt zero (suc a) b p q = absurd (omega arith)
bit_or-lt (suc w) a b p q =
    omega (arith, bit_or_step a b, bit_or-lt w (a / 2) (b / 2) (omega arith) (omega arith))

double-mask : (a m : ℕ) → bit_and a (2 * m) ≡ bit_and (a / 2) m * 2
double-mask a m =
    let half : 2 * m / 2 ≡ m = omega arith in
    ground (arith, bit_and_step a (2 * m), ap (bit_and (a / 2)) half)

double-product : (q p : ℕ) → q * (2 * p) ≡ 2 * (q * p)
double-product q p = omega arith

product-pow : (q k : ℕ) → q * 2 ^ suc k ≡ 2 * (q * 2 ^ k)
product-pow q k = ap (λ (t : ℕ). q * t) (omega arith) ∙ double-product q (2 ^ k)

-- `x & ((1 << w) - 1)` keeps the digits below `w`.
pub bit_and-low : (w q r : ℕ) → r < 2 ^ w → bit_and (q * 2 ^ w + r) (2 ^ w - 1) ≡ r
bit_and-low zero q r h = bit_and-zero (q * 2 ^ 0 + r) (q * 2 ^ 0 + r) (omega arith) ∙ omega arith
bit_and-low (suc w) q r h =
    let whole = product-pow q w in
    let mask : (2 ^ suc w - 1) / 2 ≡ 2 ^ w - 1 = omega (arith, pow_pos w) in
    let half : (q * 2 ^ suc w + r) / 2 ≡ q * 2 ^ w + r / 2 = omega (arith, whole) in
    ground (
      arith,
      whole,
      bit_and_step (q * 2 ^ suc w + r) (2 ^ suc w - 1),
      ap₂ bit_and half mask,
      bit_and-low w q (r / 2) (omega arith),
      pow_pos w,
    )

bit_and-all : (w q : ℕ) → q < 2 ^ w → bit_and q (2 ^ w - 1) ≡ q
bit_and-all w q h = ap (λ x. bit_and x (2 ^ w - 1)) (omega arith) ∙ bit_and-low w 0 q h

product-swap : (p m : ℕ) → 2 * p * m ≡ 2 * (p * m)
product-swap p m = omega arith

-- Ones at the digits from `k` on round down to a multiple of `2 ^ k`.
pub bit_and-high :
    (k w q r : ℕ)
    → q < 2 ^ w
    → r < 2 ^ k
    → bit_and (q * 2 ^ k + r) (2 ^ k * (2 ^ w - 1)) ≡ q * 2 ^ k
bit_and-high zero w q r small h =
    ap₂ bit_and (omega arith) (omega arith) ∙ bit_and-all w q small ∙ omega arith
bit_and-high (suc k) w q r small h =
    let whole = product-pow q k in
    let half : (q * 2 ^ suc k + r) / 2 ≡ q * 2 ^ k + r / 2 = omega (arith, whole) in
    let mask : 2 ^ suc k * (2 ^ w - 1) ≡ 2 * (2 ^ k * (2 ^ w - 1)) =
      ap (λ x. x * (2 ^ w - 1)) (omega arith) ∙ product-swap (2 ^ k) (2 ^ w - 1) in
    ground (
      arith,
      whole,
      ap (bit_and (q * 2 ^ suc k + r)) mask,
      double-mask (q * 2 ^ suc k + r) (2 ^ k * (2 ^ w - 1)),
      ap (λ x. bit_and x (2 ^ k * (2 ^ w - 1))) half,
      bit_and-high k w q (r / 2) small (omega arith),
    )

bit_or-zero : (n a : ℕ) → a ≤ n → bit_or a 0 ≡ a
bit_or-zero n zero h = omega (arith, bit_or-bitwise 0 0)
bit_or-zero zero (suc a) h = absurd (omega arith)
bit_or-zero (suc n) (suc a) h =
    omega (arith, bit_or_step (suc a) 0, bit_or-zero n (suc a / 2) (omega arith))

-- Setting bits below the lowest one adds.
pub bit_or-below : (k q f : ℕ) → f < 2 ^ k → bit_or (q * 2 ^ k) f ≡ q * 2 ^ k + f
bit_or-below zero q f h =
    ap₂ bit_or (omega arith) (omega arith) ∙ bit_or-zero q q (omega arith) ∙ omega arith
bit_or-below (suc k) q f h =
    let whole = product-pow q k in
    let half : q * 2 ^ suc k / 2 ≡ q * 2 ^ k = omega (arith, whole) in
    ground (
      arith,
      whole,
      bit_or_step (q * 2 ^ suc k) f,
      ap (λ t. bit_or t (f / 2)) half,
      bit_or-below k q (f / 2) (omega arith),
    )
