-- ===== src/Libc/Numbers.antt =====
-- utoa, itoa and reverse of src/libc/itoa.c, on the memory from the address of the string on.
pub mod Digits
pub mod Turn
pub mod Print
use swag_os.Base.{
  ℕ, zero, suc, ◌+◌, ◌-◌, ◌*◌, ◌/◌, ◌%◌, ◌^◌, ◌<◌, ◌≤◌, ◌≡◌, ◌≢◌, refl, sym, ap, ap₂, ◌∙◌, ◌⊎◌, inl,
  inr, Bool, true, false, ◌==◌, ltb, if◌then◌else◌, not, ◌&&◌, Bool-cases, ltb→lt, lt→ltb, ltb_ge,
  ==_ne, ==_iff, arith,
}
use native.Mathlib.Nat.{div-add-mod, mod-lt, zero-lt-suc}
use swag_os.Base.Outcome.{Outcome, ok, hang, ◌>>=◌}
use swag_os.Libc.{Bytes, store_byte}
use swag_os.Libc.Copy.{store_byte-same, store_byte-other}

unfoldable pub digit_char : ℕ → ℕ
digit_char rem = if ltb 9 rem then rem - 10 + 97 else rem + 48

-- The loop of utoa from position `i` on; every round divides the number, here within `fuel` rounds.
unfoldable pub write_digits : ℕ → ℕ → ℕ → ℕ → Bytes → Outcome (Bytes × ℕ)
unfolding digit_char store_byte
write_digits zero num base i str = hang
write_digits (suc fuel) num base i str =
    let rest =
      write_digits fuel (num / base) base (suc i) (store_byte str i (digit_char (num % base))) in
    if num == 0 then ok (str, i) else rest

-- The loop of reverse, at most `fuel` rounds.
unfoldable pub reverse_from : ℕ → ℕ → ℕ → Bytes → Bytes
unfolding store_byte
reverse_from zero start end str = str
reverse_from (suc fuel) start end str =
    let rest =
      reverse_from fuel (suc start) (end - 1)
        (store_byte (store_byte str start (str end)) end (str start)) in
    if ltb start end then rest else str

-- Two positions meet in fewer rounds than there are bytes.
unfoldable pub reverse : Bytes → ℕ → Bytes
unfolding reverse_from
reverse str length = reverse_from length 0 (length - 1) str

unfoldable pub utoa : ℕ → ℕ → Bytes → ℕ → Outcome Bytes
unfolding write_digits store_byte reverse
utoa fuel num str base =
    if num == 0
    then ok (store_byte (store_byte str 0 48) 1 0)
    else (write_digits fuel num base 0 str >>= λ r. ok (reverse (store_byte r.0 r.1 0) r.1))

-- The loop of itoa on a negative number, of which `num` is the distance from 0: remainders are negative,
-- and the character is 48 less a digit.
unfoldable pub write_negative : ℕ → ℕ → ℕ → ℕ → Bytes → Outcome (Bytes × ℕ)
unfolding store_byte
write_negative zero num base i str = hang
write_negative (suc fuel) num base i str =
    let rest =
      write_negative fuel (num / base) base (suc i)
        (store_byte str i ((48 + 256 - num % base % 256) % 256)) in
    if num == 0 then ok (str, i) else rest

unfoldable pub put_sign : Bool → Bytes × ℕ → Bytes × ℕ
unfolding store_byte
put_sign is_negative r = if is_negative then (store_byte r.0 r.1 45, suc r.1) else r

-- An int is a sign and its distance from 0. `stays` says whether the smallest int is still negative after
-- `num = -num`, which C leaves undefined.
unfoldable pub itoa : ℕ → Bool → Bool → ℕ → Bytes → ℕ → Outcome Bytes
unfolding write_digits write_negative put_sign store_byte reverse
itoa fuel stays neg num str base =
    let is_negative = neg && base == 10 in
    let still = neg && not (is_negative && not (num == 2 ^ 31 && stays)) in
    if num == 0
    then ok (store_byte (store_byte str 0 48) 1 0)
    else ((if still then write_negative fuel num base 0 str else write_digits fuel num base 0 str)
        >>= λ r. let w = put_sign is_negative r in ok (reverse (store_byte w.0 w.1 0) w.1))

-- The value of a digit.
pub char_digit : ℕ → ℕ
char_digit c = if ltb 57 c then c + 10 - 97 else c - 48

-- The number that `n` digits from position `i` on are read as, after those that gave `acc`.
pub read_digits : ℕ → ℕ → ℕ → Bytes → ℕ → ℕ
read_digits zero i base s acc = acc
read_digits (suc n) i base s acc = read_digits n (suc i) base s (acc * base + char_digit (s i))
