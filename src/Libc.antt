-- ===== src/Libc.antt =====
-- memcpy.c, memmove.c, memset.c, memcmp.c and strlen.c of src/libc, on a memory of bytes.
pub mod Copy
pub mod Fill
pub mod Numbers
mod Tests
use swag_os.Base.{
  ℕ, zero, suc, ◌+◌, ◌-◌, ◌*◌, ◌/◌, ◌%◌, ◌^◌, ◌<◌, ◌≤◌, ◌≡◌, ◌≢◌, refl, sym, ap, ◌∙◌, ◌⊎◌, inl, inr,
  Bool, true, false, ◌==◌, ltb, if◌then◌else◌, Bool-cases, ltb→lt, ==_self, ==_ne, arith,
}
use swag_os.Base.Outcome.{Outcome, ok, hang}

abbrev pub Bytes : Type 0
Bytes = ℕ → ℕ

unfoldable pub store_byte : Bytes → ℕ → ℕ → Bytes
store_byte m a v b = if b == a then v else m b

-- The loop of memcpy and the first loop of memmove, from byte `i` on with `n` bytes left.
unfoldable pub copy_up : ℕ → ℕ → ℕ → ℕ → Bytes → Bytes
unfolding store_byte
copy_up zero i dst src m = m
copy_up (suc n) i dst src m = copy_up n (suc i) dst src (store_byte m (dst + i) (m (src + i)))

-- The second loop of memmove, from its last byte down.
unfoldable pub copy_down : ℕ → ℕ → ℕ → Bytes → Bytes
unfolding store_byte
copy_down zero dst src m = m
copy_down (suc n) dst src m = copy_down n dst src (store_byte m (dst + n) (m (src + n)))

unfoldable pub memcpy : Bytes → ℕ → ℕ → ℕ → Bytes
unfolding copy_up
memcpy m dst src size = copy_up size 0 dst src m

unfoldable pub memmove : Bytes → ℕ → ℕ → ℕ → Bytes
unfolding copy_up copy_down
memmove m dst src size = if ltb dst src then copy_up size 0 dst src m else copy_down size dst src m

unfoldable pub memset_from : ℕ → ℕ → ℕ → ℕ → Bytes → Bytes
unfolding store_byte
memset_from zero i buf value m = m
memset_from (suc n) i buf value m =
    memset_from n (suc i) buf value (store_byte m (buf + i) (value % 256))

unfoldable pub memset : Bytes → ℕ → ℕ → ℕ → Bytes
unfolding memset_from
memset m buf value size = memset_from size 0 buf value m

-- The result of memcmp: -1, 0 or 1.
pub data Comparison : Type 0 where
  less : Comparison
  equal : Comparison
  more : Comparison

unfoldable pub memcmp_from : ℕ → ℕ → ℕ → ℕ → Bytes → Comparison
memcmp_from zero i a b m = equal
memcmp_from (suc n) i a b m =
    let rest = memcmp_from n (suc i) a b m in
    if ltb (m (a + i)) (m (b + i)) then less else if ltb (m (b + i)) (m (a + i)) then more else rest

unfoldable pub memcmp : Bytes → ℕ → ℕ → ℕ → Comparison
unfolding memcmp_from
memcmp m a b size = memcmp_from size 0 a b m

-- The loop of strlen at length `len`; it ends at a zero byte, here within `fuel` bytes.
unfoldable pub strlen_from : ℕ → ℕ → ℕ → Bytes → Outcome ℕ
strlen_from zero len str m = hang
strlen_from (suc fuel) len str m =
    let rest = strlen_from fuel (suc len) str m in if m (str + len) == 0 then ok len else rest

unfoldable pub strlen : ℕ → Bytes → ℕ → Outcome ℕ
unfolding strlen_from
strlen fuel m str = strlen_from fuel 0 str m
