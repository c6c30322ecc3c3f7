-- ===== src/Pmm/Updates.antt =====
-- `physical_frame_checkout` and `physical_frame_checkin` on the set of frames in use, the shape of
-- the bitmap and the count of free frames.
use swag_os.Base.{
  ℕ, ◌+◌, ◌/◌, ◌%◌, ◌^◌, ◌-◌, ◌≤◌, ◌<◌, ◌≡◌, refl, sym, ◌∙◌, bit_and, bit_or, Bool, true, false,
  not, ◌&&◌, ◌||◌, ◌==◌, ==_iff, ==_ne, ==_self, Bool-cases, inl, inr, length, get_or, set, List,
  arith, get_or-set_self, get_or-set_ne, length-set,
}
use swag_os.Base.Bits.{bit_not, bit_and-le, bit_or-lt, pow_lt}
use swag_os.Base.Outcome.{ok, panic}
use swag_os.Pmm.{FrameManager, word, hugepgsize, physical_frame_checkout, physical_frame_checkin}
use swag_os.Pmm.View.{
  in_use, count_free, count_free-le, count_free-take, frames, HasShape, entry_index_lem,
  inner_entry_index_lem, bit_is_set-test_bit, in_use-set_bit, in_use-clear_bit,
}

-- The frames below 1 GB are kept in use, and the counter counts the free frames.
pub record IsValid (m : FrameManager) : Type 0 where
  pub shape : HasShape m
  pub counted : m.free_framecount ≡ count_free (in_use m) frames
  pub kernel : (k : ℕ) → k < 512 → in_use m k ≡ true

set-fits :
    (l : List ℕ) (i v j bound : ℕ)
    → v < bound
    → get_or l j 0 < bound
    → i < length l
    → get_or (set l i v) j 0 < bound
set-fits l i v j bound small old inside = elim (Bool-cases (i == j)) [
  | inl e ↦ let same : i ≡ j = (==_iff i j).0 e in rw (← same, get_or-set_self l i v 0 inside) small
  | inr e ↦ rw (get_or-set_ne l i j v 0 (ground arith)) old
]

-- What a checkout of frame `n` leaves.
pub record CheckedOut (m : FrameManager) (n : ℕ) (m' : FrameManager) : Type 0 where
  pub shape : HasShape m'
  pub taken : (k : ℕ) → in_use m' k ≡ (n == k || in_use m k)
  pub count : m'.free_framecount ≡ (m.free_framecount + 2 ^ 32 - 1) % 2 ^ 32
  pub phase : m'.init_success ≡ m.init_success

pub checkout-ok :
    (m : FrameManager) (a : ℕ)
    → HasShape m
    → a / hugepgsize < frames
    → in_use m (a / hugepgsize) ≡ false
    → (m' : FrameManager) × (physical_frame_checkout m a ≡ ok m') × CheckedOut m (a / hugepgsize) m'
unfolding physical_frame_checkout
checkout-ok m a shape inside free = (
  record m {
    bitmap = set m.bitmap (n / 64) (bit_or (word m (n / 64)) (2 ^ (n % 64)));
    free_framecount = (m.free_framecount + 2 ^ 32 - 1) % 2 ^ 32;
  },
  rw (entry_index_lem a, inner_entry_index_lem a, bit_is_set-test_bit, free),
  record {
    shape = record {
      entries = length-set m.bitmap (n / 64) _ ∙ shape.entries;
      fits = λ i.
          set-fits m.bitmap (n / 64) _ i (2 ^ 64)
            (bit_or-lt 64 (word m (n / 64)) (2 ^ (n % 64)) (shape.fits (n / 64))
              (pow_lt (n % 64) 64 (omega arith)))
            (shape.fits i) here;
    };
    taken = λ k. in_use-set_bit m n k here;
    count = refl;
    phase = refl;
  },
)
  where
    n : ℕ
    n = a / hugepgsize

    here : n / 64 < length m.bitmap
    here = rw shape.entries (omega arith)

pub checkout-panic :
    (m : FrameManager) (a : ℕ)
    → in_use m (a / hugepgsize) ≡ true
    → physical_frame_checkout m a ≡ panic
unfolding physical_frame_checkout
checkout-panic m a used = rw (entry_index_lem a, inner_entry_index_lem a, bit_is_set-test_bit, used)

-- What a checkin of frame `n` leaves.
pub record CheckedIn (m : FrameManager) (n : ℕ) (m' : FrameManager) : Type 0 where
  pub shape : HasShape m'
  pub freed : (k : ℕ) → in_use m' k ≡ (not (n == k) && in_use m k)
  pub count : m'.free_framecount ≡ (m.free_framecount + 1) % 2 ^ 32
  pub phase : m'.init_success ≡ m.init_success

pub checkin_lem :
    (m : FrameManager) (a : ℕ)
    → HasShape m
    → a / hugepgsize < frames
    → CheckedIn m (a / hugepgsize) (physical_frame_checkin m a)
unfolding physical_frame_checkin
checkin_lem m a shape inside =
    rw (entry_index_lem a, inner_entry_index_lem a)
      (record {
        shape = record {
          entries = length-set m.bitmap (n / 64) _ ∙ shape.entries;
          fits = λ i. set-fits m.bitmap (n / 64) _ i (2 ^ 64) cleared (shape.fits i) here;
        };
        freed = λ k. in_use-clear_bit m n k here;
        count = refl;
        phase = refl;
      })
  where
    n : ℕ
    n = a / hugepgsize

    here : n / 64 < length m.bitmap
    here = rw shape.entries (omega arith)

    cleared : bit_and (word m (n / 64)) (bit_not 64 (2 ^ (n % 64))) < 2 ^ 64
    cleared = omega (
      arith,
      bit_and-le (word m (n / 64)) (word m (n / 64)) (bit_not 64 (2 ^ (n % 64))) (omega arith),
      shape.fits (n / 64),
    )

-- A checkout of a free frame above 1 GB keeps the manager valid.
pub CheckedOut-IsValid :
    (m m' : FrameManager) (n : ℕ)
    → IsValid m
    → CheckedOut m n m'
    → n < frames
    → in_use m n ≡ false
    → IsValid m'
CheckedOut-IsValid m m' n v out inside free = record {
  shape = out.shape;
  counted = omega (arith, drop, out.count, v.counted, count_free-le (in_use m) frames);
  kernel = λ k low. out.taken k ∙ rw (v.kernel k low) (or_true (n == k));
}
  where
    or_true : (b : Bool) → (b || true) ≡ true
    or_true true = refl
    or_true false = refl

    drop : count_free (in_use m') frames + 1 ≡ count_free (in_use m) frames
    drop =
        count_free-take (in_use m) (in_use m') n frames inside free (out.taken n ∙ rw (==_self n))
          (λ k ne. out.taken k ∙ rw (==_ne n k ne))

-- A checkin of a frame in use above 1 GB keeps the manager valid.
pub CheckedIn-IsValid :
    (m m' : FrameManager) (n : ℕ)
    → IsValid m
    → CheckedIn m n m'
    → n < frames
    → 512 ≤ n
    → in_use m n ≡ true
    → IsValid m'
CheckedIn-IsValid m m' n v back inside high used = record {
  shape = back.shape;
  counted = omega (arith, rise, back.count, v.counted, count_free-le (in_use m') frames);
  kernel = λ k low. back.freed k ∙ rw (v.kernel k low, ==_ne n k (omega arith));
}
  where
    rise : count_free (in_use m) frames + 1 ≡ count_free (in_use m') frames
    rise =
        count_free-take (in_use m') (in_use m) n frames inside (back.freed n ∙ rw (==_self n)) used
          (λ k ne. sym (back.freed k ∙ rw (==_ne n k ne)))
