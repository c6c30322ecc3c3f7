-- ===== src/KernelHeap/Ranges.antt =====
-- The address ranges of the sections: two sections that are handed out never overlap.
use swag_os.Base.{
  ℕ, zero, suc, ◌+◌, ◌*◌, ◌/◌, ◌%◌, ◌≤◌, ◌<◌, ◌≡◌, ◌≢◌, ◌⊎◌, inl, inr, ap, sym, ◌∙◌, true, false,
  ◌==◌, Bool-cases, ltb, arith,
}
use mathlib.Core.Bool.{false≢true}
use swag_os.KernelHeap.{KernelHeap, kernel_heap_len}
use swag_os.KernelHeap.Invariant.{used, taken, IsConsistent}

abbrev pub size : KernelHeap → ℕ → ℕ
size h j = (h.heap_tree j).size

abbrev pub offset : KernelHeap → ℕ → ℕ
offset h j = (h.heap_tree j).offset

-- A section from index 2 on is the lower or the upper half of its parent.
pub record HasHalves (h : KernelHeap) : Type 0 where
  pub halves : (j : ℕ) → 2 ≤ j → j < kernel_heap_len → size h j + size h j ≡ size h (j / 2)
  pub placed :
      (j : ℕ) → 2 ≤ j → j < kernel_heap_len → offset h j ≡ offset h (j / 2) + (j % 2) * size h j

-- Section `j` lies strictly below section `i`.
pub data Below (i : ℕ) : ℕ → Type 0 where
  child : {j : ℕ} → 2 ≤ j → j / 2 ≡ i → Below i j
  deeper : {j : ℕ} → 2 ≤ j → Below i (j / 2) → Below i j

abbrev pub Disjoint : KernelHeap → ℕ → ℕ → Type 0
Disjoint h i j = (offset h i + size h i ≤ offset h j) ⊎ (offset h j + size h j ≤ offset h i)

-- Of two sections that are handed out, neither lies below the other.
taken_not-Below :
    (h : KernelHeap) (i j : ℕ) → IsConsistent h → taken h i ≡ true → Below i j → used h j ≡ false
taken_not-Below h i j ok t (child le e) = ok.below_free j (omega arith) (ap (taken h) e ∙ t)
taken_not-Below h i j ok t (deeper le b) = elim (Bool-cases (used h j)) [
  | inr free ↦ free
  | inl up ↦
      absurd (false≢true (sym (taken_not-Below h i (j / 2) ok t b) ∙ ok.upward j (omega arith) up))
]

siblings :
    (h : KernelHeap) (i j : ℕ)
    → HasHalves h
    → j < kernel_heap_len
    → 2 ≤ i
    → 2 ≤ j
    → i / 2 ≡ j / 2
    → i < j
    → Disjoint h i j
siblings h i j w inside pi pj same lt = inl (
    let s : size h i + size h i ≡ size h j + size h j =
      w.halves i pi (omega arith) ∙ ap (size h) same ∙ sym (w.halves j pj inside) in
    let low : i % 2 ≡ 0 = omega arith in
    let high : j % 2 ≡ 1 = omega arith in
    let a = w.placed i pi (omega arith) in
    let b = w.placed j pj inside in
    let at_low : offset h i ≡ offset h (i / 2) + 0 * size h i =
      a ∙ ap (λ (t : ℕ). offset h (i / 2) + t * size h i) low in
    let at_high : offset h j ≡ offset h (j / 2) + 1 * size h j =
      b ∙ ap (λ (t : ℕ). offset h (j / 2) + t * size h j) high in
    omega (arith, ap (offset h) same))

in_half :
    (r s parent_size at parent_at : ℕ)
    → r < 2
    → s + s ≡ parent_size
    → at ≡ parent_at + r * s
    → (parent_at ≤ at) × (at + s ≤ parent_at + parent_size)
in_half zero s parent_size at parent_at lt e f = omega arith
in_half (suc zero) s parent_size at parent_at lt e f = omega arith
in_half (suc (suc r)) s parent_size at parent_at lt e f = absurd (omega arith)

-- A section lies inside its parent's range.
inside_parent :
    (h : KernelHeap) (i j : ℕ)
    → HasHalves h
    → j < kernel_heap_len
    → 2 ≤ j
    → Disjoint h i (j / 2)
    → Disjoint h i j
inside_parent h i j w inside pj d =
    let (from, to) =
      in_half (j % 2) (size h j) _ (offset h j) (offset h (j / 2)) (omega arith)
        (w.halves j pj inside) (w.placed j pj inside) in
    ground arith

Disjoint-symm : (h : KernelHeap) (i j : ℕ) → Disjoint h i j → Disjoint h j i
Disjoint-symm h i j (inl a) = inr a
Disjoint-symm h i j (inr a) = inl a

pub Below-double : (i j : ℕ) → Below i j → i + i ≤ j
Below-double i j (child le e) = omega arith
Below-double i j (deeper le b) = omega (arith, Below-double i (j / 2) b)

not_cousin : (i j : ℕ) → 2 ≤ j → i < j → i / 2 ≢ j / 2 → Below (j / 2) i → ⊥
not_cousin i j pj lt ne (child le e) = ne e
not_cousin i j pj lt ne (deeper le b) = omega (arith, Below-double (j / 2) (i / 2) b)

-- `k` bounds the larger index.
apart :
    (k : ℕ) (h : KernelHeap) (i j : ℕ)
    → HasHalves h
    → j < kernel_heap_len
    → j ≤ k
    → 1 ≤ i
    → i < j
    → (Below i j → ⊥)
    → Disjoint h i j
apart zero h i j w inside bound pos lt not_below = absurd (omega arith)
apart (suc k) h i j w inside bound pos lt not_below = elim (Bool-cases (j / 2 == i)) [
  | inl parent ↦ absurd (not_below (child (omega arith) (ground arith)))
  | inr other ↦ elim (Bool-cases (ltb i (j / 2))) [
    | inl left_of ↦ inside_parent h i j w inside (omega arith) (
        apart k h i (j / 2) w (omega arith) (omega arith) pos (ground arith)
          (λ b. not_below (deeper (omega arith) b)))
    | inr right_of ↦ elim (Bool-cases (i / 2 == j / 2)) [
      | inl same ↦ siblings h i j w inside (ground arith) (omega arith) (ground arith) lt
      | inr cousins ↦ inside_parent h i j w inside (omega arith) (
          Disjoint-symm h (j / 2) i (
            apart k h (j / 2) i w (omega arith) (omega arith) (omega arith) (ground arith)
              (not_cousin i j (omega arith) lt (ground arith))))
    ]
  ]
]

-- On a consistent heap whose sections halve their parents, two different sections that are handed
-- out, other than the root and inside the array, have disjoint address ranges.
pub live_sections-Disjoint :
    (h : KernelHeap) (i j : ℕ)
    → IsConsistent h
    → HasHalves h
    → 1 ≤ i
    → 1 ≤ j
    → i < kernel_heap_len
    → j < kernel_heap_len
    → i ≢ j
    → taken h i ≡ true
    → taken h j ≡ true
    → Disjoint h i j
live_sections-Disjoint h i j ok w pi pj inside_i inside_j ne ti tj = elim (Bool-cases (ltb i j)) [
  | inl lt ↦ apart j h i j w inside_j (omega arith) pi (ground arith) (not_below i j ti tj)
  | inr ge ↦
      Disjoint-symm h j i
        (apart i h j i w inside_i (omega arith) pj (ground arith) (not_below j i tj ti))
]
  where
    not_below : (a b : ℕ) → taken h a ≡ true → taken h b ≡ true → Below a b → ⊥
    not_below a b ta tb bel =
        false≢true (sym (taken_not-Below h a b ok ta bel) ∙ ok.taken_used b tb)
