-- ===== src/KernelHeap/Init.antt =====
-- `kernel_heap_tree_init` on zeroed memory builds a consistent heap whose sections halve their
-- parents.
use swag_os.Base.{
  ℕ, zero, suc, ◌+◌, ◌*◌, ◌/◌, ◌%◌, ◌^◌, ◌≤◌, ◌<◌, ◌≡◌, ◌≢◌, ◌⊎◌, inl, inr, refl, ap, ap₂, sym, ◌∙◌,
  false, ◌==◌, ==_ne, Bool-cases, leb, arith,
}
use mathlib.Core.Bool.{false≢true}
use mathlib.Core.Path.{subst}
use swag_os.KernelHeap.{
  KernelHeap, HeapSection, kernel_heap_len, store, kernel_heap_tree_init, uint64_max, occupied,
}
use swag_os.KernelHeap.Complete.{doubled}
use swag_os.KernelHeap.Invariant.{used, taken, IsConsistent}
use swag_os.KernelHeap.Ranges.{size, offset, HasHalves, Below, child, deeper, Below-double}

-- `j` is `i` or lies below it.
abbrev Within : ℕ → ℕ → Type 0
Within i j = (j ≡ i) ⊎ Below i j

record IsHalf (h : KernelHeap) (j : ℕ) : Type 0 where
  half : size h j + size h j ≡ size h (j / 2)
  place : offset h j ≡ offset h (j / 2) + (j % 2) * size h j

record Built (h : KernelHeap) (i block at bound : ℕ) (h' : KernelHeap) : Type 0 where
  size_top : i < kernel_heap_len → size h' i ≡ block
  offset_top : i < kernel_heap_len → offset h' i ≡ at
  same : (j : ℕ) → (Within i j → ⊥) → h'.heap_tree j ≡ h.heap_tree j
  halves : (j : ℕ) → 2 ≤ j → j < kernel_heap_len → Below i j → IsHalf h' j
  unused : ((j : ℕ) → used h j ≡ false) → (j : ℕ) → used h' j ≡ false
  untaken : ((j : ℕ) → taken h j ≡ false) → (j : ℕ) → taken h' j ≡ false
  low : ((j : ℕ) → offset h j ≤ bound) → (j : ℕ) → offset h' j ≤ bound
  start : h'.va_start ≡ h.va_start

-- From index 1 on, the two children of a section have no section in common.
Below-cons : (i j : ℕ) → Below i j → Within (i * 2) j ⊎ Within (i * 2 + 1) j
Below-cons i j (child le e) = elim (Bool-cases (j == i * 2)) [
  | inl a ↦ inl (inl (ground arith))
  | inr b ↦ inr (inl (ground arith))
]
Below-cons i j (deeper le b) = elim (Below-cons i (j / 2) b) [
  | inl (inl e) ↦ inl (inr (child le e))
  | inl (inr c) ↦ inl (inr (deeper le c))
  | inr (inl e) ↦ inr (inr (child le e))
  | inr (inr c) ↦ inr (inr (deeper le c))
]

not_both : (a b j : ℕ) → 1 ≤ a → a < b → b < a + a → Below a j → Within b j → ⊥
not_both a b j pos lt room p (inl e) = omega (arith, Below-double a j p)
not_both a b j pos lt room (child le e) (inr (child le' e')) = omega arith
not_both a b j pos lt room (child le e) (inr (deeper le' q)) =
    omega (arith, Below-double b (j / 2) q)
not_both a b j pos lt room (deeper le p) (inr (child le' e)) =
    omega (arith, Below-double a (j / 2) p)
not_both a b j pos lt room (deeper le p) (inr (deeper le' q)) =
    not_both a b (j / 2) pos lt room p (inr q)

above : (i a j : ℕ) → i < a → j ≤ i → Within a j → ⊥
above i a j lt le (inl e) = omega arith
above i a j lt le (inr b) = omega (arith, Below-double a j b)

IsHalf-same :
    (h h' : KernelHeap) (j : ℕ)
    → h'.heap_tree j ≡ h.heap_tree j
    → h'.heap_tree (j / 2) ≡ h.heap_tree (j / 2)
    → IsHalf h j
    → IsHalf h' j
IsHalf-same h h' j a b p = record {
  half =
      ap₂ (λ (s t : HeapSection). s.size + s.size) a a
      ∙ p.half
      ∙ sym (ap (λ (s : HeapSection). s.size) b);
  place =
      ap (λ (s : HeapSection). s.offset) a
      ∙ p.place
      ∙ sym (ap₂ (λ (s t : HeapSection). s.offset + (j % 2) * t.size) b a);
}

Within-half : (a j : ℕ) → Below a j → Within a (j / 2)
Within-half a j (child le e) = inl e
Within-half a j (deeper le b) = inr b

Below-widen : (i c j : ℕ) → 1 ≤ i → c / 2 ≡ i → Below c j → Below i j
Below-widen i c j pos par (child le e) =
    deeper le (child (omega arith) (ap (λ (k : ℕ). k / 2) e ∙ par))
Below-widen i c j pos par (deeper le b) = deeper le (Below-widen i c (j / 2) pos par b)

abbrev section_of : ℕ → ℕ → ℕ → HeapSection
section_of i block at = record { size = block; offset = at; index = i; in_use = false; flags = 0 }

-- `h₀` is `h` with section `i` written; its children are then built one after the other.
module _ (h h₀ h₁ h₂ : KernelHeap) (i block at bound : ℕ) (pos : 1 ≤ i)
    (even : block / 2 + block / 2 ≡ block) (below : at + block ≤ bound)
    (here : h₀.heap_tree i ≡ section_of i block at)
    (there : (j : ℕ) → j ≢ i → h₀.heap_tree j ≡ h.heap_tree j) (start : h₀.va_start ≡ h.va_start)
    (lower : Built h₀ (i * 2) (block / 2) at bound h₁)
    (upper : Built h₁ (i * 2 + 1) (block / 2) (at + block / 2) bound h₂) where
  -- Nothing up to `i` is written again.
  kept : (j : ℕ) → j ≤ i → h₂.heap_tree j ≡ h₀.heap_tree j
  kept j le =
      upper.same j (above i (i * 2 + 1) j (omega arith) le)
      ∙ lower.same j (above i (i * 2) j (omega arith) le)

  top : h₂.heap_tree i ≡ section_of i block at
  top = kept i (omega arith) ∙ here

  upper_misses : (j : ℕ) → Within (i * 2) j → Within (i * 2 + 1) j → ⊥
  upper_misses j (inl e) (inl e') = omega arith
  upper_misses j (inl e) (inr b) = omega (arith, Below-double (i * 2 + 1) j b)
  upper_misses j (inr b) w =
      not_both (i * 2) (i * 2 + 1) j (omega arith) (omega arith) (omega arith) b w

  IsHalf-of_child :
      (j c at_c : ℕ)
      → j ≡ c
      → c / 2 ≡ i
      → size h₂ c ≡ block / 2
      → offset h₂ c ≡ at_c
      → at_c ≡ at + (c % 2) * (block / 2)
      → IsHalf h₂ j
  IsHalf-of_child j c at_c e par s o place =
      let up : h₂.heap_tree (j / 2) ≡ section_of i block at =
        ap (λ (k : ℕ). h₂.heap_tree (k / 2)) e ∙ ap h₂.heap_tree par ∙ top in
      let up_size : size h₂ (j / 2) ≡ block = ap (λ (t : HeapSection). t.size) up in
      let up_at : offset h₂ (j / 2) ≡ at = ap (λ (t : HeapSection). t.offset) up in
      let s' : size h₂ j ≡ block / 2 = ap (size h₂) e ∙ s in
      let o' : offset h₂ j ≡ at_c = ap (offset h₂) e ∙ o in
      let parity : (j % 2) * size h₂ j ≡ (c % 2) * (block / 2) =
        ap (λ (k : ℕ). (k % 2) * size h₂ j) e ∙ ap (λ (k : ℕ). (c % 2) * k) s' in
      record { half = omega arith; place = omega arith }

  lower_top : i * 2 < kernel_heap_len → (size h₂ (i * 2) ≡ block / 2) × (offset h₂ (i * 2) ≡ at)
  lower_top lt =
      let keep = upper.same (i * 2) (upper_misses (i * 2) (inl refl)) in
      (
        ap (λ (t : HeapSection). t.size) keep ∙ lower.size_top lt,
        ap (λ (t : HeapSection). t.offset) keep ∙ lower.offset_top lt,
      )

  halves_of :
      (j : ℕ) → 2 ≤ j → j < kernel_heap_len → Within (i * 2) j ⊎ Within (i * 2 + 1) j → IsHalf h₂ j
  halves_of j le lt (inl (inl e)) =
      let (s, o) = lower_top (omega arith) in
      IsHalf-of_child j (i * 2) at e (omega arith) s o (
        let even_c : (i * 2) % 2 ≡ 0 = omega arith in
        omega (arith, ap (λ (t : ℕ). t * (block / 2)) even_c))
  halves_of j le lt (inr (inl e)) =
      IsHalf-of_child j (i * 2 + 1) (at + block / 2) e (omega arith) (upper.size_top (omega arith))
        (upper.offset_top (omega arith))
        (let odd_c : (i * 2 + 1) % 2 ≡ 1 = omega arith in
          omega (arith, ap (λ (t : ℕ). t * (block / 2)) odd_c))
  halves_of j le lt (inl (inr b)) =
      IsHalf-same h₁ h₂ j (upper.same j (upper_misses j (inr b)))
        (upper.same (j / 2) (upper_misses (j / 2) (Within-half (i * 2) j b)))
        (lower.halves j le lt b)
  halves_of j le lt (inr (inr b)) = upper.halves j le lt b

  Built-children : Built h i block at bound h₂
  Built-children = record {
    size_top = λ _. ap (λ (t : HeapSection). t.size) top;
    offset_top = λ _. ap (λ (t : HeapSection). t.offset) top;
    same = λ j out.
        upper.same j (λ w. out (inr (widen (i * 2 + 1) j (omega arith) w)))
        ∙ lower.same j (λ w. out (inr (widen (i * 2) j (omega arith) w)))
        ∙ there j (λ e. out (inl e));
    halves = λ j le lt b. halves_of j le lt (Below-cons i j b);
    unused = λ all. upper.unused (lower.unused (λ j. clear j all));
    untaken = λ all. upper.untaken (lower.untaken (λ j. clear_flag j all));
    low = λ all. upper.low (lower.low (λ j. clear_low j all));
    start = upper.start ∙ lower.start ∙ start;
  }
    where
      widen : (c j : ℕ) → c / 2 ≡ i → Within c j → Below i j
      widen c j par (inl e) = child (omega arith) (ap (λ (k : ℕ). k / 2) e ∙ par)
      widen c j par (inr b) = Below-widen i c j pos par b

      clear : (j : ℕ) → ((k : ℕ) → used h k ≡ false) → used h₀ j ≡ false
      clear j all = elim (Bool-cases (j == i)) [
        | inl e ↦
            let same : j ≡ i = ground arith in
            ap (used h₀) same ∙ ap (λ (t : HeapSection). t.in_use) here
        | inr ne ↦ ap (λ (t : HeapSection). t.in_use) (there j (ground arith)) ∙ all j
      ]

      clear_flag : (j : ℕ) → ((k : ℕ) → taken h k ≡ false) → taken h₀ j ≡ false
      clear_flag j all = elim (Bool-cases (j == i)) [
        | inl e ↦ let same : j ≡ i = ground arith in ap (taken h₀) same ∙ ap occupied here
        | inr ne ↦ ap occupied (there j (ground arith)) ∙ all j
      ]

      clear_low : (j : ℕ) → ((k : ℕ) → offset h k ≤ bound) → offset h₀ j ≤ bound
      clear_low j all = elim (Bool-cases (j == i)) [
        | inl e ↦
            let same : j ≡ i = ground arith in
            omega (arith, ap (offset h₀) same ∙ ap (λ (t : HeapSection). t.offset) here)
        | inr ne ↦ omega (arith, ap (λ (t : HeapSection). t.offset) (there j (ground arith)), all j)
      ]

Built-past :
    (h : KernelHeap) (i block at bound : ℕ) → kernel_heap_len ≤ i → Built h i block at bound h
Built-past h i block at bound past = record {
  size_top = λ lt. absurd (omega arith);
  offset_top = λ lt. absurd (omega arith);
  same = λ j out. refl;
  halves = λ j le lt b. absurd (omega (arith, Below-double i j b));
  unused = λ all. all;
  untaken = λ all. all;
  low = λ all. all;
  start = refl;
}

halved :
    (block t p q : ℕ)
    → q ≡ 2 * p
    → block ≡ t * q
    → (block / 2 + block / 2 ≡ block) × (block / 2 ≡ t * p)
halved block t p q e f =
    let twice : block ≡ 2 * (t * p) = f ∙ ap (λ (x : ℕ). t * x) e ∙ omega arith in omega arith

init_Built :
    (n : ℕ) (h : KernelHeap) (i block at bound t : ℕ)
    → 1 ≤ i
    → kernel_heap_len ≤ i * 2 ^ n
    → at + block ≤ bound
    → block ≡ t * 2 ^ n
    → Built h i block at bound (kernel_heap_tree_init n h i block at)
unfolding kernel_heap_tree_init store
init_Built zero h i block at bound t pos deep below e = Built-past h i block at bound (omega arith)
init_Built (suc n) h i block at bound t pos deep below e =
    elim (Bool-cases (leb kernel_heap_len i)) [
      | inl past ↦ rw (past, kernel_heap_tree_init) (Built-past h i block at bound (ground arith))
      | inr inside ↦
          let (even, half) = halved block t (2 ^ n) (2 ^ suc n) (omega arith) e in
          let (deep_upper, deep_lower) =
            doubled i (2 ^ n) (2 ^ suc n) kernel_heap_len (omega arith) deep in
          rw (inside, kernel_heap_tree_init, ==_ne i 0 (omega arith))
            (Built-children h _ _ _ i block at bound pos even below (ground arith)
              (λ j ne. ground arith) refl
              (init_Built n _ (i * 2) (block / 2) at bound t (omega arith) deep_lower (omega arith)
                half)
              (init_Built n _ (i * 2 + 1) (block / 2) (at + block / 2) bound t (omega arith)
                deep_upper (omega arith) half))
    ]

Below-one : (k j : ℕ) → j ≤ k → 2 ≤ j → Below 1 j
Below-one zero j le two = absurd (omega arith)
Below-one (suc k) j le two = elim (Bool-cases (j / 2 == 1)) [
  | inl e ↦ child two (ground arith)
  | inr ne ↦ deeper two (Below-one k (j / 2) (omega arith) (ground arith))
]

-- The memory that the loader zeroes, with the heap's start address set.
pub record IsZeroed (h : KernelHeap) : Type 0 where
  pub unused : (j : ℕ) → used h j ≡ false
  pub untaken : (j : ℕ) → taken h j ≡ false
  pub zero_offset : (j : ℕ) → offset h j ≡ 0

root_of : KernelHeap → ℕ → ℕ → KernelHeap
root_of h block at =
    store h 0 (record { size = block; offset = at; index = 0; in_use = false; flags = 0 })

init_root :
    (n : ℕ) (h : KernelHeap) (block at : ℕ)
    → kernel_heap_tree_init (suc n) h 0 block at
      ≡ kernel_heap_tree_init n (root_of h block at) 1 (block / 2) (at + block / 2)
unfolding kernel_heap_tree_init root_of
init_root n h block at = refl

-- What the initialised heap `h'` is to satisfy.
pub record IsFresh (h' : KernelHeap) : Type 0 where
  pub consistent : IsConsistent h'
  pub halves : HasHalves h'
  pub none_taken : (j : ℕ) → taken h' j ≡ false
  pub upper_size : size h' 1 ≡ 2 ^ 30
  pub upper_offset : offset h' 1 ≡ 2 ^ 30
  pub addressable : (j : ℕ) → offset h' j + h'.va_start < uint64_max

Built-IsFresh :
    (h h' : KernelHeap)
    → IsZeroed h
    → h.va_start ≡ 0xffffffff00000000
    → Built (root_of h (2 ^ 31) 0) 1 (2 ^ 30) (2 ^ 30) (2 ^ 31) h'
    → IsFresh h'
unfolding root_of store
Built-IsFresh h h' z va b = record {
  consistent = record {
    upward = λ j pos u. absurd (false≢true (sym (no_use j) ∙ u));
    taken_used = λ j t. absurd (false≢true (sym (no_take j) ∙ t));
    below_free = λ j pos t. no_use j;
  };
  halves = record {
    halves = λ j two lt. (b.halves j two lt (Below-one j j (omega arith) two)).half;
    placed = λ j two lt. (b.halves j two lt (Below-one j j (omega arith) two)).place;
  };
  none_taken = no_take;
  upper_size = b.size_top (omega arith);
  upper_offset = b.offset_top (omega arith);
  addressable = λ j. omega (arith, b.low (λ k. ground (arith, z.zero_offset k)) j, b.start, va);
}
  where
    no_use : (j : ℕ) → used h' j ≡ false
    no_use = b.unused (λ k. ground (arith, z.unused k))

    no_take : (j : ℕ) → taken h' j ≡ false
    no_take = b.untaken (λ k. ground (arith, z.untaken k))

-- On zeroed memory with the heap at 0xffffffff00000000, `kernel_heap_tree_init` as `kheap_init`
-- calls it gives a consistent heap on which nothing is handed out, in which every section from
-- index 2 on is half of its parent, whose section 1 is the upper gigabyte of the two, and where no
-- address wraps.
pub kernel_heap_tree_init_lem :
    (h : KernelHeap)
    → IsZeroed h
    → h.va_start ≡ 0xffffffff00000000
    → IsFresh (kernel_heap_tree_init 22 h 0 (2 * 1024 * 1024 * 1024) 0)
kernel_heap_tree_init_lem h z va = subst IsFresh (sym (init_root 21 h (2 ^ 31) 0)) (
    Built-IsFresh h _ z va (
      init_Built 21 (root_of h (2 ^ 31) 0) 1 (2 ^ 30) (2 ^ 30) (2 ^ 31) (2 ^ 9) (omega arith)
        (omega arith) (omega arith) refl))
