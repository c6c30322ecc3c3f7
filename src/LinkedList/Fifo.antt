-- ===== src/LinkedList/Fifo.antt =====
-- src/kernel/data_structures/linked_list.c refines a sequence: what goes in at the tail comes out at the
-- head in the same order.
use swag_os.Base.{
  ℕ, zero, suc, ◌+◌, ◌-◌, ◌%◌, ◌^◌, ◌<◌, ◌≤◌, ◌≡◌, ◌≢◌, refl, sym, ap, ap₂, ◌∙◌, inl, inr, true,
  false, not, ◌||◌, List, [], ◌∷◌, ◌++◌, Option, none, some, ◌==◌, if◌then◌else◌, Bool-cases,
  ==_self, ==_ne, ==_iff, length, arith,
}
use mathlib.Core.Path.{subst}
use swag_os.Base.Outcome.{Outcome, ok, panic}
use swag_os.LinkedList.{
  null, Store, set_next, set_prev, add_count, remove_dll_entry, remove_dll_entry_head,
  insert_dll_entry_tail,
}
use swag_os.LinkedList.Queue.{
  Ring, hung, hung-Ring, snoc, snoc-old, snoc-new, joined, joined-Ring, rest_of, rest-later,
  next-set_next, next-other, prev-set_next, prev-set_prev, prev-other, next-set_prev,
}

-- The `n` entries from `e i` on.
abbrev pub elements : (ℕ → ℕ) → ℕ → ℕ → List ℕ
elements e i zero = []
elements e i (suc n) = e i ∷ elements e (suc i) n

-- A header whose entries are a sequence; at first its pointers are NULL.
pub data IsQueue (s : Store) (h : ℕ) : List ℕ → Type 0 where
  at_first :
      h ≢ null
      → (s.links h).next ≡ null
      → (s.links h).prev ≡ null
      → s.entry_count h ≡ 0
      → IsQueue s h []
  in_ring : (n : ℕ) (e : ℕ → ℕ) → Ring s h n e → IsQueue s h (elements e 1 n)

elements-agree :
    (e f : ℕ → ℕ) (i j n : ℕ)
    → ((k : ℕ) → k < n → e (i + k) ≡ f (j + k))
    → elements e i n ≡ elements f j n
elements-agree e f i j zero agree = refl
elements-agree e f i j (suc n) agree =
    ap₂ (λ x xs. x ∷ xs) (ap e (omega arith) ∙ agree 0 (omega arith) ∙ ap f (omega arith))
      (elements-agree e f (suc i) (suc j) n
        (λ k lt. ap e (omega arith) ∙ agree (suc k) (omega (arith, lt)) ∙ ap f (omega arith)))

elements-last : (e : ℕ → ℕ) (i n : ℕ) → elements e i (suc n) ≡ elements e i n ++ (e (i + n) ∷ [])
elements-last e i zero = ap (λ k. e k ∷ []) (omega arith)
elements-last e i (suc n) =
    ap (λ xs. e i ∷ xs)
      (elements-last e (suc i) n ∙ ap (λ k. elements e (suc i) n ++ (e k ∷ [])) (omega arith))

-- The store after the first insertion.
abbrev alone : Store → ℕ → ℕ → Store
alone s h t = add_count (set_prev (set_next (set_next (set_prev s h t) h t) t h) t h) h 1

abbrev pair : ℕ → ℕ → ℕ → ℕ
pair h t i = if i == 1 then t else h

alone-Ring :
    (s : Store) (h t : ℕ)
    → h ≢ null
    → t ≢ null
    → h ≢ t
    → s.entry_count h ≡ 0
    → Ring (alone s h t) h 1 (pair h t)
alone-Ring s h t some_h some_t ne counts =
    let s1 = set_next (set_prev s h t) h t in
    let s2 = set_next s1 t h in
    let next_h : ((alone s h t).links h).next ≡ t =
      next-set_prev s2 t h h ∙ next-other s1 t h h ne ∙ next-set_next (set_prev s h t) h t in
    let next_t : ((alone s h t).links t).next ≡ h = next-set_prev s2 t h t ∙ next-set_next s1 t h in
    let prev_h : ((alone s h t).links h).prev ≡ t =
      prev-other s2 t h h ne
      ∙ prev-set_next s1 t h h
      ∙ prev-set_next (set_prev s h t) h t h
      ∙ prev-set_prev s h t in
    let prev_t : ((alone s h t).links t).prev ≡ h = prev-set_prev s2 t h in
    record {
      starts = refl;
      closes = refl;
      forward = λ i le. elim (Bool-cases (i == 0)) [
        | inl z ↦
            ap (λ k. ((alone s h t).links (pair h t k)).next) ((==_iff i 0).0 z)
            ∙ next_h
            ∙ ap (λ k. pair h t (suc k)) (sym ((==_iff i 0).0 z))
        | inr z ↦
            let one : i ≡ 1 = ground (arith, le, z) in
            ap (λ k. ((alone s h t).links (pair h t k)).next) one
            ∙ next_t
            ∙ ap (λ k. pair h t (suc k)) (sym one)
      ];
      backward = λ i le. elim (Bool-cases (i == 0)) [
        | inl z ↦
            ap (λ k. ((alone s h t).links (pair h t (suc k))).prev) ((==_iff i 0).0 z)
            ∙ prev_t
            ∙ ap (pair h t) (sym ((==_iff i 0).0 z))
        | inr z ↦
            let one : i ≡ 1 = ground (arith, le, z) in
            ap (λ k. ((alone s h t).links (pair h t (suc k))).prev) one
            ∙ prev_h
            ∙ ap (pair h t) (sym one)
      ];
      distinct = λ i j lt le.
          let zero_i : i ≡ 0 = omega (arith, lt, le) in
          let one_j : j ≡ 1 = omega (arith, lt, le) in
          λ y. ne (sym (ap (pair h t) zero_i) ∙ y ∙ ap (pair h t) one_j);
      present = λ i le. elim (Bool-cases (i == 1)) [
        | inl o ↦ λ y. some_t (sym (ap (pair h t) ((==_iff i 1).0 o)) ∙ y)
        | inr o ↦ λ y. some_h (sym (rw o refl) ∙ y)
      ];
      counted = rw (==_self h) (ap (λ x. (x + 1) % 2 ^ 32) counts);
    }

-- An entry that is not in a sequence.
abbrev pub NotIn : ℕ → List ℕ → Type 0
NotIn t [] = Unit
NotIn t (x ∷ xs) = (x ≢ t) × NotIn t xs

NotIn-elements : (t : ℕ) (e : ℕ → ℕ) (i n k : ℕ) → NotIn t (elements e i n) → k < n → e (i + k) ≢ t
NotIn-elements t e i zero k out lt = absurd (omega (arith, lt))
NotIn-elements t e i (suc n) k out lt = elim (Bool-cases (k == 0)) [
  | inl z ↦ λ y. out.0 (ap e (omega (arith, (==_iff k 0).0 z)) ∙ y)
  | inr z ↦
      let pos : 0 < k = ground (arith, z) in
      λ y.
        NotIn-elements t e (suc i) n (k - 1) out.1 (omega (arith, lt, pos))
          (ap e (omega (arith, pos)) ∙ y)
]

length-elements : (e : ℕ → ℕ) (i n : ℕ) → length (elements e i n) ≡ n
length-elements e i zero = refl
length-elements e i (suc n) = ap suc (length-elements e (suc i) n)

insert-alone :
    (s : Store) (h t : ℕ)
    → (s.links h).next ≡ null
    → (s.links h).prev ≡ null
    → insert_dll_entry_tail s h t ≡ ok (alone s h t)
unfolding insert_dll_entry_tail
insert-alone s h t next prev = ap₂ (tail_of s h t) next prev
  where
    tail_of : Store → ℕ → ℕ → ℕ → ℕ → Outcome Store
    tail_of s h t next prev =
        if prev == null
        then (if not (next == null) then panic else ok (alone s h t))
        else ok (hung s h prev t)

insert-hung :
    (s : Store) (h t : ℕ)
    → (s.links h).prev ≢ null
    → insert_dll_entry_tail s h t ≡ ok (hung s h (s.links h).prev t)
unfolding insert_dll_entry_tail
insert-hung s h t some_last =
    ap
      (λ b.
        if b
        then (if not ((s.links h).next == null) then panic else ok (alone s h t))
        else ok (hung s h (s.links h).prev t))
      (==_ne (s.links h).prev null some_last)

-- insert_dll_entry_tail of a new entry, with room in the count, puts it behind the sequence of the queue.
pub insert_dll_entry_tail_lem :
    (s : Store) (h t : ℕ) (xs : List ℕ)
    → IsQueue s h xs
    → t ≢ null
    → h ≢ t
    → NotIn t xs
    → suc (length xs) < 2 ^ 32
    → (s1 : Store) × (insert_dll_entry_tail s h t ≡ ok s1) × IsQueue s1 h (xs ++ (t ∷ []))
insert_dll_entry_tail_lem s h t _ (at_first some_h next prev counts) some_t ne out fits = (
  alone s h t,
  insert-alone s h t next prev,
  in_ring 1 (pair h t) (alone-Ring s h t some_h some_t ne counts),
)
insert_dll_entry_tail_lem s h t _ (in_ring n e r) some_t ne out fits =
    let last : (s.links h).prev ≡ e n =
      ap (λ x. (s.links x).prev) (sym r.closes) ∙ r.backward n (omega arith) in
    let some_last : (s.links h).prev ≢ null = λ z. r.present n (omega arith) (sym last ∙ z) in
    let fresh : (i : ℕ) → i ≤ n → e i ≢ t = λ i le. elim (Bool-cases (i == 0)) [
      | inl z ↦ λ y. ne (sym (ap e ((==_iff i 0).0 z) ∙ r.starts) ∙ y)
      | inr z ↦
          let pos : 0 < i = ground (arith, z) in
          λ y.
            NotIn-elements t e 1 n (i - 1) out (omega (arith, le, pos))
              (ap e (omega (arith, pos)) ∙ y)
    ] in
    let e1 = snoc e n t h in
    let same : elements e1 1 (suc n) ≡ elements e 1 n ++ (t ∷ []) =
      elements-last e1 1 n
      ∙ ap₂ (λ xs x. xs ++ (x ∷ []))
          (elements-agree e1 e 1 1 n (λ k lt. snoc-old e n t h (1 + k) (omega (arith, lt))))
          (snoc-new e n t h (1 + n) (omega arith)) in
    (
      hung s h (e n) t,
      insert-hung s h t some_last ∙ ap (λ l. ok (hung s h l t)) last,
      subst (IsQueue (hung s h (e n) t) h) same (
          in_ring (suc n) e1
            (hung-Ring s h n t e r some_t fresh (omega (arith, fits, length-elements e 1 n)))),
    )

remove-empty :
    (s : Store) (h : ℕ)
    → h ≢ null
    → ((s.links h).next == null || (s.links h).next == h || s.entry_count h == 0) ≡ true
    → remove_dll_entry_head s h ≡ ok (s, none)
unfolding remove_dll_entry_head
remove-empty s h some_h empty = rw (==_ne h null some_h, empty) refl

remove-first :
    (s : Store) (h : ℕ)
    → h ≢ null
    → ((s.links h).next == null || (s.links h).next == h || s.entry_count h == 0) ≡ false
    → remove_dll_entry_head s h
      ≡ ok (remove_dll_entry (add_count s h (2 ^ 32 - 1)) (s.links h).next, some (s.links h).next)
unfolding remove_dll_entry_head
remove-first s h some_h full =
    ap
      (λ b.
        if h == null
        then panic
        else if b
        then ok (s, none)
        else ok
            (remove_dll_entry (add_count s h (2 ^ 32 - 1)) (s.links h).next, some (s.links h).next))
      full
    ∙ rw (==_ne h null some_h) refl

pub remove-joined :
    (s : Store) (a p n : ℕ)
    → (s.links a).prev ≡ p
    → (s.links a).next ≡ n
    → p ≢ null
    → n ≢ null
    → remove_dll_entry s a ≡ joined s p n
unfolding remove_dll_entry
remove-joined s a p n prev next some_p some_n =
    ap₂ (taken_from s) prev next
    ∙ ap
        (λ b.
          if n == null
          then (if b then s else set_next s p n)
          else set_prev (if b then s else set_next s p n) n p)
        (==_ne p null some_p)
    ∙ ap (λ b. if b then set_next s p n else joined s p n) (==_ne n null some_n)
  where
    taken_from : Store → ℕ → ℕ → Store
    taken_from s p n =
        let s1 = if p == null then s else set_next s p n in
        if n == null then s1 else set_prev s1 n p

-- What remove_dll_entry_head gives for a sequence.
pub data Taken (s : Store) (h : ℕ) : List ℕ → Outcome (Store × Option ℕ) → Type 0 where
  nothing : Taken s h [] (ok (s, none))
  taken :
      (s1 : Store) (x : ℕ) (xs : List ℕ) → IsQueue s1 h xs → Taken s h (x ∷ xs) (ok (s1, some x))

take-nothing :
    (s : Store) (h : ℕ)
    → h ≢ null
    → ((s.links h).next == null || (s.links h).next == h || s.entry_count h == 0) ≡ true
    → Taken s h [] (remove_dll_entry_head s h)
take-nothing s h some_h empty = rw (remove-empty s h some_h empty) nothing

-- remove_dll_entry_head of a queue gives the first entry of its sequence and leaves the rest, and nothing
-- where the sequence is empty.
pub remove_dll_entry_head_lem :
    (s : Store) (h : ℕ) (xs : List ℕ)
    → IsQueue s h xs
    → length xs < 2 ^ 32
    → Taken s h xs (remove_dll_entry_head s h)
remove_dll_entry_head_lem s h _ (at_first some_h next prev counts) fits =
    take-nothing s h some_h (rw (next) refl)
remove_dll_entry_head_lem s h _ (in_ring zero e r) fits =
    let some_h : h ≢ null = λ z. r.present 0 (omega arith) (r.starts ∙ z) in
    take-nothing s h some_h (ground (arith, r.counted))
remove_dll_entry_head_lem s h _ (in_ring (suc n) e r) fits =
    let s1 = add_count s h (2 ^ 32 - 1) in
    let some_h : h ≢ null = λ z. r.present 0 (omega arith) (r.starts ∙ z) in
    let first : (s.links h).next ≡ e 1 =
      ap (λ x. (s.links x).next) (sym r.starts) ∙ r.forward 0 (omega arith) in
    let some_first : e 1 ≢ null = r.present 1 (omega arith) in
    let not_h : e 1 ≢ h = λ z. r.distinct 0 1 (omega arith) (omega arith) (r.starts ∙ sym z) in
    let some_second : e 2 ≢ null = elim (Bool-cases (n == 0)) [
      | inl z ↦ λ y. some_h (sym r.closes ∙ ap (λ k. e (suc (suc k))) ((==_iff n 0).0 z) ∙ y)
      | inr z ↦ r.present 2 (ground (arith, z))
    ] in
    let fits1 : suc n < 2 ^ 32 = omega (arith, fits, length-elements e 1 (suc n)) in
    let full : ((s.links h).next == null || (s.links h).next == h || s.entry_count h == 0) ≡ false =
      rw (first, ==_ne (e 1) null some_first, ==_ne (e 1) h not_h, r.counted) ground arith in
    let back : (s.links (e 1)).prev ≡ h = r.backward 0 (omega arith) ∙ r.starts in
    let on : (s.links (e 1)).next ≡ e 2 = r.forward 1 (omega arith) in
    let runs : remove_dll_entry_head s h ≡ ok (joined s1 h (e 2), some (e 1)) =
      remove-first s h some_h full
      ∙ ap (λ x. ok (remove_dll_entry s1 x, some x)) first
      ∙ ap (λ x. ok (x, some (e 1))) (remove-joined s1 (e 1) h (e 2) back on some_h some_second) in
    let same : elements (rest_of e) 1 n ≡ elements e 2 n =
      elements-agree (rest_of e) e 1 2 n
        (λ k lt. rest-later e (1 + k) (omega arith) ∙ ap e (omega arith)) in
    rw runs (
      taken (joined s1 h (e 2)) (e 1) (elements e 2 n) (
        subst (IsQueue (joined s1 h (e 2)) h) same
          (in_ring n (rest_of e) (joined-Ring s h n e r fits1))))
