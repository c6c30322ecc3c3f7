-- ===== src/LinkedList/Queue.antt =====
-- src/kernel/data_structures/linked_list.c: insertion at the tail and removal at the head are a queue.
use swag_os.Base.{
  ℕ, suc, ◌+◌, ◌-◌, ◌%◌, ◌^◌, ◌<◌, ◌≤◌, ◌≡◌, ◌≢◌, refl, sym, ap, ◌∙◌, inl, inr, true, false, ◌==◌,
  leb, if◌then◌else◌, Bool-cases, ==_self, ==_ne, ==_iff, le→leb, arith,
}
use swag_os.LinkedList.{null, Store, set_next, set_prev, add_count}

pub next-set_next : (s : Store) (a v : ℕ) → ((set_next s a v).links a).next ≡ v
next-set_next s a v = rw (==_self a) refl

pub next-other :
    (s : Store) (a v b : ℕ) → b ≢ a → ((set_next s a v).links b).next ≡ (s.links b).next
next-other s a v b ne = rw (==_ne b a ne) refl

pub prev-set_next : (s : Store) (a v b : ℕ) → ((set_next s a v).links b).prev ≡ (s.links b).prev
prev-set_next s a v b = elim (Bool-cases (b == a)) [
  | inl e ↦ rw e (ap (λ x. (s.links x).prev) (sym ((==_iff b a).0 e)))
  | inr e ↦ rw e refl
]

pub prev-set_prev : (s : Store) (a v : ℕ) → ((set_prev s a v).links a).prev ≡ v
prev-set_prev s a v = rw (==_self a) refl

pub prev-other :
    (s : Store) (a v b : ℕ) → b ≢ a → ((set_prev s a v).links b).prev ≡ (s.links b).prev
prev-other s a v b ne = rw (==_ne b a ne) refl

pub next-set_prev : (s : Store) (a v b : ℕ) → ((set_prev s a v).links b).next ≡ (s.links b).next
next-set_prev s a v b = elim (Bool-cases (b == a)) [
  | inl e ↦ rw e (ap (λ x. (s.links x).next) (sym ((==_iff b a).0 e)))
  | inr e ↦ rw e refl
]

-- The entries `e 1` to `e n` hang in a ring from the header `e 0`, which is also `e (n + 1)`.
pub record Ring (s : Store) (h n : ℕ) (e : ℕ → ℕ) : Type 0 where
  pub starts : e 0 ≡ h
  pub closes : e (suc n) ≡ h
  pub forward : (i : ℕ) → i ≤ n → (s.links (e i)).next ≡ e (suc i)
  pub backward : (i : ℕ) → i ≤ n → (s.links (e (suc i))).prev ≡ e i
  pub distinct : (i j : ℕ) → i < j → j ≤ n → e i ≢ e j
  pub present : (i : ℕ) → i ≤ n → e i ≢ null
  pub counted : s.entry_count h ≡ n

-- The store after an insertion at the tail, behind the entry `l`.
abbrev pub hung : Store → ℕ → ℕ → ℕ → Store
hung s h l t = add_count (set_next (set_prev (set_next (set_prev s h t) t h) t l) l t) h 1

hung-next-last : (s : Store) (h l t : ℕ) → ((hung s h l t).links l).next ≡ t
hung-next-last s h l t = next-set_next (set_prev (set_next (set_prev s h t) t h) t l) l t

hung-next-new : (s : Store) (h l t : ℕ) → t ≢ l → ((hung s h l t).links t).next ≡ h
hung-next-new s h l t ne =
    next-other (set_prev (set_next (set_prev s h t) t h) t l) l t t ne
    ∙ next-set_prev (set_next (set_prev s h t) t h) t l t
    ∙ next-set_next (set_prev s h t) t h

hung-next :
    (s : Store) (h l t b : ℕ) → b ≢ l → b ≢ t → ((hung s h l t).links b).next ≡ (s.links b).next
hung-next s h l t b nl nt =
    next-other (set_prev (set_next (set_prev s h t) t h) t l) l t b nl
    ∙ next-set_prev (set_next (set_prev s h t) t h) t l b
    ∙ next-other (set_prev s h t) t h b nt
    ∙ next-set_prev s h t b

hung-prev-new : (s : Store) (h l t : ℕ) → ((hung s h l t).links t).prev ≡ l
hung-prev-new s h l t =
    prev-set_next (set_prev (set_next (set_prev s h t) t h) t l) l t t
    ∙ prev-set_prev (set_next (set_prev s h t) t h) t l

hung-prev-head : (s : Store) (h l t : ℕ) → h ≢ t → ((hung s h l t).links h).prev ≡ t
hung-prev-head s h l t ne =
    prev-set_next (set_prev (set_next (set_prev s h t) t h) t l) l t h
    ∙ prev-other (set_next (set_prev s h t) t h) t l h ne
    ∙ prev-set_next (set_prev s h t) t h h
    ∙ prev-set_prev s h t

hung-prev :
    (s : Store) (h l t b : ℕ) → b ≢ h → b ≢ t → ((hung s h l t).links b).prev ≡ (s.links b).prev
hung-prev s h l t b nh nt =
    prev-set_next (set_prev (set_next (set_prev s h t) t h) t l) l t b
    ∙ prev-other (set_next (set_prev s h t) t h) t l b nt
    ∙ prev-set_next (set_prev s h t) t h b
    ∙ prev-other s h t b nh

-- The entries with `t` as the last one.
abbrev pub snoc : (ℕ → ℕ) → ℕ → ℕ → ℕ → ℕ → ℕ
snoc e n t h i = if leb i n then e i else if i == suc n then t else h

pub snoc-old : (e : ℕ → ℕ) (n t h i : ℕ) → i ≤ n → snoc e n t h i ≡ e i
snoc-old e n t h i le = rw (le→leb i n le) refl

pub snoc-new : (e : ℕ → ℕ) (n t h i : ℕ) → i ≡ suc n → snoc e n t h i ≡ t
snoc-new e n t h i eq =
    let above : leb i n ≡ false = ground (arith, eq) in
    let here : (i == suc n) ≡ true = (==_iff i (suc n)).1 eq in rw (above, here) refl

snoc-end : (e : ℕ → ℕ) (n t h i : ℕ) → suc n < i → snoc e n t h i ≡ h
snoc-end e n t h i lt =
    let above : leb i n ≡ false = ground (arith, lt) in
    let past : (i == suc n) ≡ false = ground (arith, lt) in rw (above, past) refl

pub count-added :
    (s : Store) (h l t n : ℕ)
    → s.entry_count h ≡ n
    → suc n < 2 ^ 32
    → (hung s h l t).entry_count h ≡ suc n
count-added s h l t n counts fits =
    rw (==_self h) (ap (λ x. (x + 1) % 2 ^ 32) counts ∙ omega (arith, fits))

pub hung-Ring :
    (s : Store) (h n t : ℕ) (e : ℕ → ℕ)
    → Ring s h n e
    → t ≢ null
    → ((i : ℕ) → i ≤ n → e i ≢ t)
    → suc n < 2 ^ 32
    → Ring (hung s h (e n) t) h (suc n) (snoc e n t h)
hung-Ring s h n t e r some_t fresh fits =
    let old = snoc-old e n t h in
    let new = snoc-new e n t h in
    let past = snoc-end e n t h in
    let h_ne : h ≢ t = λ z. fresh 0 (omega arith) (r.starts ∙ z) in
    record {
      starts = old 0 (omega arith) ∙ r.starts;
      closes = past (suc (suc n)) (omega arith);
      forward = λ i le. elim (Bool-cases (leb i n)) [
        | inr above ↦
            let last : i ≡ suc n = ground (arith, le, above) in
            ap (λ x. ((hung s h (e n) t).links x).next) (new i last)
            ∙ hung-next-new s h (e n) t (λ z. fresh n (omega arith) (sym z))
            ∙ sym (past (suc i) (omega (arith, last)))
        | inl below ↦ elim (Bool-cases (i == n)) [
          | inl at ↦
              let same : i ≡ n = (==_iff i n).0 at in
              ap (λ x. ((hung s h (e n) t).links x).next) (old i (omega (arith, same)) ∙ ap e same)
              ∙ hung-next-last s h (e n) t
              ∙ sym (new (suc i) (ap suc same))
          | inr ne ↦
              let lt : i < n = ground (arith, below, ne) in
              ap (λ x. ((hung s h (e n) t).links x).next) (old i (omega (arith, lt)))
              ∙ hung-next s h (e n) t (e i) (r.distinct i n lt (omega arith))
                  (fresh i (omega (arith, lt)))
              ∙ r.forward i (omega (arith, lt))
              ∙ sym (old (suc i) lt)
        ]
      ];
      backward = λ i le. elim (Bool-cases (leb i n)) [
        | inr above ↦
            let last : i ≡ suc n = ground (arith, le, above) in
            ap (λ x. ((hung s h (e n) t).links x).prev) (past (suc i) (omega (arith, last)))
            ∙ hung-prev-head s h (e n) t h_ne
            ∙ sym (new i last)
        | inl below ↦ elim (Bool-cases (i == n)) [
          | inl at ↦
              let same : i ≡ n = (==_iff i n).0 at in
              ap (λ x. ((hung s h (e n) t).links x).prev) (new (suc i) (ap suc same))
              ∙ hung-prev-new s h (e n) t
              ∙ ap e (sym same)
              ∙ sym (old i (omega (arith, same)))
          | inr ne ↦
              let lt : i < n = ground (arith, below, ne) in
              ap (λ x. ((hung s h (e n) t).links x).prev) (old (suc i) lt)
              ∙ hung-prev s h (e n) t (e (suc i))
                  (λ z. r.distinct 0 (suc i) (omega arith) lt (r.starts ∙ sym z)) (fresh (suc i) lt)
              ∙ r.backward i (omega (arith, lt))
              ∙ sym (old i (omega (arith, lt)))
        ]
      ];
      distinct = λ i j lt le. elim (Bool-cases (leb j n)) [
        | inl in_old ↦
            let small : j ≤ n = ground (arith, in_old) in
            λ z. r.distinct i j lt small (sym (old i (omega (arith, lt, small))) ∙ z ∙ old j small)
        | inr is_new ↦
            let last : j ≡ suc n = ground (arith, le, is_new) in
            λ z.
              fresh i (omega (arith, lt, last))
                (sym (old i (omega (arith, lt, last))) ∙ z ∙ new j last)
      ];
      present = λ i le. elim (Bool-cases (leb i n)) [
        | inl in_old ↦
            let small : i ≤ n = ground (arith, in_old) in
            λ z. r.present i small (sym (old i small) ∙ z)
        | inr is_new ↦
            let last : i ≡ suc n = ground (arith, le, is_new) in λ z. some_t (sym (new i last) ∙ z)
      ];
      counted = count-added s h (e n) t n r.counted fits;
    }

-- The store with everything between two entries taken out.
abbrev pub joined : Store → ℕ → ℕ → Store
joined s a b = set_prev (set_next s a b) b a

pub joined-next-first : (s : Store) (a b : ℕ) → ((joined s a b).links a).next ≡ b
joined-next-first s a b = next-set_prev (set_next s a b) b a a ∙ next-set_next s a b

pub joined-next : (s : Store) (a b x : ℕ) → x ≢ a → ((joined s a b).links x).next ≡ (s.links x).next
joined-next s a b x ne = next-set_prev (set_next s a b) b a x ∙ next-other s a b x ne

pub joined-prev-last : (s : Store) (a b : ℕ) → ((joined s a b).links b).prev ≡ a
joined-prev-last s a b = prev-set_prev (set_next s a b) b a

pub joined-prev : (s : Store) (a b x : ℕ) → x ≢ b → ((joined s a b).links x).prev ≡ (s.links x).prev
joined-prev s a b x ne = prev-other (set_next s a b) b a x ne ∙ prev-set_next s a b x

-- The entries without the first one.
abbrev pub rest_of : (ℕ → ℕ) → ℕ → ℕ
rest_of e i = if i == 0 then e 0 else e (suc i)

pub rest-later : (e : ℕ → ℕ) (i : ℕ) → 0 < i → rest_of e i ≡ e (suc i)
rest-later e i pos = let later : (i == 0) ≡ false = ground (arith, pos) in rw later refl

count-taken :
    (s : Store) (h n : ℕ)
    → s.entry_count h ≡ suc n
    → suc n < 2 ^ 32
    → (add_count s h (2 ^ 32 - 1)).entry_count h ≡ n
count-taken s h n counts fits =
    rw (==_self h) (ap (λ x. (x + (2 ^ 32 - 1)) % 2 ^ 32) counts ∙ omega (arith, fits))

pub joined-Ring :
    (s : Store) (h n : ℕ) (e : ℕ → ℕ)
    → Ring s h (suc n) e
    → suc n < 2 ^ 32
    → Ring (joined (add_count s h (2 ^ 32 - 1)) h (e 2)) h n (rest_of e)
joined-Ring s h n e r fits =
    let s1 = add_count s h (2 ^ 32 - 1) in
    let s2 = joined s1 h (e 2) in
    let later = rest-later e in
    record {
      starts = r.starts;
      closes = later (suc n) (omega arith) ∙ r.closes;
      forward = λ i le. elim (Bool-cases (i == 0)) [
        | inl z ↦
            let first : i ≡ 0 = (==_iff i 0).0 z in
            ap (λ x. (s2.links x).next) (ap (rest_of e) first ∙ r.starts)
            ∙ joined-next-first s1 h (e 2)
            ∙ sym (later (suc i) (omega arith) ∙ ap (λ x. e (suc (suc x))) first)
        | inr z ↦
            let pos : 0 < i = ground (arith, z) in
            ap (λ x. (s2.links x).next) (later i pos)
            ∙ joined-next s1 h (e 2) (e (suc i))
                (λ y. r.distinct 0 (suc i) (omega arith) (omega (arith, le)) (r.starts ∙ sym y))
            ∙ r.forward (suc i) (omega (arith, le))
            ∙ sym (later (suc i) (omega arith))
      ];
      backward = λ i le. elim (Bool-cases (i == 0)) [
        | inl z ↦
            let first : i ≡ 0 = (==_iff i 0).0 z in
            ap (λ x. (s2.links x).prev)
              (later (suc i) (omega arith) ∙ ap (λ x. e (suc (suc x))) first)
            ∙ joined-prev-last s1 h (e 2)
            ∙ sym (ap (rest_of e) first ∙ r.starts)
        | inr z ↦
            let pos : 0 < i = ground (arith, z) in
            let far : e (suc (suc i)) ≢ e 2 = elim (Bool-cases (i == n)) [
              | inl last ↦ λ y. r.distinct 0 2 (omega arith) (omega (arith, le, pos)) (
                  r.starts
                  ∙ sym r.closes
                  ∙ ap (λ x. e (suc (suc x))) (sym ((==_iff i n).0 last))
                  ∙ y)
              | inr inner ↦ λ y.
                  r.distinct 2 (suc (suc i)) (omega (arith, pos)) (ground (arith, le, inner))
                    (sym y)
            ] in
            ap (λ x. (s2.links x).prev) (later (suc i) (omega arith))
            ∙ joined-prev s1 h (e 2) (e (suc (suc i))) far
            ∙ r.backward (suc i) (omega (arith, le))
            ∙ sym (later i pos)
      ];
      distinct = λ i j lt le. elim (Bool-cases (i == 0)) [
        | inl z ↦
            let first : i ≡ 0 = (==_iff i 0).0 z in
            λ y.
              r.distinct 0 (suc j) (omega arith) (omega (arith, le))
                (sym (ap (rest_of e) first) ∙ y ∙ later j (omega (arith, lt)))
        | inr z ↦
            let pos : 0 < i = ground (arith, z) in
            λ y.
              r.distinct (suc i) (suc j) (omega (arith, lt)) (omega (arith, le))
                (sym (later i pos) ∙ y ∙ later j (omega (arith, lt)))
      ];
      present = λ i le. elim (Bool-cases (i == 0)) [
        | inl z ↦ λ y. r.present 0 (omega arith) (sym (ap (rest_of e) ((==_iff i 0).0 z)) ∙ y)
        | inr z ↦ λ y. r.present (suc i) (omega (arith, le)) (sym (later i (ground (arith, z))) ∙ y)
      ];
      counted = count-taken s h n r.counted fits;
    }
