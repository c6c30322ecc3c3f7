-- ===== src/LinkedList/Front.antt =====
-- src/kernel/data_structures/linked_list.c: lists that are only filled with insert_dll_entry_head.
use swag_os.Base.{
  ℕ, ◌≡◌, ◌≢◌, refl, sym, ap, ◌∙◌, inl, inr, not, List, [], ◌∷◌, ◌++◌, ◌==◌, if◌then◌else◌,
  Bool-cases, ==_ne, ==_iff, arith,
}
use swag_os.Base.Outcome.{ok, panic}
use swag_os.LinkedList.{
  null, Store, set_next, set_prev, add_count, remove_dll_entry, insert_dll_entry_head,
}
use swag_os.LinkedList.Queue.{
  next-set_next, next-other, prev-set_next, prev-set_prev, prev-other, next-set_prev, joined,
  joined-next-first, joined-next, joined-prev-last, joined-prev,
}
use swag_os.LinkedList.Fifo.{NotIn, remove-joined}

-- The entries behind `a` up to the header, each with the header as its `prev`.
pub data Behind (s : Store) (h : ℕ) : ℕ → List ℕ → Type 0 where
  at_end : {a : ℕ} → (s.links a).next ≡ h → Behind s h a []
  entry :
      {a x : ℕ} {xs : List ℕ}
      → (s.links a).next ≡ x
      → (s.links x).prev ≡ h
      → x ≢ h
      → x ≢ null
      → Behind s h x xs
      → Behind s h a (x ∷ xs)

-- A change that keeps what the entries behind `a` hold.
behind-kept :
    (s s1 : Store) (h t a : ℕ) (xs : List ℕ)
    → ((b : ℕ) → b ≢ h → b ≢ t → (s1.links b).next ≡ (s.links b).next)
    → ((b : ℕ) → b ≢ h → b ≢ t → (s.links b).prev ≡ h → (s1.links b).prev ≡ h)
    → (s1.links a).next ≡ (s.links a).next
    → NotIn t xs
    → Behind s h a xs
    → Behind s1 h a xs
behind-kept s s1 h t a [] nexts prevs first out (at_end e) = at_end (first ∙ e)
behind-kept s s1 h t a (x ∷ xs) nexts prevs first out (entry e back not_h some_x rest) =
    entry (first ∙ e) (prevs x not_h out.0 back) not_h some_x
      (behind-kept s s1 h t x xs nexts prevs (nexts x not_h out.0) out.1 rest)

-- The store after an insertion at the head.
abbrev pub pushed : Store → ℕ → ℕ → ℕ → Store
pushed s h t next = add_count (set_next (set_prev (set_next s h t) t h) t next) h 1

pushed-next-new : (s : Store) (h t n : ℕ) → ((pushed s h t n).links t).next ≡ n
pushed-next-new s h t n = next-set_next (set_prev (set_next s h t) t h) t n

pushed-next-head : (s : Store) (h t n : ℕ) → h ≢ t → ((pushed s h t n).links h).next ≡ t
pushed-next-head s h t n ne =
    next-other (set_prev (set_next s h t) t h) t n h ne
    ∙ next-set_prev (set_next s h t) t h h
    ∙ next-set_next s h t

pushed-next :
    (s : Store) (h t n b : ℕ) → b ≢ h → b ≢ t → ((pushed s h t n).links b).next ≡ (s.links b).next
pushed-next s h t n b nh nt =
    next-other (set_prev (set_next s h t) t h) t n b nt
    ∙ next-set_prev (set_next s h t) t h b
    ∙ next-other s h t b nh

pushed-prev-new : (s : Store) (h t n : ℕ) → ((pushed s h t n).links t).prev ≡ h
pushed-prev-new s h t n =
    prev-set_next (set_prev (set_next s h t) t h) t n t ∙ prev-set_prev (set_next s h t) t h

pushed-prev : (s : Store) (h t n b : ℕ) → b ≢ t → ((pushed s h t n).links b).prev ≡ (s.links b).prev
pushed-prev s h t n b nt =
    prev-set_next (set_prev (set_next s h t) t h) t n b
    ∙ prev-other (set_next s h t) t h b nt
    ∙ prev-set_next s h t b

insert-pushed :
    (s : Store) (h t : ℕ)
    → (s.links h).next ≢ null
    → insert_dll_entry_head s h t ≡ ok (pushed s h t (s.links h).next)
unfolding insert_dll_entry_head
insert-pushed s h t ne =
    ap
      (λ b.
        if b
        then (if not ((s.links h).prev == null) then panic else ok (pushed s h t h))
        else ok (pushed s h t (s.links h).next))
      (==_ne (s.links h).next null ne)

behind-some :
    (s : Store) (h a : ℕ) (xs : List ℕ) → h ≢ null → Behind s h a xs → (s.links a).next ≢ null
behind-some s h a _ some_h (at_end e) z = some_h (sym e ∙ z)
behind-some s h a _ some_h (entry e back not_h some_x rest) z = some_x (sym e ∙ z)

pushed-Behind :
    (s : Store) (h t : ℕ) (xs : List ℕ)
    → h ≢ t
    → t ≢ null
    → NotIn t xs
    → Behind s h h xs
    → Behind (pushed s h t (s.links h).next) h h (t ∷ xs)
pushed-Behind s h t xs ne some_t out list =
    let n = (s.links h).next in
    entry (pushed-next-head s h t n ne) (pushed-prev-new s h t n) (λ z. ne (sym z)) some_t
      (new_first xs out list)
  where
    kept :
        (x : ℕ) (ys : List ℕ)
        → x ≢ h
        → x ≢ t
        → NotIn t ys
        → Behind s h x ys
        → Behind (pushed s h t (s.links h).next) h x ys
    kept x ys not_h not_t out rest =
        behind-kept s (pushed s h t (s.links h).next) h t x ys
          (λ b nh nt. pushed-next s h t (s.links h).next b nh nt)
          (λ b nh nt e. pushed-prev s h t (s.links h).next b nt ∙ e)
          (pushed-next s h t (s.links h).next x not_h not_t) out rest

    new_first :
        (ys : List ℕ) → NotIn t ys → Behind s h h ys → Behind (pushed s h t (s.links h).next) h t ys
    new_first [] out (at_end e) = at_end (pushed-next-new s h t (s.links h).next ∙ e)
    new_first (x ∷ ys) out (entry e back not_h some_x rest) =
        entry (pushed-next-new s h t (s.links h).next ∙ e)
          (pushed-prev s h t (s.links h).next x out.0 ∙ back) not_h some_x
          (kept x ys not_h out.0 out.1 rest)

-- The list behind an entry of a list.
behind-suffix :
    (s : Store) (h a x : ℕ) (newer older : List ℕ)
    → Behind s h a (newer ++ (x ∷ older))
    → ((s.links x).prev ≡ h) × (x ≢ h) × Behind s h x older
behind-suffix s h a x [] older (entry e back not_h some_x rest) = (back, not_h, rest)
behind-suffix s h a x (y ∷ newer) older (entry e back not_h some_y rest) =
    behind-suffix s h y x newer older rest

joined-prev-kept :
    (s : Store) (h n b : ℕ) → (s.links b).prev ≡ h → ((joined s h n).links b).prev ≡ h
joined-prev-kept s h n b e = elim (Bool-cases (b == n)) [
  | inl same ↦
      ap (λ x. ((joined s h n).links x).prev) ((==_iff b n).0 same) ∙ joined-prev-last s h n
  | inr ne ↦ joined-prev s h n b (λ z. ground (arith, z, ne)) ∙ e
]

joined-kept :
    (s : Store) (h n a : ℕ) (xs : List ℕ) → a ≢ h → Behind s h a xs → Behind (joined s h n) h a xs
joined-kept s h n a [] ne (at_end e) = at_end (joined-next s h n a ne ∙ e)
joined-kept s h n a (x ∷ xs) ne (entry e back not_h some_x rest) =
    entry (joined-next s h n a ne ∙ e) (joined-prev-kept s h n x back) not_h some_x
      (joined-kept s h n x xs not_h rest)

-- The store after the removal of an entry whose `prev` is the header.
removed-Behind :
    (s : Store) (h x : ℕ) (older : List ℕ)
    → Behind s h x older
    → Behind (joined s h (s.links x).next) h h older
removed-Behind s h x [] (at_end e) = at_end (joined-next-first s h (s.links x).next ∙ e)
removed-Behind s h x (y ∷ older) (entry e back not_h some_y rest) =
    let n = (s.links x).next in
    entry (joined-next-first s h n ∙ e) (joined-prev-kept s h n y back) not_h some_y
      (joined-kept s h n y older not_h rest)

-- insert_dll_entry_head of a new entry into a list that it alone has filled, and that has had an entry
-- before, puts the entry in front.
pub insert_dll_entry_head_lem :
    (s : Store) (h t : ℕ) (xs : List ℕ)
    → h ≢ null
    → h ≢ t
    → t ≢ null
    → NotIn t xs
    → Behind s h h xs
    → (s1 : Store) × (insert_dll_entry_head s h t ≡ ok s1) × Behind s1 h h (t ∷ xs)
insert_dll_entry_head_lem s h t xs some_h ne some_t out list = (
  pushed s h t (s.links h).next,
  insert-pushed s h t (behind-some s h h xs some_h list),
  pushed-Behind s h t xs ne some_t out list,
)

-- remove_dll_entry of an entry of such a list drops with it every entry that was inserted after it: what
-- is left are the entries that are older.
pub remove_dll_entry-front :
    (s : Store) (h x : ℕ) (newer older : List ℕ)
    → h ≢ null
    → Behind s h h (newer ++ (x ∷ older))
    → Behind (remove_dll_entry s x) h h older
remove_dll_entry-front s h x newer older some_h list =
    let (back, not_h, rest) = behind-suffix s h h x newer older list in
    let n = (s.links x).next in
    rw (remove-joined s x h n back refl some_h (behind-some s h x older some_h rest))
      (removed-Behind s h x older rest)
