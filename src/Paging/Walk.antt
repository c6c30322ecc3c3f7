-- ===== src/Paging/Walk.antt =====
-- virtual_to_physical of src/kernel/mem/pmm.c, on tables that are linked as the mapping functions
-- link them.
use swag_os.Base.{
  ℕ, ◌%◌, ◌^◌, ◌<◌, bit_and, bit_or, ◌≡◌, refl, ap, ◌∙◌, ◌≢◌, ==_self, false, ◌==◌, ==_ne, arith,
}
use swag_os.Paging.{
  Memory, store, link_tables, entry, ptaddrmask, kernel_phys, pml4t_index, pdpt_index, pdt_index,
  pt_index, page_huge, directory_lookup, virtual_to_physical,
}
use swag_os.Paging.Entries.{
  IsTable, kernel_phys-aligned, entry_nonzero, next_table-link, huge_bit, address_of_entry,
  offset_4kb, offset_huge,
}

-- The two upper levels of the tables for `va` lead to the page directory `pdt`.
pub record Linked (m : Memory) (va pml4t pdpt pdt : ℕ) : Type 0 where
  pub flags : ℕ
  pub flags_small : flags < 4096
  pub pdpt_table : IsTable pdpt
  pub pdt_table : IsTable pdt
  pub upper : m (entry pml4t (pml4t_index va)) ≡ bit_or (kernel_phys pdpt) flags
  pub lower : m (entry pdpt (pdpt_index va)) ≡ bit_or (kernel_phys pdt) flags

pub store_same : (m : Memory) (a v : ℕ) → store m a v a ≡ v
unfolding store
store_same m a v = rw (==_self a) refl

pub store_other : (m : Memory) (a v b : ℕ) → b ≢ a → store m a v b ≡ m b
unfolding store
store_other m a v b ne = rw (==_ne b a ne) refl

-- Entries of two page-aligned tables are different words.
pub entry_ne :
    (a b i j : ℕ) → IsTable a → IsTable b → a ≢ b → i < 512 → j < 512 → entry a i ≢ entry b j
entry_ne a b i j t u ne p q e = ne (omega (arith, t.aligned, u.aligned))

pub Linked-store :
    (m : Memory) (va pml4t pdpt pdt a v : ℕ) (l : Linked m va pml4t pdpt pdt)
    → entry pml4t (pml4t_index va) ≢ a
    → entry pdpt (pdpt_index va) ≢ a
    → Linked (store m a v) va pml4t pdpt pdt
Linked-store m va pml4t pdpt pdt a v l p q = record {
  flags = l.flags;
  flags_small = l.flags_small;
  pdpt_table = l.pdpt_table;
  pdt_table = l.pdt_table;
  upper = store_other m a v (entry pml4t (pml4t_index va)) p ∙ l.upper;
  lower = store_other m a v (entry pdpt (pdpt_index va)) q ∙ l.lower;
}

pub link_tables-Linked :
    (m : Memory) (pml4t pdpt pdt flags va : ℕ)
    → IsTable pdpt
    → IsTable pdt
    → flags < 4096
    → entry pml4t (pml4t_index va) ≢ entry pdpt (pdpt_index va)
    → Linked (link_tables m pml4t pdpt pdt flags va) va pml4t pdpt pdt
unfolding link_tables
link_tables-Linked m pml4t pdpt pdt flags va t u s ne = record {
  flags = flags;
  flags_small = s;
  pdpt_table = t;
  pdt_table = u;
  upper =
      store_other (store m (entry pml4t (pml4t_index va)) (bit_or (kernel_phys pdpt) flags))
        (entry pdpt (pdpt_index va)) (bit_or (kernel_phys pdt) flags) (entry pml4t (pml4t_index va))
        ne
      ∙ store_same m (entry pml4t (pml4t_index va)) (bit_or (kernel_phys pdpt) flags);
  lower =
      store_same (store m (entry pml4t (pml4t_index va)) (bit_or (kernel_phys pdpt) flags))
        (entry pdpt (pdpt_index va)) (bit_or (kernel_phys pdt) flags);
}

-- Linking the tables writes two words only.
pub link_tables-other :
    (m : Memory) (pml4t pdpt pdt flags va b : ℕ)
    → b ≢ entry pml4t (pml4t_index va)
    → b ≢ entry pdpt (pdpt_index va)
    → link_tables m pml4t pdpt pdt flags va b ≡ m b
unfolding link_tables
link_tables-other m pml4t pdpt pdt flags va b p q =
    store_other (store m (entry pml4t (pml4t_index va)) (bit_or (kernel_phys pdpt) flags))
      (entry pdpt (pdpt_index va)) (bit_or (kernel_phys pdt) flags) b q
    ∙ store_other m (entry pml4t (pml4t_index va)) (bit_or (kernel_phys pdpt) flags) b p

IsTable-nonzero : (a : ℕ) → IsTable a → (a == 0) ≡ false
IsTable-nonzero a t = ==_ne a 0 (λ e. omega (arith, t.high))

pub walk-Linked :
    (m : Memory) (va pml4t pdpt pdt : ℕ)
    → Linked m va pml4t pdpt pdt
    → virtual_to_physical m va pml4t ≡ directory_lookup m va pdt
unfolding virtual_to_physical
walk-Linked m va pml4t pdpt pdt l =
    rw
      (
        l.upper,
        next_table-link pdpt l.flags l.pdpt_table l.flags_small,
        IsTable-nonzero pdpt l.pdpt_table,
        l.lower,
        next_table-link pdt l.flags l.pdt_table l.flags_small,
      )
      refl

pub lookup_huge :
    (m : Memory) (va pdt pa flags : ℕ)
    → IsTable pdt
    → pa % 4096 ≡ 0
    → pa < 2 ^ 64
    → flags < 4096
    → 0 < flags
    → bit_and flags page_huge ≡ 128
    → m (entry pdt (pdt_index va)) ≡ bit_or pa flags
    → directory_lookup m va pdt ≡ (pa, va % 2 ^ 21)
unfolding directory_lookup
lookup_huge m va pdt pa flags t al s fs some_flag huge e =
    let nonzero : (bit_or pa flags == 0) ≡ false = entry_nonzero pa flags al fs some_flag in
    rw
      (
        e,
        IsTable-nonzero pdt t,
        nonzero,
        huge_bit pa flags al,
        huge,
        address_of_entry pa flags al s fs,
        offset_huge va,
      )
      refl

-- A directory entry that points to a page table: the frame is what the page's entry holds.
pub lookup_page :
    (m : Memory) (va pdt pt flags : ℕ)
    → IsTable pdt
    → IsTable pt
    → flags < 4096
    → 0 < flags
    → bit_and flags page_huge ≡ 0
    → m (entry pdt (pdt_index va)) ≡ bit_or (kernel_phys pt) flags
    → directory_lookup m va pdt ≡ (bit_and (m (entry pt (pt_index va))) ptaddrmask, va % 4096)
unfolding directory_lookup
lookup_page m va pdt pt flags t u fs some_flag huge e =
    let nonzero : (bit_or (kernel_phys pt) flags == 0) ≡ false =
      entry_nonzero (kernel_phys pt) flags (kernel_phys-aligned pt u) fs some_flag in
    let aligned : kernel_phys pt % 4096 ≡ 0 = kernel_phys-aligned pt u in
    rw
      (
        e,
        IsTable-nonzero pdt t,
        nonzero,
        huge_bit (kernel_phys pt) flags aligned,
        huge,
        next_table-link pt flags u fs,
        IsTable-nonzero pt u,
        offset_4kb va,
      )
      refl

pub lookup_small :
    (m : Memory) (va pdt pt pa flags : ℕ)
    → IsTable pdt
    → IsTable pt
    → pa % 4096 ≡ 0
    → pa < 2 ^ 64
    → flags < 4096
    → 0 < flags
    → bit_and flags page_huge ≡ 0
    → m (entry pdt (pdt_index va)) ≡ bit_or (kernel_phys pt) flags
    → m (entry pt (pt_index va)) ≡ bit_or pa flags
    → directory_lookup m va pdt ≡ (pa, va % 4096)
lookup_small m va pdt pt pa flags t u al s fs some_flag huge e e' =
    lookup_page m va pdt pt flags t u fs some_flag huge e
    ∙ ap (λ x. (x, va % 4096))
        (ap (λ x. bit_and x ptaddrmask) e' ∙ address_of_entry pa flags al s fs)
