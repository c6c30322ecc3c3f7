-- ===== src/Paging/Kernel.antt =====
-- map_kernel_page, map_4kb_page_kernel and unmap_4kb_page_kernel of src/kernel/mem/pmm.c.
use swag_os.Base.{
  ℕ, ◌+◌, ◌%◌, ◌^◌, ◌≤◌, ◌<◌, bit_and, bit_or, ◌≡◌, refl, ◌∙◌, ◌≢◌, ◌⊎◌, inl, inr, arith,
}
use swag_os.Paging.{
  Memory, entry, row, pml4t_index, pdpt_index, pdt_index, pt_index, page_huge, present_write,
  virtual_to_physical, link_tables, map_kernel_page, KernelTables, AllocType, kernel_binary,
  kernel_heap, kernel_heap2, dm_io, user_binary, user_heap, temporary, number, huge_flags,
}
use swag_os.Paging.Entries.{IsTable, pml4t_index_lem, pdpt_index_lem, pdt_index_lem, pt_index_lem}
use swag_os.Paging.Walk.{
  entry_ne, Linked, Linked-store, link_tables-Linked, walk-Linked, lookup_huge, store_same,
}

-- Two ranges of memory that do not meet.
abbrev pub Apart : ℕ → ℕ → ℕ → ℕ → Type 0
Apart a n b k = (a + n ≤ b) ⊎ (b + k ≤ a)

-- The kernel's tables as the linker places them: in the kernel half, aligned, and apart.
pub record IsPlaced (g : KernelTables) : Type 0 where
  pub pml4t_table : IsTable g.pml4t_kernel
  pub pdpt_table : IsTable g.pdpt_kernel
  pub pdt_table : IsTable g.pdt_kernel
  pub pt_table : IsTable g.pt_kernel
  pub pdt_end : g.pdt_kernel + 2 ^ 21 ≤ 2 ^ 64
  pub pt_end : g.pt_kernel + 2 ^ 21 ≤ 2 ^ 64
  pub pml4t_pdpt : Apart g.pml4t_kernel 4096 g.pdpt_kernel 4096
  pub pml4t_pdt : Apart g.pml4t_kernel 4096 g.pdt_kernel (2 ^ 21)
  pub pml4t_pt : Apart g.pml4t_kernel 4096 g.pt_kernel (2 ^ 21)
  pub pdpt_pdt : Apart g.pdpt_kernel 4096 g.pdt_kernel (2 ^ 21)
  pub pdpt_pt : Apart g.pdpt_kernel 4096 g.pt_kernel (2 ^ 21)
  pub pdt_pt : Apart g.pdt_kernel (2 ^ 21) g.pt_kernel (2 ^ 21)

pub number_small : (t : AllocType) → number t < 7
number_small kernel_binary = omega arith
number_small kernel_heap = omega arith
number_small kernel_heap2 = omega arith
number_small dm_io = omega arith
number_small user_binary = omega arith
number_small user_heap = omega arith
number_small temporary = omega arith

pub row-IsTable : (a i : ℕ) → IsTable a → a + 2 ^ 21 ≤ 2 ^ 64 → i < 512 → IsTable (row a i)
row-IsTable a i t e h = record {
  high = omega (arith, t.high);
  small = omega arith;
  aligned = omega (arith, t.aligned);
}

pub table-row_ne : (a b i : ℕ) → Apart a 4096 b (2 ^ 21) → i < 512 → a ≢ row b i
table-row_ne a b i (inl le) p e = omega arith
table-row_ne a b i (inr le) p e = omega arith

pub row-row_ne : (a b i j : ℕ) → Apart a (2 ^ 21) b (2 ^ 21) → i < 512 → j < 512 → row a i ≢ row b j
row-row_ne a b i j (inl le) p q e = omega arith
row-row_ne a b i j (inr le) p q e = omega arith

pub table-table_ne : (a b : ℕ) → Apart a 4096 b 4096 → a ≢ b
table-table_ne a b (inl le) e = omega arith
table-table_ne a b (inr le) e = omega arith

pub pml4t_index-lt : (va : ℕ) → pml4t_index va < 512
pml4t_index-lt va = omega (arith, pml4t_index_lem va)

pub pdpt_index-lt : (va : ℕ) → pdpt_index va < 512
pdpt_index-lt va = omega (arith, pdpt_index_lem va)

pub pdt_index-lt : (va : ℕ) → pdt_index va < 512
pdt_index-lt va = omega (arith, pdt_index_lem va)

pub pt_index-lt : (va : ℕ) → pt_index va < 512
pt_index-lt va = omega (arith, pt_index_lem va)

-- The tables that a mapping of `va` with type `t` goes through, and that they are different.
module _ (g : KernelTables) (p : IsPlaced g) (va : ℕ) (t : AllocType) where
  abbrev pub directory : ℕ
  directory = row g.pdt_kernel (number t)

  pub directory-IsTable : IsTable directory
  directory-IsTable =
      row-IsTable g.pdt_kernel (number t) p.pdt_table p.pdt_end (omega (arith, number_small t))

  pub upper_ne : entry g.pml4t_kernel (pml4t_index va) ≢ entry g.pdpt_kernel (pdpt_index va)
  upper_ne =
      entry_ne g.pml4t_kernel g.pdpt_kernel (pml4t_index va) (pdpt_index va) p.pml4t_table
        p.pdpt_table (table-table_ne g.pml4t_kernel g.pdpt_kernel p.pml4t_pdpt) (pml4t_index-lt va)
        (pdpt_index-lt va)

  pub pml4t-directory_ne :
      (i : ℕ) → i < 512 → entry g.pml4t_kernel (pml4t_index va) ≢ entry directory i
  pml4t-directory_ne i h =
      entry_ne g.pml4t_kernel directory (pml4t_index va) i p.pml4t_table directory-IsTable
        (table-row_ne g.pml4t_kernel g.pdt_kernel (number t) p.pml4t_pdt
          (omega (arith, number_small t)))
        (pml4t_index-lt va) h

  pub pdpt-directory_ne :
      (i : ℕ) → i < 512 → entry g.pdpt_kernel (pdpt_index va) ≢ entry directory i
  pdpt-directory_ne i h =
      entry_ne g.pdpt_kernel directory (pdpt_index va) i p.pdpt_table directory-IsTable
        (table-row_ne g.pdpt_kernel g.pdt_kernel (number t) p.pdpt_pdt
          (omega (arith, number_small t)))
        (pdpt_index-lt va) h

  -- The two upper levels, as every mapping function of the kernel links them.
  pub linked :
      (m : Memory)
      → Linked
          (link_tables m g.pml4t_kernel g.pdpt_kernel directory present_write va)
          va
          g.pml4t_kernel
          g.pdpt_kernel
          directory
  linked m =
      link_tables-Linked m g.pml4t_kernel g.pdpt_kernel directory present_write va p.pdpt_table
        directory-IsTable (omega arith) upper_ne

  pub map_kernel_page-Linked :
      (m : Memory) (pa : ℕ)
      → Linked (map_kernel_page m g va pa t) va g.pml4t_kernel g.pdpt_kernel directory
  unfolding map_kernel_page
  map_kernel_page-Linked m pa =
      Linked-store (link_tables m g.pml4t_kernel g.pdpt_kernel directory present_write va) va
        g.pml4t_kernel g.pdpt_kernel directory (entry directory (pdt_index va))
        (bit_or pa (huge_flags t)) (linked m) (pml4t-directory_ne (pdt_index va) (pdt_index-lt va))
        (pdpt-directory_ne (pdt_index va) (pdt_index-lt va))

  pub map_kernel_page-entry :
      (m : Memory) (pa : ℕ)
      → map_kernel_page m g va pa t (entry directory (pdt_index va)) ≡ bit_or pa (huge_flags t)
  unfolding map_kernel_page
  map_kernel_page-entry m pa =
      store_same (link_tables m g.pml4t_kernel g.pdpt_kernel directory present_write va)
        (entry directory (pdt_index va)) (bit_or pa (huge_flags t))

pub record HugeFlags (f : ℕ) : Type 0 where
  pub below : f < 4096
  pub positive : 0 < f
  pub huge : bit_and f page_huge ≡ 128

pub huge_flags_lem : (t : AllocType) → HugeFlags (huge_flags t)
unfolding huge_flags
huge_flags_lem kernel_binary = record { below = omega arith; positive = omega arith; huge = refl }
huge_flags_lem kernel_heap = record { below = omega arith; positive = omega arith; huge = refl }
huge_flags_lem kernel_heap2 = record { below = omega arith; positive = omega arith; huge = refl }
huge_flags_lem dm_io = record { below = omega arith; positive = omega arith; huge = refl }
huge_flags_lem user_binary = record { below = omega arith; positive = omega arith; huge = refl }
huge_flags_lem user_heap = record { below = omega arith; positive = omega arith; huge = refl }
huge_flags_lem temporary = record { below = omega arith; positive = omega arith; huge = refl }

-- After map_kernel_page of a page-aligned physical address, virtual_to_physical finds that address
-- as the frame of the virtual address, and its lowest 21 bits as the offset.
pub lookup-map_kernel_page :
    (m : Memory) (g : KernelTables) (va pa : ℕ) (t : AllocType)
    → IsPlaced g
    → pa % 4096 ≡ 0
    → pa < 2 ^ 64
    → virtual_to_physical (map_kernel_page m g va pa t) va g.pml4t_kernel ≡ (pa, va % 2 ^ 21)
lookup-map_kernel_page m g va pa t p al small =
    let f = huge_flags_lem t in
    let dir = directory g p va t in
    walk-Linked (map_kernel_page m g va pa t) va g.pml4t_kernel g.pdpt_kernel dir
      (map_kernel_page-Linked g p va t m pa)
    ∙ lookup_huge (map_kernel_page m g va pa t) va dir pa (huge_flags t)
        (directory-IsTable g p va t) al small f.below f.positive f.huge
        (map_kernel_page-entry g p va t m pa)
