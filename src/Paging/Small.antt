-- ===== src/Paging/Small.antt =====
-- 4 KB mappings of the kernel in src/kernel/mem/pmm.c, their removal, and mappings side by side.
use swag_os.Base.{ℕ, ◌%◌, ◌^◌, ◌<◌, bit_and, bit_or, ◌≡◌, refl, sym, ap, ◌∙◌, ◌≢◌, arith}
use swag_os.Paging.{
  Memory, store, entry, row, kernel_phys, pml4t_index, pdpt_index, pdt_index, pt_index, ptaddrmask,
  page_huge, present_write, virtual_to_physical, link_tables, map_small, map_kernel_page,
  map_4kb_page_kernel, unmap_4kb_page_kernel, KernelTables, AllocType, number, huge_flags,
}
use swag_os.Paging.Entries.{IsTable, address_of_zero}
use swag_os.Paging.Walk.{
  entry_ne, Linked, Linked-store, walk-Linked, lookup_huge, lookup_page, lookup_small, store_same,
  store_other,
}
use swag_os.Paging.Kernel.{
  IsPlaced, number_small, row-IsTable, row-row_ne, table-row_ne, pml4t_index-lt, pdpt_index-lt,
  pdt_index-lt, pt_index-lt, directory, directory-IsTable, pml4t-directory_ne, pdpt-directory_ne,
  linked, map_kernel_page-Linked, map_kernel_page-entry, huge_flags_lem,
}

-- A small mapping below a linked directory.
module _ (m : Memory) (va pml4t pdpt pdt pt pa flags : ℕ) (l : Linked m va pml4t pdpt pdt)
    (pml4t_table : IsTable pml4t) (pt_table : IsTable pt) (pml4t_pdt : pml4t ≢ pdt)
    (pml4t_pt : pml4t ≢ pt) (pdpt_pdt : pdpt ≢ pdt) (pdpt_pt : pdpt ≢ pt) (pdt_pt : pdt ≢ pt) where
  abbrev half_mapped : Memory
  half_mapped = store m (entry pdt (pdt_index va)) (bit_or (kernel_phys pt) flags)

  pub map_small-Linked : Linked (map_small m pdt pt flags va pa) va pml4t pdpt pdt
  unfolding map_small
  map_small-Linked =
      Linked-store half_mapped va pml4t pdpt pdt (entry pt (pt_index va)) (bit_or pa flags)
        (Linked-store m va pml4t pdpt pdt (entry pdt (pdt_index va)) (bit_or (kernel_phys pt) flags)
          l
          (entry_ne pml4t pdt (pml4t_index va) (pdt_index va) pml4t_table l.pdt_table pml4t_pdt
            (pml4t_index-lt va) (pdt_index-lt va))
          (entry_ne pdpt pdt (pdpt_index va) (pdt_index va) l.pdpt_table l.pdt_table pdpt_pdt
            (pdpt_index-lt va) (pdt_index-lt va)))
        (entry_ne pml4t pt (pml4t_index va) (pt_index va) pml4t_table pt_table pml4t_pt
          (pml4t_index-lt va) (pt_index-lt va))
        (entry_ne pdpt pt (pdpt_index va) (pt_index va) l.pdpt_table pt_table pdpt_pt
          (pdpt_index-lt va) (pt_index-lt va))

  pub map_small-directory :
      map_small m pdt pt flags va pa (entry pdt (pdt_index va)) ≡ bit_or (kernel_phys pt) flags
  unfolding map_small
  map_small-directory =
      store_other half_mapped (entry pt (pt_index va)) (bit_or pa flags) (entry pdt (pdt_index va))
        (entry_ne pdt pt (pdt_index va) (pt_index va) l.pdt_table pt_table pdt_pt (pdt_index-lt va)
          (pt_index-lt va))
      ∙ store_same m (entry pdt (pdt_index va)) (bit_or (kernel_phys pt) flags)

  pub map_small-page : map_small m pdt pt flags va pa (entry pt (pt_index va)) ≡ bit_or pa flags
  unfolding map_small
  map_small-page = store_same half_mapped (entry pt (pt_index va)) (bit_or pa flags)

  pub lookup-map_small :
      pa % 4096 ≡ 0
      → pa < 2 ^ 64
      → flags < 4096
      → 0 < flags
      → bit_and flags page_huge ≡ 0
      → virtual_to_physical (map_small m pdt pt flags va pa) va pml4t ≡ (pa, va % 4096)
  lookup-map_small al small below positive no_huge =
      walk-Linked (map_small m pdt pt flags va pa) va pml4t pdpt pdt map_small-Linked
      ∙ lookup_small (map_small m pdt pt flags va pa) va pdt pt pa flags l.pdt_table pt_table al
          small below positive no_huge map_small-directory map_small-page

  pub lookup-unmapped :
      flags < 4096
      → 0 < flags
      → bit_and flags page_huge ≡ 0
      → virtual_to_physical
          (store (map_small m pdt pt flags va pa) (entry pt (pt_index va)) 0)
          va
          pml4t
        ≡ (0, va % 4096)
  lookup-unmapped below positive no_huge =
      let mapped = map_small m pdt pt flags va pa in
      let cleared = store mapped (entry pt (pt_index va)) 0 in
      walk-Linked cleared va pml4t pdpt pdt (
        Linked-store mapped va pml4t pdpt pdt (entry pt (pt_index va)) 0 map_small-Linked
          (entry_ne pml4t pt (pml4t_index va) (pt_index va) pml4t_table pt_table pml4t_pt
            (pml4t_index-lt va) (pt_index-lt va))
          (entry_ne pdpt pt (pdpt_index va) (pt_index va) l.pdpt_table pt_table pdpt_pt
            (pdpt_index-lt va) (pt_index-lt va)))
      ∙ lookup_page cleared va pdt pt flags l.pdt_table pt_table below positive no_huge (
          store_other mapped (entry pt (pt_index va)) 0 (entry pdt (pdt_index va)) (
            entry_ne pdt pt (pdt_index va) (pt_index va) l.pdt_table pt_table pdt_pt
              (pdt_index-lt va) (pt_index-lt va))
          ∙ map_small-directory)
      ∙ ap (λ x. (x, va % 4096))
          (ap (λ x. bit_and x ptaddrmask) (store_same mapped (entry pt (pt_index va)) 0)
            ∙ address_of_zero)

-- After map_4kb_page_kernel of a page-aligned physical address, virtual_to_physical finds that
-- address as the frame of the virtual address, and its lowest 12 bits as the offset.
pub lookup-map_4kb_page_kernel :
    (m : Memory) (g : KernelTables) (va pa : ℕ) (t : AllocType)
    → IsPlaced g
    → pa % 4096 ≡ 0
    → pa < 2 ^ 64
    → virtual_to_physical (map_4kb_page_kernel m g va pa t) va g.pml4t_kernel ≡ (pa, va % 4096)
unfolding map_4kb_page_kernel
lookup-map_4kb_page_kernel m g va pa t p al small =
    let dir = directory g p va t in
    lookup-map_small (link_tables m g.pml4t_kernel g.pdpt_kernel dir present_write va) va
      g.pml4t_kernel g.pdpt_kernel dir (row g.pt_kernel (pdt_index va)) pa present_write
      (linked g p va t m) p.pml4t_table
      (row-IsTable g.pt_kernel (pdt_index va) p.pt_table p.pt_end (pdt_index-lt va))
      (table-row_ne g.pml4t_kernel g.pdt_kernel (number t) p.pml4t_pdt
        (omega (arith, number_small t)))
      (table-row_ne g.pml4t_kernel g.pt_kernel (pdt_index va) p.pml4t_pt (pdt_index-lt va))
      (table-row_ne g.pdpt_kernel g.pdt_kernel (number t) p.pdpt_pdt
        (omega (arith, number_small t)))
      (table-row_ne g.pdpt_kernel g.pt_kernel (pdt_index va) p.pdpt_pt (pdt_index-lt va))
      (row-row_ne g.pdt_kernel g.pt_kernel (number t) (pdt_index va) p.pdt_pt
        (omega (arith, number_small t)) (pdt_index-lt va))
      al small (omega arith) (omega arith) refl

Linked-same :
    (m : Memory) (va va' pml4t pdpt pdt : ℕ)
    → pml4t_index va ≡ pml4t_index va'
    → pdpt_index va ≡ pdpt_index va'
    → Linked m va' pml4t pdpt pdt
    → Linked m va pml4t pdpt pdt
Linked-same m va va' pml4t pdpt pdt e4 e3 l = record {
  flags = l.flags;
  flags_small = l.flags_small;
  pdpt_table = l.pdpt_table;
  pdt_table = l.pdt_table;
  upper = ap (λ i. m (entry pml4t i)) e4 ∙ l.upper;
  lower = ap (λ i. m (entry pdpt i)) e3 ∙ l.lower;
}

-- map_kernel_page writes no other entry of its page directory.
map_kernel_page-other :
    (m : Memory) (g : KernelTables) (va pa : ℕ) (t : AllocType) (p : IsPlaced g) (i : ℕ)
    → i < 512
    → i ≢ pdt_index va
    → map_kernel_page m g va pa t (entry (row g.pdt_kernel (number t)) i)
      ≡ m (entry (row g.pdt_kernel (number t)) i)
unfolding map_kernel_page link_tables
map_kernel_page-other m g va pa t p i h ne =
    let dir = row g.pdt_kernel (number t) in
    let upper =
      store m (entry g.pml4t_kernel (pml4t_index va))
        (bit_or (kernel_phys g.pdpt_kernel) present_write) in
    let lower =
      store upper (entry g.pdpt_kernel (pdpt_index va)) (bit_or (kernel_phys dir) present_write) in
    store_other lower (entry dir (pdt_index va)) (bit_or pa (huge_flags t)) (entry dir i)
      (λ e. ne (omega (arith, e)))
    ∙ store_other upper (entry g.pdpt_kernel (pdpt_index va))
        (bit_or (kernel_phys dir) present_write) (entry dir i)
        (λ e. pdpt-directory_ne g p va t i h (sym e))
    ∙ store_other m (entry g.pml4t_kernel (pml4t_index va))
        (bit_or (kernel_phys g.pdpt_kernel) present_write) (entry dir i)
        (λ e. pml4t-directory_ne g p va t i h (sym e))

-- Mapping a second huge page with the same type in the same gigabyte, elsewhere in the page
-- directory, leaves the translation of the first one.
pub map_kernel_page-twice :
    (m : Memory) (g : KernelTables) (va pa va' pa' : ℕ) (t : AllocType)
    → IsPlaced g
    → pa % 4096 ≡ 0
    → pa < 2 ^ 64
    → pml4t_index va ≡ pml4t_index va'
    → pdpt_index va ≡ pdpt_index va'
    → pdt_index va ≢ pdt_index va'
    → virtual_to_physical
        (map_kernel_page (map_kernel_page m g va pa t) g va' pa' t)
        va
        g.pml4t_kernel
      ≡ (pa, va % 2 ^ 21)
map_kernel_page-twice m g va pa va' pa' t p al small e4 e3 ne =
    let f = huge_flags_lem t in
    let dir = directory g p va t in
    let first = map_kernel_page m g va pa t in
    let second = map_kernel_page first g va' pa' t in
    walk-Linked second va g.pml4t_kernel g.pdpt_kernel dir (
      Linked-same second va va' g.pml4t_kernel g.pdpt_kernel dir e4 e3
        (map_kernel_page-Linked g p va' t first pa'))
    ∙ lookup_huge second va dir pa (huge_flags t) (directory-IsTable g p va t) al small f.below
        f.positive f.huge
        (map_kernel_page-other first g va' pa' t p (pdt_index va) (pdt_index-lt va) ne
          ∙ map_kernel_page-entry g p va t m pa)

-- unmap_4kb_page_kernel clears the page's entry only: virtual_to_physical of a page that was mapped
-- and unmapped gives the frame 0 with the offset, not UINT64_MAX for both.
pub unmap_4kb_page_kernel_lem :
    (m : Memory) (g : KernelTables) (va pa : ℕ) (t : AllocType)
    → IsPlaced g
    → virtual_to_physical
        (unmap_4kb_page_kernel (map_4kb_page_kernel m g va pa t) g va)
        va
        g.pml4t_kernel
      ≡ (0, va % 4096)
unfolding unmap_4kb_page_kernel map_4kb_page_kernel
unmap_4kb_page_kernel_lem m g va pa t p =
    let dir = directory g p va t in
    lookup-unmapped (link_tables m g.pml4t_kernel g.pdpt_kernel dir present_write va) va
      g.pml4t_kernel g.pdpt_kernel dir (row g.pt_kernel (pdt_index va)) pa present_write
      (linked g p va t m) p.pml4t_table
      (row-IsTable g.pt_kernel (pdt_index va) p.pt_table p.pt_end (pdt_index-lt va))
      (table-row_ne g.pml4t_kernel g.pdt_kernel (number t) p.pml4t_pdt
        (omega (arith, number_small t)))
      (table-row_ne g.pml4t_kernel g.pt_kernel (pdt_index va) p.pml4t_pt (pdt_index-lt va))
      (table-row_ne g.pdpt_kernel g.pdt_kernel (number t) p.pdpt_pdt
        (omega (arith, number_small t)))
      (table-row_ne g.pdpt_kernel g.pt_kernel (pdt_index va) p.pdpt_pt (pdt_index-lt va))
      (row-row_ne g.pdt_kernel g.pt_kernel (number t) (pdt_index va) p.pdt_pt
        (omega (arith, number_small t)) (pdt_index-lt va))
      (omega arith) (omega arith) refl
