-- ===== src/Paging/Copy.antt =====
-- uva_copy_kernel of src/kernel/mem/pmm.c: the kernel's gigabyte in the tables of a process.
use swag_os.Base.{
  ℕ, zero, suc, ◌+◌, ◌-◌, ◌*◌, ◌/◌, ◌%◌, ◌^◌, ◌≤◌, ◌<◌, bit_or, ◌≡◌, refl, sym, ap, ap₂, ◌∙◌, ◌≢◌,
  ◌⊎◌, inl, inr, arith,
}
use swag_os.Base.Bits.{bit_or_step, bit_or-below}
use swag_os.Pmm.{hugepgsize}
use swag_os.Paging.{
  Memory, store, entry, row, kernel_hh_start, kernel_phys, pml4t_index, pdpt_index, pdt_index,
  page_huge, present_write, virtual_to_physical, PageTables, copy_loop, uva_copy_kernel,
}
use swag_os.Paging.Entries.{IsTable, entry_sum, pml4t_index_lem, pdpt_index_lem, pdt_index_lem}
use swag_os.Paging.Walk.{entry_ne, Linked, walk-Linked, lookup_huge, store_same, store_other}
use swag_os.Paging.Kernel.{row-IsTable, table-row_ne, table-table_ne, pdt_index-lt}
use swag_os.Paging.User.{AreTables}

abbrev copied : ℕ → ℕ
copied i = bit_or (bit_or (bit_or (i * hugepgsize) page_huge) 1) 2

even_or : (x : ℕ) → x % 2 ≡ 0 → bit_or x 1 ≡ x + 1
even_or x e =
    ap (λ y. bit_or y 1) (omega arith) ∙ bit_or-below 1 (x / 2) 1 (omega arith) ∙ omega arith

or_two : (x : ℕ) → x / 2 % 2 ≡ 0 → bit_or x 2 ≡ x + 2
or_two x e = omega (arith, bit_or_step x 2, even_or (x / 2) e)

copied_sum : (i : ℕ) → copied i ≡ i * hugepgsize + 131
copied_sum i =
    let huge = entry_sum (i * hugepgsize) page_huge (omega arith) (omega arith) in
    let present = even_or (bit_or (i * hugepgsize) page_huge) (omega (arith, huge)) in
    let write =
      or_two (bit_or (bit_or (i * hugepgsize) page_huge) 1) (omega (arith, huge, present)) in
    omega (arith, huge, present, write)

copied_flags : (i : ℕ) → copied i ≡ bit_or (i * hugepgsize) 131
copied_flags i = copied_sum i ∙ sym (entry_sum (i * hugepgsize) 131 (omega arith) (omega arith))

-- The loop writes entries `i` to `i + n - 1` of the directory only.
copy_loop-other :
    (n i pdt : ℕ) (m : Memory) (b : ℕ)
    → ((k : ℕ) → i ≤ k → k < i + n → b ≢ entry pdt k)
    → copy_loop n i pdt m b ≡ m b
unfolding copy_loop
copy_loop-other zero i pdt m b ne = refl
copy_loop-other (suc n) i pdt m b ne =
    copy_loop-other n (suc i) pdt (store m (entry pdt i) (copied i)) b
      (λ k le lt. ne k (omega arith) (omega arith))
    ∙ store_other m (entry pdt i) (copied i) b (ne i (omega arith) (omega arith))

same-or-later : (i k : ℕ) → i ≤ k → (i ≡ k) ⊎ (suc i ≤ k)
same-or-later i k le = ground arith

copy_loop-entry :
    (n i pdt : ℕ) (m : Memory) (k : ℕ)
    → i ≤ k
    → k < i + n
    → copy_loop n i pdt m (entry pdt k) ≡ copied k
unfolding copy_loop
copy_loop-entry zero i pdt m k le lt = absurd (omega arith)
copy_loop-entry (suc n) i pdt m k le lt = elim (same-or-later i k le) [
  | inl e ↦
      copy_loop-other n (suc i) pdt (store m (entry pdt i) (copied i)) (entry pdt k)
        (λ j lo hi same. omega (arith, same))
      ∙ ap (λ j. store m (entry pdt i) (copied i) (entry pdt j)) (sym e)
      ∙ store_same m (entry pdt i) (copied i)
      ∙ ap copied e
  | inr l ↦ copy_loop-entry n (suc i) pdt (store m (entry pdt i) (copied i)) k l (omega arith)
]

copied-entry :
    (m : Memory) (p : PageTables) (k : ℕ)
    → k < 512
    → uva_copy_kernel m p (entry (row p.pdt 0) k) ≡ bit_or (k * hugepgsize) 131
unfolding uva_copy_kernel
copied-entry m p k h =
    copy_loop-entry 512 0 (row p.pdt 0)
      (store (store m (entry p.pml4t 511) (bit_or (kernel_phys p.pdpt) present_write))
        (entry p.pdpt 510) (bit_or (kernel_phys (row p.pdt 0)) present_write))
      k (omega arith) (omega arith)
    ∙ copied_flags k

-- The loop leaves the two upper tables.
copied-other :
    (m : Memory) (p : PageTables)
    → AreTables p
    → (t i : ℕ) → IsTable t
    → t ≢ row p.pdt 0
    → i < 512
    → copy_loop 512 0 (row p.pdt 0) m (entry t i) ≡ m (entry t i)
copied-other m p a t i table ne h = copy_loop-other 512 0 (row p.pdt 0) m (entry t i) (λ k lo hi.
    entry_ne t (row p.pdt 0) i k table (row-IsTable p.pdt 0 a.pdt_table a.pdt_end (omega arith)) ne
      h (omega arith))

copied-Linked :
    (m : Memory) (p : PageTables)
    → AreTables p
    → (va : ℕ) → pml4t_index va ≡ 511
    → pdpt_index va ≡ 510
    → Linked (uva_copy_kernel m p) va p.pml4t p.pdpt (row p.pdt 0)
unfolding uva_copy_kernel
copied-Linked m p a va e4 e3 =
    let first = store m (entry p.pml4t 511) (bit_or (kernel_phys p.pdpt) present_write) in
    let second =
      store first (entry p.pdpt 510) (bit_or (kernel_phys (row p.pdt 0)) present_write) in
    record {
      flags = present_write;
      flags_small = omega arith;
      pdpt_table = a.pdpt_table;
      pdt_table = row-IsTable p.pdt 0 a.pdt_table a.pdt_end (omega arith);
      upper =
          ap (λ i. copy_loop 512 0 (row p.pdt 0) second (entry p.pml4t i)) e4
          ∙ copied-other second p a p.pml4t 511 a.pml4t_table
              (table-row_ne p.pml4t p.pdt 0 a.pml4t_pdt (omega arith)) (omega arith)
          ∙ store_other first (entry p.pdpt 510) (bit_or (kernel_phys (row p.pdt 0)) present_write)
              (entry p.pml4t 511)
              (entry_ne p.pml4t p.pdpt 511 510 a.pml4t_table a.pdpt_table
                (table-table_ne p.pml4t p.pdpt a.pml4t_pdpt) (omega arith) (omega arith))
          ∙ store_same m (entry p.pml4t 511) (bit_or (kernel_phys p.pdpt) present_write);
      lower =
          ap (λ i. copy_loop 512 0 (row p.pdt 0) second (entry p.pdpt i)) e3
          ∙ copied-other second p a p.pdpt 510 a.pdpt_table
              (table-row_ne p.pdpt p.pdt 0 a.pdpt_pdt (omega arith)) (omega arith)
          ∙ store_same first (entry p.pdpt 510) (bit_or (kernel_phys (row p.pdt 0)) present_write);
    }

-- After uva_copy_kernel, the tables of a process translate the kernel's upper gigabyte to the first
-- gigabyte of physical memory: every address `kernel_hh_start + x` to `x`, as a frame of 2 MB and an
-- offset in it.
pub lookup-uva_copy_kernel :
    (m : Memory) (p : PageTables) (x : ℕ)
    → AreTables p
    → x < 2 ^ 30
    → virtual_to_physical (uva_copy_kernel m p) (kernel_hh_start + x) p.pml4t
      ≡ (x - x % hugepgsize, x % hugepgsize)
lookup-uva_copy_kernel m p x a h =
    let va = kernel_hh_start + x in
    let dir = row p.pdt 0 in
    let same : pdt_index va ≡ x / hugepgsize = omega (arith, pdt_index_lem va) in
    let frame : pdt_index va * hugepgsize ≡ x - x % hugepgsize = omega (arith, same) in
    let offset : va % 2 ^ 21 ≡ x % hugepgsize = omega arith in
    walk-Linked (uva_copy_kernel m p) va p.pml4t p.pdpt dir (
      copied-Linked m p a va (omega (arith, pml4t_index_lem va)) (omega (arith, pdpt_index_lem va)))
    ∙ lookup_huge (uva_copy_kernel m p) va dir (pdt_index va * hugepgsize) 131
        (row-IsTable p.pdt 0 a.pdt_table a.pdt_end (omega arith)) (omega arith) (omega arith)
        (omega arith) (omega arith) refl (copied-entry m p (pdt_index va) (pdt_index-lt va))
    ∙ ap₂ (λ f o. (f, o)) frame offset
