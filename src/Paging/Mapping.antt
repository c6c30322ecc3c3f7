-- ===== src/Paging/Mapping.antt =====
-- map_4kb_page_user and map_huge_page_user of src/kernel/mem/pmm.c.
use swag_os.Base.{
  ℕ, ◌-◌, ◌%◌, bit_and, bit_or, Bool, not, ◌&&◌, List, ◌∷◌, Option, none, some, ◌==◌, if◌then◌else◌,
}
use swag_os.Base.Outcome.{Outcome, ok, panic}
use swag_os.Pmm.{pgsize}
use swag_os.Paging.{
  Memory, store, entry, row, ptaddrmask, kernel_phys, pdt_index, pt_index, present_write, page_user,
  page_huge, PageTables, link_tables, map_small,
}

-- `struct proc_used_page_entry`
pub record UsedPage : Type 0 where
  pub page_va : ℕ
  pub page_pa : ℕ
  pub pdt_table_index : ℕ
  pub pd_table_index : ℕ

-- The parts of `Process` that mapping changes: the memory of its tables and `used_pages`.
pub record UserSpace : Type 0 where
  pub memory : Memory
  pub used_pages : List UsedPage

abbrev pub user_flags : ℕ
user_flags = bit_or (bit_or page_user 2) 1

-- The page directory entry points to another table.
unfoldable pub directory_taken : ℕ → ℕ → Bool
directory_taken e pt = not (bit_and e ptaddrmask == 0) && not (bit_and e ptaddrmask == pt)

-- `x & PTADDRMASK != NULL` groups as `x & (PTADDRMASK != NULL)`, which is `x & 1`.
unfoldable pub page_taken : ℕ → Bool
page_taken e = not (bit_and e 1 == 0)

unfoldable pub used_page : ℕ → ℕ → ℕ → ℕ → UsedPage
used_page va pa i j = record {
  page_va = va - va % pgsize;
  page_pa = pa;
  pdt_table_index = i;
  pd_table_index = j;
}

-- `alloc` tells whether `kalloc` gave memory for the list entry; without it the next lines write
-- through NULL, and the check that follows them would panic.
unfoldable pub map_4kb_page_user :
    UserSpace → Option PageTables → Bool → ℕ → ℕ → ℕ → ℕ → Outcome UserSpace
unfolding kernel_phys pdt_index pt_index link_tables map_small directory_taken page_taken used_page
map_4kb_page_user s none alloc va pa i j = panic
map_4kb_page_user s (some p) alloc va pa i j =
    let pdt = row p.pdt i in
    let pt = row p.pd j in
    let linked = link_tables s.memory p.pml4t p.pdpt pdt user_flags va in
    let mapped = map_small linked pdt pt user_flags va pa in
    if directory_taken (linked (entry pdt (pdt_index va))) (kernel_phys pt)
    then panic
    else if page_taken (
        store linked (entry pdt (pdt_index va)) (bit_or (kernel_phys pt) user_flags)
          (entry pt (pt_index va)))
    then panic
    else if alloc
    then ok (record { memory = mapped; used_pages = used_page va pa i j ∷ s.used_pages })
    else panic

unfoldable pub map_huge_page_user : Memory → Option PageTables → ℕ → ℕ → ℕ → Outcome Memory
unfolding store pdt_index link_tables page_taken
map_huge_page_user m none va pa index = ok m
map_huge_page_user m (some p) va pa index =
    let pdt = row p.pdt index in
    let linked = link_tables m p.pml4t p.pdpt pdt present_write va in
    if page_taken (linked (entry pdt (pdt_index va)))
    then panic
    else ok (store linked (entry pdt (pdt_index va)) (bit_or (bit_or pa present_write) page_huge))
