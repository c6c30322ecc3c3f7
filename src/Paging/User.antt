-- ===== src/Paging/User.antt =====
-- Theorems on map_4kb_page_user of src/kernel/mem/pmm.c.
use swag_os.Base.{
  ℕ, ◌+◌, ◌%◌, ◌^◌, ◌≤◌, ◌<◌, bit_and, bit_or, ◌≡◌, refl, sym, ◌≢◌, ◌⊎◌, inl, inr, Bool, true,
  false, arith, some, List, ◌∷◌,
}
use swag_os.Base.Outcome.{ok, panic}
use swag_os.Paging.{
  Memory, entry, row, kernel_phys, pml4t_index, pdpt_index, pdt_index, pt_index, ptaddrmask,
  virtual_to_physical, link_tables, map_small, PageTables, is_frame_mapped_thread,
}
use swag_os.Paging.Entries.{
  IsTable, link_nonzero, address_of_link, present_bit, huge_bit, kernel_phys-aligned,
  next_table-link,
}
use swag_os.Paging.Walk.{entry_ne, Linked, link_tables-Linked, link_tables-other, store_other}
use swag_os.Paging.Kernel.{
  Apart, row-IsTable, row-row_ne, table-row_ne, table-table_ne, pml4t_index-lt, pdpt_index-lt,
  pdt_index-lt, pt_index-lt,
}
use swag_os.Paging.Small.{map_small-Linked, map_small-directory, map_small-page, lookup-map_small}
use swag_os.Paging.Mapping.{
  UsedPage, UserSpace, user_flags, directory_taken, page_taken, used_page, map_4kb_page_user,
}

-- The tables of a process as its `pgdir` lays them out: in the kernel half, aligned, and apart.
pub record AreTables (p : PageTables) : Type 0 where
  pub pml4t_table : IsTable p.pml4t
  pub pdpt_table : IsTable p.pdpt
  pub pdt_table : IsTable p.pdt
  pub pd_table : IsTable p.pd
  pub pdt_end : p.pdt + 2 ^ 21 ≤ 2 ^ 64
  pub pd_end : p.pd + 2 ^ 21 ≤ 2 ^ 64
  pub pml4t_pdpt : Apart p.pml4t 4096 p.pdpt 4096
  pub pml4t_pdt : Apart p.pml4t 4096 p.pdt (2 ^ 21)
  pub pml4t_pd : Apart p.pml4t 4096 p.pd (2 ^ 21)
  pub pdpt_pdt : Apart p.pdpt 4096 p.pdt (2 ^ 21)
  pub pdpt_pd : Apart p.pdpt 4096 p.pd (2 ^ 21)
  pub pdt_pd : Apart p.pdt (2 ^ 21) p.pd (2 ^ 21)

-- A page that map_4kb_page_user may map: its directory entry is empty or points to the table `j`
-- already, and its entry in that table is not present.
pub record IsVacant (m : Memory) (p : PageTables) (va i j : ℕ) : Type 0 where
  pub directory :
      (bit_and (m (entry (row p.pdt i) (pdt_index va))) ptaddrmask ≡ 0)
      ⊎ (bit_and (m (entry (row p.pdt i) (pdt_index va))) ptaddrmask ≡ kernel_phys (row p.pd j))
  pub page : bit_and (m (entry (row p.pd j) (pt_index va))) 1 ≡ 0

directory_free :
    (e pt : ℕ)
    → (bit_and e ptaddrmask ≡ 0) ⊎ (bit_and e ptaddrmask ≡ pt)
    → directory_taken e pt ≡ false
unfolding directory_taken
directory_free e pt (inl z) = ground (arith, z)
directory_free e pt (inr z) = ground (arith, z)

page_free : (e : ℕ) → bit_and e 1 ≡ 0 → page_taken e ≡ false
unfolding page_taken
page_free e z = ground (arith, z)

module _ (p : PageTables) (a : AreTables p) (i j : ℕ) (i_small : i < 512) (j_small : j < 512)
    (va : ℕ) where
  abbrev pdt : ℕ
  pdt = row p.pdt i

  abbrev pt : ℕ
  pt = row p.pd j

  pdt-IsTable : IsTable pdt
  pdt-IsTable = row-IsTable p.pdt i a.pdt_table a.pdt_end i_small

  pt-IsTable : IsTable pt
  pt-IsTable = row-IsTable p.pd j a.pd_table a.pd_end j_small

  abbrev linked : Memory → Memory
  linked m = link_tables m p.pml4t p.pdpt pdt user_flags va

  linked-Linked : (m : Memory) → Linked (linked m) va p.pml4t p.pdpt pdt
  linked-Linked m =
      link_tables-Linked m p.pml4t p.pdpt pdt user_flags va a.pdpt_table pdt-IsTable (omega arith) (
        entry_ne p.pml4t p.pdpt (pml4t_index va) (pdpt_index va) a.pml4t_table a.pdpt_table
          (table-table_ne p.pml4t p.pdpt a.pml4t_pdpt) (pml4t_index-lt va) (pdpt_index-lt va))

  -- Linking changes no entry of a table other than the two upper ones.
  linked-other :
      (m : Memory) (t k : ℕ)
      → IsTable t
      → p.pml4t ≢ t
      → p.pdpt ≢ t
      → k < 512
      → linked m (entry t k) ≡ m (entry t k)
  linked-other m t k table ne ne' h =
      link_tables-other m p.pml4t p.pdpt pdt user_flags va (entry t k)
        (λ e.
          entry_ne p.pml4t t (pml4t_index va) k a.pml4t_table table ne (pml4t_index-lt va) h
            (sym e))
        (λ e.
          entry_ne p.pdpt t (pdpt_index va) k a.pdpt_table table ne' (pdpt_index-lt va) h (sym e))

  pml4t-pdt_ne : p.pml4t ≢ pdt
  pml4t-pdt_ne = table-row_ne p.pml4t p.pdt i a.pml4t_pdt i_small

  pml4t-pt_ne : p.pml4t ≢ pt
  pml4t-pt_ne = table-row_ne p.pml4t p.pd j a.pml4t_pd j_small

  pdpt-pdt_ne : p.pdpt ≢ pdt
  pdpt-pdt_ne = table-row_ne p.pdpt p.pdt i a.pdpt_pdt i_small

  pdpt-pt_ne : p.pdpt ≢ pt
  pdpt-pt_ne = table-row_ne p.pdpt p.pd j a.pdpt_pd j_small

  pdt-pt_ne : pdt ≢ pt
  pdt-pt_ne = row-row_ne p.pdt p.pd i j a.pdt_pd i_small j_small

  abbrev mapped : Memory → ℕ → Memory
  mapped m pa = map_small (linked m) pdt pt user_flags va pa

  user_page_mapped :
      (m : Memory) (pa : ℕ)
      → pa % 4096 ≡ 0
      → pa < 2 ^ 64
      → virtual_to_physical (mapped m pa) va p.pml4t ≡ (pa, va % 4096)
  user_page_mapped m pa al small =
      lookup-map_small (linked m) va p.pml4t p.pdpt pdt pt pa user_flags (linked-Linked m)
        a.pml4t_table pt-IsTable pml4t-pdt_ne pml4t-pt_ne pdpt-pdt_ne pdpt-pt_ne pdt-pt_ne al small
        (omega arith) (omega arith) refl

  map_4kb_page_user_runs :
      (s : UserSpace) (pa : ℕ)
      → IsVacant s.memory p va i j
      → map_4kb_page_user s (some p) true va pa i j
        ≡ ok (record {
          memory = mapped s.memory pa;
          used_pages = used_page va pa i j ∷ s.used_pages;
        })
  unfolding map_4kb_page_user
  map_4kb_page_user_runs s pa v =
      let e2 =
        linked-other s.memory pdt (pdt_index va) pdt-IsTable pml4t-pdt_ne pdpt-pdt_ne
          (pdt_index-lt va) in
      let e1 =
        linked-other s.memory pt (pt_index va) pt-IsTable pml4t-pt_ne pdpt-pt_ne (pt_index-lt va) in
      let kept =
        store_other (linked s.memory) (entry pdt (pdt_index va))
          (bit_or (kernel_phys pt) user_flags) (entry pt (pt_index va))
          (λ e.
            entry_ne pdt pt (pdt_index va) (pt_index va) pdt-IsTable pt-IsTable pdt-pt_ne
              (pdt_index-lt va) (pt_index-lt va) (sym e)) in
      rw
        (
          e2,
          directory_free (s.memory (entry pdt (pdt_index va))) (kernel_phys pt) v.directory,
          kept,
          e1,
          page_free (s.memory (entry pt (pt_index va))) v.page,
        )
        refl

  at_directory :
      (m : Memory) (pa : ℕ)
      → mapped m pa (entry pdt (pdt_index va)) ≡ bit_or (kernel_phys pt) user_flags
  at_directory m pa =
      map_small-directory (linked m) va p.pml4t p.pdpt pdt pt pa user_flags (linked-Linked m)
        a.pml4t_table pt-IsTable pml4t-pdt_ne pml4t-pt_ne pdpt-pdt_ne pdpt-pt_ne pdt-pt_ne

  at_page : (m : Memory) (pa : ℕ) → mapped m pa (entry pt (pt_index va)) ≡ bit_or pa user_flags
  at_page m pa =
      map_small-page (linked m) va p.pml4t p.pdpt pdt pt pa user_flags (linked-Linked m)
        a.pml4t_table pt-IsTable pml4t-pdt_ne pml4t-pt_ne pdpt-pdt_ne pdpt-pt_ne pdt-pt_ne

  user_page_found :
      (m : Memory) (pa : ℕ)
      → pa % 4096 ≡ 0
      → is_frame_mapped_thread (mapped m pa) (some p) va ≡ true
  unfolding is_frame_mapped_thread
  user_page_found m pa al =
      let l =
        map_small-Linked (linked m) va p.pml4t p.pdpt pdt pt pa user_flags (linked-Linked m)
          a.pml4t_table pt-IsTable pml4t-pdt_ne pml4t-pt_ne pdpt-pdt_ne pdpt-pt_ne pdt-pt_ne in
      rw
        (
          l.upper,
          link_nonzero p.pdpt l.flags a.pdpt_table l.flags_small,
          next_table-link p.pdpt l.flags a.pdpt_table l.flags_small,
          l.lower,
          link_nonzero pdt l.flags pdt-IsTable l.flags_small,
          next_table-link pdt l.flags pdt-IsTable l.flags_small,
          at_directory m pa,
          huge_bit (kernel_phys pt) user_flags (kernel_phys-aligned pt pt-IsTable),
          next_table-link pt user_flags pt-IsTable (omega arith),
          at_page m pa,
          present_bit pa user_flags al,
        )
        refl

  user_page_taken :
      (m : Memory) (pa pa' : ℕ) (alloc : Bool) (used : List UsedPage)
      → pa % 4096 ≡ 0
      → map_4kb_page_user
          (record { memory = mapped m pa; used_pages = used })
          (some p)
          alloc
          va
          pa'
          i
          j
        ≡ panic
  unfolding map_4kb_page_user page_taken
  user_page_taken m pa pa' alloc used al =
      let e2 =
        linked-other (mapped m pa) pdt (pdt_index va) pdt-IsTable pml4t-pdt_ne pdpt-pdt_ne
          (pdt_index-lt va) in
      let e1 =
        linked-other (mapped m pa) pt (pt_index va) pt-IsTable pml4t-pt_ne pdpt-pt_ne
          (pt_index-lt va) in
      let kept =
        store_other (linked (mapped m pa)) (entry pdt (pdt_index va))
          (bit_or (kernel_phys pt) user_flags) (entry pt (pt_index va))
          (λ e.
            entry_ne pdt pt (pdt_index va) (pt_index va) pdt-IsTable pt-IsTable pdt-pt_ne
              (pdt_index-lt va) (pt_index-lt va) (sym e)) in
      rw
        (
          e2,
          at_directory m pa,
          directory_free (bit_or (kernel_phys pt) user_flags) (kernel_phys pt)
              (inr (address_of_link pt user_flags pt-IsTable (omega arith))),
          kept,
          e1,
          at_page m pa,
          present_bit pa user_flags al,
        )
        refl

  -- Where map_4kb_page_user maps a vacant page with memory for its list entry, it returns: the
  -- process's tables then translate the address to `pa` and its lowest 12 bits,
  -- is_frame_mapped_thread finds it mapped, the page heads the process's list, and mapping the same
  -- address again panics, to whatever frame.
  pub map_4kb_page_user_lem :
      (s : UserSpace) (pa : ℕ)
      → IsVacant s.memory p va i j
      → pa % 4096 ≡ 0
      → pa < 2 ^ 64
      → (s' : UserSpace) × (map_4kb_page_user s (some p) true va pa i j ≡ ok s')
        × (virtual_to_physical s'.memory va p.pml4t ≡ (pa, va % 4096))
        × (is_frame_mapped_thread s'.memory (some p) va ≡ true)
        × (s'.used_pages ≡ used_page va pa i j ∷ s.used_pages)
        × ((pa' : ℕ) (alloc : Bool) → map_4kb_page_user s' (some p) alloc va pa' i j ≡ panic)
  map_4kb_page_user_lem s pa v al small = (
    record { memory = mapped s.memory pa; used_pages = used_page va pa i j ∷ s.used_pages },
    map_4kb_page_user_runs s pa v,
    user_page_mapped s.memory pa al small,
    user_page_found s.memory pa al,
    refl,
    λ pa' alloc. user_page_taken s.memory pa pa' alloc (used_page va pa i j ∷ s.used_pages) al,
  )
