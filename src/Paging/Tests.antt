-- ===== src/Paging/Tests.antt =====
-- The theorems on the page tables of src/kernel/mem/pmm.c, at concrete tables and addresses.
use swag_os.Base.{ℕ, ◌+◌, ◌≡◌, refl, inl, Bool, true, [], ◌∷◌, some, arith}
use swag_os.Base.Outcome.{ok, panic}
use swag_os.Paging.{
  Memory, KernelTables, PageTables, kernel_hh_start, virtual_to_physical, map_4kb_page_kernel,
  is_frame_mapped_thread, uva_copy_kernel, kernel_binary,
}
use swag_os.Paging.Entries.{address_of_zero}
use swag_os.Paging.Kernel.{IsPlaced}
use swag_os.Paging.Small.{lookup-map_4kb_page_kernel}
use swag_os.Paging.Mapping.{UserSpace, used_page, map_4kb_page_user}
use swag_os.Paging.User.{AreTables, IsVacant, map_4kb_page_user_lem}
use swag_os.Paging.Copy.{lookup-uva_copy_kernel}

abbrev zeros : Memory
zeros = λ _. 0

abbrev tables : KernelTables
tables = record {
  pml4t_kernel = 0xffffffff80100000;
  pdpt_kernel = 0xffffffff80101000;
  pdt_kernel = 0xffffffff80200000;
  pt_kernel = 0xffffffff80400000;
  smp_pdt = 0xffffffff80600000;
  smp_pt = 0xffffffff80601000;
}

tables-IsPlaced : IsPlaced tables
tables-IsPlaced = record {
  pml4t_table = record { high = omega arith; small = omega arith; aligned = refl };
  pdpt_table = record { high = omega arith; small = omega arith; aligned = refl };
  pdt_table = record { high = omega arith; small = omega arith; aligned = refl };
  pt_table = record { high = omega arith; small = omega arith; aligned = refl };
  pdt_end = omega arith;
  pt_end = omega arith;
  pml4t_pdpt = inl (omega arith);
  pml4t_pdt = inl (omega arith);
  pml4t_pt = inl (omega arith);
  pdpt_pdt = inl (omega arith);
  pdpt_pt = inl (omega arith);
  pdt_pt = inl (omega arith);
}

abbrev pgdir : PageTables
pgdir = record {
  pml4t = 0xffffffff80800000;
  pdpt = 0xffffffff80801000;
  pdt = 0xffffffff80900000;
  pd = 0xffffffff80b00000;
}

pgdir-AreTables : AreTables pgdir
pgdir-AreTables = record {
  pml4t_table = record { high = omega arith; small = omega arith; aligned = refl };
  pdpt_table = record { high = omega arith; small = omega arith; aligned = refl };
  pdt_table = record { high = omega arith; small = omega arith; aligned = refl };
  pd_table = record { high = omega arith; small = omega arith; aligned = refl };
  pdt_end = omega arith;
  pd_end = omega arith;
  pml4t_pdpt = inl (omega arith);
  pml4t_pdt = inl (omega arith);
  pml4t_pd = inl (omega arith);
  pdpt_pdt = inl (omega arith);
  pdpt_pd = inl (omega arith);
  pdt_pd = inl (omega arith);
}

lookup-map_4kb_page_kernel_example :
    virtual_to_physical
      (map_4kb_page_kernel zeros tables 0xffffffffc0001234 0x40003000 kernel_binary)
      0xffffffffc0001234
      0xffffffff80100000
    ≡ (0x40003000, 0x234)
lookup-map_4kb_page_kernel_example =
    lookup-map_4kb_page_kernel zeros tables 0xffffffffc0001234 0x40003000 kernel_binary
      tables-IsPlaced refl (omega arith)

abbrev nothing_mapped : UserSpace
nothing_mapped = record { memory = zeros; used_pages = [] }

nothing-IsVacant : IsVacant zeros pgdir 0xfffffc123 500 501
nothing-IsVacant = record { directory = inl address_of_zero; page = refl }

map_4kb_page_user_lem_example :
    (s' : UserSpace) × (map_4kb_page_user nothing_mapped
        (some pgdir)
        true
        0xfffffc123
        0x40000000
        500
        501
      ≡ ok s')
    × (virtual_to_physical s'.memory 0xfffffc123 0xffffffff80800000 ≡ (0x40000000, 0x123))
    × (is_frame_mapped_thread s'.memory (some pgdir) 0xfffffc123 ≡ true)
    × (s'.used_pages ≡ used_page 0xfffffc123 0x40000000 500 501 ∷ [])
    × ((pa' : ℕ) (alloc : Bool)
        → map_4kb_page_user s' (some pgdir) alloc 0xfffffc123 pa' 500 501 ≡ panic)
map_4kb_page_user_lem_example =
    map_4kb_page_user_lem pgdir pgdir-AreTables 500 501 (omega arith) (omega arith) 0xfffffc123
      nothing_mapped 0x40000000 nothing-IsVacant refl (omega arith)

lookup-uva_copy_kernel_example :
    virtual_to_physical
      (uva_copy_kernel zeros pgdir)
      (kernel_hh_start + 0x312345)
      0xffffffff80800000
    ≡ (0x200000, 0x112345)
lookup-uva_copy_kernel_example =
    lookup-uva_copy_kernel zeros pgdir 0x312345 pgdir-AreTables (omega arith)
