-- ===== src/Paging.antt =====
-- The page tables of src/kernel/mem/pmm.c: mapping, lookup and unmapping, on a memory of 64-bit
-- words.
pub mod Entries
pub mod Walk
pub mod Kernel
pub mod Small
pub mod Mapping
pub mod User
pub mod Copy
mod Tests
use swag_os.Base.{
  ℕ, zero, suc, ◌+◌, ◌-◌, ◌*◌, ◌/◌, ◌%◌, ◌^◌, bit_and, bit_or, Bool, true, false, not, ◌&&◌, List,
  [], ◌∷◌, Option, none, some, ◌==◌, if◌then◌else◌,
}
use swag_os.Base.Bits.{bit_not}
use swag_os.Base.Outcome.{Outcome, ok, panic, hang, ◌>>=◌}
use swag_os.Pmm.{hugepgsize, pgsize, uint64_max}

abbrev pub kernel_hh_start : ℕ
kernel_hh_start = 0xffffffff80000000

abbrev pub ptaddrmask : ℕ
ptaddrmask = 0xFFFFFFFFFFFFF000

-- PAGE_PRESENT | PAGE_WRITE
abbrev pub present_write : ℕ
present_write = bit_or 1 2

abbrev pub page_user : ℕ
page_user = 4

abbrev pub page_cachedisable : ℕ
page_cachedisable = 16

abbrev pub page_huge : ℕ
page_huge = 128

-- The 64-bit word at a virtual address of the kernel half.
abbrev pub Memory : Type 0
Memory = ℕ → ℕ

unfoldable pub store : Memory → ℕ → ℕ → Memory
store m a v b = if b == a then v else m b

-- `table[i]` for a table of `uint64_t`
abbrev pub entry : ℕ → ℕ → ℕ
entry table i = table + 8 * i

unfoldable pub kernel_phys : ℕ → ℕ
kernel_phys va = bit_and va (bit_not 64 kernel_hh_start)

-- The address of row `i` of a `uint64_t[512][512]`.
abbrev pub row : ℕ → ℕ → ℕ
row tables i = tables + pgsize * i

unfoldable pub pml4t_index : ℕ → ℕ
pml4t_index va = bit_and (va / 2 ^ 39) 0x1FF

unfoldable pub pdpt_index : ℕ → ℕ
pdpt_index va = bit_and (va / 2 ^ 30) 0x1FF

unfoldable pub pdt_index : ℕ → ℕ
pdt_index va = bit_and (va / 2 ^ 21) 0x1FF

unfoldable pub pt_index : ℕ → ℕ
pt_index va = bit_and (va / 2 ^ 12) 0x1FF

-- Where `global_Settings` keeps the kernel's tables.
pub record KernelTables : Type 0 where
  pub pml4t_kernel : ℕ
  pub pdpt_kernel : ℕ
  pub pdt_kernel : ℕ
  pub pt_kernel : ℕ
  pub smp_pdt : ℕ
  pub smp_pt : ℕ

-- Where a process keeps its own.
pub record PageTables : Type 0 where
  pub pml4t : ℕ
  pub pdpt : ℕ
  pub pdt : ℕ
  pub pd : ℕ

pub data AllocType : Type 0 where
  kernel_binary : AllocType
  kernel_heap : AllocType
  kernel_heap2 : AllocType
  dm_io : AllocType
  user_binary : AllocType
  user_heap : AllocType
  temporary : AllocType

abbrev pub number : AllocType → ℕ
number kernel_binary = 0
number kernel_heap = 1
number kernel_heap2 = 2
number dm_io = 3
number user_binary = 4
number user_heap = 5
number temporary = 6

unfoldable pub huge_flags : AllocType → ℕ
huge_flags dm_io = bit_or (bit_or present_write page_huge) page_cachedisable
huge_flags t = bit_or present_write page_huge

-- The first levels of a mapping: the table at each level points to the next one.
unfoldable pub link_tables : Memory → ℕ → ℕ → ℕ → ℕ → ℕ → Memory
unfolding store pml4t_index pdpt_index kernel_phys
link_tables m pml4t pdpt pdt flags va =
    store (store m (entry pml4t (pml4t_index va)) (bit_or (kernel_phys pdpt) flags))
      (entry pdpt (pdpt_index va)) (bit_or (kernel_phys pdt) flags)

unfoldable pub map_kernel_page : Memory → KernelTables → ℕ → ℕ → AllocType → Memory
unfolding store pdt_index link_tables huge_flags
map_kernel_page m g va pa t =
    store
      (link_tables m g.pml4t_kernel g.pdpt_kernel (row g.pdt_kernel (number t)) present_write va)
      (entry (row g.pdt_kernel (number t)) (pdt_index va)) (bit_or pa (huge_flags t))

-- The last two levels of a 4 KB mapping.
unfoldable pub map_small : Memory → ℕ → ℕ → ℕ → ℕ → ℕ → Memory
unfolding store pdt_index pt_index kernel_phys
map_small m pdt pt flags va pa =
    store (store m (entry pdt (pdt_index va)) (bit_or (kernel_phys pt) flags))
      (entry pt (pt_index va)) (bit_or pa flags)

unfoldable pub map_4kb_page_kernel : Memory → KernelTables → ℕ → ℕ → AllocType → Memory
unfolding link_tables map_small pdt_index
map_4kb_page_kernel m g va pa t =
    let pdt = row g.pdt_kernel (number t) in
    map_small (link_tables m g.pml4t_kernel g.pdpt_kernel pdt present_write va) pdt
      (row g.pt_kernel (pdt_index va)) present_write va pa

unfoldable pub map_4kb_page_smp : Memory → KernelTables → ℕ → ℕ → ℕ → Memory
unfolding link_tables map_small
map_4kb_page_smp m g va pa flags =
    map_small (link_tables m g.pml4t_kernel g.pdpt_kernel g.smp_pdt flags va) g.smp_pdt g.smp_pt
      flags va pa

unfoldable pub unmap_4kb_page_kernel : Memory → KernelTables → ℕ → Memory
unfolding store pdt_index pt_index
unmap_4kb_page_kernel m g va = store m (entry (row g.pt_kernel (pdt_index va)) (pt_index va)) 0

unfoldable pub unmap_4kb_page_process : Memory → PageTables → ℕ → Memory
unfolding store pdt_index pt_index
unmap_4kb_page_process m p va = store m (entry (row p.pd (pdt_index va)) (pt_index va)) 0

-- The loop of uva_copy_kernel, from entry `i` on with `n` entries left.
unfoldable pub copy_loop : ℕ → ℕ → ℕ → Memory → Memory
unfolding store
copy_loop zero i pdt m = m
copy_loop (suc n) i pdt m =
    copy_loop n (suc i) pdt
      (store m (entry pdt i) (bit_or (bit_or (bit_or (i * hugepgsize) page_huge) 1) 2))

unfoldable pub uva_copy_kernel : Memory → PageTables → Memory
unfolding store kernel_phys copy_loop
uva_copy_kernel m p = copy_loop 512 0 (row p.pdt 0) (
    store (store m (entry p.pml4t 511) (bit_or (kernel_phys p.pdpt) present_write))
      (entry p.pdpt 510) (bit_or (kernel_phys (row p.pdt 0)) present_write))

-- The table that an entry points to, in the kernel half.
unfoldable pub next_table : ℕ → ℕ
next_table e = (bit_and e ptaddrmask + kernel_hh_start) % 2 ^ 64

abbrev pub unmapped : ℕ × ℕ
unmapped = (uint64_max, uint64_max)

-- virtual_to_physical from the page directory on: the frame and the offset in it.
unfoldable pub directory_lookup : Memory → ℕ → ℕ → ℕ × ℕ
unfolding next_table pdt_index pt_index
directory_lookup m va pdt =
    let e = m (entry pdt (pdt_index va)) in
    let pt = next_table e in
    if pdt == 0
    then unmapped
    else if e == 0
    then unmapped
    else if not (bit_and e page_huge == 0)
    then (bit_and e ptaddrmask, bit_and va 0x1FFFFF)
    else if pt == 0
    then unmapped
    else (bit_and (m (entry pt (pt_index va))) ptaddrmask, bit_and va 0xFFF)

unfoldable pub virtual_to_physical : Memory → ℕ → ℕ → ℕ × ℕ
unfolding next_table pml4t_index pdpt_index directory_lookup
virtual_to_physical m va pml4t =
    let pdpt = next_table (m (entry pml4t (pml4t_index va))) in
    if pdpt == 0
    then unmapped
    else directory_lookup m va (next_table (m (entry pdpt (pdpt_index va))))

unfoldable pub is_frame_mapped_kernel : Memory → KernelTables → ℕ → ℕ → Bool
unfolding next_table pml4t_index pdpt_index pdt_index
is_frame_mapped_kernel m g va pml4t =
    let pdt = bit_and (m (entry g.pdpt_kernel (pdpt_index va))) ptaddrmask in
    let e = m (entry ((pdt + kernel_hh_start) % 2 ^ 64) (pdt_index va)) in
    if bit_and (m (entry pml4t (pml4t_index va))) ptaddrmask == 0
    then false
    else if pdt == 0
    then false
    else if e == 0
    then false
    else if not (bit_and e page_huge == 0)
    then true
    else not (bit_and e ptaddrmask == 0)

-- `x & PTADDRMASK == NULL` groups as `x & (PTADDRMASK == NULL)`, which is `x & 0`: the page
-- directory entry is never found missing. `x & PTADDRMASK != 0` is `x & 1`.
unfoldable pub is_frame_mapped_thread : Memory → Option PageTables → ℕ → Bool
unfolding next_table pml4t_index pdpt_index pdt_index pt_index
is_frame_mapped_thread m none va = false
is_frame_mapped_thread m (some p) va =
    let e4 = m (entry p.pml4t (pml4t_index va)) in
    let e3 = m (entry (next_table e4) (pdpt_index va)) in
    let e2 = m (entry (next_table e3) (pdt_index va)) in
    if bit_and e4 ptaddrmask == 0
    then false
    else if bit_and e3 ptaddrmask == 0
    then false
    else if not (bit_and e2 page_huge == 0)
    then true
    else not (bit_and (m (entry (next_table e2) (pt_index va))) 1 == 0)
