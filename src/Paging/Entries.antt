-- ===== src/Paging/Entries.antt =====
-- Entries of src/kernel/mem/pmm.c: an address, aligned to its frame, with flags below it.
use swag_os.Base.{
  ℕ, ◌+◌, ◌-◌, ◌*◌, ◌/◌, ◌%◌, ◌^◌, ◌≤◌, ◌<◌, bit_and, bit_or, ◌≡◌, sym, ap, ◌∙◌, Bool, false, ◌||◌,
  ◌==◌, if◌then◌else◌, arith,
}
use swag_os.Base.Bits.{
  bit_not, bit_and-low, bit_and-high, bit_or-below, bit_and-pow, test_bit, test_bit-bit_or,
}
use swag_os.Paging.{
  kernel_hh_start, ptaddrmask, kernel_phys, pml4t_index, pdpt_index, pdt_index, pt_index,
  next_table, page_huge,
}

-- A table of the kernel half, on a page boundary.
pub record IsTable (a : ℕ) : Type 0 where
  pub high : kernel_hh_start < a
  pub small : a < 2 ^ 64
  pub aligned : a % 4096 ≡ 0

pub low_mask : (x : ℕ) → bit_and x 0x1FF ≡ x % 512
low_mask x =
    ap (λ y. bit_and y 0x1FF) (omega arith) ∙ bit_and-low 9 (x / 512) (x % 512) (omega arith)

pub offset_4kb : (x : ℕ) → bit_and x 0xFFF ≡ x % 4096
offset_4kb x =
    ap (λ y. bit_and y 0xFFF) (omega arith) ∙ bit_and-low 12 (x / 4096) (x % 4096) (omega arith)

pub offset_huge : (x : ℕ) → bit_and x 0x1FFFFF ≡ x % 2 ^ 21
offset_huge x =
    ap (λ y. bit_and y 0x1FFFFF) (omega arith)
    ∙ bit_and-low 21 (x / 2 ^ 21) (x % 2 ^ 21) (omega arith)

pub pml4t_index_lem : (va : ℕ) → pml4t_index va ≡ va / 2 ^ 39 % 512
unfolding pml4t_index
pml4t_index_lem va = low_mask (va / 2 ^ 39)

pub pdpt_index_lem : (va : ℕ) → pdpt_index va ≡ va / 2 ^ 30 % 512
unfolding pdpt_index
pdpt_index_lem va = low_mask (va / 2 ^ 30)

pub pdt_index_lem : (va : ℕ) → pdt_index va ≡ va / 2 ^ 21 % 512
unfolding pdt_index
pdt_index_lem va = low_mask (va / 2 ^ 21)

pub pt_index_lem : (va : ℕ) → pt_index va ≡ va / 2 ^ 12 % 512
unfolding pt_index
pt_index_lem va = low_mask (va / 2 ^ 12)

pub kernel_phys_lem :
    (a : ℕ) → kernel_hh_start ≤ a → a < 2 ^ 64 → kernel_phys a ≡ a - kernel_hh_start
unfolding kernel_phys
kernel_phys_lem a h l =
    ap (λ y. bit_and y (bit_not 64 kernel_hh_start)) (omega arith)
    ∙ bit_and-low 31 (2 ^ 33 - 1) (a - kernel_hh_start) (omega arith)

pub entry_sum : (a f : ℕ) → a % 4096 ≡ 0 → f < 4096 → bit_or a f ≡ a + f
entry_sum a f h s =
    ap (λ y. bit_or y f) (omega arith) ∙ bit_or-below 12 (a / 4096) f s ∙ omega arith

pub address_of_entry :
    (a f : ℕ) → a % 4096 ≡ 0 → a < 2 ^ 64 → f < 4096 → bit_and (bit_or a f) ptaddrmask ≡ a
address_of_entry a f h l s =
    let sum : bit_or a f ≡ a / 4096 * 2 ^ 12 + f = omega (arith, entry_sum a f h s) in
    ap (λ y. bit_and y ptaddrmask) sum
    ∙ bit_and-high 12 52 (a / 4096) f (omega arith) s
    ∙ omega arith

pub address_of_zero : bit_and 0 ptaddrmask ≡ 0
address_of_zero = bit_and-high 12 52 0 0 (omega arith) (omega arith)

pub next_table-link : (a f : ℕ) → IsTable a → f < 4096 → next_table (bit_or (kernel_phys a) f) ≡ a
unfolding next_table
next_table-link a f t s =
    let low = kernel_phys_lem a (omega (arith, t.high)) t.small in
    let address = address_of_entry (kernel_phys a) f (ground (arith, t.aligned)) (omega arith) s in
    omega arith

aligned_bits : (a : ℕ) → a % 4096 ≡ 0 → (test_bit a 7 ≡ false) × (test_bit a 0 ≡ false)
aligned_bits a h = (ground arith, ground arith)

pub huge_bit : (a f : ℕ) → a % 4096 ≡ 0 → bit_and (bit_or a f) page_huge ≡ bit_and f page_huge
huge_bit a f h =
    bit_and-pow 7 (bit_or a f)
    ∙ ap (λ (b : Bool). if b then 128 else 0)
        (test_bit-bit_or 7 a f ∙ ap (λ b. b || test_bit f 7) (aligned_bits a h).0)
    ∙ sym (bit_and-pow 7 f)

pub present_bit : (a f : ℕ) → a % 4096 ≡ 0 → bit_and (bit_or a f) 1 ≡ bit_and f 1
present_bit a f h =
    bit_and-pow 0 (bit_or a f)
    ∙ ap (λ (b : Bool). if b then 1 else 0)
        (test_bit-bit_or 0 a f ∙ ap (λ b. b || test_bit f 0) (aligned_bits a h).1)
    ∙ sym (bit_and-pow 0 f)

pub kernel_phys-aligned : (a : ℕ) → IsTable a → kernel_phys a % 4096 ≡ 0
kernel_phys-aligned a t =
    ground (arith, t.aligned, kernel_phys_lem a (omega (arith, t.high)) t.small)

pub entry_nonzero : (a f : ℕ) → a % 4096 ≡ 0 → f < 4096 → 0 < f → (bit_or a f == 0) ≡ false
entry_nonzero a f h s p = ground (arith, entry_sum a f h s)

pub address_of_link :
    (a f : ℕ) → IsTable a → f < 4096 → bit_and (bit_or (kernel_phys a) f) ptaddrmask ≡ kernel_phys a
address_of_link a f t s =
    address_of_entry (kernel_phys a) f (kernel_phys-aligned a t)
      (omega (arith, kernel_phys_lem a (omega (arith, t.high)) t.small)) s

-- The address in an entry that points to a table is not NULL.
pub link_nonzero :
    (a f : ℕ) → IsTable a → f < 4096 → (bit_and (bit_or (kernel_phys a) f) ptaddrmask == 0) ≡ false
link_nonzero a f t s =
    ground
      (arith, kernel_phys_lem a (omega (arith, t.high)) t.small, address_of_link a f t s, t.high)
