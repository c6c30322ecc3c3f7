-- ===== src/KernelHeap.antt =====
-- src/kernel/mem/vmm.c: the kernel heap, a tree of sections in an array.
pub mod Alloc
mod Tests
pub mod Init
pub mod Ranges
pub mod Runs
pub mod Complete
pub mod Find
pub mod Invariant
use swag_os.Base.{
  ℕ, zero, suc, ◌+◌, ◌-◌, ◌*◌, ◌/◌, ◌%◌, ◌^◌, bit_and, Bool, true, false, not, ◌&&◌, ◌||◌, ◌==◌,
  ltb, leb, if◌then◌else◌,
}
use swag_os.Base.Outcome.{Outcome, ok, hang}

abbrev pub kernel_heap_len : ℕ
kernel_heap_len = 1048575

abbrev pub kernel_heap_minblock : ℕ
kernel_heap_minblock = 64 * 1024

abbrev pub heap_flag_occupied : ℕ
heap_flag_occupied = 1

abbrev pub uint32_max : ℕ
uint32_max = 2 ^ 32 - 1

abbrev pub uint64_max : ℕ
uint64_max = 2 ^ 64 - 1

-- `in_use` holds 0 or 1 only.
pub record HeapSection : Type 0 where
  pub size : ℕ
  pub offset : ℕ
  pub index : ℕ
  pub in_use : Bool
  pub flags : ℕ

-- The array is read and written below `kernel_heap_len` only, but for `get_buddy`.
pub record KernelHeap : Type 0 where
  pub heap_tree : ℕ → HeapSection
  pub va_start : ℕ

abbrev pub occupied : HeapSection → Bool
occupied s = not (bit_and s.flags heap_flag_occupied == 0)

-- An assignment to one section of the array.
unfoldable pub store : KernelHeap → ℕ → HeapSection → KernelHeap
store h i s = record h { heap_tree = λ j. if j == i then s else h.heap_tree j }

-- The recursion stops at the end of the array. Its depth is 22: the index at least doubles below
-- index 1.
pub kernel_heap_tree_init : ℕ → KernelHeap → ℕ → ℕ → ℕ → KernelHeap
kernel_heap_tree_init zero h curr_index block_size offset = h
kernel_heap_tree_init (suc n) h curr_index block_size offset =
    elim (leb kernel_heap_len curr_index) [
      | true ↦ h
      | false ↦
          let h₁ = store h curr_index (record {
            size = block_size;
            offset = offset;
            index = curr_index;
            in_use = false;
            flags = 0;
          }) in
          let h₂ : KernelHeap = elim (curr_index == 0) [
            | true ↦ h₁
            | false ↦ kernel_heap_tree_init n h₁ (curr_index * 2) (block_size / 2) offset
          ] in
          kernel_heap_tree_init n h₂ (curr_index * 2 + 1) (block_size / 2) (offset + block_size / 2)
    ]

-- The section in use nearest to the root that holds the offset, or `UINT32_MAX`. A search that leaves index
-- 0 ends within 22 calls; one of the lower half of a root that is not in use calls itself for ever.
unfoldable pub heap_search : ℕ → KernelHeap → ℕ → ℕ → Outcome ℕ
heap_search zero h offset curr_index = hang
heap_search (suc n) h offset curr_index = elim (leb kernel_heap_len curr_index) [
  | true ↦ ok uint32_max
  | false ↦ elim (not (leb s.offset offset && ltb offset (s.offset + s.size))) [
    | true ↦ ok uint32_max
    | false ↦ elim s.in_use [
      | true ↦ ok curr_index
      | false ↦ elim (leb (s.offset + s.size / 2) offset) [
        | true ↦ heap_search n h offset (curr_index * 2 + 1)
        | false ↦ heap_search n h offset (curr_index * 2)
      ]
    ]
  ]
]
  where
    s : HeapSection
    s = h.heap_tree curr_index

-- The guard of `find_heap_frame` at an index of the array.
abbrev pub refused : HeapSection → ℕ → Bool
refused s size = ltb s.size size || occupied s

-- First fit.
abbrev pub fits : HeapSection → ℕ → Bool
fits s size =
    leb size s.size && (ltb (s.size / 2) size || s.size == kernel_heap_minblock) && not s.in_use

abbrev pub mark_in_use : KernelHeap → ℕ → KernelHeap
mark_in_use h i = store h i (record (h.heap_tree i) { in_use = true })

abbrev pub take_section : KernelHeap → ℕ → KernelHeap
take_section h i = store h i (record (h.heap_tree i) { in_use = true; flags = heap_flag_occupied })

-- `find_heap_frame` has no `return` at its end: `fallen` is what the caller then reads.
module _ (fallen : ℕ) where
  -- After the right search.
  right_done : ℕ → ℕ × KernelHeap → ℕ × KernelHeap
  right_done i (right_search, h) =
      if right_search == uint64_max then (fallen, h) else (right_search, mark_in_use h i)

  -- After the left search, with the right one still to make.
  left_done : ℕ → ℕ × KernelHeap → (KernelHeap → ℕ × KernelHeap) → ℕ × KernelHeap
  left_done i (left_search, h) search_right =
      let r = right_done i (search_right h) in
      if left_search == uint64_max then r else (left_search, mark_in_use h i)

  pub find_heap_frame : ℕ → KernelHeap → ℕ → ℕ → ℕ × KernelHeap
  unfolding right_done left_done
  find_heap_frame zero h size index = (uint64_max, h)
  find_heap_frame (suc n) h size index = elim (leb kernel_heap_len index) [
    | true ↦ (uint64_max, h)
    | false ↦ elim (refused (h.heap_tree index) size) [
      | true ↦ (uint64_max, h)
      | false ↦ elim (fits (h.heap_tree index) size) [
        | true ↦ (((h.heap_tree index).offset + h.va_start) % 2 ^ 64, take_section h index)
        | false ↦ elim (index == 0) [
          | true ↦ right_done index (find_heap_frame n h size (index * 2 + 1))
          | false ↦
              left_done index (find_heap_frame n h size (index * 2))
                (λ h'. find_heap_frame n h' size (index * 2 + 1))
        ]
      ]
    ]
  ]

  pub kheap_request : KernelHeap → ℕ → ℕ × KernelHeap
  unfolding find_heap_frame store
  kheap_request h size = find_heap_frame 22 h size 0

-- Two sections with the same parent; the source reads `heap_tree[1]` as the buddy of the root.
abbrev pub get_buddy : KernelHeap → ℕ → HeapSection
get_buddy h index = if index % 2 == 0 then h.heap_tree (index + 1) else h.heap_tree (index - 1)

abbrev pub heap_get_parent : ℕ → ℕ
heap_get_parent x = (x - x % 2) / 2
