-- ===== src/LinkedList.antt =====
-- src/kernel/data_structures/linked_list.c: lists through `next` and `prev`, on a store of pointers. A
-- header and an entry have their two pointers at the same places, and the source casts the one to the
-- other: `first` of a header is its `next`, `last` its `prev`.
pub mod Fifo
pub mod Front
pub mod Queue
mod Tests
use swag_os.Base.{
  ℕ, zero, suc, ◌+◌, ◌-◌, ◌%◌, ◌^◌, Bool, true, false, not, ◌||◌, Option, none, some, ◌==◌,
  if◌then◌else◌,
}
use swag_os.Base.Outcome.{Outcome, ok, panic}

-- `NULL`
abbrev pub null : ℕ
null = 0

-- `dll_Entry` and, without its count, `dll_Head`
pub record Links : Type 0 where
  pub next : ℕ
  pub prev : ℕ

-- The links at each address, and the `entry_count` of each header.
pub record Store : Type 0 where
  pub links : ℕ → Links
  pub entry_count : ℕ → ℕ

abbrev pub set_next : Store → ℕ → ℕ → Store
set_next s a v = record s {
  links = λ b. if b == a then record (s.links a) { next = v } else s.links b;
}

abbrev pub set_prev : Store → ℕ → ℕ → Store
set_prev s a v = record s {
  links = λ b. if b == a then record (s.links a) { prev = v } else s.links b;
}

-- The counts are 32-bit.
abbrev pub add_count : Store → ℕ → ℕ → Store
add_count s a n = record s {
  entry_count = λ b. if b == a then (s.entry_count a + n) % 2 ^ 32 else s.entry_count b;
}

-- The entry is given back as it is; its own links stay.
unfoldable pub remove_dll_entry : Store → ℕ → Store
remove_dll_entry s to_rm =
    let prev = (s.links to_rm).prev in
    let next = (s.links to_rm).next in
    let s1 = if prev == null then s else set_next s prev next in
    if next == null then s1 else set_prev s1 next prev

-- The store and the entry that was first, if there is one.
unfoldable pub remove_dll_entry_head : Store → ℕ → Outcome (Store × Option ℕ)
unfolding remove_dll_entry
remove_dll_entry_head s header =
    let first = (s.links header).next in
    if header == null
    then panic
    else if first == null || first == header || s.entry_count header == 0
    then ok (s, none)
    else ok (remove_dll_entry (add_count s header (2 ^ 32 - 1)) first, some first)

unfoldable pub insert_dll_entry_head : Store → ℕ → ℕ → Outcome Store
insert_dll_entry_head s header to_insert =
    let first = (s.links header).next in
    if first == null
    then (if not ((s.links header).prev == null)
        then panic
        else ok (
            add_count
              (set_next (set_prev (set_next s header to_insert) to_insert header) to_insert header)
              header 1))
    else ok (
        add_count
          (set_next (set_prev (set_next s header to_insert) to_insert header) to_insert first)
          header 1)

unfoldable pub insert_dll_entry_tail : Store → ℕ → ℕ → Outcome Store
insert_dll_entry_tail s header to_insert =
    let last = (s.links header).prev in
    if last == null
    then (if not ((s.links header).next == null)
        then panic
        else ok (
            add_count
              (set_prev
                (set_next (set_next (set_prev s header to_insert) header to_insert) to_insert
                  header)
                to_insert header)
              header 1))
    else ok (
        add_count
          (set_next
            (set_prev (set_next (set_prev s header to_insert) to_insert header) to_insert last) last
            to_insert)
          header 1)
