-- ===== src/LinkedList/Tests.antt =====
-- The theorems on linked lists: a queue that starts empty, and a list of two entries filled in front.
use swag_os.Base.{ℕ, ◌≡◌, refl, [], ◌∷◌, ◌++◌, ◌==◌, if◌then◌else◌, arith}
use swag_os.Base.Outcome.{ok}
use swag_os.LinkedList.{
  Links, Store, remove_dll_entry, remove_dll_entry_head, insert_dll_entry_tail,
}
use swag_os.LinkedList.Fifo.{
  IsQueue, at_first, Taken, insert_dll_entry_tail_lem, remove_dll_entry_head_lem,
}
use swag_os.LinkedList.Front.{Behind, at_end, entry, remove_dll_entry-front}

abbrev zeroed : Store
zeroed = record { links = λ a. record { next = 0; prev = 0 }; entry_count = λ a. 0 }

zeroed-IsQueue : IsQueue zeroed 1 []
zeroed-IsQueue = at_first (λ z. omega (arith, z)) refl refl refl

insert_dll_entry_tail_lem_example :
    (s1 : Store) × (insert_dll_entry_tail zeroed 1 10 ≡ ok s1) × IsQueue s1 1 ([] ++ (10 ∷ []))
insert_dll_entry_tail_lem_example =
    insert_dll_entry_tail_lem zeroed 1 10 [] zeroed-IsQueue (λ z. omega (arith, z))
      (λ z. omega (arith, z)) tt (omega arith)

one_entry : (s1 : Store) × (insert_dll_entry_tail zeroed 1 10 ≡ ok s1) × IsQueue s1 1 (10 ∷ [])
one_entry =
    insert_dll_entry_tail_lem zeroed 1 10 [] zeroed-IsQueue (λ z. omega (arith, z))
      (λ z. omega (arith, z)) tt (omega arith)

remove_dll_entry_head_lem_example :
    Taken one_entry.0 1 (10 ∷ []) (remove_dll_entry_head one_entry.0 1)
remove_dll_entry_head_lem_example =
    remove_dll_entry_head_lem one_entry.0 1 (10 ∷ []) one_entry.2 (omega arith)

abbrev two_links : ℕ → Links
two_links a =
    if a == 1
    then record { next = 10; prev = 0 }
    else if a == 10
    then record { next = 11; prev = 1 }
    else record { next = 1; prev = 1 }

abbrev two : Store
two = record { links = two_links; entry_count = λ a. 2 }

two-Behind : Behind two 1 1 (10 ∷ 11 ∷ [])
two-Behind =
    entry refl refl (λ z. omega (arith, z)) (λ z. omega (arith, z))
      (entry refl refl (λ z. omega (arith, z)) (λ z. omega (arith, z)) (at_end refl))

remove_dll_entry-front_example : Behind (remove_dll_entry two 11) 1 1 []
remove_dll_entry-front_example =
    remove_dll_entry-front two 1 11 (10 ∷ []) [] (λ z. omega (arith, z)) two-Behind
