-- ===== src/Examples/Ring.antt =====
-- A list of linkedlist.h with its head at 1 and the entries 2 and 3.
use qv_plugin_netfilter.Base.{◌≡◌, refl, [], ◌∷◌}
use qv_plugin_netfilter.LinkedList.{
  Heap, initialize_list_head, insert_tail_list, remove_entry_list, remove_head_list,
}
use qv_plugin_netfilter.LinkedList.Ring.{IsRing, initialize_list_head-IsRing}
use qv_plugin_netfilter.LinkedList.Insert.{insert_tail_list-IsRing}
use qv_plugin_netfilter.LinkedList.Remove.{remove_entry_list-IsRing, remove_head_list-IsRing}

abbrev blank : Heap
blank = record { flink = λ a. 0; blink = λ a. 0 }

abbrev empty_list : Heap
empty_list = initialize_list_head 1 blank

abbrev one_entry : Heap
one_entry = insert_tail_list 1 2 empty_list

abbrev two_entries : Heap
two_entries = insert_tail_list 1 3 one_entry

one_entry-IsRing : IsRing one_entry 1 (2 ∷ [])
one_entry-IsRing =
    insert_tail_list-IsRing empty_list 1 2 [] (initialize_list_head-IsRing 1 blank) refl

two_entries-IsRing : IsRing two_entries 1 (2 ∷ 3 ∷ [])
two_entries-IsRing = insert_tail_list-IsRing one_entry 1 3 (2 ∷ []) one_entry-IsRing refl

insert_tail_list-IsRing_example : IsRing two_entries 1 (2 ∷ 3 ∷ [])
insert_tail_list-IsRing_example =
    insert_tail_list-IsRing one_entry 1 3 (2 ∷ []) one_entry-IsRing refl

remove_entry_list-IsRing_example : IsRing (remove_entry_list 3 two_entries) 1 (2 ∷ [])
remove_entry_list-IsRing_example =
    remove_entry_list-IsRing two_entries 1 3 (2 ∷ []) [] two_entries-IsRing

remove_head_list-IsRing_example :
    ((remove_head_list 1 two_entries).0 ≡ 2) × IsRing (remove_head_list 1 two_entries).1 1 (3 ∷ [])
remove_head_list-IsRing_example =
    remove_head_list-IsRing two_entries 1 2 (3 ∷ []) two_entries-IsRing
