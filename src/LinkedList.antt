-- ===== src/LinkedList.antt =====
-- netfilter/linkedlist.h: the circular doubly linked list, as macros over memory. An entry is its
-- address; LIST_ENTRY, with its two links, is a type of the system's headers.
pub mod Ring
pub mod Insert
pub mod Remove
use qv_plugin_netfilter.Base.{ℕ, Bool, ◌==◌, if◌then◌else◌}

pub record Heap : Type 0 where
  pub flink : ℕ → ℕ
  pub blink : ℕ → ℕ

-- p->Flink = q, p->Blink = q
abbrev pub set_flink : ℕ → ℕ → Heap → Heap
set_flink p q h = record h { flink = λ a. if a == p then q else h.flink a }

abbrev pub set_blink : ℕ → ℕ → Heap → Heap
set_blink p q h = record h { blink = λ a. if a == p then q else h.blink a }

unfoldable pub initialize_list_head : ℕ → Heap → Heap
initialize_list_head head h = set_flink head head (set_blink head head h)

unfoldable pub is_list_empty : ℕ → Heap → Bool
is_list_empty head h = h.flink head == head

unfoldable pub remove_entry_list : ℕ → Heap → Heap
remove_entry_list entry h =
    let flink = h.flink entry in
    let blink = h.blink entry in set_blink flink blink (set_flink blink flink h)

-- The value of the macro, and the memory after it.
unfoldable pub remove_head_list : ℕ → Heap → ℕ × Heap
remove_head_list head h = (h.flink head, remove_entry_list (h.flink head) h)

unfoldable pub remove_tail_list : ℕ → Heap → ℕ × Heap
remove_tail_list head h = (h.blink head, remove_entry_list (h.blink head) h)

unfoldable pub insert_tail_list : ℕ → ℕ → Heap → Heap
insert_tail_list head entry h =
    let blink = h.blink head in
    set_blink head entry (set_flink blink entry (set_blink entry blink (set_flink entry head h)))

unfoldable pub insert_head_list : ℕ → ℕ → Heap → Heap
insert_head_list head entry h =
    let flink = h.flink head in
    set_flink head entry (set_blink flink entry (set_blink entry head (set_flink entry flink h)))
