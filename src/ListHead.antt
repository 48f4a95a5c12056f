-- ===== src/ListHead.antt =====
-- lib/utlt/include/utlt_list.h: circular doubly linked lists through an embedded node. The macros
-- are statements over one heap; an argument that is an expression is read again at each statement.
pub mod Chain
pub mod Insert
pub mod Tail
pub mod Remove
pub mod Sorted
pub mod Visit
pub mod Frame
pub mod Pairs
mod Tests
use het_bed.Base.{ℕ, zero, suc, Bool, ◌==◌, if◌then◌else◌, List, [], ◌∷◌}

-- Nodes are addresses, 0 is NULL.
pub record Heap : Type 0 where
  pub next : ℕ → ℕ
  pub prev : ℕ → ℕ

abbrev pub update : (ℕ → ℕ) → ℕ → ℕ → ℕ → ℕ
update f k v j = if j == k then v else f j

abbrev pub set_next : ℕ → ℕ → Heap → Heap
set_next k v h = record h { next = update h.next k v }

abbrev pub set_prev : ℕ → ℕ → Heap → Heap
set_prev k v h = record h { prev = update h.prev k v }

unfoldable pub list_head_init : ℕ → Heap → Heap
list_head_init a h = set_prev a a (set_next a a h)

unfoldable pub list_first : ℕ → Heap → ℕ
list_first a h = h.next a

unfoldable pub list_is_empty : ℕ → Heap → Bool
list_is_empty a h = h.next a == 0

-- `ListInsert`: `new` goes behind `name`.
unfoldable pub list_insert : ℕ → ℕ → Heap → Heap
list_insert new name h =
    let h1 = set_prev (h.next name) new h in
    let h2 = set_next new (h1.next name) h1 in let h3 = set_prev new name h2 in set_next name new h3

-- `ListInsertTail`: the place is `name->next`, and the node that follows it is taken to be `name`.
unfoldable pub list_insert_tail : ℕ → ℕ → Heap → Heap
list_insert_tail new name h =
    let h1 = set_prev name new h in
    let h2 = set_next new name h1 in
    let h3 = set_prev new (h2.next name) h2 in set_next (h3.next name) new h3

-- `ListRemove`
unfoldable pub list_remove : ℕ → Heap → Heap
unfolding list_head_init
list_remove entry h =
    let h1 = set_prev (h.next entry) (h.prev entry) h in
    let h2 = set_next (h1.prev entry) (h1.next entry) h1 in list_head_init entry h2

-- The loop of `ListInsertSorted` from `iter` on: `before` is the callback's answer `< 0` for the
-- new node and the one given. The result is the node behind which the new one goes.
pub sorted_place : ℕ → (ℕ → Bool) → ℕ → ℕ → Heap → ℕ
sorted_place zero before name iter h = iter
sorted_place (suc fuel) before name iter h =
    let rest = sorted_place fuel before name (h.next iter) h in
    if h.next iter == 0
    then iter
    else if h.next iter == name
    then iter
    else if before (h.next iter)
    then iter
    else rest

unfoldable pub list_insert_sorted : ℕ → (ℕ → ℕ → Bool) → ℕ → ℕ → Heap → Heap
unfolding list_insert
list_insert_sorted fuel before new name h =
    list_insert new (sorted_place fuel (before new) name name h) h

-- `ListForEachSafe` with a body that changes no links: the nodes in the order of the visit.
unfoldable pub list_visit : ℕ → ℕ → ℕ → Heap → List ℕ
list_visit zero it name h = []
list_visit (suc fuel) it name h =
    let rest = list_visit fuel (h.next it) name h in if it == name then [] else it ∷ rest
