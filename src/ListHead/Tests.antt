-- ===== src/ListHead/Tests.antt =====
-- The theorems about lists at a concrete heap: the list 1 with the nodes 2 and 3; 4 is a new node.
use het_bed.Base.{ℕ, refl, Bool, ◌==◌, if◌then◌else◌, [], ◌∷◌, ltb, arith}
use het_bed.ListHead.{Heap, list_insert_sorted}
use het_bed.ListHead.Chain.{Fresh, IsList}
use het_bed.ListHead.Sorted.{
  list_insert_sorted_lem, insert_ordered, insert_ordered-Ordered, Ordered,
}

abbrev two_nodes : Heap
two_nodes = record {
  next = λ a. if a == 1 then 2 else if a == 2 then 3 else if a == 3 then 1 else a;
  prev = λ a. if a == 1 then 3 else if a == 2 then 1 else if a == 3 then 2 else a;
}

listed : IsList two_nodes 1 (2 ∷ 3 ∷ [])
listed = record {
  links = (refl, refl, (refl, refl, (refl, refl)));
  distinct = (
    ((λ e. omega (arith, e)), ((λ e. omega (arith, e)), tt)),
    (((λ e. omega (arith, e)), tt), (tt, tt)),
  );
}

new-Fresh : Fresh 4 (1 ∷ 2 ∷ 3 ∷ [])
new-Fresh = ((λ e. omega (arith, e)), ((λ e. omega (arith, e)), ((λ e. omega (arith, e)), tt)))

no_null : Fresh 0 (1 ∷ 2 ∷ 3 ∷ [])
no_null = ((λ e. omega (arith, e)), ((λ e. omega (arith, e)), ((λ e. omega (arith, e)), tt)))

-- The key of a node is its address, but for the new one.
abbrev key : ℕ → ℕ
key a = if a == 4 then 2 else a

abbrev earlier : ℕ → ℕ → Bool
earlier a b = ltb (key a) (key b)

list_insert_sorted_lem_example :
    IsList (list_insert_sorted 2 earlier 4 1 two_nodes) 1 (2 ∷ 4 ∷ 3 ∷ [])
unfolding insert_ordered
list_insert_sorted_lem_example =
    list_insert_sorted_lem earlier 4 2 (2 ∷ 3 ∷ []) (omega arith) listed new-Fresh no_null.1

insert_ordered-Ordered_example : Ordered key (2 ∷ 4 ∷ 3 ∷ [])
unfolding insert_ordered
insert_ordered-Ordered_example = insert_ordered-Ordered key 4 (2 ∷ 3 ∷ []) (omega arith)
