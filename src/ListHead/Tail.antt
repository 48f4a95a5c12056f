-- ===== src/ListHead/Tail.antt =====
-- `ListInsertTail`.
use het_bed.Base.{ℕ, sym, List, [], ◌∷◌, arith}
use het_bed.ListHead.{Heap, set_next, set_prev, list_insert_tail}
use het_bed.ListHead.Chain.{Fresh, IsList}

-- The list that the macro leaves: the first node of the old one, if there is one, and the new node.
unfoldable pub tail_result : ℕ → List ℕ → List ℕ
tail_result new [] = new ∷ []
tail_result new (x ∷ xs) = x ∷ new ∷ []

-- The four writes, with the successor `n` of the head.
abbrev linked : ℕ → ℕ → ℕ → Heap → Heap
linked new a n h = set_next n new (set_prev new n (set_next new a (set_prev a new h)))

-- `ListInsertTail` appends to a list of at most one node; of a longer list it keeps the first node
-- only, and puts the new one behind that.
pub list_insert_tail_lem :
    {h : Heap} {a : ℕ} (xs : List ℕ) (new : ℕ)
    → IsList h a xs
    → Fresh new (a ∷ xs)
    → IsList (list_insert_tail new a h) a (tail_result new xs)
unfolding list_insert_tail tail_result
list_insert_tail_lem {h} {a} [] new l f = record {
  links = (ground arith, ground arith, (ground arith, ground arith));
  distinct = (((λ e. f.0 (sym e)), tt), (tt, tt));
}
list_insert_tail_lem {h} {a} (x ∷ xs) new l f = record {
  links = (ground arith, ground arith, (ground arith, ground arith, (ground arith, ground arith)));
  distinct = ((l.distinct.0.0, ((λ e. f.0 (sym e)), tt)), (((λ e. f.1.0 (sym e)), tt), (tt, tt)));
}
