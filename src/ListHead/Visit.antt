-- ===== src/ListHead/Visit.antt =====
-- `ListForEachSafe`, `ListFirst` and `ListIsEmpty`.
use het_bed.Base.{
  ℕ, zero, suc, ◌≡◌, ◌≤◌, refl, sym, List, [], ◌∷◌, length, arith, false, ne→==, ◌∙◌,
}
use het_bed.ListHead.{Heap, list_visit, list_first, list_is_empty}
use het_bed.ListHead.Chain.{Chain, Fresh, IsList}

visit-Chain :
    (fuel : ℕ) (h : Heap) (p : ℕ) (xs : List ℕ) (a : ℕ)
    → length xs ≤ fuel
    → Fresh a xs
    → Chain h p xs a
    → list_visit fuel (h.next p) a h ≡ xs
unfolding list_visit
visit-Chain zero h p [] a n f c = refl
visit-Chain zero h p (x ∷ xs) a n f c = absurd (omega arith)
visit-Chain (suc fuel) h p [] a n f c = ground arith
visit-Chain (suc fuel) h p (x ∷ xs) a n f c =
    ground (arith, visit-Chain fuel h x xs a (omega arith) f.1 c.2, c.0)

-- The traversal from `ListFirst` meets the nodes of the list in their order and then ends. The fuel
-- is the number of nodes.
pub list_visit_lem :
    {h : Heap} {a : ℕ} (fuel : ℕ) (xs : List ℕ)
    → length xs ≤ fuel
    → IsList h a xs
    → list_visit fuel (list_first a h) a h ≡ xs
unfolding list_first
list_visit_lem {h} {a} fuel xs n l = visit-Chain fuel h a xs a n l.distinct.0 l.links

-- `ListIsEmpty` says no of every list that was initialised, an empty one too: the head's link is
-- never NULL.
pub list_is_empty_never :
    {h : Heap} {a : ℕ} (xs : List ℕ) → IsList h a xs → Fresh 0 (a ∷ xs) → list_is_empty a h ≡ false
unfolding list_is_empty
list_is_empty_never {h} {a} [] l f = ne→== (h.next a) 0 (λ e. f.0 (sym e ∙ l.links.0))
list_is_empty_never {h} {a} (x ∷ xs) l f = ne→== (h.next a) 0 (λ e. f.1.0 (sym e ∙ l.links.0))
