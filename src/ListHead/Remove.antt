-- ===== src/ListHead/Remove.antt =====
-- `ListRemove`.
use het_bed.Base.{
  ℕ, ◌≡◌, ◌≢◌, refl, sym, ◌∙◌, subst, subst, List, [], ◌∷◌, ◌++◌, ◌==◌, if◌then◌else◌, arith, Bool,
  true, false,
}
use het_bed.ListHead.{Heap, set_next, set_prev, list_remove}
use het_bed.ListHead.Chain.{
  Chain, Fresh, Distinct, IsList, Chain-split, Chain-set_next, Chain-set_prev, Fresh-append,
  Fresh-cut, Distinct-split,
}

-- The writes, between the neighbours `l` and `r` of the node.
abbrev unlinked : ℕ → ℕ → ℕ → Heap → Heap
unlinked x l r h = set_prev x x (set_next x x (set_next l r (set_prev r l h)))

-- The neighbours are joined; a chain past them keeps its links.
unlinked-other :
    (x l r : ℕ) (h : Heap) (a : ℕ) (xs : List ℕ) (b : ℕ)
    → Fresh x (a ∷ xs)
    → x ≢ b
    → Fresh l (a ∷ xs)
    → Fresh r xs
    → r ≢ b
    → Chain h a xs b
    → Chain (unlinked x l r h) a xs b
unlinked-other x l r h a xs b fx xb fl fr rb c = Chain-set_prev _ x x a xs b xb fx.1 (
    Chain-set_next _ x x a xs b fx.0 fx.1
      (Chain-set_next _ l r a xs b fl.0 fl.1 (Chain-set_prev h r l a xs b rb fr c)))

same_branches : (t : Bool) (v : ℕ) → (if t then v else v) ≡ v
same_branches true v = refl
same_branches false v = refl

list_remove-unlinked :
    (x l r : ℕ) (h : Heap) → h.prev x ≡ l → h.next x ≡ r → list_remove x h ≡ unlinked x l r h
unfolding list_remove
list_remove-unlinked x l r h el er = rw (same_branches (x == h.next x) (h.prev x), el, er)

-- Nodes that are neither the removed one nor its neighbours keep their links.
pub next-list_remove :
    (x k : ℕ) (h : Heap) → k ≢ x → k ≢ h.prev x → (list_remove x h).next k ≡ h.next k
unfolding list_remove
next-list_remove x k h n m = ground arith

pub prev-list_remove :
    (x k : ℕ) (h : Heap) → k ≢ x → k ≢ h.next x → (list_remove x h).prev k ≡ h.prev k
unfolding list_remove
prev-list_remove x k h n m = ground arith

pub ne-last :
    (h : Heap) (k a : ℕ) (xs : List ℕ) (b : ℕ) → Fresh k (a ∷ xs) → Chain h a xs b → k ≢ h.prev b
ne-last h k a [] b f c = λ e. f.0 (e ∙ c.1)
ne-last h k a (x ∷ xs) b f c = ne-last h k x xs b f.1 c.2

pub ne-first :
    (h : Heap) (k a : ℕ) (xs : List ℕ) (b : ℕ) → Fresh k xs → k ≢ b → Chain h a xs b → k ≢ h.next a
ne-first h k a [] b f n c = λ e. n (e ∙ c.0)
ne-first h k a (x ∷ xs) b f n c = λ e. f.0 (e ∙ c.0)

self_linked : (x : ℕ) (h : Heap) → Chain (list_remove x h) x [] x
unfolding list_remove
self_linked x h = (ground arith, ground arith)

-- Taking the node out from between two chains joins them.
join_segments :
    (h : Heap) (x a : ℕ) (pre post : List ℕ) (b : ℕ)
    → Distinct (a ∷ pre ++ post)
    → Fresh x (a ∷ pre ++ post)
    → x ≢ b
    → Fresh b pre
    → Fresh b post
    → Chain h a pre x
    → Chain h x post b
    → Chain (list_remove x h) a (pre ++ post) b
join_segments h x a [] [] b d fx xb fpre fpost c e =
    rw (list_remove-unlinked x a b h c.1 e.0) (ground arith, ground arith)
join_segments h x a [] (y ∷ post) b d fx xb fpre fpost c e =
    subst (λ g. Chain g a (y ∷ post) b) (sym (list_remove-unlinked x a y h c.1 e.0))
      (
        ground arith,
        ground arith,
        unlinked-other x a y h y post b fx.1 xb d.0 d.1.0 (λ q. fpost.0 (sym q)) e.2,
      )
join_segments h x a (z ∷ pre) post b d fx xb fpre fpost c e =
    let fz = Fresh-cut z pre post d.1.0 in
    let fa = Fresh-cut a (z ∷ pre) post d.0 in
    (
      next-list_remove x a h (λ q. fx.0 (sym q)) (ne-last h a z pre x fa.0 c.2) ∙ c.0,
      prev-list_remove x z h (λ q. fx.1.0 (sym q))
            (ne-first h z x post b fz.1 (λ q. fpre.0 (sym q)) e)
          ∙ c.1,
      join_segments h x z pre post b d.1 fx.1 xb fpre.1 fpost c.2 e,
    )

-- `ListRemove` takes the node out of its list, and leaves the node a list of its own.
pub list_remove_lem :
    {h : Heap} {a : ℕ} (pre : List ℕ) (x : ℕ) (post : List ℕ)
    → IsList h a (pre ++ x ∷ post)
    → IsList (list_remove x h) a (pre ++ post) × IsList (list_remove x h) x []
list_remove_lem {h} {a} pre x post l =
    let c = Chain-split h a pre x post a l.links in
    let d = Distinct-split (a ∷ pre) x post l.distinct in
    let f = Fresh-cut a pre post d.2.0 in
    (
      record {
        links =
            join_segments h x a pre post a d.2 (Fresh-append x (a ∷ pre) post d.0 d.1) d.0.0 f.0 f.1
              c.0 c.1;
        distinct = d.2;
      },
      record { links = self_linked x h; distinct = (tt, tt) },
    )
