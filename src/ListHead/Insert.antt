-- ===== src/ListHead/Insert.antt =====
-- `ListInsert` and `ListInsertTail` on lists.
use het_bed.Base.{ℕ, ◌≡◌, ◌≢◌, sym, subst, List, [], ◌∷◌, ◌++◌, arith, All, All-append}
use het_bed.ListHead.{Heap, set_next, set_prev, list_insert}
use het_bed.ListHead.Chain.{
  Chain, Fresh, Distinct, IsList, Chain-append, Chain-split, Chain-set_next, Chain-set_prev,
  Fresh-split, Fresh-append, Fresh-cut, Distinct-split, Distinct-insert, Distinct-right,
  Distinct-apart,
}

-- The four writes, with the successor `n` of the place `p`.
abbrev linked : ℕ → ℕ → ℕ → Heap → Heap
linked new p n h = set_next p new (set_prev new p (set_next new n (set_prev n new h)))

-- The writes leave a chain alone whose nodes with a successor are not `new` or `p`, and whose nodes
-- with a predecessor are not `new` or `n`.
linked-other :
    (new p n : ℕ) (h : Heap) (a : ℕ) (xs : List ℕ) (b : ℕ)
    → Fresh new (a ∷ xs)
    → Fresh p (a ∷ xs)
    → Fresh n xs
    → n ≢ b
    → new ≢ b
    → Chain h a xs b
    → Chain (linked new p n h) a xs b
linked-other new p n h a xs b fnew fp fn nb newb c = Chain-set_next _ p new a xs b fp.0 fp.1 (
    Chain-set_prev _ new p a xs b newb fnew.1
      (Chain-set_next _ new n a xs b fnew.0 fnew.1 (Chain-set_prev h n new a xs b nb fn c)))

linked-here :
    (new p n : ℕ) (h : Heap)
    → new ≢ p
    → new ≢ n
    → let g = linked new p n h in
      (g.next p ≡ new) × (g.prev new ≡ p) × (g.next new ≡ n) × (g.prev n ≡ new)
linked-here new p n h np nn = (ground arith, ground arith, ground arith, ground arith)

-- Behind the place come the new node and what was there.
insert_segment :
    (new : ℕ) (h : Heap) (p : ℕ) (post : List ℕ) (b : ℕ)
    → Fresh new (p ∷ post)
    → new ≢ b
    → Fresh p post
    → Distinct post
    → Fresh b post
    → Chain h p post b
    → Chain (list_insert new p h) p (new ∷ post) b
unfolding list_insert
insert_segment new h p [] b fnew newb fp d fb c =
    subst (λ n. Chain (linked new p n h) p (new ∷ []) b) (sym c.0)
      (let here = linked-here new p b h fnew.0 newb in (here.0, here.1, (here.2, here.3)))
insert_segment new h p (y ∷ ys) b fnew newb fp d fb c =
    subst (λ n. Chain (linked new p n h) p (new ∷ y ∷ ys) b) (sym c.0)
      (let here = linked-here new p y h fnew.0 fnew.1.0 in
        (
          here.0,
          here.1,
          (
            here.2,
            here.3,
            linked-other new p y h y ys b fnew.1 fp d.0 (λ e. fb.0 (sym e)) newb c.2,
          ),
        ))

-- A chain that ends at the place keeps its links, whatever follows the place.
insert_before :
    (new : ℕ) (h : Heap) (a : ℕ) (pre : List ℕ) (p : ℕ) (post : List ℕ) (b : ℕ)
    → Fresh new (a ∷ pre)
    → new ≢ p
    → Fresh p (a ∷ pre)
    → Fresh p post
    → All (λ y. Fresh y pre) (post ++ b ∷ [])
    → p ≢ b
    → Chain h a pre p
    → Chain h p post b
    → Chain (list_insert new p h) a pre p
unfolding list_insert
insert_before new h a pre p [] b fnew newp fp fpost out pb c d =
    subst (λ n. Chain (linked new p n h) a pre p) (sym d.0)
      (linked-other new p b h a pre p fnew fp out.0 (λ e. pb (sym e)) newp c)
insert_before new h a pre p (y ∷ ys) b fnew newp fp fpost out pb c d =
    subst (λ n. Chain (linked new p n h) a pre p) (sym d.0)
      (linked-other new p y h a pre p fnew fp out.0 (λ e. fpost.0 (sym e)) newp c)

-- `ListInsert` at the head of a list puts the new node first.
pub list_insert-head :
    {h : Heap} {a : ℕ} {xs : List ℕ} (new : ℕ)
    → IsList h a xs
    → Fresh new (a ∷ xs)
    → IsList (list_insert new a h) a (new ∷ xs)
list_insert-head {h} {a} {xs} new l f = record {
  links = insert_segment new h a xs a f f.0 l.distinct.0 l.distinct.1 l.distinct.0 l.links;
  distinct = (((λ e. f.0 (sym e)), l.distinct.0), (f.1, l.distinct.1));
}

-- The facts about distinct nodes that an insertion behind `p` needs.
record Places (new a : ℕ) (pre : List ℕ) (p : ℕ) (post : List ℕ) : Type 0 where
  new_pre : Fresh new (a ∷ pre)
  new_p : new ≢ p
  new_post : Fresh new post
  p_pre : Fresh p (a ∷ pre)
  p_post : Fresh p post
  rest : Distinct (a ∷ pre ++ post)
  head_post : Fresh a post
  post_distinct : Distinct post
  apart : All (λ y. Fresh y pre) (post ++ a ∷ [])

places :
    (new a : ℕ) (pre : List ℕ) (p : ℕ) (post : List ℕ)
    → Fresh new (a ∷ (pre ++ p ∷ post))
    → Distinct (a ∷ (pre ++ p ∷ post))
    → Places new a pre p post
places new a pre p post f d =
    let fs = Fresh-split new pre p post f.1 in
    let ds = Distinct-split (a ∷ pre) p post d in
    let heads = Fresh-cut a pre post ds.2.0 in
    record {
      new_pre = (f.0, fs.0);
      new_p = fs.1;
      new_post = fs.2;
      p_pre = ds.0;
      p_post = ds.1;
      rest = ds.2;
      head_post = heads.1;
      post_distinct = Distinct-right pre post ds.2.1;
      apart =
          All-append (λ y. Fresh y pre) post (a ∷ []) (Distinct-apart pre post ds.2.1)
            (heads.0, tt);
    }

-- `ListInsert` at a node of a list puts the new node right behind it.
pub list_insert-behind :
    {h : Heap} {a : ℕ} (new : ℕ) (pre : List ℕ) (p : ℕ) (post : List ℕ)
    → IsList h a (pre ++ p ∷ post)
    → Fresh new (a ∷ (pre ++ p ∷ post))
    → IsList (list_insert new p h) a (pre ++ p ∷ new ∷ post)
list_insert-behind {h} {a} new pre p post l f =
    let w = places new a pre p post f l.distinct in
    let c = Chain-split h a pre p post a l.links in
    record {
      links =
          Chain-append (list_insert new p h) a pre p (new ∷ post) a
            (insert_before new h a pre p post a w.new_pre w.new_p w.p_pre w.p_post w.apart w.p_pre.0
              c.0 c.1)
            (insert_segment new h p post a (w.new_p, w.new_post) f.0 w.p_post w.post_distinct
              w.head_post c.1);
      distinct =
          Distinct-insert (a ∷ pre) p (new ∷ post)
            (Fresh-append p (a ∷ pre) (new ∷ post) w.p_pre ((λ e. w.new_p (sym e)), w.p_post))
            (Distinct-insert (a ∷ pre) new post
              (Fresh-append new (a ∷ pre) post w.new_pre w.new_post) w.rest);
    }
