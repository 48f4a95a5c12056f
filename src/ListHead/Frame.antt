-- ===== src/ListHead/Frame.antt =====
-- What an insertion and a removal leave alone: the nodes outside the list that they work on.
use het_bed.Base.{
  ℕ, zero, suc, ◌≡◌, ◌≢◌, ◌∙◌, List, [], ◌∷◌, ◌++◌, All, Bool, true, false, if◌then◌else◌, ◌==◌,
  ==_refl, arith,
}
use het_bed.ListHead.{Heap, list_insert, list_remove, sorted_place, list_insert_sorted}
use het_bed.ListHead.Chain.{Chain, Fresh, IsList, Chain-split, Fresh-split}
use het_bed.ListHead.Remove.{next-list_remove, prev-list_remove, ne-last, ne-first}

-- Two heaps agree at a node.
abbrev pub Agree : Heap → Heap → ℕ → Type 0
Agree h h' k = (h'.next k ≡ h.next k) × (h'.prev k ≡ h.prev k)

-- No node of the second list is in the first.
abbrev pub Apart : List ℕ → List ℕ → Type 0
Apart xs ys = All (λ y. Fresh y xs) ys

Chain-Agree :
    (h h' : Heap) (a : ℕ) (xs : List ℕ) (b : ℕ)
    → h'.next a ≡ h.next a
    → All (Agree h h') xs
    → h'.prev b ≡ h.prev b
    → Chain h a xs b
    → Chain h' a xs b
Chain-Agree h h' a [] b n g p c = (n ∙ c.0, p ∙ c.1)
Chain-Agree h h' a (x ∷ xs) b n g p c =
    (n ∙ c.0, g.0.1 ∙ c.1, Chain-Agree h h' x xs b g.0.0 g.1 p c.2)

pub IsList-Agree :
    (h h' : Heap) (a : ℕ) (xs : List ℕ) → All (Agree h h') (a ∷ xs) → IsList h a xs → IsList h' a xs
IsList-Agree h h' a xs g l = record {
  links = Chain-Agree h h' a xs a g.0.0 g.1 g.0.1 l.links;
  distinct = l.distinct;
}

next-list_insert :
    (new name k : ℕ) (h : Heap) → k ≢ new → k ≢ name → (list_insert new name h).next k ≡ h.next k
unfolding list_insert
next-list_insert new name k h n m = ground arith

prev-list_insert :
    (new name k : ℕ) (h : Heap)
    → k ≢ new
    → k ≢ h.next name
    → (list_insert new name h).prev k ≡ h.prev k
unfolding list_insert
prev-list_insert new name k h n m = ground arith

if-keeps : (P : ℕ → Type 0) (c : Bool) (p q : ℕ) → P p → P q → P (if c then p else q)
if-keeps P true p q hp hq = hp
if-keeps P false p q hp hq = hq

abbrev Misses : ℕ → Heap → ℕ → Type 0
Misses k h p = (k ≢ p) × (k ≢ h.next p)

-- The place of a new node and its successor are in the list.
place-Fresh :
    (fuel : ℕ) (before : ℕ → Bool) (k b q : ℕ) (ys : List ℕ) (h : Heap)
    → k ≢ b
    → Fresh k (q ∷ ys)
    → Chain h q ys b
    → Misses k h (sorted_place fuel before b q h)
unfolding sorted_place
place-Fresh zero before k b q ys h n f c = (f.0, ne-first h k q ys b f.1 n c)
place-Fresh (suc fuel) before k b q [] h n f c =
    let here : Misses k h q = (f.0, ne-first h k q [] b f.1 n c) in
    rw (c.0, ==_refl b) (if-keeps (Misses k h) (b == 0) q q here here)
place-Fresh (suc fuel) before k b q (y ∷ ys) h n f c =
    let here : Misses k h q = (f.0, ne-first h k q (y ∷ ys) b f.1 n c) in
    let rest = place-Fresh fuel before k b y ys h n f.1 c.2 in
    let after = sorted_place fuel before b y h in
    rw c.0 (
      if-keeps (Misses k h) (y == 0) q _ here (
        if-keeps (Misses k h) (y == b) q _ here
          (if-keeps (Misses k h) (before y) q after here rest)))

pub Agree-list_insert_sorted :
    {h : Heap} {b : ℕ} (fuel : ℕ) (before : ℕ → ℕ → Bool) (new k : ℕ) (ys : List ℕ)
    → IsList h b ys
    → k ≢ new
    → Fresh k (b ∷ ys)
    → Agree h (list_insert_sorted fuel before new b h) k
unfolding list_insert_sorted
Agree-list_insert_sorted {h} {b} fuel before new k ys l n f =
    let at = place-Fresh fuel (before new) k b b ys h f.0 f l.links in
    (
      next-list_insert new (sorted_place fuel (before new) b b h) k h n at.0,
      prev-list_insert new (sorted_place fuel (before new) b b h) k h n at.1,
    )

pub Agree-list_remove :
    {h : Heap} {b : ℕ} (pre : List ℕ) (x : ℕ) (post : List ℕ) (k : ℕ)
    → IsList h b (pre ++ x ∷ post)
    → Fresh k (b ∷ (pre ++ x ∷ post))
    → Agree h (list_remove x h) k
Agree-list_remove {h} {b} pre x post k l f =
    let c = Chain-split h b pre x post b l.links in
    let g = Fresh-split k pre x post f.1 in
    (
      next-list_remove x k h g.1 (ne-last h k b pre x (f.0, g.0) c.0),
      prev-list_remove x k h g.1 (ne-first h k x post b g.2 f.0 c.1),
    )
