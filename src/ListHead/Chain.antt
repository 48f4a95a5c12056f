-- ===== src/ListHead/Chain.antt =====
-- A list on the heap: the links from one node to another, and what a write leaves alone.
use het_bed.Base.{ℕ, ◌≡◌, ◌≢◌, sym, ◌∙◌, List, [], ◌∷◌, ◌++◌, All, arith}
use het_bed.ListHead.{Heap, update, set_next, set_prev}

-- From `a` through `xs` to `b`, linked both ways.
abbrev pub Chain : Heap → ℕ → List ℕ → ℕ → Type 0
Chain h a [] b = (h.next a ≡ b) × (h.prev b ≡ a)
Chain h a (x ∷ xs) b = (h.next a ≡ x) × (h.prev x ≡ a) × Chain h x xs b

abbrev pub Fresh : ℕ → List ℕ → Type 0
Fresh k [] = Unit {0}
Fresh k (x ∷ xs) = (k ≢ x) × Fresh k xs

abbrev pub Distinct : List ℕ → Type 0
Distinct [] = Unit {0}
Distinct (x ∷ xs) = Fresh x xs × Distinct xs

-- The list behind the head `a` holds `xs`.
pub record IsList (h : Heap) (a : ℕ) (xs : List ℕ) : Type 0 where
  pub links : Chain h a xs a
  pub distinct : Distinct (a ∷ xs)

pub Chain-append :
    (h : Heap) (a : ℕ) (xs : List ℕ) (m : ℕ) (ys : List ℕ) (b : ℕ)
    → Chain h a xs m
    → Chain h m ys b
    → Chain h a (xs ++ m ∷ ys) b
Chain-append h a [] m ys b c d = (c.0, c.1, d)
Chain-append h a (x ∷ xs) m ys b c d = (c.0, c.1, Chain-append h x xs m ys b c.2 d)

pub Chain-split :
    (h : Heap) (a : ℕ) (xs : List ℕ) (m : ℕ) (ys : List ℕ) (b : ℕ)
    → Chain h a (xs ++ m ∷ ys) b
    → Chain h a xs m × Chain h m ys b
Chain-split h a [] m ys b c = ((c.0, c.1), c.2)
Chain-split h a (x ∷ xs) m ys b c =
    let rest = Chain-split h x xs m ys b c.2 in ((c.0, c.1, rest.0), rest.1)

pub update_ne : (f : ℕ → ℕ) (k v j : ℕ) → k ≢ j → update f k v j ≡ f j
update_ne f k v j n = ground arith

-- A write of a `next` field outside the nodes that have a successor in the chain.
pub Chain-set_next :
    (h : Heap) (k v a : ℕ) (xs : List ℕ) (b : ℕ)
    → k ≢ a
    → Fresh k xs
    → Chain h a xs b
    → Chain (set_next k v h) a xs b
Chain-set_next h k v a [] b n f c = (update_ne h.next k v a n ∙ c.0, c.1)
Chain-set_next h k v a (x ∷ xs) b n f c =
    (update_ne h.next k v a n ∙ c.0, c.1, Chain-set_next h k v x xs b f.0 f.1 c.2)

-- A write of a `prev` field outside the nodes that have a predecessor in the chain.
pub Chain-set_prev :
    (h : Heap) (k v a : ℕ) (xs : List ℕ) (b : ℕ)
    → k ≢ b
    → Fresh k xs
    → Chain h a xs b
    → Chain (set_prev k v h) a xs b
Chain-set_prev h k v a [] b n f c = (c.0, update_ne h.prev k v b n ∙ c.1)
Chain-set_prev h k v a (x ∷ xs) b n f c =
    (c.0, update_ne h.prev k v x f.0 ∙ c.1, Chain-set_prev h k v x xs b n f.1 c.2)

pub Fresh-split :
    (k : ℕ) (xs : List ℕ) (m : ℕ) (ys : List ℕ)
    → Fresh k (xs ++ m ∷ ys)
    → Fresh k xs × (k ≢ m) × Fresh k ys
Fresh-split k [] m ys f = (tt, f.0, f.1)
Fresh-split k (x ∷ xs) m ys f =
    let rest = Fresh-split k xs m ys f.1 in ((f.0, rest.0), rest.1, rest.2)

pub Fresh-append : (k : ℕ) (xs ys : List ℕ) → Fresh k xs → Fresh k ys → Fresh k (xs ++ ys)
Fresh-append k [] ys f g = g
Fresh-append k (x ∷ xs) ys f g = (f.0, Fresh-append k xs ys f.1 g)

pub Fresh-cut : (k : ℕ) (xs ys : List ℕ) → Fresh k (xs ++ ys) → Fresh k xs × Fresh k ys
Fresh-cut k [] ys f = (tt, f)
Fresh-cut k (x ∷ xs) ys f = let rest = Fresh-cut k xs ys f.1 in ((f.0, rest.0), rest.1)

-- The node `m` in the middle of distinct nodes differs from those on both sides.
pub Distinct-split :
    (xs : List ℕ) (m : ℕ) (ys : List ℕ)
    → Distinct (xs ++ m ∷ ys)
    → Fresh m xs × Fresh m ys × Distinct (xs ++ ys)
Distinct-split [] m ys d = (tt, d.0, d.1)
Distinct-split (x ∷ xs) m ys d =
    let rest = Distinct-split xs m ys d.1 in
    let f = Fresh-split x xs m ys d.0 in
    (((λ e. f.1 (sym e)), rest.0), rest.1, (Fresh-append x xs ys f.0 f.2, rest.2))

pub Distinct-insert :
    (xs : List ℕ) (m : ℕ) (ys : List ℕ)
    → Fresh m (xs ++ ys)
    → Distinct (xs ++ ys)
    → Distinct (xs ++ m ∷ ys)
Distinct-insert [] m ys f d = (f, d)
Distinct-insert (x ∷ xs) m ys f d =
    let parts = Fresh-cut x xs ys d.0 in
    (
      Fresh-append x xs (m ∷ ys) parts.0 ((λ e. f.0 (sym e)), parts.1),
      Distinct-insert xs m ys f.1 d.1,
    )

pub Distinct-right : (xs ys : List ℕ) → Distinct (xs ++ ys) → Distinct ys
Distinct-right [] ys d = d
Distinct-right (x ∷ xs) ys d = Distinct-right xs ys d.1

pub Distinct-apart : (xs ys : List ℕ) → Distinct (xs ++ ys) → All (λ y. Fresh y xs) ys
Distinct-apart xs [] d = tt
Distinct-apart xs (y ∷ ys) d = let s = Distinct-split xs y ys d in (s.0, Distinct-apart xs ys s.2)
