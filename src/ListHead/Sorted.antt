-- ===== src/ListHead/Sorted.antt =====
-- `ListInsertSorted`: the loop finds the place of the new node.
use het_bed.Base.{
  ℕ, zero, suc, ◌≡◌, ◌≢◌, ◌≤◌, refl, sym, subst, List, [], ◌∷◌, ◌++◌, if◌then◌else◌, arith, Bool,
  true, false, Bool-cases, inl, inr, length, append_assoc, Perm, ltb,
}
use mathlib.Core.List.Perm
use het_bed.ListHead.{Heap, list_insert, sorted_place, list_insert_sorted}
use het_bed.ListHead.Chain.{Fresh, IsList, Chain-split, Fresh-split}
use het_bed.ListHead.Insert.{list_insert-head, list_insert-behind}

-- The list that the macro leaves: the new node stands before the first node that it precedes.
unfoldable pub insert_ordered : (ℕ → Bool) → ℕ → List ℕ → List ℕ
insert_ordered before new [] = new ∷ []
insert_ordered before new (x ∷ xs) =
    if before x then new ∷ x ∷ xs else x ∷ insert_ordered before new xs

-- The first test of the loop at the end of the list, and at a node.
place_end :
    (fuel : ℕ) (before : ℕ → Bool) (name it : ℕ) (h : Heap)
    → h.next it ≡ name
    → sorted_place fuel before name it h ≡ it
unfolding sorted_place
place_end zero before name it h e = refl
place_end (suc fuel) before name it h e = ground arith

place_stop :
    (fuel : ℕ) (before : ℕ → Bool) (name it y : ℕ) (h : Heap)
    → h.next it ≡ y
    → before y ≡ true
    → sorted_place fuel before name it h ≡ it
unfolding sorted_place
place_stop zero before name it y h e b = refl
place_stop (suc fuel) before name it y h e b = ground arith

place_on :
    (fuel : ℕ) (before : ℕ → Bool) (name it y : ℕ) (h : Heap)
    → h.next it ≡ y
    → y ≢ 0
    → y ≢ name
    → before y ≡ false
    → sorted_place (suc fuel) before name it h ≡ sorted_place fuel before name y h
unfolding sorted_place
place_on fuel before name it y h e z n b = rw e (ground arith)

module _ {h : Heap} {a : ℕ} (before : ℕ → Bool) (new : ℕ) where
  place_behind :
      (fuel : ℕ) (pre : List ℕ) (p : ℕ) (post : List ℕ)
      → length post ≤ fuel
      → IsList h a (pre ++ p ∷ post)
      → Fresh new (a ∷ (pre ++ p ∷ post))
      → Fresh 0 (pre ++ p ∷ post)
      → IsList
          (list_insert new (sorted_place fuel before a p h) h)
          a
          (pre ++ p ∷ insert_ordered before new post)
  unfolding insert_ordered
  place_behind fuel pre p [] n l f z =
      rw (place_end fuel before a p h (Chain-split h a pre p [] a l.links).1.0)
        (list_insert-behind new pre p [] l f)
  place_behind zero pre p (y ∷ ys) n l f z = absurd (omega arith)
  place_behind (suc fuel) pre p (y ∷ ys) n l f z =
      let c = Chain-split h a pre p (y ∷ ys) a l.links in
      let zs = Fresh-split 0 pre p (y ∷ ys) z in
      let heads = Fresh-split a pre p (y ∷ ys) l.distinct.0 in
      elim (Bool-cases (before y)) [
        | inl b ↦
            rw (place_stop (suc fuel) before a p y h c.1.0 b, b)
              (list_insert-behind new pre p (y ∷ ys) l f)
        | inr b ↦
            rw
              (
                place_on fuel before a p y h c.1.0 (λ e. zs.2.0 (sym e)) (λ e. heads.2.0 (sym e)) b,
                b,
              )
              (subst (λ l. IsList (list_insert new (sorted_place fuel before a y h) h) a l)
                (append_assoc pre (p ∷ []) (y ∷ insert_ordered before new ys))
                (place_behind fuel (pre ++ p ∷ []) y ys (omega arith)
                  (subst (IsList h a) (sym (append_assoc pre (p ∷ []) (y ∷ ys))) l)
                  (subst (λ l. Fresh new (a ∷ l)) (sym (append_assoc pre (p ∷ []) (y ∷ ys))) f)
                  (subst (Fresh 0) (sym (append_assoc pre (p ∷ []) (y ∷ ys))) z)))
      ]

  place_head :
      (fuel : ℕ) (xs : List ℕ)
      → length xs ≤ fuel
      → IsList h a xs
      → Fresh new (a ∷ xs)
      → Fresh 0 xs
      → IsList (list_insert new (sorted_place fuel before a a h) h) a (insert_ordered before new xs)
  unfolding insert_ordered
  place_head fuel [] n l f z = rw (place_end fuel before a a h l.links.0) (list_insert-head new l f)
  place_head zero (y ∷ ys) n l f z = absurd (omega arith)
  place_head (suc fuel) (y ∷ ys) n l f z = elim (Bool-cases (before y)) [
    | inl b ↦ rw (place_stop (suc fuel) before a a y h l.links.0 b, b) (list_insert-head new l f)
    | inr b ↦
        rw
          (
            place_on fuel before a a y h l.links.0 (λ e. z.0 (sym e)) (λ e. l.distinct.0.0 (sym e))
                b,
            b,
          )
          (place_behind fuel [] y ys (omega arith) l f z)
  ]

-- `ListInsertSorted` puts the new node before the first one that the callback wants behind it, and
-- leaves the others in their order. The fuel is the number of nodes.
pub list_insert_sorted_lem :
    {h : Heap} {a : ℕ} (before : ℕ → ℕ → Bool) (new : ℕ) (fuel : ℕ) (xs : List ℕ)
    → length xs ≤ fuel
    → IsList h a xs
    → Fresh new (a ∷ xs)
    → Fresh 0 xs
    → IsList (list_insert_sorted fuel before new a h) a (insert_ordered (before new) new xs)
unfolding list_insert_sorted
list_insert_sorted_lem before new fuel xs n l f z = place_head (before new) new fuel xs n l f z

-- Every key is at least `k`.
abbrev pub Above : (ℕ → ℕ) → ℕ → List ℕ → Type 0
Above key k [] = Unit {0}
Above key k (x ∷ xs) = (k ≤ key x) × Above key k xs

-- In order of a key, equal keys in any order.
abbrev pub Ordered : (ℕ → ℕ) → List ℕ → Type 0
Ordered key [] = Unit {0}
Ordered key (x ∷ xs) = Above key (key x) xs × Ordered key xs

Above-mono : (key : ℕ → ℕ) (j k : ℕ) (xs : List ℕ) → j ≤ k → Above key k xs → Above key j xs
Above-mono key j k [] h b = tt
Above-mono key j k (x ∷ xs) h b = (omega arith, Above-mono key j k xs h b.1)

Above-insert :
    (key : ℕ → ℕ) (before : ℕ → Bool) (k new : ℕ) (xs : List ℕ)
    → k ≤ key new
    → Above key k xs
    → Above key k (insert_ordered before new xs)
unfolding insert_ordered
Above-insert key before k new [] h b = (h, tt)
Above-insert key before k new (x ∷ xs) h b = elim (Bool-cases (before x)) [
  | inl t ↦ rw t (h, b)
  | inr t ↦ rw t (b.0, Above-insert key before k new xs h b.1)
]

-- With a callback that compares keys the list stays in order.
pub insert_ordered-Ordered :
    (key : ℕ → ℕ) (new : ℕ) (xs : List ℕ)
    → Ordered key xs
    → Ordered key (insert_ordered (λ y. ltb (key new) (key y)) new xs)
unfolding insert_ordered
insert_ordered-Ordered key new [] o = (tt, tt)
insert_ordered-Ordered key new (x ∷ xs) o = elim (Bool-cases (ltb (key new) (key x))) [
  | inl t ↦ rw t ((ground arith, Above-mono key (key new) (key x) xs (ground arith) o.0), o)
  | inr t ↦ rw t (
    Above-insert key (λ y. ltb (key new) (key y)) (key x) new xs (ground arith) o.0,
    insert_ordered-Ordered key new xs o.1,
  )
]

pub insert_ordered-perm :
    (before : ℕ → Bool) (new : ℕ) (xs : List ℕ) → Perm (insert_ordered before new xs) (new ∷ xs)
unfolding insert_ordered
insert_ordered-perm before new [] = Perm.rfl
insert_ordered-perm before new (x ∷ xs) = elim (Bool-cases (before x)) [
  | inl t ↦ rw t Perm.rfl
  | inr t ↦ rw t (Perm.trans (Perm.cons x (insert_ordered-perm before new xs)) (Perm.swap new x xs))
]
