-- ===== src/Pool/Refine.antt =====
-- The pool's operations against a bounded queue of free pointers.
use native.Mathlib.Nat.{mod-eq_of_lt, add-mod_right, mod_self, mod-mod}
use native.Mathlib.Decide.{dec_lt}
use het_bed.Base.{
  ℕ, zero, suc, ◌+◌, ◌-◌, ◌%◌, ◌≤◌, ◌<◌, ◌≡◌, refl, ap, ap₂, ◌∙◌, sym, none, List, [], ◌∷◌, ◌++◌,
  set, get_or, length, length-set, get_or-set_self, arith, ltb, if◌then◌else◌, ◌⊎◌, inl, inr,
}
use het_bed.Pool.{Ptr, Pool, size, alloc, free}
use het_bed.Pool.Avail.{
  IsValid, cells, avail, front-add-size, length-avail, cells_mod, cells_snoc, cells-set,
}

-- What a client sees of the free pointers: the oldest one goes out, a returned one goes last.
unfoldable pub take_oldest : List Ptr → Ptr × List Ptr
take_oldest [] = (none, [])
take_oldest (x ∷ xs) = (x, xs)

unfoldable pub give_back : ℕ → List Ptr → Ptr → List Ptr
give_back cap xs x = if ltb (length xs) cap then xs ++ x ∷ [] else xs

-- One step round the ring, and the number of steps from one position to another.
pub next_cases :
    (c x : ℕ)
    → x ≤ c
    → ((x < c) × ((x + 1) % (c + 1) ≡ x + 1)) ⊎ ((x ≡ c) × ((x + 1) % (c + 1) ≡ 0))
next_cases c x h = elim (dec_lt x c) [
  | yes p ↦ inl (p, mod-eq_of_lt (omega arith))
  | no p ↦ inr (omega arith, ap (λ n. (n + 1) % (c + 1)) (omega arith) ∙ mod_self (c + 1))
]

abbrev pub steps : ℕ → ℕ → ℕ → ℕ
steps c f e = (e + c + 1 - f) % (c + 1)

pub steps_cases :
    (c f e : ℕ)
    → f ≤ c
    → e ≤ c
    → ((f ≤ e) × (steps c f e ≡ e - f)) ⊎ ((e < f) × (steps c f e ≡ e + c + 1 - f))
steps_cases c f e hf he = elim (dec_lt e f) [
  | yes q ↦ inr (q, mod-eq_of_lt (omega arith))
  | no q ↦ inl (
    omega arith,
    ap (λ n. n % (c + 1)) (omega arith)
        ∙ (add-mod_right (e - f) (c + 1) ∙ mod-eq_of_lt (omega arith)),
  )
]

steps-next_left :
    (c f e : ℕ)
    → f ≤ c
    → e ≤ c
    → 0 < steps c f e
    → suc (steps c ((f + 1) % (c + 1)) e) ≡ steps c f e
steps-next_left c f e hf he h = omega (
  arith,
  next_cases c f hf,
  steps_cases c f e hf he,
  steps_cases c ((f + 1) % (c + 1)) e (omega (arith, next_cases c f hf)) he,
)

steps-next_right :
    (c f e : ℕ)
    → f ≤ c
    → e ≤ c
    → steps c f e < c
    → steps c f ((e + 1) % (c + 1)) ≡ suc (steps c f e)
steps-next_right c f e hf he h = omega (
  arith,
  next_cases c e he,
  steps_cases c f e hf he,
  steps_cases c f ((e + 1) % (c + 1)) hf (omega (arith, next_cases c e he)),
)

pub alloc-IsValid : {p : Pool} → IsValid p → IsValid (alloc p).1
unfolding alloc
alloc-IsValid {p} v = ground (arith, next_cases p.cap p.front)

pub free-IsValid : {p : Pool} (x : Ptr) → IsValid p → IsValid (free p x)
unfolding free
free-IsValid {p} x v = ground (arith, next_cases p.cap p.end, length-set p.queue_avail p.end x)

alloc_of_size :
    {p : Pool} (k : ℕ)
    → IsValid p
    → size p ≡ k
    → let (x, q) = alloc p in (x, avail q) ≡ take_oldest (cells p.queue_avail (p.cap + 1) p.front k)
unfolding alloc take_oldest
alloc_of_size {p} zero v e = rw (e, size) (ground arith)
alloc_of_size {p} (suc k) v e = ground (
  arith,
  e,
  steps-next_left p.cap p.front p.end v.front_in v.end_in,
  cells_mod p.queue_avail (p.cap + 1) ((p.front + 1) % (p.cap + 1)) (p.front + 1) k
      (mod-mod (p.front + 1) (p.cap + 1)),
  mod-eq_of_lt {n = p.front} {m = p.cap + 1} (omega arith),
)

-- `PoolAlloc` hands out the pointer that has been free the longest, and NULL exactly when no
-- pointer is free; the pool is left with the others in the same order.
pub alloc_refines :
    {p : Pool} → IsValid p → let (x, q) = alloc p in (x, avail q) ≡ take_oldest (avail p)
alloc_refines {p} v = alloc_of_size (size p) v refl

-- The cells after a write at their end.
cells_push :
    {p : Pool} (x : Ptr)
    → IsValid p
    → size p < p.cap
    → cells (set p.queue_avail p.end x) (p.cap + 1) p.front (suc (size p)) ≡ avail p ++ x ∷ []
cells_push {p} x v h =
    cells_snoc (set q p.end x) m p.front (size p)
    ∙ ap₂ (λ l y. l ++ y ∷ [])
        (cells-set q m p.end x p.front (size p) 0
          (sym (front-add-size v) ∙ ap (λ n. n % m) (omega arith)) (omega arith))
        (ap (λ i. get_or (set q p.end x) i none) (front-add-size v)
          ∙ get_or-set_self q p.end x none (omega (arith, v.storage, v.end_in)))
  where
    q : List Ptr
    q = p.queue_avail

    m : ℕ
    m = p.cap + 1

-- `PoolFree` puts the pointer behind the free ones, unless all `cap` pointers are free already:
-- then it changes nothing.
pub free_refines : {p : Pool} (x : Ptr) → IsValid p → avail (free p x) ≡ give_back p.cap (avail p) x
unfolding free give_back
free_refines {p} x v = ground (
  arith,
  length-avail v,
  cells_push x v,
  steps-next_right p.cap p.front p.end v.front_in v.end_in,
)

pub give_back_room :
    (c : ℕ) (xs : List Ptr) (x : Ptr) → length xs < c → give_back c xs x ≡ xs ++ x ∷ []
unfolding give_back
give_back_room c xs x h = ground arith

pub alloc_cap : (p : Pool) → (alloc p).1.cap ≡ p.cap
unfolding alloc
alloc_cap p = ground arith

pub free_cap : (p : Pool) (x : Ptr) → (free p x).cap ≡ p.cap
unfolding free
free_cap p x = ground arith
