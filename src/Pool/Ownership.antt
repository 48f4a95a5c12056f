-- ===== src/Pool/Ownership.antt =====
-- Any run of `PoolAlloc` and `PoolFree` by clients that return only what they hold.
use mathlib.Core.List.{
  Mem, mem-cons, mem-append_right, not-mem-nil, Nodup, Nodup-cons, Nodup-nil, mem-cons_self,
}
use mathlib.Core.List.Perm
use mathlib.Core.Logic.Or
use native.Mathlib.Nat.{mod-eq_of_lt}
use het_bed.Base.{
  ℕ, zero, suc, ◌+◌, ◌≤◌, ◌<◌, ◌≡◌, refl, ap, ap₂, ◌∙◌, sym, none, some, List, [], ◌∷◌, ◌++◌, map,
  get_or, length, length-append, arith, length-Perm, subst, ◌⊎◌, inl, inr, Perm, perm_middle,
  perm_move,
}
use het_bed.Pool.{Ptr, Pool, fill, init, size, alloc, free}
use het_bed.Pool.Avail.{IsValid, cells, avail, length-avail}
use het_bed.Pool.Refine.{
  take_oldest, alloc-IsValid, free-IsValid, alloc_refines, free_refines, steps_cases,
  give_back_room, alloc_cap, free_cap,
}

length-fill : (i n : ℕ) → length (fill i n) ≡ n
unfolding fill
length-fill i zero = refl
length-fill i (suc n) = ap suc (length-fill (i + 1) n)

get_or-fill : (i n j : ℕ) (r : Ptr) → j < n → get_or (fill i n ++ r ∷ []) j none ≡ some (i + j)
unfolding fill
get_or-fill i zero j r h = absurd (omega arith)
get_or-fill i (suc n) zero r h = ap some (omega arith)
get_or-fill i (suc n) (suc j) r h = get_or-fill (i + 1) n j r (omega arith) ∙ ap some (omega arith)

cells-fill :
    (c : ℕ) (r : Ptr) (f k : ℕ) → f + k ≤ c → cells (fill 0 c ++ r ∷ []) (c + 1) f k ≡ fill f k
unfolding fill
cells-fill c r f zero h = refl
cells-fill c r f (suc k) h =
    ap₂ ◌∷◌
      (ap (λ i. get_or (fill 0 c ++ r ∷ []) i none) (mod-eq_of_lt {n = f} (omega arith))
        ∙ (get_or-fill 0 c f r (omega arith) ∙ ap some (omega arith)))
      (cells-fill c r (f + 1) k (omega arith))

pub size-init : (c : ℕ) (r : Ptr) → size (init c r) ≡ c
unfolding size init
size-init c r = omega (arith, steps_cases c 0 c (omega arith) (omega arith))

-- After `PoolInit` every pointer is free, in the order of the array.
pub avail-init : (c : ℕ) (r : Ptr) → avail (init c r) ≡ fill 0 c
avail-init c r = rw (size-init c r) (unfold init in cells-fill c r 0 c (omega arith))

pub init-IsValid : (c : ℕ) (r : Ptr) → IsValid (init c r)
unfolding init
init-IsValid c r = omega (arith, length-append (fill 0 c) (r ∷ []), length-fill 0 c)

-- The pool with the pointers that clients hold.
pub record World : Type 0 where
  pub pool : Pool
  pub held : List ℕ

-- A client may allocate at any time, and returns what it holds.
pub data Step (w : World) : World → Type 0 where
  takes :
      (i : ℕ) (q : Pool)
      → alloc w.pool ≡ (some i, q)
      → Step w (record { pool = q; held = i ∷ w.held })
  refused : (q : Pool) → alloc w.pool ≡ (none, q) → Step w (record { pool = q; held = w.held })
  returns :
      (before after : List ℕ) (i : ℕ)
      → w.held ≡ before ++ i ∷ after
      → Step w (record { pool = free w.pool (some i); held = before ++ after })

pub data Reach (w : World) : World → Type 0 where
  start : Reach w w
  then_step : {u v : World} → Reach w u → Step u v → Reach w v

-- Every pointer of the pool is free or held, once.
pub record Owned (c : ℕ) (w : World) : Type 0 where
  pub valid : IsValid w.pool
  pub same_cap : w.pool.cap ≡ c
  pub shared : Perm (map some w.held ++ avail w.pool) (fill 0 c)

map-append_some : (xs ys : List ℕ) → map some (xs ++ ys) ≡ map some xs ++ map some ys
map-append_some [] ys = refl
map-append_some (x ∷ xs) ys = ap (λ l. some x ∷ l) (map-append_some xs ys)

-- The number behind a pointer.
abbrev get_some : Ptr → ℕ
get_some none = 0
get_some (some i) = i

none-not-mem-fill : (i n : ℕ) → ¬ Mem none (fill i n)
unfolding fill
none-not-mem-fill i zero m = not-mem-nil m
none-not-mem-fill i (suc n) m =
    Or.elim (λ x y. absurd x) (mem-cons.0 m) (λ e. cc) (none-not-mem-fill (i + 1) n)

above-not-mem-fill : (j i n : ℕ) → j < i → ¬ Mem (some j) (fill i n)
unfolding fill
above-not-mem-fill j i zero h m = not-mem-nil m
above-not-mem-fill j i (suc n) h m =
    Or.elim (λ x y. absurd x) (mem-cons.0 m) (λ e. omega (arith, ap (λ o. get_some o) e))
      (above-not-mem-fill j (i + 1) n (omega arith))

Nodup-fill : (i n : ℕ) → Nodup (fill i n)
unfolding fill
Nodup-fill i zero = Nodup-nil
Nodup-fill i (suc n) =
    Nodup-cons.1 (above-not-mem-fill i (i + 1) n (omega arith), Nodup-fill (i + 1) n)

length-map-some : (xs : List ℕ) → length (map some xs) ≡ length xs
length-map-some [] = refl
length-map-some (x ∷ xs) = ap suc (length-map-some xs)

-- What is not held is free: no pointer is lost.
pub held-add-size : {c : ℕ} {w : World} → Owned c w → length w.held + size w.pool ≡ c
held-add-size {c} {w} o = omega (
  arith,
  length-Perm o.shared,
  length-append (map some w.held) (avail w.pool),
  length-map-some w.held,
  length-avail o.valid,
  length-fill 0 c,
)

-- The shapes that an allocation can have, read off the queue.
take_oldest-some :
    (xs ys : List Ptr) (x : Ptr)
    → (x, ys) ≡ take_oldest xs
    → ((xs ≡ x ∷ ys)) ⊎ ((xs ≡ []) × (x ≡ none) × (ys ≡ []))
unfolding take_oldest
take_oldest-some [] ys x e = inr (refl, ap (λ p. p.0) e, ap (λ p. p.1) e)
take_oldest-some (z ∷ zs) ys x e = inl (ap₂ ◌∷◌ (sym (ap (λ p. p.0) e)) (sym (ap (λ p. p.1) e)))

module _ {c : ℕ} {w : World} (o : Owned c w) where
  alloc_split :
      (x : Ptr) (q : Pool)
      → alloc w.pool ≡ (x, q)
      → (avail w.pool ≡ x ∷ avail q) ⊎ ((avail w.pool ≡ []) × (x ≡ none) × (avail q ≡ []))
  alloc_split x q e =
      take_oldest-some (avail w.pool) (avail q) x
        (ap (λ r. (r.0, avail r.1)) (sym e) ∙ alloc_refines o.valid)

  alloc-KeepsValid : (x : Ptr) (q : Pool) → alloc w.pool ≡ (x, q) → IsValid q
  alloc-KeepsValid x q e = subst IsValid (ap (λ r. r.1) e) (alloc-IsValid o.valid)

  takes-shared :
      (i : ℕ) (q : Pool)
      → alloc w.pool ≡ (some i, q)
      → Perm (map some (i ∷ w.held) ++ avail q) (fill 0 c)
  takes-shared i q e = elim (alloc_split (some i) q e) [
    | inl h ↦
        Perm.trans (Perm.symm (perm_middle (map some w.held) (avail q)))
          (subst (λ l. Perm (map some w.held ++ l) (fill 0 c)) h o.shared)
    | inr h ↦ cc (h.1)
  ]

  refused-shared :
      (q : Pool) → alloc w.pool ≡ (none, q) → Perm (map some w.held ++ avail q) (fill 0 c)
  refused-shared q e = elim (alloc_split none q e) [
    | inl h ↦ absurd (
        none-not-mem-fill 0 c (
          (Perm.mem_iff o.shared).0
            (mem-append_right (map some w.held) (subst (Mem none) (sym h) mem-cons_self))))
    | inr h ↦ subst (λ l. Perm (map some w.held ++ l) (fill 0 c)) (h.0 ∙ sym h.2) o.shared
  ]

  returns-shared :
      (before after : List ℕ) (i : ℕ)
      → w.held ≡ before ++ i ∷ after
      → Perm (map some (before ++ after) ++ avail (free w.pool (some i))) (fill 0 c)
  returns-shared before after i e =
      subst (λ l. Perm (map some (before ++ after) ++ l) (fill 0 c)) (sym freed)
        (subst (λ l. Perm (l ++ (avail w.pool ++ some i ∷ [])) (fill 0 c))
          (sym (map-append_some before after))
          (Perm.trans (perm_move (some i) (map some before) (map some after) (avail w.pool)) (
            subst (λ l. Perm (l ++ avail w.pool) (fill 0 c))
              (ap (map some) e ∙ map-append_some before (i ∷ after)) o.shared)))
    where
      room : length (avail w.pool) < w.pool.cap
      room = omega (
        arith,
        held-add-size o,
        length-avail o.valid,
        o.same_cap,
        ap length e,
        length-append before (i ∷ after),
      )

      freed : avail (free w.pool (some i)) ≡ avail w.pool ++ some i ∷ []
      freed = free_refines (some i) o.valid ∙ give_back_room w.pool.cap (avail w.pool) (some i) room

-- Each step keeps every pointer of the pool free or held, and never both.
pub Step-Owned : {c : ℕ} {u v : World} → Step u v → Owned c u → Owned c v
Step-Owned (takes i q e) o = record {
  valid = alloc-KeepsValid o (some i) q e;
  same_cap = sym (ap (λ r. r.1.cap) e) ∙ (alloc_cap _ ∙ o.same_cap);
  shared = takes-shared o i q e;
}
Step-Owned (refused q e) o = record {
  valid = alloc-KeepsValid o none q e;
  same_cap = sym (ap (λ r. r.1.cap) e) ∙ (alloc_cap _ ∙ o.same_cap);
  shared = refused-shared o q e;
}
Step-Owned (returns before after i e) o = record {
  valid = free-IsValid (some i) o.valid;
  same_cap = free_cap _ (some i) ∙ o.same_cap;
  shared = returns-shared o before after i e;
}

Reach-Owned : {c : ℕ} {u v : World} → Owned c u → Reach u v → Owned c v
Reach-Owned o start = o
Reach-Owned o (then_step r s) = Step-Owned s (Reach-Owned o r)

abbrev pub fresh : ℕ → Ptr → World
fresh c r = record { pool = init c r; held = [] }

fresh-Owned : (c : ℕ) (r : Ptr) → Owned c (fresh c r)
fresh-Owned c r = record {
  valid = init-IsValid c r;
  same_cap = unfold init in refl;
  shared = subst (λ l. Perm l (fill 0 c)) (sym (avail-init c r)) Perm.rfl;
}

-- After any sequence of allocations and returns from a fresh pool, the pointers that clients hold
-- are distinct, none of them is free, and those held and those free make up the capacity.
pub run_owned :
    (c : ℕ) (r : Ptr) {w : World}
    → Reach (fresh c r) w
    → Nodup (map some w.held ++ avail w.pool) × (length w.held + size w.pool ≡ c)
run_owned c r reach =
    let o = Reach-Owned (fresh-Owned c r) reach in
    (Perm.nodup (Perm.symm o.shared) (Nodup-fill 0 c), held-add-size o)
