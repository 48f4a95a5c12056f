-- ===== src/Index/Find.antt =====
-- The number of an object leads back to it.
use het_bed.Base.{
  ℕ, zero, suc, ◌+◌, ◌≡◌, refl, ap, ap₂, ◌∙◌, sym, none, some, List, [], ◌∷◌, ◌++◌, map, get_or,
  set, arith, All, subst,
}
use het_bed.Pool.{Ptr, Pool}
use het_bed.Pool
use het_bed.Pool.Avail.{IsValid, avail}
use het_bed.Pool.Refine.{
  alloc_refines, free_refines, alloc-IsValid, free-IsValid, take_oldest, give_back,
}
use het_bed.Pool.Ownership.{avail-init, init-IsValid}
use het_bed.Index.{Index, number, init, set_index, get_index, alloc, free, find}

-- The numbers of the free objects, seen as a pool of pointers of their own.
abbrev pub numbers : Index → Pool
numbers x = record x.queue { queue_avail = map some x.array_for_index }

map-set : (xs : List ℕ) (i v : ℕ) → map some (set xs i v) ≡ set (map some xs) i (some v)
map-set [] i v = refl
map-set (x ∷ xs) zero v = refl
map-set (x ∷ xs) (suc i) v = ap (λ l. some x ∷ l) (map-set xs i v)

pub alloc-queue : (x : Index) → (alloc x).1.queue ≡ (Pool.alloc x.queue).1
unfolding alloc Pool.alloc
alloc-queue x = ground arith

pub alloc-ptr : (x : Index) → (alloc x).0 ≡ (Pool.alloc x.queue).0
unfolding alloc Pool.alloc
alloc-ptr x = ground arith

alloc-numbers : (x : Index) → numbers (alloc x).1 ≡ (Pool.alloc (numbers x)).1
unfolding alloc Pool.alloc Pool.size
alloc-numbers x = ground arith

pub free-queue : (x : Index) (p : Ptr) → (free x p).queue ≡ Pool.free x.queue p
unfolding free Pool.free
free-queue x p = ground arith

free-numbers :
    (x : Index) (p : Ptr)
    → numbers (free x p) ≡ Pool.free (numbers x) (some (get_index x.index_of p))
unfolding free Pool.free Pool.size
free-numbers x p = ground (arith, map-set x.array_for_index x.queue.end (get_index x.index_of p))

-- `arrayForIndex` holds the numbers of the free objects, cell by cell.
pub record Numbered (x : Index) : Type 0 where
  pub valid : IsValid x.queue
  pub cells_valid : IsValid (numbers x)
  pub same : avail (numbers x) ≡ avail x.queue

alloc-Numbered : {x : Index} → Numbered x → Numbered (alloc x).1
alloc-Numbered {x} n = record {
  valid = subst IsValid (sym (alloc-queue x)) (alloc-IsValid n.valid);
  cells_valid = subst IsValid (sym (alloc-numbers x)) (alloc-IsValid n.cells_valid);
  same =
      ap avail (alloc-numbers x)
      ∙ (ap (λ r. r.1)
            (alloc_refines n.cells_valid ∙ (ap take_oldest n.same ∙ sym (alloc_refines n.valid)))
          ∙ ap avail (sym (alloc-queue x)));
}

free-Numbered : {x : Index} (i : ℕ) → Numbered x → x.index_of i ≡ i → Numbered (free x (some i))
unfolding get_index
free-Numbered {x} i n e = record {
  valid = subst IsValid (sym (free-queue x (some i))) (free-IsValid (some i) n.valid);
  cells_valid =
      subst IsValid (sym (free-numbers x (some i)))
        (free-IsValid (some (x.index_of i)) n.cells_valid);
  same =
      ap avail (free-numbers x (some i))
      ∙ (free_refines (some (x.index_of i)) n.cells_valid
          ∙ (ap₂ (λ l v. give_back x.queue.cap l (some v)) n.same e
              ∙ (sym (free_refines (some i) n.valid) ∙ ap avail (sym (free-queue x (some i))))));
}

get_or-map-some : (xs : List ℕ) (i v : ℕ) → get_or (map some xs) i none ≡ some v → get_or xs i 0 ≡ v
get_or-map-some [] i v e = cc
get_or-map-some (x ∷ xs) zero v e = cc
get_or-map-some (x ∷ xs) (suc i) v e = get_or-map-some xs i v e

-- Both queues hand out the same pointer, so the object gets its own number.
alloc-number :
    {x : Index} (i : ℕ) (y : Index)
    → Numbered x
    → alloc x ≡ (some i, y)
    → y.index_of ≡ set_index x.index_of (some i) i
unfolding alloc Pool.alloc
alloc-number {x} i y n e = ground (
  arith,
  get_or-map-some x.array_for_index x.queue.front i,
  ap (λ r. r.0)
      (alloc_refines n.cells_valid ∙ (ap take_oldest n.same ∙ sym (alloc_refines n.valid))),
)

-- Objects with the clients that hold them. A client leaves the field `index` alone.
pub record Use : Type 0 where
  pub table : Index
  pub held : List ℕ

pub data Act (u : Use) : Use → Type 0 where
  takes :
      (i : ℕ) (y : Index)
      → alloc u.table ≡ (some i, y)
      → Act u (record { table = y; held = i ∷ u.held })
  refused : (y : Index) → alloc u.table ≡ (none, y) → Act u (record { table = y; held = u.held })
  returns :
      (before after : List ℕ) (i : ℕ)
      → u.held ≡ before ++ i ∷ after
      → Act u (record { table = free u.table (some i); held = before ++ after })

pub data Acts (u : Use) : Use → Type 0 where
  begin : Acts u u
  then_act : {v w : Use} → Acts u v → Act v w → Acts u w

pub record Indexed (u : Use) : Type 0 where
  pub numbered : Numbered u.table
  pub own_number : All (λ i. u.table.index_of i ≡ i) u.held

set_index-All :
    (objects : ℕ → ℕ) (i : ℕ) (held : List ℕ)
    → All (λ j. objects j ≡ j) held
    → All (λ j. set_index objects (some i) i j ≡ j) held
unfolding set_index
set_index-All objects i [] h = tt
set_index-All objects i (j ∷ held) h = (ground arith, set_index-All objects i held h.1)

All-parts :
    (P : ℕ → Type 0) (before : List ℕ) (i : ℕ) (after : List ℕ)
    → All P (before ++ i ∷ after)
    → P i × All P (before ++ after)
All-parts P [] i after h = (h.0, h.1)
All-parts P (x ∷ before) i after h =
    let rest = All-parts P before i after h.1 in (rest.0, (h.0, rest.1))

refused-index : {x : Index} (y : Index) → alloc x ≡ (none, y) → Numbered x → y.index_of ≡ x.index_of
unfolding alloc set_index
refused-index {x} y e n = ground arith

free-index : (x : Index) (p : Ptr) → (free x p).index_of ≡ x.index_of
unfolding free
free-index x p = ground arith

set_index_self : (objects : ℕ → ℕ) (i : ℕ) → set_index objects (some i) i i ≡ i
unfolding set_index
set_index_self objects i = ground arith

Act-Indexed : {u v : Use} → Act u v → Indexed u → Indexed v
Act-Indexed {u} (takes i y e) d =
    let told = alloc-number i y d.numbered e in
    record {
      numbered = subst Numbered (ap (λ r. r.1) e) (alloc-Numbered d.numbered);
      own_number =
          subst (λ f. All (λ j. f j ≡ j) (i ∷ u.held)) (sym told)
            (
              set_index_self u.table.index_of i,
              set_index-All u.table.index_of i u.held d.own_number,
            );
    }
Act-Indexed {u} (refused y e) d = record {
  numbered = subst Numbered (ap (λ r. r.1) e) (alloc-Numbered d.numbered);
  own_number =
      subst (λ f. All (λ j. f j ≡ j) u.held) (sym (refused-index y e d.numbered)) d.own_number;
}
Act-Indexed {u} (returns before after i e) d =
    let parts =
      All-parts (λ j. u.table.index_of j ≡ j) before i after
        (subst (All (λ j. u.table.index_of j ≡ j)) e d.own_number) in
    record {
      numbered = free-Numbered i d.numbered parts.0;
      own_number =
          subst (λ f. All (λ j. f j ≡ j) (before ++ after)) (sym (free-index u.table (some i)))
            parts.1;
    }

Acts-Indexed : {u v : Use} → Indexed u → Acts u v → Indexed v
Acts-Indexed d begin = d
Acts-Indexed d (then_act r a) = Act-Indexed a (Acts-Indexed d r)

abbrev pub fresh : ℕ → Ptr → ℕ → (ℕ → ℕ) → Use
fresh c rest last objects = record { table = init c rest last objects; held = [] }

numbers-init : (i n last : ℕ) → map some (number i n ++ last ∷ []) ≡ Pool.fill i n ++ some last ∷ []
unfolding number Pool.fill
numbers-init i zero last = refl
numbers-init i (suc n) last = ap (λ l. some i ∷ l) (numbers-init (i + 1) n last)

fresh-Indexed :
    (c : ℕ) (rest : Ptr) (last : ℕ) (objects : ℕ → ℕ) → Indexed (fresh c rest last objects)
unfolding init
fresh-Indexed c rest last objects = record {
  numbered = record {
    valid = init-IsValid c rest;
    cells_valid = subst IsValid (sym shadow) (init-IsValid c (some last));
    same = ap avail shadow ∙ (avail-init c (some last) ∙ sym (avail-init c rest));
  };
  own_number = tt;
}
  where
    shadow : numbers (init c rest last objects) ≡ Pool.init c (some last)
    shadow =
        unfold Pool.init in
        λ i. record { front = 0; end = c; cap = c; queue_avail = numbers-init 0 c last i }

All-find :
    (objects : ℕ → ℕ) (held : List ℕ)
    → All (λ i. objects i ≡ i) held
    → All (λ i. find (get_index objects (some i)) ≡ some i) held
unfolding find get_index
All-find objects [] h = tt
All-find objects (i ∷ held) h = (ap some h.0, All-find objects held h.1)

-- After any sequence of allocations and returns from a fresh table, the number in each object that
-- a client holds leads `IndexFind` back to that object.
pub find-index :
    (c : ℕ) (rest : Ptr) (last : ℕ) (objects : ℕ → ℕ) {u : Use}
    → Acts (fresh c rest last objects) u
    → All (λ i. find (get_index u.table.index_of (some i)) ≡ some i) u.held
find-index c rest last objects {u} r =
    All-find u.table.index_of u.held (Acts-Indexed (fresh-Indexed c rest last objects) r).own_number
