-- ===== src/Context/Fresh.antt =====
-- src/upf_context.c: which nodes the pool of a kind of rule has left while rules are registered and
-- removed.
use het_bed.Base.{
  ℕ, Bool, true, Option, none, some, List, [], ◌∷◌, ◌++◌, All, All-append, ltb, length, ◌≡◌, ◌≢◌,
  refl, sym, ap, ap₂, ◌∙◌, arith, subst, ℕ_discrete, if-cases,
}
use het_bed.Pool.{Ptr}
use het_bed.Pool.Avail.{IsValid, avail}
use het_bed.Pool.Refine.{
  take_oldest, give_back, alloc_refines, alloc-IsValid, free_refines, free-IsValid,
}
use het_bed.Index
use het_bed.Index.{Index}
use het_bed.Index.Find.{alloc-queue, alloc-ptr, free-queue}
use het_bed.Context.{Table, Outcome}
use het_bed.Context.Rules.{
  Rules, store_new, store_at, register_to_session, rule_deletion, deregister_at, deregister_by_id,
}
use het_bed.Context.Find.{IsKeyed, IsFresh, get-set_none}

module _ (T : Table) where
  -- The nodes of a list differ from each other, and none of them is in the table.
  abbrev pub Spare : T.Carrier → List Ptr → Type 0
  Spare t [] = Unit
  Spare t (x ∷ xs) =
      ((n : ℕ) → x ≡ some n → ((i : ℕ) → T.get t i ≢ some n) × All (λ p. p ≢ some n) xs)
      × Spare t xs

  used-NotIn :
      (t : T.Carrier) (k n : ℕ) (xs : List Ptr)
      → T.get t k ≡ some n
      → Spare t xs
      → All (λ p. p ≢ some n) xs
  used-NotIn t k n [] h sp = tt
  used-NotIn t k n (x ∷ xs) h sp = ((λ e. (sp.0 n e).0 k h), used-NotIn t k n xs h sp.1)

  not-entry :
      (t : T.Carrier) (k n m i : ℕ)
      → some m ≢ some n
      → T.get t i ≢ some m
      → T.get (T.set t k (some n)) i ≢ some m
  not-entry t k n m i ne old e = elim (ℕ_discrete i k) [
    | yes same ↦
        ne
          (sym (sym (T.get-set_same t k (some n)) ∙ ap (T.get (T.set t k (some n))) (sym same) ∙ e))
    | no other ↦ old (sym (T.get-set_other t k i (some n) other) ∙ e)
  ]

  set-Spare :
      (t : T.Carrier) (k n : ℕ) (xs : List Ptr)
      → All (λ p. p ≢ some n) xs
      → Spare t xs
      → Spare (T.set t k (some n)) xs
  set-Spare t k n [] out sp = tt
  set-Spare t k n (x ∷ xs) out sp = (
    (λ m e. ((λ i. not-entry t k n m i (λ same. out.0 (e ∙ same)) ((sp.0 m e).0 i)), (sp.0 m e).1)),
    set-Spare t k n xs out.1 sp.1,
  )

  snoc-Spare :
      (t : T.Carrier) (n : ℕ) (xs : List Ptr)
      → ((i : ℕ) → T.get t i ≢ some n)
      → All (λ p. p ≢ some n) xs
      → Spare t xs
      → Spare t (xs ++ some n ∷ [])
  snoc-Spare t n [] gone out sp = ((λ m e. ((λ i h. gone i (h ∙ sym e)), tt)), tt)
  snoc-Spare t n (x ∷ xs) gone out sp = (
    λ m e. (
      (sp.0 m e).0,
      All-append (λ p. p ≢ some m) xs (some n ∷ []) (sp.0 m e).1
          ((λ same. out.0 (e ∙ sym same)), tt),
    ),
    snoc-Spare t n xs gone out.1 sp.1,
  )

  unset-Spare : (t : T.Carrier) (k : ℕ) (xs : List Ptr) → Spare t xs → Spare (T.set t k none) xs
  unset-Spare t k [] sp = tt
  unset-Spare t k (x ∷ xs) sp = (
    λ m e. ((λ i h. (sp.0 m e).0 i (get-set_none T t k i m h)), (sp.0 m e).1),
    unset-Spare t k xs sp.1,
  )

  -- The pool is a pool, and its nodes are spare.
  pub record HasSpare {R : Type 0} (s : Rules T R) : Type 0 where
    pub valid : IsValid s.pool.queue
    pub spare : Spare s.hash (avail s.pool.queue)

  -- The node that comes out of the pool, and what is left.
  alloc-avail :
      (x : Index)
      → IsValid x.queue
      → ((Index.alloc x).0, avail (Index.alloc x).1.queue) ≡ take_oldest (avail x.queue)
  alloc-avail x v = ap₂ (λ p q. (p, avail q)) (alloc-ptr x) (alloc-queue x) ∙ alloc_refines v

  module _ {R : Type 0} (id : R → ℕ) (id_set : R → Bool) where
    -- What the pool hands out is not in the table.
    taken :
        (t : T.Carrier) (n : ℕ) (xs : List Ptr) (rest : List Ptr)
        → (some n, rest) ≡ take_oldest xs
        → Spare t xs
        → ((i : ℕ) → T.get t i ≢ some n) × All (λ p. p ≢ some n) rest × Spare t rest
    unfolding take_oldest
    taken t n [] rest e sp = absurd (ground (arith, ap (λ r. r.0) e))
    taken t n (x ∷ xs) rest e sp =
        let here = sp.0 n (sym (ap (λ r. r.0) e)) in
        let same : xs ≡ rest = sym (ap (λ r. r.1) e) in
        (here.0, subst (All (λ p. p ≢ some n)) same here.1, subst (Spare t) same sp.1)

    taken-alloc :
        (n : ℕ) (pool : Index) (s : Rules T R)
        → Index.alloc s.pool ≡ (some n, pool)
        → HasSpare s
        → ((i : ℕ) → T.get s.hash i ≢ some n)
          × All (λ p. p ≢ some n) (avail pool.queue)
          × Spare s.hash (avail pool.queue)
    taken-alloc n pool s e own =
        taken s.hash n (avail s.pool.queue) (avail pool.queue)
          (ap (λ r. (r.0, avail r.1.queue)) (sym e) ∙ alloc-avail s.pool own.valid) own.spare

    pub HasSpare-IsFresh : (s : Rules T R) → HasSpare s → IsFresh T id id_set s
    HasSpare-IsFresh s own n pool e = (taken-alloc n pool s e own).0

    store_new-HasSpare :
        (sess : ℕ) (r : R) (s : Rules T R) (got : Option ℕ × Index)
        → Index.alloc s.pool ≡ got
        → HasSpare s
        → HasSpare (store_new T id id_set sess r got s).1
    store_new-HasSpare sess r s (none, pool) e own = own
    store_new-HasSpare sess r s (some n, pool) e own =
        let got = taken-alloc n pool s e own in
        record {
          valid =
              subst IsValid (sym (alloc-queue s.pool) ∙ ap (λ o. o.1.queue) e)
                (alloc-IsValid own.valid);
          spare = set-Spare s.hash (id r) n (avail pool.queue) got.1 got.2;
        }

    store_at-HasSpare :
        (sess : ℕ) (r : R) (s : Rules T R) (got : Option ℕ)
        → T.get s.hash (id r) ≡ got
        → HasSpare s
        → HasSpare (store_at T id id_set sess r got s).1
    store_at-HasSpare sess r s none e own =
        store_new-HasSpare sess r s (Index.alloc s.pool) refl own
    store_at-HasSpare sess r s (some n) e own = record {
      valid = own.valid;
      spare =
          set-Spare s.hash (id r) n (avail s.pool.queue)
            (used-NotIn s.hash (id r) n (avail s.pool.queue) e own.spare) own.spare;
    }

    -- A registration keeps the pool a pool whose free nodes differ from each other and from each node
    -- of the table.
    pub register-HasSpare :
        (sess : ℕ) (r : R) (s : Rules T R)
        → HasSpare s
        → HasSpare (register_to_session T id id_set sess r s).1
    unfolding register_to_session
    register-HasSpare sess r s own =
        if-cases (λ (o : Outcome (Option ℕ) × Rules T R). HasSpare o.1) (id_set r) _ _
          (λ set.
            if-cases (λ (o : Outcome (Option ℕ) × Rules T R). HasSpare o.1) s.locked _ _
              (λ waits. own)
              (λ free.
                store_at-HasSpare sess r (record s { locked = true }) (T.get s.hash (id r)) refl
                  (record { valid = own.valid; spare = own.spare })))
          (λ unset. own)

    given_back :
        (cap n : ℕ) (t : T.Carrier) (xs : List Ptr)
        → ((i : ℕ) → T.get t i ≢ some n)
        → All (λ p. p ≢ some n) xs
        → Spare t xs
        → Spare t (give_back cap xs (some n))
    unfolding give_back
    given_back cap n t xs gone out sp =
        if-cases (Spare t) (ltb (length xs) cap) (xs ++ some n ∷ []) xs
          (λ _. snoc-Spare t n xs gone out sp) (λ _. sp)

    unset-gone :
        (i n : ℕ) (s : Rules T R)
        → T.get s.hash i ≡ some n
        → IsKeyed T id id_set s
        → (j : ℕ) → T.get (T.set s.hash (id (s.rule n)) none) j ≢ some n
    unset-gone i n s e keyed j h =
        let k = id (s.rule n) in
        let same : j ≡ k = sym (keyed j n (get-set_none T s.hash k j n h)) in
        let clash : none ≡ some n =
          sym (T.get-set_same s.hash k none) ∙ ap (T.get (T.set s.hash k none)) (sym same) ∙ h in
        absurd (ground (arith, clash))

    deregister_at-HasSpare :
        (i : ℕ) (s : Rules T R) (got : Option ℕ)
        → T.get s.hash i ≡ got
        → IsKeyed T id id_set s
        → HasSpare s
        → HasSpare (deregister_at T id id_set got s).1
    unfolding rule_deletion
    deregister_at-HasSpare i s none e keyed own = own
    deregister_at-HasSpare i s (some n) e keyed own =
        let k = id (s.rule n) in
        let q = s.pool.queue in
        let t = T.set s.hash k none in
        record {
          valid =
              subst IsValid (sym (free-queue s.pool (some n))) (free-IsValid (some n) own.valid);
          spare =
              subst (Spare t)
                (sym (free_refines (some n) own.valid)
                  ∙ ap avail (sym (free-queue s.pool (some n))))
                (given_back q.cap n t (avail q) (unset-gone i n s e keyed)
                  (used-NotIn s.hash i n (avail q) e own.spare)
                  (unset-Spare s.hash k (avail q) own.spare));
        }

    -- A removal keeps the pool a pool whose free nodes differ from each other and from each node of the
    -- table, in a store where each entry of the table leads to a rule of its id.
    pub deregister-HasSpare :
        (sess i : ℕ) (s : Rules T R)
        → IsKeyed T id id_set s
        → HasSpare s
        → HasSpare (deregister_by_id T id id_set sess i s).1
    unfolding deregister_by_id
    deregister-HasSpare sess i s keyed own =
        if-cases (λ (o : Outcome Bool × Rules T R). HasSpare o.1) s.locked _ _ (λ waits. own)
          (λ free.
            deregister_at-HasSpare i (record s { locked = true }) (T.get s.hash i) refl keyed
              (record { valid = own.valid; spare = own.spare }))
