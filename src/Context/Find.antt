-- ===== src/Context/Find.antt =====
-- src/upf_context.c: what a rule that is registered or removed means for the search by its id.
use het_bed.Base.{
  ℕ, Bool, true, false, Option, none, some, if◌then◌else◌, ◌≡◌, ◌≢◌, refl, sym, ap, ◌∙◌, arith,
  subst, ℕ_discrete, ==_refl, ne→==, if-cases,
}
use mathlib.Core.Option
use het_bed.Index
use het_bed.Index.{Index}
use het_bed.Context.{Table, Outcome, returned, blocked, fault}
use het_bed.Context.Rules.{
  locking, write_rule, Rules, find_by_id, store_rule, store_new, store_at, register_to_session,
  rule_deletion, deregister_at, deregister_by_id,
}

module _ (T : Table) where
  pub get-set_none :
      (t : T.Carrier) (k i m : ℕ) → T.get (T.set t k none) i ≡ some m → T.get t i ≡ some m
  get-set_none t k i m e = elim (ℕ_discrete i k) [
    | yes same ↦
        let gone : T.get (T.set t k none) i ≡ none =
          ap (T.get (T.set t k none)) same ∙ T.get-set_same t k none in
        let clash : none ≡ some m = sym gone ∙ e in absurd (ground (arith, clash))
    | no ne ↦ sym (T.get-set_other t k i none ne) ∙ e
  ]

module _ (T : Table) {R : Type 0} (id : R → ℕ) (id_set : R → Bool) where
  -- What an id stands for in a store.
  abbrev pub rule_at : ℕ → Rules T R → Option R
  rule_at i s = Option.map s.rule (T.get s.hash i)

  -- Each entry of the table leads to a node with a rule of its id.
  abbrev pub IsKeyed : Rules T R → Type 0
  IsKeyed s = (i n : ℕ) → T.get s.hash i ≡ some n → id (s.rule n) ≡ i

  -- The node that the pool hands out next is not in the table.
  abbrev pub IsFresh : Rules T R → Type 0
  IsFresh s =
      (n : ℕ) (pool : Index)
      → Index.alloc s.pool ≡ (some n, pool)
      → (i : ℕ) → T.get s.hash i ≢ some n

  pub find_by_id-rule_at :
      (i : ℕ) (s : Rules T R)
      → s.locked ≡ false
      → find_by_id T id id_set i s ≡ (returned (rule_at i s), s)
  unfolding find_by_id
  find_by_id-rule_at i s free = rw free refl

  pub find_by_id-blocked :
      (i : ℕ) (s : Rules T R) → s.locked ≡ true → find_by_id T id id_set i s ≡ (blocked, s)
  unfolding find_by_id
  find_by_id-blocked i s held = rw held refl

  -- The rule is found under its id, every other id stands for what it stood for, and the mutex is free.
  abbrev pub Stored : R → Rules T R → Rules T R → Type 0
  Stored r s s' =
      (rule_at (id r) s' ≡ some r)
      × ((j : ℕ) → j ≢ id r → rule_at j s' ≡ rule_at j s)
      × IsKeyed s'
      × (s'.locked ≡ false)

  pub rule-write_rule : (n m : ℕ) (r : R) (rules : ℕ → R) → m ≢ n → write_rule n r rules m ≡ rules m
  rule-write_rule n m r rules ne = ap (λ b. if b then r else rules m) (ne→== m n ne)

  pub rule-write_rule_self : (n : ℕ) (r : R) (rules : ℕ → R) → write_rule n r rules n ≡ r
  rule-write_rule_self n r rules = ap (λ b. if b then r else rules n) (==_refl n)

  map-some :
      (f g : ℕ → R) (o : Option ℕ)
      → ((m : ℕ) → o ≡ some m → f m ≡ g m)
      → Option.map f o ≡ Option.map g o
  map-some f g none same = refl
  map-some f g (some m) same = ap some (same m refl)

  pub store_rule-IsKeyed :
      (r : R) (n : ℕ) (s : Rules T R)
      → IsKeyed s
      → ((i : ℕ) → T.get s.hash i ≡ some n → i ≡ id r)
      → IsKeyed (store_rule T id id_set r n s).1
  store_rule-IsKeyed r n s keyed own i m e = elim (ℕ_discrete i (id r)) [
    | yes same ↦
        let told : some n ≡ some m =
          sym (T.get-set_same s.hash (id r) (some n))
          ∙ ap (T.get (T.set s.hash (id r) (some n))) (sym same)
          ∙ e in
        let node : n ≡ m = cc in
        ap (λ k. id (write_rule n r s.rule k)) (sym node)
        ∙ ap id (rule-write_rule_self n r s.rule)
        ∙ sym same
    | no ne ↦
        let old : T.get s.hash i ≡ some m = sym (T.get-set_other s.hash (id r) i (some n) ne) ∙ e in
        let other : m ≢ n = λ same. ne (own i (old ∙ ap some same)) in
        ap id (rule-write_rule n m r s.rule other) ∙ keyed i m old
  ]

  pub rule_at-store_rule :
      (r : R) (n : ℕ) (s : Rules T R) → rule_at (id r) (store_rule T id id_set r n s).1 ≡ some r
  rule_at-store_rule r n s =
      ap (Option.map (write_rule n r s.rule)) (T.get-set_same s.hash (id r) (some n))
      ∙ ap some (rule-write_rule_self n r s.rule)

  -- A node that no other id leads to.
  store_rule-Stored :
      (r : R) (n : ℕ) (s : Rules T R)
      → IsKeyed s
      → ((i : ℕ) → T.get s.hash i ≡ some n → i ≡ id r)
      → Stored r s (store_rule T id id_set r n s).1
  store_rule-Stored r n s keyed own = (
    rule_at-store_rule r n s,
    λ j ne.
        ap (Option.map (write_rule n r s.rule)) (T.get-set_other s.hash (id r) j (some n) ne)
        ∙ map-some (write_rule n r s.rule) s.rule (T.get s.hash j)
            (λ m e. rule-write_rule n m r s.rule λ same. ne (own j (e ∙ ap some same))),
    store_rule-IsKeyed r n s keyed own,
    refl,
  )

  -- The mutex is taken.
  abbrev pub held : Rules T R → Rules T R
  held s = record s { locked = true }

  -- What a registration does on each of its branches.
  abbrev pub Registers : R → Rules T R → Outcome (Option ℕ) × Rules T R → Type 0
  Registers r s (returned (some n), s') = Stored r s s' × (T.get s'.hash (id r) ≡ some n)
  Registers r s (returned none, s') = (id_set r ≡ false) × (s' ≡ s)
  Registers r s (blocked, s') = (s.locked ≡ true) × (s' ≡ s)
  Registers r s (fault, s') = (T.get s.hash (id r) ≡ none) × ((Index.alloc s.pool).0 ≡ none)

  store_new-Registers :
      (sess : ℕ) (r : R) (s : Rules T R) (got : Option ℕ × Index)
      → Index.alloc s.pool ≡ got
      → IsKeyed s
      → IsFresh s
      → T.get s.hash (id r) ≡ none
      → Registers r s (store_new T id id_set sess r got (held s))
  store_new-Registers sess r s (none, pool) e keyed fresh absent = (absent, ap (λ g. g.0) e)
  store_new-Registers sess r s (some n, pool) e keyed fresh absent = (
    store_rule-Stored r n s keyed (λ i h. absurd (fresh n pool e i h)),
    T.get-set_same s.hash (id r) (some n),
  )

  store_at-Registers :
      (sess : ℕ) (r : R) (s : Rules T R) (got : Option ℕ)
      → T.get s.hash (id r) ≡ got
      → IsKeyed s
      → IsFresh s
      → Registers r s (store_at T id id_set sess r got (held s))
  store_at-Registers sess r s none e keyed fresh =
      store_new-Registers sess r s (Index.alloc s.pool) refl keyed fresh e
  store_at-Registers sess r s (some n) e keyed fresh = (
    store_rule-Stored r n s keyed (λ i h. sym (keyed i n h) ∙ keyed (id r) n e),
    T.get-set_same s.hash (id r) (some n),
  )

  -- What a registration does on each of its branches, in a store where each entry of the table leads to
  -- a rule of its id and the pool hands out no node of the table. A rule whose id is not set changes
  -- nothing; if the mutex is held the call waits; if the id is new and the pool is empty it writes
  -- through NULL. Otherwise the rule is found under its id, every other id stands for what it stood
  -- for, and the mutex is free again.
  pub register_to_session_lem :
      (sess : ℕ) (r : R) (s : Rules T R)
      → IsKeyed s
      → IsFresh s
      → Registers r s (register_to_session T id id_set sess r s)
  unfolding register_to_session
  register_to_session_lem sess r s keyed fresh =
      if-cases (Registers r s) (id_set r) _ _
        (λ set.
          if-cases (Registers r s) s.locked _ _ (λ waits. (waits, refl))
            (λ free. store_at-Registers sess r s (T.get s.hash (id r)) refl keyed fresh))
        (λ unset. (unset, refl))

  -- The id stands for nothing, every other id for what it stood for.
  abbrev pub Removed : ℕ → Rules T R → Rules T R → Type 0
  Removed i s s' =
      (rule_at i s' ≡ none) × ((j : ℕ) → j ≢ i → rule_at j s' ≡ rule_at j s) × IsKeyed s'

  pub rule_deletion-Removed :
      (n : ℕ) (s : Rules T R)
      → IsKeyed s
      → Removed (id (s.rule n)) s (rule_deletion T id id_set n s)
  unfolding rule_deletion
  rule_deletion-Removed n s keyed = (
    ap (Option.map s.rule) (T.get-set_same s.hash (id (s.rule n)) none),
    λ j ne. ap (Option.map s.rule) (T.get-set_other s.hash (id (s.rule n)) j none ne),
    λ i m e. keyed i m (get-set_none T s.hash (id (s.rule n)) i m e),
  )

  -- What a removal by id does on each of its branches: `s'` after `returned false` still holds the
  -- mutex.
  abbrev pub Deregisters : ℕ → Rules T R → Outcome Bool × Rules T R → Type 0
  Deregisters i s (returned true, s') = Removed i s s' × (s'.locked ≡ false)
  Deregisters i s (returned false, s') =
      (T.get s.hash i ≡ none) × ((j : ℕ) → rule_at j s' ≡ rule_at j s) × (s'.locked ≡ true)
  Deregisters i s (blocked, s') = (s.locked ≡ true) × (s' ≡ s)
  Deregisters i s (fault, s') = false ≡ true

  deregister_at-Deregisters :
      (i : ℕ) (s : Rules T R) (got : Option ℕ)
      → T.get s.hash i ≡ got
      → IsKeyed s
      → Deregisters i s (deregister_at T id id_set got (held s))
  unfolding rule_deletion
  deregister_at-Deregisters i s none e keyed = (e, (λ j. refl), refl)
  deregister_at-Deregisters i s (some n) e keyed = (
    subst (λ k. Removed k s (rule_deletion T id id_set n s)) (keyed i n e)
        (rule_deletion-Removed n s keyed),
    refl,
  )

  -- What a removal by id does on each of its branches, in a store where each entry of the table leads
  -- to a rule of its id. An id that is registered stands for nothing afterwards, whichever session is
  -- given, every other id stands for what it stood for, and the mutex is free; an id that is not
  -- registered is an error that changes no id and keeps the mutex; if the mutex is held the call waits.
  pub deregister_by_id_lem :
      (sess i : ℕ) (s : Rules T R)
      → IsKeyed s
      → Deregisters i s (deregister_by_id T id id_set sess i s)
  unfolding deregister_by_id
  deregister_by_id_lem sess i s keyed =
      if-cases (Deregisters i s) s.locked _ _ (λ waits. (waits, refl))
        (λ free. deregister_at-Deregisters i s (T.get s.hash i) refl keyed)

  -- A rule whose id is registered already takes the place of that rule, and no list changes.
  pub register_to_session_again :
      (sess n : ℕ) (r : R) (s : Rules T R)
      → s.locked ≡ false
      → id_set r ≡ true
      → T.get s.hash (id r) ≡ some n
      → register_to_session T id id_set sess r s ≡ store_rule T id id_set r n (held s)
  unfolding register_to_session
  register_to_session_again sess n r s free set known =
      let body = λ (u : Rules T R). store_at T id id_set sess r (T.get u.hash (id r)) u in
      ap (λ b. if b then locking body s else (returned none, s)) set
      ∙ ap (λ b. if b then (blocked, s) else body (held s)) free
      ∙ ap (λ got. store_at T id id_set sess r got (held s)) known
