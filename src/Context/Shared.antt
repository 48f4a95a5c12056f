-- ===== src/Context/Shared.antt =====
-- src/upf_context.c: two sessions that use the same id.
use het_bed.Base.{
  ℕ, Bool, true, false, some, none, List, [], ◌∷◌, ◌++◌, map, length, All, ◌≡◌, ◌≢◌, ◌≤◌, sym, ap,
  ◌∙◌, ℕ_discrete,
}
use het_bed.ListHead.Chain.{IsList}
use het_bed.Context.{Table, node_at, list_of, returned}
use het_bed.Context.Rules.{
  Rules, store_rule, write_rule, register_to_session, list_deletion_and_free,
}
use het_bed.Context.Find.{
  rule_at, IsKeyed, held, store_rule-IsKeyed, rule_at-store_rule, rule-write_rule,
  rule-write_rule_self, register_to_session_again,
}
use het_bed.Context.Clear.{AreRegistered, list_deletion_and_free_lem}

All-middle :
    {A : Type 0} (P : A → Type 0) (xs : List A) (x : A) (ys : List A) → All P (xs ++ x ∷ ys) → P x
All-middle P [] x ys h = h.0
All-middle P (y ∷ xs) x ys h = All-middle P xs x ys h.1

module _ (T : Table) {R : Type 0} (id : R → ℕ) (id_set : R → Bool) where
  -- The nodes of a list stay registered when the rule of one of them is replaced under its id.
  replaced-AreRegistered :
      (n : ℕ) (r : R) (s : Rules T R) (ns : List ℕ)
      → T.get s.hash (id r) ≡ some n
      → AreRegistered T id id_set s ns
      → AreRegistered T id id_set (store_rule T id id_set r n s).1 ns
  replaced-AreRegistered n r s [] known a = tt
  replaced-AreRegistered n r s (m ∷ ns) known a =
      let table = T.set s.hash (id r) (some n) in
      let place = λ (x : R). T.get table (id x) in
      let here : place (write_rule n r s.rule m) ≡ some m = elim (ℕ_discrete m n) [
        | yes same ↦
            ap (λ k. place (write_rule n r s.rule k)) same
            ∙ ap place (rule-write_rule_self T id id_set n r s.rule)
            ∙ T.get-set_same s.hash (id r) (some n)
            ∙ ap some (sym same)
        | no other ↦
            let apart : id (s.rule m) ≢ id r = λ e.
              let told : some m ≡ some n = sym a.0 ∙ ap (T.get s.hash) e ∙ known in
              let node : m ≡ n = cc in other node in
            ap place (rule-write_rule T id id_set n m r s.rule other)
            ∙ T.get-set_other s.hash (id r) (id (s.rule m)) (some n) apart
            ∙ a.0
      ] in
      (here, replaced-AreRegistered n r s ns known a.1)

  -- A session `b` registers a rule under an id that a rule of session `a` has, in a store where the
  -- rules of `a` are in its list and in the table, each entry of the table leads to a rule of its id, and
  -- the mutex is free. The rule takes the place of that of `a`: it is found under its id, but it stays in
  -- the list of `a`, and when the rules of `a` are removed the rule of `b` is gone too.
  pub shared_id_lost :
      (a b fuel n : ℕ) (xs ys : List ℕ) (r : R) (s : Rules T R)
      → s.locked ≡ false
      → id_set r ≡ true
      → T.get s.hash (id r) ≡ some n
      → IsKeyed T id id_set s
      → AreRegistered T id id_set s (xs ++ n ∷ ys)
      → IsList s.links (list_of a) (map node_at (xs ++ n ∷ ys))
      → length (xs ++ n ∷ ys) ≤ fuel
      → (let out = register_to_session T id id_set b r s in
          (out.0 ≡ returned (some n))
          × (rule_at T id id_set (id r) out.1 ≡ some r)
          × (rule_at T id id_set (id r) (list_deletion_and_free T id id_set fuel a out.1) ≡ none))
  shared_id_lost a b fuel n xs ys r s free set known keyed listed l enough =
      let out = register_to_session T id id_set b r s in
      let step = register_to_session_again T id id_set b n r s free set known in
      let new = store_rule T id id_set r n (held T id id_set s) in
      let own = λ (i : ℕ) (e : T.get s.hash i ≡ some n). sym (keyed i n e) ∙ keyed (id r) n known in
      let gone =
        list_deletion_and_free_lem T id id_set fuel a (xs ++ n ∷ ys) new.1 enough l
          (replaced-AreRegistered n r (held T id id_set s) (xs ++ n ∷ ys) known listed)
          (store_rule-IsKeyed T id id_set r n (held T id id_set s) keyed own) in
      let after =
        λ (k : ℕ). rule_at T id id_set k (list_deletion_and_free T id id_set fuel a new.1) in
      let last : after (id r) ≡ none =
        ap (λ x. after (id x)) (sym (rule-write_rule_self T id id_set n r s.rule))
        ∙ All-middle (λ m. after (id (new.1.rule m)) ≡ none) xs n ys gone.0.0 in
      (
        ap (λ o. o.0) step,
        ap (λ o. rule_at T id id_set (id r) o.1) step
            ∙ rule_at-store_rule T id id_set r n (held T id id_set s),
        ap (λ o. rule_at T id id_set (id r) (list_deletion_and_free T id id_set fuel a o.1)) step
            ∙ last,
      )
