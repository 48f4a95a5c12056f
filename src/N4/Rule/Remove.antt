-- ===== src/N4/Rule/Remove.antt =====
-- src/n4/n4_pfcp_handler.c: what the handlers that remove a FAR or a QER do to the rules of the
-- context.
use het_bed.Base.{
  ℕ, Bool, true, false, not, ◌==◌, Option, none, some, ◌≡◌, refl, sym, ap, ◌∙◌, subst, arith,
  Bool-cases, inl, inr, if-cases,
}
use mathlib.Core.Option
use het_bed.Context.{Table, Outcome, returned, blocked, fault}
use het_bed.Context.Rules.{Rules, find_by_id, deregister_by_id}
use het_bed.Context.Find.{
  rule_at, IsKeyed, Removed, Deregisters, find_by_id-rule_at, find_by_id-blocked,
  deregister_by_id_lem,
}
use het_bed.N4.Rule.{calling, remove_found, remove_rule}

module _ (T : Table) {R : Type 0} (id : R → ℕ) (id_set : R → Bool) where
  abbrev Stores : Type 0
  Stores = Rules T R

  abbrev at : ℕ → Stores → Option R
  at = rule_at T id id_set

  -- What the handler does on each of its branches.
  abbrev pub Removes : ℕ → Stores → Outcome Bool × Stores → Type 0
  Removes i s (returned true, u) = Removed T id id_set i s u × (u.locked ≡ false)
  Removes i s (returned false, u) = u ≡ s
  Removes i s (blocked, u) = (s.locked ≡ true) × (u ≡ s)
  Removes i s (fault, u) = false ≡ true

  Deregisters-Removes :
      (i : ℕ) (s : Stores) (f : R) (out : Outcome Bool × Stores)
      → at i s ≡ some f
      → Deregisters T id id_set i s out
      → Removes i s out
  Deregisters-Removes i s f (returned true, u) e told = told
  Deregisters-Removes i s f (returned false, u) e told =
      let clash : none ≡ some f = sym (ap (Option.map s.rule) told.0) ∙ e in
      absurd (ground (arith, clash))
  Deregisters-Removes i s f (blocked, u) e told = told
  Deregisters-Removes i s f (fault, u) e told = told

  module _ (takes : R → Bool) where
    remove_found-Removes :
        (sess i : ℕ) (s : Stores) (got : Option R)
        → at i s ≡ got
        → IsKeyed T id id_set s
        → Removes i s (remove_found T id id_set takes sess i got s)
    remove_found-Removes sess i s none e keyed = refl
    remove_found-Removes sess i s (some f) e keyed =
        if-cases (Removes i s) (takes f) _ _
          (λ _.
            Deregisters-Removes i s f (deregister_by_id T id id_set sess i s) e
              (deregister_by_id_lem T id id_set sess i s keyed))
          (λ _. refl)

    find-Removes :
        (sess i : ℕ) (s : Stores)
        → IsKeyed T id id_set s
        → Removes i s (calling (find_by_id T id id_set i s) (remove_found T id id_set takes sess i))
    find-Removes sess i s keyed =
        let goal = λ (o : Outcome (Option R) × Stores).
          Removes i s (calling o (remove_found T id id_set takes sess i)) in
        elim (Bool-cases s.locked) [
          | inl held ↦ subst goal (sym (find_by_id-blocked T id id_set i s held)) (held, refl)
          | inr free ↦
              subst goal (sym (find_by_id-rule_at T id id_set i s free))
                (remove_found-Removes sess i s (at i s) refl keyed)
        ]

    pub remove_rule-Removes :
        (sess i : ℕ) (s : Stores)
        → IsKeyed T id id_set s
        → Removes i s (remove_rule T id id_set takes sess i s)
    remove_rule-Removes sess i s keyed =
        if-cases (Removes i s) (not (i == 0)) _ _ (λ _. find-Removes sess i s keyed) (λ _. refl)
