-- ===== src/N4/Rule/Safe.antt =====
-- src/n4/n4_pfcp_handler.c: the parts of the handlers on a store between two requests: none of them
-- waits for the mutex, and each of them leaves such a store.
use het_bed.Base.{
  ℕ, Bool, true, false, not, ◌==◌, Option, none, some, ◌≡◌, refl, sym, ap, ◌∙◌, subst, arith,
  if-cases,
}
use mathlib.Core.Option
use het_bed.Index
use het_bed.Context.{Table, Outcome, returned, blocked, fault}
use het_bed.Context.Rules.{Rules, find_by_id, register_to_session, deregister_by_id}
use het_bed.Context.Find.{
  rule_at, Registers, Deregisters, find_by_id-rule_at, register_to_session_lem,
  deregister_by_id_lem,
}
use het_bed.Context.Fresh.{HasSpare, HasSpare-IsFresh, register-HasSpare, deregister-HasSpare}
use het_bed.N4.{Tlv, be32_at}
use het_bed.N4.Rule.{
  calling, registered_ok, rule_converted, rule_new, create_rule, remove_found, remove_rule,
}
use het_bed.N4.Session.Loop.{IsReady}

module _ (T : Table) {R : Type 0} (id : R → ℕ) (id_set : R → Bool) where
  abbrev Stores : Type 0
  Stores = Rules T R

  abbrev Ready : Stores → Type 0
  Ready = IsReady T id id_set

  -- A call on a store returns and leaves a store between two requests, or the pool is empty.
  abbrev pub Answers : {A : Type 0} → Stores → Outcome A × Stores → Type 0
  Answers s (returned a, u) = IsReady T id id_set u
  Answers s (blocked, u) = false ≡ true
  Answers s (fault, u) = (Index.alloc s.pool).0 ≡ none

  pub calling-Answers :
      {A B : Type 0} (s : Stores) (out : Outcome A × Stores)
      (next : A → Stores → Outcome B × Stores)
      → Answers s out
      → ((a : A) (u : Stores) → Ready u → Answers s (next a u))
      → Answers s (calling out next)
  calling-Answers s (returned a, u) next h go = go a u h
  calling-Answers s (blocked, u) next h go = h
  calling-Answers s (fault, u) next h go = h

  -- A search in front of the rest.
  pub find-Answers :
      {B : Type 0} (i : ℕ) (s : Stores) (next : Option R → Stores → Outcome B × Stores)
      → Ready s
      → Answers s (next (rule_at T id id_set i s) s)
      → Answers s (calling (find_by_id T id id_set i s) next)
  find-Answers {B} i s next ready h =
      let goal = λ (o : Outcome (Option R) × Stores). Answers s (calling o next) in
      subst goal (sym (find_by_id-rule_at T id id_set i s ready.free)) h

  Registers-Answers :
      (r : R) (s : Stores) (out : Outcome (Option ℕ) × Stores)
      → Ready s
      → Registers T id id_set r s out
      → HasSpare T out.1
      → Answers s out
  Registers-Answers r s (returned (some n), u) ready told own = record {
    keyed = told.0.2;
    spare = own;
    free = told.0.3;
  }
  Registers-Answers r s (returned none, u) ready told own = subst Ready (sym told.1) ready
  Registers-Answers r s (blocked, u) ready told own = sym ready.free ∙ told.0
  Registers-Answers r s (fault, u) ready told own = told.1

  pub register-Answers :
      (sess : ℕ) (r : R) (s : Stores)
      → Ready s
      → Answers s (register_to_session T id id_set sess r s)
  register-Answers sess r s ready =
      Registers-Answers r s (register_to_session T id id_set sess r s) ready
        (register_to_session_lem T id id_set sess r s ready.keyed
          (HasSpare-IsFresh T id id_set s ready.spare))
        (register-HasSpare T id id_set sess r s ready.spare)

  Deregisters-Answers :
      (i : ℕ) (f : R) (s : Stores) (out : Outcome Bool × Stores)
      → Ready s
      → rule_at T id id_set i s ≡ some f
      → Deregisters T id id_set i s out
      → HasSpare T out.1
      → Answers s out
  Deregisters-Answers i f s (returned true, u) ready known told own = record {
    keyed = told.0.2;
    spare = own;
    free = told.1;
  }
  Deregisters-Answers i f s (returned false, u) ready known told own =
      let clash : none ≡ some f = sym (ap (Option.map s.rule) told.0) ∙ known in
      absurd (ground (arith, clash))
  Deregisters-Answers i f s (blocked, u) ready known told own = sym ready.free ∙ told.0
  Deregisters-Answers i f s (fault, u) ready known told own = absurd (ground (arith, told))

  registered_ok-Answers :
      (s : Stores) (n : Option ℕ) (u : Stores) → Ready u → Answers s (registered_ok T id id_set n u)
  registered_ok-Answers s none u ready = ready
  registered_ok-Answers s (some n) u ready = ready

  module _ (takes : R → Bool) where
    pub rule_converted-Answers :
        (sess : ℕ) (converted : Option R) (s : Stores)
        → Ready s
        → Answers s (rule_converted T id id_set takes sess converted s)
    rule_converted-Answers sess none s ready = ready
    rule_converted-Answers sess (some f) s ready =
        if-cases (Answers s) (takes f) _ _
          (λ _.
            calling-Answers s (register_to_session T id id_set sess f s) (registered_ok T id id_set)
              (register-Answers sess f s ready) (registered_ok-Answers s))
          (λ _. ready)

    rule_new-Answers :
        (sess : ℕ) (converted got : Option R) (s : Stores)
        → Ready s
        → Answers s (rule_new T id id_set takes sess converted got s)
    rule_new-Answers sess converted (some old) s ready = ready
    rule_new-Answers sess converted none s ready = rule_converted-Answers sess converted s ready

    pub create_rule-Answers :
        (sess : ℕ) (converted : Option R) (key must : Option Tlv) (s : Stores)
        → Ready s
        → Answers s (create_rule T id id_set takes sess converted key must s)
    create_rule-Answers sess converted none must s ready = ready
    create_rule-Answers sess converted (some t) none s ready = ready
    create_rule-Answers sess converted (some t) (some a) s ready =
        let i = be32_at t.value 0 in
        find-Answers i s (rule_new T id id_set takes sess converted) ready
          (rule_new-Answers sess converted (rule_at T id id_set i s) s ready)

    remove_found-Answers :
        (sess i : ℕ) (got : Option R) (s : Stores)
        → rule_at T id id_set i s ≡ got
        → Ready s
        → Answers s (remove_found T id id_set takes sess i got s)
    remove_found-Answers sess i none s e ready = ready
    remove_found-Answers sess i (some f) s e ready =
        if-cases (Answers s) (takes f) _ _
          (λ _.
            Deregisters-Answers i f s (deregister_by_id T id id_set sess i s) ready e
              (deregister_by_id_lem T id id_set sess i s ready.keyed)
              (deregister-HasSpare T id id_set sess i s ready.keyed ready.spare))
          (λ _. ready)

    pub remove_rule-Answers :
        (sess i : ℕ) (s : Stores) → Ready s → Answers s (remove_rule T id id_set takes sess i s)
    remove_rule-Answers sess i s ready =
        if-cases (Answers s) (not (i == 0)) _ _
          (λ _.
            find-Answers i s (remove_found T id id_set takes sess i) ready
              (remove_found-Answers sess i (rule_at T id id_set i s) s refl ready))
          (λ _. ready)
