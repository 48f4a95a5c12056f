-- ===== src/Context/Deadlock.antt =====
-- src/upf_context.c: what an error inside a locked region does to the calls after it.
use het_bed.Base.{ℕ, Bool, true, false, Option, none, if◌then◌else◌, ◌≡◌, refl, ap, ◌∙◌}
use mathlib.Core.Option
use het_bed.Context.{Table, Store, Outcome, returned, blocked}
use het_bed.Context.Rules.{
  unlock, locking, Rules, find_by_id, store_at, register_to_session, deregister_at,
  deregister_by_id,
}

locking-waits :
    {C R A : Type 0} (body : Store C R → Outcome A × Store C R) (s : Store C R)
    → s.locked ≡ true
    → locking body s ≡ (blocked, s)
locking-waits body s held =
    ap (λ b. if b then (blocked, s) else body (record s { locked = true })) held

module _ (T : Table) {R : Type 0} (id : R → ℕ) (id_set : R → Bool) where
  -- Every call that needs the mutex waits for it.
  pub record IsStuck (s : Rules T R) : Type 0 where
    pub find : (i : ℕ) → find_by_id T id id_set i s ≡ (blocked, s)
    pub register :
        (sess : ℕ) (r : R)
        → id_set r ≡ true
        → register_to_session T id id_set sess r s ≡ (blocked, s)
    pub deregister : (sess i : ℕ) → deregister_by_id T id id_set sess i s ≡ (blocked, s)

  locked-IsStuck : (s : Rules T R) → s.locked ≡ true → IsStuck s
  unfolding find_by_id register_to_session deregister_by_id
  locked-IsStuck s held = record {
    find = λ i.
        let body : Rules T R → Outcome (Option R) × Rules T R =
          λ u. (returned (Option.map u.rule (T.get u.hash i)), unlock u) in
        locking-waits body s held;
    register = λ sess r set.
        let body = λ (u : Rules T R). store_at T id id_set sess r (T.get u.hash (id r)) u in
        ap (λ b. if b then locking body s else (returned none, s)) set ∙ locking-waits body s held;
    deregister = λ sess i.
        locking-waits (λ (u : Rules T R). deregister_at T id id_set (T.get u.hash i) u) s held;
  }

  -- A removal by an id that is not registered is an error, and after it every search, registration and
  -- removal of the kind waits for ever.
  pub deregister_by_id_unknown :
      (sess i : ℕ) (s : Rules T R)
      → s.locked ≡ false
      → T.get s.hash i ≡ none
      → ((deregister_by_id T id id_set sess i s).0 ≡ returned false)
        × IsStuck (deregister_by_id T id id_set sess i s).1
  unfolding deregister_by_id
  deregister_by_id_unknown sess i s free unknown =
      (rw (free, unknown) refl, locked-IsStuck _ (rw (free, unknown) refl))
