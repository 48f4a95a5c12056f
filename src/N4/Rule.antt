-- ===== src/N4/Rule.antt =====
-- src/n4/n4_pfcp_handler.c: what the handlers that create and remove FARs and QERs have in common, on the
-- rules of the context.
use het_bed.Base.{ℕ, Bool, true, false, not, Option, none, some, if◌then◌else◌, ◌==◌}
use het_bed.Context.{Table, Outcome, returned, blocked, fault}
use het_bed.Context.Rules.{Rules, find_by_id, register_to_session, deregister_by_id}
use het_bed.N4.{Tlv, be32_at}
pub mod Create
pub mod Remove
pub mod Safe

-- A call inside a handler: what follows it, unless it does not return.
abbrev pub calling : {A B S : Type 0} → Outcome A × S → (A → S → Outcome B × S) → Outcome B × S
calling (returned a, s) next = next a s
calling (blocked, s) next = (blocked, s)
calling (fault, s) next = (fault, s)

-- UTLT_Assert: the statements behind it, or `return STATUS_ERROR`.
abbrev pub guard : {S : Type 0} → Bool → S → Outcome Bool × S → Outcome Bool × S
guard b s next = if b then next else (returned false, s)

module _ (T : Table) {R : Type 0} (id : R → ℕ) (id_set : R → Bool) where
  abbrev pub registered_ok : Option ℕ → Rules T R → Outcome Bool × Rules T R
  registered_ok none s = (returned false, s)
  registered_ok (some n) s = (returned true, s)

  -- From the conversion on: the kernel, which takes the rule or not, and the registration.
  abbrev pub rule_converted : (R → Bool) → ℕ → Option R → Rules T R → Outcome Bool × Rules T R
  rule_converted takes sess none s = (returned false, s)
  rule_converted takes sess (some f) s =
      guard (takes f) s (calling (register_to_session T id id_set sess f s) registered_ok)

  abbrev pub rule_new : (R → Bool) → ℕ → Option R → Option R → Rules T R → Outcome Bool × Rules T R
  rule_new takes sess converted (some old) s = (returned false, s)
  rule_new takes sess converted none s = rule_converted takes sess converted s

  -- The id, and another IE that must be there.
  abbrev pub create_rule :
      (R → Bool) → ℕ → Option R → Option Tlv → Option Tlv → Rules T R → Outcome Bool × Rules T R
  create_rule takes sess converted none must s = (returned false, s)
  create_rule takes sess converted (some t) none s = (returned false, s)
  create_rule takes sess converted (some t) (some a) s =
      calling (find_by_id T id id_set (be32_at t.value 0) s) (rule_new takes sess converted)

  abbrev pub remove_found : (R → Bool) → ℕ → ℕ → Option R → Rules T R → Outcome Bool × Rules T R
  remove_found takes sess i none s = (returned false, s)
  remove_found takes sess i (some f) s = guard (takes f) s (deregister_by_id T id id_set sess i s)

  abbrev pub remove_rule : (R → Bool) → ℕ → ℕ → Rules T R → Outcome Bool × Rules T R
  remove_rule takes sess i s =
      guard (not (i == 0)) s (calling (find_by_id T id id_set i s) (remove_found takes sess i))
