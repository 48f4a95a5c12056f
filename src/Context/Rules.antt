-- ===== src/Context/Rules.antt =====
-- src/upf_context.c: the functions that the macros RuleFindByID, RuleRegisterToSession,
-- RuleDeregisterToSessionByID and RuleListDeletionAndFreeWithGTPv1Tunnel make for a kind of rule.
use het_bed.Base.{
  ℕ, zero, suc, Bool, true, false, Option, none, some, ◌==◌, ◌-◌, ◌/◌, if◌then◌else◌,
}
use mathlib.Core.Option
use het_bed.Index
use het_bed.Index.{Index}
use het_bed.ListHead.{list_head_init, list_first, list_insert, list_remove}
use het_bed.Context.{Table, Store, node_at, list_of, Outcome, returned, blocked, fault}

abbrev pub unlock : {C R : Type 0} → Store C R → Store C R
unlock s = record s { locked = false }

-- The mutex is taken; if it is held, nobody is left to give it back.
abbrev pub locking :
    {C R A : Type 0} → (Store C R → Outcome A × Store C R) → Store C R → Outcome A × Store C R
locking body s = if s.locked then (blocked, s) else body (record s { locked = true })

abbrev pub write_rule : {R : Type 0} → ℕ → R → (ℕ → R) → ℕ → R
write_rule n r rules m = if m == n then r else rules m

abbrev pub Rules : Table → Type 0 → Type 0
Rules T R = Store T.Carrier R

-- A table, and for a kind of rule the id and the flag that says whether it is set.
module _ (T : Table) {R : Type 0} (id : R → ℕ) (id_set : R → Bool) where
  -- Upf...FindByID and `HowToHandleThisPacket`: what is copied out of the node.
  unfoldable pub find_by_id : ℕ → Rules T R → Outcome (Option R) × Rules T R
  find_by_id i = locking λ s. (returned (Option.map s.rule (T.get s.hash i)), unlock s)

  -- `memcpy` and `HashSet`, and the end of the locked region.
  abbrev pub store_rule : R → ℕ → Rules T R → Outcome (Option ℕ) × Rules T R
  store_rule r n s = (
    returned (some n),
    unlock (record s { rule = write_rule n r s.rule; hash = T.set s.hash (id r) (some n) }),
  )

  -- Upf...NodeAlloc writes to the node before anybody has looked whether it is NULL.
  abbrev pub store_new : ℕ → R → Option ℕ × Index → Rules T R → Outcome (Option ℕ) × Rules T R
  store_new sess r (none, pool) s = (fault, s)
  store_new sess r (some n, pool) s =
      let links = list_insert (node_at n) (list_of sess) (list_head_init (node_at n) s.links) in
      store_rule r n (record s { pool = pool; links = links })

  abbrev pub store_at : ℕ → R → Option ℕ → Rules T R → Outcome (Option ℕ) × Rules T R
  store_at sess r none s = store_new sess r (Index.alloc s.pool) s
  store_at sess r (some n) s = store_rule r n s

  -- Upf...RegisterToSession: the node, or NULL.
  unfoldable pub register_to_session : ℕ → R → Rules T R → Outcome (Option ℕ) × Rules T R
  register_to_session sess r s =
      if id_set r
      then locking (λ u. store_at sess r (T.get u.hash (id r)) u) s
      else (returned none, s)

  -- RuleDeletionFromSession, which does not look at the session.
  unfoldable pub rule_deletion : ℕ → Rules T R → Rules T R
  rule_deletion n s = record s {
    hash = T.set s.hash (id (s.rule n)) none;
    links = list_remove (node_at n) s.links;
  }

  abbrev pub free_node : ℕ → Rules T R → Rules T R
  free_node n s = record s { pool = Index.free s.pool (some n) }

  -- An id that is unknown is STATUS_ERROR, from inside the locked region.
  abbrev pub deregister_at : Option ℕ → Rules T R → Outcome Bool × Rules T R
  deregister_at none s = (returned false, s)
  deregister_at (some n) s = (returned true, free_node n (unlock (rule_deletion n s)))

  -- Upf...DeregisterToSessionByID; true is STATUS_OK.
  unfoldable pub deregister_by_id : ℕ → ℕ → Rules T R → Outcome Bool × Rules T R
  deregister_by_id sess i = locking λ s. deregister_at (T.get s.hash i) s

  -- The loop of Upf...ListDeletionAndFreeWithGTPv1Tunnel, which takes no lock, at the node `it`.
  unfoldable pub list_deletion : ℕ → ℕ → ℕ → Rules T R → Rules T R
  list_deletion zero it head s = s
  list_deletion (suc fuel) it head s =
      let next = s.links.next it in
      let n = (it - 1) / 2 in
      let rest = list_deletion fuel next head (free_node n (rule_deletion n s)) in
      if it == head then s else rest

  unfoldable pub list_deletion_and_free : ℕ → ℕ → Rules T R → Rules T R
  list_deletion_and_free fuel sess s =
      list_deletion fuel (list_first (list_of sess) s.links) (list_of sess) s
