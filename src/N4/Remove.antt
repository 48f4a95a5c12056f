-- ===== src/N4/Remove.antt =====
-- src/n4/n4_pfcp_handler.c: what the handler that removes a forwarding rule does to the rules of the
-- context.
use het_bed.Base.{ℕ, true}
use het_bed.Context.{Table}
use het_bed.Context.Rules.{Rules}
use het_bed.Context.Find.{IsKeyed}
use het_bed.Context.Far.{Far}
use het_bed.N4.Rule.Remove.{Removes, remove_rule-Removes}
use het_bed.N4.Handle.{Kernel, handle_remove_far}

module _ (T : Table) (kernel : Kernel) where
  -- What the handler that removes a FAR does on each of its branches, in a store where each entry of the
  -- table leads to a rule of its id. When it succeeds the id stands for nothing, every other id for what
  -- it stood for, and the mutex is free. An error changes nothing: since the handler looks for the rule
  -- first, the removal never ends inside the locked region. If the mutex is held the handler waits.
  pub handle_remove_far_lem :
      (sess id : ℕ) (s : Rules T Far)
      → IsKeyed T Far.far_id Far.far_id_set s
      → Removes T Far.far_id Far.far_id_set id s (handle_remove_far T kernel sess id s)
  unfolding handle_remove_far
  handle_remove_far_lem sess id s keyed =
      remove_rule-Removes T Far.far_id Far.far_id_set
        (λ f. kernel.remove_far (record f { far_id_set = true; far_id = id })) sess id s keyed
