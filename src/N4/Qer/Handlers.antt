-- ===== src/N4/Qer/Handlers.antt =====
-- src/n4/n4_pfcp_handler.c: what the handlers of QoS rules do to the rules of the context.
use het_bed.Base.{
  ℕ, Bool, true, false, Option, none, some, List, ◌≡◌, refl, sym, ap, ◌∙◌, subst, arith, Bool-cases,
  inl, inr, if-cases,
}
use mathlib.Core.Option
use het_bed.Context.{Table, Outcome, returned, blocked, fault}
use het_bed.Context.Rules.{Rules, register_to_session}
use het_bed.Context.Find.{
  rule_at, IsKeyed, IsFresh, Stored, Registers, find_by_id-rule_at, find_by_id-blocked,
  register_to_session_lem,
}
use het_bed.Context.Fresh.{HasSpare}
use het_bed.N4.{Tlv, be32_at}
use het_bed.N4.Rule.{calling, registered_ok}
use het_bed.N4.Rule.Create.{HasIdOf, Creates, Handler, create_rule-Creates, create_rule-HasSpare}
use het_bed.N4.Rule.Remove.{Removes, remove_rule-Removes}
use het_bed.N4.Session.Loop.{IsReady, Establishes, create_all-Establishes}
use het_bed.N4.Qer.{
  Qer, QerIe, QerKernel, flag_of, value_of, zero_qer, convert_qer, update_qer_found,
  update_qer_checked, handle_create_qer, handle_update_qer, handle_remove_qer, handle_create_qers,
}

read_id-HasIdOf :
    (key : Option Tlv) (q : Qer)
    → q.qer_id ≡ value_of key (λ v _. be32_at v 0) 0
    → q.qer_id_set ≡ flag_of key false
    → HasIdOf Qer.qer_id Qer.qer_id_set key (some q)
read_id-HasIdOf none q e set = tt
read_id-HasIdOf (some t) q e set = (e, set)

convert_qer-HasIdOf :
    (ie : QerIe) → HasIdOf Qer.qer_id Qer.qer_id_set ie.qer_id (some (convert_qer ie zero_qer))
unfolding convert_qer
convert_qer-HasIdOf ie = read_id-HasIdOf ie.qer_id (convert_qer ie zero_qer) refl refl

module _ (T : Table) (kernel : QerKernel) where
  abbrev Qers : Type 0
  Qers = Rules T Qer

  abbrev at : ℕ → Qers → Option Qer
  at = rule_at T Qer.qer_id Qer.qer_id_set

  pub handle_create_qer_lem :
      (sess : ℕ) (ie : QerIe) (s : Qers)
      → IsKeyed T Qer.qer_id Qer.qer_id_set s
      → IsFresh T Qer.qer_id Qer.qer_id_set s
      → Creates T Qer.qer_id Qer.qer_id_set kernel.create_qer
          (some (convert_qer ie zero_qer))
          s
          (handle_create_qer T kernel sess ie s)
  unfolding handle_create_qer
  handle_create_qer_lem sess ie s keyed fresh =
      create_rule-Creates T Qer.qer_id Qer.qer_id_set kernel.create_qer sess
        (some (convert_qer ie zero_qer)) ie.qer_id ie.gate_status s (convert_qer-HasIdOf ie) keyed
        fresh

  pub handle_create_qer-HasSpare :
      (sess : ℕ) (ie : QerIe) (s : Qers)
      → HasSpare T s
      → HasSpare T (handle_create_qer T kernel sess ie s).1
  unfolding handle_create_qer
  handle_create_qer-HasSpare sess ie s own =
      create_rule-HasSpare T Qer.qer_id Qer.qer_id_set kernel.create_qer sess
        (some (convert_qer ie zero_qer)) ie.qer_id ie.gate_status s own

  -- `UpfN4HandleCreateQer` as a handler of rules.
  abbrev pub qer_handler : ℕ → Handler T Qer.qer_id Qer.qer_id_set QerIe
  qer_handler sess = record {
    takes = kernel.create_qer;
    made = λ ie. some (convert_qer ie zero_qer);
    handle = handle_create_qer T kernel sess;
    handle-Creates = handle_create_qer_lem sess;
    handle-HasSpare = handle_create_qer-HasSpare sess;
  }

  -- The QERs of an establishment request, from a store where each entry of the table leads to a rule of
  -- its id, the free nodes of the pool are spare and the mutex is free: what the FARs do.
  pub handle_create_qers-Establishes :
      (sess : ℕ) (ies : List QerIe) (cause : Bool) (s : Qers)
      → IsReady T Qer.qer_id Qer.qer_id_set s
      → Establishes T Qer.qer_id Qer.qer_id_set
          (qer_handler sess)
          cause
          ies
          s
          (handle_create_qers T kernel sess ies cause s)
  handle_create_qers-Establishes sess =
      create_all-Establishes T Qer.qer_id Qer.qer_id_set (qer_handler sess)

  -- What the update of a QER does on each of its branches.
  abbrev pub Updates : QerIe → Qers → Outcome Bool × Qers → Type 0
  Updates ie s (returned true, u) =
      (old : Qer) × (rule_at T Qer.qer_id Qer.qer_id_set (convert_qer ie old).qer_id s ≡ some old)
      × (kernel.update_qer (convert_qer ie old) ≡ true)
      × Stored T Qer.qer_id Qer.qer_id_set (convert_qer ie old) s u
  Updates ie s (returned false, u) = u ≡ s
  Updates ie s (blocked, u) = (s.locked ≡ true) × (u ≡ s)
  Updates ie s (fault, u) = false ≡ true

  Registers-Updates :
      (ie : QerIe) (s : Qers) (old : Qer) (out : Outcome (Option ℕ) × Qers)
      → at (convert_qer ie old).qer_id s ≡ some old
      → kernel.update_qer (convert_qer ie old) ≡ true
      → Registers T Qer.qer_id Qer.qer_id_set (convert_qer ie old) s out
      → Updates ie s (calling out (registered_ok T Qer.qer_id Qer.qer_id_set))
  Registers-Updates ie s old (returned (some n), u) e ok r = (old, e, ok, r.0)
  Registers-Updates ie s old (returned none, u) e ok r = r.1
  Registers-Updates ie s old (blocked, u) e ok r = r
  Registers-Updates ie s old (fault, u) e ok r =
      let clash : none ≡ some old = sym (ap (Option.map s.rule) r.0) ∙ e in
      absurd (ground (arith, clash))

  update_qer_found-Updates :
      (sess i : ℕ) (ie : QerIe) (s : Qers) (got : Option Qer)
      → at i s ≡ got
      → ((q : Qer) → (convert_qer ie q).qer_id ≡ i)
      → IsKeyed T Qer.qer_id Qer.qer_id_set s
      → IsFresh T Qer.qer_id Qer.qer_id_set s
      → Updates ie s (update_qer_found T kernel sess ie got s)
  update_qer_found-Updates sess i ie s none e same keyed fresh = refl
  update_qer_found-Updates sess i ie s (some old) e same keyed fresh =
      let new = convert_qer ie old in
      if-cases (Updates ie s) (kernel.update_qer new) _ _
        (λ ok.
          Registers-Updates ie s old (register_to_session T Qer.qer_id Qer.qer_id_set sess new s)
            (ap (λ k. at k s) (same old) ∙ e) ok
            (register_to_session_lem T Qer.qer_id Qer.qer_id_set sess new s keyed fresh))
        (λ _. refl)

  update_qer_checked-Updates :
      (sess : ℕ) (ie : QerIe) (key : Option Tlv) (s : Qers)
      → ((q : Qer) → (convert_qer ie q).qer_id ≡ value_of key (λ v _. be32_at v 0) q.qer_id)
      → IsKeyed T Qer.qer_id Qer.qer_id_set s
      → IsFresh T Qer.qer_id Qer.qer_id_set s
      → Updates ie s (update_qer_checked T kernel sess ie key s)
  update_qer_checked-Updates sess ie none s same keyed fresh = refl
  update_qer_checked-Updates sess ie (some t) s same keyed fresh =
      let i = be32_at t.value 0 in
      let goal = λ (o : Outcome (Option Qer) × Qers).
        Updates ie s (calling o (update_qer_found T kernel sess ie)) in
      elim (Bool-cases s.locked) [
        | inl held ↦
            subst goal (sym (find_by_id-blocked T Qer.qer_id Qer.qer_id_set i s held)) (held, refl)
        | inr free ↦
            subst goal (sym (find_by_id-rule_at T Qer.qer_id Qer.qer_id_set i s free))
              (update_qer_found-Updates sess i ie s (at i s) refl same keyed fresh)
      ]

  -- What the update of a QER does on each of its branches, in a store where each entry of the table
  -- leads to a rule of its id and the pool hands out no node of the table. When it succeeds the rule
  -- that was under the id of the IE is found there with the fields of the IE changed, the kernel took
  -- it, every other id stands for what it stood for, and the mutex is free. An error changes nothing,
  -- also when the id is unknown. If the mutex is held it waits; it never takes a node of the pool.
  pub handle_update_qer_lem :
      (sess : ℕ) (ie : QerIe) (s : Qers)
      → IsKeyed T Qer.qer_id Qer.qer_id_set s
      → IsFresh T Qer.qer_id Qer.qer_id_set s
      → Updates ie s (handle_update_qer T kernel sess ie s)
  unfolding handle_update_qer convert_qer
  handle_update_qer_lem sess ie s keyed fresh =
      update_qer_checked-Updates sess ie ie.qer_id s (λ q. refl) keyed fresh

  -- What the removal of a QER does on each of its branches: what the removal of a FAR does.
  pub handle_remove_qer_lem :
      (sess id : ℕ) (s : Qers)
      → IsKeyed T Qer.qer_id Qer.qer_id_set s
      → Removes T Qer.qer_id Qer.qer_id_set id s (handle_remove_qer T kernel sess id s)
  unfolding handle_remove_qer
  handle_remove_qer_lem sess id s keyed =
      remove_rule-Removes T Qer.qer_id Qer.qer_id_set
        (λ q. kernel.remove_qer (record q { qer_id_set = true; qer_id = id })) sess id s keyed
