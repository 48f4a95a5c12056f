-- ===== src/N4/Reach.antt =====
-- src/n4/n4_pfcp_handler.c: sequences of requests on forwarding rules.
use het_bed.Base.{ℕ, Bool, true, false, Option, none, some, ◌≡◌, refl, sym, subst, if-cases}
use mathlib.Core.Option
use het_bed.Context.{Table, Outcome, returned}
use het_bed.Context.Rules.{Rules, register_to_session}
use het_bed.Context.Find.{rule_at}
use het_bed.Context.Far.{Far, zero_far, how_to_handle_this_packet}
use het_bed.N4.{Tlv, be32_at, FarIe}
use het_bed.N4.Far.{convert_far}
use het_bed.N4.Rule.{calling}
use het_bed.N4.Rule.Safe.{
  Answers, calling-Answers, find-Answers, register-Answers, create_rule-Answers,
  remove_rule-Answers,
}
use het_bed.N4.Session.Loop.{IsReady}
use het_bed.N4.Handle.{
  Kernel, Waiting, waiting, update_registered, update_known, update_converted, update_found,
  update_checked, handle_create_far, handle_update_far, handle_remove_far,
}

-- A request on a forwarding rule of a session.
pub data FarRequest : Type 0 where
  create update : ℕ → FarIe → FarRequest
  remove : ℕ → ℕ → FarRequest

module _ (T : Table) (kernel : Kernel) where
  abbrev Fars : Type 0
  Fars = Rules T Far

  abbrev Ready : Fars → Type 0
  Ready = IsReady T Far.far_id Far.far_id_set

  abbrev Fine : {A : Type 0} → Fars → Outcome A × Fars → Type 0
  Fine = Answers T Far.far_id Far.far_id_set

  abbrev pub is_done : Option Waiting → Fars → Outcome Bool × Fars
  is_done none s = (returned false, s)
  is_done (some w) s = (returned true, s)

  abbrev pub answer : FarRequest → Fars → Outcome Bool × Fars
  answer (create sess ie) s = handle_create_far T kernel sess ie s
  answer (update sess ie) s = calling (handle_update_far T kernel sess ie s) is_done
  answer (remove sess id) s = handle_remove_far T kernel sess id s

  -- The stores that requests lead to, whatever they answer.
  pub data Runs (s : Fars) : Fars → Type 0 where
    start : Runs s s
    next :
        {u v : Fars} (ok : Bool) (r : FarRequest)
        → Runs s u
        → answer r u ≡ (returned ok, v)
        → Runs s v

  is_done-Answers : (s : Fars) (w : Option Waiting) (u : Fars) → Ready u → Fine s (is_done w u)
  is_done-Answers s none u ready = ready
  is_done-Answers s (some w) u ready = ready

  update_registered-Answers :
      (w : Waiting) (s : Fars) (n : Option ℕ) (u : Fars)
      → Ready u
      → Fine s (update_registered T kernel w n u)
  update_registered-Answers w s none u ready = ready
  update_registered-Answers w s (some n) u ready = ready

  update_known-Answers :
      (sess : ℕ) (f : Far) (action : Option ℕ) (s : Fars)
      → Ready s
      → Fine s (update_known T kernel sess f action s)
  update_known-Answers sess f none s ready = ready
  update_known-Answers sess f (some old) s ready =
      if-cases (Fine s) (kernel.update_far f) _ _
        (λ _.
          calling-Answers T Far.far_id Far.far_id_set s
            (register_to_session T Far.far_id Far.far_id_set sess f s)
            (update_registered T kernel (waiting T kernel old f))
            (register-Answers T Far.far_id Far.far_id_set sess f s ready)
            (update_registered-Answers (waiting T kernel old f) s))
        (λ _. ready)

  action_known :
      (id : ℕ) (s : Fars)
      → s.locked ≡ false
      → how_to_handle_this_packet T id s
        ≡ (returned (Option.map (λ n. (s.rule n).apply_action) (T.get s.hash id)), s)
  unfolding how_to_handle_this_packet
  action_known id s free = rw free refl

  update_converted-Answers :
      (sess id : ℕ) (converted : Option Far) (s : Fars)
      → Ready s
      → Fine s (update_converted T kernel sess id converted s)
  update_converted-Answers sess id none s ready = ready
  update_converted-Answers sess id (some f) s ready =
      let goal =
        λ (o : Outcome (Option ℕ) × Fars). Fine s (calling o (update_known T kernel sess f)) in
      subst goal (sym (action_known id s ready.free)) (
        update_known-Answers sess f (Option.map (λ n. (s.rule n).apply_action) (T.get s.hash id)) s
          ready)

  update_found-Answers :
      (sess id : ℕ) (ie : FarIe) (got : Option Far) (s : Fars)
      → Ready s
      → Fine s (update_found T kernel sess id ie got s)
  update_found-Answers sess id ie none s ready = ready
  update_found-Answers sess id ie (some old) s ready =
      update_converted-Answers sess id (convert_far ie old) s ready

  update_checked-Answers :
      (sess : ℕ) (ie : FarIe) (key : Option Tlv) (s : Fars)
      → Ready s
      → Fine s (update_checked T kernel sess ie key s)
  update_checked-Answers sess ie none s ready = ready
  update_checked-Answers sess ie (some t) s ready =
      let id = be32_at t.value 0 in
      find-Answers T Far.far_id Far.far_id_set id s (update_found T kernel sess id ie) ready
        (update_found-Answers sess id ie (rule_at T Far.far_id Far.far_id_set id s) s ready)

  answer-Answers : (r : FarRequest) (s : Fars) → Ready s → Fine s (answer r s)
  unfolding handle_create_far handle_update_far handle_remove_far
  answer-Answers (create sess ie) s ready =
      create_rule-Answers T Far.far_id Far.far_id_set kernel.create_far sess
        (convert_far ie zero_far) ie.far_id ie.apply_action s ready
  answer-Answers (update sess ie) s ready =
      calling-Answers T Far.far_id Far.far_id_set s (handle_update_far T kernel sess ie s) is_done
        (update_checked-Answers sess ie ie.far_id s ready) (is_done-Answers s)
  answer-Answers (remove sess id) s ready =
      remove_rule-Answers T Far.far_id Far.far_id_set
        (λ f. kernel.remove_far (record f { far_id_set = true; far_id = id })) sess id s ready

  Runs-IsReady : (s u : Fars) → Ready s → Runs s u → Ready u
  Runs-IsReady s u ready start = ready
  Runs-IsReady s u ready (next {u = w} ok r before done) =
      subst (Fine w) done (answer-Answers r w (Runs-IsReady s w ready before))

  -- After any sequence of requests that create, update and remove FARs, each with whatever answer, from
  -- a store where each entry of the table leads to a rule of its id, the free nodes of the pool are
  -- spare and the mutex is free: every further request returns and leaves such a store, or the pool is
  -- empty. So no request ever waits for the mutex, although a removal by an unknown id would keep it.
  pub Runs-Answers :
      (s u : Fars) (r : FarRequest)
      → IsReady T Far.far_id Far.far_id_set s
      → Runs s u
      → Answers T Far.far_id Far.far_id_set u (answer r u)
  Runs-Answers s u r ready run = answer-Answers r u (Runs-IsReady s u ready run)
