-- ===== src/N4/Handle.antt =====
-- src/n4/n4_pfcp_handler.c: the handlers of the requests on forwarding rules (FAR), on the rules of the
-- context. What the kernel module answers to a rule is an argument.
use het_bed.Base.{ℕ, Bool, true, Option, none, some, if◌then◌else◌, ◌==◌, ◌/◌, ◌%◌, ◌^◌}
use het_bed.Context.{Table, Outcome, returned}
use het_bed.Context.Rules.{Rules, find_by_id, register_to_session}
use het_bed.Context.Far.{Far, zero_far, how_to_handle_this_packet}
use het_bed.N4.{Tlv, be32_at, FarIe}
use het_bed.N4.Rule.{calling, create_rule, remove_rule}
use het_bed.N4.Far.{convert_far, convert_update_far}

-- The answers of `Gtpv1TunnelCreateFAR`, `Gtpv1TunnelUpdateFAR` and `Gtpv1TunnelRemoveFAR`: true is 0. The same rule has the same
-- answer whenever it is asked for, where the module may answer by its own state.
pub record Kernel : Type 0 where
  pub create_far : Far → Bool
  pub update_far : Far → Bool
  pub remove_far : Far → Bool

-- What is to become of the packets that wait for the rules of the session; the loops that do it are in
-- up_path.c and in the buffers of the context.
pub data Waiting : Type 0 where
  keep drop : Waiting
  send : ℕ → Waiting

abbrev flag : ℕ → ℕ → Bool
flag n k = n / 2 ^ k % 2 == 1

module _ (T : Table) (kernel : Kernel) where
  abbrev Fars : Type 0
  Fars = Rules T Far

  -- `UpfN4HandleCreateFar`; true is STATUS_OK.
  unfoldable pub handle_create_far : ℕ → FarIe → Fars → Outcome Bool × Fars
  handle_create_far sess ie s =
      create_rule T Far.far_id Far.far_id_set kernel.create_far sess (convert_far ie zero_far)
        ie.far_id ie.apply_action s

  -- `PFCP_FAR_APPLY_ACTION_BUFF` is 4, DROP 1, FORW 2.
  unfoldable pub waiting : ℕ → Far → Waiting
  waiting old f =
      if flag old 2
      then if flag f.apply_action 0
        then drop
        else if flag f.apply_action 1
        then send f.forwarding_parameters.outer_header_creation.ipv4
        else keep
      else keep

  abbrev pub update_registered : Waiting → Option ℕ → Fars → Outcome (Option Waiting) × Fars
  update_registered w none s = (returned none, s)
  update_registered w (some n) s = (returned (some w), s)

  abbrev pub update_known : ℕ → Far → Option ℕ → Fars → Outcome (Option Waiting) × Fars
  update_known sess f none s = (returned none, s)
  update_known sess f (some old) s =
      if kernel.update_far f
      then calling (register_to_session T Far.far_id Far.far_id_set sess f s)
          (update_registered (waiting old f))
      else (returned none, s)

  abbrev pub update_converted : ℕ → ℕ → Option Far → Fars → Outcome (Option Waiting) × Fars
  update_converted sess id none s = (returned none, s)
  update_converted sess id (some f) s =
      calling (how_to_handle_this_packet T id s) (update_known sess f)

  abbrev pub update_found : ℕ → ℕ → FarIe → Option Far → Fars → Outcome (Option Waiting) × Fars
  update_found sess id ie none s = (returned none, s)
  update_found sess id ie (some old) s = update_converted sess id (convert_update_far ie old) s

  abbrev pub update_checked : ℕ → FarIe → Option Tlv → Fars → Outcome (Option Waiting) × Fars
  update_checked sess ie none s = (returned none, s)
  update_checked sess ie (some t) s =
      let id = be32_at t.value 0 in
      calling (find_by_id T Far.far_id Far.far_id_set id s) (update_found sess id ie)

  -- `UpfN4HandleUpdateFar`: STATUS_ERROR is none.
  unfoldable pub handle_update_far : ℕ → FarIe → Fars → Outcome (Option Waiting) × Fars
  handle_update_far sess ie s = update_checked sess ie ie.far_id s

  -- `UpfN4HandleRemoveFar` of an id, after `ntohl`; the id is set once more, as it is.
  unfoldable pub handle_remove_far : ℕ → ℕ → Fars → Outcome Bool × Fars
  handle_remove_far sess id s =
      remove_rule T Far.far_id Far.far_id_set
        (λ f. kernel.remove_far (record f { far_id_set = true; far_id = id })) sess id s
