-- ===== src/Context/Far.antt =====
-- src/upf_context.c: the forwarding rules (FAR), whose id and action the user plane asks for.
use het_bed.Base.{false, List, replicate, ℕ, Bool, Option, none, some, ◌≡◌, subst, ap, ◌∙◌, refl}
use mathlib.Core.Option
use het_bed.Context.{Table, Outcome, returned}
use het_bed.Context.Rules.{unlock, locking, Rules, register_to_session}
use het_bed.Context.Find.{IsKeyed, IsFresh, Registers, register_to_session_lem}

-- `UPDK_OuterHeaderCreation`; addresses are as they lie in memory.
pub record OuterHeaderCreation : Type 0 where
  pub description : ℕ
  pub teid : ℕ
  pub ipv4 : ℕ
  pub ipv6 : List ℕ
  pub port : ℕ

-- `UPDK_ForwardingParameters`, of which the handlers write these; a flag stands beside its field.
pub record ForwardingParameters : Type 0 where
  pub destination_interface_set : Bool
  pub destination_interface : ℕ
  pub network_instance_set : Bool
  pub network_instance : List ℕ
  pub outer_header_creation_set : Bool
  pub outer_header_creation : OuterHeaderCreation
  pub forwarding_policy_set : Bool
  pub forwarding_policy_length : ℕ
  pub forwarding_policy : List ℕ

-- `UPDK_FAR`
pub record Far : Type 0 where
  pub far_id_set : Bool
  pub far_id : ℕ
  pub apply_action_set : Bool
  pub apply_action : ℕ
  pub forwarding_parameters_set : Bool
  pub forwarding_parameters : ForwardingParameters

-- After `memset` with 0; `networkInstance` and `forwardingPolicyIdentifier` have 64 bytes.
abbrev pub zero_far : Far
zero_far = record {
  far_id_set = false;
  far_id = 0;
  apply_action_set = false;
  apply_action = 0;
  forwarding_parameters_set = false;
  forwarding_parameters = record {
    destination_interface_set = false;
    destination_interface = 0;
    network_instance_set = false;
    network_instance = replicate 64 0;
    outer_header_creation_set = false;
    outer_header_creation = record {
      description = 0;
      teid = 0;
      ipv4 = 0;
      ipv6 = replicate 16 0;
      port = 0;
    };
    forwarding_policy_set = false;
    forwarding_policy_length = 0;
    forwarding_policy = replicate 64 0;
  };
}

map-apply_action :
    (rule : ℕ → Far) (o : Option ℕ)
    → Option.map (λ n. (rule n).apply_action) o ≡ Option.map Far.apply_action (Option.map rule o)
map-apply_action rule none = refl
map-apply_action rule (some n) = refl

module _ (T : Table) where
  -- `HowToHandleThisPacket`: the action, or STATUS_ERROR.
  unfoldable pub how_to_handle_this_packet : ℕ → Rules T Far → Outcome (Option ℕ) × Rules T Far
  how_to_handle_this_packet id =
      locking
        λ s. (returned (Option.map (λ n. (s.rule n).apply_action) (T.get s.hash id)), unlock s)

  -- A FAR that is registered decides of the packets of its id, until another one takes its place.
  pub how_to_handle-register :
      (sess n : ℕ) (r : Far) (s s' : Rules T Far)
      → IsKeyed T Far.far_id Far.far_id_set s
      → IsFresh T Far.far_id Far.far_id_set s
      → register_to_session T Far.far_id Far.far_id_set sess r s ≡ (returned (some n), s')
      → (how_to_handle_this_packet r.far_id s').0 ≡ returned (some r.apply_action)
  unfolding how_to_handle_this_packet
  how_to_handle-register sess n r s s' keyed fresh done =
      let told =
        subst (Registers T Far.far_id Far.far_id_set r s) done
          (register_to_session_lem T Far.far_id Far.far_id_set sess r s keyed fresh) in
      rw told.0.3 (
        ap returned (
          map-apply_action s'.rule (T.get s'.hash r.far_id)
          ∙ ap (Option.map Far.apply_action) told.0.0))
