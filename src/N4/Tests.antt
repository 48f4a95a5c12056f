-- ===== src/N4/Tests.antt =====
-- The handlers of forwarding rules on concrete inputs.
use het_bed.Base.{
  ◌^◌, if◌then◌else◌, ◌==◌, ◌*◌, ◌+◌, ℕ, zero, suc, ◌≡◌, ◌≢◌, ◌↔◌, refl, sym, ap, subst, none, some,
  [], ◌∷◌, arith, true, false, Bool,
}
use het_bed.Pool
use het_bed.Pool.Avail.{avail}
use het_bed.Pool.Ownership.{init-IsValid}
use het_bed.Index
use het_bed.ListHead.{list_head_init, list_insert}
use het_bed.Hash.{hash_make, hash_get, hash_set, hash_of, hashfunc_default, find_entry, put}
use het_bed.Context.{Table, list_of, Outcome, returned}
use het_bed.Context.Ids.{id_table, new_table, id_bytes}
use het_bed.Context.Rules.{Rules, find_by_id, register_to_session}
use het_bed.Context.Find.{IsKeyed, IsFresh}
use het_bed.Context.Fresh.{Spare, HasSpare, HasSpare-IsFresh}
use het_bed.Context.Far.{Far, zero_far}
use het_bed.Match.Packet.{Bytes}
use het_bed.N4.{FarIe}
use het_bed.N4.Far.{convert_far, strncpy}
use het_bed.N4.Handle.{Kernel, handle_create_far, handle_remove_far}
use het_bed.N4.Rule.Create.{Creates}
use het_bed.N4.Create.{handle_create_far_lem}
use het_bed.N4.Rule.Remove.{Removes}
use het_bed.N4.Remove.{handle_remove_far_lem}
use het_bed.N4.Rule.Safe.{Answers}
use het_bed.N4.Reach.{create, remove, Runs, start, next, answer, Runs-Answers}
use het_bed.N4.Session.{create_all, handle_create_fars, create_fars_or_stop}
use het_bed.N4.Session.Loop.{IsReady, Establishes}
use het_bed.N4.Session.Fars.{far_handler, handle_create_fars-Establishes}
use het_bed.N4.Session.Stop.{Succeeds, create_or_stop-Succeeds}
use het_bed.N4.Qer.{
  Qer, QerIe, QerKernel, zero_qer, convert_qer, read_packet_rate, handle_create_qer,
  handle_update_qer,
}
use het_bed.N4.Qer.Values.{QerValues, encode_qer, change_qer}
use het_bed.N4.Qer.Read.{convert_qer-encode_qer}
use het_bed.N4.Qer.Handlers.{
  Updates, handle_create_qer_lem, handle_create_qer-HasSpare, handle_update_qer_lem,
}

abbrev fars : Table
fars = id_table 4

-- A pool of 2 nodes and an empty table.
abbrev empty_of : {R : Type 0} → R → Rules fars R
empty_of zero_rule = record {
  pool = Index.init 2 none 0 (λ n. 0);
  rule = λ n. zero_rule;
  links = list_head_init (list_of 0) (record { next = λ a. 0; prev = λ a. 0 });
  hash = new_table 4 5;
  locked = false;
}

abbrev empty : Rules fars Far
empty = empty_of zero_far

abbrev empty_qers : Rules fars Qer
empty_qers = empty_of zero_qer

-- A kernel module that takes every rule.
abbrev willing : Kernel
willing = record { create_far = λ f. true; update_far = λ f. true; remove_far = λ f. true }

-- Four bytes with the value 7, and one byte with the value 2.
abbrev seven : Bytes
seven zero = 0
seven (suc zero) = 0
seven (suc (suc zero)) = 0
seven (suc (suc (suc n))) = 7

abbrev forward : FarIe
forward = record {
  far_id = some (record { len = 4; value = seven });
  apply_action = some (record { len = 1; value = λ n. 2 });
  forwarding_parameters = none;
}

-- A FAR without an action.
abbrev idle : FarIe
idle = record forward { apply_action = none }

abbrev forwarding : Far
forwarding = record zero_far {
  far_id_set = true;
  far_id = 7;
  apply_action_set = true;
  apply_action = 2;
}

forward_converted : convert_far forward zero_far ≡ some forwarding
unfolding convert_far
forward_converted = refl

-- A name of 3 bytes over one of 5: the rest of the old one stays.
strncpy_tail : strncpy false 0 (1 ∷ 2 ∷ 3 ∷ 4 ∷ 5 ∷ 0 ∷ []) (λ i. 9) 3 ≡ 9 ∷ 9 ∷ 9 ∷ 4 ∷ 5 ∷ 0 ∷ []
unfolding strncpy
strncpy_tail = refl

empty-none : (i : ℕ) → fars.get empty.hash i ≡ none
unfolding id_table new_table hash_get hash_make find_entry
empty-none i = refl

empty-IsKeyed : IsKeyed fars Far.far_id Far.far_id_set empty
empty-IsKeyed i n e = ground (arith, e, empty-none i)

empty_absent : (n i : ℕ) → fars.get empty.hash i ≢ some n
empty_absent n i h = ground (arith, h, empty-none i)

empty-avail : avail empty.pool.queue ≡ some 0 ∷ some 1 ∷ []
unfolding Index.init Pool.init Pool.size Pool.fill
empty-avail = refl

empty-Spare : Spare fars empty.hash (some 0 ∷ some 1 ∷ [])
empty-Spare = (
  (λ n e. (empty_absent n, ((λ h. ground (arith, e, h)), tt))),
  ((λ n e. (empty_absent n, tt)), tt),
)

empty-HasSpare : HasSpare fars empty
unfolding Index.init
empty-HasSpare = record {
  valid = init-IsValid 2 none;
  spare = subst (Spare fars empty.hash) (sym empty-avail) empty-Spare;
}

handle_create_far_lem_example :
    Creates fars Far.far_id Far.far_id_set willing.create_far
      (convert_far forward zero_far)
      empty
      (handle_create_far fars willing 0 forward empty)
handle_create_far_lem_example =
    handle_create_far_lem fars willing 0 forward empty empty-IsKeyed
      (HasSpare-IsFresh fars Far.far_id Far.far_id_set empty empty-HasSpare)

empty-IsReady : IsReady fars Far.far_id Far.far_id_set empty
empty-IsReady = record { keyed = empty-IsKeyed; spare = empty-HasSpare; free = refl }

-- Two FARs, the second without an action: the cause is REJECTED.
abbrev requested : Outcome Bool × Rules fars Far
requested = handle_create_fars fars willing 0 (forward ∷ idle ∷ []) true empty

handle_create_fars-Establishes_example :
    Establishes fars Far.far_id Far.far_id_set
      (far_handler fars willing 0)
      true
      (forward ∷ idle ∷ [])
      empty
      requested
handle_create_fars-Establishes_example =
    handle_create_fars-Establishes fars willing 0 (forward ∷ idle ∷ []) true empty empty-IsReady

create_or_stop-Succeeds_example :
    Succeeds (create_fars_or_stop fars willing 0 (forward ∷ []) empty) requested.1
    ↔ Succeeds (handle_create_fars fars willing 0 (forward ∷ []) true empty) requested.1
create_or_stop-Succeeds_example =
    create_or_stop-Succeeds (handle_create_far fars willing 0) (forward ∷ []) empty requested.1

-- The first of the two FARs is registered all the same.
requested_rejected : requested.0 ≡ returned false
unfolding create_all handle_create_far convert_far find_by_id register_to_session id_table new_table
    hash_get hash_set hash_make find_entry put hash_of hashfunc_default id_bytes Index.alloc
    Index.init Pool.size Pool.init list_insert list_head_init
requested_rejected = refl

abbrev registered : Rules fars Far
registered = (handle_create_far fars willing 0 forward empty).1

registered_known : (handle_create_far fars willing 0 forward empty).0 ≡ returned true
unfolding handle_create_far convert_far find_by_id register_to_session id_table new_table hash_get
    hash_set hash_make find_entry put hash_of hashfunc_default id_bytes Index.alloc Index.init
    Pool.size Pool.init list_insert list_head_init
registered_known = refl

registered-IsKeyed : IsKeyed fars Far.far_id Far.far_id_set registered
registered-IsKeyed =
    (subst
      (Creates fars Far.far_id Far.far_id_set willing.create_far (convert_far forward zero_far)
        empty)
      (ap (λ o. (o, registered)) registered_known) handle_create_far_lem_example).4.2

handle_remove_far_lem_example :
    Removes fars Far.far_id Far.far_id_set 7 registered
      (handle_remove_far fars willing 0 7 registered)
handle_remove_far_lem_example = handle_remove_far_lem fars willing 0 7 registered registered-IsKeyed

abbrev qer_kernel : QerKernel
qer_kernel = record { create_qer = λ q. true; update_qer = λ q. true; remove_qer = λ q. true }

-- The rule 7 with its gates, and a packet rate of the uplink: unit 7 of 263, and rate 7.
abbrev gated : QerIe
gated = record {
  qer_id = some (record { len = 4; value = seven });
  qer_correlation_id = none;
  gate_status = some (record { len = 1; value = λ n. 5 });
  maximum_bitrate = none;
  guaranteed_bitrate = none;
  packet_rate = some (record { len = 4; value = λ n. if n == 0 then 1 else 7 });
  dl_flow_level_marking = none;
  qos_flow_identifier = none;
  reflective_qos = none;
}

gated_rate : (convert_qer gated zero_qer).packet_rate.maximum_uplink_packet_rate ≡ 7 * 256 + 7
unfolding convert_qer read_packet_rate
gated_rate = refl

-- An uplink of 2^32 + 5, a downlink of 7, and a packet rate of the downlink alone.
abbrev wanted : QerValues
wanted = record {
  qer_id = some 7;
  qer_correlation_id = none;
  gate_status = some 5;
  maximum_bitrate = some (record { ul = 2 ^ 32 + 5; dl = 7 });
  guaranteed_bitrate = none;
  packet_rate = some (record { up = none; down = some (record { unit = 2; rate = 300 }) });
  dl_flow_level_marking = some (record { traffic_class = some 258; service_class = none });
  qos_flow_identifier = some 9;
  reflective_qos = none;
}

convert_qer-encode_qer_example :
    convert_qer (encode_qer wanted) zero_qer ≡ change_qer wanted zero_qer
convert_qer-encode_qer_example = convert_qer-encode_qer wanted zero_qer (record {
  qer_id = omega arith;
  qer_correlation_id = tt;
  maximum_bitrate = (omega arith, omega arith);
  guaranteed_bitrate = tt;
  packet_rate = (tt, (omega arith, omega arith));
  dl_flow_level_marking = (omega arith, tt);
})

empty_qers-IsKeyed : IsKeyed fars Qer.qer_id Qer.qer_id_set empty_qers
empty_qers-IsKeyed i n e = ground (arith, e, empty-none i)

empty_qers-IsFresh : IsFresh fars Qer.qer_id Qer.qer_id_set empty_qers
empty_qers-IsFresh n pool got i e = ground (arith, e, empty-none i)

abbrev qers : Rules fars Qer
qers = (handle_create_qer fars qer_kernel 0 gated empty_qers).1

qers_known : (handle_create_qer fars qer_kernel 0 gated empty_qers).0 ≡ returned true
unfolding handle_create_qer convert_qer find_by_id register_to_session id_table new_table hash_get
    hash_set hash_make find_entry put hash_of hashfunc_default id_bytes Index.alloc Index.init
    Pool.size Pool.init list_insert list_head_init
qers_known = refl

qers-IsKeyed : IsKeyed fars Qer.qer_id Qer.qer_id_set qers
qers-IsKeyed =
    let created =
      handle_create_qer_lem fars qer_kernel 0 gated empty_qers empty_qers-IsKeyed
        empty_qers-IsFresh in
    (subst
      (Creates fars Qer.qer_id Qer.qer_id_set qer_kernel.create_qer
        (some (convert_qer gated zero_qer)) empty_qers)
      (ap (λ o. (o, qers)) qers_known) created).4.2

empty_qers-HasSpare : HasSpare fars empty_qers
unfolding Index.init
empty_qers-HasSpare = record {
  valid = init-IsValid 2 none;
  spare = subst (Spare fars empty.hash) (sym empty-avail) empty-Spare;
}

qers-IsFresh : IsFresh fars Qer.qer_id Qer.qer_id_set qers
qers-IsFresh =
    HasSpare-IsFresh fars Qer.qer_id Qer.qer_id_set qers
      (handle_create_qer-HasSpare fars qer_kernel 0 gated empty_qers empty_qers-HasSpare)

handle_update_qer_lem_example :
    Updates fars qer_kernel gated qers (handle_update_qer fars qer_kernel 0 gated qers)
handle_update_qer_lem_example =
    handle_update_qer_lem fars qer_kernel 0 gated qers qers-IsKeyed qers-IsFresh

-- The rule is created; then a rule that nobody has is to be removed.
created_run : Runs fars willing empty registered
created_run = next true (create 0 forward) start (ap (λ o. (o, registered)) registered_known)

Runs-Answers_example :
    Answers fars Far.far_id Far.far_id_set registered (answer fars willing (remove 0 8) registered)
Runs-Answers_example =
    Runs-Answers fars willing empty registered (remove 0 8) empty-IsReady created_run
