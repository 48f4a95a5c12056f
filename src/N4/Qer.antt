-- ===== src/N4/Qer.antt =====
-- src/n4/n4_pfcp_handler.c: the conversion of a QER IE into a QoS rule, and the handlers of QoS rules.
use het_bed.Base.{
  ℕ, Bool, true, false, Option, none, some, if◌then◌else◌, ◌==◌, ◌+◌, ◌*◌, ◌/◌, ◌%◌, ◌^◌, List, [],
  ◌∷◌,
}
use het_bed.Match.Packet.{Bytes}
use het_bed.Context.{Table, Outcome, returned}
use het_bed.Context.Rules.{Rules, find_by_id}
use het_bed.N4.{Tlv, be16_at, be32_at}
use het_bed.N4.Rule.{calling, create_rule, remove_rule, rule_converted}
use het_bed.N4.Session.{create_all, create_or_stop}
pub mod Values
pub mod Read
pub mod Handlers

-- `UPDK_Bitrate`
pub record Bitrate : Type 0 where
  pub ul : ℕ
  pub dl : ℕ

-- `UPDK_PacketRate`; the flags are one byte.
pub record PacketRate : Type 0 where
  pub flags : ℕ
  pub uplink_time_unit : ℕ
  pub maximum_uplink_packet_rate : ℕ
  pub downlink_time_unit : ℕ
  pub maximum_downlink_packet_rate : ℕ

-- `UPDK_DLFlowLevelMarking`
pub record FlowMarking : Type 0 where
  pub flags : ℕ
  pub tos_traffic_class : ℕ
  pub service_class_indicator : ℕ

-- `UPDK_QER`, of which the handlers write these; a flag stands beside its field.
pub record Qer : Type 0 where
  pub qer_id_set : Bool
  pub qer_id : ℕ
  pub qer_correlation_id_set : Bool
  pub qer_correlation_id : ℕ
  pub gate_status_set : Bool
  pub gate_status : ℕ
  pub maximum_bitrate_set : Bool
  pub maximum_bitrate : Bitrate
  pub guaranteed_bitrate_set : Bool
  pub guaranteed_bitrate : Bitrate
  pub packet_rate_set : Bool
  pub packet_rate : PacketRate
  pub dl_flow_level_marking_set : Bool
  pub dl_flow_level_marking : FlowMarking
  pub qos_flow_identifier_set : Bool
  pub qos_flow_identifier : ℕ
  pub reflective_qos_set : Bool
  pub reflective_qos : ℕ

-- After `memset` with 0.
abbrev pub zero_qer : Qer
zero_qer = record {
  qer_id_set = false;
  qer_id = 0;
  qer_correlation_id_set = false;
  qer_correlation_id = 0;
  gate_status_set = false;
  gate_status = 0;
  maximum_bitrate_set = false;
  maximum_bitrate = record { ul = 0; dl = 0 };
  guaranteed_bitrate_set = false;
  guaranteed_bitrate = record { ul = 0; dl = 0 };
  packet_rate_set = false;
  packet_rate = record {
    flags = 0;
    uplink_time_unit = 0;
    maximum_uplink_packet_rate = 0;
    downlink_time_unit = 0;
    maximum_downlink_packet_rate = 0;
  };
  dl_flow_level_marking_set = false;
  dl_flow_level_marking = record { flags = 0; tos_traffic_class = 0; service_class_indicator = 0 };
  qos_flow_identifier_set = false;
  qos_flow_identifier = 0;
  reflective_qos_set = false;
  reflective_qos = 0;
}

-- `CreateQER` and `UpdateQER`.
pub record QerIe : Type 0 where
  pub qer_id : Option Tlv
  pub qer_correlation_id : Option Tlv
  pub gate_status : Option Tlv
  pub maximum_bitrate : Option Tlv
  pub guaranteed_bitrate : Option Tlv
  pub packet_rate : Option Tlv
  pub dl_flow_level_marking : Option Tlv
  pub qos_flow_identifier : Option Tlv
  pub reflective_qos : Option Tlv

-- The flag and the value of a field: an IE that is absent leaves both.
abbrev pub flag_of : Option Tlv → Bool → Bool
flag_of none set = set
flag_of (some t) set = true

abbrev pub value_of : {A : Type 0} → Option Tlv → (Bytes → A → A) → A → A
value_of none read a = a
value_of (some t) read a = read t.value a

-- `Pfcp5ByteBitRateToHost`
unfoldable pub bitrate5 : Bytes → ℕ → ℕ
bitrate5 v i = v i * 2 ^ 32 + be32_at v (i + 1)

abbrev pub read_bitrate : Bytes → Bitrate → Bitrate
read_bitrate v b = record { ul = bitrate5 v 0; dl = bitrate5 v 5 }

abbrev pub bit : ℕ → ℕ → Bool
bit n k = n / 2 ^ k % 2 == 1

-- Behind the flags come a time unit of 4 bits and a rate for the uplink, and the same for the downlink;
-- what the flags do not announce is left as it was.
unfoldable pub read_packet_rate : Bytes → PacketRate → PacketRate
read_packet_rate v p =
    let up = bit (v 0) 0 in
    let down = bit (v 0) 1 in
    let offset = if up then 4 else 1 in
    record {
      flags = v 0;
      uplink_time_unit = if up then v 1 % 2 ^ 4 else p.uplink_time_unit;
      maximum_uplink_packet_rate = if up then be16_at v 2 else p.maximum_uplink_packet_rate;
      downlink_time_unit = if down then v offset % 2 ^ 4 else p.downlink_time_unit;
      maximum_downlink_packet_rate =
          if down then be16_at v (offset + 1) else p.maximum_downlink_packet_rate;
    }

-- A load of 16 bits that stay in the order of the IE.
abbrev pub le16_at : Bytes → ℕ → ℕ
le16_at v i = v i + v (i + 1) * 2 ^ 8

unfoldable pub read_flow_marking : Bytes → FlowMarking → FlowMarking
read_flow_marking v p =
    let ttc = bit (v 0) 0 in
    let sci = bit (v 0) 1 in
    let offset = if ttc then 3 else 1 in
    record {
      flags = v 0;
      tos_traffic_class = if ttc then le16_at v 1 else p.tos_traffic_class;
      service_class_indicator = if sci then le16_at v offset else p.service_class_indicator;
    }

unfoldable pub convert_qer : QerIe → Qer → Qer
convert_qer ie q = record {
  qer_id_set = flag_of ie.qer_id q.qer_id_set;
  qer_id = value_of ie.qer_id (λ v _. be32_at v 0) q.qer_id;
  qer_correlation_id_set = flag_of ie.qer_correlation_id q.qer_correlation_id_set;
  qer_correlation_id = value_of ie.qer_correlation_id (λ v _. be32_at v 0) q.qer_correlation_id;
  gate_status_set = flag_of ie.gate_status q.gate_status_set;
  gate_status = value_of ie.gate_status (λ v _. v 0) q.gate_status;
  maximum_bitrate_set = flag_of ie.maximum_bitrate q.maximum_bitrate_set;
  maximum_bitrate = value_of ie.maximum_bitrate read_bitrate q.maximum_bitrate;
  guaranteed_bitrate_set = flag_of ie.guaranteed_bitrate q.guaranteed_bitrate_set;
  guaranteed_bitrate = value_of ie.guaranteed_bitrate read_bitrate q.guaranteed_bitrate;
  packet_rate_set = flag_of ie.packet_rate q.packet_rate_set;
  packet_rate = value_of ie.packet_rate read_packet_rate q.packet_rate;
  dl_flow_level_marking_set = flag_of ie.dl_flow_level_marking q.dl_flow_level_marking_set;
  dl_flow_level_marking =
      value_of ie.dl_flow_level_marking read_flow_marking q.dl_flow_level_marking;
  qos_flow_identifier_set = flag_of ie.qos_flow_identifier q.qos_flow_identifier_set;
  qos_flow_identifier = value_of ie.qos_flow_identifier (λ v _. v 0) q.qos_flow_identifier;
  reflective_qos_set = flag_of ie.reflective_qos q.reflective_qos_set;
  reflective_qos = value_of ie.reflective_qos (λ v _. v 0) q.reflective_qos;
}

-- `_ConvertUpdateQERTlvToRule`, the same statements on an `UpdateQER`.
abbrev pub convert_update_qer : QerIe → Qer → Qer
convert_update_qer = convert_qer

-- The answers of `Gtpv1TunnelCreateQER`, `Gtpv1TunnelUpdateQER` and `Gtpv1TunnelRemoveQER`: true is 0. The
-- same rule has the same answer whenever it is asked for.
pub record QerKernel : Type 0 where
  pub create_qer : Qer → Bool
  pub update_qer : Qer → Bool
  pub remove_qer : Qer → Bool

module _ (T : Table) (kernel : QerKernel) where
  abbrev Qers : Type 0
  Qers = Rules T Qer

  -- `UpfN4HandleCreateQer`; true is STATUS_OK. The conversion refuses nothing.
  unfoldable pub handle_create_qer : ℕ → QerIe → Qers → Outcome Bool × Qers
  handle_create_qer sess ie s =
      create_rule T Qer.qer_id Qer.qer_id_set kernel.create_qer sess
        (some (convert_qer ie zero_qer)) ie.qer_id ie.gate_status s

  abbrev pub update_qer_found : ℕ → QerIe → Option Qer → Qers → Outcome Bool × Qers
  update_qer_found sess ie none s = (returned false, s)
  update_qer_found sess ie (some old) s =
      rule_converted T Qer.qer_id Qer.qer_id_set kernel.update_qer sess
        (some (convert_update_qer ie old)) s

  abbrev pub update_qer_checked : ℕ → QerIe → Option Tlv → Qers → Outcome Bool × Qers
  update_qer_checked sess ie none s = (returned false, s)
  update_qer_checked sess ie (some t) s =
      calling (find_by_id T Qer.qer_id Qer.qer_id_set (be32_at t.value 0) s)
        (update_qer_found sess ie)

  -- `UpfN4HandleUpdateQer`
  unfoldable pub handle_update_qer : ℕ → QerIe → Qers → Outcome Bool × Qers
  handle_update_qer sess ie s = update_qer_checked sess ie ie.qer_id s

  -- `UpfN4HandleRemoveQer` of an id, after `ntohl`; the id is set once more, as it is.
  unfoldable pub handle_remove_qer : ℕ → ℕ → Qers → Outcome Bool × Qers
  handle_remove_qer sess id s =
      remove_rule T Qer.qer_id Qer.qer_id_set
        (λ q. kernel.remove_qer (record q { qer_id_set = true; qer_id = id })) sess id s

  abbrev pub handle_create_qers : ℕ → List QerIe → Bool → Qers → Outcome Bool × Qers
  handle_create_qers sess = create_all (handle_create_qer sess)

  abbrev pub create_qers_or_stop : ℕ → List QerIe → Qers → Outcome Bool × Qers
  create_qers_or_stop sess = create_or_stop (handle_create_qer sess)
