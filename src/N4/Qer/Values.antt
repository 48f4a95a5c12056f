-- ===== src/N4/Qer/Values.antt =====
-- src/n4/n4_pfcp_handler.c: what the IEs of a QER mean. The values that a control plane sends, their
-- bytes as TS 29.244 lays them out, and the rule that they change.
use het_bed.Base.{
  ℕ, Bool, true, Option, none, some, ◌+◌, ◌*◌, ◌/◌, ◌%◌, ◌^◌, ◌<◌, List, [], ◌∷◌, ◌++◌, length,
  get_or,
}
use het_bed.Match.Packet.{Bytes}
use het_bed.N4.{Tlv}
use het_bed.N4.Qer.{Bitrate, PacketRate, FlowMarking, Qer, QerIe}

-- A time unit, and the packets that may pass in it.
pub record Pace : Type 0 where
  pub unit : ℕ
  pub rate : ℕ

pub record Paces : Type 0 where
  pub up : Option Pace
  pub down : Option Pace

pub record Marks : Type 0 where
  pub traffic_class : Option ℕ
  pub service_class : Option ℕ

-- What an IE says of a rule; what it does not mention is `none`.
pub record QerValues : Type 0 where
  pub qer_id : Option ℕ
  pub qer_correlation_id : Option ℕ
  pub gate_status : Option ℕ
  pub maximum_bitrate : Option Bitrate
  pub guaranteed_bitrate : Option Bitrate
  pub packet_rate : Option Paces
  pub dl_flow_level_marking : Option Marks
  pub qos_flow_identifier : Option ℕ
  pub reflective_qos : Option ℕ

-- Bytes, the most significant one first.
abbrev pub digit : ℕ → ℕ → ℕ
digit n k = n / 2 ^ k % 2 ^ 8

abbrev pub bytes2 : ℕ → List ℕ
bytes2 n = digit n 8 ∷ digit n 0 ∷ []

abbrev pub bytes4 : ℕ → List ℕ
bytes4 n = digit n 24 ∷ digit n 16 ∷ digit n 8 ∷ digit n 0 ∷ []

abbrev pub bytes5 : ℕ → List ℕ
bytes5 n = digit n 32 ∷ bytes4 n

abbrev pub is_some : {A : Type 0} → Option A → ℕ
is_some none = 0
is_some (some a) = 1

abbrev pub pace_bytes : Option Pace → List ℕ
pace_bytes none = []
pace_bytes (some p) = p.unit ∷ bytes2 p.rate

abbrev pub paces_bytes : Paces → List ℕ
paces_bytes p = (is_some p.up + 2 * is_some p.down) ∷ (pace_bytes p.up ++ pace_bytes p.down)

-- Two octets that are kept as they are: the first is the low one of the word in memory.
abbrev pub octets2 : Option ℕ → List ℕ
octets2 none = []
octets2 (some n) = digit n 0 ∷ digit n 8 ∷ []

abbrev pub marks_bytes : Marks → List ℕ
marks_bytes m =
    (is_some m.traffic_class + 2 * is_some m.service_class)
    ∷ (octets2 m.traffic_class ++ octets2 m.service_class)

abbrev pub memory : List ℕ → Bytes
memory bytes i = get_or bytes i 0

abbrev pub ie_of : {A : Type 0} → (A → List ℕ) → Option A → Option Tlv
ie_of bytes none = none
ie_of bytes (some a) = some (record { len = length (bytes a); value = memory (bytes a) })

abbrev pub one_byte : ℕ → List ℕ
one_byte n = n ∷ []

abbrev pub bitrate_bytes : Bitrate → List ℕ
bitrate_bytes b = bytes5 b.ul ++ bytes5 b.dl

unfoldable pub encode_qer : QerValues → QerIe
encode_qer v = record {
  qer_id = ie_of bytes4 v.qer_id;
  qer_correlation_id = ie_of bytes4 v.qer_correlation_id;
  gate_status = ie_of one_byte v.gate_status;
  maximum_bitrate = ie_of bitrate_bytes v.maximum_bitrate;
  guaranteed_bitrate = ie_of bitrate_bytes v.guaranteed_bitrate;
  packet_rate = ie_of paces_bytes v.packet_rate;
  dl_flow_level_marking = ie_of marks_bytes v.dl_flow_level_marking;
  qos_flow_identifier = ie_of one_byte v.qos_flow_identifier;
  reflective_qos = ie_of one_byte v.reflective_qos;
}

-- The values fit into their bytes.
abbrev pub When : {A : Type 0} → (A → Type 0) → Option A → Type 0
When P none = Unit
When P (some a) = P a

abbrev pub BitrateFits : Bitrate → Type 0
BitrateFits b = (b.ul < 2 ^ 40) × (b.dl < 2 ^ 40)

abbrev pub PaceFits : Pace → Type 0
PaceFits p = (p.unit < 2 ^ 4) × (p.rate < 2 ^ 16)

abbrev pub PacesFit : Paces → Type 0
PacesFit p = When PaceFits p.up × When PaceFits p.down

abbrev pub MarksFit : Marks → Type 0
MarksFit m = When (λ n. n < 2 ^ 16) m.traffic_class × When (λ n. n < 2 ^ 16) m.service_class

pub record Fits (v : QerValues) : Type 0 where
  pub qer_id : When (λ n. n < 2 ^ 32) v.qer_id
  pub qer_correlation_id : When (λ n. n < 2 ^ 32) v.qer_correlation_id
  pub maximum_bitrate : When BitrateFits v.maximum_bitrate
  pub guaranteed_bitrate : When BitrateFits v.guaranteed_bitrate
  pub packet_rate : When PacesFit v.packet_rate
  pub dl_flow_level_marking : When MarksFit v.dl_flow_level_marking

-- The new value of a field, or the old one.
abbrev pub or_old : {A B : Type 0} → (A → B → B) → Option A → B → B
or_old change none b = b
or_old change (some a) b = change a b

abbrev pub mentioned : {A : Type 0} → Option A → Bool → Bool
mentioned none old = old
mentioned (some a) old = true

abbrev pub new : {A : Type 0} → A → A → A
new a old = a

abbrev pub change_paces : Paces → PacketRate → PacketRate
change_paces p old = record {
  flags = is_some p.up + 2 * is_some p.down;
  uplink_time_unit = or_old (λ a _. Pace.unit a) p.up old.uplink_time_unit;
  maximum_uplink_packet_rate = or_old (λ a _. Pace.rate a) p.up old.maximum_uplink_packet_rate;
  downlink_time_unit = or_old (λ a _. Pace.unit a) p.down old.downlink_time_unit;
  maximum_downlink_packet_rate =
      or_old (λ a _. Pace.rate a) p.down old.maximum_downlink_packet_rate;
}

abbrev pub change_marks : Marks → FlowMarking → FlowMarking
change_marks m old = record {
  flags = is_some m.traffic_class + 2 * is_some m.service_class;
  tos_traffic_class = or_old new m.traffic_class old.tos_traffic_class;
  service_class_indicator = or_old new m.service_class old.service_class_indicator;
}

-- The rule with the values that are mentioned in place of its own.
abbrev pub change_qer : QerValues → Qer → Qer
change_qer v q = record {
  qer_id_set = mentioned v.qer_id q.qer_id_set;
  qer_id = or_old new v.qer_id q.qer_id;
  qer_correlation_id_set = mentioned v.qer_correlation_id q.qer_correlation_id_set;
  qer_correlation_id = or_old new v.qer_correlation_id q.qer_correlation_id;
  gate_status_set = mentioned v.gate_status q.gate_status_set;
  gate_status = or_old new v.gate_status q.gate_status;
  maximum_bitrate_set = mentioned v.maximum_bitrate q.maximum_bitrate_set;
  maximum_bitrate = or_old new v.maximum_bitrate q.maximum_bitrate;
  guaranteed_bitrate_set = mentioned v.guaranteed_bitrate q.guaranteed_bitrate_set;
  guaranteed_bitrate = or_old new v.guaranteed_bitrate q.guaranteed_bitrate;
  packet_rate_set = mentioned v.packet_rate q.packet_rate_set;
  packet_rate = or_old change_paces v.packet_rate q.packet_rate;
  dl_flow_level_marking_set = mentioned v.dl_flow_level_marking q.dl_flow_level_marking_set;
  dl_flow_level_marking = or_old change_marks v.dl_flow_level_marking q.dl_flow_level_marking;
  qos_flow_identifier_set = mentioned v.qos_flow_identifier q.qos_flow_identifier_set;
  qos_flow_identifier = or_old new v.qos_flow_identifier q.qos_flow_identifier;
  reflective_qos_set = mentioned v.reflective_qos q.reflective_qos_set;
  reflective_qos = or_old new v.reflective_qos q.reflective_qos;
}
