-- ===== src/N4/Qer/Read.antt =====
-- src/n4/n4_pfcp_handler.c: the conversion of a QER IE against the meaning of its bytes.
use het_bed.Base.{ℕ, Bool, Option, none, some, ◌+◌, ◌*◌, ◌%◌, ◌^◌, ◌<◌, List, ◌≡◌, refl, arith}
use het_bed.Match.Packet.{Bytes}
use het_bed.N4.{be16_at, be32_at}
use het_bed.N4.Qer.{
  Bitrate, PacketRate, FlowMarking, Qer, flag_of, value_of, bitrate5, read_bitrate,
  read_packet_rate, read_flow_marking, convert_qer,
}
use het_bed.N4.Qer.Values.{
  Pace, Paces, Marks, QerValues, digit, bytes2, bytes4, bitrate_bytes, paces_bytes, marks_bytes,
  one_byte, memory, ie_of, encode_qer, When, BitrateFits, PaceFits, PacesFit, MarksFit, Fits,
  or_old, mentioned, new, change_paces, change_marks, change_qer,
}

flag_of-ie :
    {A : Type 0} (bytes : A → List ℕ) (o : Option A) (b : Bool)
    → flag_of (ie_of bytes o) b ≡ mentioned o b
flag_of-ie bytes none b = refl
flag_of-ie bytes (some a) b = refl

value_of-ie :
    {A B : Type 0} (bytes : A → List ℕ) (P : A → Type 0) (o : Option A) (read : Bytes → B → B)
    (change : A → B → B) (b : B)
    → When P o
    → ((a : A) → P a → read (memory (bytes a)) b ≡ change a b)
    → value_of (ie_of bytes o) read b ≡ or_old change o b
value_of-ie bytes P none read change b fits same = refl
value_of-ie bytes P (some a) read change b fits same = same a fits

read4 : (n : ℕ) → n < 2 ^ 32 → be32_at (memory (bytes4 n)) 0 ≡ n
read4 n h = omega arith

rate5 : (n : ℕ) → n < 2 ^ 40 → digit n 32 * 2 ^ 32 + be32_at (memory (bytes4 n)) 0 ≡ n
rate5 n h = omega arith

read_rates : (r old : Bitrate) → BitrateFits r → read_bitrate (memory (bitrate_bytes r)) old ≡ r
unfolding bitrate5
read_rates r old fits = λ i. record { ul = rate5 r.ul fits.0 i; dl = rate5 r.dl fits.1 i }

read2 : (n : ℕ) → n < 2 ^ 16 → be16_at (memory (bytes2 n)) 0 ≡ n
read2 n h = omega arith

low4 : (n : ℕ) → n < 2 ^ 4 → n % 2 ^ 4 ≡ n
low4 n h = omega arith

word : (n : ℕ) → n < 2 ^ 16 → digit n 0 + digit n 8 * 2 ^ 8 ≡ n
word n h = omega arith

read_paces :
    (up down : Option Pace) (old : PacketRate)
    → When PaceFits up
    → When PaceFits down
    → let p : Paces = record { up = up; down = down } in
      read_packet_rate (memory (paces_bytes p)) old ≡ change_paces p old
unfolding read_packet_rate
read_paces none none old u d = refl
read_paces (some a) none old u d = λ i. record {
  flags = 1;
  uplink_time_unit = low4 a.unit u.0 i;
  maximum_uplink_packet_rate = read2 a.rate u.1 i;
  downlink_time_unit = old.downlink_time_unit;
  maximum_downlink_packet_rate = old.maximum_downlink_packet_rate;
}
read_paces none (some b) old u d = λ i. record {
  flags = 2;
  uplink_time_unit = old.uplink_time_unit;
  maximum_uplink_packet_rate = old.maximum_uplink_packet_rate;
  downlink_time_unit = low4 b.unit d.0 i;
  maximum_downlink_packet_rate = read2 b.rate d.1 i;
}
read_paces (some a) (some b) old u d = λ i. record {
  flags = 3;
  uplink_time_unit = low4 a.unit u.0 i;
  maximum_uplink_packet_rate = read2 a.rate u.1 i;
  downlink_time_unit = low4 b.unit d.0 i;
  maximum_downlink_packet_rate = read2 b.rate d.1 i;
}

read_marks :
    (tos sci : Option ℕ) (old : FlowMarking)
    → When (λ n. n < 2 ^ 16) tos
    → When (λ n. n < 2 ^ 16) sci
    → let m : Marks = record { traffic_class = tos; service_class = sci } in
      read_flow_marking (memory (marks_bytes m)) old ≡ change_marks m old
unfolding read_flow_marking
read_marks none none old t c = refl
read_marks (some a) none old t c = λ i. record {
  flags = 1;
  tos_traffic_class = word a t i;
  service_class_indicator = old.service_class_indicator;
}
read_marks none (some b) old t c = λ i. record {
  flags = 2;
  tos_traffic_class = old.tos_traffic_class;
  service_class_indicator = word b c i;
}
read_marks (some a) (some b) old t c =
    λ i. record { flags = 3; tos_traffic_class = word a t i; service_class_indicator = word b c i }

number_of-ie :
    (o : Option ℕ) (b : ℕ)
    → When (λ n. n < 2 ^ 32) o
    → value_of (ie_of bytes4 o) (λ v _. be32_at v 0) b ≡ or_old new o b
number_of-ie o b fits = value_of-ie bytes4 (λ n. n < 2 ^ 32) o (λ v _. be32_at v 0) new b fits read4

byte_of-ie : (o : Option ℕ) (b : ℕ) → value_of (ie_of one_byte o) (λ v _. v 0) b ≡ or_old new o b
byte_of-ie none b = refl
byte_of-ie (some n) b = refl

rates_of-ie :
    (o : Option Bitrate) (b : Bitrate)
    → When BitrateFits o
    → value_of (ie_of bitrate_bytes o) read_bitrate b ≡ or_old new o b
rates_of-ie o b fits =
    value_of-ie bitrate_bytes BitrateFits o read_bitrate new b fits (λ r h. read_rates r b h)

-- The IEs that say these values, laid out as the standard says, change a rule to these values: a
-- number of 4 bytes and the bit rates of 5 bytes with the high byte first, the uplink before the
-- downlink, and behind the flags of the packet rate and of the marking the parts that they announce.
-- The values fit into their bytes. What is not mentioned stays as it was, its flag too.
pub convert_qer-encode_qer :
    (v : QerValues) (q : Qer) → Fits v → convert_qer (encode_qer v) q ≡ change_qer v q
unfolding convert_qer encode_qer
convert_qer-encode_qer v q fits = λ i. record {
  qer_id_set = flag_of-ie bytes4 v.qer_id q.qer_id_set i;
  qer_id = number_of-ie v.qer_id q.qer_id fits.qer_id i;
  qer_correlation_id_set = flag_of-ie bytes4 v.qer_correlation_id q.qer_correlation_id_set i;
  qer_correlation_id =
      number_of-ie v.qer_correlation_id q.qer_correlation_id fits.qer_correlation_id i;
  gate_status_set = flag_of-ie one_byte v.gate_status q.gate_status_set i;
  gate_status = byte_of-ie v.gate_status q.gate_status i;
  maximum_bitrate_set = flag_of-ie bitrate_bytes v.maximum_bitrate q.maximum_bitrate_set i;
  maximum_bitrate = rates_of-ie v.maximum_bitrate q.maximum_bitrate fits.maximum_bitrate i;
  guaranteed_bitrate_set = flag_of-ie bitrate_bytes v.guaranteed_bitrate q.guaranteed_bitrate_set i;
  guaranteed_bitrate =
      rates_of-ie v.guaranteed_bitrate q.guaranteed_bitrate fits.guaranteed_bitrate i;
  packet_rate_set = flag_of-ie paces_bytes v.packet_rate q.packet_rate_set i;
  packet_rate =
      value_of-ie paces_bytes PacesFit v.packet_rate read_packet_rate change_paces q.packet_rate
        fits.packet_rate (λ p h. read_paces p.up p.down q.packet_rate h.0 h.1) i;
  dl_flow_level_marking_set =
      flag_of-ie marks_bytes v.dl_flow_level_marking q.dl_flow_level_marking_set i;
  dl_flow_level_marking =
      value_of-ie marks_bytes MarksFit v.dl_flow_level_marking read_flow_marking change_marks
        q.dl_flow_level_marking fits.dl_flow_level_marking
        (λ m h. read_marks m.traffic_class m.service_class q.dl_flow_level_marking h.0 h.1) i;
  qos_flow_identifier_set = flag_of-ie one_byte v.qos_flow_identifier q.qos_flow_identifier_set i;
  qos_flow_identifier = byte_of-ie v.qos_flow_identifier q.qos_flow_identifier i;
  reflective_qos_set = flag_of-ie one_byte v.reflective_qos q.reflective_qos_set i;
  reflective_qos = byte_of-ie v.reflective_qos q.reflective_qos i;
}
