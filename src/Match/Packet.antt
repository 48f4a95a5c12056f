-- ===== src/Match/Packet.antt =====
-- src/up/up_match.c: the tests on the bytes of a packet, with the headers of utlt_netheader.h.
use het_bed.Base.{
  ℕ, zero, suc, ◌+◌, ◌-◌, ◌*◌, ◌/◌, ◌%◌, ◌^◌, bit_and, bit_xor, Bool, true, false, ◌&&◌, ◌||◌, leb,
  ◌==◌, if◌then◌else◌, List, get_or, u16, u32,
}

-- The memory from the packet's pointer on, also behind its end: a byte for each offset.
abbrev pub Bytes : Type 0
Bytes = ℕ → ℕ

-- `pkt + n`
abbrev pub shift : Bytes → ℕ → Bytes
shift pkt n i = pkt (n + i)

-- The loads of a little-endian host, and `htons` and `ntohs` there.
abbrev pub le16 : Bytes → ℕ → ℕ
le16 pkt i = pkt i + pkt (i + 1) * 2 ^ 8

abbrev pub le32 : Bytes → ℕ → ℕ
le32 pkt i = pkt i + pkt (i + 1) * 2 ^ 8 + pkt (i + 2) * 2 ^ 16 + pkt (i + 3) * 2 ^ 24

abbrev pub swap16 : ℕ → ℕ
swap16 n = n % 2 ^ 8 * 2 ^ 8 + n / 2 ^ 8 % 2 ^ 8

-- The sizes of `IPv4Header`, `UDPHeader` and `Gtpv1Header`.
abbrev pub ipv4_header : ℕ
ipv4_header = 20

abbrev pub udp_header : ℕ
udp_header = 8

abbrev pub gtpv1_header : ℕ
gtpv1_header = 8

-- What a match rule asks for. A list that was not allocated is empty; `pdr` is the pointer to the
-- rule that the node stands for.
pub record MatchRuleNode : Type 0 where
  pub precedence : ℕ
  pub teid : ℕ
  pub proto : ℕ
  pub saddr : ℕ
  pub smask : ℕ
  pub daddr : ℕ
  pub dmask : ℕ
  pub sport_num : ℕ
  pub sport_list : List ℕ
  pub dport_num : ℕ
  pub dport_list : List ℕ
  pub pdr : ℕ

-- `MHash32`: four rounds, one for each byte of the word.
unfoldable pub mhash_loop : ℕ → ℕ → ℕ → ℕ
mhash_loop zero rt input = rt
mhash_loop (suc n) rt input = mhash_loop n (u32 (rt * 33 + input % 2 ^ 8)) (input / 2 ^ 8)

unfoldable pub mhash32 : ℕ → ℕ → ℕ
mhash32 seed input = mhash_loop 4 seed input

-- `PacketLenIsEnough`; both arguments are cut to 16 bits.
abbrev pub packet_len_is_enough : ℕ → ℕ → Bool
packet_len_is_enough need total = leb (u16 need) (u16 total)

unfoldable pub check_gtpu_version : Bytes → ℕ → ℕ → Bool
check_gtpu_version pkt pktlen hdrlen =
    packet_len_is_enough (hdrlen + gtpv1_header) pktlen && (pkt hdrlen / 2 ^ 5 == 1)

-- The result 1, 0 and -1 of `CheckIsGTPU`.
pub data Gtpu : Type 0 where
  is_gtpu no_gtpu wrong_header : Gtpu

unfoldable pub check_is_gtpu : Bytes → ℕ → ℕ → Gtpu
check_is_gtpu pkt pktlen hdrlen =
    if packet_len_is_enough (hdrlen + ipv4_header + udp_header + gtpv1_header) pktlen
    then if (pkt (hdrlen + 9) == 17) && (le16 pkt (hdrlen + ipv4_header + 2) == swap16 2152)
      then if check_gtpu_version pkt pktlen (hdrlen + ipv4_header + udp_header)
        then is_gtpu
        else wrong_header
      else no_gtpu
    else no_gtpu

-- The result of `GTPUHeaderLen`: `running` when the fuel is spent, `malformed` for -1.
pub data HeaderLen : Type 0 where
  running malformed : HeaderLen
  header : ℕ → HeaderLen

-- The loop over the extension headers. The byte before `rt_len` is the next type, the byte at
-- `rt_len` the length in words; the sum is cut to 16 bits.
-- Where the sum becomes 0, C reads the byte in front of the header, and the function its first one.
unfoldable pub extension_loop : ℕ → Bytes → ℕ → ℕ → HeaderLen
extension_loop zero gtp remain rt_len = running
extension_loop (suc fuel) gtp remain rt_len =
    let rest = extension_loop fuel gtp remain (u16 (rt_len + gtp rt_len * 4)) in
    if gtp (rt_len - 1) == 0
    then header rt_len
    else if packet_len_is_enough rt_len remain
    then rest
    else malformed

-- The flags: any of the low three adds the four optional bytes, bit 2 is for extension headers.
unfoldable pub gtpu_header_len : ℕ → Bytes → ℕ → ℕ → HeaderLen
gtpu_header_len fuel pkt pktlen hdrlen =
    let gtp = shift pkt hdrlen in
    let remain = u16 (pktlen + 2 ^ 16 - hdrlen) in
    let rt_len = 8 + (if gtp 0 % 8 == 0 then 0 else 4) in
    if gtp 0 / 4 % 2 == 0 then header rt_len else extension_loop fuel gtp remain rt_len

abbrev pub protocol_match : ℕ → ℕ → Bool
protocol_match target wanted = target == wanted

unfoldable pub ipv4_match : ℕ → ℕ → ℕ → Bool
ipv4_match target wanted mask = bit_and (bit_xor target wanted) mask == 0

abbrev pub port_start : ℕ → ℕ
port_start w = w / 2 ^ 16

abbrev pub port_end : ℕ → ℕ
port_end w = w % 2 ^ 16

-- The loop of `PortMatch` from the index `i` with `n` rounds to go.
unfoldable pub port_loop : ℕ → List ℕ → ℕ → ℕ → Bool
port_loop port list i zero = false
port_loop port list i (suc n) =
    let rest = port_loop port list (suc i) n in
    if leb (port_start (get_or list i 0)) port && leb port (port_end (get_or list i 0))
    then true
    else rest

unfoldable pub port_match : ℕ → List ℕ → ℕ → Bool
port_match port list len = if len == 0 then true else port_loop port list 0 len

-- The int that `PacketNonGTPUMatch` returns: -1, 0 and 1.
pub data Outcome : Type 0 where
  failed no_match matched : Outcome

-- The tests on the addresses, in their order.
unfoldable pub l3_match : Bytes → MatchRuleNode → Bool
l3_match iph r =
    (r.proto == 0 || protocol_match (iph 9) r.proto)
    && ((r.saddr == 0 || r.smask == 0 || ipv4_match (le32 iph 12) r.saddr r.smask)
        && (r.daddr == 0 || r.dmask == 0 || ipv4_match (le32 iph 16) r.daddr r.dmask))

-- The tests on the ports; `has_udp` is that the header lies within the packet.
unfoldable pub l4_match : Bool → Bytes → MatchRuleNode → Bool
l4_match has_udp iph r =
    (r.sport_num == 0
      || (has_udp && port_match (swap16 (le16 iph ipv4_header)) r.sport_list r.sport_num))
    && (r.dport_num == 0
        || (has_udp && port_match (swap16 (le16 iph (ipv4_header + 2))) r.dport_list r.dport_num))

unfoldable pub packet_non_gtpu_match : Bytes → ℕ → ℕ → MatchRuleNode → Outcome
packet_non_gtpu_match pkt pktlen hdrlen r =
    let iph = shift pkt hdrlen in
    let has_udp = packet_len_is_enough (hdrlen + ipv4_header + udp_header) pktlen in
    if packet_len_is_enough (hdrlen + ipv4_header) pktlen
    then if l3_match iph r && l4_match has_udp iph r then matched else no_match
    else failed

-- The callers go on to the next rule at 0 only.
abbrev pub is_zero : Outcome → Bool
is_zero no_match = true
is_zero failed = false
is_zero matched = false
