-- ===== src/Message/Packet.antt =====
-- lib/pfcp/src/pfcp_xact.c and lib/pfcp/src/pfcp_message.c: the packet that `PfcpXactUpdateTx` makes of
-- a message, as `PfcpParseMessage` reads it.
use het_bed.Base.{
  ℕ, ◌≡◌, ◌<◌, ◌≤◌, refl, sym, ap, ◌∙◌, subst, List, [], ◌∷◌, ◌++◌, Option, none, some, length, ◌^◌,
  ◌/◌, ◌%◌, ◌*◌, ◌+◌, ◌-◌, arith, true, false, u16, if◌then◌else◌, drop, ◌==◌, u32, swap32-lt, inl,
  inr, Bool-cases,
}
use het_bed.Xact.Types.{Header, Packet, transaction_id2sqn}
use het_bed.Xact.Exchange.{full_packet, with_seid}
use het_bed.Message.{Descriptions, Ies, be16}
use het_bed.Message.Describe.{message_ies}
use het_bed.Message.Encode.{encode_all}
use het_bed.Message.Parse.{
  PfcpMessage, parse_message, parse_fields, read_header, le_value, be_value, header_size,
}
use het_bed.Message.Build.{block, build_message}
use het_bed.Message.Refine.{build_message-encode_all}
use het_bed.Message.Shape.{FitAll}
use het_bed.Message.RoundTrip.{parse_fields-encode_all}

-- A `uint32_t` in the byte order of the host, and a `uint64_t` after `htobe64`.
abbrev le32 : ℕ → List ℕ
le32 n = n % 2 ^ 8 ∷ n / 2 ^ 8 % 2 ^ 8 ∷ n / 2 ^ 16 % 2 ^ 8 ∷ n / 2 ^ 24 % 2 ^ 8 ∷ []

abbrev be64 : ℕ → List ℕ
be64 n =
    n / 2 ^ 56 % 2 ^ 8
    ∷ n / 2 ^ 48 % 2 ^ 8
    ∷ n / 2 ^ 40 % 2 ^ 8
    ∷ n / 2 ^ 32 % 2 ^ 8
    ∷ n / 2 ^ 24 % 2 ^ 8
    ∷ n / 2 ^ 16 % 2 ^ 8
    ∷ n / 2 ^ 8 % 2 ^ 8
    ∷ n % 2 ^ 8
    ∷ []

-- The rest of a `PfcpHeader` in memory, and its first byte.
abbrev seid_bytes : Option ℕ → List ℕ
seid_bytes none = []
seid_bytes (some seid) = be64 seid

abbrev seid_flag : Option ℕ → ℕ
seid_flag none = 0
seid_flag (some _) = 1

unfoldable pub packet_bytes : Packet → List ℕ
packet_bytes p =
    (p.version % 2 ^ 3 * 2 ^ 5 + seid_flag p.seid)
    ∷ p.type % 2 ^ 8
    ∷ (be16 p.length ++ (seid_bytes p.seid ++ (le32 p.sqn ++ p.body)))

-- What the parser makes of a packet; without a SEID, `seid` is a union with `sqn_only`.
abbrev seid_of : Packet → ℕ
seid_of p = elim p.seid [ none ↦ p.sqn | some seid ↦ seid ]

unfoldable pub received : Packet → Option Ies → PfcpMessage
received p body = record {
  flags = p.version * 2 ^ 5 + seid_flag p.seid;
  type = p.type;
  length = p.length / 2 ^ 8 + 2 ^ 8 * (p.length % 2 ^ 8);
  seid = seid_of p;
  sqn = p.sqn;
  body = body;
}

abbrev SeidFits : Option ℕ → Type 0
SeidFits none = Unit
SeidFits (some seid) = seid < 2 ^ 64

-- The fields of a packet are within their widths.
pub record IsPacket (p : Packet) : Type 0 where
  pub version : p.version < 2 ^ 3
  pub type : p.type < 2 ^ 8
  pub length : p.length < 2 ^ 16
  pub seid : SeidFits p.seid
  pub sqn : p.sqn < 2 ^ 32

le32-value : (n : ℕ) → n < 2 ^ 32 → le_value (le32 n) ≡ n
le32-value n h = omega arith

be64-value : (n : ℕ) → n < 2 ^ 64 → be_value (be64 n) 0 ≡ n
be64-value n h = omega arith

read_header-bytes :
    (version type len sqn : ℕ) (seid : Option ℕ) (body rest : List ℕ)
    → version < 2 ^ 3
    → type < 2 ^ 8
    → len < 2 ^ 16
    → SeidFits seid
    → sqn < 2 ^ 32
    → let p : Packet = record {
      version = version;
      type = type;
      seid = seid;
      sqn = sqn;
      length = len;
      body = body;
    } in
      read_header (packet_bytes p ++ rest) ≡ some (received p none)
unfolding read_header packet_bytes received
read_header-bytes version type len sqn none body rest hv ht hl hs hq =
    let plain : ((version % 8 * 32 + 0) % 2 == 1) ≡ false = ground arith in
    let flags : version % 8 * 32 + 0 ≡ version * 32 + 0 = omega arith in
    let types : type % 256 ≡ type = omega arith in
    let lens : len % 65536 / 256 + 256 * (len % 256 + 0) ≡ len / 256 + 256 * (len % 256) =
      omega arith in
    rw (plain, le32-value sqn hq, flags, types, lens)
read_header-bytes version type len sqn (some seid) body rest hv ht hl hs hq =
    let with_seid : ((version % 8 * 32 + 1) % 2 == 1) ≡ true = ground arith in
    let flags : version % 8 * 32 + 1 ≡ version * 32 + 1 = omega arith in
    let types : type % 256 ≡ type = omega arith in
    let lens : len % 65536 / 256 + 256 * (len % 256 + 0) ≡ len / 256 + 256 * (len % 256) =
      omega arith in
    rw (with_seid, le32-value sqn hq, be64-value seid hs, flags, types, lens)

-- The body is what is behind the header.
drop-packet_bytes :
    (version type len sqn : ℕ) (seid : Option ℕ) (body rest : List ℕ)
    → let p : Packet = record {
      version = version;
      type = type;
      seid = seid;
      sqn = sqn;
      length = len;
      body = body;
    } in
      (drop (header_size (received p none).flags) (packet_bytes p ++ rest) ≡ body ++ rest)
      × (length (packet_bytes p) ≡ header_size (received p none).flags + length body)
unfolding packet_bytes received
drop-packet_bytes version type len sqn none body rest =
    let plain : ((version * 32 + 0) % 2 == 1) ≡ false = ground arith in
    (rw plain, rw plain (omega arith))
drop-packet_bytes version type len sqn (some seid) body rest =
    let with_seid : ((version * 32 + 1) % 2 == 1) ≡ true = ground arith in
    (rw with_seid, rw with_seid (omega arith))

header_size-le : (flags : ℕ) → header_size flags ≤ 16
header_size-le flags = ground arith

-- The steps of the parser on a message with a body.
parse_message-body :
    (buf : List ℕ) (len n : ℕ) (m : PfcpMessage) (ds : Descriptions) (vs : Ies)
    → read_header buf ≡ some m
    → u16 (u16 len + 2 ^ 16 - header_size m.flags) ≡ n
    → 0 < n
    → message_ies m.type ≡ some ds
    → parse_fields ds (drop (header_size m.flags) buf) n ≡ some vs
    → parse_message buf len ≡ some (record m { body = some vs })
unfolding parse_message
parse_message-body buf len n m ds vs header size pos known read =
    let more : (n == 0) ≡ false = ground arith in
    rw (parse_message, header, size, more, known, read)

-- A message of a type that the switch knows, behind its header.
parse_message-packet_bytes :
    (p : Packet) (ds : Descriptions) (vs : Ies) (rest : List ℕ)
    → IsPacket p
    → message_ies p.type ≡ some ds
    → FitAll ds vs
    → p.body ≡ encode_all ds vs
    → 0 < length p.body
    → length (packet_bytes p) < 2 ^ 16
    → parse_message (packet_bytes p ++ rest) (length (packet_bytes p)) ≡ some (received p (some vs))
unfolding received
parse_message-packet_bytes p ds vs rest packet known fit same pos short =
    let header =
      read_header-bytes p.version p.type p.length p.sqn p.seid p.body rest packet.version
        packet.type packet.length packet.seid packet.sqn in
    let body = drop-packet_bytes p.version p.type p.length p.sqn p.seid p.body rest in
    let size : header_size (received p none).flags ≤ 16 = header_size-le (received p none).flags in
    parse_message-body (packet_bytes p ++ rest) (length (packet_bytes p)) (length p.body)
      (received p none) ds vs header (omega (arith, body.1)) pos known
      (ap (λ t. parse_fields ds t (length p.body)) body.0
        ∙ subst (λ t. parse_fields ds (t ++ rest) (length t) ≡ some vs) (sym same)
            (parse_fields-encode_all ds vs rest fit))

full_packet-IsPacket :
    (header : Header) (transaction_id : ℕ) (body : List ℕ)
    → header.type < 2 ^ 8
    → header.seid < 2 ^ 64
    → IsPacket (full_packet header transaction_id body)
unfolding full_packet transaction_id2sqn
full_packet-IsPacket header transaction_id body type seid = record {
  version = omega arith;
  type = type;
  length = omega arith;
  seid = elim (Bool-cases (with_seid header.type)) [
    | inl b ↦ subst SeidFits (sym (ap (λ t. if t then some header.seid else none) b)) seid
    | inr b ↦ subst SeidFits (sym (ap (λ t. if t then some header.seid else none) b)) tt
  ];
  sqn = swap32-lt (u32 (transaction_id * 2 ^ 8));
}

packet_bytes-short : (p : Packet) → length (packet_bytes p) ≤ 16 + length p.body
packet_bytes-short p =
    let size = header_size-le (received p none).flags in
    let body = drop-packet_bytes p.version p.type p.length p.sqn p.seid p.body [] in
    omega (arith, size, body.1)

-- A message of a type that the switch knows is built, put behind a header and parsed as it was, with
-- the type, the SEID and the sequence number of the header: the struct fits the type's description and
-- is not empty, and its bytes are 2^15 at most.
pub parse_message-build_message :
    (header : Header) (transaction_id : ℕ) (ds : Descriptions) (vs : Ies) (rest : List ℕ)
    → header.type < 2 ^ 8
    → header.seid < 2 ^ 64
    → message_ies header.type ≡ some ds
    → FitAll ds vs
    → 0 < length (encode_all ds vs)
    → length (encode_all ds vs) ≤ 2 ^ 15
    → (size : ℕ) × (body : List ℕ) × (build_message header.type vs ≡ block size body)
      × (let p = full_packet header transaction_id body in
          parse_message (packet_bytes p ++ rest) (length (packet_bytes p))
          ≡ some (received p (some vs)))
unfolding full_packet
parse_message-build_message header transaction_id ds vs rest type seid known fit pos short =
    let built = build_message-encode_all header.type ds vs known short in
    let p = full_packet header transaction_id (encode_all ds vs) in
    (
      built.0,
      encode_all ds vs,
      built.1,
      parse_message-packet_bytes p ds vs rest
          (full_packet-IsPacket header transaction_id (encode_all ds vs) type seid) known fit refl
          pos (omega (arith, packet_bytes-short p)),
    )
