-- ===== src/Match/Entry.antt =====
-- src/up/up_match.c: the entry functions for packets, and the packets that are kept for later.
use het_bed.Base.{
  ℕ, ◌+◌, ◌/◌, ◌%◌, ◌^◌, Bool, true, false, ◌==◌, ◌&&◌, ◌||◌, if◌then◌else◌, Option, none, some,
  List, [], ◌∷◌, length, u32,
}
use het_bed.Buff.Ops
use het_bed.Buff.Ops.{Bufblk, buf_is_not_enough, bufblk_resize, bufblk_bytes, first_bytes}
use het_bed.Buff.Alloc.{bufblk_alloc}
use het_bed.Match.Packet.{
  Bytes, Gtpu, is_gtpu, no_gtpu, wrong_header, check_is_gtpu, check_gtpu_version, ipv4_header,
  udp_header, gtpv1_header, packet_len_is_enough,
}
use het_bed.Match.Rules
use het_bed.Match.Rules.{Lookup, hit, miss, endless, find_pdr_by_teid, find_pdr_by_ueip}

-- What other parts of the program answer: the action of the forwarding rule of a detection rule,
-- `none` if there is no such rule; the identifier of a detection rule; whether there is a slot for its packets; the lock; and the
-- outcome of the handlers of up_path.c for the other kinds of GTP-U packets.
pub record Env : Type 0 where
  pub action_of : ℕ → Option ℕ
  pub pdr_id : ℕ → ℕ
  pub has_slot : ℕ → Bool
  pub lock_ok : Bool
  pub echo_request_ok : Bool
  pub echo_response_ok : Bool
  pub end_mark_ok : Bool

-- The tables, the buffers, the block of each detection rule, by its identifier, with its number, and
-- the identifiers that session reports were sent for.
pub record World : Type 0 where
  pub tables : Rules.State
  pub buffers : Ops.State
  pub slots : ℕ → Option (ℕ × Bufblk)
  pub reports : List ℕ

-- The int that the entry functions return: 1, 0 and -1, and `hangs` for a loop without end.
pub data Result : Type 0 where
  consumed forward refused hangs : Result

-- `action & PFCP_FAR_APPLY_ACTION_BUFF` and `.. NOCP`
abbrev pub has_buff : ℕ → Bool
has_buff a = a / 4 % 2 == 1

abbrev pub has_nocp : ℕ → Bool
has_nocp a = a / 8 % 2 == 1

-- The two bytes of `pktlen`.
abbrev pub len_bytes : ℕ → List ℕ
len_bytes n = n % 2 ^ 8 ∷ n / 2 ^ 8 % 2 ^ 8 ∷ []

-- Room for both appends: the outcome, the block and the buffers.
unfoldable pub make_room : ℕ → Bufblk → Ops.State → Bool × Bufblk × Ops.State
make_room pktlen b s =
    if buf_is_not_enough 1 (2 + pktlen) b
    then bufblk_resize 1 (u32 (b.size + 2 + pktlen)) b s
    else (true, b, s)

-- The length and the packet; the status of the first append is not read.
abbrev pub append_both : List ℕ → Bool × Bufblk × Ops.State → Bool × Bufblk × Ops.State
append_both pkt (false, b, s) = (false, b, s)
append_both pkt (true, b, s) =
    let r = bufblk_bytes (len_bytes (length pkt)) b s in bufblk_bytes pkt r.1 r.2

unfoldable pub store_packet : List ℕ → Bufblk → Ops.State → Bool × Bufblk × Ops.State
store_packet pkt b s = append_both pkt (make_room (length pkt) b s)

abbrev pub max_size_of_packet : ℕ
max_size_of_packet = 1600

-- The slot with a block that it has or gets.
abbrev pub fill_slot : Option (ℕ × Bufblk) × Ops.State → List ℕ → ℕ → ℕ → World → Result × World
fill_slot (none, s) pkt action id w = (refused, record w { buffers = s })
fill_slot (some (j, b), s) pkt action id w =
    let r = store_packet pkt b s in
    let w1 = record w {
      buffers = r.2;
      slots = λ p. if p == id then some (j, r.1) else w.slots p;
    } in
    if r.0
    then (consumed, if has_nocp action then record w1 { reports = id ∷ w.reports } else w1)
    else (refused, w1)

abbrev pub slot_or_new : Option (ℕ × Bufblk) → Ops.State → Option (ℕ × Bufblk) × Ops.State
slot_or_new none s = bufblk_alloc 1 max_size_of_packet s
slot_or_new (some block) s = (some block, s)

abbrev pub act_on : Option ℕ → Env → List ℕ → ℕ → World → Result × World
act_on none env pkt id w = (refused, w)
act_on (some action) env pkt id w =
    if has_buff action
    then if env.has_slot id && env.lock_ok
      then fill_slot (slot_or_new (w.slots id) w.buffers) pkt action id w
      else (refused, w)
    else (forward, w)

-- `PacketInBufferHandle`
unfoldable pub packet_in_buffer_handle : Env → Bytes → ℕ → ℕ → World → Result × World
packet_in_buffer_handle env pkt pktlen pdr w =
    act_on (env.action_of pdr) env (first_bytes pktlen pkt) (env.pdr_id pdr) w

-- The outcome of `PacketInGTPUHandle`: a rule, a packet that was handled, -1, or no end.
pub data Handled : Type 0 where
  by_rule : ℕ → Handled
  done failed never : Handled

abbrev pub of_lookup : Lookup → Handled
of_lookup (hit pdr) = by_rule pdr
of_lookup miss = failed
of_lookup endless = never

abbrev pub of_status : Bool → Handled
of_status ok = if ok then done else failed

-- `PacketInGTPUHandle`: the search starts behind an IPv4 and a UDP header, whatever `hdrlen` is. The
-- addresses of the sender only go to the socket of the handlers.
unfoldable pub packet_in_gtpu_handle : ℕ → ℕ → Env → Bytes → ℕ → ℕ → World → Handled
packet_in_gtpu_handle steps fuel env pkt pktlen hdrlen w =
    let type = pkt (hdrlen + 1) in
    if packet_len_is_enough (hdrlen + gtpv1_header) pktlen
    then if type == 255
      then of_lookup (find_pdr_by_teid steps fuel pkt pktlen (ipv4_header + udp_header) w.tables)
      else if type == 1
      then of_status env.echo_request_ok
      else if type == 2
      then of_status env.echo_response_ok
      else if type == 254
      then of_status env.end_mark_ok
      else done
    else failed

abbrev pub after_match : Env → Bytes → ℕ → Handled → World → Result × World
after_match env pkt pktlen (by_rule pdr) w = packet_in_buffer_handle env pkt pktlen pdr w
after_match env pkt pktlen done w = (consumed, w)
after_match env pkt pktlen failed w = (refused, w)
after_match env pkt pktlen never w = (hangs, w)

abbrev pub l3_by_kind : ℕ → ℕ → Env → Bytes → ℕ → Gtpu → World → Result × World
l3_by_kind steps fuel env pkt pktlen wrong_header w = (refused, w)
l3_by_kind steps fuel env pkt pktlen is_gtpu w =
    after_match env pkt pktlen
      (packet_in_gtpu_handle steps fuel env pkt pktlen (ipv4_header + udp_header) w) w
l3_by_kind steps fuel env pkt pktlen no_gtpu w =
    after_match env pkt pktlen (of_lookup (find_pdr_by_ueip fuel pkt pktlen 0 w.tables)) w

-- `PacketInWithL3` on pointers that are not NULL.
unfoldable pub packet_in_with_l3 : ℕ → ℕ → Env → Bytes → ℕ → World → Result × World
packet_in_with_l3 steps fuel env pkt pktlen w =
    l3_by_kind steps fuel env pkt pktlen (check_is_gtpu pkt pktlen 0) w

-- `PacketInWithGTPU`, likewise.
unfoldable pub packet_in_with_gtpu : ℕ → ℕ → Env → Bytes → ℕ → ℕ → ℕ → World → Result × World
packet_in_with_gtpu steps fuel env pkt pktlen remote_ip remote_port w =
    if remote_ip == 0 || remote_port == 0
    then (refused, w)
    else if check_gtpu_version pkt pktlen 0
    then after_match env pkt pktlen (packet_in_gtpu_handle steps fuel env pkt pktlen 0 w) w
    else (refused, w)
