-- ===== src/Xact/Exchange.antt =====
-- `PfcpXactUpdateTx` and `PfcpXactUpdateRx`: a message of the transaction goes out or comes in.
use het_bed.Base.{
  ℕ, ◌+◌, ◌-◌, Bool, true, false, ◌==◌, ◌||◌, leb, if◌then◌else◌, Option, none, some, List, length,
  get_or, set, u16,
}
use het_bed.Xact.Types.{
  Status, ok, error, again, Stage, unknown_stage, initial_stage, intermediate_stage, final_stage,
  get_stage, transaction_id2sqn, Header, Packet, Seq, no_seq, PfcpXact, sent, timer_started,
  timer_stopped, buf_freed, Env, State, put, emit, emit_if,
}

-- The switches of `PfcpXactUpdateTx`: may a message of this stage go out at this step?
unfoldable pub tx_allowed : ℕ → Stage → ℕ → Bool
tx_allowed origin initial_stage step = if origin == 0 then step == 0 else false
tx_allowed origin intermediate_stage step =
    if origin == 0 then false else if origin == 1 then step == 1 else false
tx_allowed origin final_stage step =
    if origin == 0 then step == 2 else if origin == 1 then step == 1 else false
tx_allowed origin unknown_stage step = false

-- PFCP_SESSION_ESTABLISHMENT_REQUEST and what is above it have a session's identifier.
abbrev pub with_seid : ℕ → Bool
with_seid type = leb 50 type

-- PFCP_HEADER_LEN is 16, PFCP_SEID_LEN is 8.
abbrev pub header_len : ℕ → ℕ
header_len type = if with_seid type then 16 else 16 - 8

-- The sum is an `int`, passed to a parameter of type `uint16_t`.
unfoldable pub full_packet : Header → ℕ → List ℕ → Packet
full_packet header transaction_id body = record {
  version = 1;
  type = header.type;
  seid = if with_seid header.type then some header.seid else none;
  sqn = transaction_id2sqn transaction_id;
  length = u16 (length body + header_len header.type - 4);
  body = body;
}

-- `seq[step]` takes the message and the step goes on.
abbrev pub record_seq : PfcpXact → Seq → PfcpXact
record_seq x q = record x { seq = set x.seq x.step q; step = x.step + 1 }

-- The part from the allocation of the full packet on.
unfoldable pub send_seq : Env → ℕ → Header → List ℕ → State → Status × State
send_seq env i header body s =
    let x = s.xacts i in
    if env.alloc_ok
    then if env.append_ok
      then (
        ok,
        put i
            (record_seq x (record {
              type = header.type;
              buf_blk = some (full_packet header x.transaction_id body);
            }))
            (emit buf_freed s),
      )
      else (error, emit buf_freed s)
    else (error, s)

unfoldable pub update_tx : Env → Option ℕ → Option Header → Option (List ℕ) → State → Status × State
unfolding send_seq
update_tx env none header body s = (error, s)
update_tx env (some i) none body s = (error, s)
update_tx env (some i) (some header) none s = (error, s)
update_tx env (some i) (some header) (some body) s = elim (s.xacts i).gnode [
  | none ↦ (error, s)
  | some g ↦
      if tx_allowed (s.xacts i).origin (get_stage header.type) (s.xacts i).step
      then send_seq env i header body s
      else (error, s)
]

-- What the switches of `PfcpXactUpdateRx` decide of a message: refuse it; a repetition, answered by
-- the packet if there is one; or take it, and start the holding timer or not.
pub data Verdict : Type 0 where
  refuse : Verdict
  duplicate : Option Packet → Verdict
  take_in : Bool → Verdict

-- The message at a place of `seq`. Behind the three places, where C reads what follows the array, there is
-- none here; no switch takes a message at a step beyond 2.
abbrev pub seq_at : PfcpXact → ℕ → Seq
seq_at x k = get_or x.seq k no_seq

unfoldable pub rx_local : PfcpXact → Stage → ℕ → Verdict
rx_local x initial_stage type = refuse
rx_local x intermediate_stage type =
    if (seq_at x 1).type == type
    then if x.step == 2 || x.step == 3 then duplicate (seq_at x 2).buf_blk else refuse
    else if x.step == 1
    then take_in true
    else refuse
rx_local x final_stage type = if x.step == 1 then take_in false else refuse
rx_local x unknown_stage type = refuse

unfoldable pub rx_remote : PfcpXact → Stage → ℕ → Verdict
rx_remote x initial_stage type =
    if (seq_at x 0).type == type
    then if x.step == 1 || x.step == 2 then duplicate (seq_at x 1).buf_blk else refuse
    else if x.step == 0
    then take_in true
    else refuse
rx_remote x intermediate_stage type = refuse
rx_remote x final_stage type = if x.step == 2 then take_in false else refuse
rx_remote x unknown_stage type = refuse

unfoldable pub rx_verdict : PfcpXact → ℕ → Verdict
unfolding rx_local rx_remote
rx_verdict x type =
    if x.origin == 0
    then rx_local x (get_stage type) type
    else if x.origin == 1
    then rx_remote x (get_stage type) type
    else refuse

-- `PfcpSend` to the node of the transaction; a transaction without a node cannot come here.
abbrev pub send_to : Option ℕ → Packet → State → State
send_to none p s = s
send_to (some g) p s = emit (sent g p) s

unfoldable pub retransmit : Env → ℕ → Option Packet → State → Status × State
retransmit env i none s = (again, s)
retransmit env i (some p) s = (
  if env.send_ok then again else error,
  send_to (s.xacts i).gnode p (emit_if (s.xacts i).timer_holding timer_started s),
)

unfoldable pub take_message : ℕ → ℕ → Bool → State → Status × State
take_message i type start s =
    let x = s.xacts i in
    let s1 = if start then emit_if x.timer_holding timer_started s else s in
    (
      ok,
      put i (record_seq x (record { type = type; buf_blk = (seq_at x x.step).buf_blk }))
          (emit_if x.timer_response timer_stopped s1),
    )

unfoldable pub answer_verdict : Env → ℕ → ℕ → Verdict → State → Status × State
answer_verdict env i type refuse s = (error, s)
answer_verdict env i type (duplicate p) s = retransmit env i p s
answer_verdict env i type (take_in start) s = take_message i type start s

unfoldable pub update_rx : Env → ℕ → ℕ → State → Status × State
unfolding answer_verdict retransmit take_message rx_verdict
update_rx env i type s = answer_verdict env i type (rx_verdict (s.xacts i) type) s
