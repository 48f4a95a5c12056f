-- ===== src/Xact/Types.antt =====
-- lib/pfcp/include/pfcp_xact.h, the header of pfcp_message.h, and the state of pfcp_xact.c.
use het_bed.Base.{
  ℕ, ◌+◌, ◌*◌, ◌/◌, ◌%◌, ◌^◌, Bool, ◌==◌, ◌||◌, if◌then◌else◌, Option, none, List, [], ◌∷◌, ◌++◌,
  u32, swap32,
}
use het_bed.ListHead.{Heap}
use het_bed.Pool.{Ptr}
use het_bed.Index.{Index}

-- `again` is STATUS_EAGAIN. `fault` marks a read outside an array, which C leaves undefined.
pub data Status : Type 0 where
  ok error again fault : Status

pub data Stage : Type 0 where
  unknown_stage initial_stage intermediate_stage final_stage : Stage

-- PFCP_HEARTBEAT_REQUEST 1, PFCP_ASSOCIATION_SETUP_REQUEST 5, ..UPDATE.. 7, ..RELEASE.. 9,
-- PFCP_SESSION_ESTABLISHMENT_REQUEST 50, ..MODIFICATION.. 52, ..DELETION.. 54, ..REPORT.. 56.
abbrev pub is_request : ℕ → Bool
is_request t = t == 1 || t == 5 || t == 7 || t == 9 || t == 50 || t == 52 || t == 54 || t == 56

-- The responses are the next numbers, and PFCP_VERSION_NOT_SUPPORTED_RESPONSE is 11.
abbrev pub is_response : ℕ → Bool
is_response t =
    t == 2 || t == 6 || t == 8 || t == 10 || t == 11 || t == 51 || t == 53 || t == 55 || t == 57

-- `PfcpXactGetStage`; its second argument is not used.
unfoldable pub get_stage : ℕ → Stage
get_stage t =
    if is_request t then initial_stage else if is_response t then final_stage else unknown_stage

-- The macros of pfcp_message.h, at type `uint32_t`.
unfoldable pub transaction_id2sqn : ℕ → ℕ
transaction_id2sqn t = swap32 (u32 (t * 2 ^ 8))

unfoldable pub sqn2transaction_id : ℕ → ℕ
sqn2transaction_id sqn = swap32 sqn / 2 ^ 8

abbrev pub min_xact_id : ℕ
min_xact_id = 1

abbrev pub max_xact_id : ℕ
max_xact_id = 0x800000

-- `transactionId & PFCP_MAX_XACT_ID`, a test of bit 23.
abbrev pub remote_bit : ℕ → Bool
remote_bit t = t / 2 ^ 23 % 2 == 1

-- What a caller fills in of `PfcpHeader`.
pub record Header : Type 0 where
  pub type : ℕ
  pub seid : ℕ
  pub sqn : ℕ

-- The buffer that `PfcpXactUpdateTx` builds: the fields that it writes, and the body behind them.
-- `seid` is present with the flag `seidP`; `length` is before `htons`.
pub record Packet : Type 0 where
  pub version : ℕ
  pub type : ℕ
  pub seid : Option ℕ
  pub sqn : ℕ
  pub length : ℕ
  pub body : List ℕ

pub record Seq : Type 0 where
  pub type : ℕ
  pub buf_blk : Option Packet

abbrev pub no_seq : Seq
no_seq = record { type = 0; buf_blk = none }

-- `origin` is 0 for PFCP_LOCAL_ORIGINATOR and 1 for PFCP_REMOTE_ORIGINATOR; a timer is 0 if unset.
pub record PfcpXact : Type 0 where
  pub origin : ℕ
  pub transaction_id : ℕ
  pub gnode : Option ℕ
  pub step : ℕ
  pub seq : List Seq
  pub timer_response : ℕ
  pub response_re_count : ℕ
  pub timer_holding : ℕ
  pub holding_re_count : ℕ
  pub associated_xact : Ptr

-- The object after `memset`.
abbrev pub cleared : PfcpXact
cleared = record {
  origin = 0;
  transaction_id = 0;
  gnode = none;
  step = 0;
  seq = no_seq ∷ no_seq ∷ no_seq ∷ [];
  timer_response = 0;
  response_re_count = 0;
  timer_holding = 0;
  holding_re_count = 0;
  associated_xact = none;
}

-- The calls that leave the file: the socket, the timers, the buffers that are given back.
pub data Effect : Type 0 where
  sent : ℕ → Packet → Effect
  timer_started timer_stopped timer_deleted : ℕ → Effect
  timer_set : ℕ → ℕ → Effect
  buf_freed : Effect

-- What those calls answer: whether `BufblkAlloc` and `BufblkBuf` succeed, whether `PfcpSend` does,
-- and the identifiers from `EventTimerCreate`, 0 for failure.
pub record Env : Type 0 where
  pub alloc_ok : Bool
  pub append_ok : Bool
  pub send_ok : Bool
  pub response_timer : ℕ
  pub holding_timer : ℕ

-- The file's static variables, the objects of its pool, and the links of the lists.
pub record State : Type 0 where
  pub table : Index
  pub xacts : ℕ → PfcpXact
  pub links : Heap
  pub global_xact_id : ℕ
  pub global_response_event : ℕ
  pub global_holding_event : ℕ
  pub initialized : Bool
  pub log : List Effect

abbrev pub pool_size : ℕ
pool_size = 256

-- Addresses of the embedded nodes: the objects of the pool, then two list heads for each node.
abbrev pub node_at : ℕ → ℕ
node_at i = i + 1

abbrev pub local_list : ℕ → ℕ
local_list g = pool_size + 1 + 2 * g

abbrev pub remote_list : ℕ → ℕ
remote_list g = pool_size + 2 + 2 * g

abbrev pub put : ℕ → PfcpXact → State → State
put i x s = record s { xacts = λ j. if j == i then x else s.xacts j }

abbrev pub emit : Effect → State → State
emit e s = record s { log = s.log ++ e ∷ [] }

-- A call that is made where the timer exists.
abbrev pub emit_if : ℕ → (ℕ → Effect) → State → State
emit_if timer e s = if timer == 0 then s else emit (e timer) s
