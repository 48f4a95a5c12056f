-- ===== src/Xact/Tests.antt =====
-- The theorems about transactions at concrete states.
use het_bed.Base.{
  ℕ, ◌≡◌, inr, refl, true, false, ◌==◌, if◌then◌else◌, none, some, List, [], ◌∷◌, arith,
}
use het_bed.Index
use het_bed.Pool
use het_bed.Index.{Index}
use het_bed.ListHead.Chain.{IsList}
use het_bed.Xact.Types.{
  ok, again, get_stage, Header, no_seq, PfcpXact, cleared, Env, State, emit, buf_freed, put,
  sqn2transaction_id,
}
use het_bed.Xact.Exchange.{update_tx, update_rx, tx_allowed, full_packet, record_seq}
use het_bed.Xact.Life.{local_create, local_setup, remote_create, delete}
use het_bed.Xact.Traffic.{find_by_transaction_id}
use het_bed.Xact.Protocol.{
  Allowed, request_out, update_tx-Allowed, Allowed-update_tx, update_rx-Allowed,
}
use het_bed.Xact.Identifiers.{IsLocalId, IsCounter, local_create-IsLocalId}
use het_bed.Xact.Lookup.{first_with, Holds, find_by_transaction_id_lem}
use het_bed.Xact.Duplicates.{resent, update_rx_duplicate}
use het_bed.Xact.Ending.{delete_lem}
use het_bed.Xact.Timers.{Waits, GivesUp, expire-GivesUp}

abbrev all_well : Env
all_well = record {
  alloc_ok = true;
  append_ok = true;
  send_ok = true;
  response_timer = 11;
  holding_timer = 12;
}

abbrev two_objects : Index
two_objects = record {
  queue = record { front = 0; end = 2; cap = 2; queue_avail = some 0 ∷ some 1 ∷ none ∷ [] };
  array_for_index = 0 ∷ 1 ∷ 0 ∷ [];
  index_of = λ i. i;
}

-- Every list is empty.
abbrev idle : State
idle = record {
  table = two_objects;
  xacts = λ i. cleared;
  links = record { next = λ a. a; prev = λ a. a };
  global_xact_id = 7;
  global_response_event = 0;
  global_holding_event = 0;
  initialized = true;
  log = [];
}

-- PFCP_SESSION_REPORT_REQUEST.
abbrev report : Header
report = record { type = 56; seid = 3; sqn = 0 }

abbrev body : List ℕ
body = 1 ∷ 2 ∷ []

-- A local transaction before its first message, as `PfcpXactLocalCreate` sets it up.
abbrev begun : PfcpXact
begun = record cleared { gnode = some 0; transaction_id = 7 }

abbrev with_begun : State
with_begun = record idle { xacts = λ i. begun }

abbrev sent_report : PfcpXact
sent_report = record_seq begun (record { type = 56; buf_blk = some (full_packet report 7 body) })

abbrev with_sent : State
with_sent = record idle { xacts = λ i. sent_report }

tx_result : State
unfolding update_tx
tx_result = (update_tx all_well (some 0) (some report) (some body) with_begun).1

tx_result-eq : update_tx all_well (some 0) (some report) (some body) with_begun ≡ (ok, tx_result)
unfolding tx_result tx_allowed get_stage
tx_result-eq = refl

update_tx-Allowed_example : Allowed 0 0 true (get_stage 56) (tx_result.xacts 0).step
update_tx-Allowed_example =
    update_tx-Allowed all_well 0 report body with_begun tx_result tx_result-eq

may_send : Allowed 0 0 true (get_stage 56) 1
unfolding get_stage
may_send = request_out 0 0 1 refl refl refl

Allowed-update_tx_example :
    update_tx all_well (some 0) (some report) (some body) with_begun
    ≡ (ok, put 0 sent_report (emit buf_freed with_begun))
Allowed-update_tx_example =
    Allowed-update_tx all_well 0 0 report body with_begun refl refl refl may_send

rx_result : State
unfolding update_rx
rx_result = (update_rx all_well 0 57 with_sent).1

rx_result-eq : update_rx all_well 0 57 with_sent ≡ (ok, rx_result)
unfolding rx_result get_stage
rx_result-eq = refl

update_rx-Allowed_example : Allowed 0 1 false (get_stage 57) (rx_result.xacts 0).step
update_rx-Allowed_example = update_rx-Allowed all_well 0 57 with_sent rx_result rx_result-eq

created : State
unfolding local_create Index.alloc Pool.size
created = (local_create all_well (some 0) (some report) (some body) idle).1

created-eq : local_create all_well (some 0) (some report) (some body) idle ≡ (some 0, created)
unfolding created update_tx tx_allowed get_stage local_setup
created-eq = refl

local_create-IsLocalId_example : IsLocalId (created.xacts 0).transaction_id × IsCounter created
local_create-IsLocalId_example =
    local_create-IsLocalId all_well 0 (some report) (some body) idle 0 created (omega arith)
      created-eq

-- The peer's list of node 0 holds the object 1, which has the identifier 9.
abbrev peer : PfcpXact
peer = record cleared {
  origin = 1;
  transaction_id = 9;
  gnode = some 0;
  step = 2;
  seq =
      record { type = 50; buf_blk = none }
      ∷ record { type = 51; buf_blk = some (full_packet report 9 body) }
      ∷ no_seq
      ∷ [];
  timer_response = 11;
  response_re_count = 3;
}

abbrev with_peer : State
with_peer = record idle {
  xacts = λ i. if i == 1 then peer else cleared;
  links = record {
    next = λ a. if a == 258 then 2 else if a == 2 then 258 else a;
    prev = λ a. if a == 258 then 2 else if a == 2 then 258 else a;
  };
}

peer_listed : IsList with_peer.links 258 (2 ∷ [])
peer_listed = record {
  links = (refl, refl, (refl, refl));
  distinct = (((λ e. omega (arith, e)), tt), (tt, tt));
}

-- Every other list is empty.
peer_theirs : Holds with_peer 258 (2 ∷ [])
peer_theirs = record {
  chain = peer_listed;
  objects = ((λ e. omega (arith, e)), tt);
  few = omega arith;
}

peer_ours : Holds with_peer 257 []
peer_ours = record {
  chain = record { links = (refl, refl); distinct = (tt, tt) };
  objects = tt;
  few = omega arith;
}

find_by_transaction_id_lem_example :
    find_by_transaction_id (some 0) 50 9 with_peer ≡ first_with with_peer.xacts 9 (2 ∷ [])
find_by_transaction_id_lem_example =
    find_by_transaction_id_lem 0 50 9 with_peer [] (2 ∷ []) (omega arith) peer_ours peer_theirs

abbrev establish : Header
establish = record { type = 50; seid = 3; sqn = 0x90000 }

-- The request of a peer, taken and answered.
met : State
unfolding remote_create Index.alloc Pool.size
met = (remote_create all_well (some 0) establish.sqn idle).1

met-eq : remote_create all_well (some 0) establish.sqn idle ≡ (some 0, met)
unfolding met sqn2transaction_id
met-eq = refl

met_taken : State
unfolding update_rx
met_taken = (update_rx all_well 0 50 met).1

met_taken-eq : update_rx all_well 0 50 met ≡ (ok, met_taken)
unfolding met_taken met get_stage
met_taken-eq = refl

-- PFCP_SESSION_ESTABLISHMENT_RESPONSE.
abbrev response : Header
response = record { type = 51; seid = 3; sqn = 0 }

met_answered : State
unfolding update_tx
met_answered = (update_tx all_well (some 0) (some response) (some body) met_taken).1

met_answered-eq :
    update_tx all_well (some 0) (some response) (some body) met_taken ≡ (ok, met_answered)
unfolding met_answered met_taken met tx_allowed get_stage
met_answered-eq = refl

update_rx_duplicate_example :
    let s3 =
      resent 0 0 (full_packet response (sqn2transaction_id establish.sqn) body) met_answered in
    (update_rx all_well 0 50 met_answered ≡ (again, s3))
    × (s3.table ≡ met_answered.table)
    × (s3.xacts ≡ met_answered.xacts)
    × (s3.links ≡ met_answered.links)
update_rx_duplicate_example =
    update_rx_duplicate all_well 0 0 establish.sqn 50 response body idle met met_taken met_answered
      met-eq met_taken-eq met_answered-eq

delete_lem_example :
    let (status, s') = delete (some 1) with_peer in
    (status ≡ ok) × IsList s'.links 258 [] × (s'.table ≡ Index.free with_peer.table (some 1))
delete_lem_example = delete_lem 1 0 258 [] [] with_peer refl (inr refl) peer_listed

peer-Waits : Waits (with_peer.xacts 1) 0 11 (full_packet report 9 body) 3
peer-Waits = record {
  node = refl;
  begun = λ e. omega (arith, e);
  last = refl;
  clock = refl;
  runs = λ e. omega (arith, e);
  left = refl;
  origin = inr refl;
}

expire-GivesUp_example : GivesUp 2 all_well 1 0 11 (full_packet report 9 body) 258 [] [] with_peer
expire-GivesUp_example =
    expire-GivesUp 2 all_well 1 0 11 258 (full_packet report 9 body) [] [] with_peer peer-Waits
      (omega arith) refl peer_listed
