-- ===== src/Xact/Protocol.antt =====
-- The order of the messages of a transaction.
use het_bed.Base.{
  ℕ, ◌+◌, ◌<◌, ◌≡◌, ◌≢◌, inl, inr, Bool, true, false, ◌==◌, if◌then◌else◌, none, some, List, arith,
  Bool-cases, refl, subst, sym,
}
use het_bed.Xact.Types.{
  ok, Stage, unknown_stage, initial_stage, intermediate_stage, final_stage, get_stage, Header,
  PfcpXact, buf_freed, Env, State, put, emit, is_request, is_response,
}
use het_bed.Xact.Exchange.{
  update_tx, tx_allowed, update_rx, rx_verdict, rx_local, rx_remote, Verdict, refuse, duplicate,
  take_in, retransmit, take_message, answer_verdict, seq_at, record_seq, full_packet,
}

-- The exchanges that the protocol allows. The originator sends a request, takes the response, and
-- may send a last message; the other side takes the request, sends the response, and may take a
-- last message. `step` counts the messages of the transaction.
pub data Allowed : ℕ → ℕ → Bool → Stage → ℕ → Type 0 where
  request_out : (o n m : ℕ) → o ≡ 0 → n ≡ 0 → m ≡ 1 → Allowed o n true initial_stage m
  response_in : (o n m : ℕ) → o ≡ 0 → n ≡ 1 → m ≡ 2 → Allowed o n false final_stage m
  last_out : (o n m : ℕ) → o ≡ 0 → n ≡ 2 → m ≡ 3 → Allowed o n true final_stage m
  request_in : (o n m : ℕ) → o ≡ 1 → n ≡ 0 → m ≡ 1 → Allowed o n false initial_stage m
  response_out : (o n m : ℕ) → o ≡ 1 → n ≡ 1 → m ≡ 2 → Allowed o n true final_stage m
  last_in : (o n m : ℕ) → o ≡ 1 → n ≡ 2 → m ≡ 3 → Allowed o n false final_stage m

-- No message has the stage in the middle.
pub get_stage-ne-intermediate : (t : ℕ) → get_stage t ≢ intermediate_stage
unfolding get_stage
get_stage-ne-intermediate t e = absurd (stages (is_request t) (is_response t) e)
  where
    stages :
        (a b : Bool)
        → (if a then initial_stage else if b then final_stage else unknown_stage)
          ≡ intermediate_stage
        → ⊥
    stages true b e = cc
    stages false true e = cc
    stages false false e = cc

refuse≢take_in : {start : Bool} → refuse ≢ take_in start
refuse≢take_in e = cc

tx_allowed-Allowed :
    (o n : ℕ) (g : Stage)
    → g ≢ intermediate_stage
    → tx_allowed o g n ≡ true
    → Allowed o n true g (n + 1)
unfolding tx_allowed
tx_allowed-Allowed o n initial_stage h e =
    request_out o n (n + 1) (ground arith) (ground arith) (ground arith)
tx_allowed-Allowed o n intermediate_stage h e = absurd (h refl)
tx_allowed-Allowed o n final_stage h e = elim (Bool-cases (o == 0)) [
  | inl z ↦ last_out o n (n + 1) (ground arith) (ground arith) (ground arith)
  | inr z ↦ response_out o n (n + 1) (ground arith) (ground arith) (ground arith)
]
tx_allowed-Allowed o n unknown_stage h e = cc

Allowed-tx_allowed : {o n : ℕ} {g : Stage} {m : ℕ} → Allowed o n true g m → tx_allowed o g n ≡ true
unfolding tx_allowed
Allowed-tx_allowed (request_out o n m a b c) = ground arith
Allowed-tx_allowed (last_out o n m a b c) = ground arith
Allowed-tx_allowed (response_out o n m a b c) = ground arith

update_tx-step :
    (env : Env) (i : ℕ) (header : Header) (body : List ℕ) (s s' : State)
    → update_tx env (some i) (some header) (some body) s ≡ (ok, s')
    → (tx_allowed (s.xacts i).origin (get_stage header.type) (s.xacts i).step ≡ true)
      × ((s'.xacts i).step ≡ (s.xacts i).step + 1)
unfolding update_tx
update_tx-step env i header body s s' e = ground arith

-- A message that goes out is one that the protocol allows, and the step counts it.
pub update_tx-Allowed :
    (env : Env) (i : ℕ) (header : Header) (body : List ℕ) (s s' : State)
    → update_tx env (some i) (some header) (some body) s ≡ (ok, s')
    → Allowed (s.xacts i).origin (s.xacts i).step true (get_stage header.type) (s'.xacts i).step
update_tx-Allowed env i header body s s' e =
    let facts = update_tx-step env i header body s s' e in
    subst (Allowed (s.xacts i).origin (s.xacts i).step true (get_stage header.type)) (sym facts.1) (
      tx_allowed-Allowed (s.xacts i).origin (s.xacts i).step (get_stage header.type)
        (get_stage-ne-intermediate header.type) facts.0)

-- A message that the protocol allows goes out, where the transaction has a node and the buffers
-- suffice: the packet stands in the place of its step, and the message's buffer is given back.
pub Allowed-update_tx :
    (env : Env) (i g : ℕ) (header : Header) (body : List ℕ) (s : State) {m : ℕ}
    → (s.xacts i).gnode ≡ some g
    → env.alloc_ok ≡ true
    → env.append_ok ≡ true
    → Allowed (s.xacts i).origin (s.xacts i).step true (get_stage header.type) m
    → update_tx env (some i) (some header) (some body) s ≡ (
      ok,
      put i
          (record_seq (s.xacts i) (record {
            type = header.type;
            buf_blk = some (full_packet header (s.xacts i).transaction_id body);
          }))
          (emit buf_freed s),
    )
unfolding update_tx
Allowed-update_tx env i g header body s hg ha hp al = ground (arith, Allowed-tx_allowed al)

rx_local-Allowed :
    (x : PfcpXact) (g : Stage) (type : ℕ) (start : Bool)
    → x.origin ≡ 0
    → g ≢ intermediate_stage
    → rx_local x g type ≡ take_in start
    → Allowed x.origin x.step false g (x.step + 1)
unfolding rx_local
rx_local-Allowed x initial_stage type start o h e = cc
rx_local-Allowed x intermediate_stage type start o h e = absurd (h refl)
rx_local-Allowed x final_stage type start o h e =
    response_in x.origin x.step (x.step + 1) o (ground arith) (ground arith)
rx_local-Allowed x unknown_stage type start o h e = cc

rx_remote-Allowed :
    (x : PfcpXact) (g : Stage) (type : ℕ) (start : Bool)
    → x.origin ≡ 1
    → rx_remote x g type ≡ take_in start
    → Allowed x.origin x.step false g (x.step + 1)
unfolding rx_remote
rx_remote-Allowed x initial_stage type start o e =
    request_in x.origin x.step (x.step + 1) o (ground arith) (ground arith)
rx_remote-Allowed x intermediate_stage type start o e = cc
rx_remote-Allowed x final_stage type start o e =
    last_in x.origin x.step (x.step + 1) o (ground arith) (ground arith)
rx_remote-Allowed x unknown_stage type start o e = cc

rx_verdict-Allowed :
    (x : PfcpXact) (type : ℕ) (start : Bool)
    → rx_verdict x type ≡ take_in start
    → Allowed x.origin x.step false (get_stage type) (x.step + 1)
unfolding rx_verdict
rx_verdict-Allowed x type start e = elim (Bool-cases (x.origin == 0)) [
  | inl z ↦
      rx_local-Allowed x (get_stage type) type start (ground arith) (get_stage-ne-intermediate type)
        (rw z at e)
  | inr z ↦ elim (Bool-cases (x.origin == 1)) [
    | inl w ↦ rx_remote-Allowed x (get_stage type) type start (ground arith) (rw (z, w) at e)
    | inr w ↦ absurd (refuse≢take_in (rw (z, w) at e))
  ]
]

answer_step :
    (env : Env) (i type : ℕ) (v : Verdict) (s s' : State)
    → answer_verdict env i type v s ≡ (ok, s')
    → ((start : Bool) × (v ≡ take_in start)) × ((s'.xacts i).step ≡ (s.xacts i).step + 1)
unfolding answer_verdict retransmit take_message
answer_step env i type refuse s s' e = absurd (ground arith)
answer_step env i type (duplicate none) s s' e = absurd (ground arith)
answer_step env i type (duplicate (some p)) s s' e = absurd (ground arith)
answer_step env i type (take_in true) s s' e = ((true, refl), ground arith)
answer_step env i type (take_in false) s s' e = ((false, refl), ground arith)

update_rx-step :
    (env : Env) (i type : ℕ) (s s' : State)
    → update_rx env i type s ≡ (ok, s')
    → ((start : Bool) × (rx_verdict (s.xacts i) type ≡ take_in start))
      × ((s'.xacts i).step ≡ (s.xacts i).step + 1)
unfolding update_rx
update_rx-step env i type s s' e = answer_step env i type (rx_verdict (s.xacts i) type) s s' e

-- A message that comes in and is taken is one that the protocol allows, and the step counts it.
pub update_rx-Allowed :
    (env : Env) (i type : ℕ) (s s' : State)
    → update_rx env i type s ≡ (ok, s')
    → Allowed (s.xacts i).origin (s.xacts i).step false (get_stage type) (s'.xacts i).step
update_rx-Allowed env i type s s' e =
    let facts = update_rx-step env i type s s' e in
    subst (Allowed (s.xacts i).origin (s.xacts i).step false (get_stage type)) (sym facts.1)
      (rx_verdict-Allowed (s.xacts i) type facts.0.0 facts.0.1)

-- The three places of `seq` are enough: a message is recorded at a place of its own.
pub Allowed-in_bounds :
    {o n : ℕ} {out : Bool} {g : Stage} {m : ℕ} → Allowed o n out g m → (n < 3) × (m ≡ n + 1)
Allowed-in_bounds (request_out o n m a b c) = omega arith
Allowed-in_bounds (response_in o n m a b c) = omega arith
Allowed-in_bounds (last_out o n m a b c) = omega arith
Allowed-in_bounds (request_in o n m a b c) = omega arith
Allowed-in_bounds (response_out o n m a b c) = omega arith
Allowed-in_bounds (last_in o n m a b c) = omega arith

-- What the object becomes when it takes a message in.
abbrev pub taken : PfcpXact → ℕ → PfcpXact
taken x type = record_seq x (record { type = type; buf_blk = (seq_at x x.step).buf_blk })

answer_taken :
    (env : Env) (i type : ℕ) (v : Verdict) (s s' : State)
    → answer_verdict env i type v s ≡ (ok, s')
    → s'.xacts i ≡ taken (s.xacts i) type
unfolding answer_verdict retransmit take_message
answer_taken env i type refuse s s' e = absurd (ground arith)
answer_taken env i type (duplicate none) s s' e = absurd (ground arith)
answer_taken env i type (duplicate (some p)) s s' e = absurd (ground arith)
answer_taken env i type (take_in true) s s' e = ground arith
answer_taken env i type (take_in false) s s' e = ground arith

pub update_rx-taken :
    (env : Env) (i type : ℕ) (s s' : State)
    → update_rx env i type s ≡ (ok, s')
    → s'.xacts i ≡ taken (s.xacts i) type
unfolding update_rx
update_rx-taken env i type s s' e = answer_taken env i type (rx_verdict (s.xacts i) type) s s' e

-- What the originator takes in is the response, as the second message.
pub Allowed-local_in :
    {o n : ℕ} {out : Bool} {g : Stage} {m : ℕ}
    → Allowed o n out g m
    → o ≡ 0
    → out ≡ false
    → (n ≡ 1) × (g ≡ final_stage)
Allowed-local_in (request_out o n m a b c) z f = cc
Allowed-local_in (response_in o n m a b c) z f = (b, refl)
Allowed-local_in (last_out o n m a b c) z f = cc
Allowed-local_in (request_in o n m a b c) z f = absurd (omega arith)
Allowed-local_in (response_out o n m a b c) z f = cc
Allowed-local_in (last_in o n m a b c) z f = absurd (omega arith)
