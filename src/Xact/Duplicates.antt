-- ===== src/Xact/Duplicates.antt =====
-- A request that comes again.
use het_bed.Base.{
  ℕ, ◌≡◌, inl, inr, refl, ap, ◌∙◌, subst, sym, ◌+◌, Bool, true, false, ◌==◌, ==_refl, if◌then◌else◌,
  if-cases, Option, none, some, List, [], ◌∷◌, arith, Bool-cases,
}
use het_bed.Pool.{Ptr}
use het_bed.Index
use het_bed.Index.{Index}
use het_bed.ListHead.{list_first}
use het_bed.Xact.Types.{
  ok, error, again, Stage, initial_stage, get_stage, Header, Packet, no_seq, PfcpXact, sent,
  timer_started, timer_set, put, Env, State, emit, emit_if, sqn2transaction_id, pool_size,
}
use het_bed.Xact.Exchange.{
  update_rx, update_tx, full_packet, record_seq, rx_verdict, duplicate, seq_at,
}
use het_bed.Xact.Life.{
  index_free, remote_create, remote_create_at, remote_response, remote_holding, remote_link,
  remote_object, response_part, holding_part, clear_object,
}
use het_bed.Xact.Protocol.{
  Allowed, request_out, response_in, last_out, request_in, response_out, last_in, update_rx-Allowed,
  taken, update_rx-taken,
}
use het_bed.Xact.Traffic.{found, absent, find_loop, list_of_stage, find_by_transaction_id, receive}

-- The transaction has taken this request, and answered it with the packet.
pub record Answered (x : PfcpXact) (type g : ℕ) (p : Packet) : Type 0 where
  pub from_peer : x.origin ≡ 1
  pub request : get_stage type ≡ initial_stage
  pub same_type : (seq_at x 0).type ≡ type
  pub at_step : x.step ≡ 2
  pub answer : (seq_at x 1).buf_blk ≡ some p
  pub node : x.gnode ≡ some g

verdict-duplicate :
    {x : PfcpXact} {type g : ℕ} {p : Packet}
    → Answered x type g p
    → rx_verdict x type ≡ duplicate (some p)
unfolding rx_verdict
verdict-duplicate {x} {type} {g} {p} a = rw (a.request, rx_verdict) (ground arith)

-- The state after the answer has been sent once more.
abbrev pub resent : ℕ → ℕ → Packet → State → State
resent i g p s = emit (sent g p) (emit_if (s.xacts i).timer_holding timer_started s)

resent_frame :
    (i g : ℕ) (p : Packet) (s : State)
    → let s' = resent i g p s in (s'.table ≡ s.table) × (s'.xacts ≡ s.xacts) × (s'.links ≡ s.links)
resent_frame i g p s = elim (Bool-cases ((s.xacts i).timer_holding == 0)) [
  | inl e ↦ rw e (refl, refl, refl)
  | inr e ↦ rw e (refl, refl, refl)
]

repeat_once :
    (env : Env) (i type g : ℕ) (p : Packet) (s : State)
    → Answered (s.xacts i) type g p
    → update_rx env i type s ≡ (if env.send_ok then again else error, resent i g p s)
unfolding update_rx
repeat_once env i type g p s a = rw (verdict-duplicate a, a.node)

-- A transaction of the peer before its first message.
record IsBegun (g sqn : ℕ) (x : PfcpXact) : Type 0 where
  origin : x.origin ≡ 1
  node : x.gnode ≡ some g
  identifier : x.transaction_id ≡ sqn2transaction_id sqn
  step : x.step ≡ 0
  places : x.seq ≡ no_seq ∷ no_seq ∷ no_seq ∷ []

abbrev Begun : ℕ → ℕ → ℕ → State → Type 0
Begun g sqn i s = IsBegun g sqn (s.xacts i)

put-IsBegun : (g sqn i : ℕ) (x : PfcpXact) (s : State) → IsBegun g sqn x → Begun g sqn i (put i x s)
put-IsBegun g sqn i x s b = rw (==_refl i) b

object-IsBegun : (g sqn : ℕ) → IsBegun g sqn (remote_object g sqn)
unfolding remote_object
object-IsBegun g sqn = record {
  origin = refl;
  node = refl;
  identifier = refl;
  step = refl;
  places = refl;
}

response_part-IsBegun :
    (env : Env) (g sqn i : ℕ) (s : State)
    → Begun g sqn i s
    → Begun g sqn i (response_part env i s).1
unfolding response_part
response_part-IsBegun env g sqn i s b =
    let goal = λ (r : Bool × State). Begun g sqn i r.1 in
    if-cases goal (s.global_response_event == 0) _ _ (λ _. b)
      (λ _.
        if-cases goal (env.response_timer == 0) _ _ (λ _. b)
          (λ _.
            put-IsBegun g sqn i
              (record (s.xacts i) { timer_response = env.response_timer; response_re_count = 3 })
              (emit (timer_set env.response_timer (s.table.index_of i)) s)
              (record {
                origin = b.origin;
                node = b.node;
                identifier = b.identifier;
                step = b.step;
                places = b.places;
              })))

holding_part-IsBegun :
    (env : Env) (g sqn i : ℕ) (s : State) → Begun g sqn i s → Begun g sqn i (holding_part env i s).1
unfolding holding_part
holding_part-IsBegun env g sqn i s b =
    let goal = λ (r : Bool × State). Begun g sqn i r.1 in
    if-cases goal (s.global_holding_event == 0) _ _ (λ _. b)
      (λ _.
        if-cases goal (env.holding_timer == 0) _ _ (λ _. b)
          (λ _.
            put-IsBegun g sqn i
              (record (s.xacts i) { timer_holding = env.holding_timer; holding_re_count = 1 })
              (emit (timer_set env.holding_timer (s.table.index_of i)) s)
              (record {
                origin = b.origin;
                node = b.node;
                identifier = b.identifier;
                step = b.step;
                places = b.places;
              })))

-- What a creation that succeeds leaves at its object.
Makes : ℕ → ℕ → Ptr × State → Type 0
Makes g sqn (none, s) = Unit
Makes g sqn (some i, s) = Begun g sqn i s

remote_holding-Makes :
    (g sqn i : ℕ) (r : Bool × State) → Begun g sqn i r.1 → Makes g sqn (remote_holding i g r)
unfolding Makes remote_link
remote_holding-Makes g sqn i (true, s) b = b
remote_holding-Makes g sqn i (false, s) b = tt

remote_response-Makes :
    (env : Env) (g sqn i : ℕ) (r : Bool × State)
    → Begun g sqn i r.1
    → Makes g sqn (remote_response env i g r)
unfolding Makes
remote_response-Makes env g sqn i (true, s) b =
    remote_holding-Makes g sqn i (holding_part env i s) (holding_part-IsBegun env g sqn i s b)
remote_response-Makes env g sqn i (false, s) b = tt

remote_create_at-Makes :
    (env : Env) (g sqn : ℕ) (s : State) (r : Ptr × Index)
    → Makes g sqn (remote_create_at env g sqn s r)
unfolding Makes
remote_create_at-Makes env g sqn s (none, t) = tt
remote_create_at-Makes env g sqn s (some i, t) =
    let s0 = put i (remote_object g sqn) (clear_object i t s) in
    remote_response-Makes env g sqn i (response_part env i s0) (
      response_part-IsBegun env g sqn i s0
        (put-IsBegun g sqn i (remote_object g sqn) (clear_object i t s) (object-IsBegun g sqn)))

remote_create-IsBegun :
    (env : Env) (g sqn i : ℕ) (s s0 : State)
    → remote_create env (some g) sqn s ≡ (some i, s0)
    → Begun g sqn i s0
unfolding remote_create Makes
remote_create-IsBegun env g sqn i s s0 e =
    subst (Makes g sqn) e (remote_create_at-Makes env g sqn s (Index.alloc s.table))

sent_answer :
    (env : Env) (i : ℕ) (header : Header) (body : List ℕ) (s s' : State)
    → update_tx env (some i) (some header) (some body) s ≡ (ok, s')
    → s'.xacts i
      ≡ record_seq (s.xacts i) (record {
        type = header.type;
        buf_blk = some (full_packet header (s.xacts i).transaction_id body);
      })
unfolding update_tx
sent_answer env i header body s s' e = ground arith

-- A message that the object takes at step 0 of the peer's side is a request.
first_in-request :
    {o n : ℕ} {out : Bool} {st : Stage} {m : ℕ}
    → Allowed o n out st m
    → o ≡ 1
    → n ≡ 0
    → out ≡ false
    → st ≡ initial_stage
first_in-request (request_out o n m a b c) ho hn f = cc
first_in-request (response_in o n m a b c) ho hn f = absurd (omega arith)
first_in-request (last_out o n m a b c) ho hn f = cc
first_in-request (request_in o n m a b c) ho hn f = refl
first_in-request (response_out o n m a b c) ho hn f = cc
first_in-request (last_in o n m a b c) ho hn f = absurd (omega arith)

reply-Answered :
    (g sqn type : ℕ) (answer : Header) (body : List ℕ) (x : PfcpXact)
    → IsBegun g sqn x
    → get_stage type ≡ initial_stage
    → Answered
        (record_seq (taken x type) (record {
          type = answer.type;
          buf_blk = some (full_packet answer x.transaction_id body);
        }))
        type
        g
        (full_packet answer (sqn2transaction_id sqn) body)
reply-Answered g sqn type answer body x b request = record {
  from_peer = b.origin;
  request = request;
  same_type = rw (b.step, b.places) refl;
  at_step = ap (λ n. n + 1 + 1) b.step;
  answer = rw (b.step, b.places) (ap (λ t. some (full_packet answer t body)) b.identifier);
  node = b.node;
}

-- A request of a peer makes a transaction, which takes it and sends an answer. When the same request
-- comes again, `PfcpXactUpdateRx` sends that answer once more, with the identifier of the request, and
-- says so by STATUS_EAGAIN (STATUS_ERROR if the socket refuses); the holding timer starts again if there
-- is one, and the pool, the transactions and the lists stay as they are.
pub update_rx_duplicate :
    (env : Env) (i g sqn type : ℕ) (answer : Header) (body : List ℕ) (s s0 s1 s2 : State)
    → remote_create env (some g) sqn s ≡ (some i, s0)
    → update_rx env i type s0 ≡ (ok, s1)
    → update_tx env (some i) (some answer) (some body) s1 ≡ (ok, s2)
    → let s3 = resent i g (full_packet answer (sqn2transaction_id sqn) body) s2 in
      (update_rx env i type s2 ≡ (if env.send_ok then again else error, s3))
      × (s3.table ≡ s2.table)
      × (s3.xacts ≡ s2.xacts)
      × (s3.links ≡ s2.links)
update_rx_duplicate env i g sqn type answer body s s0 s1 s2 made took sent_it =
    let b = remote_create-IsBegun env g sqn i s s0 made in
    let x0 = s0.xacts i in
    let p = full_packet answer (sqn2transaction_id sqn) body in
    let request = first_in-request (update_rx-Allowed env i type s0 s1 took) b.origin b.step refl in
    let reply = λ (x : PfcpXact).
      record_seq x (record {
        type = answer.type;
        buf_blk = some (full_packet answer x.transaction_id body);
      }) in
    let now : s2.xacts i ≡ reply (taken x0 type) =
      sent_answer env i answer body s1 s2 sent_it
      ∙ ap reply (update_rx-taken env i type s0 s1 took) in
    let a : Answered (s2.xacts i) type g p =
      subst (λ x. Answered x type g p) (sym now)
        (reply-Answered g sqn type answer body x0 b request) in
    let same = resent_frame i g p s2 in (repeat_once env i type g p s2 a, same.0, same.1, same.2)

find_by_transaction_id-same :
    (g : Option ℕ) (type id : ℕ) (s t : State)
    → s.xacts ≡ t.xacts
    → s.links ≡ t.links
    → find_by_transaction_id g type id s ≡ find_by_transaction_id g type id t
unfolding find_by_transaction_id
find_by_transaction_id-same none type id s t ex el = refl
find_by_transaction_id-same (some g) type id s t ex el = λ k.
    elim (list_of_stage g (get_stage type) id) [
      | none ↦ absent
      | some list ↦ find_loop pool_size (ex k) (el k) (list_first list (el k)) list id
    ]

-- `PfcpXactReceive` gives the object of the answered transaction back to the pool when the request
-- comes again, and leaves it in the peer's list, where the next lookup finds it: an object that is
-- free and in use.
pub receive_duplicate_frees :
    (env : Env) (g : ℕ) (header : Header) (i g' : ℕ) (p : Packet) (s : State)
    → env.send_ok ≡ true
    → find_by_transaction_id (some g) header.type (sqn2transaction_id header.sqn) s ≡ found i
    → Answered (s.xacts i) header.type g' p
    → let s' = index_free i (resent i g' p s) in
      (receive env (some g) header s ≡ (again, none, s'))
      × (s'.table ≡ Index.free s.table (some i))
      × (find_by_transaction_id (some g) header.type (sqn2transaction_id header.sqn) s' ≡ found i)
unfolding receive index_free
receive_duplicate_frees env g header i g' p s hs hf a =
    let same = resent_frame i g' p s in
    (
      rw (hf, receive, repeat_once env i header.type g' p s a, hs),
      ap (λ t. Index.free t (some i)) same.0,
      find_by_transaction_id-same (some g) header.type (sqn2transaction_id header.sqn) _ s same.1
            same.2
          ∙ hf,
    )
