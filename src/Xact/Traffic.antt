-- ===== src/Xact/Traffic.antt =====
-- `PfcpXactFind`, `PfcpXactFindByTransactionId`, `PfcpXactReceive`, `PfcpXactCommit`,
-- `PfcpXactTimeout` and `PfcpXactDeleteAll`.
use het_bed.Base.{
  ℕ, zero, suc, ◌+◌, ◌-◌, ◌%◌, ◌^◌, Bool, true, false, ◌==◌, ltb, if◌then◌else◌, Option, none, some,
}
use het_bed.ListHead.{Heap, list_first}
use het_bed.Pool.{Ptr}
use het_bed.Index
use het_bed.Xact.Types.{
  Status, ok, error, again, fault, Stage, unknown_stage, initial_stage, intermediate_stage,
  final_stage, get_stage, sqn2transaction_id, remote_bit, Header, PfcpXact, timer_started, Env,
  State, put, emit_if, local_list, remote_list, pool_size,
}
use het_bed.Xact.Exchange.{seq_at, update_rx, send_to}
use het_bed.Xact.Life.{index_free, remote_create, dispose, delete}

-- Index 0 is refused, though it is the number of an object.
unfoldable pub find : ℕ → Ptr
find index = if index == 0 then none else Index.find index

-- `broken`: a NULL link, or more nodes than objects, so the loop is not on a list.
pub data Found : Type 0 where
  found : ℕ → Found
  absent broken : Found

-- The loop from `it` on. A node is an object, one below its address.
unfoldable pub find_loop : ℕ → (ℕ → PfcpXact) → Heap → ℕ → ℕ → ℕ → Found
find_loop zero xacts links it list id = if it == list then absent else broken
find_loop (suc fuel) xacts links it list id =
    let rest = find_loop fuel xacts links (links.next it) list id in
    if it == list
    then absent
    else if it == 0
    then broken
    else if (xacts (it - 1)).transaction_id == id
    then found (it - 1)
    else rest

unfoldable pub list_of_stage : ℕ → Stage → ℕ → Option ℕ
list_of_stage g initial_stage id = some (remote_list g)
list_of_stage g intermediate_stage id = some (local_list g)
list_of_stage g final_stage id = if remote_bit id then some (remote_list g) else some (local_list g)
list_of_stage g unknown_stage id = none

unfoldable pub find_by_transaction_id : Option ℕ → ℕ → ℕ → State → Found
find_by_transaction_id none type id s = absent
find_by_transaction_id (some g) type id s = elim (list_of_stage g (get_stage type) id) [
  | none ↦ absent
  | some list ↦ find_loop pool_size s.xacts s.links (list_first list s.links) list id
]

-- An object that could not take the message goes back to the pool, one that was found too.
abbrev pub received : ℕ → Status × State → Status × Ptr × State
received i (ok, s) = (ok, some i, s)
received i (error, s) = (error, none, index_free i s)
received i (again, s) = (again, none, index_free i s)
received i (fault, s) = (fault, none, index_free i s)

abbrev pub receive_created : Env → ℕ → Ptr × State → Status × Ptr × State
receive_created env type (none, s) = (error, none, s)
receive_created env type (some i, s) = received i (update_rx env i type s)

unfoldable pub receive : Env → Option ℕ → Header → State → Status × Ptr × State
receive env none header s = (error, none, s)
receive env (some g) header s =
    elim (find_by_transaction_id (some g) header.type (sqn2transaction_id header.sqn) s) [
      | found i ↦ received i (update_rx env i header.type s)
      | absent ↦ receive_created env header.type (remote_create env (some g) header.sqn s)
      | broken ↦ (fault, none, s)
    ]

-- What the switches of `PfcpXactCommit` decide: refuse; delete the transaction; or send its last
-- packet, and start the response timer or not.
pub data Decision : Type 0 where
  stop finish : Decision
  send : Bool → Decision

unfoldable pub commit_local : Stage → ℕ → Decision
commit_local initial_stage step = if step == 1 then send true else stop
commit_local intermediate_stage step = stop
commit_local final_stage step = if step == 2 then finish else if step == 3 then send false else stop
commit_local unknown_stage step = stop

unfoldable pub commit_remote : Stage → ℕ → Decision
commit_remote initial_stage step = stop
commit_remote intermediate_stage step = if step == 2 then send true else stop
commit_remote final_stage step =
    if step == 3 then finish else if step == 2 then send false else stop
commit_remote unknown_stage step = stop

unfoldable pub commit_decision : PfcpXact → Decision
unfolding commit_local commit_remote
commit_decision x =
    let stage = get_stage (seq_at x (x.step - 1)).type in
    if x.origin == 0
    then commit_local stage x.step
    else if x.origin == 1
    then commit_remote stage x.step
    else stop

abbrev pub send_last : Env → PfcpXact → State → Status × State
send_last env x s = elim (seq_at x (x.step - 1)).buf_blk [
  | none ↦ (error, s)
  | some p ↦ (if env.send_ok then ok else error, send_to x.gnode p s)
]

abbrev pub carry_out : Env → ℕ → PfcpXact → Decision → State → Status × State
carry_out env i x stop s = (error, s)
carry_out env i x finish s = (ok, dispose i s)
carry_out env i x (send start) s =
    send_last env x (if start then emit_if x.timer_response timer_started s else s)

-- At step 0 the code reads `seq[-1]`.
unfoldable pub commit : Env → Ptr → State → Status × State
unfolding commit_decision
commit env none s = (error, s)
commit env (some i) s = elim (s.xacts i).gnode [
  | none ↦ (error, s)
  | some g ↦
      if (s.xacts i).step == 0
      then (fault, s)
      else carry_out env i (s.xacts i) (commit_decision (s.xacts i)) s
]

-- A counter of type `uint8_t` goes down by one.
abbrev pub count_down : ℕ → ℕ
count_down n = (n + 2 ^ 8 - 1) % 2 ^ 8

unfoldable pub response_timeout : Env → ℕ → State → Status × State
response_timeout env i s =
    let x = record (s.xacts i) { response_re_count = count_down (s.xacts i).response_re_count } in
    let s1 = put i x s in
    if ltb 0 x.response_re_count
    then elim (seq_at x (x.step - 1)).buf_blk [
      | none ↦ (error, emit_if x.timer_response timer_started s1)
      | some p ↦
          let s2 = send_to x.gnode p (emit_if x.timer_response timer_started s1) in
          if env.send_ok then (ok, s2) else (error, dispose i s2)
    ]
    else (error, dispose i s1)

unfoldable pub holding_timeout : ℕ → State → Status × State
holding_timeout i s =
    let x = record (s.xacts i) { holding_re_count = count_down (s.xacts i).holding_re_count } in
    let s1 = put i x s in
    if ltb 0 x.holding_re_count
    then (ok, emit_if x.timer_holding timer_started s1)
    else (ok, dispose i s1)

-- The first result is what goes through `type`. Any index is taken for that of an object.
unfoldable pub timeout : Env → ℕ → ℕ → State → Option ℕ × (Status × State)
timeout env i event s = elim (s.xacts i).gnode [
  | none ↦ (none, (error, s))
  | some g ↦ if (s.xacts i).step == 0 then (none, (fault, s)) else (
    some (seq_at (s.xacts i) ((s.xacts i).step - 1)).type,
    if event == s.global_response_event
        then response_timeout env i s
        else if event == s.global_holding_event
        then holding_timeout i s
        else (ok, s),
  )
]

-- The next node is read before the body removes this one. Fuel for one more than the objects.
unfoldable pub delete_loop : ℕ → ℕ → ℕ → State → Status × State
delete_loop zero it list s = if it == list then (ok, s) else (fault, s)
delete_loop (suc fuel) it list s =
    let rest = delete_loop fuel (s.links.next it) list (delete (some (it - 1)) s).1 in
    if it == list then (ok, s) else if it == 0 then (fault, s) else rest

abbrev pub then_remote : ℕ → Status × State → Status × State
then_remote g (ok, s) = delete_loop pool_size (list_first (remote_list g) s.links) (remote_list g) s
then_remote g (error, s) = (error, s)
then_remote g (again, s) = (again, s)
then_remote g (fault, s) = (fault, s)

unfoldable pub delete_all : ℕ → State → Status × State
delete_all g s =
    then_remote g (delete_loop pool_size (list_first (local_list g) s.links) (local_list g) s)
