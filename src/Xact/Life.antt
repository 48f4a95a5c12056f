-- ===== src/Xact/Life.antt =====
-- `PfcpXactInit` and `PfcpXactTerminate`, and the life of a transaction: `PfcpXactLocalCreate`,
-- `PfcpXactRemoteCreate`, `PfcpXactAssociate`, `PfcpXactDeassociate`, `PfcpXactDelete`.
use het_bed.Base.{
  ℕ, ◌+◌, Bool, true, false, not, ◌==◌, ◌||◌, ◌&&◌, leb, if◌then◌else◌, Option, none, some, List,
  [], ◌∷◌,
}
use het_bed.ListHead.{set_next, set_prev, list_head_init, list_insert, list_remove}
use het_bed.Pool.{Ptr}
use het_bed.Index
use het_bed.Index.{Index}
use het_bed.Xact.Types.{
  Status, ok, error, again, fault, sqn2transaction_id, Header, Seq, PfcpXact, cleared,
  timer_deleted, timer_set, buf_freed, Env, State, put, emit, emit_if, node_at, local_list,
  remote_list, pool_size, min_xact_id, max_xact_id,
}
use het_bed.Xact.Exchange.{update_tx}

-- The arrays of the pool are the static ones; their last cells hold what they held.
unfoldable pub init : ℕ → ℕ → State → Status × State
init response_event holding_event s = if s.initialized then (error, s) else (
  ok,
  record s {
    table = Index.init pool_size none 0 s.table.index_of;
    global_xact_id = 1;
    global_response_event = response_event;
    global_holding_event = holding_event;
    initialized = true;
  },
)

unfoldable pub terminate : State → Status × State
terminate s = if s.initialized then (ok, record s { initialized = false }) else (error, s)

-- `IndexFree(&pfcpXactPool, xact)`
unfoldable pub index_free : ℕ → State → State
index_free i s = record s { table = Index.free s.table (some i) }

-- `IndexAlloc` clears the whole object, its list node too.
unfoldable pub clear_object : ℕ → Index → State → State
clear_object i t s = record s {
  table = t;
  xacts = λ j. if j == i then cleared else s.xacts j;
  links = set_prev (node_at i) 0 (set_next (node_at i) 0 s.links);
}

abbrev pub link : ℕ → ℕ → State → State
link i list s = record s { links = list_insert (node_at i) list s.links }

-- The next identifier: 1 again when PFCP_MAX_XACT_ID is reached.
unfoldable pub next_id : ℕ → ℕ
next_id g = if leb max_xact_id g then min_xact_id else g

unfoldable pub local_object : ℕ → ℕ → PfcpXact
local_object g id = record cleared { origin = 0; gnode = some g; transaction_id = id }

unfoldable pub local_setup : ℕ → ℕ → Index → State → State
unfolding clear_object local_object next_id
local_setup i g t s =
    let id = next_id s.global_xact_id in
    link i (local_list g)
      (put i (local_object g id) (record (clear_object i t s) { global_xact_id = id + 1 }))

-- The object that did not get its first message goes back to the pool.
abbrev pub keep_if_ok : ℕ → Status × State → Ptr × State
keep_if_ok i (ok, s) = (some i, s)
keep_if_ok i (error, s) = (none, index_free i s)
keep_if_ok i (again, s) = (none, index_free i s)
keep_if_ok i (fault, s) = (none, index_free i s)

abbrev pub local_create_at :
    Env → ℕ → Option Header → Option (List ℕ) → State → Ptr × Index → Ptr × State
local_create_at env g header body s (none, t) = (none, record s { table = t })
local_create_at env g header body s (some i, t) =
    keep_if_ok i (update_tx env (some i) header body (local_setup i g t s))

unfoldable pub local_create : Env → Option ℕ → Option Header → Option (List ℕ) → State → Ptr × State
local_create env none header body s = (none, s)
local_create env (some g) header body s = local_create_at env g header body s (Index.alloc s.table)

unfoldable pub remote_object : ℕ → ℕ → PfcpXact
remote_object g sqn = record cleared {
  origin = 1;
  gnode = some g;
  transaction_id = sqn2transaction_id sqn;
}

-- The two timers. PARAM2 of each is the object's index. When the second one cannot be created the
-- first one stays.
unfoldable pub response_part : Env → ℕ → State → Bool × State
response_part env i s =
    let x = s.xacts i in
    if s.global_response_event == 0
    then (true, s)
    else if env.response_timer == 0
    then (false, s)
    else (
      true,
      put i (record x { timer_response = env.response_timer; response_re_count = 3 })
          (emit (timer_set env.response_timer (s.table.index_of i)) s),
    )

unfoldable pub holding_part : Env → ℕ → State → Bool × State
holding_part env i s =
    let x = s.xacts i in
    if s.global_holding_event == 0
    then (true, s)
    else if env.holding_timer == 0
    then (false, s)
    else (
      true,
      put i (record x { timer_holding = env.holding_timer; holding_re_count = 1 })
          (emit (timer_set env.holding_timer (s.table.index_of i)) s),
    )

-- The list head is initialised anew before the object is linked.
unfoldable pub remote_link : ℕ → ℕ → State → State
remote_link i g s =
    link i (remote_list g) (record s { links = list_head_init (remote_list g) s.links })

abbrev pub remote_holding : ℕ → ℕ → Bool × State → Ptr × State
remote_holding i g (true, s) = (some i, remote_link i g s)
remote_holding i g (false, s) = (none, index_free i s)

abbrev pub remote_response : Env → ℕ → ℕ → Bool × State → Ptr × State
remote_response env i g (true, s) = remote_holding i g (holding_part env i s)
remote_response env i g (false, s) = (none, index_free i s)

abbrev pub remote_create_at : Env → ℕ → ℕ → State → Ptr × Index → Ptr × State
remote_create_at env g sqn s (none, t) = (none, record s { table = t })
remote_create_at env g sqn s (some i, t) =
    remote_response env i g (response_part env i (put i (remote_object g sqn) (clear_object i t s)))

unfoldable pub remote_create : Env → Option ℕ → ℕ → State → Ptr × State
unfolding remote_object clear_object response_part holding_part remote_link
remote_create env none sqn s = (none, s)
remote_create env (some g) sqn s = remote_create_at env g sqn s (Index.alloc s.table)

abbrev pub is_none : Ptr → Bool
is_none none = true
is_none (some i) = false

abbrev pub set_associated : ℕ → Ptr → State → State
set_associated i p s = put i (record (s.xacts i) { associated_xact = p }) s

unfoldable pub associate : ℕ → ℕ → State → State
associate i j s =
    if is_none (s.xacts i).associated_xact && is_none (s.xacts j).associated_xact
    then set_associated j (some i) (set_associated i (some j) s)
    else s

unfoldable pub deassociate : ℕ → ℕ → State → State
deassociate i j s =
    if not (is_none (s.xacts i).associated_xact) && not (is_none (s.xacts j).associated_xact)
    then set_associated j none (set_associated i none s)
    else s

-- A buffer that is there is given back.
abbrev pub free_buf : Seq → State → State
free_buf q s = elim q.buf_blk [ none ↦ s | some p ↦ emit buf_freed s ]

abbrev pub free_bufs : List Seq → State → State
free_bufs [] s = s
free_bufs (q ∷ qs) s = free_bufs qs (free_buf q s)

abbrev pub untyped : List Seq → List Seq
untyped [] = []
untyped (q ∷ qs) = record q { type = 0 } ∷ untyped qs

abbrev pub part : ℕ → State → State
part i s = elim (s.xacts i).associated_xact [ none ↦ s | some j ↦ deassociate i j s ]

-- From the removal of the node on. The three buffers stay in the object after they are given back.
unfoldable pub dispose : ℕ → State → State
unfolding deassociate index_free
dispose i s =
    let x = s.xacts i in
    let s1 =
      if x.origin == 0 || x.origin == 1
      then record s { links = list_remove (node_at i) s.links }
      else s in
    let s2 =
      put i (record x { origin = 0; transaction_id = 0; step = 0; seq = untyped x.seq }) s1 in
    let s3 = free_bufs x.seq s2 in
    let s4 = emit_if x.timer_holding timer_deleted (emit_if x.timer_response timer_deleted s3) in
    index_free i (part i s4)

unfoldable pub delete : Ptr → State → Status × State
unfolding dispose
delete none s = (error, s)
delete (some i) s = elim (s.xacts i).gnode [ none ↦ (error, s) | some g ↦ (ok, dispose i s) ]
