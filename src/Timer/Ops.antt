-- ===== src/Timer/Ops.antt =====
-- The operations of utlt_timer.c, one function each. An operation runs under the lock of its list.
use het_bed.Base.{
  ℕ, zero, suc, ◌+◌, ◌-◌, ◌*◌, Bool, true, false, ltb, ◌==◌, if◌then◌else◌, none, some, List, ◌∷◌,
  set, replicate, u32,
}
use het_bed.ListHead.{Heap, list_head_init, list_first, list_remove, list_insert_sorted}
use het_bed.Pool.{Ptr, Pool}
use het_bed.Pool

abbrev pub max_num_of_timer : ℕ
max_num_of_timer = 1024

-- The number of a timer in the pool is its address less 1; behind the timers stand the heads of the
-- timer lists, two for each list.
abbrev pub node_at : ℕ → ℕ
node_at i = i + 1

abbrev pub active : ℕ → ℕ
active g = max_num_of_timer + 1 + 2 * g

abbrev pub idle : ℕ → ℕ
idle g = max_num_of_timer + 2 + 2 * g

-- TIMER_TYPE_PERIOD and TIMER_TYPE_ONCE.
abbrev pub period : ℕ
period = 0

abbrev pub once : ℕ
once = 1

-- `timer_list` is the number of the list; an `expire_func` is a number too.
pub record TimerBlk : Type 0 where
  pub timer_list : ℕ
  pub type : ℕ
  pub is_running : Bool
  pub expire_time : ℕ
  pub duration : ℕ
  pub expire_func : ℕ
  pub param : List ℕ

-- The pool, the timers and the links; `fired` is the calls of `expireFunc` so far, the last one
-- first, as timer numbers. The function runs under the lock and cannot change the lists.
pub record State : Type 0 where
  pub pool : Pool
  pub blks : ℕ → TimerBlk
  pub links : Heap
  pub fired : List ℕ

abbrev pub put : ℕ → TimerBlk → State → State
put i b s = record s { blks = λ j. if j == i then b else s.blks j }

-- `TimerCmpFunc`, its answer `< 0`.
abbrev pub timer_before : (ℕ → TimerBlk) → ℕ → ℕ → Bool
timer_before blks a b = ltb (blks (a - 1)).expire_time (blks (b - 1)).expire_time

abbrev pub insert_sorted : ℕ → ℕ → State → State
insert_sorted i list s = record s {
  links = list_insert_sorted max_num_of_timer (timer_before s.blks) (node_at i) list s.links;
}

abbrev pub remove : ℕ → State → State
remove i s = record s { links = list_remove (node_at i) s.links }

unfoldable pub timer_pool_init : Ptr → State → State
timer_pool_init rest s = record s { pool = Pool.init max_num_of_timer rest }

unfoldable pub timer_get_pool_size : State → ℕ
timer_get_pool_size s = Pool.size s.pool

unfoldable pub timer_list_init : ℕ → State → State
timer_list_init g s = record s {
  links = list_head_init (idle g) (list_head_init (active g) s.links);
}

-- `now` is `TimeMsec(TimeNow())`, cut to `uint32_t`.
unfoldable pub timer_start : ℕ → ℕ → State → State
timer_start now i s =
    let s1 = remove i s in
    let b = record (s1.blks i) { expire_time = u32 (u32 now + (s1.blks i).duration) } in
    let s2 = insert_sorted i (active b.timer_list) (put i b s1) in
    put i (record b { is_running = true }) s2

unfoldable pub timer_stop : ℕ → State → State
timer_stop i s =
    let b = s.blks i in
    let s1 = insert_sorted i (idle b.timer_list) (remove i s) in
    if b.is_running then put i (record b { is_running = false }) s1 else s

-- `memset`, and what is set before the insertion and after it.
abbrev pub new_timer : ℕ → TimerBlk
new_timer g = record {
  timer_list = g;
  type = 0;
  is_running = false;
  expire_time = 0;
  duration = 0;
  expire_func = 0;
  param = replicate 6 0;
}

abbrev pub timer_create_at : ℕ → ℕ → ℕ → ℕ → Ptr × Pool → State → Ptr × State
timer_create_at g type duration func (none, p) s = (none, record s { pool = p })
timer_create_at g type duration func (some i, p) s =
    let s1 = insert_sorted i (idle g) (put i (new_timer g) (record s { pool = p })) in
    (some i, put i (record (s1.blks i) { type = type; duration = duration; expire_func = func }) s1)

unfoldable pub timer_create : ℕ → ℕ → ℕ → ℕ → State → Ptr × State
timer_create g type duration func s =
    timer_create_at g type (u32 duration) func (Pool.alloc s.pool) s

unfoldable pub timer_delete : ℕ → State → State
timer_delete i s = let s1 = remove i s in record s1 { pool = Pool.free s1.pool (some i) }

-- `TimerSet`; a negative index is refused as well.
unfoldable pub timer_set : ℕ → ℕ → ℕ → State → Bool × State
timer_set param_id i param s =
    if ltb param_id 6
    then (true, put i (record (s.blks i) { param = set (s.blks i).param param_id param }) s)
    else (false, s)

-- A round of the loop of `TimerExpireCheck` at a timer that is due.
unfoldable pub expire : ℕ → ℕ → ℕ → State → State
expire now g i s =
    let s1 = record s { fired = i ∷ s.fired } in
    let b = s1.blks i in
    let s2 = remove i s1 in
    if b.is_running
    then if b.type == period
      then insert_sorted i (active g) (put i (record b { expire_time = u32 (now + b.duration) }) s2)
      else put i (record b { is_running = false }) (insert_sorted i (idle g) s2)
    else s1

-- The loop; the Boolean says whether it has ended when the fuel is spent.
unfoldable pub expire_loop : ℕ → ℕ → ℕ → State → Bool × State
unfolding expire
expire_loop zero now g s = (false, s)
expire_loop (suc fuel) now g s =
    let it = list_first (active g) s.links in
    let rest = expire_loop fuel now g (expire now g (it - 1) s) in
    if it == active g
    then (true, s)
    else if ltb (s.blks (it - 1)).expire_time now
    then rest
    else (true, s)

unfoldable pub timer_expire_check : ℕ → ℕ → ℕ → State → Bool × State
timer_expire_check fuel now g s = expire_loop fuel (u32 now) g s
