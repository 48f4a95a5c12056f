-- ===== src/Timer/Moves.antt =====
-- `TimerStart` and `TimerStop`: how a timer moves between the lists.
use het_bed.Base.{
  ℕ, suc, ◌+◌, ◌≡◌, ◌<◌, refl, sym, ap, subst, List, [], ◌∷◌, ◌++◌, true, false, length,
  length-append, ltb, ==_refl, arith, u32, if◌then◌else◌,
}
use het_bed.ListHead.Chain.{Fresh, Distinct-split, Fresh-append, Fresh-cut, Distinct}
use het_bed.ListHead.Sorted.{insert_ordered}
use het_bed.ListHead.Pairs.{
  ArePairs-sym, Fresh-without, Fresh-insert_ordered, list_remove-ArePairs,
  list_insert_sorted-ArePairs,
}
use het_bed.ListHead.Frame.{Apart}
use het_bed.Timer.Ops.{
  State, node_at, active, idle, max_num_of_timer, timer_before, insert_sorted, put, remove,
  timer_start, timer_stop,
}
use het_bed.Timer.Sets.{
  AreTimers, key, by_time, insert_active, put-AreTimers, Ordered-without, node_at-back,
  length-insert_ordered,
}

Apart-at : (zs pre : List ℕ) (x : ℕ) (post : List ℕ) → Apart zs (pre ++ x ∷ post) → Fresh x zs
Apart-at zs [] x post a = a.0
Apart-at zs (y ∷ pre) x post a = Apart-at zs pre x post a.1

-- The timer `i` has left the lists.
pub record IsOut (g i : ℕ) (s : State) (xs ys : List ℕ) : Type 0 where
  pub timers : AreTimers g s xs ys
  pub room : length (xs ++ ys) < max_num_of_timer
  pub not_active : Fresh (node_at i) (active g ∷ xs)
  pub not_idle : Fresh (node_at i) (idle g ∷ ys)

length-without :
    (pre : List ℕ) (x : ℕ) (post : List ℕ) → length (pre ++ x ∷ post) ≡ suc (length (pre ++ post))
length-without [] x post = refl
length-without (y ∷ pre) x post = ap suc (length-without pre x post)

Fresh-middle :
    (h : ℕ) (pre : List ℕ) (x : ℕ) (post : List ℕ)
    → Distinct (h ∷ (pre ++ x ∷ post))
    → Fresh x (h ∷ (pre ++ post))
Fresh-middle h pre x post d =
    let s = Distinct-split (h ∷ pre) x post d in (s.0.0, Fresh-append x pre post s.0.1 s.1)

pub remove_active :
    (g i : ℕ) (s : State) (pre post ys : List ℕ)
    → AreTimers g s (pre ++ node_at i ∷ post) ys
    → IsOut g i (remove i s) (pre ++ post) ys
remove_active g i s pre post ys t =
    let z = Fresh-cut 0 (pre ++ node_at i ∷ post) ys t.no_null in
    let n = length-append (pre ++ node_at i ∷ post) ys in
    let m = length-append (pre ++ post) ys in
    let o = length-without pre (node_at i) post in
    let out = ArePairs-sym t.lists in
    record {
      timers = record {
        lists = list_remove-ArePairs pre (node_at i) post t.lists;
        ordered = Ordered-without (key s) pre (node_at i) post t.ordered;
        no_null = Fresh-append 0 (pre ++ post) ys (Fresh-without 0 pre (node_at i) post z.0) z.1;
        bounded = omega (arith, n, m, o, t.bounded);
      };
      room = omega (arith, n, m, o, t.bounded);
      not_active = Fresh-middle (active g) pre (node_at i) post t.lists.first.distinct;
      not_idle = Apart-at (idle g ∷ ys) (active g ∷ pre) (node_at i) post out.apart;
    }

remove_idle :
    (g i : ℕ) (s : State) (xs pre post : List ℕ)
    → AreTimers g s xs (pre ++ node_at i ∷ post)
    → IsOut g i (remove i s) xs (pre ++ post)
remove_idle g i s xs pre post t =
    let z = Fresh-cut 0 xs (pre ++ node_at i ∷ post) t.no_null in
    let n = length-append xs (pre ++ node_at i ∷ post) in
    let m = length-append xs (pre ++ post) in
    let o = length-without pre (node_at i) post in
    record {
      timers = record {
        lists = ArePairs-sym (list_remove-ArePairs pre (node_at i) post (ArePairs-sym t.lists));
        ordered = t.ordered;
        no_null = Fresh-append 0 xs (pre ++ post) z.0 (Fresh-without 0 pre (node_at i) post z.1);
        bounded = omega (arith, n, m, o, t.bounded);
      };
      room = omega (arith, n, m, o, t.bounded);
      not_active = Apart-at (active g ∷ xs) (idle g ∷ pre) (node_at i) post t.lists.apart;
      not_idle = Fresh-middle (idle g) pre (node_at i) post t.lists.second.distinct;
    }

-- The timer goes into the list of the idle ones.
pub insert_idle :
    (g i : ℕ) (s : State) (xs ys : List ℕ)
    → IsOut g i s xs ys
    → AreTimers g (insert_sorted i (idle g) s) xs (by_time s (s.blks i).expire_time i ys)
unfolding by_time
insert_idle g i s xs ys o =
    let t = o.timers in
    let z = Fresh-cut 0 xs ys t.no_null in
    let n = length-append xs ys in
    let before = timer_before s.blks (node_at i) in
    subst
      (λ j.
        AreTimers g (insert_sorted i (idle g) s) xs
          (insert_ordered (λ a. ltb (s.blks j).expire_time (key s a)) (node_at i) ys))
      (node_at-back i)
      (record {
        lists = ArePairs-sym (
            list_insert_sorted-ArePairs max_num_of_timer (timer_before s.blks) (node_at i) ys
              (omega (arith, n, o.room)) o.not_idle o.not_active z.1 (ArePairs-sym t.lists));
        ordered = t.ordered;
        no_null =
            Fresh-append 0 xs (insert_ordered before (node_at i) ys) z.0
              (Fresh-insert_ordered 0 before (node_at i) ys (λ e. omega (arith, e)) z.1);
        bounded = omega (
          arith,
          n,
          o.room,
          length-append xs (insert_ordered before (node_at i) ys),
          length-insert_ordered before (node_at i) ys,
        );
      })

-- The time that `TimerStart` sets, at type `uint32_t`.
unfoldable pub due_at : ℕ → ℕ → State → ℕ
due_at now i s = u32 (u32 now + (s.blks i).duration)

start_from :
    (now g i : ℕ) (s : State) (xs ys : List ℕ)
    → (s.blks i).timer_list ≡ g
    → IsOut g i (remove i s) xs ys
    → AreTimers g (timer_start now i s) (by_time s (due_at now i s) i xs) ys
unfolding timer_start due_at by_time
start_from now g i s xs ys e o =
    let b = record (s.blks i) { expire_time = due_at now i s } in
    put-AreTimers g i (record b { is_running = true })
      (insert_sorted i (active (s.blks i).timer_list) (put i b (remove i s)))
      (by_time s (due_at now i s) i xs) ys
      (sym (ap (λ c. (if c then b else s.blks i).expire_time) (==_refl i)))
      (subst
        (λ l.
          AreTimers g (insert_sorted i (active l) (put i b (remove i s)))
            (by_time s (due_at now i s) i xs) ys)
        (sym e) (insert_active g i b (remove i s) xs ys o.timers o.room o.not_active o.not_idle))

start-running : (now i : ℕ) (s : State) → ((timer_start now i s).blks i).is_running ≡ true
unfolding timer_start
start-running now i s = rw (==_refl i) refl

-- `TimerStart` takes an idle timer out of the idle list, lets it expire its duration from now on, and
-- puts it among the running timers, which stay in the order of their expiry; equal times keep the
-- order of the calls.
pub timer_start_lem :
    (now g i : ℕ) (s : State) (xs pre post : List ℕ)
    → (s.blks i).timer_list ≡ g
    → AreTimers g s xs (pre ++ node_at i ∷ post)
    → AreTimers g (timer_start now i s) (by_time s (due_at now i s) i xs) (pre ++ post)
      × (((timer_start now i s).blks i).is_running ≡ true)
timer_start_lem now g i s xs pre post e t = (
  start_from now g i s xs (pre ++ post) e (remove_idle g i s xs pre post t),
  start-running now i s,
)

-- `TimerStart` on a running timer moves it to the place of its new time, with the order kept.
pub timer_restart_lem :
    (now g i : ℕ) (s : State) (pre post ys : List ℕ)
    → (s.blks i).timer_list ≡ g
    → AreTimers g s (pre ++ node_at i ∷ post) ys
    → AreTimers g (timer_start now i s) (by_time s (due_at now i s) i (pre ++ post)) ys
      × (((timer_start now i s).blks i).is_running ≡ true)
timer_restart_lem now g i s pre post ys e t = (
  start_from now g i s (pre ++ post) ys e (remove_active g i s pre post ys t),
  start-running now i s,
)

stop_from :
    (g i : ℕ) (s : State) (xs ys : List ℕ)
    → (s.blks i).timer_list ≡ g
    → (s.blks i).is_running ≡ true
    → IsOut g i (remove i s) xs ys
    → AreTimers g (timer_stop i s) xs (by_time s (s.blks i).expire_time i ys)
      × (((timer_stop i s).blks i).is_running ≡ false)
unfolding timer_stop by_time
stop_from g i s xs ys e r o =
    let b = record (s.blks i) { is_running = false } in
    let at_list : ℕ → State = λ l. insert_sorted i (idle l) (remove i s) in
    rw (r, ==_refl i)
      (
        subst (λ l. AreTimers g (put i b (at_list l)) xs (by_time s (s.blks i).expire_time i ys))
            (sym e)
            (put-AreTimers g i b (at_list g) xs (by_time s (s.blks i).expire_time i ys) refl
              (insert_idle g i (remove i s) xs ys o)),
        refl,
      )

-- `TimerStop` takes a running timer out of its list, whose others keep their order, and puts it in
-- the list of the idle ones.
pub timer_stop_lem :
    (g i : ℕ) (s : State) (pre post ys : List ℕ)
    → (s.blks i).timer_list ≡ g
    → (s.blks i).is_running ≡ true
    → AreTimers g s (pre ++ node_at i ∷ post) ys
    → AreTimers g (timer_stop i s) (pre ++ post) (by_time s (s.blks i).expire_time i ys)
      × (((timer_stop i s).blks i).is_running ≡ false)
timer_stop_lem g i s pre post ys e r t =
    stop_from g i s (pre ++ post) ys e r (remove_active g i s pre post ys t)
