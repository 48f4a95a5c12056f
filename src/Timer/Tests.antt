-- ===== src/Timer/Tests.antt =====
-- The theorems about timers at a list with two running timers, due at 50 and 90, and an idle one.
use het_bed.Base.{◌≡◌, refl, [], ◌∷◌, ◌==◌, true, if◌then◌else◌, none, arith, u32}
use het_bed.Pool
use het_bed.Pool.{fill}
use het_bed.Timer.Ops.{State, timer_start, timer_expire_check, new_timer, once}
use het_bed.Timer.Sets.{AreTimers, by_time}
use het_bed.Timer.Moves.{timer_start_lem, due_at}
use het_bed.Timer.Expiry.{IsExpired, timer_expire_check_lem}

abbrev three_timers : State
three_timers = record {
  pool = Pool.init 1024 none;
  blks = λ i.
      if i == 0
      then record (new_timer 0) { type = once; is_running = true; expire_time = 50; duration = 20 }
      else if i == 1
      then record (new_timer 0) { type = once; is_running = true; expire_time = 90; duration = 30 }
      else record (new_timer 0) { type = once; duration = 40 };
  links = record {
    next = λ a.
        if a == 1025
        then 1
        else if a == 1
        then 2
        else if a == 2
        then 1025
        else if a == 1026
        then 3
        else if a == 3
        then 1026
        else a;
    prev = λ a.
        if a == 1025
        then 2
        else if a == 1
        then 1025
        else if a == 2
        then 1
        else if a == 1026
        then 3
        else if a == 3
        then 1026
        else a;
  };
  fired = [];
}

three-AreTimers : AreTimers 0 three_timers (1 ∷ 2 ∷ []) (3 ∷ [])
three-AreTimers = record {
  lists = record {
    first = record {
      links = (refl, refl, (refl, refl, (refl, refl)));
      distinct = (
        ((λ e. omega (arith, e)), ((λ e. omega (arith, e)), tt)),
        (((λ e. omega (arith, e)), tt), (tt, tt)),
      );
    };
    second = record {
      links = (refl, refl, (refl, refl));
      distinct = (((λ e. omega (arith, e)), tt), (tt, tt));
    };
    apart = (
      ((λ e. omega (arith, e)), ((λ e. omega (arith, e)), ((λ e. omega (arith, e)), tt))),
      (((λ e. omega (arith, e)), ((λ e. omega (arith, e)), ((λ e. omega (arith, e)), tt))), tt),
    );
  };
  ordered = ((omega arith, tt), (tt, tt));
  no_null = ((λ e. omega (arith, e)), ((λ e. omega (arith, e)), ((λ e. omega (arith, e)), tt)));
  bounded = omega arith;
}

timer_start_lem_example :
    AreTimers 0
      (timer_start 30 2 three_timers)
      (by_time three_timers (due_at 30 2 three_timers) 2 (1 ∷ 2 ∷ []))
      []
    × (((timer_start 30 2 three_timers).blks 2).is_running ≡ true)
timer_start_lem_example =
    timer_start_lem 30 0 2 three_timers (1 ∷ 2 ∷ []) [] [] refl three-AreTimers

timer_expire_check_lem_example :
    IsExpired (u32 60) 0 three_timers (1 ∷ 2 ∷ []) (timer_expire_check 3 60 0 three_timers)
timer_expire_check_lem_example =
    timer_expire_check_lem 3 60 0 three_timers (1 ∷ 2 ∷ []) (3 ∷ []) (omega arith) three-AreTimers
      ((refl, refl), ((refl, refl), tt))
