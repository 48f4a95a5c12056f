-- ===== src/Timer/Expiry.antt =====
-- `TimerExpireCheck`: which timers it fires, and what it leaves.
use het_bed.Base.{
  ℕ, zero, suc, ◌-◌, ◌≡◌, ◌≢◌, ◌<◌, refl, sym, ap, ◌∙◌, subst, List, [], ◌∷◌, All, Bool, true,
  false, Bool-cases, inl, inr, length, ltb, ◌==◌, ==_refl, ==_iff, ne→==, arith, u32, if◌then◌else◌,
  fun_ext,
}
use het_bed.ListHead.{list_first}
use het_bed.ListHead.Chain.{Fresh, Fresh-cut}
use het_bed.Timer.Ops.{
  TimerBlk, State, node_at, active, idle, once, period, insert_sorted, remove, expire, expire_loop,
  timer_expire_check,
}
use het_bed.Timer.Sets.{AreTimers, key, by_time, put-AreTimers}
use het_bed.Timer.Moves.{remove_active, insert_idle}

-- The timers of the list that are running, of the kind that fires once, and of the list `g`.
abbrev pub AreOnce : State → List ℕ → Type 0
AreOnce s xs = All (λ a. ((s.blks (a - 1)).is_running ≡ true) × ((s.blks (a - 1)).type ≡ once)) xs

-- The running timers that are still not due, and the calls for those that are, the last one first.
unfoldable pub not_due : (ℕ → ℕ) → ℕ → List ℕ → List ℕ
not_due f now [] = []
not_due f now (x ∷ xs) = if ltb (f x) now then not_due f now xs else x ∷ xs

unfoldable pub calls : (ℕ → ℕ) → ℕ → List ℕ → List ℕ → List ℕ
calls f now [] fired = fired
calls f now (x ∷ xs) fired = if ltb (f x) now then calls f now xs ((x - 1) ∷ fired) else fired

-- What the loop comes to.
pub record IsExpired (now g : ℕ) (s : State) (xs : List ℕ) (result : Bool × State) : Type 0 where
  pub ended : result.0 ≡ true
  pub fires : result.1.fired ≡ calls (key s) now xs s.fired
  pub ys : List ℕ
  pub timers : AreTimers g result.1 (not_due (key s) now xs) ys

one_shot : {t : ℕ} → t ≡ once → (t == period) ≡ false
one_shot k = ap (λ t. t == period) k

expire-once :
    (now g i : ℕ) (s : State) (xs ys : List ℕ)
    → AreTimers g s (node_at i ∷ xs) ys
    → (s.blks i).is_running ≡ true
    → (s.blks i).type ≡ once
    → AreTimers g (expire now g i s) xs (by_time s (s.blks i).expire_time i ys)
unfolding expire by_time
expire-once now g i s xs ys t r k =
    let s1 = record s { fired = i ∷ s.fired } in
    let t1 : AreTimers g s1 (node_at i ∷ xs) ys = record {
      lists = t.lists;
      ordered = t.ordered;
      no_null = t.no_null;
      bounded = t.bounded;
    } in
    rw (r, one_shot k)
      (put-AreTimers g i (record (s.blks i) { is_running = false })
        (insert_sorted i (idle g) (remove i s1)) xs (by_time s (s.blks i).expire_time i ys) refl
        (insert_idle g i (remove i s1) xs ys (remove_active g i s1 [] xs ys t1)))

-- The timer after its call.
abbrev stopped : ℕ → State → ℕ → TimerBlk
stopped i s j = if j == i then record (s.blks i) { is_running = false } else s.blks j

blks-expire :
    (now g i : ℕ) (s : State)
    → (s.blks i).is_running ≡ true
    → (s.blks i).type ≡ once
    → (expire now g i s).blks ≡ stopped i s
unfolding expire
blks-expire now g i s r k = rw (r, one_shot k) refl

fired-expire :
    (now g i : ℕ) (s : State)
    → (s.blks i).is_running ≡ true
    → (s.blks i).type ≡ once
    → (expire now g i s).fired ≡ i ∷ s.fired
unfolding expire
fired-expire now g i s r k = rw (r, one_shot k) refl

stopped-time : (i : ℕ) (s : State) (j : ℕ) → (stopped i s j).expire_time ≡ (s.blks j).expire_time
stopped-time i s j = elim (Bool-cases (j == i)) [
  | inl c ↦
      ap (λ c. (if c then record (s.blks i) { is_running = false } else s.blks j).expire_time) c
      ∙ ap (λ k. (s.blks k).expire_time) (sym ((==_iff j i).0 c))
  | inr c ↦
      ap (λ c. (if c then record (s.blks i) { is_running = false } else s.blks j).expire_time) c
]

stopped-others : (i : ℕ) (s : State) (j : ℕ) → j ≢ i → stopped i s j ≡ s.blks j
stopped-others i s j n =
    ap (λ c. if c then record (s.blks i) { is_running = false } else s.blks j) (ne→== j i n)

AreOnce-expire :
    (now g i : ℕ) (s : State) (xs : List ℕ)
    → (s.blks i).is_running ≡ true
    → (s.blks i).type ≡ once
    → Fresh (node_at i) xs
    → Fresh 0 xs
    → AreOnce s xs
    → AreOnce (expire now g i s) xs
AreOnce-expire now g i s [] r k f z o = tt
AreOnce-expire now g i s (x ∷ xs) r k f z o =
    let same =
      ap (λ blks. blks (x - 1)) (blks-expire now g i s r k)
      ∙ stopped-others i s (x - 1) (λ e. f.0 (omega (arith, e, z.0))) in
    (
      (ap (λ b. b.is_running) same ∙ o.0.0, ap (λ b. b.type) same ∙ o.0.1),
      AreOnce-expire now g i s xs r k f.1 z.1 o.1,
    )

key-expire :
    (now g i : ℕ) (s : State)
    → (s.blks i).is_running ≡ true
    → (s.blks i).type ≡ once
    → key (expire now g i s) ≡ key s
key-expire now g i s r k = fun_ext (λ a.
    ap (λ blks. (blks (a - 1)).expire_time) (blks-expire now g i s r k) ∙ stopped-time i s (a - 1))

loop-empty :
    (fuel now g : ℕ) (s : State)
    → s.links.next (active g) ≡ active g
    → expire_loop (suc fuel) now g s ≡ (true, s)
unfolding expire_loop list_first
loop-empty fuel now g s e = rw (e, ==_refl (active g)) refl

loop-stop :
    (fuel now g x : ℕ) (s : State)
    → s.links.next (active g) ≡ x
    → x ≢ active g
    → ltb (key s x) now ≡ false
    → expire_loop (suc fuel) now g s ≡ (true, s)
unfolding expire_loop list_first
loop-stop fuel now g x s e n d = rw (e, ne→== x (active g) n, d) refl

loop-on :
    (fuel now g x : ℕ) (s : State)
    → s.links.next (active g) ≡ x
    → x ≢ active g
    → ltb (key s x) now ≡ true
    → expire_loop (suc fuel) now g s ≡ expire_loop fuel now g (expire now g (x - 1) s)
unfolding expire_loop list_first
loop-on fuel now g x s e n d = rw (e, ne→== x (active g) n, d) refl

none_due :
    (now g : ℕ) (s : State) (ys : List ℕ) → AreTimers g s [] ys → IsExpired now g s [] (true, s)
unfolding not_due calls
none_due now g s ys t = record { ended = refl; fires = refl; ys = ys; timers = t }

module _ (f : ℕ → ℕ) (now x : ℕ) (xs fired : List ℕ) where
  not_due-on : ltb (f x) now ≡ true → not_due f now (x ∷ xs) ≡ not_due f now xs
  unfolding not_due
  not_due-on d = rw d refl

  not_due-stop : ltb (f x) now ≡ false → not_due f now (x ∷ xs) ≡ x ∷ xs
  unfolding not_due
  not_due-stop d = rw d refl

  calls-on : ltb (f x) now ≡ true → calls f now (x ∷ xs) fired ≡ calls f now xs ((x - 1) ∷ fired)
  unfolding calls
  calls-on d = rw d refl

  calls-stop : ltb (f x) now ≡ false → calls f now (x ∷ xs) fired ≡ fired
  unfolding calls
  calls-stop d = rw d refl

-- One call, and then what the rest of the loop comes to.
IsExpired-on :
    (now g x : ℕ) (s : State) (xs : List ℕ) (result : Bool × State)
    → ltb (key s x) now ≡ true
    → (s.blks (x - 1)).is_running ≡ true
    → (s.blks (x - 1)).type ≡ once
    → IsExpired now g (expire now g (x - 1) s) xs result
    → IsExpired now g s (x ∷ xs) result
IsExpired-on now g x s xs result d r k rest =
    let times = key-expire now g (x - 1) s r k in
    record {
      ended = rest.ended;
      fires =
          rest.fires
          ∙ ap (λ f. calls f now xs (expire now g (x - 1) s).fired) times
          ∙ ap (calls (key s) now xs) (fired-expire now g (x - 1) s r k)
          ∙ sym (calls-on (key s) now x xs s.fired d);
      ys = rest.ys;
      timers =
          subst (λ zs. AreTimers g result.1 zs rest.ys)
            (ap (λ f. not_due f now xs) times ∙ sym (not_due-on (key s) now x xs s.fired d))
            rest.timers;
    }

expire_loop-IsExpired :
    (fuel now g : ℕ) (s : State) (xs ys : List ℕ)
    → length xs < fuel
    → AreTimers g s xs ys
    → AreOnce s xs
    → IsExpired now g s xs (expire_loop fuel now g s)
expire_loop-IsExpired zero now g s xs ys n t o = absurd (omega arith)
expire_loop-IsExpired (suc fuel) now g s [] ys n t o =
    subst (IsExpired now g s []) (sym (loop-empty fuel now g s t.lists.first.links.0))
      (none_due now g s ys t)
expire_loop-IsExpired (suc fuel) now g s (x ∷ xs) ys n t o =
    let first = t.lists.first.links.0 in
    let apart : x ≢ active g = λ e. t.lists.first.distinct.0.0 (sym e) in
    let back : node_at (x - 1) ≡ x = omega (arith, t.no_null.0) in
    let z = Fresh-cut 0 xs ys t.no_null.1 in
    elim (Bool-cases (ltb (key s x) now)) [
      | inr d ↦
          subst (IsExpired now g s (x ∷ xs)) (sym (loop-stop fuel now g x s first apart d))
            (record {
              ended = refl;
              fires = sym (calls-stop (key s) now x xs s.fired d);
              ys = ys;
              timers =
                  subst (λ zs. AreTimers g s zs ys) (sym (not_due-stop (key s) now x xs s.fired d))
                    t;
            })
      | inl d ↦ subst (IsExpired now g s (x ∷ xs)) (sym (loop-on fuel now g x s first apart d)) (
          IsExpired-on now g x s xs (expire_loop fuel now g (expire now g (x - 1) s)) d o.0.0 o.0.1
            (expire_loop-IsExpired fuel now g (expire now g (x - 1) s) xs
              (by_time s (s.blks (x - 1)).expire_time (x - 1) ys) (omega arith)
              (expire-once now g (x - 1) s xs ys
                (subst (λ y. AreTimers g s (y ∷ xs) ys) (sym back) t) o.0.0 o.0.1)
              (AreOnce-expire now g (x - 1) s xs o.0.0 o.0.1
                (subst (λ y. Fresh y xs) (sym back) t.lists.first.distinct.1.0) z.0 o.1)))
    ]

-- `TimerExpireCheck` on timers that fire once ends, has called the callbacks of exactly the timers
-- at the front that are due, in the order of their expiry, and leaves the others running. Its fuel
-- is one more than the number of running timers.
pub timer_expire_check_lem :
    (fuel now g : ℕ) (s : State) (xs ys : List ℕ)
    → length xs < fuel
    → AreTimers g s xs ys
    → AreOnce s xs
    → IsExpired (u32 now) g s xs (timer_expire_check fuel now g s)
unfolding timer_expire_check
timer_expire_check_lem fuel now g s xs ys n t o =
    expire_loop-IsExpired fuel (u32 now) g s xs ys n t o
