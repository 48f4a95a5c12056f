-- ===== src/Timer/Sets.antt =====
-- The lists of running and of idle timers: what starting and stopping a timer does to them.
use het_bed.Base.{
  ℕ, suc, ◌-◌, ◌≡◌, ◌≤◌, ◌<◌, refl, sym, ap, ◌∙◌, subst, List, [], ◌∷◌, ◌++◌, All, Bool, Bool-cases,
  inl, inr, if◌then◌else◌, length, length-append, ltb, ◌==◌, ne→==, ==_refl, ==_iff, arith,
}
use het_bed.ListHead.Chain.{Fresh, Fresh-append, Fresh-cut}
use het_bed.ListHead.Sorted.{insert_ordered, Ordered, Above, insert_ordered-Ordered}
use het_bed.ListHead.Pairs.{ArePairs, list_insert_sorted-ArePairs, Fresh-insert_ordered}
use het_bed.Timer.Ops.{
  TimerBlk, State, node_at, active, idle, max_num_of_timer, timer_before, insert_sorted, put,
}

-- The time of expiry by the address of a timer.
abbrev pub key : State → ℕ → ℕ
key s a = (s.blks (a - 1)).expire_time

-- The list `g` has the running timers `xs`, in the order of their expiry, and the idle ones `ys`.
pub record AreTimers (g : ℕ) (s : State) (xs ys : List ℕ) : Type 0 where
  pub lists : ArePairs s.links (active g) xs (idle g) ys
  pub ordered : Ordered (key s) xs
  pub no_null : Fresh 0 (xs ++ ys)
  pub bounded : length (xs ++ ys) ≤ max_num_of_timer

Above-same :
    (f h : ℕ → ℕ) (k : ℕ) (xs : List ℕ) → All (λ a. h a ≡ f a) xs → Above f k xs → Above h k xs
Above-same f h k [] e b = tt
Above-same f h k (x ∷ xs) e b = (omega (arith, e.0, b.0), Above-same f h k xs e.1 b.1)

pub Ordered-same :
    (f h : ℕ → ℕ) (xs : List ℕ) → All (λ a. h a ≡ f a) xs → Ordered f xs → Ordered h xs
Ordered-same f h [] e o = tt
Ordered-same f h (x ∷ xs) e o = (
  subst (λ k. Above h k xs) (sym e.0) (Above-same f h (f x) xs e.1 o.0),
  Ordered-same f h xs e.1 o.1,
)

Above-without :
    (f : ℕ → ℕ) (k : ℕ) (pre : List ℕ) (x : ℕ) (post : List ℕ)
    → Above f k (pre ++ x ∷ post)
    → Above f k (pre ++ post)
Above-without f k [] x post b = b.1
Above-without f k (y ∷ pre) x post b = (b.0, Above-without f k pre x post b.1)

pub Ordered-without :
    (f : ℕ → ℕ) (pre : List ℕ) (x : ℕ) (post : List ℕ)
    → Ordered f (pre ++ x ∷ post)
    → Ordered f (pre ++ post)
Ordered-without f [] x post o = o.1
Ordered-without f (y ∷ pre) x post o =
    (Above-without f (f y) pre x post o.0, Ordered-without f pre x post o.1)

-- A write of the timer `i` keeps the times of the others.
pub key-others :
    (s : State) (i : ℕ) (b : TimerBlk) (xs : List ℕ)
    → Fresh (node_at i) xs
    → Fresh 0 xs
    → All (λ a. (if a - 1 == i then b else s.blks (a - 1)).expire_time ≡ key s a) xs
key-others s i b [] f z = tt
key-others s i b (x ∷ xs) f z = (
  ap (λ c. (if c then b else s.blks (x - 1)).expire_time)
      (ne→== (x - 1) i (λ e. f.0 (omega (arith, e, z.0)))),
  key-others s i b xs f.1 z.1,
)

pub length-insert_ordered :
    (before : ℕ → Bool) (new : ℕ) (xs : List ℕ)
    → length (insert_ordered before new xs) ≡ suc (length xs)
unfolding insert_ordered
length-insert_ordered before new [] = refl
length-insert_ordered before new (x ∷ xs) = elim (Bool-cases (before x)) [
  | inl b ↦ rw b refl
  | inr b ↦ rw b (ap suc (length-insert_ordered before new xs))
]

pub node_at-back : (i : ℕ) → node_at i - 1 ≡ i
node_at-back i = omega arith

insert_ordered-same :
    (f h : ℕ → Bool) (new : ℕ) (xs : List ℕ)
    → All (λ a. f a ≡ h a) xs
    → insert_ordered f new xs ≡ insert_ordered h new xs
unfolding insert_ordered
insert_ordered-same f h new [] e = refl
insert_ordered-same f h new (x ∷ xs) e = rw (e.0, insert_ordered-same f h new xs e.1) refl

-- Where the node of a timer with the time `t` goes, by the times of the other timers.
unfoldable pub by_time : State → ℕ → ℕ → List ℕ → List ℕ
by_time s t i xs = insert_ordered (λ a. ltb t (key s a)) (node_at i) xs

-- What the callback says of the timer `i` that holds `b` is what the times say.
before-time :
    (s : State) (i : ℕ) (b : TimerBlk) (xs : List ℕ)
    → Fresh (node_at i) xs
    → Fresh 0 xs
    → insert_ordered (timer_before (put i b s).blks (node_at i)) (node_at i) xs
      ≡ by_time s b.expire_time i xs
unfolding by_time
before-time s i b xs f z =
    insert_ordered-same (timer_before (put i b s).blks (node_at i))
      (λ a. ltb b.expire_time (key s a)) (node_at i) xs (compares xs (key-others s i b xs f z))
  where
    own : key (put i b s) (node_at i) ≡ b.expire_time
    own =
        subst (λ j. (if j == i then b else s.blks j).expire_time ≡ b.expire_time)
          (sym (node_at-back i)) (ap (λ c. (if c then b else s.blks i).expire_time) (==_refl i))

    compares :
        (xs : List ℕ)
        → All (λ a. key (put i b s) a ≡ key s a) xs
        → All (λ a. timer_before (put i b s).blks (node_at i) a ≡ ltb b.expire_time (key s a)) xs
    compares [] e = tt
    compares (x ∷ xs) e = (rw (own, e.0) refl, compares xs e.1)

-- A write to a timer that keeps its time keeps the lists.
pub put-AreTimers :
    (g i : ℕ) (b : TimerBlk) (s : State) (xs ys : List ℕ)
    → b.expire_time ≡ (s.blks i).expire_time
    → AreTimers g s xs ys
    → AreTimers g (put i b s) xs ys
put-AreTimers g i b s xs ys e t = record {
  lists = t.lists;
  ordered = Ordered-same (key s) (key (put i b s)) xs (same xs) t.ordered;
  no_null = t.no_null;
  bounded = t.bounded;
}
  where
    at : (a : ℕ) → key (put i b s) a ≡ key s a
    at a = elim (Bool-cases (a - 1 == i)) [
      | inl c ↦
          ap (λ c. (if c then b else s.blks (a - 1)).expire_time) c
          ∙ e
          ∙ ap (λ j. (s.blks j).expire_time) (sym ((==_iff (a - 1) i).0 c))
      | inr c ↦ ap (λ c. (if c then b else s.blks (a - 1)).expire_time) c
    ]

    same : (xs : List ℕ) → All (λ a. key (put i b s) a ≡ key s a) xs
    same [] = tt
    same (x ∷ xs) = (at x, same xs)

-- The timer `i`, which is in neither list, gets the content `b` and goes into the list of the running
-- ones by its time.
pub insert_active :
    (g i : ℕ) (b : TimerBlk) (s : State) (xs ys : List ℕ)
    → AreTimers g s xs ys
    → length (xs ++ ys) < max_num_of_timer
    → Fresh (node_at i) (active g ∷ xs)
    → Fresh (node_at i) (idle g ∷ ys)
    → AreTimers g (insert_sorted i (active g) (put i b s)) (by_time s b.expire_time i xs) ys
insert_active g i b s xs ys t n f k =
    let z = Fresh-cut 0 xs ys t.no_null in
    let l = length-append xs ys in
    subst (λ zs. AreTimers g (insert_sorted i (active g) (put i b s)) zs ys)
      (before-time s i b xs f.1 z.0)
      (record {
        lists =
            list_insert_sorted-ArePairs max_num_of_timer (timer_before (put i b s).blks) (node_at i)
              xs (omega (arith, l, n)) f k z.0 t.lists;
        ordered =
            insert_ordered-Ordered (key (put i b s)) (node_at i) xs
              (Ordered-same (key s) (key (put i b s)) xs (key-others s i b xs f.1 z.0) t.ordered);
        no_null =
            Fresh-append 0
              (insert_ordered (timer_before (put i b s).blks (node_at i)) (node_at i) xs) ys
              (Fresh-insert_ordered 0 (timer_before (put i b s).blks (node_at i)) (node_at i) xs
                (λ e. omega (arith, e)) z.0)
              z.1;
        bounded = omega (
          arith,
          n,
          l,
          length-append (insert_ordered (timer_before (put i b s).blks (node_at i)) (node_at i) xs)
              ys,
          length-insert_ordered (timer_before (put i b s).blks (node_at i)) (node_at i) xs,
        );
      })
