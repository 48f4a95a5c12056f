-- ===== src/Xact/Timers.antt =====
-- `PfcpXactTimeout`.
use het_bed.Base.{
  ℕ, zero, suc, ◌-◌, ◌<◌, ◌≡◌, ◌≢◌, ◌⊎◌, true, false, ltb, some, List, [], ◌∷◌, ◌++◌, append-nil,
  append_assoc, arith, ==_refl, ne→==, ap, ◌∙◌, refl, sym, subst,
}
use het_bed.Xact.Types.{
  Status, ok, error, again, fault, Packet, PfcpXact, Effect, sent, timer_started, Env, State, put,
  emit, emit_if, node_at,
}
use het_bed.Index
use het_bed.ListHead.Chain.{IsList}
use het_bed.Xact.Exchange.{seq_at, send_to}
use het_bed.Xact.Life.{dispose}
use het_bed.Xact.Ending.{dispose_lem}
use het_bed.Xact.Traffic.{count_down, response_timeout, timeout}

-- The state with one retransmission fewer to go.
abbrev pub counted : ℕ → State → State
counted i s = put i (record (s.xacts i) { response_re_count = (s.xacts i).response_re_count - 1 }) s

abbrev pub last_seq : PfcpXact → ℕ
last_seq x = x.step - 1

response_more :
    (env : Env) (i : ℕ) (p : Packet) (s : State)
    → (seq_at (s.xacts i) (last_seq (s.xacts i))).buf_blk ≡ some p
    → env.send_ok ≡ true
    → count_down (s.xacts i).response_re_count ≡ (s.xacts i).response_re_count - 1
    → ltb 0 (count_down (s.xacts i).response_re_count) ≡ true
    → response_timeout env i s ≡ (
      ok,
      send_to (s.xacts i).gnode p (emit_if (s.xacts i).timer_response timer_started (counted i s)),
    )
unfolding response_timeout
response_more env i p s hp he down more =
    rw (more, hp, he)
      (ap
        (λ n. (
          ok,
          send_to (s.xacts i).gnode p (
              emit_if (s.xacts i).timer_response timer_started
                (put i (record (s.xacts i) { response_re_count = n }) s)),
        ))
        down)

response_last :
    (env : Env) (i : ℕ) (s : State)
    → count_down (s.xacts i).response_re_count ≡ (s.xacts i).response_re_count - 1
    → ltb 0 ((s.xacts i).response_re_count - 1) ≡ false
    → response_timeout env i s ≡ (error, dispose i (counted i s))
unfolding response_timeout
response_last env i s down last = rw (down, last)

timeout_routes :
    (env : Env) (i g : ℕ) (s : State)
    → (s.xacts i).gnode ≡ some g
    → (s.xacts i).step ≢ 0
    → timeout env i s.global_response_event s
      ≡ (some (seq_at (s.xacts i) (last_seq (s.xacts i))).type, response_timeout env i s)
unfolding timeout
timeout_routes env i g s hg hs =
    rw (hg, timeout) (rw (ne→== (s.xacts i).step 0 hs, ==_refl s.global_response_event))

abbrev after : (State → Status × State) → Status × State → Status × State
after next (ok, s) = next s
after next (error, s) = (error, s)
after next (again, s) = (again, s)
after next (fault, s) = (fault, s)

-- The response timer runs out so many times, as long as the code reports no error.
unfoldable pub expire : ℕ → Env → ℕ → State → Status × State
expire zero env i s = (ok, s)
expire (suc n) env i s = after (expire n env i) (timeout env i s.global_response_event s).1

-- So many times the timer is started and the packet sent.
unfoldable pub resends : ℕ → ℕ → ℕ → Packet → List Effect
resends zero timer g p = []
resends (suc n) timer g p = timer_started timer ∷ sent g p ∷ resends n timer g p

-- A transaction that waits for a response: the packet that it sent last, and the attempts that are left.
pub record Waits (x : PfcpXact) (g timer : ℕ) (p : Packet) (attempts : ℕ) : Type 0 where
  pub node : x.gnode ≡ some g
  pub begun : x.step ≢ 0
  pub last : (seq_at x (last_seq x)).buf_blk ≡ some p
  pub clock : x.timer_response ≡ timer
  pub runs : timer ≢ 0
  pub left : x.response_re_count ≡ attempts
  pub origin : (x.origin ≡ 0) ⊎ (x.origin ≡ 1)

-- One attempt fewer, and the effects of one.
once : ℕ → ℕ → ℕ → Packet → State → State
once i g timer p s = emit (sent g p) (emit (timer_started timer) (counted i s))

timeout_again :
    (env : Env) (i g timer n : ℕ) (p : Packet) (s : State)
    → Waits (s.xacts i) g timer p (suc (suc n))
    → suc (suc n) < 256
    → env.send_ok ≡ true
    → (timeout env i s.global_response_event s).1 ≡ (ok, once i g timer p s)
unfolding once
timeout_again env i g timer n p s w bound sends =
    ap (λ r. r.1) (timeout_routes env i g s w.node w.begun)
    ∙ response_more env i p s w.last sends (omega (arith, w.left, bound))
        (ground (arith, w.left, bound))
    ∙ rw (w.node, w.clock, ne→== timer 0 w.runs) refl

timeout_last :
    (env : Env) (i g timer : ℕ) (p : Packet) (s : State)
    → Waits (s.xacts i) g timer p 1
    → (timeout env i s.global_response_event s).1 ≡ (error, dispose i (counted i s))
timeout_last env i g timer p s w =
    ap (λ r. r.1) (timeout_routes env i g s w.node w.begun)
    ∙ response_last env i s (omega (arith, w.left)) (ground (arith, w.left))

once-Waits :
    (i g timer n : ℕ) (p : Packet) (s : State)
    → Waits (s.xacts i) g timer p (suc n)
    → Waits ((once i g timer p s).xacts i) g timer p n
unfolding once
once-Waits i g timer n p s w = rw (==_refl i) (record {
  node = w.node;
  begun = w.begun;
  last = w.last;
  clock = w.clock;
  runs = w.runs;
  left = omega (arith, w.left);
  origin = w.origin;
})

expire-step :
    (n : ℕ) (env : Env) (i : ℕ) (s s' : State)
    → (timeout env i s.global_response_event s).1 ≡ (ok, s')
    → expire (suc n) env i s ≡ expire n env i s'
unfolding expire
expire-step n env i s s' e = ap (after (expire n env i)) e

-- What comes of a transaction that waits in vain.
abbrev pub GivesUp : ℕ → Env → ℕ → ℕ → ℕ → Packet → ℕ → List ℕ → List ℕ → State → Type 0
GivesUp n env i g timer p list pre post s =
    ((expire n env i s).0 ≡ ok)
    × ((expire n env i s).1.log ≡ s.log ++ resends n timer g p)
    × ((expire (suc n) env i s).0 ≡ error)
    × IsList (expire (suc n) env i s).1.links list (pre ++ post)
    × ((expire (suc n) env i s).1.table ≡ Index.free s.table (some i))

counted-origin : (i : ℕ) (s : State) → ((counted i s).xacts i).origin ≡ (s.xacts i).origin
counted-origin i s = rw (==_refl i) refl

expired :
    (env : Env) (i g timer list : ℕ) (p : Packet) (pre post : List ℕ) (s : State)
    → Waits (s.xacts i) g timer p 1
    → IsList s.links list (pre ++ node_at i ∷ post)
    → GivesUp 0 env i g timer p list pre post s
unfolding expire resends
expired env i g timer list p pre post s w l =
    let origin : (((counted i s).xacts i).origin ≡ 0) ⊎ (((counted i s).xacts i).origin ≡ 1) =
      subst (λ o. (o ≡ 0) ⊎ (o ≡ 1)) (sym (counted-origin i s)) w.origin in
    let gone = dispose_lem i list pre post (counted i s) origin l in
    let last : expire 1 env i s ≡ (error, dispose i (counted i s)) =
      ap (after (expire 0 env i)) (timeout_last env i g timer p s w) in
    (
      refl,
      sym (append-nil s.log),
      ap (λ r. r.0) last,
      subst (λ (r : Status × State). IsList r.1.links list (pre ++ post)) (sym last) gone.0,
      ap (λ r. r.1.table) last ∙ gone.1,
    )

-- A transaction with `n + 1` attempts left, at most 255, that waits in vain, where the socket takes
-- each packet: at each of the first `n` times that its response timer runs out, `PfcpXactTimeout`
-- starts the timer again and sends the last packet once more, without another call outside; at the
-- next time it reports an error, and the transaction is out of its list and its object back in the pool.
pub expire-GivesUp :
    (n : ℕ) (env : Env) (i g timer list : ℕ) (p : Packet) (pre post : List ℕ) (s : State)
    → Waits (s.xacts i) g timer p (suc n)
    → suc n < 256
    → env.send_ok ≡ true
    → IsList s.links list (pre ++ node_at i ∷ post)
    → GivesUp n env i g timer p list pre post s
unfolding once resends
expire-GivesUp zero env i g timer list p pre post s w bound sends l =
    expired env i g timer list p pre post s w l
expire-GivesUp (suc n) env i g timer list p pre post s w bound sends l =
    let s' = once i g timer p s in
    let e = timeout_again env i g timer n p s w bound sends in
    let rest =
      expire-GivesUp n env i g timer list p pre post s' (once-Waits i g timer (suc n) p s w)
        (omega (arith, bound)) sends l in
    let now = expire-step n env i s s' e in
    let then_last = expire-step (suc n) env i s s' e in
    (
      ap (λ r. r.0) now ∙ rest.0,
      ap (λ r. r.1.log) now
          ∙ rest.1
          ∙ append_assoc (s.log ++ timer_started timer ∷ []) (sent g p ∷ []) (resends n timer g p)
          ∙ append_assoc s.log (timer_started timer ∷ []) (sent g p ∷ resends n timer g p),
      ap (λ r. r.0) then_last ∙ rest.2,
      subst (λ (r : Status × State). IsList r.1.links list (pre ++ post)) (sym then_last) rest.3,
      ap (λ r. r.1.table) then_last ∙ rest.4,
    )
