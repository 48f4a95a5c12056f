-- ===== src/Xact/Ending.antt =====
-- How a transaction ends: deleted, committed after its last message, or given up by a timer.
use het_bed.Base.{
  ℕ, ◌+◌, ◌≡◌, ◌⊎◌, inl, inr, refl, sym, ap, ◌∙◌, subst, true, ◌==◌, ◌||◌, some, List, [], ◌∷◌,
  ◌++◌, length, arith, Bool-cases, Option-cases, set, get_or, get_or-set_self,
}
use het_bed.Index
use het_bed.ListHead.{list_remove}
use het_bed.ListHead.Chain.{IsList}
use het_bed.ListHead.Remove.{list_remove_lem}
use het_bed.Xact.Types.{
  ok, final_stage, get_stage, Seq, no_seq, PfcpXact, Effect, timer_deleted, Env, State, put,
  emit_if, node_at,
}
use het_bed.Xact.Exchange.{update_rx, seq_at}
use het_bed.Xact.Life.{delete, dispose, free_bufs, free_buf, part, deassociate, untyped}
use het_bed.Xact.Traffic.{commit}
use het_bed.Xact.Protocol.{Allowed-local_in, taken, update_rx-taken, update_rx-Allowed}

-- The lists and the pool are as they were.
record Kept (s t : State) : Type 0 where
  links : t.links ≡ s.links
  table : t.table ≡ s.table

Kept-trans : {s t u : State} → Kept s t → Kept t u → Kept s u
Kept-trans k l = record { links = l.links ∙ k.links; table = l.table ∙ k.table }

free_buf-Kept : (q : Seq) (s : State) → Kept s (free_buf q s)
free_buf-Kept q s = elim (Option-cases q.buf_blk) [
  | inl e ↦ rw e (record { links = refl; table = refl })
  | inr (p, e) ↦ rw e (record { links = refl; table = refl })
]

free_bufs-Kept : (qs : List Seq) (s : State) → Kept s (free_bufs qs s)
free_bufs-Kept [] s = record { links = refl; table = refl }
free_bufs-Kept (q ∷ qs) s = Kept-trans (free_buf-Kept q s) (free_bufs-Kept qs (free_buf q s))

emit_if-Kept : (timer : ℕ) (e : ℕ → Effect) (s : State) → Kept s (emit_if timer e s)
emit_if-Kept timer e s = elim (Bool-cases (timer == 0)) [
  | inl z ↦ rw z (record { links = refl; table = refl })
  | inr z ↦ rw z (record { links = refl; table = refl })
]

deassociate-Kept : (i j : ℕ) (s : State) → Kept s (deassociate i j s)
unfolding deassociate
deassociate-Kept i j s = record { links = ground arith; table = ground arith }

part-Kept : (i : ℕ) (s : State) → Kept s (part i s)
part-Kept i s = elim (Option-cases (s.xacts i).associated_xact) [
  | inl e ↦ rw (e, part) (record { links = refl; table = refl })
  | inr (j, e) ↦ rw (e, part) (deassociate-Kept i j s)
]

-- The object without its messages.
emptied : PfcpXact → PfcpXact
emptied x = record x { origin = 0; transaction_id = 0; step = 0; seq = untyped x.seq }

dispose_parts :
    (i : ℕ) (s : State)
    → ((s.xacts i).origin == 0 || (s.xacts i).origin == 1) ≡ true
    → ((dispose i s).links ≡ list_remove (node_at i) s.links)
      × ((dispose i s).table ≡ Index.free s.table (some i))
unfolding dispose emptied
dispose_parts i s ht = rw (ht, dispose) (kept.links, ap (λ t. Index.free t (some i)) kept.table)
  where
    start : State
    start = put i (emptied (s.xacts i)) (record s { links = list_remove (node_at i) s.links })

    buffers : State
    buffers = free_bufs (s.xacts i).seq start

    response : State
    response = emit_if (s.xacts i).timer_response timer_deleted buffers

    holding : State
    holding = emit_if (s.xacts i).timer_holding timer_deleted response

    kept : Kept start (part i holding)
    kept = Kept-trans (free_bufs-Kept (s.xacts i).seq start) (
        Kept-trans (emit_if-Kept (s.xacts i).timer_response timer_deleted buffers) (
          Kept-trans (emit_if-Kept (s.xacts i).timer_holding timer_deleted response)
            (part-Kept i holding)))

pub dispose_lem :
    (i list : ℕ) (pre post : List ℕ) (s : State)
    → ((s.xacts i).origin ≡ 0) ⊎ ((s.xacts i).origin ≡ 1)
    → IsList s.links list (pre ++ node_at i ∷ post)
    → IsList (dispose i s).links list (pre ++ post)
      × ((dispose i s).table ≡ Index.free s.table (some i))
dispose_lem i list pre post s ho l =
    let gone = dispose_parts i s (ground arith) in
    (
      subst (λ h. IsList h list (pre ++ post)) (sym gone.0)
          (list_remove_lem pre (node_at i) post l).0,
      gone.1,
    )

-- `PfcpXactDelete` takes the transaction out of the list that it stands in and gives its object
-- back to the pool, behind the free ones.
pub delete_lem :
    (i g list : ℕ) (pre post : List ℕ) (s : State)
    → (s.xacts i).gnode ≡ some g
    → ((s.xacts i).origin ≡ 0) ⊎ ((s.xacts i).origin ≡ 1)
    → IsList s.links list (pre ++ node_at i ∷ post)
    → let (status, s') = delete (some i) s in
      (status ≡ ok) × IsList s'.links list (pre ++ post) × (s'.table ≡ Index.free s.table (some i))
unfolding delete
delete_lem i g list pre post s hg ho l =
    let gone = dispose_lem i list pre post s ho l in rw (hg, delete) (refl, gone.0, gone.1)

typed :
    (s' : State) (x : PfcpXact) (type : ℕ) {i : ℕ}
    → s'.xacts i ≡ taken x type
    → length x.seq ≡ 3
    → x.step ≡ 1
    → (seq_at (s'.xacts i) 1).type ≡ type
typed s' x type {i} e l h =
    ap (λ y. (seq_at y 1).type) e
    ∙ (ap
          (λ k.
            (get_or (set x.seq x.step (record { type = type; buf_blk = (seq_at x x.step).buf_blk }))
              k no_seq).type)
          (sym h)
        ∙ ap (λ q. q.type)
            (get_or-set_self x.seq x.step
              (record { type = type; buf_blk = (seq_at x x.step).buf_blk }) no_seq (omega arith)))

commit_finishes :
    (env : Env) (i g : ℕ) (s : State)
    → (s.xacts i).gnode ≡ some g
    → (s.xacts i).origin ≡ 0
    → (s.xacts i).step ≡ 2
    → get_stage (seq_at (s.xacts i) 1).type ≡ final_stage
    → commit env (some i) s ≡ (ok, dispose i s)
unfolding commit
commit_finishes env i g s hg ho hs ht = rw (hg, commit) (rw (hs, ho, ht))

-- A transaction that this side began ends with the response: once `PfcpXactUpdateRx` has taken it,
-- `PfcpXactCommit` sends nothing and deletes the transaction.
pub commit_after_response :
    (env env' : Env) (i g type : ℕ) (s s' : State)
    → (s.xacts i).origin ≡ 0
    → (s.xacts i).gnode ≡ some g
    → length (s.xacts i).seq ≡ 3
    → update_rx env i type s ≡ (ok, s')
    → commit env' (some i) s' ≡ (ok, dispose i s')
unfolding commit
commit_after_response env env' i g type s s' ho hg hl e =
    let now = update_rx-taken env i type s s' e in
    let how = Allowed-local_in (update_rx-Allowed env i type s s' e) ho refl in
    commit_finishes env' i g s' (ap (λ x. x.gnode) now ∙ hg) (ap (λ x. x.origin) now ∙ ho)
      (ap (λ x. x.step) now ∙ ap (λ n. n + 1) how.0)
      (ap get_stage (typed s' (s.xacts i) type now hl how.0) ∙ how.1)
