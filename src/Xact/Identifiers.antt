-- ===== src/Xact/Identifiers.antt =====
-- Sequence numbers and transaction identifiers.
use het_bed.Base.{ℕ, ◌%◌, ◌^◌, ◌≤◌, ◌<◌, ◌≡◌, false, Option, none, some, List, arith, subst, sym}
use het_bed.Index
use het_bed.Index.{Index}
use het_bed.Pool.{Ptr}
use het_bed.Xact.Types.{
  Status, ok, error, again, fault, Header, Env, State, transaction_id2sqn, sqn2transaction_id,
  remote_bit, max_xact_id,
}
use het_bed.Xact.Exchange.{update_tx}
use het_bed.Xact.Life.{local_create, local_create_at, keep_if_ok, local_setup}

-- The identifier in a message is read back as it was written, modulo 2 ^ 24: the sequence number
-- has 24 bits.
pub sqn2transaction_id-transaction_id2sqn :
    (t : ℕ) → sqn2transaction_id (transaction_id2sqn t) ≡ t % 2 ^ 24
unfolding sqn2transaction_id transaction_id2sqn
sqn2transaction_id-transaction_id2sqn t = omega arith

-- The state's counter, and the identifier that a local transaction takes from it.
abbrev pub IsCounter : State → Type 0
IsCounter s = (1 ≤ s.global_xact_id) × (s.global_xact_id ≤ max_xact_id)

abbrev pub IsLocalId : ℕ → Type 0
IsLocalId t = (1 ≤ t) × (t < max_xact_id) × (remote_bit t ≡ false)

keep_if_ok-some :
    (j i : ℕ) (r : Status × State) (s' : State)
    → keep_if_ok j r ≡ (some i, s')
    → (j ≡ i) × (r ≡ (ok, s'))
keep_if_ok-some j i (ok, s) s' e = (ground arith, ground arith)
keep_if_ok-some j i (error, s) s' e = absurd (ground arith)
keep_if_ok-some j i (again, s) s' e = absurd (ground arith)
keep_if_ok-some j i (fault, s) s' e = absurd (ground arith)

update_tx-keeps :
    (env : Env) (i : ℕ) (header : Option Header) (body : Option (List ℕ)) (s s' : State)
    → update_tx env (some i) header body s ≡ (ok, s')
    → ((s'.xacts i).transaction_id ≡ (s.xacts i).transaction_id)
      × (s'.global_xact_id ≡ s.global_xact_id)
unfolding update_tx
update_tx-keeps env i none body s s' e = absurd (ground arith)
update_tx-keeps env i (some header) none s s' e = absurd (ground arith)
update_tx-keeps env i (some header) (some body) s s' e = ground arith

local_setup-id :
    (i g : ℕ) (t : Index) (s : State)
    → IsCounter s
    → IsLocalId ((local_setup i g t s).xacts i).transaction_id × IsCounter (local_setup i g t s)
unfolding local_setup
local_setup-id i g t s c = ground arith

local_create_at-id :
    (env : Env) (g : ℕ) (header : Option Header) (body : Option (List ℕ)) (s : State)
    (r : Ptr × Index) (i : ℕ) (s' : State)
    → IsCounter s
    → local_create_at env g header body s r ≡ (some i, s')
    → IsLocalId (s'.xacts i).transaction_id × IsCounter s'
local_create_at-id env g header body s (none, t) i s' c e = absurd (ground arith)
local_create_at-id env g header body s (some j, t) i s' c e =
    let kept =
      keep_if_ok-some j i (update_tx env (some j) header body (local_setup j g t s)) s' e in
    let same = update_tx-keeps env j header body (local_setup j g t s) s' kept.1 in
    let ids = local_setup-id j g t s c in
    subst (λ k. IsLocalId (s'.xacts k).transaction_id × IsCounter s') kept.0
      (
        subst IsLocalId (sym same.0) ids.0,
        subst (λ n. (1 ≤ n) × (n ≤ max_xact_id)) (sym same.1) ids.1,
      )

-- A transaction that this side begins has an identifier from 1 up to 0x7fffff, so bit 23, by which
-- a response is looked up among the peer's transactions, is never set; the counter stays in range.
pub local_create-IsLocalId :
    (env : Env) (g : ℕ) (header : Option Header) (body : Option (List ℕ)) (s : State) (i : ℕ)
    (s' : State)
    → IsCounter s
    → local_create env (some g) header body s ≡ (some i, s')
    → IsLocalId (s'.xacts i).transaction_id × IsCounter s'
unfolding local_create
local_create-IsLocalId env g header body s i s' c e =
    local_create_at-id env g header body s (Index.alloc s.table) i s' c e
