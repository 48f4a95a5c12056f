-- ===== src/Xact/Lookup.antt =====
-- Which transaction a message is matched with.
use het_bed.Base.{
  ℕ, zero, suc, ◌+◌, ◌-◌, ◌≤◌, ◌<◌, ◌≡◌, refl, sym, ap, ◌∙◌, subst, Bool, true, false, ◌==◌,
  if◌then◌else◌, none, some, List, [], ◌∷◌, length, arith, ne→==, ltb, ◌^◌, Bool-cases, inl, inr,
}
use het_bed.ListHead.{Heap, list_first, list_head_init}
use het_bed.ListHead.Chain.{Chain, Fresh, IsList}
use het_bed.ListHead.Insert.{list_insert-head}
use het_bed.Pool.{Ptr}
use het_bed.Index
use het_bed.Index.{Index}
use het_bed.Xact.Types.{
  initial_stage, get_stage, is_request, is_response, remote_bit, PfcpXact, Env, State, put, node_at,
  local_list, remote_list, pool_size,
}
use het_bed.Xact.Life.{
  remote_create, remote_create_at, remote_response, remote_holding, remote_link, remote_object,
  response_part, holding_part, clear_object,
}
use het_bed.Xact.Traffic.{Found, found, absent, find_loop, find_by_transaction_id, list_of_stage}

-- The first object of the list with the identifier.
unfoldable pub first_with : (ℕ → PfcpXact) → ℕ → List ℕ → Found
first_with xacts id [] = absent
first_with xacts id (a ∷ nodes) =
    if (xacts (a - 1)).transaction_id == id then found (a - 1) else first_with xacts id nodes

find-Chain :
    (fuel : ℕ) (xacts : ℕ → PfcpXact) (links : Heap) (p : ℕ) (nodes : List ℕ) (list id : ℕ)
    → length nodes ≤ fuel
    → Fresh list nodes
    → Fresh 0 nodes
    → Chain links p nodes list
    → find_loop fuel xacts links (links.next p) list id ≡ first_with xacts id nodes
unfolding find_loop first_with
find-Chain zero xacts links p [] list id n f z c = rw c.0 (ground arith)
find-Chain zero xacts links p (a ∷ nodes) list id n f z c = absurd (omega arith)
find-Chain (suc fuel) xacts links p [] list id n f z c = rw c.0 (ground arith)
find-Chain (suc fuel) xacts links p (a ∷ nodes) list id n f z c = rw (
  c.0,
  ne→== a list (λ e. f.0 (sym e)),
  ne→== a 0 (λ e. z.0 (sym e)),
  find-Chain fuel xacts links a nodes list id (omega arith) f.1 z.1 c.2,
)

-- The lookup in a list that is well formed.
find_in_list :
    (g type id : ℕ) (s : State) (list : ℕ) (nodes : List ℕ)
    → list_of_stage g (get_stage type) id ≡ some list
    → IsList s.links list nodes
    → Fresh 0 nodes
    → length nodes ≤ pool_size
    → find_by_transaction_id (some g) type id s ≡ first_with s.xacts id nodes
unfolding find_by_transaction_id list_first
find_in_list g type id s list nodes e l z n =
    rw (e, find_by_transaction_id)
      (find-Chain pool_size s.xacts s.links list nodes list id n l.distinct.0 z l.links)

-- Among which transactions a message belongs: a request among those of the peer, a response among
-- those of this side, whose identifiers are below 2^23, or else among those of the peer.
abbrev pub candidates : ℕ → ℕ → List ℕ → List ℕ → List ℕ
candidates type id ours theirs =
    if is_request type
    then theirs
    else if is_response type
    then if ltb id (2 ^ 23) then ours else theirs
    else []

-- The nodes of a well-formed list of objects of the pool.
pub record Holds (s : State) (list : ℕ) (nodes : List ℕ) : Type 0 where
  pub chain : IsList s.links list nodes
  pub objects : Fresh 0 nodes
  pub few : length nodes ≤ pool_size

held_found :
    (g type id : ℕ) (s : State) (list : ℕ) (nodes : List ℕ)
    → list_of_stage g (get_stage type) id ≡ some list
    → Holds s list nodes
    → find_by_transaction_id (some g) type id s ≡ first_with s.xacts id nodes
held_found g type id s list nodes e h =
    find_in_list g type id s list nodes e h.chain h.objects h.few

low_bit : (id : ℕ) → ltb id (2 ^ 23) ≡ true → remote_bit id ≡ false
low_bit id h = ground arith

high_bit : (id : ℕ) → id < 2 ^ 24 → ltb id (2 ^ 23) ≡ false → remote_bit id ≡ true
high_bit id h n = ground arith

request_list :
    (g type id : ℕ)
    → is_request type ≡ true
    → list_of_stage g (get_stage type) id ≡ some (remote_list g)
unfolding list_of_stage get_stage
request_list g type id r = rw r refl

response_list :
    (g type id : ℕ)
    → is_request type ≡ false
    → is_response type ≡ true
    → list_of_stage g (get_stage type) id
      ≡ (if remote_bit id then some (remote_list g) else some (local_list g))
unfolding list_of_stage get_stage
response_list g type id r a = rw (r, a) refl

no_list :
    (g type id : ℕ)
    → is_request type ≡ false
    → is_response type ≡ false
    → list_of_stage g (get_stage type) id ≡ none
unfolding list_of_stage get_stage
no_list g type id r a = rw (r, a) refl

not_found :
    (g type id : ℕ) (s : State)
    → list_of_stage g (get_stage type) id ≡ none
    → find_by_transaction_id (some g) type id s ≡ absent
unfolding find_by_transaction_id
not_found g type id s e = rw (e, find_by_transaction_id) refl

response_found :
    (g type id : ℕ) (s : State) (ours theirs : List ℕ)
    → is_request type ≡ false
    → is_response type ≡ true
    → id < 2 ^ 24
    → Holds s (local_list g) ours
    → Holds s (remote_list g) theirs
    → find_by_transaction_id (some g) type id s
      ≡ first_with s.xacts id (if ltb id (2 ^ 23) then ours else theirs)
response_found g type id s ours theirs r a bound o t = elim (Bool-cases (ltb id (2 ^ 23))) [
  | inl low ↦ rw low (
      held_found g type id s (local_list g) ours
        (response_list g type id r a ∙ rw (low_bit id low) refl) o)
  | inr high ↦ rw high (
      held_found g type id s (remote_list g) theirs
        (response_list g type id r a ∙ rw (high_bit id bound high) refl) t)
]

-- `PfcpXactFindByTransactionId` on well-formed lists: a request is matched with the first transaction
-- of the peer's list that has its identifier, a response with the first one of this side's list if the
-- identifier, which has 24 bits, is below 2^23, and of the peer's list otherwise; any other message
-- with none. The fuel, one round for each object of the pool, is enough.
pub find_by_transaction_id_lem :
    (g type id : ℕ) (s : State) (ours theirs : List ℕ)
    → id < 2 ^ 24
    → Holds s (local_list g) ours
    → Holds s (remote_list g) theirs
    → find_by_transaction_id (some g) type id s
      ≡ first_with s.xacts id (candidates type id ours theirs)
unfolding first_with
find_by_transaction_id_lem g type id s ours theirs bound o t = elim (Bool-cases (is_request type)) [
  | inl r ↦ rw r (held_found g type id s (remote_list g) theirs (request_list g type id r) t)
  | inr r ↦ elim (Bool-cases (is_response type)) [
    | inl a ↦ rw (r, a) (response_found g type id s ours theirs r a bound o t)
    | inr a ↦ rw (r, a) (not_found g type id s (no_list g type id r a))
  ]
]

init-IsList : (a : ℕ) (h : Heap) → IsList (list_head_init a h) a []
unfolding list_head_init
init-IsList a h = record { links = (ground arith, ground arith); distinct = (tt, tt) }

remote_link-IsList :
    (i g : ℕ) (s : State)
    → i < pool_size
    → IsList (remote_link i g s).links (remote_list g) (node_at i ∷ [])
unfolding remote_link
remote_link-IsList i g s h =
    list_insert-head {a = remote_list g} {xs = []} (node_at i) (init-IsList (remote_list g) s.links)
      ((λ e. omega (arith, e)), tt)

remote_holding-some :
    (j i g : ℕ) (r : Bool × State) (s' : State)
    → remote_holding j g r ≡ (some i, s')
    → (j ≡ i) × (s' ≡ remote_link j g r.1)
remote_holding-some j i g (true, s) s' e = (ground arith, sym (ap (λ r. r.1) e))
remote_holding-some j i g (false, s) s' e = absurd (ground arith)

remote_create_at-some :
    (env : Env) (g sqn : ℕ) (s : State) (r : Ptr × Index) (i : ℕ) (s' : State)
    → remote_create_at env g sqn s r ≡ (some i, s')
    → (s0 : State) × (s' ≡ remote_link i g s0)
remote_create_at-some env g sqn s (none, t) i s' e = absurd (ground arith)
remote_create_at-some env g sqn s (some j, t) i s' e =
    go (response_part env j (put j (remote_object g sqn) (clear_object j t s))) e
  where
    go :
        (q : Bool × State)
        → remote_response env j g q ≡ (some i, s')
        → (s0 : State) × (s' ≡ remote_link i g s0)
    go (true, s1) e1 =
        let k = remote_holding-some j i g (holding_part env j s1) s' e1 in
        (
          (holding_part env j s1).1,
          subst (λ m. s' ≡ remote_link m g (holding_part env j s1).1) k.0 k.1,
        )
    go (false, s1) e1 = absurd (ground arith)

first_with-one :
    (xacts : ℕ → PfcpXact) (i id : ℕ)
    → first_with xacts id (node_at i ∷ [])
      ≡ (if (xacts i).transaction_id == id then found i else absent)
unfolding first_with
first_with-one xacts i id =
    ap (λ k. if (xacts k).transaction_id == id then found k else absent)
      (let e : i + 1 - 1 ≡ i = omega arith in e)

-- Creating a transaction for a peer's message initialises the peer's list anew: whatever stood in
-- it, afterwards a request of that peer is matched with the new transaction or with none.
pub remote_create_forgets :
    (env : Env) (g sqn : ℕ) (s : State) (i : ℕ) (s' : State) (type id : ℕ)
    → i < pool_size
    → remote_create env (some g) sqn s ≡ (some i, s')
    → get_stage type ≡ initial_stage
    → IsList s'.links (remote_list g) (node_at i ∷ [])
      × (find_by_transaction_id (some g) type id s'
          ≡ (if (s'.xacts i).transaction_id == id then found i else absent))
unfolding remote_create list_of_stage
remote_create_forgets env g sqn s i s' type id h e st =
    let made = remote_create_at-some env g sqn s (Index.alloc s.table) i s' e in
    let l : IsList s'.links (remote_list g) (node_at i ∷ []) =
      subst (λ (u : State). IsList u.links (remote_list g) (node_at i ∷ [])) (sym made.1)
        (remote_link-IsList i g made.0 h) in
    (
      l,
      find_in_list g type id s' (remote_list g) (node_at i ∷ []) (rw st refl) l
            ((λ z. omega (arith, z)), tt) (omega arith)
          ∙ first_with-one s'.xacts i id,
    )
