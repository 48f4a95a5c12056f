-- ===== src/Context.antt =====
-- src/upf_context.c and src/upf_context.h: the rules of a kind (PDR, FAR, QER) under their ids, and
-- what their macros use of utlt_hash.c. The table always has memory for an entry, as in Hash: only the
-- pool of nodes can be empty.
use het_bed.Base.{ℕ, Bool, ◌≡◌, ◌≢◌, Option, none, some, ◌+◌, ◌*◌, if◌then◌else◌}
use het_bed.Index.{Index}
use het_bed.ListHead.{Heap}
pub mod Rules
pub mod Find
pub mod Fresh
pub mod Deadlock
pub mod Clear
pub mod Shared
pub mod Ids
pub mod Far
mod Tests

-- A table as `HashSet` and `HashGet` on the ids of rules: a value NULL is no entry.
pub record Table : Type 1 where
  pub Carrier : Type 0
  pub get : Carrier → ℕ → Option ℕ
  pub set : Carrier → ℕ → Option ℕ → Carrier
  pub get-set_same : (t : Carrier) (k : ℕ) (v : Option ℕ) → get (set t k v) k ≡ v
  pub get-set_other : (t : Carrier) (k j : ℕ) (v : Option ℕ) → j ≢ k → get (set t k v) j ≡ get t j

-- The pool of nodes of a kind of rule, the rules in them, the links of the lists of the sessions, the
-- hash table, and whether its mutex is held.
pub record Store (C R : Type 0) : Type 0 where
  pub pool : Index
  pub rule : ℕ → R
  pub links : Heap
  pub hash : C
  pub locked : Bool

-- The node of an object of the pool, and the head of the list of a session.
abbrev pub node_at : ℕ → ℕ
node_at n = 2 * n + 1

abbrev pub list_of : ℕ → ℕ
list_of sess = 2 * sess + 2

-- A call returns, waits for a mutex that is never given back, or writes through NULL.
pub data Outcome (A : Type 0) : Type 0 where
  returned : A → Outcome A
  blocked fault : Outcome A
