-- ===== src/Pool.antt =====
-- lib/utlt/include/utlt_pool.h: a pool of preallocated objects behind a circular queue of the
-- pointers that are free. Every method holds the pool's lock, so a method is one step.
pub mod Avail
pub mod Refine
pub mod Ownership
mod Tests
use het_bed.Base.{
  ℕ, zero, suc, ◌+◌, ◌-◌, ◌%◌, Bool, ltb, if◌then◌else◌, Option, none, some, List, [], ◌∷◌, ◌++◌,
  set, get_or,
}

-- A pointer into `pool[]` is its index, `none` is NULL.
abbrev pub Ptr : Type 0
Ptr = Option ℕ

-- `queueAvail` has `qCap + 1` cells.
pub record Pool : Type 0 where
  pub front : ℕ
  pub end : ℕ
  pub cap : ℕ
  pub queue_avail : List Ptr

-- The loop of `PoolInit`: cells `i` to `cap - 1`, with `n` of them left.
unfoldable pub fill : ℕ → ℕ → List Ptr
fill i zero = []
fill i (suc n) = some i ∷ fill (i + 1) n

-- The last cell is not written: it keeps what was there, `rest`.
unfoldable pub init : ℕ → Ptr → Pool
unfolding fill
init cap rest = record { front = 0; end = cap; cap = cap; queue_avail = fill 0 cap ++ rest ∷ [] }

-- `PoolSize`: the `int` difference is not negative, since `qFront <= qCap`.
unfoldable pub size : Pool → ℕ
size p = (p.end + p.cap + 1 - p.front) % (p.cap + 1)

-- `PoolUsedCheck`
pub used_check : Pool → ℕ
unfolding size
used_check p = p.cap - size p

unfoldable pub alloc : Pool → Ptr × Pool
unfolding size
alloc p =
    if ltb 0 (size p)
    then (get_or p.queue_avail p.front none, record p { front = (p.front + 1) % (p.cap + 1) })
    else (none, p)

unfoldable pub free : Pool → Ptr → Pool
unfolding size
free p ptr =
    if ltb (size p) p.cap
    then record p { queue_avail = set p.queue_avail p.end ptr; end = (p.end + 1) % (p.cap + 1) }
    else p
