-- ===== src/Index.antt =====
-- lib/utlt/include/utlt_index.h: the pool whose objects carry the number by which they are found.
pub mod Find
mod Tests
use het_bed.Base.{
  ℕ, zero, suc, ◌+◌, ◌-◌, ◌%◌, Bool, ltb, ◌==◌, if◌then◌else◌, Option, none, some, List, [], ◌∷◌,
  ◌++◌, set, get_or,
}
use het_bed.Pool.{Ptr, Pool}
use het_bed.Pool

-- The macros repeat the pool's, with `arrayForIndex` beside `queueAvail`. `index_of i` is the field
-- `index` of the object `pool[i]`.
pub record Index : Type 0 where
  pub queue : Pool
  pub array_for_index : List ℕ
  pub index_of : ℕ → ℕ

-- The loop of `IndexInit` over `arrayForIndex`.
unfoldable pub number : ℕ → ℕ → List ℕ
number i zero = []
number i (suc n) = i ∷ number (i + 1) n

-- What the last cell of each array and the objects held before stays.
unfoldable pub init : ℕ → Ptr → ℕ → (ℕ → ℕ) → Index
unfolding number
init cap rest last objects = record {
  queue = Pool.init cap rest;
  array_for_index = number 0 cap ++ last ∷ [];
  index_of = objects;
}

-- `ptr->index = v`. A write through NULL is a fault; the invariant rules it out.
unfoldable pub set_index : (ℕ → ℕ) → Ptr → ℕ → ℕ → ℕ
set_index objects none v j = objects j
set_index objects (some i) v j = if j == i then v else objects j

-- `ptr->index`
unfoldable pub get_index : (ℕ → ℕ) → Ptr → ℕ
get_index objects none = 0
get_index objects (some i) = objects i

-- The object is cleared and numbered.
unfoldable pub alloc : Index → Ptr × Index
alloc x =
    if ltb 0 (Pool.size x.queue)
    then (
      get_or x.queue.queue_avail x.queue.front none,
      record x {
        queue = record x.queue { front = (x.queue.front + 1) % (x.queue.cap + 1) };
        index_of =
            set_index x.index_of (get_or x.queue.queue_avail x.queue.front none)
              (get_or x.array_for_index x.queue.front 0);
      },
    )
    else (none, x)

unfoldable pub free : Index → Ptr → Index
free x ptr =
    if ltb (Pool.size x.queue) x.queue.cap
    then record x {
      queue = record x.queue {
        queue_avail = set x.queue.queue_avail x.queue.end ptr;
        end = (x.queue.end + 1) % (x.queue.cap + 1);
      };
      array_for_index = set x.array_for_index x.queue.end (get_index x.index_of ptr);
    }
    else x

-- `&pool[index]`: the macro checks nothing, and its result is never NULL.
unfoldable pub find : ℕ → Ptr
find index = some index
