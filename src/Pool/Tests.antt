-- ===== src/Pool/Tests.antt =====
-- Runs of the pool, and its theorems at concrete pools.
use mathlib.Core.List.{Nodup}
use het_bed.Base.{◌+◌, ◌≡◌, refl, none, some, [], ◌∷◌, ◌++◌, map, length, arith}
use het_bed.Pool.{Pool, init, size, alloc, free}
use het_bed.Pool.Avail.{IsValid, avail}
use het_bed.Pool.Ownership.{
  World, Reach, start, then_step, takes, refused, returns, fresh, run_owned,
}

-- The free cells go round the end of the array.
abbrev wrapped : Pool
wrapped = record { front = 2; end = 1; cap = 2; queue_avail = some 1 ∷ none ∷ some 0 ∷ [] }

wrapped-IsValid : IsValid wrapped
wrapped-IsValid = omega arith

abbrev taken : Pool
taken = record { front = 0; end = 1; cap = 2; queue_avail = some 1 ∷ none ∷ some 0 ∷ [] }

taken-IsValid : IsValid taken
taken-IsValid = omega arith

avail-wrapped : avail wrapped ≡ some 0 ∷ some 1 ∷ []
unfolding size
avail-wrapped = refl

-- Two allocations, a refusal, and the return of the first pointer.
abbrev emptied : Pool
emptied = record { front = 2; end = 2; cap = 2; queue_avail = some 0 ∷ some 1 ∷ none ∷ [] }

abbrev half_taken : Pool
half_taken = record { front = 1; end = 2; cap = 2; queue_avail = some 0 ∷ some 1 ∷ none ∷ [] }

returned : World
unfolding free
returned = record { pool = free emptied (some 0); held = 1 ∷ [] }

history : Reach (fresh 2 none) returned
unfolding returned alloc init
history =
    then_step
      (then_step (then_step (then_step start (takes 0 half_taken refl)) (takes 1 emptied refl))
        (refused emptied refl))
      (returns (1 ∷ []) [] 0 refl)

run_owned_example :
    Nodup (map some returned.held ++ avail returned.pool)
    × (length returned.held + size returned.pool ≡ 2)
run_owned_example = run_owned 2 none history
