-- ===== src/Buff/Tests.antt =====
-- The theorems about blocks at pools with two buffers of each class.
use het_bed.Base.{ℕ, ◌≡◌, refl, [], ◌∷◌, ◌++◌, true, none, some, arith, inr}
use het_bed.Pool
use het_bed.Pool.{Pool}
use het_bed.Buff.Ops.{State, Bufblk, class_of, buf_alloc, bufblk_bytes, content, set_pool}
use het_bed.Buff.Content.{IsHolding, bufblk_bytes_lem}
use het_bed.Buff.Alloc.{utlt_malloc, utlt_free, utlt_free-utlt_malloc}

abbrev two_each : Pool
two_each = record { front = 0; end = 2; cap = 2; queue_avail = some 0 ∷ some 1 ∷ none ∷ [] }

abbrev fresh : State
fresh = record { pools = λ c. two_each; bufblk_pool = two_each; mem = λ c i j. 0 }

-- A block of the smallest class with 62 bytes in use.
abbrev nearly_full : Bufblk
nearly_full = record { buf = record { class = 64; number = 1 }; size = 64; len = 62 }

abbrev larger : Bufblk
larger = record { buf = record { class = 128; number = 0 }; size = 128; len = 0 }

larger_taken : (buf_alloc 1 67 fresh).0 ≡ some larger
unfolding buf_alloc class_of Pool.alloc Pool.size
larger_taken = refl

bufblk_bytes_lem_example :
    (n : ℕ) × IsHolding n
      (content nearly_full fresh ++ 7 ∷ 8 ∷ 9 ∷ [])
      (bufblk_bytes (7 ∷ 8 ∷ 9 ∷ []) nearly_full fresh)
unfolding class_of
bufblk_bytes_lem_example =
    bufblk_bytes_lem (7 ∷ 8 ∷ 9 ∷ []) nearly_full 64 fresh refl (omega arith) (omega arith)
      (inr (larger, larger_taken))

taken : (utlt_malloc 100 fresh).0 ≡ some (record { class = 128; number = 0 })
unfolding utlt_malloc buf_alloc class_of Pool.alloc Pool.size
taken = refl

utlt_free-utlt_malloc_example :
    utlt_free (record { class = 128; number = 0 }) (utlt_malloc 100 fresh).1 ≡ (
      true,
      set_pool 128
          (Pool.free ((utlt_malloc 100 fresh).1.pools 128) (some 0))
          (utlt_malloc 100 fresh).1,
    )
utlt_free-utlt_malloc_example =
    utlt_free-utlt_malloc 100 fresh (record { class = 128; number = 0 }) taken
