-- ===== src/Match/EntryTests.antt =====
-- The theorem about packets that are kept, at pools with two buffers of each class.
use het_bed.Base.{ℕ, [], ◌∷◌, ◌++◌, none, some, arith, inl, refl, ◌≡◌, false}
use het_bed.Pool.{Pool}
use het_bed.Buff.Ops
use het_bed.Buff.Ops.{Bufblk, class_of, content, buf_is_not_enough}
use het_bed.Buff.Content.{IsHolding}
use het_bed.Match.Entry.{len_bytes, store_packet}
use het_bed.Match.Store.{store_packet_lem}

abbrev two_each : Pool
two_each = record { front = 0; end = 2; cap = 2; queue_avail = some 0 ∷ some 1 ∷ none ∷ [] }

abbrev fresh : Ops.State
fresh = record { pools = λ c. two_each; bufblk_pool = two_each; mem = λ c i j. 0 }

abbrev block : Bufblk
block = record { buf = record { class = 2048; number = 1 }; size = 2048; len = 40 }

room : buf_is_not_enough 1 5 block ≡ false
unfolding buf_is_not_enough
room = refl

store_packet_lem_example :
    (n : ℕ) × IsHolding n
      (content block fresh ++ len_bytes 3 ++ 7 ∷ 8 ∷ 9 ∷ [])
      (store_packet (7 ∷ 8 ∷ 9 ∷ []) block fresh)
unfolding class_of
store_packet_lem_example =
    store_packet_lem (7 ∷ 8 ∷ 9 ∷ []) block 2048 fresh refl (omega arith) (omega arith)
      (omega arith) (inl room)
