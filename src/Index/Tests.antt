-- ===== src/Index/Tests.antt =====
-- The table's theorem at a concrete run.
use het_bed.Base.{◌≡◌, refl, none, some, [], ◌∷◌, All}
use het_bed.Pool
use het_bed.Index.{Index, init, alloc, find, get_index}
use het_bed.Index.Find.{Use, Acts, begin, then_act, takes, fresh, find-index}

after_first : Index
unfolding alloc init Pool.alloc
after_first = (alloc (init 2 none 0 (λ i. 0))).1

in_use : Use
unfolding after_first
in_use = record { table = after_first; held = 0 ∷ [] }

history : Acts (fresh 2 none 0 (λ i. 0)) in_use
unfolding in_use Pool.init Pool.size
history = then_act begin (takes 0 after_first refl)

find-index_example : All (λ i. find (get_index in_use.table.index_of (some i)) ≡ some i) in_use.held
find-index_example = find-index 2 none 0 (λ i. 0) history
