-- ===== src/Pool/Avail.antt =====
-- The pointers that a pool holds, oldest first, as a list: the cells from `qFront` to `qEnd`, going
-- round at `qCap + 1`.
use native.Mathlib.Nat.{
  mod-add-mod, mod-lt, add_assoc, add-mod-mod, add-mod_right, mod-eq_of_lt, mod-eq-sub-mod,
}
use native.Mathlib.Decide.{dec_lt}
use het_bed.Base.{
  ℕ, zero, suc, ◌+◌, ◌-◌, ◌%◌, ◌≤◌, ◌<◌, ◌≡◌, ◌≢◌, refl, ap, ap₂, ◌∙◌, sym, none, List, [], ◌∷◌,
  ◌++◌, set, get_or, length, get_or-set_ne, arith,
}
use het_bed.Pool.{Ptr, Pool, size}

-- `k` cells from position `f` on; a position is reduced modulo `m` where it is read.
abbrev pub cells : List Ptr → ℕ → ℕ → ℕ → List Ptr
cells q m f zero = []
cells q m f (suc k) = get_or q (f % m) none ∷ cells q m (f + 1) k

abbrev pub avail : Pool → List Ptr
avail p = cells p.queue_avail (p.cap + 1) p.front (size p)

pub record IsValid (p : Pool) : Type 0 where
  pub front_in : p.front ≤ p.cap
  pub end_in : p.end ≤ p.cap
  pub storage : length p.queue_avail ≡ p.cap + 1

-- Fewer than `m` steps round the ring do not come back to where they began.
mod_apart : (m r j : ℕ) → r < m → 0 < j → j < m → (r + j) % m ≢ r
mod_apart m r j hr hj hm = elim (dec_lt (r + j) m) [
  | yes p ↦ omega (arith, mod-eq_of_lt p)
  | no p ↦ omega (
    arith,
    mod-eq-sub-mod {n = r + j} {m = m} (omega arith),
    mod-eq_of_lt {n = r + j - m} {m = m} (omega arith),
  )
]

module _ (q : List Ptr) (m : ℕ) where
  pub length-cells : (f k : ℕ) → length (cells q m f k) ≡ k
  length-cells f zero = refl
  length-cells f (suc k) = ap suc (length-cells (f + 1) k)

  -- Two positions that agree modulo `m` see the same cells.
  pub cells_mod : (f g k : ℕ) → f % m ≡ g % m → cells q m f k ≡ cells q m g k
  cells_mod f g zero e = refl
  cells_mod f g (suc k) e =
      ap₂ (λ i l. get_or q i none ∷ l) e
        (cells_mod (f + 1) (g + 1) k
          (sym (mod-add-mod f m 1) ∙ (ap (λ r. (r + 1) % m) e ∙ mod-add-mod g m 1)))

  pub cells_snoc :
      (f k : ℕ) → cells q m f (suc k) ≡ cells q m f k ++ get_or q ((f + k) % m) none ∷ []
  cells_snoc f zero = ap (λ i. get_or q (i % m) none ∷ []) (omega arith)
  cells_snoc f (suc k) =
      ap (λ l. get_or q (f % m) none ∷ l)
        (cells_snoc (f + 1) k
          ∙ ap (λ i. cells q m (f + 1) k ++ get_or q (i % m) none ∷ []) (omega arith))

  -- A write just past the cells leaves them alone, since fewer than `m` of them are read.
  pub cells-set :
      (i : ℕ) (v : Ptr) (f k d : ℕ)
      → i ≡ (f + k + d) % m
      → k + d < m
      → cells (set q i v) m f k ≡ cells q m f k
  cells-set i v f zero d e h = refl
  cells-set i v f (suc k) d e h =
      ap₂ ◌∷◌ (get_or-set_ne q i (f % m) v none (λ c. apart (sym c ∙ e)))
        (cells-set i v (f + 1) k d (e ∙ ap (λ n. n % m) (omega arith)) (omega arith))
    where
      apart : f % m ≢ (f + suc k + d) % m
      apart c =
          mod_apart m (f % m) (suc k + d) (mod-lt f (omega arith)) (omega arith) h
            (mod-add-mod f m (suc k + d) ∙ (ap (λ n. n % m) (sym (add_assoc f (suc k) d)) ∙ sym c))

module _ {p : Pool} (v : IsValid p) where
  pub size-lt : size p < p.cap + 1
  unfolding size
  size-lt = omega arith

  -- The cells end where the next freed pointer goes.
  pub front-add-size : (p.front + size p) % (p.cap + 1) ≡ p.end
  unfolding size
  front-add-size =
      add-mod-mod p.front (p.end + p.cap + 1 - p.front) (p.cap + 1)
      ∙ (ap (λ n. n % (p.cap + 1)) (omega arith)
          ∙ (add-mod_right p.end (p.cap + 1) ∙ mod-eq_of_lt (omega arith)))

  pub length-avail : length (avail p) ≡ size p
  length-avail = length-cells p.queue_avail (p.cap + 1) p.front (size p)
