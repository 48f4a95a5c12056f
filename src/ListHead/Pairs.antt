-- ===== src/ListHead/Pairs.antt =====
-- Two lists on one heap, as those of the timers: an operation on one keeps the other.
use het_bed.Base.{ℕ, ◌≢◌, ◌≤◌, sym, List, [], ◌∷◌, ◌++◌, All, Bool, Bool-cases, inl, inr, length}
use het_bed.ListHead.{Heap, list_remove, list_insert_sorted}
use het_bed.ListHead.Chain.{Fresh, IsList, Fresh-split, Fresh-append}
use het_bed.ListHead.Remove.{list_remove_lem}
use het_bed.ListHead.Sorted.{insert_ordered, list_insert_sorted_lem}
use het_bed.ListHead.Frame.{Apart, IsList-Agree, Agree-list_insert_sorted, Agree-list_remove}

pub record ArePairs (h : Heap) (a : ℕ) (xs : List ℕ) (b : ℕ) (ys : List ℕ) : Type 0 where
  pub first : IsList h a xs
  pub second : IsList h b ys
  pub apart : Apart (a ∷ xs) (b ∷ ys)

All-map {ℓ κ} :
    {P : ℕ → Type ℓ} {Q : ℕ → Type κ} (xs : List ℕ) → ((x : ℕ) → P x → Q x) → All P xs → All Q xs
All-map [] f a = tt
All-map (x ∷ xs) f a = (f x a.0, All-map xs f a.1)

All-Fresh {ℓ κ} :
    {P : ℕ → Type ℓ} {Q : ℕ → Type κ} (n : ℕ) (xs : List ℕ)
    → ((x : ℕ) → x ≢ n → P x → Q x)
    → Fresh n xs
    → All P xs
    → All Q xs
All-Fresh n [] f d a = tt
All-Fresh n (x ∷ xs) f d a = (f x (λ e. d.0 (sym e)) a.0, All-Fresh n xs f d.1 a.1)

Apart-nil : (ys : List ℕ) → Apart ys []
Apart-nil ys = tt

Apart-cons : (y : ℕ) (xs ys : List ℕ) → Fresh y xs → Apart ys xs → Apart (y ∷ ys) xs
Apart-cons y xs ys f p = All-Fresh y xs (λ x n q. (n, q)) f p

Apart-empty : (xs : List ℕ) → Apart [] xs
Apart-empty [] = tt
Apart-empty (x ∷ xs) = (tt, Apart-empty xs)

pub Apart-sym : (xs ys : List ℕ) → Apart xs ys → Apart ys xs
Apart-sym xs [] p = Apart-empty xs
Apart-sym xs (y ∷ ys) p = Apart-cons y xs ys p.0 (Apart-sym xs ys p.1)

pub ArePairs-sym :
    {h : Heap} {a b : ℕ} {xs ys : List ℕ} → ArePairs h a xs b ys → ArePairs h b ys a xs
ArePairs-sym {h} {a} {b} {xs} {ys} t = record {
  first = t.second;
  second = t.first;
  apart = Apart-sym (a ∷ xs) (b ∷ ys) t.apart;
}

pub Fresh-without :
    (k : ℕ) (pre : List ℕ) (x : ℕ) (post : List ℕ)
    → Fresh k (pre ++ x ∷ post)
    → Fresh k (pre ++ post)
Fresh-without k pre x post f = let s = Fresh-split k pre x post f in Fresh-append k pre post s.0 s.2

pub Fresh-insert_ordered :
    (k : ℕ) (before : ℕ → Bool) (new : ℕ) (xs : List ℕ)
    → k ≢ new
    → Fresh k xs
    → Fresh k (insert_ordered before new xs)
unfolding insert_ordered
Fresh-insert_ordered k before new [] n f = (n, tt)
Fresh-insert_ordered k before new (x ∷ xs) n f = elim (Bool-cases (before x)) [
  | inl b ↦ rw b (n, f)
  | inr b ↦ rw b (f.0, Fresh-insert_ordered k before new xs n f.1)
]

-- A removal from the first list.
pub list_remove-ArePairs :
    {h : Heap} {a b : ℕ} {ys : List ℕ} (pre : List ℕ) (x : ℕ) (post : List ℕ)
    → ArePairs h a (pre ++ x ∷ post) b ys
    → ArePairs (list_remove x h) a (pre ++ post) b ys
list_remove-ArePairs {h} {a} {b} {ys} pre x post t = record {
  first = (list_remove_lem pre x post t.first).0;
  second =
      IsList-Agree h (list_remove x h) b ys
        (All-map (b ∷ ys) (λ k f. Agree-list_remove pre x post k t.first f) t.apart) t.second;
  apart = All-map (b ∷ ys) (λ k f. (f.0, Fresh-without k pre x post f.1)) t.apart;
}

-- An insertion into the first list.
pub list_insert_sorted-ArePairs :
    {h : Heap} {a b : ℕ} {ys : List ℕ} (fuel : ℕ) (before : ℕ → ℕ → Bool) (new : ℕ) (xs : List ℕ)
    → length xs ≤ fuel
    → Fresh new (a ∷ xs)
    → Fresh new (b ∷ ys)
    → Fresh 0 xs
    → ArePairs h a xs b ys
    → ArePairs (list_insert_sorted fuel before new a h) a (insert_ordered (before new) new xs) b ys
list_insert_sorted-ArePairs {h} {a} {b} {ys} fuel before new xs n f g z t = record {
  first = list_insert_sorted_lem before new fuel xs n t.first f z;
  second =
      IsList-Agree h (list_insert_sorted fuel before new a h) b ys
        (All-Fresh new (b ∷ ys) (λ k d q. Agree-list_insert_sorted fuel before new k xs t.first d q)
          g t.apart)
        t.second;
  apart =
      All-Fresh new (b ∷ ys) (λ k d q. (q.0, Fresh-insert_ordered k (before new) new xs d q.1)) g
        t.apart;
}
