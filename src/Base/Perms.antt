-- ===== src/Base/Perms.antt =====
-- Permutations and native lengths.
use mathlib.Core.Path.{◌≡◌, refl, ap, ◌∙◌, sym, subst}
use mathlib.Core.List.{List, [], ◌∷◌, ◌++◌, Perm, append_assoc, append-nil, perm_middle}
use mathlib.Core.List as Core
use mathlib.Core.List.Perm
use native.Mathlib.Bridge.{from_ℕ}
use Prim.Native.Nat.{suc}
use het_bed.Base.Arrays.{length}

from_ℕ-length {ℓ} : {A : Type ℓ} (xs : List A) → from_ℕ (Core.length xs) ≡ length xs
from_ℕ-length [] = refl
from_ℕ-length (x ∷ xs) = ap suc (from_ℕ-length xs)

pub length-Perm {ℓ} : {A : Type ℓ} {xs ys : List A} → Perm xs ys → length xs ≡ length ys
length-Perm {xs = xs} {ys} p =
    sym (from_ℕ-length xs) ∙ (ap from_ℕ (Perm.length-eq p) ∙ from_ℕ-length ys)

-- An element taken out of the middle and put at the end.
pub perm_move {ℓ} :
    {A : Type ℓ} (x : A) (before after rest : List A)
    → Perm ((before ++ after) ++ (rest ++ x ∷ [])) ((before ++ x ∷ after) ++ rest)
perm_move x before after rest = Perm.trans to_front (Perm.symm from_middle)
  where
    to_front : Perm ((before ++ after) ++ (rest ++ x ∷ [])) (x ∷ ((before ++ after) ++ rest))
    to_front =
        subst (λ l. Perm l (x ∷ ((before ++ after) ++ rest)))
          (append_assoc (before ++ after) rest (x ∷ []))
          (subst (λ l. Perm (((before ++ after) ++ rest) ++ x ∷ []) (x ∷ l))
            (append-nil ((before ++ after) ++ rest)) (perm_middle ((before ++ after) ++ rest) []))

    from_middle : Perm ((before ++ x ∷ after) ++ rest) (x ∷ ((before ++ after) ++ rest))
    from_middle =
        subst (λ l. Perm l (x ∷ ((before ++ after) ++ rest)))
          (sym (append_assoc before (x ∷ after) rest))
          (subst (λ l. Perm (before ++ x ∷ (after ++ rest)) (x ∷ l))
            (sym (append_assoc before after rest)) (perm_middle before (after ++ rest)))
