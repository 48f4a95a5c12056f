-- ===== src/Buff/Classes.antt =====
-- The size classes: what an allocation gives.
use het_bed.Base.{
  All, ℕ, ◌*◌, ◌^◌, ◌≡◌, ◌≤◌, ◌<◌, inl, inr, refl, sym, ap, ◌∙◌, false, Bool-cases, leb,
  if◌then◌else◌, Option, none, some, true, List, [], ◌∷◌, ◌++◌, u32, arith,
}
use het_bed.Pool.{Ptr, Pool}
use het_bed.Pool
use het_bed.Buff.Ops.{
  State, Bufblk, classes, first_class, class_of, taken_from, alloc_class, buf_alloc,
}

first_class-large : (n c : ℕ) (cs : List ℕ) → first_class n cs ≡ some c → n ≤ c
first_class-large n c [] e = absurd (ground (arith, e))
first_class-large n c (d ∷ cs) e = elim (Bool-cases (leb n d)) [
  | inl b ↦
      let same : some d ≡ some c = sym (ap (λ t. if t then some d else first_class n cs) b) ∙ e in
      ground (arith, same)
  | inr b ↦ first_class-large n c cs (sym (ap (λ t. if t then some d else first_class n cs) b) ∙ e)
]

class_of-large : (n c : ℕ) → n < 2 ^ 31 → class_of n ≡ some c → n ≤ c
unfolding class_of
class_of-large n c h e =
    let below : leb (2 ^ 31) n ≡ false = ground arith in
    first_class-large n c classes
      (sym (ap (λ t. if t then some 64 else first_class n classes) below) ∙ e)

first_class-small :
    (n c m : ℕ) (cs : List ℕ) → All (λ d. d ≤ m) cs → first_class n cs ≡ some c → c ≤ m
first_class-small n c m [] a e = absurd (ground (arith, e))
first_class-small n c m (d ∷ cs) a e = elim (Bool-cases (leb n d)) [
  | inl b ↦
      let same : some d ≡ some c = sym (ap (λ t. if t then some d else first_class n cs) b) ∙ e in
      ground (arith, same, a.0)
  | inr b ↦
      first_class-small n c m cs a.1 (sym (ap (λ t. if t then some d else first_class n cs) b) ∙ e)
]

class_of-small : (n c : ℕ) → class_of n ≡ some c → c ≤ 65536
unfolding class_of
class_of-small n c e = elim (Bool-cases (leb (2 ^ 31) n)) [
  | inl b ↦
      let same : some 64 ≡ some c =
        sym (ap (λ t. if t then some 64 else first_class n classes) b) ∙ e in
      ground (arith, same)
  | inr b ↦
      first_class-small n c 65536 classes
        (
          omega arith,
          (
            omega arith,
            (
              omega arith,
              (
                omega arith,
                (
                  omega arith,
                  (
                    omega arith,
                    (omega arith, (omega arith, (omega arith, (omega arith, (omega arith, tt))))),
                  ),
                ),
              ),
            ),
          ),
        )
        (sym (ap (λ t. if t then some 64 else first_class n classes) b) ∙ e)
]

abbrev size_or : ℕ → Option Bufblk → ℕ
size_or d none = d
size_or d (some b) = b.size

taken-size :
    (c : ℕ) (r : Ptr × Pool) (s : State) (tmp : Bufblk)
    → (taken_from c r s).0 ≡ some tmp
    → c ≡ tmp.size
taken-size c (none, p) s tmp e = absurd (ground (arith, e))
taken-size c (some i, p) s tmp e = ap (size_or 0) e

taken-mem : (c : ℕ) (r : Ptr × Pool) (s : State) → (taken_from c r s).1.mem ≡ s.mem
taken-mem c (none, p) s = refl
taken-mem c (some i, p) s = refl

alloc_class-size :
    (o : Option ℕ) (s : State) (tmp : Bufblk) → (alloc_class o s).0 ≡ some tmp → o ≡ some tmp.size
alloc_class-size none s tmp e = absurd (ground (arith, e))
alloc_class-size (some c) s tmp e = ap some (taken-size c (Pool.alloc (s.pools c)) s tmp e)

pub alloc_class-mem : (o : Option ℕ) (s : State) → (alloc_class o s).1.mem ≡ s.mem
alloc_class-mem none s = refl
alloc_class-mem (some c) s = taken-mem c (Pool.alloc (s.pools c)) s

-- `BufAlloc` gives a block that is empty or larger, of the class of the size that was asked for.
pub buf_alloc-large :
    (n : ℕ) (s : State) (tmp : Bufblk) → n < 2 ^ 31 → (buf_alloc 1 n s).0 ≡ some tmp → n ≤ tmp.size
unfolding buf_alloc
buf_alloc-large n s tmp h e =
    let same : u32 (1 * n) ≡ n = omega arith in
    class_of-large n tmp.size h
      (ap class_of (sym same) ∙ alloc_class-size (class_of (u32 (1 * n))) s tmp e)

-- No buffer has more than 65536 bytes.
pub buf_alloc-small :
    (n : ℕ) (s : State) (tmp : Bufblk) → (buf_alloc 1 n s).0 ≡ some tmp → tmp.size ≤ 65536
unfolding buf_alloc
buf_alloc-small n s tmp e =
    class_of-small (u32 (1 * n)) tmp.size (alloc_class-size (class_of (u32 (1 * n))) s tmp e)

first_class-last :
    (n m : ℕ) (cs : List ℕ) → n ≤ m → (c : ℕ) × (first_class n (cs ++ m ∷ []) ≡ some c)
first_class-last n m [] h =
    let here : leb n m ≡ true = ground arith in (m, ap (λ t. if t then some m else none) here)
first_class-last n m (d ∷ cs) h = elim (Bool-cases (leb n d)) [
  | inl b ↦ (d, ap (λ t. if t then some d else first_class n (cs ++ m ∷ [])) b)
  | inr b ↦
      let later = first_class-last n m cs h in
      (later.0, ap (λ t. if t then some d else first_class n (cs ++ m ∷ [])) b ∙ later.1)
]

abbrev but_last : List ℕ
but_last = 64 ∷ 128 ∷ 256 ∷ 512 ∷ 1024 ∷ 2048 ∷ 4096 ∷ 8192 ∷ 16384 ∷ 32768 ∷ []

-- A size up to that of the largest class has a class that holds it.
pub class_of-served : (n : ℕ) → n ≤ 65536 → (c : ℕ) × (class_of n ≡ some c) × (n ≤ c) × (c ≤ 65536)
unfolding class_of
class_of-served n h =
    let below : leb (2 ^ 31) n ≡ false = ground arith in
    let some_class = first_class-last n 65536 but_last h in
    let same : class_of n ≡ some some_class.0 =
      ap (λ t. if t then some 64 else first_class n classes) below ∙ some_class.1 in
    (
      some_class.0,
      same,
      class_of-large n some_class.0 (omega arith) same,
      class_of-small n some_class.0 same,
    )
