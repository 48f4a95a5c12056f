-- ===== src/Buff/Bytes.antt =====
-- The bytes of a buffer: what a copy and an append leave in it.
use het_bed.Base.{
  ℕ, zero, suc, ◌+◌, ◌≡◌, ◌<◌, refl, sym, ap, ◌∙◌, ◌==◌, ==_refl, ne→==, if◌then◌else◌, List, [],
  ◌∷◌, ◌++◌, length, append_assoc, append-nil, arith,
}
use het_bed.Buff.Ops.{
  State, Buf, Bufblk, copy_to, first_bytes, set_bytes, bytes_of, append_bytes, content,
}

first_bytes-below :
    (n : ℕ) (f g : ℕ → ℕ) → ((j : ℕ) → j < n → f j ≡ g j) → first_bytes n f ≡ first_bytes n g
unfolding first_bytes
first_bytes-below zero f g e = refl
first_bytes-below (suc n) f g e =
    rw
      (
        e 0 (omega arith),
        first_bytes-below n (λ j. f (suc j)) (λ j. g (suc j)) (λ j h. e (suc j) (omega arith)),
      )
      refl

first_bytes-last : (n : ℕ) (f : ℕ → ℕ) → first_bytes (suc n) f ≡ first_bytes n f ++ f n ∷ []
unfolding first_bytes
first_bytes-last zero f = refl
first_bytes-last (suc n) f = ap (λ xs. f 0 ∷ xs) (first_bytes-last n (λ j. f (suc j)))

pub length-first_bytes : (n : ℕ) (f : ℕ → ℕ) → length (first_bytes n f) ≡ n
unfolding first_bytes
length-first_bytes zero f = refl
length-first_bytes (suc n) f = ap suc (length-first_bytes n (λ j. f (suc j)))

-- A copy behind `at` bytes.
pub first_bytes-copy_to :
    (f : ℕ → ℕ) (at : ℕ) (xs : List ℕ)
    → first_bytes (at + length xs) (copy_to f at xs) ≡ first_bytes at f ++ xs
unfolding copy_to
first_bytes-copy_to f at [] =
    ap (λ n. first_bytes n f) (omega arith) ∙ sym (append-nil (first_bytes at f))
first_bytes-copy_to f at (x ∷ xs) =
    let written : ℕ → ℕ = λ j. if j == at then x else f j in
    ap (λ n. first_bytes n (copy_to written (suc at) xs)) (omega arith)
    ∙ first_bytes-copy_to written (suc at) xs
    ∙ ap (λ ys. ys ++ xs) (first_bytes-last at written)
    ∙ append_assoc (first_bytes at written) (written at ∷ []) xs
    ∙ rw
        (
          ==_refl at,
          first_bytes-below at written f
              (λ j h. ap (λ c. if c then x else f j) (ne→== j at (λ e. omega (arith, e, h)))),
        )
        refl

pub bytes_of-set_bytes : (b : Buf) (f : ℕ → ℕ) (s : State) → bytes_of b (set_bytes b f s) ≡ f
bytes_of-set_bytes b f s = rw (==_refl b.class, ==_refl b.number) refl

pub content-append_bytes :
    (str : List ℕ) (b : Bufblk) (s : State)
    → content (append_bytes str b s).0 (append_bytes str b s).1 ≡ content b s ++ str
unfolding content append_bytes
content-append_bytes str b s =
    let f = copy_to (bytes_of b.buf s) b.len str in
    let n = b.len + length str in
    let ended : ℕ → ℕ = λ j. if j == n then 0 else f j in
    ap (first_bytes n) (bytes_of-set_bytes b.buf ended s)
    ∙ first_bytes-below n ended f
        (λ j h. ap (λ c. if c then 0 else f j) (ne→== j n (λ e. omega (arith, e, h))))
    ∙ first_bytes-copy_to (bytes_of b.buf s) b.len str
