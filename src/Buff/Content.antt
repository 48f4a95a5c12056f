-- ===== src/Buff/Content.antt =====
-- What a block holds after an append, with the change to a larger buffer when it is full.
use het_bed.Base.{
  ℕ, ◌+◌, ◌*◌, ◌^◌, ◌≡◌, ◌≤◌, ◌<◌, ◌⊎◌, inl, inr, refl, sym, ap, ◌∙◌, subst, Bool, true, false,
  Bool-cases, ltb, if◌then◌else◌, some, List, ◌++◌, length, u32, arith,
}
use het_bed.Buff.Ops.{
  State, Bufblk, class_of, copy_to, first_bytes, set_bytes, bytes_of, buf_alloc, free_class,
  buf_free, freed_old, resize_into, bufblk_resize, buf_is_not_enough, append_bytes, append_after,
  bufblk_bytes, content,
}
use het_bed.Buff.Bytes.{
  length-first_bytes, first_bytes-copy_to, bytes_of-set_bytes, content-append_bytes,
}
use het_bed.Buff.Classes.{alloc_class-mem, buf_alloc-large}

-- What a block is after a step on it: the step succeeded and the block holds `xs` in a buffer of the
-- size `n`.
pub record IsHolding (n : ℕ) (xs : List ℕ) (r : Bool × Bufblk × State) : Type 0 where
  pub succeeded : r.0 ≡ true
  pub holds : content r.1 r.2 ≡ xs
  pub fits : r.1.len ≤ r.1.size
  pub has_size : r.1.size ≡ n

-- The old content at the start of the new buffer.
copied_bytes : (b tmp : Bufblk) → State → ℕ → ℕ
copied_bytes b tmp s = copy_to (bytes_of tmp.buf s) 0 (first_bytes b.len (bytes_of b.buf s))

first_bytes-copied :
    (b tmp : Bufblk) (s : State)
    → first_bytes b.len (copied_bytes b tmp s) ≡ first_bytes b.len (bytes_of b.buf s)
unfolding copied_bytes first_bytes
first_bytes-copied b tmp s =
    let xs = first_bytes b.len (bytes_of b.buf s) in
    let copied = copy_to (bytes_of tmp.buf s) 0 xs in
    ap (λ n. first_bytes n copied) (omega (arith, length-first_bytes b.len (bytes_of b.buf s)))
    ∙ first_bytes-copy_to (bytes_of tmp.buf s) 0 xs

free_old :
    (b tmp : Bufblk) (c : ℕ) (s : State)
    → class_of b.size ≡ some c
    → b.len ≤ tmp.size
    → IsHolding tmp.size (content b s) (
        freed_old b
          (record tmp { len = b.len })
          (buf_free b (set_bytes tmp.buf (copied_bytes b tmp s) s)))
unfolding buf_free content
free_old b tmp c s e h =
    subst
      (λ o. IsHolding tmp.size (content b s) (
        freed_old b (record tmp { len = b.len })
          (free_class o b (set_bytes tmp.buf (copied_bytes b tmp s) s))))
      (sym e)
      (record {
        succeeded = refl;
        holds =
            ap (first_bytes b.len) (bytes_of-set_bytes tmp.buf (copied_bytes b tmp s) s)
            ∙ first_bytes-copied b tmp s;
        fits = h;
        has_size = refl;
      })

resize_into-some :
    (b tmp : Bufblk) (c : ℕ) (s : State)
    → class_of b.size ≡ some c
    → b.len ≤ tmp.size
    → IsHolding tmp.size (content b s) (resize_into b (some tmp, s))
unfolding copied_bytes
resize_into-some b tmp c s e h =
    let enough : ltb tmp.size b.len ≡ false = ground arith in
    subst
      (λ t. IsHolding tmp.size (content b s) (
        freed_old b (record tmp { len = if t then tmp.size else b.len })
          (buf_free b (
            set_bytes tmp.buf
              (copy_to (bytes_of tmp.buf s) 0
                (first_bytes (if t then tmp.size else b.len) (bytes_of b.buf s)))
              s))))
      (sym enough) (free_old b tmp c s e h)

-- `BufblkResize` to a size that the content fits in keeps the content, when a buffer is free.
pub bufblk_resize_lem :
    (n c : ℕ) (b tmp : Bufblk) (s : State)
    → class_of b.size ≡ some c
    → n < 2 ^ 31
    → b.len ≤ n
    → (buf_alloc 1 n s).0 ≡ some tmp
    → IsHolding tmp.size (content b s) (bufblk_resize 1 n b s)
unfolding bufblk_resize buf_alloc content
bufblk_resize_lem n c b tmp s e w h a =
    let s1 = (buf_alloc 1 n s).1 in
    let large = buf_alloc-large n s tmp w a in
    subst (λ o. IsHolding tmp.size (content b s) (resize_into b (o, s1))) (sym a)
      (subst
        (λ mem.
          IsHolding tmp.size (first_bytes b.len (mem b.buf.class b.buf.number))
            (resize_into b (some tmp, s1)))
        (alloc_class-mem (class_of (u32 (1 * n))) s)
        (resize_into-some b tmp c s1 e (omega (arith, h, large))))

append_after-IsHolding :
    (str xs : List ℕ) (n : ℕ) (r : Bool × Bufblk × State)
    → IsHolding n xs r
    → r.1.len + length str ≤ n
    → IsHolding n (xs ++ str) (append_after str r)
unfolding append_bytes
append_after-IsHolding str xs n (false, b, s) o h = absurd (ground (arith, o.succeeded))
append_after-IsHolding str xs n (true, b, s) o h = record {
  succeeded = refl;
  holds = content-append_bytes str b s ∙ ap (λ ys. ys ++ str) o.holds;
  fits = omega (arith, h, o.has_size);
  has_size = o.has_size;
}

pub enough_room :
    (n : ℕ) (b : Bufblk) → b.size < 2 ^ 32 → b.len + n ≤ b.size → buf_is_not_enough 1 n b ≡ false
unfolding buf_is_not_enough
enough_room n b w h = ground arith

-- There is room.
pub bytes_in_place :
    (str : List ℕ) (b : Bufblk) (s : State)
    → b.len ≤ b.size
    → b.size + length str < 2 ^ 31
    → buf_is_not_enough 1 (length str) b ≡ false
    → IsHolding b.size (content b s ++ str) (bufblk_bytes str b s)
unfolding bufblk_bytes buf_is_not_enough
bytes_in_place str b s l w room =
    let n = length str in
    let fits : b.len + n ≤ b.size = ground arith in
    rw room (
      append_after-IsHolding str (content b s) b.size (true, b, s)
        (record { succeeded = refl; holds = refl; fits = l; has_size = refl }) fits)

pub content-length : (b : Bufblk) (s : State) → length (content b s) ≡ b.len
unfolding content
content-length b s = length-first_bytes b.len (bytes_of b.buf s)

-- There is none, and a buffer for both is free.
bytes_moved :
    (str : List ℕ) (b tmp : Bufblk) (c : ℕ) (s : State)
    → class_of b.size ≡ some c
    → b.len ≤ b.size
    → b.size + length str < 2 ^ 31
    → buf_is_not_enough 1 (length str) b ≡ true
    → (buf_alloc 1 (b.size + length str) s).0 ≡ some tmp
    → IsHolding tmp.size (content b s ++ str) (bufblk_bytes str b s)
unfolding bufblk_bytes
bytes_moved str b tmp c s e l w full a =
    let n = b.size + length str in
    let same : u32 n ≡ n = omega arith in
    let moved = bufblk_resize_lem n c b tmp s e w (omega arith) a in
    let r = bufblk_resize 1 n b s in
    let kept : r.1.len ≡ b.len =
      sym (content-length r.1 r.2) ∙ ap length moved.holds ∙ content-length b s in
    let large = buf_alloc-large n s tmp w a in
    rw (full, same)
      (append_after-IsHolding str (content b s) tmp.size r moved (omega (arith, kept, large, l)))

-- `BufblkBytes` appends the bytes to what the block holds, and the block keeps within its size: in
-- place when there is room, else in a larger buffer, if one is free.
pub bufblk_bytes_lem :
    (str : List ℕ) (b : Bufblk) (c : ℕ) (s : State)
    → class_of b.size ≡ some c
    → b.len ≤ b.size
    → b.size + length str < 2 ^ 31
    → (buf_is_not_enough 1 (length str) b ≡ false)
      ⊎ ((tmp : Bufblk) × ((buf_alloc 1 (b.size + length str) s).0 ≡ some tmp))
    → (n : ℕ) × IsHolding n (content b s ++ str) (bufblk_bytes str b s)
bufblk_bytes_lem str b c s e l w (inl room) = (b.size, bytes_in_place str b s l w room)
bufblk_bytes_lem str b c s e l w (inr (tmp, a)) =
    elim (Bool-cases (buf_is_not_enough 1 (length str) b)) [
      | inl full ↦ (tmp.size, bytes_moved str b tmp c s e l w full a)
      | inr room ↦ (b.size, bytes_in_place str b s l w room)
    ]
