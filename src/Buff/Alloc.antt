-- ===== src/Buff/Alloc.antt =====
-- lib/utlt/src/utlt_buff.c: the functions in the place of malloc, and blocks as objects of a pool.
use het_bed.Base.{
  ℕ, ◌+◌, ◌*◌, ◌/◌, ◌%◌, ◌^◌, ◌≡◌, ◌<◌, sym, ap, ◌∙◌, subst, Bool, true, false, Option, none, some,
  List, [], ◌∷◌, if◌then◌else◌, replicate, u32, arith,
}
use het_bed.Pool.{Ptr, Pool}
use het_bed.Pool
use het_bed.Buff.Bytes.{bytes_of-set_bytes}
use het_bed.Buff.Ops.{
  State, Buf, Bufblk, class_of, copy_to, set_bytes, bytes_of, set_pool, taken_from, alloc_class,
  buf_alloc, free_class, buf_free, bufblk_resize, buf_is_not_enough, append_after,
}

-- The bytes of a word on a little-endian host, and the word of the first four bytes.
abbrev pub word_bytes : ℕ → List ℕ
word_bytes n = n % 2 ^ 8 ∷ n / 2 ^ 8 % 2 ^ 8 ∷ n / 2 ^ 16 % 2 ^ 8 ∷ n / 2 ^ 24 % 2 ^ 8 ∷ []

abbrev pub word_of : (ℕ → ℕ) → ℕ
word_of f = f 0 + f 1 * 2 ^ 8 + f 2 * 2 ^ 16 + f 3 * 2 ^ 24

abbrev pub with_header : ℕ → Option Bufblk × State → Option Buf × State
with_header real (none, s) = (none, s)
with_header real (some b, s) =
    (some b.buf, set_bytes b.buf (copy_to (bytes_of b.buf s) 0 (word_bytes real)) s)

-- `UTLT_Malloc` and `UTLT_Calloc`. The result is the buffer; the pointer that C returns is 4 bytes
-- into it, behind the size that was asked for.
unfoldable pub utlt_malloc : ℕ → State → Option Buf × State
utlt_malloc size s = let real = u32 (size + 4) in with_header real (buf_alloc 1 real s)

unfoldable pub utlt_calloc : ℕ → ℕ → State → Option Buf × State
utlt_calloc num size s = let real = u32 (num * size + 4) in with_header real (buf_alloc 1 real s)

-- `UTLT_Free`, by the size that stands before the pointer.
unfoldable pub utlt_free : Buf → State → Bool × State
utlt_free b s = buf_free (record { buf = b; size = word_of (bytes_of b s); len = 0 }) s

-- `BufblkAppend`: zeros behind the content.
unfoldable pub bufblk_append : ℕ → ℕ → Bufblk → State → Bool × Bufblk × State
bufblk_append num size b s =
    let total = u32 (num * size) in
    append_after (replicate total 0) (
      if buf_is_not_enough num size b
      then bufblk_resize 1 (u32 (b.size + total)) b s
      else (true, b, s))

abbrev buf_of : Option Bufblk → Option Buf
buf_of none = none
buf_of (some b) = some b.buf

abbrev class_or : Option Buf → Option ℕ
class_or none = none
class_or (some b) = some b.class

abbrev buf_or : Buf → Option Buf → Buf
buf_or d none = d
buf_or d (some b) = b

word_of-copy_to :
    (real : ℕ) (f : ℕ → ℕ) → real < 2 ^ 32 → word_of (copy_to f 0 (word_bytes real)) ≡ real
unfolding copy_to
word_of-copy_to real f h = omega arith

-- The buffer comes from the pool of the class, and its header is the size.
header-class :
    (real c : ℕ) (r : Ptr × Pool) (s : State) (b : Buf)
    → real < 2 ^ 32
    → (with_header real (taken_from c r s)).0 ≡ some b
    → (some c ≡ some b.class)
      × (word_of (bytes_of b (with_header real (taken_from c r s)).1) ≡ real)
header-class real c (none, p) s b h e = absurd (ground (arith, e))
header-class real c (some i, p) s b h e =
    let own : Buf = record { class = c; number = i } in
    let f = copy_to (bytes_of own s) 0 (word_bytes real) in
    let s1 = set_pool c p s in
    (
      ap class_or e,
      subst (λ b. word_of (bytes_of b (set_bytes own f s1)) ≡ real) (ap (buf_or own) e)
          (ap word_of (bytes_of-set_bytes own f s1) ∙ word_of-copy_to real (bytes_of own s) h),
    )

malloc-class :
    (real : ℕ) (o : Option ℕ) (s : State) (b : Buf)
    → real < 2 ^ 32
    → (with_header real (alloc_class o s)).0 ≡ some b
    → (o ≡ some b.class) × (word_of (bytes_of b (with_header real (alloc_class o s)).1) ≡ real)
malloc-class real none s b h e = absurd (ground (arith, e))
malloc-class real (some c) s b h e = header-class real c (Pool.alloc (s.pools c)) s b h e

-- A buffer that `UTLT_Malloc` gave goes back by `UTLT_Free` to the pool that it was taken from.
pub utlt_free-utlt_malloc :
    (size : ℕ) (s : State) (b : Buf)
    → (utlt_malloc size s).0 ≡ some b
    → utlt_free b (utlt_malloc size s).1 ≡ (
      true,
      set_pool b.class
          (Pool.free ((utlt_malloc size s).1.pools b.class) (some b.number))
          (utlt_malloc size s).1,
    )
unfolding utlt_malloc utlt_free buf_alloc buf_free
utlt_free-utlt_malloc size s b e =
    let real = u32 (size + 4) in
    let same : u32 (1 * real) ≡ real = omega arith in
    let s1 = (utlt_malloc size s).1 in
    let known = malloc-class real (class_of (u32 (1 * real))) s b (omega arith) e in
    ap (λ o. free_class o (record { buf = b; size = word_of (bytes_of b s1); len = 0 }) s1)
      (ap class_of (known.1 ∙ sym same) ∙ known.0)

abbrev give_block : ℕ → Option Bufblk × State → Option (ℕ × Bufblk) × State
give_block j (none, s) = (none, record s { bufblk_pool = Pool.free s.bufblk_pool (some j) })
give_block j (some b, s) = (some (j, b), s)

abbrev take_block : ℕ → ℕ → Ptr × Pool → State → Option (ℕ × Bufblk) × State
take_block num size (none, p) s = (none, record s { bufblk_pool = p })
take_block num size (some j, p) s = give_block j (buf_alloc num size (record s { bufblk_pool = p }))

-- `BufblkAlloc`: the block's number in its pool, and its fields.
unfoldable pub bufblk_alloc : ℕ → ℕ → State → Option (ℕ × Bufblk) × State
bufblk_alloc num size s = take_block num size (Pool.alloc s.bufblk_pool) s

abbrev drop_block : ℕ → Bool × State → Bool × State
drop_block j (true, s) = (true, record s { bufblk_pool = Pool.free s.bufblk_pool (some j) })
drop_block j (false, s) = (false, s)

unfoldable pub bufblk_free : ℕ → Bufblk → State → Bool × State
bufblk_free j b s = drop_block j (buf_free b s)
