-- ===== src/Buff/Ops.antt =====
-- The operations of utlt_buff.c on blocks, one function each.
use het_bed.Base.{
  ℕ, zero, suc, ◌+◌, ◌*◌, ◌^◌, Bool, true, false, leb, ltb, ◌==◌, ◌&&◌, if◌then◌else◌, Option, none,
  some, List, [], ◌∷◌, length, u32, sub32,
}
use het_bed.Pool.{Ptr, Pool}
use het_bed.Pool

-- The size classes, each with its pool.
abbrev pub classes : List ℕ
classes = 64 ∷ 128 ∷ 256 ∷ 512 ∷ 1024 ∷ 2048 ∷ 4096 ∷ 8192 ∷ 16384 ∷ 32768 ∷ 65536 ∷ []

abbrev pub first_class : ℕ → List ℕ → Option ℕ
first_class n [] = none
first_class n (c ∷ cs) = if leb n c then some c else first_class n cs

-- The branch that `SelectBufblkOption` takes; a size from 2^31 on is negative as an `int`.
unfoldable pub class_of : ℕ → Option ℕ
class_of n = if leb (2 ^ 31) n then some 64 else first_class n classes

-- A buffer is the object of a number in the pool of its class.
pub record Buf : Type 0 where
  pub class : ℕ
  pub number : ℕ

pub record Bufblk : Type 0 where
  pub buf : Buf
  pub size : ℕ
  pub len : ℕ

-- The pools by class, the pool of blocks, and the bytes of each buffer by their offset.
pub record State : Type 0 where
  pub pools : ℕ → Pool
  pub bufblk_pool : Pool
  pub mem : ℕ → ℕ → ℕ → ℕ

abbrev pub set_pool : ℕ → Pool → State → State
set_pool c p s = record s { pools = λ d. if d == c then p else s.pools d }

abbrev pub bytes_of : Buf → State → ℕ → ℕ
bytes_of b s = s.mem b.class b.number

abbrev pub set_bytes : Buf → (ℕ → ℕ) → State → State
set_bytes b f s = record s {
  mem = λ c i. if (c == b.class) && (i == b.number) then f else s.mem c i;
}

-- `memcpy` to an offset.
unfoldable pub copy_to : (ℕ → ℕ) → ℕ → List ℕ → ℕ → ℕ
copy_to f at [] = f
copy_to f at (x ∷ xs) = copy_to (λ j. if j == at then x else f j) (suc at) xs

-- The first bytes of a buffer.
unfoldable pub first_bytes : ℕ → (ℕ → ℕ) → List ℕ
first_bytes zero f = []
first_bytes (suc n) f = f 0 ∷ first_bytes n (λ j. f (suc j))

abbrev pub taken_from : ℕ → Ptr × Pool → State → Option Bufblk × State
taken_from c (none, p) s = (none, set_pool c p s)
taken_from c (some i, p) s =
    (some (record { buf = record { class = c; number = i }; size = c; len = 0 }), set_pool c p s)

abbrev pub alloc_class : Option ℕ → State → Option Bufblk × State
alloc_class none s = (none, s)
alloc_class (some c) s = taken_from c (Pool.alloc (s.pools c)) s

-- `BufAlloc`: `none` is STATUS_ERROR, where the block has no buffer.
unfoldable pub buf_alloc : ℕ → ℕ → State → Option Bufblk × State
buf_alloc num size s = alloc_class (class_of (u32 (num * size))) s

abbrev pub free_class : Option ℕ → Bufblk → State → Bool × State
free_class none b s = (false, s)
free_class (some c) b s = (true, set_pool c (Pool.free (s.pools c) (some b.buf.number)) s)

-- `BufFree` on a block with a buffer.
unfoldable pub buf_free : Bufblk → State → Bool × State
buf_free b s = free_class (class_of b.size) b s

abbrev pub freed_old : Bufblk → Bufblk → Bool × State → Bool × Bufblk × State
freed_old b tmp (true, s) = (true, tmp, s)
freed_old b tmp (false, s) = (false, record b { size = 0; len = 0 }, (buf_free tmp s).1)

abbrev pub resize_into : Bufblk → Option Bufblk × State → Bool × Bufblk × State
resize_into b (none, s) = (false, b, s)
resize_into b (some tmp, s) =
    let n = if ltb tmp.size b.len then tmp.size else b.len in
    let s1 =
      set_bytes tmp.buf (copy_to (bytes_of tmp.buf s) 0 (first_bytes n (bytes_of b.buf s))) s in
    freed_old b (record tmp { len = n }) (buf_free b s1)

unfoldable pub bufblk_resize : ℕ → ℕ → Bufblk → State → Bool × Bufblk × State
bufblk_resize num size b s = resize_into b (buf_alloc num size s)

-- The `int` difference is compared as a `uint32_t`.
unfoldable pub buf_is_not_enough : ℕ → ℕ → Bufblk → Bool
buf_is_not_enough num size b = ltb (sub32 b.size b.len) (u32 (num * size))

-- The bytes and the terminator behind them.
unfoldable pub append_bytes : List ℕ → Bufblk → State → Bufblk × State
append_bytes str b s =
    let f = copy_to (bytes_of b.buf s) b.len str in
    let n = b.len + length str in
    (record b { len = n }, set_bytes b.buf (λ j. if j == n then 0 else f j) s)

abbrev pub append_after : List ℕ → Bool × Bufblk × State → Bool × Bufblk × State
append_after str (true, b, s) = let r = append_bytes str b s in (true, r.0, r.1)
append_after str (false, b, s) = (false, b, s)

-- `BufblkBytes`; `BufblkStr` and `BufblkBuf` are this on other arguments.
unfoldable pub bufblk_bytes : List ℕ → Bufblk → State → Bool × Bufblk × State
bufblk_bytes str b s = append_after str (
    if buf_is_not_enough 1 (length str) b
    then bufblk_resize 1 (u32 (b.size + length str)) b s
    else (true, b, s))

unfoldable pub bufblk_clear : Bufblk → State → Bufblk × State
bufblk_clear b s =
    (record b { len = 0 }, set_bytes b.buf (λ j. if j == 0 then 0 else bytes_of b.buf s j) s)

-- What the block holds.
unfoldable pub content : Bufblk → State → List ℕ
content b s = first_bytes b.len (bytes_of b.buf s)
