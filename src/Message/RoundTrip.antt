-- ===== src/Message/RoundTrip.antt =====
-- lib/pfcp/src/pfcp_message.c: what is on the wire parses back.
use het_bed.Base.{
  ℕ, ◌≡◌, ◌≢◌, ◌<◌, refl, sym, ap, ◌∙◌, List, [], ◌∷◌, ◌++◌, Option, none, some, length, take, drop,
  ◌^◌, ◌/◌, ◌%◌, ◌*◌, ◌+◌, ◌-◌, arith, append_assoc, length-append, true, false, ◌==◌, leb, ==_refl,
  ne→==,
}
use mathlib.Core.Option
use het_bed.Message.{
  Description, Descriptions, tlv, group, no_more, des, Ie, Ies, absent, octets, fields, no_ies, ie,
  type_of,
}
use het_bed.Message.Encode.{wrap, encode, encode_all}
use het_bed.Message.Parse.{read_head, read_bytes, read_field, parse_field, parse_fields}
use het_bed.Message.Shape.{next_type, IsPacked, Fits, FitAll}

-- The head of an IE reads back, whatever is behind its content.
read_head-wrap :
    (t : ℕ) (v rest : List ℕ)
    → t < 2 ^ 16
    → length v < 2 ^ 16
    → read_head (wrap t v ++ rest) ≡ some (t, length v, v ++ rest)
unfolding read_head
read_head-wrap t v rest ht hv =
    let type : t % 65536 / 256 * 256 + t % 256 ≡ t = omega arith in
    let len : length v % 65536 / 256 * 256 + length v % 256 ≡ length v = omega arith in
    rw (type, len)

take-length : (v rest : List ℕ) → take (length v) (v ++ rest) ≡ v
take-length [] rest = refl
take-length (x ∷ v) rest = ap (λ t. x ∷ t) (take-length v rest)

drop-length : (v rest : List ℕ) → drop (length v) (v ++ rest) ≡ rest
drop-length [] rest = refl
drop-length (x ∷ v) rest = drop-length v rest

read_bytes-append : (v rest : List ℕ) → read_bytes (v ++ rest) (length v) ≡ some v
unfolding read_bytes
read_bytes-append v rest =
    let fits : leb (length v) (length (v ++ rest)) ≡ true = ground (arith, length-append v rest) in
    rw (fits, take-length v rest)

-- The head of the first IE that is present, when there is one, and no bytes at all when there is none.
abbrev StartsAs : List ℕ → Option ℕ → Type 0
StartsAs bytes none = bytes ≡ []
StartsAs bytes (some t) =
    (n : ℕ) × (body : List ℕ) × ((rest : List ℕ)
      → read_head (bytes ++ rest) ≡ some (t, n, body ++ rest))
    × (0 < length bytes)

read_head-wrap_more :
    (t : ℕ) (v more rest : List ℕ)
    → t < 2 ^ 16
    → length v < 2 ^ 16
    → read_head (wrap t v ++ more ++ rest) ≡ some (t, length v, v ++ (more ++ rest))
read_head-wrap_more t v more rest ht hv =
    ap read_head (append_assoc (wrap t v) more rest) ∙ read_head-wrap t v (more ++ rest) ht hv

wrap-StartsAs :
    (t : ℕ) (v more : List ℕ)
    → t < 2 ^ 16
    → length v < 2 ^ 16
    → StartsAs (wrap t v ++ more) (some t)
wrap-StartsAs t v more ht hv = (
  length v,
  v ++ more,
  λ rest.
      read_head-wrap_more t v more rest ht hv
      ∙ ap (λ b. some (t, length v, b)) (sym (append_assoc v more rest)),
  omega arith,
)

-- So begins a struct: with the head of the first IE that is present.
encode_all-StartsAs :
    (ds : Descriptions) (vs : Ies) → FitAll ds vs → StartsAs (encode_all ds vs) (next_type ds vs)
unfolding encode encode_all Fits next_type type_of
encode_all-StartsAs no_more vs f = refl
encode_all-StartsAs (des d ds) no_ies f = refl
encode_all-StartsAs (des (tlv t) ds) (ie absent vs) f = encode_all-StartsAs ds vs f.2
encode_all-StartsAs (des (group t es) ds) (ie absent vs) f = encode_all-StartsAs ds vs f.2
encode_all-StartsAs (des (tlv t) ds) (ie (octets v) vs) f =
    wrap-StartsAs t v (encode_all ds vs) f.0.0 f.0.1
encode_all-StartsAs (des (group t es) ds) (ie (fields ws) vs) f =
    wrap-StartsAs t (encode_all es ws) (encode_all ds vs) f.0.0 f.0.1
encode_all-StartsAs (des (tlv t) ds) (ie (fields ws) vs) f = absurd (ground (arith, f.0))
encode_all-StartsAs (des (group t es) ds) (ie (octets v) vs) f = absurd (ground (arith, f.0))

-- A round of the loop at an IE of another type, or at the end, leaves everything as it is.
read_field-absent :
    (t : ℕ) (value : List ℕ → ℕ → Option Ie) (bytes rest : List ℕ) (next : Option ℕ)
    → StartsAs bytes next
    → next ≢ some t
    → read_field t value (bytes ++ rest) (length bytes) ≡ some (absent, bytes ++ rest, length bytes)
unfolding read_field
read_field-absent t value bytes rest none s n =
    let over : (length bytes == 0) ≡ true = ground (arith, ap length s) in rw over
read_field-absent t value bytes rest (some u) (len, body, head, pos) n =
    let goes_on : (length bytes == 0) ≡ false = ground arith in
    let other : (u == t) ≡ false = ne→== u t (λ e. n (ap some e)) in rw (goes_on, head rest, other)

-- A round of the loop at an IE of its type.
read_field-wrap :
    (t : ℕ) (value : List ℕ → ℕ → Option Ie) (v more rest : List ℕ) (x : Ie)
    → t < 2 ^ 16
    → length v < 2 ^ 16
    → value (v ++ (more ++ rest)) (length v) ≡ some x
    → read_field t value (wrap t v ++ more ++ rest) (length (wrap t v ++ more))
      ≡ some (x, more ++ rest, length more)
unfolding read_field
read_field-wrap t value v more rest x ht hv read =
    let left : length (wrap t v ++ more) - (4 + length v) ≡ length more =
      omega (arith, length-append v more) in
    let goes_on : (length (wrap t v ++ more) == 0) ≡ false = ground (arith, length-append v more) in
    rw (
      goes_on,
      read_head-wrap_more t v more rest ht hv,
      ==_refl t,
      read,
      drop-length v (more ++ rest),
      left,
    )

-- A struct parses back, in memory that goes on behind it.
abbrev ParsesField : Description → Ie → Type 0
ParsesField d v =
    (ds : Descriptions) (vs : Ies) (rest : List ℕ)
    → Fits d v
    → IsPacked d v ds vs
    → FitAll ds vs
    → parse_field d (encode d v ++ encode_all ds vs ++ rest)
        (length (encode d v ++ encode_all ds vs))
      ≡ some (v, encode_all ds vs ++ rest, length (encode_all ds vs))

abbrev ParsesAll : Ies → Type 0
ParsesAll vs =
    (ds : Descriptions) (rest : List ℕ)
    → FitAll ds vs
    → parse_fields ds (encode_all ds vs ++ rest) (length (encode_all ds vs)) ≡ some vs

parse_field-absent : (d : Description) → ParsesField d absent
unfolding encode parse_field type_of
parse_field-absent (tlv t) ds vs rest f p g =
    read_field-absent t _ (encode_all ds vs) rest (next_type ds vs) (encode_all-StartsAs ds vs g) p
parse_field-absent (group t es) ds vs rest f p g =
    read_field-absent t _ (encode_all ds vs) rest (next_type ds vs) (encode_all-StartsAs ds vs g) p

parse_field-octets : (v : List ℕ) (d : Description) → ParsesField d (octets v)
unfolding encode parse_field Fits
parse_field-octets v (tlv t) ds vs rest f p g =
    let more = encode_all ds vs in
    read_field-wrap t _ v more rest (octets v) f.0 f.1
      (ap (Option.map octets) (read_bytes-append v (more ++ rest)))
parse_field-octets v (group t es) ds vs rest f p g = absurd (ground (arith, f))

parse_field-fields : (ws : Ies) → ParsesAll ws → (d : Description) → ParsesField d (fields ws)
unfolding encode parse_field Fits
parse_field-fields ws ih (tlv t) ds vs rest f p g = absurd (ground (arith, f))
parse_field-fields ws ih (group t es) ds vs rest f p g =
    let more = encode_all ds vs in
    read_field-wrap t _ (encode_all es ws) more rest (fields ws) f.0 f.1
      (ap (Option.map fields) (ih es (more ++ rest) f.2))

parse_fields-no_ies : ParsesAll no_ies
unfolding encode_all parse_fields FitAll
parse_fields-no_ies no_more rest f = refl
parse_fields-no_ies (des d ds) rest f = absurd (ground (arith, f))

parse_fields-ie :
    (v : Ie) (vs : Ies) → ((d : Description) → ParsesField d v) → ParsesAll vs → ParsesAll (ie v vs)
unfolding encode_all parse_fields FitAll
parse_fields-ie v vs ih ihs no_more rest f = absurd (ground (arith, f))
parse_fields-ie v vs ih ihs (des d ds) rest f = rw (ih d ds vs rest f.0 f.1 f.2, ihs ds rest f.2)

parse_fields-ParsesAll : (vs : Ies) → ParsesAll vs
parse_fields-ParsesAll vs = elim vs as (λ v. (d : Description) → ParsesField d v) ParsesAll [
  | absent ↦ parse_field-absent
  | octets v ↦ parse_field-octets v
  | fields (ws → ih) ↦ parse_field-fields ws ih
  | no_ies ↦ parse_fields-no_ies
  | ie (v → ih) (vs → ihs) ↦ parse_fields-ie v vs ih ihs
]

-- A struct of a description that is put on the wire parses back as it was, whatever the memory holds
-- behind it, and the parser stays within its bytes: the struct fits the description, its types and
-- lengths are 16-bit numbers, and the IEs of one type are filled from the front.
pub parse_fields-encode_all :
    (ds : Descriptions) (vs : Ies) (rest : List ℕ)
    → FitAll ds vs
    → parse_fields ds (encode_all ds vs ++ rest) (length (encode_all ds vs)) ≡ some vs
parse_fields-encode_all ds vs rest f = parse_fields-ParsesAll vs ds rest f
