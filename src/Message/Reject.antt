-- ===== src/Message/Reject.antt =====
-- lib/pfcp/src/pfcp_message.c: what `_TlvParseMessage` does with IEs that it does not expect, and with
-- lengths that are too large.
use het_bed.Base.{
  ℕ, ◌≡◌, ◌≢◌, ◌<◌, ◌≤◌, refl, List, Option, none, some, length, take, drop, ◌+◌, ◌-◌, arith, true,
  false, ◌==◌, leb, Bool-cases, ==_refl, ne→==, inl, inr,
}
use mathlib.Core.Option
use het_bed.Message.{
  Descriptions, tlv, group, no_more, des, Ie, Ies, absent, octets, no_ies, ie, type_of,
}
use het_bed.Message.Parse.{read_head, read_bytes, read_field, parse_field, parse_fields}

-- A struct with nothing in it.
unfoldable pub all_absent : Descriptions → Ies
all_absent no_more = no_ies
all_absent (des d ds) = ie absent (all_absent ds)

-- No row of the struct has the type.
unfoldable pub Lacks : Descriptions → ℕ → Type 0
Lacks no_more t = Unit
Lacks (des d ds) t = (t ≢ type_of d) × Lacks ds t

read_field-other :
    (t u len left : ℕ) (value : List ℕ → ℕ → Option Ie) (mem body : List ℕ)
    → read_head mem ≡ some (u, len, body)
    → u ≢ t
    → read_field t value mem left ≡ some (absent, mem, left)
unfolding read_field
read_field-other t u len left value mem body head ne = elim (Bool-cases (left == 0)) [
  | inl b ↦ rw b
  | inr b ↦ let other : (u == t) ≡ false = ne→== u t ne in rw (b, head, other)
]

-- An IE of a type that the struct does not have ends the parsing of the struct: it stays in front, and
-- no IE behind it is found.
pub parse_fields-unknown :
    (ds : Descriptions) (u len left : ℕ) (mem body : List ℕ)
    → read_head mem ≡ some (u, len, body)
    → Lacks ds u
    → parse_fields ds mem left ≡ some (all_absent ds)
unfolding parse_fields parse_field all_absent Lacks type_of
parse_fields-unknown no_more u len left mem body head other = refl
parse_fields-unknown (des (tlv t) ds) u len left mem body head other = rw (
  read_field-other t u len left (λ body len. Option.map octets (read_bytes body len)) mem body head
      other.0,
  parse_fields-unknown ds u len left mem body head other.1,
)
parse_fields-unknown (des (group t es) ds) u len left mem body head other = rw (
  read_field-other t u len left _ mem body head other.0,
  parse_fields-unknown ds u len left mem body head other.1,
)

-- A TLV takes as many bytes as its length says, those behind the end of the message too.
pub parse_field-tlv_length :
    (t len left : ℕ) (mem body : List ℕ)
    → read_head mem ≡ some (t, len, body)
    → 0 < left
    → len ≤ length body
    → parse_field (tlv t) mem left ≡ some (octets (take len body), drop len body, left - (4 + len))
unfolding parse_field read_field read_bytes
parse_field-tlv_length t len left mem body head pos enough =
    let more : (left == 0) ≡ false = ground arith in
    let fits : leb len (length body) ≡ true = ground arith in rw (more, head, ==_refl t, fits)

-- A TLV whose length is more than what the memory holds behind it makes the parser read outside it,
-- wherever the message ends.
pub parse_fields-overrun :
    (t len left : ℕ) (ds : Descriptions) (mem body : List ℕ)
    → read_head mem ≡ some (t, len, body)
    → 0 < left
    → length body < len
    → parse_fields (des (tlv t) ds) mem left ≡ none
unfolding parse_fields parse_field read_field read_bytes
parse_fields-overrun t len left ds mem body head pos short =
    let more : (left == 0) ≡ false = ground arith in
    let outside : leb len (length body) ≡ false = ground arith in
    rw (more, head, ==_refl t, outside)
