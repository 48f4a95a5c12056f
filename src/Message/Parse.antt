-- ===== src/Message/Parse.antt =====
-- lib/pfcp/src/pfcp_message.c: `_TlvParseMessage` and `PfcpParseMessage`. Memory is the list of the
-- bytes from a pointer on; a read behind its end is `none`. UTLT_Malloc always
-- has a buffer for the content of an IE.
use het_bed.Base.{
  ℕ, List, [], ◌∷◌, Bool, Option, none, some, if◌then◌else◌, ◌==◌, leb, ◌+◌, ◌-◌, ◌*◌, ◌%◌, ◌^◌,
  length, take, drop, u16,
}
use mathlib.Core.Option
use het_bed.Message.{
  Description, Descriptions, tlv, group, no_more, des, Ie, Ies, absent, octets, fields, no_ies, ie,
}
use het_bed.Message.Describe.{message_ies}

-- The type and the length in front of an IE, after `ntohs`, and the memory behind them.
unfoldable pub read_head : List ℕ → Option (ℕ × ℕ × List ℕ)
read_head (a ∷ b ∷ c ∷ d ∷ mem) = some (a * 2 ^ 8 + b, c * 2 ^ 8 + d, mem)
read_head _ = none

-- `memcpy` of `length` bytes.
unfoldable pub read_bytes : List ℕ → ℕ → Option (List ℕ)
read_bytes mem n = if leb n (length mem) then some (take n mem) else none

abbrev pub found : List ℕ → ℕ → ℕ → Option Ie → Option (Ie × List ℕ × ℕ)
found mem len left none = none
found mem len left (some v) = some (v, drop len mem, left - (4 + len))

-- One round of the loop for a row of the type: what it stores, and the rest of the memory and of
-- `buffLen - buffOffset`. Once that is 0 the loop is over, and the struct keeps the zeros of `memset`.
unfoldable pub read_field : ℕ → (List ℕ → ℕ → Option Ie) → List ℕ → ℕ → Option (Ie × List ℕ × ℕ)
read_field t value mem left = if left == 0 then some (absent, mem, left) else elim (read_head mem) [
  | none ↦ none
  | some (type, len, body) ↦
      if type == t then found body len left (value body len) else some (absent, mem, left)
]

abbrev pub with_rest : Ie → Option Ies → Option Ies
with_rest v none = none
with_rest v (some vs) = some (ie v vs)

abbrev pub then_rest : Option (Ie × List ℕ × ℕ) → (List ℕ → ℕ → Option Ies) → Option Ies
then_rest none rest = none
then_rest (some (v, mem, left)) rest = with_rest v (rest mem left)

-- `_TlvParseMessage`, the loop over the rows of a struct and the body of the loop.
unfoldable mutual
  pub parse_fields : Descriptions → List ℕ → ℕ → Option Ies
  parse_fields no_more mem left = some no_ies
  parse_fields (des d ds) mem left = then_rest (parse_field d mem left) (parse_fields ds)

  pub parse_field : Description → List ℕ → ℕ → Option (Ie × List ℕ × ℕ)
  parse_field (tlv t) mem left =
      read_field t (λ body len. Option.map octets (read_bytes body len)) mem left
  parse_field (group t ds) mem left =
      read_field t (λ body len. Option.map fields (parse_fields ds body len)) mem left

-- `PfcpMessage`: the header, and the struct of the message of its type if one is present. `length` and
-- `sqn` stay in the byte order of the network.
pub record PfcpMessage : Type 0 where
  pub flags : ℕ
  pub type : ℕ
  pub length : ℕ
  pub seid : ℕ
  pub sqn : ℕ
  pub body : Option Ies

-- A number of the host's byte order in memory, and one of the network's.
abbrev pub le_value : List ℕ → ℕ
le_value [] = 0
le_value (b ∷ bs) = b + 2 ^ 8 * le_value bs

abbrev pub be_value : List ℕ → ℕ → ℕ
be_value [] acc = acc
be_value (b ∷ bs) acc = be_value bs (acc * 2 ^ 8 + b)

abbrev pub seid_p : ℕ → Bool
seid_p flags = flags % 2 == 1

-- The header: with a SEID 16 bytes, without one 8, of which the last 4 are `sqn_only` and, being a
-- union, the low half of `seid`.
unfoldable pub read_header : List ℕ → Option PfcpMessage
read_header (f ∷ t ∷ l0 ∷ l1 ∷ a ∷ b ∷ c ∷ d ∷ mem) =
    if seid_p f
    then elim mem [
      | e ∷ g ∷ h ∷ i ∷ j ∷ k ∷ l ∷ m ∷ _ ↦ some (record {
        flags = f;
        type = t;
        length = le_value (l0 ∷ l1 ∷ []);
        seid = be_value (a ∷ b ∷ c ∷ d ∷ e ∷ g ∷ h ∷ i ∷ []) 0;
        sqn = le_value (j ∷ k ∷ l ∷ m ∷ []);
        body = none;
      })
      | _ ↦ none
    ]
    else some (record {
      flags = f;
      type = t;
      length = le_value (l0 ∷ l1 ∷ []);
      seid = le_value (a ∷ b ∷ c ∷ d ∷ []);
      sqn = le_value (a ∷ b ∷ c ∷ d ∷ []);
      body = none;
    })
read_header _ = none

abbrev pub header_size : ℕ → ℕ
header_size flags = if seid_p flags then 16 else 16 - 8

abbrev pub with_body : PfcpMessage → Option Ies → Option PfcpMessage
with_body m none = none
with_body m (some vs) = some (record m { body = some vs })

abbrev pub parse_body : Option Descriptions → List ℕ → ℕ → PfcpMessage → Option PfcpMessage
parse_body none mem len m = some m
parse_body (some ds) mem len m = with_body m (parse_fields ds mem len)

-- `bodyLen` is a `uint16_t`.
abbrev pub after_header : List ℕ → ℕ → Option PfcpMessage → Option PfcpMessage
after_header buf len none = none
after_header buf len (some m) =
    let size = header_size m.flags in
    let body_len = u16 (u16 len + 2 ^ 16 - size) in
    if body_len == 0 then some m else parse_body (message_ies m.type) (drop size buf) body_len m

-- `PfcpParseMessage` on a block of `len` bytes; STATUS_OK in every case.
unfoldable pub parse_message : List ℕ → ℕ → Option PfcpMessage
parse_message buf len = after_header buf len (read_header buf)
