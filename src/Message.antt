-- ===== src/Message.antt =====
-- lib/pfcp/include/pfcp_message.h and lib/pfcp/src/pfcp_message.c: what an information element (IE)
-- is, and what a description of the IEs inside a message is.
use het_bed.Base.{ℕ, List, Bool, true, false, Option, none, some, [], ◌∷◌, ◌+◌, ◌*◌, ◌/◌, ◌%◌, ◌^◌}
mod Table
mod Describe
mod Parse
mod Encode
mod Shape
mod RoundTrip
mod Reject
mod Build
mod Refine
mod Packet
mod Rows
mod Tests

-- A row of `ieDescriptionTable`: the type on the wire, whether the IE is a TLV, and `next` up to
-- `numToParse`, the rows of the IEs inside it. `msgLen` is the size of a C struct that holds those
-- IEs in this order.
pub record IeDescription : Type 0 where
  pub msg_type : ℕ
  pub is_tlv_obj : Bool
  pub next : List ℕ

-- A row with the rows that it names put in their places.
mutual
  pub data Description : Type 0 where
    tlv : ℕ → Description
    group : ℕ → Descriptions → Description

  pub data Descriptions : Type 0 where
    no_more : Descriptions
    des : Description → Descriptions → Descriptions

-- The C struct of a row: `absent` has presence 0, `octets` is a `TlvOctet` with `len` and `value`,
-- and `fields` is a struct of IEs.
mutual
  pub data Ie : Type 0 where
    absent : Ie
    octets : List ℕ → Ie
    fields : Ies → Ie

  pub data Ies : Type 0 where
    no_ies : Ies
    ie : Ie → Ies → Ies

unfoldable pub type_of : Description → ℕ
type_of (tlv t) = t
type_of (group t ds) = t

-- `htons` as it lies in memory.
abbrev pub be16 : ℕ → List ℕ
be16 n = n % 2 ^ 16 / 2 ^ 8 ∷ n % 2 ^ 8 ∷ []
