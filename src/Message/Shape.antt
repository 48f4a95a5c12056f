-- ===== src/Message/Shape.antt =====
-- lib/pfcp/include/pfcp_message.h: which values are a C struct of a description that can be put on
-- the wire, and what stands at the front of their bytes.
use het_bed.Base.{ℕ, ◌≡◌, ◌≢◌, ◌<◌, Option, none, some, length, ◌^◌, true, false}
use het_bed.Message.{
  Description, Descriptions, tlv, group, no_more, des, Ie, Ies, absent, octets, fields, no_ies, ie,
  type_of,
}
use het_bed.Message.Encode.{encode_all}

-- The type of the first IE that is present.
unfoldable pub next_type : Descriptions → Ies → Option ℕ
next_type (des d ds) (ie absent vs) = next_type ds vs
next_type (des d ds) (ie v vs) = some (type_of d)
next_type _ _ = none

-- An IE that is absent has no IE of its own type next: several IEs of a type are filled from the
-- front.
abbrev pub IsPacked : Description → Ie → Descriptions → Ies → Type 0
IsPacked d absent ds vs = next_type ds vs ≢ some (type_of d)
IsPacked d _ ds vs = Unit

-- A value is a struct of the description, its lengths and types are 16-bit numbers, and it is packed.
unfoldable mutual
  pub Fits : Description → Ie → Type 0
  Fits d absent = Unit
  Fits (tlv t) (octets v) = (t < 2 ^ 16) × (length v < 2 ^ 16)
  Fits (group t ds) (fields vs) = (t < 2 ^ 16) × (length (encode_all ds vs) < 2 ^ 16) × FitAll ds vs
  Fits _ _ = false ≡ true

  pub FitAll : Descriptions → Ies → Type 0
  FitAll no_more no_ies = Unit
  FitAll (des d ds) (ie v vs) = Fits d v × IsPacked d v ds vs × FitAll ds vs
  FitAll _ _ = false ≡ true
