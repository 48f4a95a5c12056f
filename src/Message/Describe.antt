-- ===== src/Message/Describe.antt =====
-- lib/pfcp/src/pfcp_message.c: the rows of `ieDescriptionTable` as trees, and the row of a message.
use het_bed.Base.{
  ℕ, zero, suc, List, [], ◌∷◌, Option, none, some, if◌then◌else◌, map, get_elem?, leb, ◌&&◌, ◌+◌,
  ◌-◌,
}
use het_bed.Message.{IeDescription, Description, Descriptions, tlv, group, no_more, des}
use het_bed.Message.Table.{ie_description_table}

abbrev pub of_list : List Description → Descriptions
of_list [] = no_more
of_list (d ∷ ds) = des d (of_list ds)

-- A row as a tree, given the rows that it names; outside the table there is the empty row 0.
abbrev pub described : (ℕ → Description) → Option IeDescription → Description
described rows none = tlv 0
described rows (some r) =
    if r.is_tlv_obj then tlv r.msg_type else group r.msg_type (of_list (map rows r.next))

-- The row of an index as a tree, to a depth.
unfoldable pub describe : ℕ → ℕ → Description
describe zero i = tlv 0
describe (suc n) i = described (describe n) (get_elem? ie_description_table i)

-- The cases of the `switch` of `PfcpParseMessage`, `PfcpBuildMessage` and `PfcpStructFree`: the row
-- that each computes for a message type. PFCP_VERSION_NOT_SUPPORTED_RESPONSE is 11.
unfoldable pub message_row : ℕ → Option ℕ
message_row t =
    if leb 1 t && leb t 10
    then some (t + 155)
    else if leb 12 t && leb t 15
    then some (t + 155 - 1)
    else if leb 50 t && leb t 57
    then some (t + 155 - (50 - 15) - 1)
    else none

abbrev pub depth : ℕ
depth = 6

abbrev pub ies_of : Description → Descriptions
ies_of (tlv t) = no_more
ies_of (group t ds) = ds

-- The IEs of a message type.
unfoldable pub message_ies : ℕ → Option Descriptions
message_ies t = elim (message_row t) [ none ↦ none | some i ↦ some (ies_of (describe depth i)) ]
