-- ===== src/N4/Far.antt =====
-- src/n4/n4_pfcp_handler.c: the conversion of a FAR IE into a rule.
use het_bed.Base.{
  ℕ, zero, suc, Bool, true, false, ◌&&◌, ◌||◌, not, Option, none, some, List, [], ◌∷◌, ◌++◌,
  if◌then◌else◌, ◌==◌, ltb, ◌+◌, ◌/◌, ◌%◌, ◌^◌,
}
use het_bed.Match.Packet.{Bytes, le32, swap16}
use het_bed.Context.Far.{Far, ForwardingParameters, OuterHeaderCreation}
use het_bed.N4.{Tlv, be32_at, ForwardingIe, FarIe}

-- A step on a rule that may refuse it; a rule that is refused is thrown away.
abbrev pub Step : Type 0 → Type 0
Step A = A → Option A

abbrev pub and_then : {A : Type 0} → Option A → Step A → Option A
and_then none f = none
and_then (some a) f = f a

abbrev pub if_present : {I A : Type 0} → Option I → (I → Step A) → Step A
if_present none f a = some a
if_present (some i) f a = f i a

abbrev pub far_id_step : Option Tlv → Step Far
far_id_step ie =
    if_present ie λ t f. some (record f { far_id_set = true; far_id = be32_at t.value 0 })

abbrev pub apply_action_step : Option Tlv → Step Far
apply_action_step ie =
    if_present ie λ t f. some (record f { apply_action_set = true; apply_action = t.value 0 })

abbrev pub destination_step : Option Tlv → Step ForwardingParameters
destination_step ie =
    if_present ie
      λ t p. some (record p { destination_interface_set = true; destination_interface = t.value 0 })

-- `strncpy` of at most `n` bytes: behind the first 0 of the source it writes zeros, behind `n` bytes
-- nothing.
unfoldable pub strncpy : Bool → ℕ → List ℕ → Bytes → ℕ → List ℕ
strncpy ended i [] src n = []
strncpy ended i (d ∷ dest) src zero = d ∷ dest
strncpy ended i (d ∷ dest) src (suc n) =
    let over = ended || (src i == 0) in
    (if over then 0 else src i) ∷ strncpy over (i + 1) dest src n

-- `networkInstance` has 64 bytes.
abbrev pub network_step : Option Tlv → Step ForwardingParameters
network_step ie = if_present ie λ t p.
    if ltb t.len 64
    then some (record p {
      network_instance_set = true;
      network_instance = strncpy false 0 p.network_instance t.value t.len;
    })
    else none

-- The flags of `PfcpOuterHdr`, from the lowest bit of its first byte on.
abbrev bit : ℕ → ℕ → Bool
bit n k = n / 2 ^ k % 2 == 1

unfoldable pub bytes_at : Bytes → ℕ → ℕ → List ℕ
bytes_at v i zero = []
bytes_at v i (suc n) = v i ∷ bytes_at v (i + 1) n

-- `PfcpOuterHdr`: flags, a byte that is not read, the TEID, an address of 4 or 16 bytes, and behind the
-- 20 bytes of the union `port`, which is one byte.
unfoldable pub outer_header : Bytes → OuterHeaderCreation → OuterHeaderCreation
outer_header v o =
    let gtpu4 = bit (v 0) 0 in
    let gtpu6 = bit (v 0) 1 in
    let udp4 = bit (v 0) 2 in
    let udp6 = bit (v 0) 3 in
    let port = swap16 (v 26) in
    let o1 = record o { description = v 0 } in
    let o2 = if gtpu4 || gtpu6 then record o1 { teid = be32_at v 2 } else o1 in
    let o3 = if udp4 || gtpu4 then record o2 { ipv4 = le32 v 6 } else o2 in
    let o4 = if (udp4 || gtpu4) && not gtpu4 then record o3 { port = port } else o3 in
    let o5 = if udp6 || gtpu6 then record o4 { ipv6 = bytes_at v 6 16 } else o4 in
    if (udp6 || gtpu6) && not gtpu6 then record o5 { port = port } else o5

abbrev pub outer_header_step : Option Tlv → Step ForwardingParameters
outer_header_step ie = if_present ie λ t p. some (record p {
  outer_header_creation_set = true;
  outer_header_creation = outer_header t.value p.outer_header_creation;
})

-- Bytes written over the first ones of an array.
unfoldable pub written : List ℕ → List ℕ → List ℕ
written [] array = array
written (b ∷ bytes) [] = []
written (b ∷ bytes) (a ∷ array) = b ∷ written bytes array

-- The length byte and the identifier, of which 64 bytes have room with the 0 behind it; what an older
-- identifier has behind that stays.
abbrev pub policy_step : Option Tlv → Step ForwardingParameters
policy_step ie = if_present ie λ t p.
    if ltb (t.value 0) 64
    then some (record p {
      forwarding_policy_set = true;
      forwarding_policy_length = t.value 0;
      forwarding_policy = written (bytes_at t.value 1 (t.value 0) ++ 0 ∷ []) p.forwarding_policy;
    })
    else none

unfoldable pub forwarding_steps : ForwardingIe → Step ForwardingParameters
forwarding_steps ie p =
    and_then
      (and_then
        (and_then (destination_step ie.destination_interface p) (network_step ie.network_instance))
        (outer_header_step ie.outer_header_creation))
      (policy_step ie.forwarding_policy)

abbrev pub with_forwarding : Far → Option ForwardingParameters → Option Far
with_forwarding f none = none
with_forwarding f (some p) =
    some (record f { forwarding_parameters_set = true; forwarding_parameters = p })

abbrev pub forwarding_step : Option ForwardingIe → Step Far
forwarding_step ie =
    if_present ie λ i f. with_forwarding f (forwarding_steps i f.forwarding_parameters)

abbrev pub convert_parts : Option Tlv → Option Tlv → Option ForwardingIe → Step Far
convert_parts id action forwarding f =
    and_then (and_then (far_id_step id f) (apply_action_step action)) (forwarding_step forwarding)

unfoldable pub convert_far : FarIe → Step Far
convert_far ie = convert_parts ie.far_id ie.apply_action ie.forwarding_parameters

-- `_ConvertUpdateFARTlvToRule`, the same statements on an `UpdateFAR`.
abbrev pub convert_update_far : FarIe → Step Far
convert_update_far = convert_far
