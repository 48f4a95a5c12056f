-- ===== src/N4.antt =====
-- src/n4/n4_pfcp_handler.c: the IEs of a request as the handlers read them.
use het_bed.Base.{ℕ, Bool, Option, none, some, ◌+◌, ◌*◌, ◌^◌, List, [], ◌∷◌}
use het_bed.Match.Packet.{Bytes}
pub mod Far
pub mod Rule
pub mod Handle
pub mod Create
pub mod Remove
pub mod Session
pub mod Qer
pub mod Reach
mod Tests

-- A `TlvOctet` that is present: its length, and the memory from `value` on. An IE that is absent is
-- `none`.
pub record Tlv : Type 0 where
  pub len : ℕ
  pub value : Bytes

-- `ntohs` and `ntohl` of a load.
abbrev pub be16_at : Bytes → ℕ → ℕ
be16_at v i = v i * 2 ^ 8 + v (i + 1)

abbrev pub be32_at : Bytes → ℕ → ℕ
be32_at v i = v i * 2 ^ 24 + v (i + 1) * 2 ^ 16 + v (i + 2) * 2 ^ 8 + v (i + 3)

-- `ForwardingParameters`, and `UpdateForwardingParameters`, which has the same IEs for the handlers.
pub record ForwardingIe : Type 0 where
  pub destination_interface : Option Tlv
  pub network_instance : Option Tlv
  pub outer_header_creation : Option Tlv
  pub forwarding_policy : Option Tlv

-- `CreateFAR` and `UpdateFAR`.
pub record FarIe : Type 0 where
  pub far_id : Option Tlv
  pub apply_action : Option Tlv
  pub forwarding_parameters : Option ForwardingIe
