-- ===== src/Model/Address.antt =====
-- Identifiers and addresses: src/model/block/payload/transaction/output/address, and the ids
-- beside them. A fixed array of bytes is a byte string.
use inx_chronicle.Common.{
  ℕ, ◌%◌, ◌/◌, ◌≡◌, ◌↔◌, Bool, true, false, ◌&&◌, [], ◌∷◌, ◌++◌, arith, ◌==◌, Eq, ==_iff,
}
use inx_chronicle.Common.Bytes.{Bytes, bytes_beq, bytes_beq_iff}

-- `Ed25519Address`, `AliasAddress` and `NftAddress` each wrap one array.
pub data Address : Type 0 where
  ed25519 alias nft : Bytes → Address

abbrev pub address_beq : Address → Address → Bool
address_beq (Address.ed25519 a) (Address.ed25519 b) = bytes_beq a b
address_beq (Address.alias a) (Address.alias b) = bytes_beq a b
address_beq (Address.nft a) (Address.nft b) = bytes_beq a b
address_beq a b = false

pub address_beq_iff : (a b : Address) → (address_beq a b ≡ true) ↔ (a ≡ b)
address_beq_iff (Address.ed25519 a) (Address.ed25519 b) = ground (arith, bytes_beq_iff a b)
address_beq_iff (Address.alias a) (Address.alias b) = ground (arith, bytes_beq_iff a b)
address_beq_iff (Address.nft a) (Address.nft b) = ground (arith, bytes_beq_iff a b)
address_beq_iff a b = ground arith

instance abbrev pub address_eq : Eq Address
address_eq = record { beq = address_beq; beq_iff = address_beq_iff }

-- The index is a `u16`.
pub record OutputId : Type 0 where
  pub transaction_id : Bytes
  pub index : ℕ

abbrev pub output_id_beq : OutputId → OutputId → Bool
output_id_beq a b = bytes_beq a.transaction_id b.transaction_id && a.index == b.index

pub output_id_beq_iff : (a b : OutputId) → (output_id_beq a b ≡ true) ↔ (a ≡ b)
output_id_beq_iff a b =
    ground (arith, bytes_beq_iff a.transaction_id b.transaction_id, ==_iff a.index b.index)

instance abbrev pub output_id_eq : Eq OutputId
output_id_eq = record { beq = output_id_beq; beq_iff = output_id_beq_iff }

-- `u16::to_le_bytes`
abbrev pub u16_to_le_bytes : ℕ → Bytes
u16_to_le_bytes n = (n % 256) ∷ (n / 256 % 256) ∷ []

-- `OutputId::as_bytes`
unfoldable pub as_bytes : OutputId → Bytes
as_bytes id = id.transaction_id ++ u16_to_le_bytes id.index

-- `OutputId::to_hex`, with the `encode` of the crate prefix_hex
abbrev pub to_hex : (Bytes → Bytes) → OutputId → Bytes
to_hex encode id = encode (as_bytes id)

-- `NftId::implicit()`, `AliasId::implicit()`
abbrev pub implicit : Bytes
implicit =
    0 ∷ 0 ∷ 0 ∷ 0 ∷ 0 ∷ 0 ∷ 0 ∷ 0 ∷ 0 ∷ 0 ∷ 0 ∷ 0 ∷ 0 ∷ 0 ∷ 0 ∷ 0 ∷ 0 ∷ 0 ∷ 0 ∷ 0 ∷ 0 ∷ 0 ∷ 0 ∷ 0
    ∷ 0 ∷ 0 ∷ 0 ∷ 0 ∷ 0 ∷ 0 ∷ 0 ∷ 0 ∷ []
