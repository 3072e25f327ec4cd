-- ===== src/Model/Output.antt =====
-- Outputs: src/model/block/payload/transaction/output. The timestamps and indices are `u32`
-- numbers, the amounts of the base token `u64` numbers.
use inx_chronicle.Common.{ℕ, Bool, true, false, ◌&&◌, List, Option, none, some}
use inx_chronicle.Common.Bytes.{Bytes}
use inx_chronicle.Model.Address.{Address}

-- `TokenAmount`
abbrev pub TokenAmount : Type 0
TokenAmount = ℕ

pub record NativeToken : Type 0 where
  pub token_id : Bytes
  pub amount : Bytes

pub data TokenScheme : Type 0 where
  simple : (minted_tokens melted_tokens maximum_supply : Bytes) → TokenScheme

pub data Feature : Type 0 where
  sender issuer : Address → Feature
  metadata tag : Bytes → Feature

pub record AddressUnlockCondition : Type 0 where
  pub address : Address

pub record StorageDepositReturnUnlockCondition : Type 0 where
  pub return_address : Address
  pub amount : TokenAmount

pub record TimelockUnlockCondition : Type 0 where
  pub timestamp : ℕ

pub record ExpirationUnlockCondition : Type 0 where
  pub return_address : Address
  pub timestamp : ℕ

pub record TreasuryOutput : Type 0 where
  pub amount : TokenAmount

pub record BasicOutput : Type 0 where
  pub amount : TokenAmount
  pub native_tokens : List NativeToken
  pub address_unlock_condition : AddressUnlockCondition
  pub storage_deposit_return_unlock_condition : Option StorageDepositReturnUnlockCondition
  pub timelock_unlock_condition : Option TimelockUnlockCondition
  pub expiration_unlock_condition : Option ExpirationUnlockCondition
  pub features : List Feature

pub record AliasOutput : Type 0 where
  pub amount : TokenAmount
  pub native_tokens : List NativeToken
  pub alias_id : Bytes
  pub state_index : ℕ
  pub state_metadata : Bytes
  pub foundry_counter : ℕ
  pub state_controller_address_unlock_condition : AddressUnlockCondition
  pub governor_address_unlock_condition : AddressUnlockCondition
  pub features : List Feature
  pub immutable_features : List Feature

pub record FoundryOutput : Type 0 where
  pub amount : TokenAmount
  pub native_tokens : List NativeToken
  pub foundry_id : Bytes
  pub serial_number : ℕ
  pub token_scheme : TokenScheme
  pub immutable_alias_address_unlock_condition : AddressUnlockCondition
  pub features : List Feature
  pub immutable_features : List Feature

pub record NftOutput : Type 0 where
  pub amount : TokenAmount
  pub native_tokens : List NativeToken
  pub nft_id : Bytes
  pub address_unlock_condition : AddressUnlockCondition
  pub storage_deposit_return_unlock_condition : Option StorageDepositReturnUnlockCondition
  pub timelock_unlock_condition : Option TimelockUnlockCondition
  pub expiration_unlock_condition : Option ExpirationUnlockCondition
  pub features : List Feature
  pub immutable_features : List Feature

pub data Output : Type 0 where
  treasury : TreasuryOutput → Output
  basic : BasicOutput → Output
  alias : AliasOutput → Output
  foundry : FoundryOutput → Output
  nft : NftOutput → Output

-- `Output::owning_address`
unfoldable pub owning_address : Output → Option Address
owning_address (Output.treasury o) = none
owning_address (Output.basic o) = some o.address_unlock_condition.address
owning_address (Output.alias o) = some o.state_controller_address_unlock_condition.address
owning_address (Output.foundry o) = some o.immutable_alias_address_unlock_condition.address
owning_address (Output.nft o) = some o.address_unlock_condition.address

-- `Output::amount`
unfoldable pub output_amount : Output → TokenAmount
output_amount (Output.treasury o) = o.amount
output_amount (Output.basic o) = o.amount
output_amount (Output.alias o) = o.amount
output_amount (Output.foundry o) = o.amount
output_amount (Output.nft o) = o.amount

abbrev pub is_none {ℓ} : {A : Type ℓ} → Option A → Bool
is_none none = true
is_none (some a) = false

abbrev pub is_some {ℓ} : {A : Type ℓ} → Option A → Bool
is_some none = false
is_some (some a) = true

-- `Output::is_trivial_unlock`
unfoldable pub is_trivial_unlock : Output → Bool
is_trivial_unlock (Output.treasury o) = false
is_trivial_unlock (Output.basic o) =
    is_none o.storage_deposit_return_unlock_condition
    && (is_none o.timelock_unlock_condition && is_none o.expiration_unlock_condition)
is_trivial_unlock (Output.alias o) = true
is_trivial_unlock (Output.nft o) =
    is_none o.storage_deposit_return_unlock_condition
    && (is_none o.timelock_unlock_condition && is_none o.expiration_unlock_condition)
is_trivial_unlock (Output.foundry o) = true
