-- ===== src/Analytics/Ledger.antt =====
-- The analytics of src/analytics/ledger.
pub mod LedgerOutputs
pub mod UnlockConditions
pub mod LedgerSize
pub mod UnclaimedTokens
pub mod TransactionSize
pub mod AddressBalance
pub mod OutputActivity
pub mod ActiveAddresses
pub mod BaseToken
