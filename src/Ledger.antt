-- ===== src/Ledger.antt =====
-- impl/aicash/ledgerstore.py: the ledger of a mint.
pub mod Table
pub mod State
pub mod Inputs
pub mod Outputs
pub mod Exchange
pub mod Rows
pub mod Invariant
pub mod Issue
pub mod Reads
pub mod History
pub mod Retries
