-- ===== src/Ledger.antt =====
-- backend/app/services/ledger.py: the hash chain of the ledger.
pub mod Digits
pub mod Chain
pub mod Table
pub mod Tamper
pub mod Limits
mod Examples
