-- ===== src/Coordinator.antt =====
-- The transaction coordinator of the reply state:
-- src/market_support_crewai_agent/runtime/state/coordinator_*.py and transaction_coordinator.py.
pub mod Config
pub mod Hashing
pub mod Retention
pub mod Ledger
pub mod Reservations
pub mod Effects
pub mod ReplyCommit
pub mod Feedback
pub mod Cleanup
pub mod Transactions
pub mod Validity
pub mod Consistency
