-- ===== src/Session.antt =====
-- methods/tempo/session: channels and their state.
pub mod State
pub mod Vouchers
pub mod Merge
pub mod Close
pub mod Change
pub mod Charge
pub mod Credit
pub mod Schedule
pub mod Settlement
pub mod Record
pub mod Step
pub mod Monotone
pub mod Invariant
pub mod Idempotency
pub mod Ledger
pub mod Capacity
pub mod Capture
pub mod Custody
pub mod Lease
pub mod Cas
pub mod Codec
pub mod Admission
pub mod Api
pub mod Examples
