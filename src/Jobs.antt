-- ===== src/Jobs.antt =====
-- The jobs of the validation worker (challenge_ingestion/worker.py) through any sequence of its
-- transactions.
pub mod Keys
pub mod Operations
pub mod Changing
pub mod Following
pub mod Diagram
pub mod Settled
pub mod Leases
pub mod Finishing
pub mod Turns
pub mod Claiming
pub mod Invariant
pub mod Outcome
pub mod Frames
pub mod Notices
