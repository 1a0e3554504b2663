-- ===== src/Quarantine.antt =====
-- What the calls of challenge_ingestion/intake.py keep of the tables and of the storage.
pub mod Stored
pub mod Calls
pub mod Drafts
pub mod Submitted
