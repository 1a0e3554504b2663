-- ===== src/Intake.antt =====
-- The intake of challenges: challenge_ingestion/intake.py over the tables of Ingestion, with the
-- package policy of challenge_ingestion/requirements.py.
mod Package
mod Tables
mod Uploading
mod Submitting
mod Requests
unfoldable pub use Package.*
unfoldable pub use Tables.*
unfoldable pub use Uploading.*
unfoldable pub use Submitting.*
unfoldable pub use Requests.*
