-- ===== src/Worker.antt =====
-- The validation worker: challenge_ingestion/worker.py, with the reports of
-- challenge_ingestion/validation.py. Each operation is one write transaction; one that raises is
-- rolled back and gives `none`. The clock's readings in a call are numbered in their order.
mod Rows
unfoldable pub use Rows.*
mod Results
unfoldable pub use Results.*
mod Snapshots
unfoldable pub use Snapshots.*
mod Transactions
unfoldable pub use Transactions.*
