-- ===== src/Attempts.antt =====
-- What the sessions of themes.py keep: their attempts as an abstract view, one that is active for
-- each user, and the machines of other projects.
pub mod Frames
pub mod Routes
pub mod View
pub mod Launches
pub mod Single
pub mod Ends
pub mod Steps
pub mod Outcome
pub mod Protected
pub mod Untouched
pub mod Overdue
pub mod Reaped
