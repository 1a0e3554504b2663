-- ===== src/Examples.antt =====
-- The theorems applied to small concrete tables, for each part of the program.
mod Data
mod Limits
mod Machines
mod Reviews
mod Jobs
mod Staff
mod Visits
mod Board
mod Attempts
mod Notices
mod Quarantine
