-- ===== src/Allocation.antt =====
-- What the choice of a machine's id in provisioner.py guarantees.
pub mod Lowest
pub mod Unique
pub mod Agreement
