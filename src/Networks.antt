-- ===== src/Networks.antt =====
-- What the networks of provisioner.py guarantee.
pub mod Names
pub mod Cards
