-- ===== src/Machines.antt =====
-- What the calls of provisioner.py on the hypervisor guarantee.
pub mod Guards
pub mod Protected
pub mod Released
