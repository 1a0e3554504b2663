-- ===== src/Trust.antt =====
-- What proxmox.py and container_lab.py, and the outbound rules of themes.py, guarantee.
pub mod Ranges
pub mod Least
pub mod Outbound
pub mod Requests
