-- ===== src/Proxmox.antt =====
-- The adapter pond-sec/app/proxmox.py in front of the provisioner: its settings, what its token may
-- hold, and the checks in front of each operation.
mod Settings
mod Privileges
mod Guarded
unfoldable pub use Settings.*
unfoldable pub use Privileges.*
unfoldable pub use Guarded.*
