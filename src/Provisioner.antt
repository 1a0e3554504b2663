-- ===== src/Provisioner.antt =====
-- The hypervisor layer: provisioner.py, with the table of db/runtime_models.py that it writes.
mod Vmids
mod Names
mod Cards
mod Calls
mod Lifecycle
unfoldable pub use Vmids.*
unfoldable pub use Names.*
unfoldable pub use Cards.*
unfoldable pub use Calls.*
unfoldable pub use Lifecycle.*
