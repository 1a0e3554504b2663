-- ===== src/Sessions.antt =====
-- The sessions of pond-sec/app/themes.py: launching, closing and reaping a challenge's machines,
-- with the Docker service of pond-sec/app/container_lab.py.
mod Service
mod Tables
mod Egress
mod Cloning
mod Launching
mod Closing
mod Reaping
unfoldable pub use Service.*
unfoldable pub use Tables.*
unfoldable pub use Egress.*
unfoldable pub use Cloning.*
unfoldable pub use Launching.*
unfoldable pub use Closing.*
unfoldable pub use Reaping.*
