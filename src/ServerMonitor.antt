-- ===== src/ServerMonitor.antt =====
-- cthulhu/cthulhu/manager/server_monitor.py: the servers, and which server each service of a Ceph
-- cluster runs on. `Objects` has the objects and their indexes, `Services` the registration of a
-- service, `Maps` what new cluster maps change, `Tree` the reading of the CRUSH tree, `Heartbeat` a
-- server's own report, `Removal` the deletions, `Queries` the look-ups,
-- `Dump` what is shown of a server.
mod Objects
mod Services
mod Tree
mod Maps
mod Heartbeat
mod Removal
mod Queries
mod Dump
pub mod Linked
pub mod Forgetting
pub mod Registered
pub mod Descending
unfoldable pub use Objects.*
unfoldable pub use Services.*
unfoldable pub use Tree.*
unfoldable pub use Maps.*
unfoldable pub use Heartbeat.*
unfoldable pub use Removal.*
unfoldable pub use Queries.*
unfoldable pub use Dump.*
