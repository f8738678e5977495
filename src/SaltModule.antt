-- ===== src/SaltModule.antt =====
-- salt/srv/salt/_modules/ceph.py: what the minions run. `PgSummary` digests a dump of placement
-- groups, `Commands` runs the commands of a request, `Objects` reports versions, `Fetch` hands out maps,
-- `Heartbeats` collects what a server reports. `Counts`, `Running`, `Agreement` and `Hosted` are
-- proofs.
pub mod PgSummary
pub mod Counts
pub mod Objects
pub mod Fetch
pub mod Agreement
pub mod Commands
pub mod Running
pub mod Heartbeats
pub mod Hosted
