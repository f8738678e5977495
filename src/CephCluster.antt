-- ===== src/CephCluster.antt =====
-- minion-sim/minion_sim/ceph_cluster.py: the simulated cluster of the test and demonstration
-- environment. `PgMonitor` has the placement groups and the health, `Osds` and `Pools` the commands
-- on OSDs, CRUSH nodes and pools. `Recovery` and `Growth` are proofs.
pub mod PgMonitor
pub mod Pools
pub mod Recovery
pub mod Growth
pub mod Osds
