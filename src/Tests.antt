-- ===== src/Tests.antt =====
-- The theorems at concrete inputs, by the part of the program that they are about.
mod Samples
mod Requests
mod Collections
mod Syncing
mod Tree
mod Monitors
mod Pools
mod Servers
mod Events
mod Osds
mod Crush
mod Salt
mod Simulator
mod Iscsi
mod Rpc
