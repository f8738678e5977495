-- ===== src/Lib.antt =====
-- The core of cthulhu, the server process of Calamari that monitors and manages Ceph clusters, with the
-- module that its minions run, the simulated cluster of its test environment, and the iSCSI targets.
--
-- A user's wish (create a pool, take an OSD out) is a user request. The request collection submits
-- it as a salt job to a minion on a monitor, is told when the job ends, and hands the request each
-- new cluster map until the request finds itself complete. Meanwhile the cluster monitor keeps copies
-- of the cluster's maps: a heartbeat announces versions, newer ones are fetched by salt jobs, and
-- what was fetched is stored if it is newer. Jobs that are not heard of for a minute are given up.
-- On a monitor's server the salt module runs the commands, reports the versions and hands out the maps.
-- Apart from these, the REST API stores a configuration of iSCSI targets and tells the minions of it.
--
-- Files, and what they are about:
-- - Prelude: shared names, Boolean tests, lists, integers, and dicts as association lists. Exec:
--   Python methods that change a state and may raise.
-- - Types: calamari-common/calamari_common/types.py, the maps and their versions, and the calls of
--   salt's client. Types/Text: the test of a placement group's state.
--   Types/OsdPools: osds_by_pool and osd_pools of the class OsdMap.
-- - UserRequest: cthulhu/cthulhu/manager/user_request.py. PgProgress is the class of that name;
--   Attributes has the objects and their construction (__init__ of each class), Methods submit,
--   _submit, complete, complete_jid, awaiting_versions and status, OnMap the on_map methods and
--   their branches. Lifecycle, Growth, Rounds and Splitting are proofs.
-- - SyncObjects: class SyncObjects of cthulhu/cthulhu/manager/cluster_monitor.py: on_version, fetch,
--   on_fetch_complete. Versions and Fetching are proofs.
-- - RequestCollection: cthulhu/cthulhu/manager/request_collection.py. Index has the state and
--   _update_index; Timed has tick, on_tick_response, cancel, fail_all and submit; Completion has
--   on_map, _on_rados_completion and on_completion. The other children are proofs.
-- - ClusterMonitor: class ClusterMonitor of cthulhu/cthulhu/manager/cluster_monitor.py: _is_favorite,
--   _set_favorite, on_heartbeat, inject_sync_object, on_sync_object, _request and the dispatch of
--   salt events in _run. Favorite, Healthy, Events and Sources are proofs.
-- - PoolRequestFactory: cthulhu/cthulhu/manager/pool_request_factory.py: create, update, delete and what
--   they use. MinSize and Growing are proofs.
-- - ServerMonitor: cthulhu/cthulhu/manager/server_monitor.py. Objects has ServerState, ServiceState
--   and the indexes; Services inject_server, inject_service, forget_service and _register_service;
--   Tree get_hostname_to_osds; Maps on_osd_map, on_mds_map and on_mon_map; Heartbeat
--   on_server_heartbeat and get_contact_period; Removal delete and delete_cluster; Queries the
--   look-ups; Dump dump and dump_cluster. Linked, Forgetting, Registered and Descending are
--   proofs.
-- - Eventer: cthulhu/cthulhu/manager/eventer.py: requests, servers and on_tick; Maps has on_sync_object
--   and what it calls. Contact, Telling and Turns are proofs. The Eventer reads the server
--   monitor's own state.
-- - OsdRequestFactory: cthulhu/cthulhu/manager/osd_request_factory.py: update, scrub, deep_scrub, repair,
--   get_valid_commands, update_config and _commands_to_set_flags. Commands has what Ceph does on the
--   commands, a specification, and proofs.
-- - CrushNodeRequestFactory: cthulhu/cthulhu/manager/crush_node_request_factory.py: create, update, delete
--   and what they use, up to the commands. Placing has what Ceph does on the commands to one OSD, a
--   specification, and proofs.
-- - RpcInterface: cthulhu/cthulhu/manager/rpc.py: get_request, cancel_request and list_requests over the
--   request collection. Dispatch has update, apply, get_valid_commands, create and delete, which lead to
--   a cluster's monitor. Cancelled and Listed are proofs.
-- - SaltModule: salt/srv/salt/_modules/ceph.py, which runs on the minions. PgSummary has pg_summary,
--   Objects rados_command and cluster_status, Fetch get_cluster_object, Commands rados_commands,
--   Heartbeats service_status and get_heartbeats. Counts, Agreement, Running and Hosted are proofs.
-- - CephCluster: class CephCluster of minion-sim/minion_sim/ceph_cluster.py, the simulated cluster.
--   PgMonitor has its objects, _pg_monitor, _update_health and advance; Pools the commands on pools;
--   Osds those on OSDs, flags and CRUSH nodes. Recovery and Growth are proofs.
-- - TgtManager: rest-api/calamari_rest/sservice/iscsi/tgt_manager.py and target.py, the configuration of
--   iSCSI targets. Conf is what is stored and its schema, Targets the class TgtManager and PoolManager,
--   Target and Luns the class Target. The other children are proofs.
-- - Tests: the theorems at concrete inputs.
--
-- How the program is modelled:
-- - Ids (of requests, jobs, minions, clusters) are only compared, so they are natural numbers; so is
--   an epoch. A hash is a number that is only compared for equality. Times are seconds, and a handler
--   reads the clock once.
-- - A method is a function from its object's state to a result, a value or an exception, and the new
--   state, which is there after an exception too: what was written before a raise stays written.
-- - An object's class is a tag that holds the attributes that the class adds. The collection's two
--   dicts share their objects in the program. Here the objects are kept by request id, and the
--   index of jobs leads to request ids.
-- - Salt is a parameter: a function from the calls made so far and a new call to a job id, or to
--   nothing where the job could not be published. What a job returns is the input of on_completion.
-- - The period in which a server reports, and the factor of it after which a favorite is given up,
--   are parameters too: salt's pillar and the configuration have them. What makes a request in
--   `_request` is an argument that reads the monitor.
-- - Error texts, status lines and events to the Eventer are constructors, one for each text.
-- - Python gives the entries of a dict or set in no promised order; here it is that of insertion.
-- - Servers and services are shared objects: they live on a heap, the indexes hold references.
-- - Two functions run on fuel. `UserRequest.Rounds.rounds` is a specification; that enough of it is
--   given is part of its theorem. `ServerMonitor.Tree.find_descendants` has the interpreter's limit of
--   nested calls, and raises a RuntimeError where it is passed; a theorem says when it is not.
--
-- Not modelled: log lines, headlines and associations; the lock of the collection (an operation
-- runs as a whole); the start and stop of the cluster monitor's greenlet; the request that replaces
-- the CRUSH map, the parsing of the configuration's numbers, the recovery of servers from the
-- database, the wording of events, the manager and persistence, and the views of the REST API. What
-- a monitor tells of these is recorded, and their exceptions are left out. Of the RPC interface the
-- look-ups of objects and servers and the calls on minions are left out, of the salt module the sockets'
-- input and output, of the simulator the creation of a cluster and its random statistics, and of
-- the iSCSI configuration the parsing of tgt-admin's reports.
-- librados, crushtool, the admin sockets, JSON, YAML and str.strip are parameters, or recorded calls
-- that may raise.
pub mod Prelude
pub mod Exec
pub mod Types
pub mod UserRequest
pub mod SyncObjects
pub mod RequestCollection
pub mod ClusterMonitor
pub mod PoolRequestFactory
pub mod ServerMonitor
pub mod Eventer
pub mod OsdRequestFactory
pub mod CrushNodeRequestFactory
pub mod RpcInterface
pub mod SaltModule
pub mod CephCluster
pub mod TgtManager
pub mod Tests
