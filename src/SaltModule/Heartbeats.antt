-- ===== src/SaltModule/Heartbeats.antt =====
-- `service_status`, `get_heartbeats` and `heartbeat`: what a server reports of the daemons whose
-- admin sockets it finds, and of the clusters of its monitors. The sockets' answers are parameters,
-- and so are the boot time and the installed version of Ceph; `Path`, names and FSIDs are numbers.
use calamari.Prelude.{
  ℕ, ◌≡◌, ◌↔◌, Bool, true, false, ◌&&◌, Option, none, some, List, [], ◌∷◌, ◌==◌, if◌then◌else◌,
  arith, elem,
}
use calamari.Prelude.Dict.{Dict, lookup, insert}
use calamari.Prelude.Keyed.{Eq, Map, put}
use calamari.Exec.{Exception, Result, ok, err, ◌>>◌, key_error, rados_error, monitoring_error}
use calamari.SaltModule.Objects.{Ceph, Status, connect, cluster_status}

-- "<cluster>-<type>.<id>", the name of a service
pub record ServiceName : Type 0 where
  pub cluster : ℕ
  pub service_type : ℕ
  pub id : ℕ

abbrev pub same_name : ServiceName → ServiceName → Bool
same_name a b = a.cluster == b.cluster && (a.service_type == b.service_type && a.id == b.id)

pub same_name_iff : (a b : ServiceName) → (same_name a b ≡ true) ↔ (a ≡ b)
same_name_iff a b = ground arith

instance abbrev pub service_name_eq : Eq ServiceName
service_name_eq = record { same = same_name; same_iff = same_name_iff }

-- `service_type != 'mon'`
abbrev pub mon_type : ℕ
mon_type = 0

-- A monitor's `mon_status`
pub record MonStatus : Type 0 where
  pub rank : ℕ
  pub quorum : List ℕ
  pub monmap_fsid : ℕ

pub record Service : Type 0 where
  pub name : ServiceName
  pub fsid : ℕ
  pub status : Option MonStatus
  pub version : Option ℕ

-- What the admin sockets answer, after json.loads; the command fails with an AdminSocketError, or
-- another exception where the answer is not what it should be. The version may be missing.
pub record Sockets : Type 0 where
  pub paths : List ℕ
  pub parsed : ℕ → Option ServiceName
  pub cluster_fsid : ℕ → Result ℕ
  pub config_fsid : ℕ → Result ℕ
  pub mon_status : ℕ → Result MonStatus
  pub version : ℕ → Result (Option ℕ)

abbrev pub ServiceReport : Type 0
ServiceReport = Map ServiceName Service

pub record ServerHeartbeat : Type 0 where
  pub services : ServiceReport
  pub boot_time : ℕ
  pub ceph_version : Option ℕ

-- `try: status` / `except AdminSocketError: config get fsid`
unfoldable pub daemon_fsid : Sockets → ℕ → Result ℕ
daemon_fsid sockets path = elim (sockets.cluster_fsid path) [
  | ok fsid ↦ ok fsid
  | err monitoring_error ↦ sockets.config_fsid path
  | err e ↦ err e
]

-- The FSID, and a monitor's status
unfoldable pub identify : Sockets → ℕ → ServiceName → Result (ℕ × Option MonStatus)
unfolding daemon_fsid
identify sockets path name =
    if name.service_type == mon_type
    then elim (sockets.mon_status path) [
      | err e ↦ err e
      | ok status ↦ ok (status.monmap_fsid, some status)
    ]
    else elim (daemon_fsid sockets path) [ err e ↦ err e | ok fsid ↦ ok (fsid, none) ]

-- `none` where the path is not that of a daemon's socket
unfoldable pub service_status : Sockets → ℕ → Result (Option Service)
unfolding identify
service_status sockets path = elim (sockets.parsed path) [
  | none ↦ ok none
  | some name ↦ elim (identify sockets path name) [
    | err e ↦ err e
    | ok (fsid, status) ↦ elim (sockets.version path) [
      | err e ↦ err e
      | ok version ↦
          ok (some (record { name = name; fsid = fsid; status = status; version = version }))
    ]
  ]
]

-- `except (rados.Error, MonitoringError)`
abbrev pub is_unavailable : Exception → Bool
is_unavailable rados_error = true
is_unavailable monitoring_error = true
is_unavailable _ = false

pub record Found : Type 0 where
  pub mon_sockets : Dict ℕ
  pub fsid_names : Dict ℕ
  pub services : ServiceReport

-- A mon in quorum
unfoldable pub in_quorum : Service → Bool
in_quorum service = elim service.status [
  | none ↦ false
  | some status ↦ service.name.service_type == mon_type && elem status.rank status.quorum
]

unfoldable pub record_service : ℕ → Service → Found → Found
unfolding in_quorum
record_service path service found = record {
  mon_sockets =
      if in_quorum service then insert service.fsid path found.mon_sockets else found.mon_sockets;
  fsid_names = insert service.fsid service.name.cluster found.fsid_names;
  services = put service.name service found.services;
}

-- `for filename in glob("/var/run/ceph/*.asok")`
unfoldable pub find_services : Sockets → List ℕ → Found → Result Found
unfolding service_status record_service
find_services sockets [] found = ok found
find_services sockets (path ∷ paths) found = elim (service_status sockets path) [
  | err e ↦ if is_unavailable e then find_services sockets paths found else err e
  | ok none ↦ find_services sockets paths found
  | ok (some service) ↦ find_services sockets paths (record_service path service found)
]

module _ {Cluster Raw Json Digest : Type 0} (ceph : Ceph Cluster Raw Json Digest)
    (cluster_of : ℕ → Cluster) where
  -- One cluster's status, by a connection of its own
  unfoldable pub status_of : ℕ → Result (Status Json Digest)
  status_of name = ((do connect ceph; cluster_status ceph name) (cluster_of name)).0

  -- `for fsid, socket_path in mon_sockets.items()`
  unfoldable pub all_statuses :
      Dict ℕ → Dict ℕ → Dict (Status Json Digest) → Result (Dict (Status Json Digest))
  unfolding status_of
  all_statuses fsid_names [] statuses = ok statuses
  all_statuses fsid_names ((fsid, path) ∷ sockets) statuses = elim (lookup fsid fsid_names) [
    | none ↦ err key_error
    | some name ↦ elim (status_of name) [
      | err e ↦ if is_unavailable e then all_statuses fsid_names sockets statuses else err e
      | ok status ↦ all_statuses fsid_names sockets (insert fsid status statuses)
    ]
  ]

  -- `import rados` fails where Ceph is not installed.
  unfoldable pub get_heartbeats :
      Sockets
      → (installed : Bool) (ceph_version : Option ℕ) (boot_time : ℕ)
      → Result (ServerHeartbeat × Dict (Status Json Digest))
  unfolding find_services all_statuses
  get_heartbeats sockets false ceph_version boot_time =
      ok (record { services = []; boot_time = boot_time; ceph_version = none }, [])
  get_heartbeats sockets true ceph_version boot_time =
      elim (find_services sockets sockets.paths
        (record { mon_sockets = []; fsid_names = []; services = [] })) [
          | err e ↦ err e
          | ok found ↦ elim (all_statuses found.fsid_names found.mon_sockets []) [
            | err e ↦ err e
            | ok statuses ↦ ok (
              record {
                services = found.services;
                boot_time = boot_time;
                ceph_version = ceph_version;
              },
              statuses,
            )
          ]
        ]
