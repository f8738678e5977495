-- ===== src/Tests/Salt.antt =====
-- A monitor's server, its commands and its heartbeats.
use calamari.Prelude.{
  ℕ, ◌+◌, ◌≡◌, refl, true, false, Option, none, some, List, [], ◌∷◌, if◌then◌else◌, ◌==◌,
}
use calamari.Prelude.Dict.{lookup, insert}
use calamari.Prelude.Keyed.{find, put}
use calamari.Exec.{ok, err, monitoring_error}
use calamari.SaltModule.PgSummary.{Pg, pg_summary}
use calamari.SaltModule.Counts.{shown, shown_at, pg_summary_lem}
use calamari.SaltModule.Objects.{
  Query, query_mon_dump, query_osd_dump, query_mds_dump, Key, fsid, election_epoch, epoch, monmap,
  osdmap, mdsmap, osds, osd, Ceph, Status, cluster_status, rados_raw, rados_command, decode, get,
  get_config, summarise, versions_of,
}
use calamari.SaltModule.Agreement.{IsServing}
use calamari.SaltModule.Commands.{RadosCommand, other, Runs, Report, output, rados_commands}
use calamari.SaltModule.Running.{Outcome, rados_commands-Outcome}
use calamari.SaltModule.Heartbeats.{
  ServiceName, Service, Sockets, ServerHeartbeat, service_status, identify, daemon_fsid, in_quorum,
  record_service, find_services, status_of, all_statuses, get_heartbeats,
}
use calamari.SaltModule.Hosted.{Hosts, get_heartbeats-Hosts}

-- Two placement groups of pool 3, and one of pool 4 in another state
abbrev three_pgs : List Pg
three_pgs =
    record { pgid = (3, 0); state = 1; acting = 5 ∷ 6 ∷ [] }
    ∷ record { pgid = (3, 1); state = 1; acting = 6 ∷ 7 ∷ [] }
    ∷ record { pgid = (4, 0); state = 2; acting = 6 ∷ [] }
    ∷ []

pg_summary_lem_example :
    (shown_at 6 1 (pg_summary three_pgs).by_osd ≡ 2)
    × (shown_at 3 1 (pg_summary three_pgs).by_pool ≡ 2)
    × (shown 1 (pg_summary three_pgs).all ≡ 2)
pg_summary_lem_example = pg_summary_lem three_pgs 6 3 1

-- A cluster counts the commands that it ran. Its monitor map is of epoch 4, its OSD map of epoch 6
-- by its status and 7 when it is dumped, and its MDS map of epoch 8.
abbrev dumped : Query ℕ → ℕ
dumped query_mon_dump = 4
dumped query_osd_dump = 7
dumped query_mds_dump = 8
dumped _ = 0

abbrev item_of : Key → ℕ → Option ℕ
item_of fsid j = some 9
item_of election_epoch j = some 3
item_of epoch j = some j
item_of monmap j = some 4
item_of osdmap j = some 6
item_of mdsmap j = some 8
item_of osds j = some 1
item_of osd j = some j

abbrev ceph : Ceph ℕ ℕ ℕ ℕ
ceph = record {
  connects = λ c. true;
  ask = λ q c. record { ret = 0; outbuf = dumped q; outs = 0 };
  config_show = λ c. some 1;
  decompile = λ raw. record { ret = 0; outbuf = raw; outs = 0 };
  is_empty_buffer = λ raw. false;
  loads = λ raw. some raw;
  item = item_of;
  elements = λ j. 0 ∷ 1 ∷ [];
  pgs_of = λ j. three_pgs;
  md5 = λ raw. raw + 100;
  md5_of_summary = λ s. 200;
}

abbrev serving : (c : ℕ) → IsServing ceph c
serving c = record {
  connected = refl;
  loaded = dumped;
  answered = λ q. refl;
  is_full = λ q. refl;
  is_json = λ q. refl;
  config_raw = 1;
  config_json = 1;
  config_shown = refl;
  config_is_json = refl;
  id = 9;
  has_id = refl;
  election = 3;
  has_election = refl;
  mon_part = 4;
  mon_epoch = 4;
  has_mon = refl;
  has_mon_epoch = refl;
  mon_dump_epoch = 4;
  has_mon_dump_epoch = refl;
  osd_part = 6;
  osd_inner = 6;
  osd_epoch = 6;
  has_osd = refl;
  has_osd_inner = refl;
  has_osd_epoch = refl;
  osd_dump_epoch = 7;
  has_osd_dump_epoch = refl;
  mds_part = 8;
  mds_epoch = 8;
  has_mds = refl;
  has_mds_epoch = refl;
  mds_dump_epoch = 8;
  has_mds_dump_epoch = refl;
  osd_list = 1;
  has_osds = refl;
  osd_id = λ entry. entry;
  has_osd_id = λ entry. refl;
  decompiled = λ raw. refl;
}

-- A command fails if its prefix is 1.
abbrev runs : Runs ℕ ℕ ℕ
runs = record {
  json_command = λ command c. (
    record { ret = (elim command [ other prefix args ↦ prefix | _ ↦ 0 ]); outbuf = 7; outs = 3 },
    c + 1,
  );
  compile = λ text. record { ret = 0; outbuf = text; outs = 0 };
}

abbrev known_status : ℕ → ℕ → Status ℕ ℕ
known_status name c = record {
  name = name;
  status_fsid = 9;
  versions = versions_of ceph 3 4 6 8 200 100 101;
}

reports : (name c : ℕ) → cluster_status ceph name c ≡ (ok (known_status name c), c)
unfolding cluster_status rados_command rados_raw decode get get_config summarise
reports name c = refl

outputs : (raw c : ℕ) → (out : Option ℕ) × (output ceph runs raw c ≡ (ok out, c))
unfolding output
outputs raw c = (some raw, refl)

-- The second of three commands fails.
abbrev three_commands : List (RadosCommand ℕ ℕ)
three_commands = other 0 5 ∷ other 1 5 ∷ other 0 6 ∷ []

rados_commands-Outcome_example :
    (r : Report ℕ ℕ) × (c' : ℕ) × (rados_commands ceph runs 9 2 three_commands 0 ≡ (ok r, c'))
    × Outcome ceph runs 0 three_commands r.error r.results r.error_status c'
    × (r.versions ≡ (known_status 2 c').versions)
    × (r.report_fsid ≡ 9)
rados_commands-Outcome_example =
    rados_commands-Outcome ceph runs known_status reports (λ text. refl) outputs (λ c. refl) 9 2
      three_commands 0

-- An OSD's socket, a stale one, and that of a monitor in quorum
abbrev osd_name : ServiceName
osd_name = record { cluster = 2; service_type = 1; id = 5 }

abbrev mon_name : ServiceName
mon_name = record { cluster = 2; service_type = 0; id = 1 }

abbrev sockets : Sockets
sockets = record {
  paths = 10 ∷ 11 ∷ 12 ∷ [];
  parsed = λ path. if path == 12 then some mon_name else some osd_name;
  cluster_fsid = λ path. if path == 10 then ok 9 else err monitoring_error;
  config_fsid = λ path. err monitoring_error;
  mon_status = λ path. ok (record { rank = 0; quorum = 0 ∷ 1 ∷ []; monmap_fsid = 9 });
  version = λ path. ok (some 80);
}

abbrev server : ServerHeartbeat
server = record {
  services =
      (osd_name, record { name = osd_name; fsid = 9; status = none; version = some 80 })
      ∷ (
        mon_name,
        record {
          name = mon_name;
          fsid = 9;
          status = some (record { rank = 0; quorum = 0 ∷ 1 ∷ []; monmap_fsid = 9 });
          version = some 80;
        },
      )
      ∷ [];
  boot_time = 1000;
  ceph_version = some 80;
}

heartbeat :
    get_heartbeats ceph (λ name. name) sockets true (some 80) 1000
    ≡ ok (server, (9, known_status 2 2) ∷ [])
unfolding get_heartbeats find_services service_status identify daemon_fsid record_service in_quorum
    all_statuses status_of cluster_status rados_command rados_raw decode get get_config summarise
    lookup insert find put
heartbeat = refl

found_status : lookup 9 ((9, known_status 2 2) ∷ []) ≡ some (known_status 2 2)
unfolding lookup
found_status = refl

get_heartbeats-Hosts_example :
    ((path : ℕ) × (service : Service) × Hosts sockets 9 path service)
    × ((name : ℕ) × (status_of ceph (λ name. name) name ≡ ok (known_status 2 2)))
get_heartbeats-Hosts_example =
    get_heartbeats-Hosts ceph (λ name. name) sockets true (some 80) 1000 server
      ((9, known_status 2 2) ∷ []) 9 (known_status 2 2) heartbeat found_status
