-- ===== src/SaltModule/Hosted.antt =====
-- What a server's heartbeat reports is what its sockets tell.
use calamari.Prelude.{
  ℕ, ◌≡◌, ◌⊎◌, ◌∙◌, ap, inl, inr, Bool, true, false, Bool-cases, Option, Option-cases, none, some,
  List, [], ◌∷◌, ◌==◌, arith, elem,
}
use calamari.Prelude.Dict.{Dict, keys, lookup, insert, lookup-insert, lookup-nil}
use calamari.Exec.{Result-cases, ok}
use calamari.SaltModule.Objects.{Ceph, Status}
use calamari.SaltModule.Heartbeats.{
  Sockets, Service, ServerHeartbeat, Found, is_unavailable, service_status, in_quorum,
  record_service, find_services, status_of, all_statuses, get_heartbeats,
}

-- The socket `path` of the server answers for a monitor in quorum, of the cluster with this FSID.
abbrev pub Hosts : Sockets → ℕ → ℕ → Service → Type 0
Hosts sockets fsid path service =
    (elem path sockets.paths ≡ true)
    × (service_status sockets path ≡ ok (some service))
    × (in_quorum service ≡ true)
    × (service.fsid ≡ fsid)

-- Each monitor's socket is recorded under its cluster, whose name is known.
abbrev IsSound : Sockets → Found → Type 0
IsSound sockets found =
    (fsid path : ℕ)
    → lookup fsid found.mon_sockets ≡ some path
    → ((service : Service) × Hosts sockets fsid path service)
      × ((name : ℕ) × (lookup fsid found.fsid_names ≡ some name))

empty-IsSound :
    (sockets : Sockets)
    → IsSound sockets (record { mon_sockets = []; fsid_names = []; services = [] })
empty-IsSound sockets fsid path e = ground (arith, e, lookup-nil {V = ℕ} fsid)

record_names :
    (path fsid : ℕ) (service : Service) (found : Found)
    → (name : ℕ) × (lookup fsid found.fsid_names ≡ some name)
    → (name : ℕ) × (lookup fsid (record_service path service found).fsid_names ≡ some name)
unfolding record_service
record_names path fsid service found (name, e) =
    let names = lookup-insert service.fsid fsid service.name.cluster found.fsid_names in
    elim (Bool-cases (service.fsid == fsid)) [
      | inl h ↦ (service.name.cluster, ground (arith, names, h))
      | inr h ↦ (name, ground (arith, names, h, e))
    ]

record_sockets :
    (path fsid p : ℕ) (service : Service) (found : Found)
    → lookup fsid (record_service path service found).mon_sockets ≡ some p
    → ((service.fsid ≡ fsid) × (in_quorum service ≡ true) × (p ≡ path))
      ⊎ (lookup fsid found.mon_sockets ≡ some p)
unfolding record_service
record_sockets path fsid p service found e =
    ground (arith, e, lookup-insert service.fsid fsid path found.mon_sockets)

own_name :
    (path fsid : ℕ) (service : Service) (found : Found)
    → service.fsid ≡ fsid
    → (name : ℕ) × (lookup fsid (record_service path service found).fsid_names ≡ some name)
unfolding record_service
own_name path fsid service found e = (
  service.name.cluster,
  ground (arith, e, lookup-insert service.fsid fsid service.name.cluster found.fsid_names),
)

record_service-IsSound :
    (sockets : Sockets) (path : ℕ) (service : Service) (found : Found)
    → elem path sockets.paths ≡ true
    → service_status sockets path ≡ ok (some service)
    → IsSound sockets found
    → IsSound sockets (record_service path service found)
record_service-IsSound sockets path service found listed answers h fsid p e =
    elim (record_sockets path fsid p service found e) [
      | inl (same, quorum, at) ↦ (
        (service, (rw at listed, rw at answers, quorum, same)),
        own_name path fsid service found same,
      )
      | inr before ↦ ((h fsid p before).0, record_names path fsid service found (h fsid p before).1)
    ]

find_services-IsSound :
    (sockets : Sockets) (paths : List ℕ) (found after : Found)
    → ((q : ℕ) → elem q paths ≡ true → elem q sockets.paths ≡ true)
    → IsSound sockets found
    → find_services sockets paths found ≡ ok after
    → IsSound sockets after
unfolding find_services
find_services-IsSound sockets [] found after within h e =
    let same : found ≡ after = ground (arith, e) in rw same at h
find_services-IsSound sockets (path ∷ paths) found after within h e =
    let rest : (q : ℕ) → elem q paths ≡ true → elem q sockets.paths ≡ true =
      λ q m. within q (ground (arith, m)) in
    elim (Result-cases (service_status sockets path)) [
      | inl (none, s) ↦
          find_services-IsSound sockets paths found after rest h (rw (find_services, s) at e)
      | inl (some service, s) ↦
          find_services-IsSound sockets paths (record_service path service found) after rest
            (record_service-IsSound sockets path service found (within path (ground arith)) s h)
            (rw (find_services, s) at e)
      | inr (x, s) ↦ elim (Bool-cases (is_unavailable x)) [
        | inl u ↦
            find_services-IsSound sockets paths found after rest h (rw (find_services, s, u) at e)
        | inr u ↦ absurd (ground (arith, rw (find_services, s, u) at e))
      ]
    ]

lookup-keys :
    (fsid : ℕ) (d : Dict ℕ) → elem fsid (keys d) ≡ true → (p : ℕ) × (lookup fsid d ≡ some p)
unfolding lookup
lookup-keys fsid [] h = absurd (ground (arith, h))
lookup-keys fsid ((k, p) ∷ d) h = elim (Bool-cases (k == fsid)) [
  | inl e ↦ (p, ground (arith, e))
  | inr e ↦
      let (q, found) = lookup-keys fsid d (ground (arith, e, h)) in (q, ground (arith, e, found))
]

module _ {Cluster Raw Json Digest : Type 0} (ceph : Ceph Cluster Raw Json Digest)
    (cluster_of : ℕ → Cluster) where
  abbrev IsKnown : ℕ → Status Json Digest → Dict ℕ → Type 0
  IsKnown fsid status sockets =
      (elem fsid (keys sockets) ≡ true)
      × ((name : ℕ) × (status_of ceph cluster_of name ≡ ok status))

  -- Where a status in the answer comes from: from before, or from a connection
  all_statuses-IsKnown :
      (names sockets : Dict ℕ) (before after : Dict (Status Json Digest)) (fsid : ℕ)
      (status : Status Json Digest)
      → all_statuses ceph cluster_of names sockets before ≡ ok after
      → lookup fsid after ≡ some status
      → (lookup fsid before ≡ some status) ⊎ IsKnown fsid status sockets
  unfolding all_statuses
  all_statuses-IsKnown names [] before after fsid status e h =
      let same : before ≡ after = ground (arith, e) in inl (rw same h)
  all_statuses-IsKnown names ((k, p) ∷ sockets) before after fsid status e h =
      elim (Option-cases (lookup k names)) [
        | inl n ↦ absurd (ground (arith, rw (all_statuses, n) at e))
        | inr (name, n) ↦ elim (Result-cases (status_of ceph cluster_of name)) [
          | inr (x, s) ↦ elim (Bool-cases (is_unavailable x)) [
            | inr u ↦ absurd (ground (arith, rw (all_statuses, n, s, u) at e))
            | inl u ↦
                elim (all_statuses-IsKnown names sockets before after fsid status
                  (rw (all_statuses, n, s, u) at e) h) [
                    | inl old ↦ inl old
                    | inr (is_key, from) ↦ inr (ground (arith, is_key), from)
                  ]
          ]
          | inl (st, s) ↦
              elim (all_statuses-IsKnown names sockets (insert k st before) after fsid status
                (rw (all_statuses, n, s) at e) h) [
                  | inr (is_key, from) ↦ inr (ground (arith, is_key), from)
                  | inl old ↦ elim (Bool-cases (k == fsid)) [
                    | inl same ↦
                        let at : st ≡ status =
                          ground (arith, same, old, lookup-insert k fsid st before) in
                        inr (ground (arith, same), (name, s ∙ ap ok at))
                    | inr other ↦ inl (ground (arith, other, old, lookup-insert k fsid st before))
                  ]
                ]
        ]
      ]

  -- A cluster that a server reports has a monitor in quorum behind one of the server's sockets, and
  -- its status came from a connection by a cluster's name.
  pub get_heartbeats-Hosts :
      (sockets : Sockets) (installed : Bool) (version : Option ℕ) (boot_time : ℕ)
      (server : ServerHeartbeat) (statuses : Dict (Status Json Digest)) (fsid : ℕ)
      (status : Status Json Digest)
      → get_heartbeats ceph cluster_of sockets installed version boot_time ≡ ok (server, statuses)
      → lookup fsid statuses ≡ some status
      → ((path : ℕ) × (service : Service) × Hosts sockets fsid path service)
        × ((name : ℕ) × (status_of ceph cluster_of name ≡ ok status))
  unfolding get_heartbeats
  get_heartbeats-Hosts sockets false version boot_time server statuses fsid status e h =
      absurd (ground (arith, e, h, lookup-nil {V = Status Json Digest} fsid))
  get_heartbeats-Hosts sockets true version boot_time server statuses fsid status e h =
      let empty : Found = record { mon_sockets = []; fsid_names = []; services = [] } in
      elim (Result-cases (find_services sockets sockets.paths empty)) [
        | inr (x, f) ↦ absurd (ground (arith, rw (get_heartbeats, f) at e))
        | inl (found, f) ↦
            elim (Result-cases
              (all_statuses ceph cluster_of found.fsid_names found.mon_sockets [])) [
                | inr (x, a) ↦ absurd (ground (arith, rw (get_heartbeats, f, a) at e))
                | inl (after, a) ↦
                    let at : after ≡ statuses = ground (arith, rw (get_heartbeats, f, a) at e) in
                    elim (all_statuses-IsKnown found.fsid_names found.mon_sockets [] after fsid
                      status a (rw at h)) [
                        | inl old ↦
                            absurd (ground (arith, old, lookup-nil {V = Status Json Digest} fsid))
                        | inr (is_key, from) ↦
                            let (path, is_at) = lookup-keys fsid found.mon_sockets is_key in
                            let sound =
                              find_services-IsSound sockets sockets.paths empty found (λ q m. m)
                                (empty-IsSound sockets) f in
                            let (service, hosts) = (sound fsid path is_at).0 in
                            ((path, service, hosts), from)
                      ]
              ]
      ]
