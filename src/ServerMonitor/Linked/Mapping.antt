-- ===== src/ServerMonitor/Linked/Mapping.antt =====
-- An OSD map leaves the indexes in agreement.
use calamari.Prelude.{
  ℕ, suc, refl, false, Option, none, some, List, [], ◌∷◌, inl, inr, if◌then◌else◌, Option-cases,
  not,
}
use calamari.Prelude.Dict.{Dict, lookup, contains}
use calamari.Prelude.Keyed.{find, map_keys}
use calamari.Exec.{pure, ◌>>=◌, ◌>>◌, each}
use calamari.Exec.Rules.{
  Keeps, bind-Keeps, then-Keeps, when-Keeps, if-Keeps, each-Keeps, Ends, after-Ends,
}
use calamari.ServerMonitor.Objects.{ServiceId, service_eq, Handler, create_server, osd_type}
use calamari.ServerMonitor.Services.{inject_server, register_service}
use calamari.ServerMonitor.Tree.{Osd, OsdData, get_hostname_to_osds}
use calamari.ServerMonitor.Maps.{
  crush_alias_to, unmanaged_server, find_or_create_server, register_osd, find_alias, on_host,
  on_osd_map, id_to_osd, osds_in_map, forget_missing,
}
use calamari.ServerMonitor.Linked.Steps.{Holds}
use calamari.ServerMonitor.Linked.Registering.{register_service-IsLinked}
use calamari.ServerMonitor.Linked.Forgetting.{forget_missing-IsLinked}
use calamari.ServerMonitor.Linked.Reporting.{lower, joined-IsLinked}

find_or_create_server-Ends :
    (hostname : ℕ) → Ends (Holds 0) (λ n. Holds (suc n)) (Holds 0) (find_or_create_server hostname)
unfolding find_or_create_server inject_server
find_or_create_server-Ends hostname s (h, k) =
    elim (Option-cases (lookup hostname s.hostname_to_server)) [
      | inl e ↦
          rw (e, find_or_create_server)
            (joined-IsLinked (unmanaged_server hostname) refl
              (create_server hostname hostname false) s h)
      | inr (n, e) ↦ rw (e, find_or_create_server) (h, h.hosted hostname n e)
    ]

crush_alias_to-IsLinked :
    (ids : List ServiceId) (alias : Option ℕ) → Keeps (Holds 0) (crush_alias_to ids alias)
unfolding crush_alias_to
crush_alias_to-IsLinked [] alias s h = h
crush_alias_to-IsLinked (id ∷ ids) alias s h = elim (Option-cases (find id s.services)) [
  | inl e ↦ rw (e, crush_alias_to) (crush_alias_to-IsLinked ids alias s h)
  | inr (p, e) ↦ elim (Option-cases (s.service_at p).server) [
    | inl u ↦ rw (e, u, crush_alias_to) h
    | inr (n, u) ↦
        rw (e, u, crush_alias_to)
          (crush_alias_to-IsLinked ids (if (s.server_at n).managed then some n else alias) s h)
  ]
]

find_alias-IsLinked :
    (hostname : ℕ) (ids : List ServiceId) → Keeps (Holds 0) (find_alias hostname ids)
find_alias-IsLinked hostname ids s =
    if-Keeps (Holds 0) (contains hostname s.hostname_to_server) (pure none)
      (crush_alias_to ids none) (λ s h. h) (crush_alias_to-IsLinked ids none) s

register_osd-IsLinked : (n : ℕ) (o : ServiceId × Osd) → Keeps (Holds (suc n)) (register_osd n o)
unfolding register_osd
register_osd-IsLinked n (id, osd) s =
    when-Keeps (Holds (suc n)) (not (s.server_at n).managed) (register_service n id osd.up none)
      (register_service-IsLinked n id osd.up none) s

register_osds : ℕ → List Osd → ℕ → Handler (Unit {0})
register_osds fsid osds n = each (register_osd n) (id_to_osd fsid osds)

on_host-IsLinked : (fsid : ℕ) (host : ℕ × List Osd) → Keeps (Holds 0) (on_host fsid host)
unfolding on_host register_osds
on_host-IsLinked fsid (hostname, osds) =
    bind-Keeps (Holds 0) (find_alias hostname (map_keys (id_to_osd fsid osds))) act
      (find_alias-IsLinked hostname (map_keys (id_to_osd fsid osds))) kept
  where
    act : Option ℕ → Handler (Unit {0})
    act alias = elim alias [
      | some _ ↦ pure tt
      | none ↦ find_or_create_server hostname >>= register_osds fsid osds
    ]

    kept : (alias : Option ℕ) → Keeps (Holds 0) (act alias)
    kept (some n) s h = h
    kept none s h =
        after-Ends (Holds 0) (λ n. Holds (suc n)) (Holds 0) (find_or_create_server hostname)
          (register_osds fsid osds) (find_or_create_server-Ends hostname)
          (λ n s h. lower n _ (
            each-Keeps (Holds (suc n)) (register_osd n) (register_osd-IsLinked n)
              (id_to_osd fsid osds) s h))
          s h

pub on_osd_map-IsLinked :
    (crush_host_type crush_osd_type limit : ℕ) (m : OsdData)
    → Keeps (Holds 0) (on_osd_map crush_host_type crush_osd_type limit m)
unfolding on_osd_map
on_osd_map-IsLinked crush_host_type crush_osd_type limit m =
    bind-Keeps (Holds 0) (λ s. (get_hostname_to_osds crush_host_type crush_osd_type limit m, s)) act
      (λ s h. h)
      (λ hosts.
        then-Keeps (Holds 0) (each (on_host m.fsid) hosts)
          (forget_missing m.fsid osd_type (osds_in_map m.fsid hosts))
          (each-Keeps (Holds 0) (on_host m.fsid) (on_host-IsLinked m.fsid) hosts)
          (forget_missing-IsLinked 0 m.fsid osd_type (osds_in_map m.fsid hosts)))
  where
    act : Dict (List Osd) → Handler (Unit {0})
    act hosts =
        each (on_host m.fsid) hosts >> forget_missing m.fsid osd_type (osds_in_map m.fsid hosts)
