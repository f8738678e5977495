-- ===== src/ServerMonitor/Linked/Forgetting.antt =====
-- Services and servers that are forgotten or deleted leave the indexes in agreement.
use calamari.Prelude.{
  ℕ, ◌≡◌, Option, none, some, List, ◌&&◌, inl, inr, arith, if◌then◌else◌, Option-cases, not,
  is_empty,
}
use calamari.Prelude.Dict.{lookup, insert, erase, contains, lookup-erase}
use calamari.Prelude.Keyed.{find, find-remove, map_values, minus}
use calamari.Exec.{ok, err, pure, gets, ◌>>=◌, ◌>>◌, modify, each, Result, value_error}
use calamari.Exec.Rules.{
  Keeps, bind-Keeps, then-Keeps, when-Keeps, if-Keeps, each-Keeps, After, Ends, after-Ends,
}
use calamari.ServerMonitor.Objects.{
  ServiceId, service_eq, same_service_iff, State, Handler, tell, services_of, delete_service,
  delete_server,
}
use calamari.ServerMonitor.Services.{
  drop_service, drop_from, unlist_service, set_server, forget_service, has, without,
}
use calamari.ServerMonitor.Maps.{known_ids, forget_id, forget_missing}
use calamari.ServerMonitor.Heartbeat.{drop_server}
use calamari.ServerMonitor.Removal.{
  delete_service_of, delete_names, delete, delete_if_unused, delete_service_in, delete_cluster,
}
use calamari.ServerMonitor.Linked.Changes.{
  dropped-IsLinked, unlisted-IsLinked, stranded-IsLinked, deleted, deleted-IsLinked,
}
use calamari.ServerMonitor.Linked.Steps.{
  Holds, tell-IsLinked, services_of-IsLinked, modify_services-IsLinked, names-IsLinked,
}

pub unlist_service-IsLinked : (m fsid p : ℕ) → Keeps (Holds m) (unlist_service fsid p)
unlist_service-IsLinked m fsid p =
    bind-Keeps (Holds m) (services_of fsid)
      (λ l.
        if has p l
        then modify (λ s. record s { fsid_services = insert fsid (without p l) s.fsid_services })
        else (λ s. (err value_error, s)))
      (services_of-IsLinked m fsid)
      (λ l.
        if-Keeps (Holds m) (has p l) _ _
          (modify_services-IsLinked m (λ s. insert fsid (without p l) s.fsid_services)) (λ s h. h))

-- No index knows the service any more.
abbrev HoldsUnknown : ℕ → ServiceId → State → Type 0
HoldsUnknown m id s = Holds m s × (find id s.services ≡ none)

drop_service-Ends :
    (m : ℕ) (id : ServiceId) → Ends (Holds m) (λ _. HoldsUnknown m id) (Holds m) (drop_service id)
drop_service-Ends m id s (h, k) = elim (Option-cases (find id s.services)) [
  | inl e ↦ rw (e, After, drop_service) (h, k)
  | inr (p, e) ↦
      rw (e, After, drop_service)
        (
          (dropped-IsLinked s h id, k),
          ground (arith, find-remove id id s.services, same_service_iff id id),
        )
]

drop_from-Unknown :
    (m n : ℕ) (id : ServiceId) (s : State) → HoldsUnknown m id s → Holds m (drop_from n id s).1
drop_from-Unknown m n id s ((h, k), u) = elim (Option-cases (find id (s.server_at n).services)) [
  | inl e ↦ rw (e, drop_from) (h, k)
  | inr (p, e) ↦ rw (e, drop_from) (unlisted-IsLinked s h id n u, k)
]

-- The service's server forgets it.
abbrev pub leave : Option ℕ → ServiceId → Handler (Unit {0})
leave server id = elim server [ none ↦ pure tt | some n ↦ drop_from n id ]

leave-Unknown :
    (m : ℕ) (o : Option ℕ) (id : ServiceId) (s : State)
    → HoldsUnknown m id s
    → Holds m (leave o id s).1
leave-Unknown m none id s (h, u) = h
leave-Unknown m (some n) id s h = drop_from-Unknown m n id s h

-- A service leaves the index and then its server.
leaving-IsLinked :
    {A : Type 0} (m : ℕ) (id : ServiceId) (o : Option ℕ) (n : Handler A)
    → Keeps (Holds m) n
    → Keeps (Holds m) (drop_service id >> (leave o id >> n))
leaving-IsLinked m id o n k =
    after-Ends (Holds m) (λ _. HoldsUnknown m id) (Holds m) (drop_service id) (λ _. leave o id >> n)
      (drop_service-Ends m id)
      (λ _.
        after-Ends (HoldsUnknown m id) (λ _. Holds m) (Holds m) (leave o id) (λ _. n) left (λ _. k))
  where
    left : Ends (HoldsUnknown m id) (λ _. Holds m) (Holds m) (leave o id)
    left s h = go (leave o id s).0 (leave o id s).1 (leave-Unknown m o id s h)
      where
        go : (r : Result (Unit {0})) (t : State) → Holds m t → After (λ _. Holds m) (Holds m) (r, t)
        go (ok a) t x = x
        go (err e) t x = x

pub forget_service-IsLinked : (m p : ℕ) → Keeps (Holds m) (forget_service p)
unfolding forget_service
forget_service-IsLinked m p s =
    let x = s.service_at p in
    then-Keeps (Holds m) (unlist_service x.id.fsid p)
      (drop_service x.id >> (leave x.server x.id >> tell (delete_service x.id)))
      (unlist_service-IsLinked m x.id.fsid p)
      (leaving-IsLinked m x.id x.server (tell (delete_service x.id))
        (tell-IsLinked m (delete_service x.id)))
      s

pub delete_service_of-IsLinked : (m p : ℕ) → Keeps (Holds m) (delete_service_of p)
unfolding delete_service_of
delete_service_of-IsLinked m p s (h, k) =
    let id = ((set_server p none s).1.service_at p).id in
    let own : (s.service_at p).id ≡ id = ground arith in
    elim (Option-cases (find id s.services)) [
      | inl e ↦ rw (e, drop_service) (stranded-IsLinked s h p id own e, k)
      | inr (q, e) ↦
          rw (e, drop_service)
            (then-Keeps (Holds m) (unlist_service id.fsid p) (tell (delete_service id))
              (unlist_service-IsLinked m id.fsid p) (tell-IsLinked m (delete_service id))
              (deleted s h p id own) (deleted-IsLinked s h p id own, k))
    ]

pub drop_server-IsLinked : (m fqdn : ℕ) → Keeps (Holds m) (drop_server fqdn)
drop_server-IsLinked m fqdn s (h, k) = elim (Option-cases (lookup fqdn s.servers)) [
  | inl e ↦ rw (e, drop_server) (h, k)
  | inr (p, e) ↦
      rw (e, drop_server)
        (
          names-IsLinked s _ _ h
              (λ j q f. ground (arith, lookup-erase fqdn j s.servers, h.found j q)) h.hosted,
          k,
        )
]

delete_names-IsLinked : (m n fqdn : ℕ) → Keeps (Holds m) (delete_names n fqdn)
unfolding delete_names
delete_names-IsLinked m n fqdn s (h, k) =
    let x = s.server_at n in
    then-Keeps (Holds m) (drop_server fqdn) (tell (delete_server fqdn))
      (drop_server-IsLinked m fqdn) (tell-IsLinked m (delete_server fqdn))
      (record s { hostname_to_server = erase x.hostname s.hostname_to_server })
      (
        names-IsLinked s _ _ h h.found
            (λ j q f. ground (arith, lookup-erase x.hostname j s.hostname_to_server, h.hosted j q)),
        k,
      )

pub delete-IsLinked : (m fqdn : ℕ) → Keeps (Holds m) (delete fqdn)
unfolding delete
delete-IsLinked m fqdn s h = elim (Option-cases (lookup fqdn s.servers)) [
  | inl e ↦ rw (e) h
  | inr (n, e) ↦
      let l = map_values (s.server_at n).services in
      rw (e) (
        then-Keeps (Holds m) (each delete_service_of l) (delete_names n fqdn)
          (each-Keeps (Holds m) delete_service_of (delete_service_of-IsLinked m) l)
          (delete_names-IsLinked m n fqdn) s h)
]

delete_if_unused-IsLinked : (m n : ℕ) → Keeps (Holds m) (delete_if_unused n)
unfolding delete_if_unused
delete_if_unused-IsLinked m n s =
    let x = s.server_at n in
    when-Keeps (Holds m) (not x.managed && is_empty x.services) (delete x.fqdn)
      (delete-IsLinked m x.fqdn) s

check_server : Option ℕ → Handler (Unit {0})
check_server o = elim o [ none ↦ pure tt | some n ↦ delete_if_unused n ]

check_server-IsLinked : (m : ℕ) (o : Option ℕ) → Keeps (Holds m) (check_server o)
unfolding check_server
check_server-IsLinked m none s h = h
check_server-IsLinked m (some n) s h = delete_if_unused-IsLinked m n s h

pub delete_service_in-IsLinked : (m p : ℕ) → Keeps (Holds m) (delete_service_in p)
unfolding delete_service_in check_server
delete_service_in-IsLinked m p s =
    let x = s.service_at p in
    leaving-IsLinked m x.id x.server (tell (delete_service x.id) >> check_server x.server)
      (then-Keeps (Holds m) (tell (delete_service x.id)) (check_server x.server)
        (tell-IsLinked m (delete_service x.id)) (check_server-IsLinked m x.server))
      s

pub delete_cluster-IsLinked : (m fsid : ℕ) → Keeps (Holds m) (delete_cluster fsid)
unfolding delete_cluster
delete_cluster-IsLinked m fsid s =
    when-Keeps (Holds m) (contains fsid s.fsid_services) _
      (bind-Keeps (Holds m) (services_of fsid) all (services_of-IsLinked m fsid) (λ l. kept l)) s
  where
    drop_list : Handler (Unit {0})
    drop_list = modify (λ s. record s { fsid_services = erase fsid s.fsid_services })

    all : List ℕ → Handler (Unit {0})
    all l = each delete_service_in l >> drop_list

    kept : (l : List ℕ) → Keeps (Holds m) (all l)
    kept l =
        then-Keeps (Holds m) (each delete_service_in l) drop_list
          (each-Keeps (Holds m) delete_service_in (delete_service_in-IsLinked m) l)
          (modify_services-IsLinked m (λ s. erase fsid s.fsid_services))

pub forget_id-IsLinked : (m : ℕ) (id : ServiceId) → Keeps (Holds m) (forget_id id)
unfolding forget_id
forget_id-IsLinked m id s h = elim (Option-cases (find id s.services)) [
  | inl e ↦ rw (e) h
  | inr (p, e) ↦ rw (e) (forget_service-IsLinked m p s h)
]

pub forget_missing-IsLinked :
    (m fsid service_type : ℕ) (in_map : List ServiceId)
    → Keeps (Holds m) (forget_missing fsid service_type in_map)
unfolding forget_missing
forget_missing-IsLinked m fsid service_type in_map =
    bind-Keeps (Holds m) (services_of fsid)
      (λ l. gets (λ s. known_ids s service_type l) >>= λ known. each forget_id (minus known in_map))
      (services_of-IsLinked m fsid)
      (λ l s.
        each-Keeps (Holds m) forget_id (forget_id-IsLinked m)
          (minus (known_ids s service_type l) in_map) s)
