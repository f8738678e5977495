-- ===== src/ServerMonitor/Forgetting.antt =====
-- What `forget_missing`, and so `on_mds_map` and `on_mon_map`, leave in the index of services.
use calamari.Prelude.{
  ℕ, ◌≡◌, ap, ◌∙◌, refl, Option, none, some, List, [], ◌∷◌, inl, inr, arith, Option-cases,
  if◌then◌else◌,
}
use calamari.Prelude.Dict.{lookup, insert}
use calamari.Prelude.Keyed.{find, remove, find-remove, has_key, minus}
use calamari.Exec.{ok, err, Result, each, modify, ◌>>◌, value_error}
use calamari.Exec.Rules.{
  Keeps, bind-Keeps, then-Keeps, if-Keeps, After, Ends, Keeps-Ends, bind-Ends,
}
use calamari.ServerMonitor.Objects.{
  ServiceId, Services, service_eq, State, services_of, tell, delete_service,
}
use calamari.ServerMonitor.Services.{
  forget_service, unlist_service, drop_service, drop_from, has, without,
}
use calamari.ServerMonitor.Maps.{known_ids, forget_id, forget_missing}
use calamari.ServerMonitor.Linked.{IsLinked}
use calamari.ServerMonitor.Linked.Steps.{Holds}
use calamari.ServerMonitor.Linked.Forgetting.{leave, forget_service-IsLinked}

-- The index of services is `d`.
abbrev Has : Services → State → Type 0
Has d s = s.services ≡ d

-- nothing is said of a call that raises
abbrev Any : State → Type 0
Any s = Unit

services_of-Has : (d : Services) (fsid : ℕ) → Keeps (Has d) (services_of fsid)
unfolding services_of
services_of-Has d fsid s h = elim (Option-cases (lookup fsid s.fsid_services)) [
  | inl e ↦ rw (e, services_of) h
  | inr (l, e) ↦ rw (e, services_of) h
]

unlist_service-Has : (d : Services) (fsid p : ℕ) → Keeps (Has d) (unlist_service fsid p)
unlist_service-Has d fsid p =
    bind-Keeps (Has d) (services_of fsid)
      (λ l.
        if has p l
        then modify (λ s. record s { fsid_services = insert fsid (without p l) s.fsid_services })
        else (λ s. (err value_error, s)))
      (services_of-Has d fsid) (λ l. if-Keeps (Has d) (has p l) _ _ (λ s h. h) (λ s h. h))

leave-Has : (d : Services) (o : Option ℕ) (id : ServiceId) → Keeps (Has d) (leave o id)
leave-Has d none id s h = h
leave-Has d (some n) id s h = elim (Option-cases (find id (s.server_at n).services)) [
  | inl e ↦ rw (e, drop_from) h
  | inr (p, e) ↦ rw (e, drop_from) h
]

drop_service-Has :
    (d : Services) (id : ServiceId) → Ends (Has d) (λ _. Has (remove id d)) Any (drop_service id)
drop_service-Has d id s h = elim (Option-cases (find id s.services)) [
  | inl e ↦ rw (e, After, drop_service) tt
  | inr (p, e) ↦ rw (e, After, drop_service) (ap (remove id) h)
]

forget_service-Has :
    (d : Services) (p : ℕ) (s : State)
    → Has d s
    → After (λ _. Has (remove (s.service_at p).id d)) Any (forget_service p s)
unfolding forget_service
forget_service-Has d p s h =
    let x = s.service_at p in
    let D = Has (remove x.id d) in
    let last = leave x.server x.id >> tell (delete_service x.id) in
    bind-Ends (Has d) (λ _. Has d) (λ _. D) Any (unlist_service x.id.fsid p)
      (λ _. drop_service x.id >> last)
      (Keeps-Ends (Has d) Any (unlist_service x.id.fsid p) (λ s h. tt)
        (unlist_service-Has d x.id.fsid p))
      (λ _.
        bind-Ends (Has d) (λ _. D) (λ _. D) Any (drop_service x.id) (λ _. last)
          (drop_service-Has d x.id)
          (λ _.
            Keeps-Ends D Any last (λ s h. tt)
              (then-Keeps D (leave x.server x.id) (tell (delete_service x.id))
                (leave-Has (remove x.id d) x.server x.id) (λ s h. h))))
      s h

abbrev LinkedHas : Services → State → Type 0
LinkedHas d s = Holds 0 s × Has d s

forget_id-Has :
    (d : Services) (id : ServiceId)
    → Ends (LinkedHas d) (λ _. LinkedHas (remove id d)) Any (forget_id id)
unfolding forget_id
forget_id-Has d id s (h, e) = elim (Option-cases (find id s.services)) [
  | inl u ↦ rw (u, forget_id) tt
  | inr (p, u) ↦
      rw (u, forget_id)
        (join (forget_service p s).0 (forget_service p s).1
          (rw (h.0.named id p u) at (forget_service-Has d p s e)) (forget_service-IsLinked 0 p s h))
]
  where
    join :
        (r : Result (Unit {0})) (t : State)
        → After (λ _. Has (remove id d)) Any (r, t)
        → Holds 0 t
        → After (λ _. LinkedHas (remove id d)) Any (r, t)
    join (ok a) t q k = (k, q)
    join (err x) t q k = tt

abbrev remove_all : List ServiceId → Services → Services
remove_all [] d = d
remove_all (id ∷ ids) d = remove_all ids (remove id d)

forget_ids-Has :
    (ids : List ServiceId) (d : Services)
    → Ends (LinkedHas d) (λ _. Has (remove_all ids d)) Any (each forget_id ids)
forget_ids-Has [] d s h = h.1
forget_ids-Has (id ∷ ids) d s h =
    bind-Ends (LinkedHas d) (λ _. LinkedHas (remove id d)) (λ _. Has (remove_all ids (remove id d)))
      Any (forget_id id) (λ _. each forget_id ids) (forget_id-Has d id)
      (λ _. forget_ids-Has ids (remove id d)) s h

find-remove_all :
    (ids : List ServiceId) (d : Services) (j : ServiceId)
    → find j (remove_all ids d) ≡ (if has_key j ids then none else find j d)
find-remove_all [] d j = refl
find-remove_all (id ∷ ids) d j =
    ground (arith, find-remove_all ids (remove id d) j, find-remove id j d)

-- Where `forget_missing` returns, the services of the cluster with that type which are not in the map
-- are no longer known, and every other service is known as before.
pub forget_missing_lem :
    (fsid service_type : ℕ) (in_map : List ServiceId) (s : State) (listed : List ℕ) (j : ServiceId)
    → IsLinked s
    → lookup fsid s.fsid_services ≡ some listed
    → (forget_missing fsid service_type in_map s).0 ≡ ok tt
    → find j (forget_missing fsid service_type in_map s).1.services ≡ (
        if has_key j (minus (known_ids s service_type listed) in_map)
        then none
        else find j s.services)
unfolding forget_missing services_of
forget_missing_lem fsid service_type in_map s listed j h e =
    let ids = minus (known_ids s service_type listed) in_map in
    rw (e, services_of)
      (λ returned.
        settle (remove_all ids s.services) (each forget_id ids s).0 (each forget_id ids s).1
          returned (forget_ids-Has ids s.services s ((h, ground arith), refl))
        ∙ find-remove_all ids s.services j)
  where
    settle :
        (d : Services) (r : Result (Unit {0})) (t : State)
        → r ≡ ok tt
        → After (λ _. Has d) Any (r, t)
        → find j t.services ≡ find j d
    settle d (ok a) t returned q = ap (find j) q
    settle d (err x) t returned q = ground arith
