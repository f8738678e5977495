-- ===== src/RequestCollection/Safety.antt =====
-- Every operation of the collection keeps it sound, whether it returns or raises.
use calamari.Prelude.{
  ℕ, ◌≡◌, refl, Option, none, some, List, [], ◌∷◌, inl, inr, arith, Option-cases, is_empty, add,
  if◌then◌else◌,
}
use calamari.Prelude.Dict.{lookup, insert, values}
use calamari.Exec.{Exception, ok, ◌>>◌, Result-cases}
use calamari.Types.{Salt, saltutil_running}
use calamari.UserRequest.{
  Request, Running, Message, cancelled, remote, is_completed, JobReturn, set_error, clear_jid,
  complete_request, complete_jid, submit, submit_class, submit_commands, start_job, Class, rados,
  salt_request, osd_map_modifying, pool_creating, pg_creating,
}
use calamari.RequestCollection.{
  Collection, for_each, request_of, on_request, update_index, find_stale, expire, find_minions,
  ping, tick, submit_request, file_request, heard_of, on_tick_response, cancel, give_up, fail_all,
  abandon, on_rados_error, on_salt_failure, error_status_of, message_of, report, has_minion, kill,
  start,
}
use calamari.RequestCollection.Sound.{
  IsGood, same_requests-IsSound, insert-IsSound, KeepsSound, bind-KeepsSound, for_each-KeepsSound,
  request_of-KeepsSound, update_index-KeepsSound, KeepsGood, on_request-KeepsSound, when-KeepsSound,
  if-KeepsSound,
}

-- The last calls on a request: it fails with a message, and has no job any more.
fail-KeepsGood :
    (id t : ℕ) (m : Message) → KeepsGood id (do set_error m; clear_jid; complete_request t)
unfolding complete_request
fail-KeepsGood id t m w g = ground arith

fail_last-KeepsGood :
    (id t : ℕ) (m : Message) → KeepsGood id (do clear_jid; set_error m; complete_request t)
unfolding complete_request
fail_last-KeepsGood id t m w g = ground arith

-- The request was relieved of its job before.
fail_idle-KeepsGood : (id t : ℕ) (m : Message) → KeepsGood id (do set_error m; complete_request t)
unfolding complete_request
fail_idle-KeepsGood id t m w g = ground arith

clear_jid-KeepsGood : (id : ℕ) → KeepsGood id clear_jid
clear_jid-KeepsGood id w g = ground arith

pub complete_jid-KeepsGood : (id t : ℕ) (r : JobReturn) → KeepsGood id (complete_jid t r)
unfolding complete_jid
complete_jid-KeepsGood id t r w g = ground arith

pub expire-KeepsSound : (t id : ℕ) → KeepsSound (expire t id)
unfolding expire
expire-KeepsSound t id =
    update_index-KeepsSound id _ (on_request-KeepsSound id _ (fail-KeepsGood id t _))

pub give_up-KeepsSound : (t minion id : ℕ) → KeepsSound (give_up t minion id)
unfolding give_up
give_up-KeepsSound t minion id =
    update_index-KeepsSound id _ (on_request-KeepsSound id _ (fail-KeepsGood id t _))

pub abandon-KeepsSound : (t id : ℕ) (e : Exception) → KeepsSound (abandon t id e)
unfolding abandon
abandon-KeepsSound t id e = on_request-KeepsSound id _ (fail_last-KeepsGood id t _)

pub find_stale_unchanged :
    (t : ℕ) (ids stale : List ℕ) (c : Collection) → (find_stale t ids stale c).1 ≡ c
unfolding find_stale
find_stale_unchanged t [] stale c = refl
find_stale_unchanged t (id ∷ ids) stale c =
    ground (arith, find_stale_unchanged t ids stale c, find_stale_unchanged t ids (add id stale) c)

find_minions_unchanged :
    (ids : List ℕ) (found : List (Option ℕ)) (c : Collection) → (find_minions ids found c).1 ≡ c
unfolding find_minions
find_minions_unchanged [] found c = refl
find_minions_unchanged (id ∷ ids) found c = elim (Option-cases (lookup id c.by_request_id)) [
  | inl e ↦ rw e
  | inr (r, e) ↦ rw e (
      find_minions_unchanged ids
        (if has_minion r.minion_id found then found else r.minion_id ∷ found) c)
]

find_stale-KeepsSound : (t : ℕ) (ids stale : List ℕ) → KeepsSound (find_stale t ids stale)
find_stale-KeepsSound t ids stale c s = rw find_stale_unchanged s

ping-KeepsSound : KeepsSound ping
unfolding ping
ping-KeepsSound c s =
    bind-KeepsSound (find_minions (values c.by_jid) [])
      (λ ms. if is_empty ms then (λ c. (ok tt, c)) else start (saltutil_running ms))
      (λ c s. rw find_minions_unchanged s)
      (λ ms. if-KeepsSound (is_empty ms) _ _ (λ c s. s) (λ c s. same_requests-IsSound c _ refl s)) c
      s

pub tick-KeepsSound : (t : ℕ) → KeepsSound (tick t)
unfolding tick
tick-KeepsSound t c s =
    if-KeepsSound (is_empty (values c.by_jid)) _ _ (λ c s. s)
      (bind-KeepsSound (find_stale t (values c.by_jid) []) _
        (find_stale-KeepsSound t (values c.by_jid) [])
        (λ stale.
          bind-KeepsSound (for_each stale (expire t)) _
            (for_each-KeepsSound stale (expire t) (expire-KeepsSound t)) (λ _. ping-KeepsSound)))
      c s

pub fail_all-KeepsSound : (t minion : ℕ) → KeepsSound (fail_all t minion)
unfolding fail_all
fail_all-KeepsSound t minion c s =
    for_each-KeepsSound _ (give_up t minion) (give_up-KeepsSound t minion) c s

heard_of-KeepsSound : (t jid : ℕ) → KeepsSound (heard_of t jid)
unfolding heard_of
heard_of-KeepsSound t jid c s = elim (Option-cases (lookup jid c.by_jid)) [
  | inl e ↦ rw (e, heard_of) s
  | inr (id, e) ↦ rw (e, heard_of) (on_request-KeepsSound id _ (λ w g. ground arith) c s)
]

pub on_tick_response-KeepsSound : (t : ℕ) (jids : List ℕ) → KeepsSound (on_tick_response t jids)
unfolding on_tick_response
on_tick_response-KeepsSound t jids = for_each-KeepsSound jids (heard_of t) (heard_of-KeepsSound t)

kill-KeepsSound : (minion jid : Option ℕ) → KeepsSound (kill minion jid)
kill-KeepsSound minion none c s = s
kill-KeepsSound minion (some j) c s = same_requests-IsSound c _ refl s

pub cancel-KeepsSound : (t id : ℕ) → KeepsSound (cancel t id)
unfolding cancel
cancel-KeepsSound t id = bind-KeepsSound (request_of id) _ (request_of-KeepsSound id) λ r.
    if-KeepsSound (is_completed r) _ _ (λ c s. s)
      (update_index-KeepsSound id _ (
        bind-KeepsSound (on_request id (do clear_jid; set_error cancelled; complete_request t)) _
          (on_request-KeepsSound id _ (fail_last-KeepsGood id t _))
          (λ _. kill-KeepsSound r.minion_id r.jid)))

pub report-KeepsSound : (id : ℕ) → KeepsSound (report id)
report-KeepsSound id =
    bind-KeepsSound (request_of id) _ (request_of-KeepsSound id)
      λ r. when-KeepsSound (is_completed r) _ (λ c s. same_requests-IsSound c _ refl s)

submit_class_frame :
    (salt : Salt) (t : ℕ) (k : Class) (w : Running)
    → let w' = (submit_class salt t k w).1 in
      (w'.self.id ≡ w.self.id) × (w'.self.state ≡ w.self.state)
unfolding submit_class submit_commands start_job
submit_class_frame salt t (rados commands) w = ground arith
submit_class_frame salt t (salt_request cmd args) w = ground arith
submit_class_frame salt t (osd_map_modifying commands) w = ground arith
submit_class_frame salt t (pool_creating commands p) w = ground arith
submit_class_frame salt t (pg_creating commands p) w = ground arith

-- A new request that was submitted.
submit-IsGood :
    (salt : Salt) (t minion : ℕ) (w : Running)
    → (submit salt t minion w).0 ≡ ok tt
    → IsGood (submit salt t minion w).1.self.id (submit salt t minion w).1.self
unfolding submit
submit-IsGood salt t minion w e = ground arith

file_request_requests :
    (r : Request) (c : Collection)
    → (file_request r c).1.by_request_id ≡ insert r.id r c.by_request_id
unfolding file_request
file_request_requests r c = ground arith

pub submit_request-KeepsSound :
    (salt : Salt) (t : ℕ) (r : Request) (minion : ℕ) → KeepsSound (submit_request salt t r minion)
unfolding submit_request
submit_request-KeepsSound salt t r minion c s =
    let w : Running = record { self = r; sent = c.sent } in
    elim (Result-cases (submit salt t minion w).0) [
      | inl (tt, e) ↦
          let w' = (submit salt t minion w).1 in
          let c' : Collection = record c { sent = w'.sent } in
          rw (e, submit_request)
            (insert-IsSound w'.self.id w'.self c' _ (file_request_requests w'.self c')
              (submit-IsGood salt t minion w e) (same_requests-IsSound c c' refl s))
      | inr (x, e) ↦ rw (e, submit_request) (same_requests-IsSound c _ refl s)
    ]

status_of_unchanged :
    (r : JobReturn) (c : Collection) → (error_status_of r c).1.by_request_id ≡ c.by_request_id
status_of_unchanged r c = ground arith

message_of_unchanged :
    (r : JobReturn) (c : Collection) → (message_of r c).1.by_request_id ≡ c.by_request_id
message_of_unchanged r c = ground arith

pub on_rados_error-KeepsSound :
    (salt : Salt) (t id : ℕ) (r : JobReturn) → KeepsSound (on_rados_error salt t id r)
unfolding on_rados_error
on_rados_error-KeepsSound salt t id r =
    bind-KeepsSound (error_status_of r) _
      (λ c s. same_requests-IsSound c _ (status_of_unchanged r c) s)
      λ m.
        bind-KeepsSound (on_request id clear_jid) _
          (on_request-KeepsSound id _ (clear_jid-KeepsGood id))
          λ _. on_request-KeepsSound id _ (fail_idle-KeepsGood id t (remote m))

pub on_salt_failure-KeepsSound :
    (salt : Salt) (t id : ℕ) (r : JobReturn) → KeepsSound (on_salt_failure salt t id r)
unfolding on_salt_failure
on_salt_failure-KeepsSound salt t id r = update_index-KeepsSound id _ (
    bind-KeepsSound (on_request id clear_jid) _
      (on_request-KeepsSound id _ (clear_jid-KeepsGood id))
      (λ _.
        bind-KeepsSound (message_of r) _
          (λ c s. same_requests-IsSound c _ (message_of_unchanged r c) s)
          λ m. on_request-KeepsSound id _ (fail_idle-KeepsGood id t m)))

pub complete_return-KeepsSound :
    (t id : ℕ) (r : JobReturn) → KeepsSound (update_index id (on_request id (complete_jid t r)))
complete_return-KeepsSound t id r =
    update_index-KeepsSound id _ (on_request-KeepsSound id _ (complete_jid-KeepsGood id t r))
