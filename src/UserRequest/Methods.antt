-- ===== src/UserRequest/Methods.antt =====
-- The methods of the request classes, but for `on_map`. `t` is what `now()` reads.
use calamari.Prelude.{
  ℕ, Bool, true, false, Option, none, some, List, [], ◌∷◌, ◌&&◌, not, if◌then◌else◌,
}
use calamari.Exec.{
  ok, Exec, gets, or_raise, ◌>>=◌, ◌>>◌, modify, require, assertion_error, key_error, type_error,
  publish_error,
}
use calamari.Types.{
  SyncType, osd_map, pg_summary, Version, truthy, Command, Job, rados_commands, salt_call, Salt,
}
use calamari.UserRequest.PgProgress.{ProgressStatus, get_status, is_complete}
use calamari.UserRequest.Attributes.{
  submitted, complete, jid_wait, osd_map_wait, pg_map_wait, JobReturn, dict, other_return, Message,
  Class, rados, salt_request, osd_map_modifying, pool_creating, pg_creating, PoolCreation,
  PgCreation, Request, is_completed, is_fresh,
}

-- The object whose method runs, and the jobs started so far by the program.
pub record Running : Type 0 where
  pub self : Request
  pub sent : List Job

abbrev pub Method : Type 0 → Type 0
Method A = Exec Running A

abbrev pub the_request : Method Request
the_request = gets (λ w. w.self)

abbrev pub update : (Request → Request) → Method (Unit {0})
update f = modify (λ w. record w { self = f w.self })

abbrev pub set_error : Message → Method (Unit {0})
set_error m = update (λ r. record r { error = true; error_message = m })

abbrev pub clear_jid : Method (Unit {0})
clear_jid = update (λ r. record r { jid = none })

abbrev pub has_jid : Request → Bool
has_jid r = elim (r.jid) [ none ↦ false | some _ ↦ true ]

-- `LocalClient.run_job`
abbrev pub run_job : Salt → Job → Method (Option ℕ)
run_job salt job w = let reply = salt w.sent job in (ok reply, record w { sent = job ∷ w.sent })

module _ (salt : Salt) (t : ℕ) where
  -- The common part of both `_submit` methods.
  unfoldable pub start_job : Job → Method (Unit {0})
  start_job job = do
    jid ← or_raise publish_error (← run_job salt job)
    update (λ r. record r { alive_at = some t; jid = some jid })

  -- `RadosRequest._submit(commands)`
  unfoldable pub submit_commands : List Command → Method (Unit {0})
  unfolding start_job
  submit_commands commands = do
    r ← the_request
    start_job (rados_commands r.minion_id r.fsid commands)

  -- `_submit()`
  unfoldable pub submit_class : Class → Method (Unit {0})
  unfolding start_job submit_commands
  submit_class (salt_request cmd args) = do
    r ← the_request
    start_job (salt_call r.minion_id cmd args)
  submit_class (rados commands) = submit_commands commands
  submit_class (osd_map_modifying commands) = submit_commands commands
  submit_class (pool_creating commands p) = submit_commands commands
  submit_class (pg_creating commands p) = submit_commands commands

  -- `UserRequestBase.submit`
  unfoldable pub submit : ℕ → Method (Unit {0})
  unfolding submit_class
  submit minion = do
    r ← the_request
    require (is_fresh r) assertion_error
    update (λ r. record r { minion_id = some minion })
    submit_class r.class
    update (λ r. record r { state = submitted })

-- `UserRequestBase.complete`
unfoldable pub complete_request : ℕ → Method (Unit {0})
complete_request t = do
  r ← the_request
  require (not (is_completed r)) assertion_error
  require (not (has_jid r)) assertion_error
  update (λ r. record r { state = complete; completed_at = some t })

-- `result['versions']['osd_map']`
abbrev pub osd_map_of : JobReturn → Method Version
osd_map_of (other_return s) = or_raise type_error none
osd_map_of (dict d) = or_raise key_error d.osd_map_version

-- `complete_jid` of the classes that then wait for the OSD map
abbrev await_osd_map : JobReturn → Method (Unit {0})
await_osd_map result = do
  update (λ r. record r { jid = none; result = some result })
  version ← osd_map_of result
  update (λ r. record r { await_version = version })

abbrev in_jid_wait : PgCreation → Bool
in_jid_wait p = elim (p.phase) [ jid_wait ↦ true | _ ↦ false ]

abbrev complete_pg_jid : JobReturn → List Command → PgCreation → Method (Unit {0})
complete_pg_jid result commands p = do
  require (in_jid_wait p) assertion_error
  await_osd_map result
  update (λ r. record r { class = pg_creating commands (record p { phase = osd_map_wait }) })

abbrev complete_jid_of : ℕ → JobReturn → Class → Method (Unit {0})
complete_jid_of t result (osd_map_modifying commands) = await_osd_map result
complete_jid_of t result (pool_creating commands p) = await_osd_map result
complete_jid_of t result (pg_creating commands p) = complete_pg_jid result commands p
complete_jid_of t result _ = do
  update (λ r. record r { result = some result; jid = none })
  complete_request t

-- `request.complete_jid(result)`
unfoldable pub complete_jid : ℕ → JobReturn → Method (Unit {0})
unfolding complete_request
complete_jid t result = do r ← the_request; complete_jid_of t result r.class

abbrev awaiting_osd_map : Request → List (SyncType × Version)
awaiting_osd_map r =
    if truthy r.await_version && not (is_completed r) then (osd_map, r.await_version) ∷ [] else []

abbrev awaiting_pool : Request → PoolCreation → List (SyncType × Version)
awaiting_pool r p =
    if p.awaiting_pgs
    then (pg_summary, none) ∷ []
    else (if truthy r.await_version then (osd_map, r.await_version) ∷ [] else [])

abbrev awaiting_pgs_of : Request → PgCreation → List (SyncType × Version)
awaiting_pgs_of r p = elim (p.phase) [
  | jid_wait ↦ []
  | osd_map_wait ↦ (osd_map, r.await_version) ∷ []
  | pg_map_wait ↦ (pg_summary, none) ∷ (osd_map, none) ∷ []
]

abbrev pub awaiting_of : Request → Class → List (SyncType × Version)
awaiting_of r (osd_map_modifying commands) = awaiting_osd_map r
awaiting_of r (pool_creating commands p) = awaiting_pool r p
awaiting_of r (pg_creating commands p) = awaiting_pgs_of r p
awaiting_of r _ = []

-- `request.awaiting_versions`, as its items.
unfoldable pub awaiting_versions : Request → List (SyncType × Version)
awaiting_versions r = awaiting_of r r.class

-- What the status lines say.
pub data Status : Type 0 where
  running completed_successfully : Status
  failed : Message → Status
  waiting_for_osd_map : Version → Status
  waiting_for_pgs : ProgressStatus → Status

abbrev base_status : Request → Status
base_status r =
    if not (is_completed r)
    then running
    else (if r.error then failed r.error_message else completed_successfully)

-- The status of OsdMapModifyingRequest, which its subclasses call by `super()`.
abbrev osd_map_status : Request → Status
osd_map_status r =
    if not (is_completed r) && truthy r.await_version
    then waiting_for_osd_map r.await_version
    else base_status r

abbrev pg_status : Request → PgCreation → Status
pg_status r p =
    if not (is_completed r) && not (is_complete p.progress)
    then waiting_for_pgs (get_status p.progress)
    else osd_map_status r

abbrev status_of : Request → Class → Status
status_of r (osd_map_modifying commands) = osd_map_status r
status_of r (pool_creating commands p) = osd_map_status r
status_of r (pg_creating commands p) = pg_status r p
status_of r _ = base_status r

-- `request.status`
unfoldable pub status : Request → Status
status r = status_of r r.class
