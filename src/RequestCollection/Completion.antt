-- ===== src/RequestCollection/Completion.antt =====
-- `on_map`, `_on_rados_completion` and `on_completion`.
use calamari.Prelude.{ℕ, String, Bool, none, some, List, ◌∷◌, is_empty, not, ◌&&◌, if◌then◌else◌}
use calamari.Prelude.Dict.{lookup, insert}
use calamari.Exec.{
  Exception, ok, err, Exec, or_raise, ◌>>=◌, ◌>>◌, gets, modify, require, when, catch, key_error,
  type_error, assertion_error,
}
use calamari.Types.{SyncType, same_type, Version, truthy, cmp, is_nonnegative, SyncObject, Salt}
use calamari.SyncObjects.{on_version}
use calamari.UserRequest.{
  Request, is_submitted, is_completed, JobReturn, dict, other_return, Message, internal_error,
  remote, set_error, clear_jid, complete_request, complete_jid, awaiting_versions, on_map,
}
use calamari.RequestCollection.Index.{
  succeeded, failed, Collection, Operation, for_each, request_of, on_request, same_jid,
  update_index,
}
use calamari.RequestCollection.Timed.{submitted_ids}

-- A salt/job/<jid>/ret event.
pub record JobEvent : Type 0 where
  pub jid : ℕ
  pub minion : ℕ
  pub success : Bool
  pub is_rados : Bool  -- data['fun'] == 'ceph.rados_commands'
  pub return : JobReturn

-- The handlers' last resort: `except Exception as e`.
unfoldable pub abandon : ℕ → ℕ → Exception → Operation
abandon t id e = on_request id (do clear_jid; set_error (internal_error e); complete_request t)

-- Eventer.on_user_request_complete
abbrev pub completion_event : Request → Operation
completion_event r = modify (λ c. record c {
  events = (if r.error then failed r.id r.error_message else succeeded r.id) ∷ c.events;
})

abbrev pub report : ℕ → Operation
report id = do r ← request_of id; when (is_completed r) (completion_event r)

-- `result['error']`
abbrev pub error_of : JobReturn → Exec Collection Bool
error_of (other_return s) = or_raise type_error none
error_of (dict d) = or_raise key_error d.error

abbrev pub error_status_of : JobReturn → Exec Collection String
error_status_of (other_return s) = or_raise type_error none
error_status_of (dict d) = or_raise key_error d.error_status

abbrev pub message_of : JobReturn → Exec Collection Message
message_of (other_return s) c = (ok (remote s), c)
message_of (dict d) c = (do s ← or_raise key_error d.error_status; (λ c. (ok (remote s), c))) c

module _ (salt : Salt) (t : ℕ) where
  -- The inner loop of `on_map`, over `request.awaiting_versions.keys()`.
  unfoldable pub deliver : SyncType → SyncObject → ℕ → List (SyncType × Version) → Operation
  deliver sync_type so id awaiting = for_each awaiting (λ a.
      when (same_type a.0 sync_type) (update_index id (on_request id (on_map salt t sync_type so))))

  unfoldable pub deliver_awaited : SyncType → SyncObject → ℕ → Operation
  deliver_awaited sync_type so id = do
    r ← request_of id
    deliver sync_type so id (awaiting_versions r)

  -- The body of `on_map`'s loop. The test of `request.fsid` there has no effect.
  unfoldable pub notify : SyncType → SyncObject → ℕ → Operation
  notify sync_type so id = do catch (deliver_awaited sync_type so id) (abandon t id); report id

  unfoldable pub on_map_all : (fsid : ℕ) → SyncType → SyncObject → Operation
  on_map_all fsid sync_type so = do
    ids ← gets (λ c. submitted_ids c.by_request_id)
    for_each ids (notify sync_type so)

  -- `cluster_monitor.on_version(minion_id, sync_type, version)`
  unfoldable pub request_version : ℕ → ℕ → SyncType × Version → Operation
  request_version minion fsid (typ, none) c = (ok tt, c)
  request_version minion fsid (typ, some v) c = elim (lookup fsid c.clusters) [
    | none ↦ (err key_error, c)
    | some s ↦
        let m = on_version t (some minion) typ (some v) (record { sync = s; sent = c.sent }) in
        (ok tt, record c { clusters = insert fsid m.sync c.clusters; sent = m.sent })
  ]

  -- What the request awaits may be there already.
  unfoldable pub give_available : ℕ → ℕ → SyncType × Version → Operation
  give_available fsid id (typ, want) c = elim (lookup fsid c.clusters) [
    | none ↦ (err key_error, c)
    | some s ↦
        let so = s.objects typ in
        when (truthy want && is_nonnegative (cmp typ so.version want))
          (on_request id (on_map salt t typ so)) c
  ]

  -- The body of `_on_rados_completion`'s `with`, after the job is done: have the awaited versions
  -- fetched, and hand over what is there.
  unfoldable pub chase_versions : ℕ → ℕ → Operation
  chase_versions minion id = do
    r ← request_of id
    fsid ← or_raise assertion_error r.fsid
    gets (λ c. lookup fsid c.clusters) >>= or_raise key_error
    for_each (awaiting_versions r) (request_version minion fsid)
    r' ← request_of id
    for_each (awaiting_versions r') (give_available fsid id)

  unfoldable pub finish_job : ℕ → ℕ → JobReturn → Operation
  finish_job minion id return = do
    before ← request_of id
    on_request id (complete_jid t return)
    after ← request_of id
    require (not (same_jid after.jid before.jid)) assertion_error
    when (not (is_empty (awaiting_versions after))) (chase_versions minion id)

  -- A failure within `ceph.rados_commands`. This does not update the index of jobs.
  unfoldable pub on_rados_error : ℕ → JobReturn → Operation
  on_rados_error id return = do
    message ← error_status_of return
    on_request id clear_jid
    on_request id (do set_error (remote message); complete_request t)

  unfoldable pub rados_completion : ℕ → ℕ → JobReturn → Operation
  rados_completion minion id return = do
    is_error ← error_of return
    if is_error
        then on_rados_error id return
        else catch (update_index id (finish_job minion id return)) (abandon t id)

  unfoldable pub on_rados_completion : ℕ → ℕ → JobReturn → Operation
  on_rados_completion minion id return = do
    r ← request_of id
    if is_submitted r then rados_completion minion id return else (λ c. (ok tt, c))

  -- A failure at the salt level.
  unfoldable pub on_salt_failure : ℕ → JobReturn → Operation
  on_salt_failure id return = update_index id (do
    on_request id clear_jid
    message ← message_of return
    on_request id (do set_error message; complete_request t))

  unfoldable pub on_return : JobEvent → ℕ → Operation
  on_return ev id =
      if not ev.success
      then on_salt_failure id ev.return
      else (if ev.is_rados
          then on_rados_completion ev.minion id ev.return
          else update_index id (on_request id (complete_jid t ev.return)))

  unfoldable pub on_completion : JobEvent → Operation
  on_completion ev c = elim (lookup ev.jid c.by_jid) [
    | none ↦ (ok tt, c)
    | some id ↦ (do on_return ev id; report id) c
  ]
