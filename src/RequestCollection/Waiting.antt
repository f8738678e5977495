-- ===== src/RequestCollection/Waiting.antt =====
-- A request that waits for an epoch of the OSD map, when an OSD map comes.
use calamari.Prelude.{
  ℕ, ◌≡◌, ◌<◌, refl, false, none, some, List, [], ◌∷◌, arith, leb, if◌then◌else◌,
}
use calamari.Prelude.Dict.{lookup, insert}
use calamari.Exec.{ok}
use calamari.Types.{osd_map, same_type, SyncObject, Command, Job, Salt}
use calamari.UserRequest.{
  submitted, complete, osd_map_modifying, Request, complete_request, awaiting_versions, on_map,
  on_map_of, on_osd_map_modifying,
}
use calamari.RequestCollection.{
  Collection, succeeded, for_each, on_request, update_index, reindex, submitted_ids, deliver,
  deliver_awaited, notify, on_map_all,
}
use calamari.RequestCollection.Local.{lookup-insert_self}

-- A submitted request whose job is done, and which waits for epoch `v`.
pub record Waits (v : ℕ) (r : Request) : Type 0 where
  pub commands : List Command
  pub modifies : r.class ≡ osd_map_modifying commands
  pub open_ : r.state ≡ submitted
  pub idle : r.jid ≡ none
  pub awaited : r.await_version ≡ some v
  pub positive : 0 < v
  pub fine : r.error ≡ false

abbrev pub succeed : ℕ → Request → Request
succeed t r = record r { state = complete; completed_at = some t }

module _ (salt : Salt) (t fsid id v w : ℕ) (r : Request) (so : SyncObject) (c : Collection)
    (waits : Waits v r) (found : lookup id c.by_request_id ≡ some r)
    (version : so.version ≡ some w) where
  on_map_eq :
      (sent : List Job)
      → on_map salt t osd_map so (record { self = r; sent = sent })
        ≡ (ok tt, record { self = if leb v w then succeed t r else r; sent = sent })
  unfolding on_map on_map_of on_osd_map_modifying complete_request same_type
  on_map_eq sent = ground (arith, waits)

  awaits_eq : awaiting_versions r ≡ (osd_map, some v) ∷ []
  unfolding awaiting_versions
  awaits_eq = ground (arith, waits)

  -- The loop's body for the request.
  notify_eq :
      let r' = if leb v w then succeed t r else r in
      notify salt t osd_map so id c ≡ (
        ok tt,
        record c {
          by_request_id = insert id r' c.by_request_id;
          events = if leb v w then succeeded r.id ∷ c.events else c.events;
        },
      )
  unfolding notify deliver_awaited deliver for_each update_index reindex on_request same_type
  notify_eq =
      let r' = if leb v w then succeed t r else r in
      ground
        (arith, waits, found, on_map_eq c.sent, awaits_eq, lookup-insert_self id r' c.by_request_id)

  -- Let an OsdMapModifyingRequest be the only submitted request, without an error, with its job done
  -- and waiting for a positive epoch `v`. Then `on_map` with an OSD map of epoch `w`, of whatever
  -- cluster, returns; it completes the request without an error, and reports that, exactly if `w`
  -- is `v` or a later epoch, and otherwise changes neither the request nor the events. The cluster
  -- of the request is not compared with that of the map.
  pub on_map_all_lem :
      submitted_ids c.by_request_id ≡ id ∷ []
      → let (result, c') = on_map_all salt t fsid osd_map so c in
        (result ≡ ok tt)
        × (lookup id c'.by_request_id ≡ some (if leb v w then succeed t r else r))
        × (c'.events ≡ (if leb v w then succeeded r.id ∷ c.events else c.events))
  unfolding on_map_all for_each
  on_map_all_lem only =
      let r' = if leb v w then succeed t r else r in
      rw (only, notify_eq) (refl, lookup-insert_self id r' c.by_request_id, refl)
