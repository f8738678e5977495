-- ===== src/RequestCollection/Reachable.antt =====
-- The collection under any sequence of events.
use calamari.Prelude.{ℕ, List, [], ◌∷◌, refl}
use calamari.Prelude.Dict.{insert, lookup-nil}
use calamari.Types.{SyncType, SyncObject, Salt}
use calamari.Exec.{ok}
use calamari.SyncObjects.{SyncObjects}
use calamari.UserRequest.{Request}
use calamari.RequestCollection.{
  Collection, new_collection, Operation, JobEvent, tick, on_tick_response, cancel, fail_all,
  submit_request, on_map_all, on_completion,
}
use calamari.RequestCollection.Sound.{IsSound, same_requests-IsSound, KeepsSound}
use calamari.RequestCollection.Safety.{
  tick-KeepsSound, on_tick_response-KeepsSound, cancel-KeepsSound, fail_all-KeepsSound,
  submit_request-KeepsSound,
}
use calamari.RequestCollection.Maps.{on_map_all-KeepsSound}
use calamari.RequestCollection.Jobs.{on_completion-KeepsSound}

-- What calls the collection, each at a time `t`; `maps_changed` is a ClusterMonitor that keeps
-- its own maps up to date.
pub data Trigger : Type 0 where
  ticked : (t : ℕ) → Trigger
  responded : (t : ℕ) (jids : List ℕ) → Trigger
  user_cancels : (t id : ℕ) → Trigger
  minion_lost : (t minion : ℕ) → Trigger
  user_submits : (t : ℕ) → Request → (minion : ℕ) → Trigger
  map_arrives : (t fsid : ℕ) → SyncType → SyncObject → Trigger
  job_ends : (t : ℕ) → JobEvent → Trigger
  maps_changed : (fsid : ℕ) → SyncObjects → Trigger

unfoldable pub run_trigger : Salt → Trigger → Operation
run_trigger salt (ticked t) = tick t
run_trigger salt (responded t jids) = on_tick_response t jids
run_trigger salt (user_cancels t id) = cancel t id
run_trigger salt (minion_lost t minion) = fail_all t minion
run_trigger salt (user_submits t r minion) = submit_request salt t r minion
run_trigger salt (map_arrives t fsid sync_type so) = on_map_all salt t fsid sync_type so
run_trigger salt (job_ends t ev) = on_completion salt t ev
run_trigger salt (maps_changed fsid s) =
    λ c. (ok tt, record c { clusters = insert fsid s c.clusters })

-- The callers go on after an exception, with the state that it left.
unfoldable pub run : Salt → List Trigger → Collection → Collection
run salt [] c = c
run salt (x ∷ xs) c = run salt xs (run_trigger salt x c).1

pub run_trigger-KeepsSound : (salt : Salt) (x : Trigger) → KeepsSound (run_trigger salt x)
unfolding run_trigger
run_trigger-KeepsSound salt (ticked t) = tick-KeepsSound t
run_trigger-KeepsSound salt (responded t jids) = on_tick_response-KeepsSound t jids
run_trigger-KeepsSound salt (user_cancels t id) = cancel-KeepsSound t id
run_trigger-KeepsSound salt (minion_lost t minion) = fail_all-KeepsSound t minion
run_trigger-KeepsSound salt (user_submits t r minion) = submit_request-KeepsSound salt t r minion
run_trigger-KeepsSound salt (map_arrives t f y so) = on_map_all-KeepsSound salt t f y so
run_trigger-KeepsSound salt (job_ends t ev) = on_completion-KeepsSound salt t ev
run_trigger-KeepsSound salt (maps_changed f maps) = λ c s. same_requests-IsSound c _ refl s

run-IsSound_from :
    (salt : Salt) (xs : List Trigger) (c : Collection) → IsSound c → IsSound (run salt xs c)
unfolding run
run-IsSound_from salt [] c s = s
run-IsSound_from salt (x ∷ xs) c s =
    run-IsSound_from salt xs (run_trigger salt x c).1 (run_trigger-KeepsSound salt x c s)

new_collection-IsSound : IsSound new_collection
new_collection-IsSound = record { unique = tt; good = λ id r e. cc (lookup-nil {V = Request} id) }

-- After any sequence of ticks, tick responses, cancellations, lost minions, submissions, new maps
-- and ended jobs, in any order and with any exceptions on the way, the collection lists no request
-- twice, and each stored request stands under its own id, has been submitted, and has no job under
-- way if it is complete.
pub run-IsSound : (salt : Salt) (xs : List Trigger) → IsSound (run salt xs new_collection)
run-IsSound salt xs = run-IsSound_from salt xs new_collection new_collection-IsSound
