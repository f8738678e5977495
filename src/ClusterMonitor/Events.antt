-- ===== src/ClusterMonitor/Events.antt =====
-- A monitor and its manager's requests under any sequence of events.
use calamari.Prelude.{ℕ, Option, none, some, List, [], ◌∷◌, inl, inr, ◌==◌, ◌&&◌}
use calamari.Prelude.Dict.{lookup-nil}
use calamari.Exec.{Result, catch, pure, or_raise, cluster_unavailable, Result-cases, ◌>>◌}
use calamari.Types.{Salt}
use calamari.UserRequest.{Request}
use calamari.RequestCollection.{submit_request, on_tick_response}
use calamari.RequestCollection.Safety.{on_tick_response-KeepsSound, submit_request-KeepsSound}
use calamari.RequestCollection.Reachable.{Trigger, run_trigger, run_trigger-KeepsSound}
use calamari.ClusterMonitor.{
  Monitor, new_monitor, on_requests, SaltEvent, heartbeat, running_jobs, cluster_object,
  other_event, dispatch, on_event, request,
}
use calamari.ClusterMonitor.Healthy.{
  IsHealthy, Keeps, bind-Keeps, when-Keeps, or_raise-Keeps, on_requests-KeepsHealthy,
  on_heartbeat-KeepsHealthy, on_sync_object-KeepsHealthy,
}

-- A salt event or a user's request at a time `t`, or a call of the request collection by others.
pub data Happening : Type 0 where
  salt_event : (t : ℕ) → SaltEvent → Happening
  user_request : (t : ℕ) → (Monitor → Result (Option Request)) → Happening
  elsewhere : Trigger → Happening

module _ (salt : Salt) (contact_period : ℕ → ℕ) (factor : ℕ) where
  unfoldable pub step : Happening → Monitor → Monitor
  step (salt_event t ev) m = (on_event salt contact_period factor t ev m).1
  step (user_request t make) m = (request salt contact_period factor t make m).1
  step (elsewhere x) m = (on_requests (run_trigger salt x) m).1

  unfoldable pub live : List Happening → Monitor → Monitor
  live [] m = m
  live (x ∷ xs) m = live xs (step x m)

  dispatch-KeepsHealthy :
      (t : ℕ) (ev : SaltEvent) → Keeps IsHealthy (dispatch salt contact_period factor t ev)
  unfolding dispatch
  dispatch-KeepsHealthy t (heartbeat fsid minion versions) m h =
      when-Keeps IsHealthy (fsid == m.fsid) _
        (on_heartbeat-KeepsHealthy salt contact_period factor t minion versions) m h
  dispatch-KeepsHealthy t (running_jobs jids) m h =
      on_requests-KeepsHealthy (on_tick_response t jids) (on_tick_response-KeepsSound t jids) m h
  dispatch-KeepsHealthy t (cluster_object minion success d) m h =
      when-Keeps IsHealthy ((d.map_fsid == m.fsid) && success) _
        (on_sync_object-KeepsHealthy salt contact_period factor t minion d) m h
  dispatch-KeepsHealthy t other_event m h = h

  on_event-KeepsHealthy :
      (t : ℕ) (ev : SaltEvent) → Keeps IsHealthy (on_event salt contact_period factor t ev)
  unfolding on_event
  on_event-KeepsHealthy t ev m h =
      let k = dispatch-KeepsHealthy t ev m h in
      elim (Result-cases (dispatch salt contact_period factor t ev m).0) [
        | inl (a, e) ↦ rw (e, catch) k
        | inr (x, e) ↦ rw (e, catch) k
      ]

  request-KeepsHealthy :
      (t : ℕ) (make : Monitor → Result (Option Request))
      → Keeps IsHealthy (request salt contact_period factor t make)
  unfolding request
  request-KeepsHealthy t make m h =
      bind-Keeps IsHealthy (or_raise cluster_unavailable m.favorite_mon) _
        (or_raise-Keeps IsHealthy cluster_unavailable m.favorite_mon)
        (λ favorite.
          bind-Keeps IsHealthy (λ q. (make q, q)) _ (λ q k. k) λ made. made_one favorite made)
        m h
    where
      made_one :
          (favorite : ℕ) (made : Option Request)
          → Keeps {A = Option ℕ} IsHealthy (elim made [
            | none ↦ pure none
            | some r ↦ (do on_requests (submit_request salt t r favorite); pure (some r.id))
          ])
      made_one favorite none q k = k
      made_one favorite (some r) q k =
          bind-Keeps IsHealthy (on_requests (submit_request salt t r favorite)) _
            (on_requests-KeepsHealthy (submit_request salt t r favorite)
              (submit_request-KeepsSound salt t r favorite))
            (λ _ p g. g) q k

  step-IsHealthy : (x : Happening) (m : Monitor) → IsHealthy m → IsHealthy (step x m)
  unfolding step
  step-IsHealthy (salt_event t ev) m h = on_event-KeepsHealthy t ev m h
  step-IsHealthy (user_request t make) m h = request-KeepsHealthy t make m h
  step-IsHealthy (elsewhere x) m h =
      on_requests-KeepsHealthy (run_trigger salt x) (run_trigger-KeepsSound salt x) m h

  live-IsHealthy_from : (xs : List Happening) (m : Monitor) → IsHealthy m → IsHealthy (live xs m)
  unfolding live
  live-IsHealthy_from [] m h = h
  live-IsHealthy_from (x ∷ xs) m h = live-IsHealthy_from xs (step x m) (step-IsHealthy x m h)

  -- After any salt events, users' requests and calls of the request collection, in any order and
  -- with any exceptions on the way, a monitor that started in a new manager has heard a heartbeat
  -- of its favorite, if it has one, and the requests are sound: each stands under its own id once,
  -- has been submitted, and has no job under way if it is complete.
  pub live-IsHealthy : (fsid t : ℕ) (xs : List Happening) → IsHealthy (live xs (new_monitor fsid t))
  live-IsHealthy fsid t xs = live-IsHealthy_from xs (new_monitor fsid t) (record {
    known = λ f e. cc;
    sound = record { unique = tt; good = λ id r e. cc (lookup-nil {V = Request} id) };
  })
