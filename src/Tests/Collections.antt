-- ===== src/Tests/Collections.antt =====
-- The collection of requests.
use mathlib.Core.Option
use calamari.Prelude.{ℕ, ◌≡◌, ◌≢◌, refl, arith, true, none, some, List, [], ◌∷◌}
use calamari.Prelude.Dict.{lookup, lookup-cons_self}
use calamari.Exec.{ok}
use calamari.Types.{osd_map}
use calamari.UserRequest.{Request, fresh, submitted, dict, new_request, rados}
use calamari.RequestCollection.{
  Collection, new_collection, succeeded, cancel, fail_all, submit_request, on_map_all,
  on_completion, tick, JobEvent, submitted_ids,
}
use calamari.RequestCollection.Sound.{IsSound}
use calamari.RequestCollection.Reachable.{
  Trigger, ticked, user_cancels, minion_lost, user_submits, map_arrives, run, run-IsSound,
}
use calamari.RequestCollection.Failing.{IsIndexed, lose_if_submitted, fail_all_lem}
use calamari.RequestCollection.Cancelling.{cancel_spec, cancel_eq}
use calamari.RequestCollection.Submitting.{first_job, submit_spec, submit_request_eq}
use calamari.RequestCollection.Waiting.{Waits, succeed, on_map_all_lem}
use calamari.RequestCollection.Stale.{EndsWithError, rados_error-tick_raises}
use calamari.Tests.Samples.{always, osds, request, create_pool}

abbrev triggers : List Trigger
triggers =
    user_submits 100 (new_request 9 (some 1) (rados create_pool)) 2
    ∷ map_arrives 110 1 osd_map (osds 8)
    ∷ user_cancels 120 9
    ∷ minion_lost 130 2
    ∷ ticked 140
    ∷ []

run-IsSound_example : IsSound (run always triggers new_collection)
run-IsSound_example = run-IsSound always triggers

-- Request 9 has the job 4 under way.
abbrev pub active : Request
active = request 9 submitted (some 4) none

abbrev pub working : Collection
working = record {
  by_request_id = (9, active) ∷ [];
  by_jid = (4, 9) ∷ [];
  sent = [];
  events = [];
  clusters = [];
}

pub working-IsIndexed : IsIndexed working
unfolding lookup
working-IsIndexed = record { indexed = λ id j r e f. ground arith }

pub working-IsSound : IsSound working
unfolding lookup
working-IsSound = record {
  unique = (refl, tt);
  good = λ id r e. record { own_id = ground arith; begun = ground arith; settled = ground arith };
}

fail_all_lem_example :
    let (result, c') = fail_all 130 2 working in
    (result ≡ ok tt)
    × ((k : ℕ)
        → lookup k c'.by_request_id
          ≡ Option.map (lose_if_submitted 130 2) (lookup k working.by_request_id))
    × IsIndexed c'
fail_all_lem_example = fail_all_lem 130 2 working working-IsSound working-IsIndexed

cancel_eq_example :
    cancel 120 9 working ≡ cancel_spec 120 9 working (lookup 9 working.by_request_id)
cancel_eq_example = cancel_eq 120 9 working working-IsIndexed

abbrev new_one : Request
new_one = request 9 fresh none none

submit_request_eq_example :
    let job = first_job 2 new_one new_one.class in
    submit_request always 100 new_one 2 new_collection
    ≡ submit_spec 100 new_one 2 new_collection job (always [] job)
submit_request_eq_example = submit_request_eq always 100 new_one 2 new_collection refl

-- Request 9 waits for epoch 3 of the OSD map.
abbrev idle : Request
idle = request 9 submitted none (some 3)

abbrev expecting : Collection
expecting = record {
  by_request_id = (9, idle) ∷ [];
  by_jid = [];
  sent = [];
  events = [];
  clusters = [];
}

expecting-only : submitted_ids expecting.by_request_id ≡ 9 ∷ []
unfolding submitted_ids
expecting-only = refl

waits : Waits 3 idle
waits = record {
  commands = create_pool;
  modifies = refl;
  open_ = refl;
  idle = refl;
  awaited = refl;
  positive = omega arith;
  fine = refl;
}

-- The map is of the cluster 7, the request of the cluster 1.
on_map_all_lem_example :
    let (result, c') = on_map_all always 110 7 osd_map (osds 8) expecting in
    (result ≡ ok tt)
    × (lookup 9 c'.by_request_id ≡ some (succeed 110 idle))
    × (c'.events ≡ succeeded 9 ∷ [])
on_map_all_lem_example =
    on_map_all_lem always 110 7 9 3 5 idle (osds 8) expecting waits (lookup-cons_self 9 idle [])
      refl expecting-only

-- Job 4 ended with an error.
abbrev bad_end : JobEvent
bad_end = record {
  jid = 4;
  minion = 2;
  success = true;
  is_rados = true;
  return =
      dict
        (record { error = some true; error_status = some "pool exists"; osd_map_version = none });
}

ends_with_error : EndsWithError always 110 bad_end "pool exists" 9 active working
unfolding lookup
ends_with_error = record {
  known = refl;
  found = refl;
  open_ = refl;
  ran = refl;
  rados = refl;
  returned = (none, refl);
}

rados_error-tick_raises_example :
    let (result, c') = on_completion always 110 bad_end working in
    (result ≡ ok tt) × (lookup 4 c'.by_jid ≡ some 9) × ((tick 200 c').0 ≢ ok tt)
rados_error-tick_raises_example =
    rados_error-tick_raises always 110 bad_end "pool exists" 9 active working 100 200
      ends_with_error refl (omega arith)
