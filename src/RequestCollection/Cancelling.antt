-- ===== src/RequestCollection/Cancelling.antt =====
-- Cancelling a request.
use calamari.Prelude.{ℕ, ◌≡◌, true, Option, none, some, List, ◌∷◌, inl, inr, arith, Option-cases}
use calamari.Prelude.Dict.{lookup}
use calamari.Exec.{Result, ok, err, key_error}
use calamari.Types.{Job, kill_job}
use calamari.UserRequest.{Request, complete, cancelled, complete_request}
use calamari.RequestCollection.{Collection, on_request, reindex, update_index, cancel}
use calamari.RequestCollection.Local.{lookup-insert_self}
use calamari.RequestCollection.Failing.{IsIndexed, retired}

abbrev pub cancel_of : ℕ → Request → Request
cancel_of t r = record r {
  error = true;
  error_message = cancelled;
  jid = none;
  state = complete;
  completed_at = some t;
}

-- The jobs that are sent to kill a job.
abbrev pub kill_jobs : Request → List Job → List Job
kill_jobs r sent = elim (r.jid) [ none ↦ sent | some j ↦ kill_job r.minion_id j ∷ sent ]

-- What `cancel` should do, by what the request is.
abbrev pub cancel_spec : ℕ → ℕ → Collection → Option Request → Result (Unit {0}) × Collection
cancel_spec t id c none = (err key_error, c)
cancel_spec t id c (some r) = elim (r.state) [
  | complete ↦ (ok tt, c)
  | _ ↦ (ok tt, record (retired id r (cancel_of t r) c) { sent = kill_jobs r c.sent })
]

module _ (t id : ℕ) (c : Collection) (i : IsIndexed c) where
  -- Where running jobs are indexed, `cancel` is a KeyError for an unknown request, changes nothing
  -- for a completed one, and otherwise completes the request as cancelled, takes its job, if it has
  -- one, out of the index, and sends one call that kills that job.
  pub cancel_eq : cancel t id c ≡ cancel_spec t id c (lookup id c.by_request_id)
  unfolding cancel update_index on_request complete_request reindex
  cancel_eq = elim (Option-cases (lookup id c.by_request_id)) [
    | inl e ↦ rw e
    | inr (r, e) ↦ elim (Option-cases r.jid) [
      | inl f ↦ ground (arith, lookup-insert_self id (cancel_of t r) c.by_request_id)
      | inr (j, f) ↦
          ground
            (arith, lookup-insert_self id (cancel_of t r) c.by_request_id, i.indexed id j r e f)
    ]
  ]
