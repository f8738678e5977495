-- ===== src/RequestCollection/Submitting.antt =====
-- Submitting a request to a minion.
use calamari.Prelude.{ℕ, ◌≡◌, Option, none, some, List, ◌∷◌, inl, inr, arith, Option-cases}
use calamari.Prelude.Dict.{insert}
use calamari.Exec.{Result, ok, err, publish_error}
use calamari.Types.{Job, rados_commands, salt_call, Salt}
use calamari.UserRequest.{
  fresh, submitted, Class, rados, salt_request, osd_map_modifying, pool_creating, pg_creating,
  Request, Running, submit, submit_class, submit_commands, start_job,
}
use calamari.RequestCollection.{Collection, started, submit_request, file_request}

-- The job that a request of a class starts on a minion.
abbrev pub first_job : ℕ → Request → Class → Job
first_job minion r (salt_request cmd args) = salt_call (some minion) cmd args
first_job minion r (rados commands) = rados_commands (some minion) r.fsid commands
first_job minion r (osd_map_modifying commands) = rados_commands (some minion) r.fsid commands
first_job minion r (pool_creating commands p) = rados_commands (some minion) r.fsid commands
first_job minion r (pg_creating commands p) = rados_commands (some minion) r.fsid commands

abbrev pub underway : ℕ → ℕ → ℕ → Request → Request
underway t minion j r = record r {
  minion_id = some minion;
  jid = some j;
  state = submitted;
  alive_at = some t;
}

abbrev assign : ℕ → Request → Request
assign minion r = record r { minion_id = some minion }

abbrev pub submit_spec :
    ℕ → Request → ℕ → Collection → Job → Option ℕ → Result (Unit {0}) × Collection
submit_spec t r minion c job none = (err publish_error, record c { sent = job ∷ c.sent })
submit_spec t r minion c job (some j) = (
  ok tt,
  record c {
    by_request_id = insert r.id (underway t minion j r) c.by_request_id;
    by_jid = insert j r.id c.by_jid;
    sent = job ∷ c.sent;
    events = started r.id ∷ c.events;
  },
)

abbrev run_spec : ℕ → Running → Job → Option ℕ → Result (Unit {0}) × Running
run_spec t w job none = (err publish_error, record w { sent = job ∷ w.sent })
run_spec t w job (some j) =
    let r = w.self in
    (ok tt, record { self = record r { alive_at = some t; jid = some j }; sent = job ∷ w.sent })

module _ (salt : Salt) (t : ℕ) where
  start_job_eq :
      (job : Job) (w : Running) → start_job salt t job w ≡ run_spec t w job (salt w.sent job)
  unfolding start_job
  start_job_eq job w = elim (Option-cases (salt w.sent job)) [ inl e ↦ rw e | inr (j, e) ↦ rw e ]

  submit_class_eq :
      (minion : ℕ) (r : Request) (k : Class) (sent : List Job)
      → let w : Running = record { self = assign minion r; sent = sent } in
        submit_class salt t k w
        ≡ run_spec t w (first_job minion r k) (salt sent (first_job minion r k))
  unfolding submit_class submit_commands
  submit_class_eq minion r (salt_request cmd args) sent = start_job_eq _ _
  submit_class_eq minion r (rados commands) sent = start_job_eq _ _
  submit_class_eq minion r (osd_map_modifying commands) sent = start_job_eq _ _
  submit_class_eq minion r (pool_creating commands p) sent = start_job_eq _ _
  submit_class_eq minion r (pg_creating commands p) sent = start_job_eq _ _

  -- Submitting a new request asks salt for one job, the one that its class and commands call for.
  -- If salt gives a job id, the request is stored as submitted under its id, is indexed under the
  -- job's id, and its start is reported; if salt gives none, PublishError is raised and nothing is
  -- stored, indexed or reported.
  pub submit_request_eq :
      (r : Request) (minion : ℕ) (c : Collection)
      → r.state ≡ fresh
      → let job = first_job minion r r.class in
        submit_request salt t r minion c ≡ submit_spec t r minion c job (salt c.sent job)
  unfolding submit_request submit file_request
  submit_request_eq r minion c h = ground (
    arith,
    submit_class_eq minion r r.class c.sent,
    Option-cases (salt c.sent (first_job minion r r.class)),
  )
