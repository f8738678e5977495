-- ===== src/UserRequest/Growth.antt =====
-- How a PgCreatingRequest brings a pool to its final number of placement groups, block by block.
use calamari.Prelude.{
  ℕ, ◌+◌, ◌<◌, min, ◌≡◌, ◌≢◌, true, false, none, some, List, [], ◌∷◌, arith, if◌then◌else◌,
}
use calamari.Prelude.Dict.{Dict, lookup}
use calamari.Exec.{ok}
use calamari.Types.{
  osd_map, pg_summary, version_ge, Pool, SyncObject, pools_by_id, by_pool, Command, Job,
  rados_commands, Salt,
}
use calamari.Types.Text.{not_creating}
use calamari.UserRequest.PgProgress.{advance_goal, is_complete, goal, set_created_pg_count}
use calamari.UserRequest.{
  jid_wait, osd_map_wait, pg_map_wait, dict, JobReturn, submitted, complete, Request, PgCreation,
  pg_creating, set_pg_num, Running, submit_commands, start_job, complete_request, complete_jid,
  created_pgs, pool_of, on_map, on_map_of, on_pg_creating, read_back_pg_num, on_awaited_version,
  on_pg_summary, on_created, more_creates, after_creation,
}

-- A job's return, with the epoch of the OSD map after it.
abbrev pub returned : ℕ → JobReturn
returned v =
    dict (record { error = some false; error_status = some ""; osd_map_version = some (some v) })

-- A cluster that does as it is asked: after `osd pool set pg_num g` its OSD map has an epoch of at
-- least `v` and `g` placement groups in the pool, and then all `g` have left the state `creating`.
pub record Obedient (pool_id v : ℕ) (osds pgs : ℕ → SyncObject) : Type 0 where
  pub pools : ℕ → Dict Pool
  pub pool : ℕ → Pool
  pub states : ℕ → List (List ℕ × ℕ)
  pub by_pools : ℕ → Dict (List (List ℕ × ℕ))
  pub has_pools : (g : ℕ) → pools_by_id (osds g) ≡ some (pools g)
  pub has_pool : (g : ℕ) → lookup pool_id (pools g) ≡ some (pool g)
  pub has_pg_num : (g : ℕ) → (pool g).pg_num ≡ g
  pub has_epoch : (g : ℕ) → version_ge (osds g).version (some v) ≡ true
  pub has_by_pool : (g : ℕ) → by_pool (pgs g) ≡ some (by_pools g)
  pub has_states : (g : ℕ) → lookup pool_id (by_pools g) ≡ some (states g)
  pub all_created : (g : ℕ) → not_creating (states g) ≡ g

module _ (salt : Salt) (t v : ℕ) (r : Request) (commands : List Command) (p : PgCreation)
    (sent : List Job) where
  abbrev pub in_phase : PgCreation → Request
  in_phase q = record r {
    jid = none;
    result = some (returned v);
    await_version = some v;
    class = pg_creating commands q;
  }

  abbrev pub at : Request → Running
  at q = record { self = q; sent = sent }

  pub complete_jid_eq :
      r.class ≡ pg_creating commands p
      → p.phase ≡ jid_wait
      → complete_jid t (returned v) (at r)
        ≡ (ok tt, at (in_phase (record p { phase = osd_map_wait })))
  unfolding complete_jid
  complete_jid_eq k ph = ground arith

  module _ (osds pgs : ℕ → SyncObject) (obedient : Obedient p.pool_id v osds pgs) (positive : 0 < v)
      (open_ : r.state ≡ submitted) where
    pool_of_eq : (w : Running) (g : ℕ) → pool_of (osds g) p.pool_id w ≡ (ok (obedient.pool g), w)
    unfolding pool_of
    pool_of_eq w g = rw (obedient.has_pools g, obedient.has_pool g)

    created_pgs_eq : (w : Running) (g : ℕ) → created_pgs (pgs g) (some p.pool_id) w ≡ (ok g, w)
    unfolding created_pgs
    created_pgs_eq w g = rw (obedient.has_by_pool g, obedient.has_states g, obedient.all_created g)

    pub on_osd_map_eq :
        let g = goal p.progress in
        on_map salt t osd_map (osds g) (at (in_phase (record p { phase = osd_map_wait }))) ≡ (
          ok tt,
          at (
              if is_complete p.progress
              then record (in_phase (record p { phase = osd_map_wait })) {
                state = complete;
                completed_at = some t;
              }
              else in_phase (record p { phase = pg_map_wait })),
        )
    unfolding on_map on_map_of on_pg_creating read_back_pg_num on_awaited_version complete_request
    on_osd_map_eq =
        let g = goal p.progress in
        ground (
          arith,
          pool_of_eq (at (in_phase (record p { phase = osd_map_wait }))) g,
          obedient.has_pg_num g,
          obedient.has_epoch g,
        )

    abbrev pub job_for : List Command → Job
    job_for cs = rados_commands r.minion_id r.fsid cs

    -- The request in the phase `q` with a job that runs since `t`.
    abbrev pub with_job : List Command → ℕ → PgCreation → Running
    with_job cs j q = record {
      self = record (in_phase q) { alive_at = some t; jid = some j };
      sent = job_for cs ∷ sent;
    }

    abbrev pub next_goal : ℕ
    next_goal = min p.progress.final (goal p.progress + p.progress.block_size)

    pub on_pgs_more_eq :
        (j : ℕ)
        → goal p.progress ≢ p.progress.final
        → let cs = set_pg_num p.pool_name next_goal ∷ [] in
          salt sent (job_for cs) ≡ some j
          → on_map salt t pg_summary
              (pgs (goal p.progress))
              (at (in_phase (record p { phase = pg_map_wait })))
            ≡ (
              ok tt,
              with_job cs j (record p {
                progress = record (set_created_pg_count (goal p.progress) p.progress) {
                  intermediate_goal = next_goal;
                };
                phase = jid_wait;
              }),
            )
    unfolding on_map on_map_of on_pg_creating on_pg_summary on_created more_creates advance_goal
        submit_commands start_job
    on_pgs_more_eq j ne e =
        let g = goal p.progress in
        ground (arith, created_pgs_eq (at (in_phase (record p { phase = pg_map_wait }))) g, e)

    pub on_pgs_last_eq :
        (j : ℕ) (c : Command) (cs : List Command)
        → goal p.progress ≡ p.progress.final
        → p.post_create_commands ≡ some (c ∷ cs)
        → salt sent (job_for (c ∷ cs)) ≡ some j
        → on_map salt t pg_summary
            (pgs (goal p.progress))
            (at (in_phase (record p { phase = pg_map_wait })))
          ≡ (
            ok tt,
            with_job (c ∷ cs) j (record p {
              progress = set_created_pg_count (goal p.progress) p.progress;
              phase = jid_wait;
            }),
          )
    unfolding on_map on_map_of on_pg_creating on_pg_summary on_created after_creation
        submit_commands start_job
    on_pgs_last_eq j c cs final post e =
        let g = goal p.progress in
        ground (arith, created_pgs_eq (at (in_phase (record p { phase = pg_map_wait }))) g, e)
