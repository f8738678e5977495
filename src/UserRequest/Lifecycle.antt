-- ===== src/UserRequest/Lifecycle.antt =====
-- The life of a request: what `complete_jid` and `on_map` do to its state and its job.
use calamari.Prelude.{ℕ, ◌≤◌, ◌≡◌, none, some, Option, inl, inr, List, [], ◌∷◌, arith, Option-cases}
use calamari.Exec.{Result-cases}
use calamari.Types.{SyncType, SyncObject, Version, Command, Salt, pools_by_id}
use calamari.UserRequest.PgProgress.{advance_goal, set_created_pg_count}
use calamari.UserRequest.{
  State, fresh, submitted, complete, JobReturn, Class, rados, salt_request, osd_map_modifying,
  pool_creating, pg_creating, PoolCreation, PgCreation, Request, Method, Running, submit_commands,
  complete_request, complete_jid, find_pool, found_pool, created_pgs, pool_of, on_osd_map_modifying,
  look_for_pool, on_pool_pgs, on_pool_osd_map, on_pool_version, on_pool_creating, after_creation,
  more_creates, on_created, on_pg_summary, check_pg_num, on_awaited_version, read_back_pg_num,
  on_pg_creating, on_map_of, on_map,
}

-- A request that is complete has no job under way.
abbrev pub IsSettled : Request → Type 0
IsSettled r = r.state ≡ complete → r.jid ≡ none

abbrev pub rank : State → ℕ
rank fresh = 0
rank submitted = 1
rank complete = 2

-- What every method keeps.
pub record Advances (r r' : Request) : Type 0 where
  pub settled : IsSettled r'
  pub onward : rank r.state ≤ rank r'.state
  pub same_id : r'.id ≡ r.id
  pub same_fsid : r'.fsid ≡ r.fsid

-- A method that runs on a submitted request.
abbrev pub Keeps : Method (Unit {0}) → Type 0
Keeps m = (w : Running) → w.self.state ≡ submitted → Advances w.self (m w).1.self

created_pgs_unchanged :
    (so : SyncObject) (pool_id : Option ℕ) (w : Running) → (created_pgs so pool_id w).1 ≡ w
unfolding created_pgs
created_pgs_unchanged so pool_id w = ground arith

pool_of_unchanged : (so : SyncObject) (pool_id : ℕ) (w : Running) → (pool_of so pool_id w).1 ≡ w
unfolding pool_of
pool_of_unchanged so pool_id w = ground arith

module _ (salt : Salt) (t : ℕ) where
  pub complete_request-Keeps : Keeps (complete_request t)
  unfolding complete_request
  complete_request-Keeps w h = ground arith

  pub complete_jid-Keeps : (result : JobReturn) → Keeps (complete_jid t result)
  unfolding complete_jid
  complete_jid-Keeps result w h = ground arith

  on_osd_map_modifying-Keeps :
      (sync_type : SyncType) (so : SyncObject) → Keeps (on_osd_map_modifying salt t sync_type so)
  unfolding on_osd_map_modifying complete_request
  on_osd_map_modifying-Keeps sync_type so w h = ground arith

  look_for_pool-Keeps :
      (commands : List Command) (p : PoolCreation) → Keeps (look_for_pool salt t commands p)
  unfolding look_for_pool complete_request
  look_for_pool-Keeps commands p w h = ground arith

  on_pool_pgs-Keeps :
      (p : PoolCreation) (sync_type : SyncType) (so : SyncObject)
      → Keeps (on_pool_pgs salt t p sync_type so)
  unfolding on_pool_pgs complete_request
  on_pool_pgs-Keeps p sync_type so w h = ground (arith, created_pgs_unchanged so p.pool_id w)

  on_pool_osd_map-Keeps :
      (commands : List Command) (p : PoolCreation) (so : SyncObject)
      → Keeps (on_pool_osd_map salt t commands p so)
  unfolding on_pool_osd_map
  on_pool_osd_map-Keeps commands p so w h = elim (Option-cases (pools_by_id so)) [
    | inl e ↦ rw e (ground arith)
    | inr (d, e) ↦ rw e (look_for_pool-Keeps commands (found_pool (find_pool p.pool_name d) p) w h)
  ]

  on_pool_version-Keeps :
      (commands : List Command) (p : PoolCreation) (sync_type : SyncType) (so : SyncObject)
      (version : Version)
      → Keeps (on_pool_version salt t commands p sync_type so version)
  unfolding on_pool_version
  on_pool_version-Keeps commands p sync_type so version w h =
      ground (arith, on_pool_osd_map-Keeps commands p so w h)

  on_pool_creating-Keeps :
      (commands : List Command) (p : PoolCreation) (sync_type : SyncType) (so : SyncObject)
      → Keeps (on_pool_creating salt t commands p sync_type so)
  unfolding on_pool_creating
  on_pool_creating-Keeps commands p sync_type so w h = ground (
    arith,
    on_pool_pgs-Keeps p sync_type so w h,
    on_pool_version-Keeps commands p sync_type so w.self.await_version w h,
  )

  after_creation-Keeps :
      (commands : List Command) (p : PgCreation) (post : Option (List Command))
      → Keeps (after_creation salt t commands p post)
  unfolding after_creation submit_commands complete_request
  after_creation-Keeps commands p none w h = ground arith
  after_creation-Keeps commands p (some []) w h = ground arith
  after_creation-Keeps commands p (some (c ∷ cs)) w h = ground arith

  more_creates-Keeps :
      (commands : List Command) (p : PgCreation) → Keeps (more_creates salt t commands p)
  unfolding more_creates submit_commands
  more_creates-Keeps commands p w h = elim (Result-cases (advance_goal p.progress)) [
    | inl (q, e) ↦ rw e (ground arith)
    | inr (x, e) ↦ rw e (ground arith)
  ]

  on_created-Keeps :
      (n : ℕ) (commands : List Command) (p : PgCreation) → Keeps (on_created salt t n commands p)
  unfolding on_created
  on_created-Keeps n commands p w h =
      let r = w.self in
      let w' : Running = record w { self = record r { class = pg_creating commands p } } in
      ground (
        arith,
        after_creation-Keeps commands p p.post_create_commands w' h,
        more_creates-Keeps commands p w' h,
      )

  on_pg_summary-Keeps :
      (commands : List Command) (p : PgCreation) (so : SyncObject)
      → Keeps (on_pg_summary salt t commands p so)
  unfolding on_pg_summary
  on_pg_summary-Keeps commands p so w h =
      elim (Result-cases (created_pgs so (some p.pool_id) w).0) [
        | inl (n, e) ↦
            rw (e, created_pgs_unchanged so (some p.pool_id) w)
              (on_created-Keeps n commands
                (record p { progress = set_created_pg_count n p.progress }) w h)
        | inr (x, e) ↦ rw (e, created_pgs_unchanged so (some p.pool_id) w) (ground arith)
      ]

  check_pg_num-Keeps : (p : PgCreation) (so : SyncObject) → Keeps (check_pg_num salt t p so)
  unfolding check_pg_num complete_request
  check_pg_num-Keeps p so w h = ground (arith, pool_of_unchanged so p.pool_id w)

  on_awaited_version-Keeps :
      (commands : List Command) (p : PgCreation) (so : SyncObject)
      → Keeps (on_awaited_version salt t commands p so)
  unfolding on_awaited_version complete_request
  on_awaited_version-Keeps commands p so w h = ground arith

  read_back_pg_num-Keeps :
      (commands : List Command) (p : PgCreation) (so : SyncObject)
      → Keeps (read_back_pg_num salt t commands p so)
  unfolding read_back_pg_num complete_request
  read_back_pg_num-Keeps commands p so w h =
      ground (arith, pool_of_unchanged so p.pool_id w, on_awaited_version-Keeps commands p so w h)

  on_pg_creating-Keeps :
      (commands : List Command) (p : PgCreation) (sync_type : SyncType) (so : SyncObject)
      → Keeps (on_pg_creating salt t commands p sync_type so)
  unfolding on_pg_creating
  on_pg_creating-Keeps commands p sync_type so w h = ground (
    arith,
    read_back_pg_num-Keeps commands p so w h,
    on_pg_summary-Keeps commands p so w h,
    check_pg_num-Keeps p so w h,
  )

  on_map_of-Keeps :
      (c : Class) (sync_type : SyncType) (so : SyncObject) → Keeps (on_map_of salt t c sync_type so)
  unfolding on_map_of
  on_map_of-Keeps (osd_map_modifying commands) y so w h = on_osd_map_modifying-Keeps y so w h
  on_map_of-Keeps (pool_creating commands p) y so w h = on_pool_creating-Keeps commands p y so w h
  on_map_of-Keeps (pg_creating commands p) y so w h = on_pg_creating-Keeps commands p y so w h
  on_map_of-Keeps (rados commands) y so w h = ground arith
  on_map_of-Keeps (salt_request cmd args) y so w h = ground arith

  pub on_map-Keeps : (sync_type : SyncType) (so : SyncObject) → Keeps (on_map salt t sync_type so)
  unfolding on_map
  on_map-Keeps sync_type so w h = on_map_of-Keeps w.self.class sync_type so w h

  -- Whatever map comes, and whether or not the handler raises: `on_map` of a submitted request of
  -- any class leads to a request that has no job under way if it is complete, that is not back in
  -- an earlier state, and that has its id and its cluster.
  pub on_map-Advances :
      (sync_type : SyncType) (so : SyncObject) (w : Running)
      → w.self.state ≡ submitted
      → Advances w.self (on_map salt t sync_type so w).1.self
  on_map-Advances sync_type so w h = on_map-Keeps sync_type so w h
