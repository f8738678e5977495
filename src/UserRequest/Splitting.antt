-- ===== src/UserRequest/Splitting.antt =====
-- A PgCreatingRequest from its construction to its end.
use calamari.Prelude.{
  ℕ, suc, ◌+◌, ◌*◌, ◌≤◌, ◌<◌, min, ◌≡◌, ◌≢◌, refl, false, some, List, [], ◌∷◌, ◌++◌, ◌↔◌, arith,
  String,
}
use calamari.Prelude.Int.{sub_ℕ}
use calamari.Exec.{Result, ok, err, assertion_error}
use calamari.Types.{Command, Job, SyncObject, Salt}
use calamari.UserRequest.PgProgress.{PgProgress, is_complete, new_progress, advance_goal}
use calamari.UserRequest.{
  jid_wait, PgCreation, pg_creating, Request, new_request, new_pg_creating, set_pg_num, set_pgp_num,
  Running, submit, submit_class, submit_commands, start_job,
}
use calamari.UserRequest.Growth.{Obedient}
use calamari.UserRequest.Rounds.{rounds, Plan, Growing, Finished, job, planned, grows}

module _ (salt : Salt) (t v : ℕ) (osds pgs : ℕ → SyncObject)
    (answers : (s : List Job) (x : Job) → (j : ℕ) × (salt s x ≡ some j))
    (id fsid pool_id pgp_num initial final block minion : ℕ) (name : String)
    (commands : List Command) (sent : List Job) where
  abbrev pub pool : Plan
  pool = record {
    minion = some minion;
    fsid = some fsid;
    pool_id = pool_id;
    name = name;
    final = final;
    block = block;
    first = set_pgp_num name pgp_num;
    others = [];
  }

  abbrev pub first_goal : ℕ
  first_goal = min final (initial + block)

  abbrev pub first_sent : List Job
  first_sent = job pool (commands ++ set_pg_num name first_goal ∷ []) ∷ sent

  progress : PgProgress
  progress = record {
    initial = initial;
    final = final;
    block_size = block;
    still_to_create = sub_ℕ final initial;
    intermediate_goal = first_goal;
  }

  creation : PgCreation
  unfolding progress
  creation = record {
    pool_id = pool_id;
    pool_name = name;
    phase = jid_wait;
    progress = progress;
    post_create_commands = some (set_pgp_num name pgp_num ∷ []);
  }

  all_commands : List Command
  all_commands = commands ++ set_pg_num name first_goal ∷ []

  request : Request
  unfolding creation progress all_commands new_request
  request = new_request id (some fsid) (pg_creating all_commands creation)

  new_progress_eq : initial ≢ final → new_progress initial final block ≡ ok progress
  unfolding new_progress advance_goal progress
  new_progress_eq ne = ground arith

  created :
      initial ≢ final
      → new_pg_creating id fsid commands pool_id name pgp_num initial final block ≡ ok request
  unfolding new_pg_creating new_request new_progress advance_goal request creation progress
      all_commands
  created ne = ground arith

  not_complete : initial ≢ final → is_complete progress ≡ false
  unfolding progress
  not_complete ne = ground arith

  after_submit : Result (Unit {0}) × Running
  unfolding request
  after_submit = submit salt t minion (record { self = request; sent = sent })

  -- From its submission to a cluster that does as it is asked.
  growing :
      initial ≢ final
      → (after_submit.0 ≡ ok tt) × Growing pool first_goal false first_sent after_submit.1
  unfolding after_submit submit submit_class submit_commands start_job request creation progress
      all_commands new_request
  growing ne =
      let (j, answered) = answers sent (job pool (commands ++ set_pg_num name first_goal ∷ [])) in
      rw answered (
        refl,
        record {
          commands = all_commands;
          creation = creation;
          class = refl;
          phase = refl;
          open_ = refl;
          fine = refl;
          on_minion = refl;
          in_cluster = refl;
          of_pool = refl;
          of_name = refl;
          post = refl;
          to_final = refl;
          by_block = refl;
          at_goal = refl;
          seen = not_complete ne;
          jobs = refl;
        },
      )

  -- A PgCreatingRequest from a pool's `initial` number of placement groups to another number
  -- `final`, with blocks of `block`, where `n + 1` blocks are enough, is constructed and submitted
  -- without an exception. Let salt start every job, and let the cluster do as it is asked: the
  -- running job ends, then an OSD map comes with the number of placement groups that it asked for,
  -- then, if the request is not complete, a summary by which all of them are created. After `n + 2`
  -- such rounds the request is complete without an error and without a job, and it has sent exactly
  -- the jobs planned: one for each block, each asking for one more block but never for more than
  -- `final`, and then, once, the one that sets `pgp_num`.
  pub pg_creation-completes :
      (n : ℕ)
      → 0 < v
      → Obedient pool_id v osds pgs
      → initial ≢ final
      → final ≤ initial + suc n * block
      → (r : Request) × (new_pg_creating id fsid commands pool_id name pgp_num initial final block
          ≡ ok r)
        × (let (result, w) = submit salt t minion (record { self = r; sent = sent }) in
            (result ≡ ok tt)
            × Finished
                (planned pool n first_goal first_sent)
                (rounds salt t v osds pgs (suc (suc n)) w))
  unfolding after_submit
  pg_creation-completes n positive obedient ne enough =
      let (fine, g) = growing ne in
      let le : first_goal ≤ final = ground arith in
      let far : final ≤ first_goal + n * block = ground arith in
      (
        request,
        created ne,
        (
          fine,
          grows salt t v osds pgs pool obedient positive answers n first_goal first_sent _ le far g,
        ),
      )

-- Constructing a PgCreatingRequest raises, with an AssertionError, exactly if the pool is to keep
-- its number of placement groups; the constructor's own test for that case is never reached.
pub new_pg_creating-raises :
    (id fsid pool_id pgp_num initial final block : ℕ) (name : String) (commands : List Command)
    → (new_pg_creating id fsid commands pool_id name pgp_num initial final block
        ≡ err assertion_error)
      ↔ (initial ≡ final)
unfolding new_pg_creating new_progress advance_goal
new_pg_creating-raises id fsid pool_id pgp_num initial final block name commands = ground arith
