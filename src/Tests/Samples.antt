-- ===== src/Tests/Samples.antt =====
-- A cluster, some requests and a salt master that starts every job.
use calamari.Prelude.{ℕ, ◌+◌, ◌≡◌, refl, false, Option, none, some, List, [], ◌∷◌, length}
use calamari.Types.{Pool, SyncObject, osd_map_data, pg_summary_data, Command, text, Job, Salt}
use calamari.Types.Text.{codes}
use calamari.UserRequest.{State, Request, osd_map_modifying, empty}

-- The jobs are numbered from 1.
abbrev pub always : Salt
always sent job = some (length sent + 1)

pub answered : (s : List Job) (x : Job) → (j : ℕ) × (always s x ≡ some j)
answered s x = (length s + 1, refl)

abbrev pub data_pool : ℕ → Pool
data_pool pg_num = record { pool = 3; pool_name = "data"; pg_num = pg_num; size = 3; min_size = 2 }

-- Epoch 5 of the OSD map.
abbrev pub osds : ℕ → SyncObject
osds pg_num = record { version = some 5; contents = some (osd_map_data [] (data_pool pg_num ∷ [])) }

abbrev pub pgs : ℕ → SyncObject
pgs pg_num = record {
  version = some 1;
  contents = some (pg_summary_data ((3, (codes "active+clean", pg_num) ∷ []) ∷ []));
}

abbrev pub create_pool : List Command
create_pool = ("osd pool create", ("pool", text "data") ∷ []) ∷ []

-- A request of the cluster 1.
abbrev pub request : ℕ → State → Option ℕ → Option ℕ → Request
request id state jid await_version = record {
  id = id;
  fsid = some 1;
  minion_id = some 2;
  jid = jid;
  state = state;
  result = none;
  error = false;
  error_message = empty;
  alive_at = some 100;
  completed_at = none;
  await_version = await_version;
  class = osd_map_modifying create_pool;
}
