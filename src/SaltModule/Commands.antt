-- ===== src/SaltModule/Commands.antt =====
-- `rados_commands` and `transform_crushmap`: the commands of a request, one after the other. What a
-- command does to the cluster and what crushtool compiles are parameters.
use calamari.Prelude.{ℕ, Bool, true, false, Option, none, some, List, [], ◌∷◌, ◌++◌, ◌==◌}
use calamari.Exec.{Exec, ok, err, pure, ◌>>=◌, ◌>>◌, require, value_error, runtime_error}
use calamari.Types.{SyncType}
use calamari.SaltModule.Objects.{Ceph, Answer, Version, connect, cluster_status}

-- An item of `commands`: `osd setcrushmap` with the text of a map, or another prefix with arguments.
pub data RadosCommand (Raw Args : Type 0) : Type 0 where
  setcrushmap : (text : Raw) → RadosCommand Raw Args
  other : (prefix : ℕ) (args : Args) → RadosCommand Raw Args

-- How a cluster runs a command; the map that is set comes compiled.
pub record Runs (Cluster Raw Args : Type 0) : Type 0 where
  pub json_command : RadosCommand Raw Args → Cluster → Answer Raw × Cluster
  pub compile : Raw → Answer Raw

pub record Report (Json Digest : Type 0) : Type 0 where
  pub error : Bool
  pub results : List (Option Json)
  pub error_status : Option ℕ
  pub versions : SyncType → Version Json Digest
  pub report_fsid : ℕ

module _ {Cluster Raw Json Digest Args : Type 0} (ceph : Ceph Cluster Raw Json Digest)
    (runs : Runs Cluster Raw Args) where
  abbrev pub json_command : RadosCommand Raw Args → Exec Cluster (Answer Raw)
  json_command command cluster =
      (ok (runs.json_command command cluster).0, (runs.json_command command cluster).1)

  unfoldable pub run_command : RadosCommand Raw Args → Exec Cluster (Answer Raw)
  run_command (setcrushmap text) = do
    require ((runs.compile text).ret == 0) runtime_error
    json_command (setcrushmap (runs.compile text).outbuf)
  run_command (other prefix args) = json_command (other prefix args)

  -- `json.loads(outbuf)`, or None for an empty one
  unfoldable pub output : Raw → Exec Cluster (Option Json)
  output raw cluster = elim (ceph.is_empty_buffer raw) [
    | true ↦ (ok none, cluster)
    | false ↦ elim (ceph.loads raw) [
      | none ↦ (err value_error, cluster)
      | some j ↦ (ok (some j), cluster)
    ]
  ]

  unfoldable pub report :
      ℕ → ℕ → Bool → Option ℕ → List (Option Json) → Exec Cluster (Report Json Digest)
  report id name error error_status results = do
    status ← cluster_status ceph name
    pure (record {
      error = error;
      results = results;
      error_status = error_status;
      versions = status.versions;
      report_fsid = id;
    })

  -- After a command: the report of its failure, or its output and the commands that are left
  unfoldable pub next :
      ℕ
      → ℕ
      → List (Option Json)
      → (List (Option Json) → Exec Cluster (Report Json Digest))
      → Answer Raw
      → Exec Cluster (Report Json Digest)
  unfolding output report
  next id name results go answer cluster = elim (answer.ret == 0) [
    | false ↦ report id name true (some answer.outs) results cluster
    | true ↦ (do result ← output answer.outbuf; go (results ++ result ∷ [])) cluster
  ]

  unfoldable pub run_commands :
      ℕ → ℕ → List (RadosCommand Raw Args) → List (Option Json) → Exec Cluster (Report Json Digest)
  unfolding run_command report next
  run_commands id name [] results = report id name false none results
  run_commands id name (command ∷ commands) results =
      run_command command >>= next id name results (run_commands id name commands)

  unfoldable pub rados_commands :
      ℕ → ℕ → List (RadosCommand Raw Args) → Exec Cluster (Report Json Digest)
  unfolding run_commands
  rados_commands id name commands = do connect ceph; run_commands id name commands []
