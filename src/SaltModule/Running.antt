-- ===== src/SaltModule/Running.antt =====
-- The commands of a request run in their order, up to the first one that fails.
use calamari.Prelude.{
  ℕ, ◌≡◌, refl, sym, ◌∙◌, Bool, true, false, Bool-cases, Option, none, some, List, [], ◌∷◌, ◌++◌,
  ◌==◌, inl, inr,
}
use calamari.Exec.{ok}
use calamari.SaltModule.Objects.{Ceph, Answer, Status, cluster_status}
use calamari.SaltModule.Commands.{
  RadosCommand, setcrushmap, other, Runs, Report, run_command, output, report, next, run_commands,
  rados_commands,
}
use mathlib.Core.List.{append_assoc, append-nil}

module _ {Cluster Raw Json Digest Args : Type 0} (ceph : Ceph Cluster Raw Json Digest)
    (runs : Runs Cluster Raw Args) where
  -- `Outcome c commands error results error_status c'`: from the state c, the commands of which all
  -- but the last that is tried succeed, with their outputs.
  pub data Outcome
      : Cluster
        → List (RadosCommand Raw Args)
        → Bool
        → List (Option Json)
        → Option ℕ
        → Cluster
        → Type 0 where
    all_run : {c : Cluster} → Outcome c [] false [] none c
    failed :
        {c c' : Cluster} {command : RadosCommand Raw Args} {rest : List (RadosCommand Raw Args)}
        {a : Answer Raw}
        → run_command ceph runs command c ≡ (ok a, c')
        → (a.ret == 0) ≡ false
        → Outcome c (command ∷ rest) true [] (some a.outs) c'
    ran :
        {c c₁ c' : Cluster} {command : RadosCommand Raw Args} {rest : List (RadosCommand Raw Args)}
        {a : Answer Raw} {out : Option Json} {error : Bool} {results : List (Option Json)}
        {error_status : Option ℕ}
        → run_command ceph runs command c ≡ (ok a, c₁)
        → (a.ret == 0) ≡ true
        → output ceph runs a.outbuf c₁ ≡ (ok out, c₁)
        → Outcome c₁ rest error results error_status c'
        → Outcome c (command ∷ rest) error (out ∷ results) error_status c'

  module _ (status_of : ℕ → Cluster → Status Json Digest)
      (reports : (name : ℕ) (c : Cluster) → cluster_status ceph name c ≡ (ok (status_of name c), c))
      (compiles : (text : Raw) → (runs.compile text).ret ≡ 0)
      (outputs : (raw : Raw) (c : Cluster)
        → (out : Option Json) × (output ceph runs raw c ≡ (ok out, c))) where
    run_command-ok :
        (command : RadosCommand Raw Args) (c : Cluster)
        → (a : Answer Raw) × (c' : Cluster) × (run_command ceph runs command c ≡ (ok a, c'))
    unfolding run_command
    run_command-ok (setcrushmap text) c =
        let x : RadosCommand Raw Args = setcrushmap (runs.compile text).outbuf in
        ((runs.json_command x c).0, (runs.json_command x c).1, rw (compiles text) refl)
    run_command-ok (other prefix args) c =
        let x : RadosCommand Raw Args = other prefix args in
        ((runs.json_command x c).0, (runs.json_command x c).1, refl)

    report-ok :
        (id name : ℕ) (error : Bool) (st : Option ℕ) (results : List (Option Json)) (c : Cluster)
        → report ceph runs id name error st results c ≡ (
          ok (record {
            error = error;
            results = results;
            error_status = st;
            versions = (status_of name c).versions;
            report_fsid = id;
          }),
          c,
        )
    unfolding report
    report-ok id name error st results c = rw (reports name c) refl

    run_commands-Outcome :
        (id name : ℕ) (commands : List (RadosCommand Raw Args)) (before : List (Option Json))
        (c : Cluster)
        → (r : Report Json Digest) × (c' : Cluster) × (results : List (Option Json)) × (run_commands
              ceph runs id name commands before c
            ≡ (ok r, c'))
          × (r.results ≡ before ++ results)
          × Outcome c commands r.error results r.error_status c'
          × (r.versions ≡ (status_of name c').versions)
          × (r.report_fsid ≡ id)
    unfolding run_commands
    run_commands-Outcome id name [] before c = (
      record {
        error = false;
        results = before;
        error_status = none;
        versions = (status_of name c).versions;
        report_fsid = id;
      },
      c,
      [],
      report-ok id name false none before c,
      sym (append-nil before),
      all_run,
      refl,
      refl,
    )
    run_commands-Outcome id name (command ∷ commands) before c =
        let (a, c₁, e) = run_command-ok command c in
        elim (Bool-cases (a.ret == 0)) [
          | inr bad ↦ (
            record {
              error = true;
              results = before;
              error_status = some a.outs;
              versions = (status_of name c₁).versions;
              report_fsid = id;
            },
            c₁,
            [],
            rw (e, next, bad) (report-ok id name true (some a.outs) before c₁),
            sym (append-nil before),
            failed e bad,
            refl,
            refl,
          )
          | inl good ↦
              let (out, shown) = outputs a.outbuf c₁ in
              let (r, c', results, eq, parts, outcome, v, f) =
                run_commands-Outcome id name commands (before ++ out ∷ []) c₁ in
              (
                r,
                c',
                out ∷ results,
                rw (e, next, good, shown) eq,
                parts ∙ append_assoc before (out ∷ []) results,
                ran e good shown outcome,
                v,
                f,
              )
        ]

    -- Where the cluster answers, its texts compile and its outputs can be read: the call returns, and its
    -- report is the outcome of the commands in their order: the outputs of those before the first that
    -- fails, whether and how one failed, and the versions after the last that was tried.
    pub rados_commands-Outcome :
        (connected : (c : Cluster) → ceph.connects c ≡ true) (id name : ℕ)
        (commands : List (RadosCommand Raw Args)) (c : Cluster)
        → (r : Report Json Digest) × (c' : Cluster) × (rados_commands ceph runs id name commands c
            ≡ (ok r, c'))
          × Outcome c commands r.error r.results r.error_status c'
          × (r.versions ≡ (status_of name c').versions)
          × (r.report_fsid ≡ id)
    unfolding rados_commands
    rados_commands-Outcome connected id name commands c =
        let (r, c', results, eq, parts, outcome, v, f) =
          run_commands-Outcome id name commands [] c in
        (r, c', rw (connected c) eq, rw parts outcome, v, f)
