-- ===== src/TgtManager/Reachable.antt =====
-- What every sequence of calls keeps true of the stored configuration.
use calamari.Prelude.{
  map, ℕ, ◌≡◌, refl, Bool, Bool-cases, Option, Option-cases, none, some, List, [], is_empty, arith,
  inl, inr, ◌⊎◌,
}
use calamari.Exec.{Exception, Result-cases, ok, err, ◌>>◌, config_error}
use calamari.Exec.Rules.{Keeps}
use calamari.TgtManager.Conf.{
  Env, strip_target, strip_conf, TargetConf, TgtConf, Call, write_system_conf, conf_lines, execute,
  delete_target, update_target, Store, Io, default_conf, load_conf, save_conf, targets_are_valid,
  call, try_call,
}
use calamari.TgtManager.Targets.{
  has_iqn, find_target, get_target_conf, store_conf, set_target_conf, create_target, remove_by,
}
use calamari.TgtManager.Target.{change_target}
use calamari.TgtManager.Distinct.{
  IsDistinct, strip-IsDistinct, append-IsDistinct, remove_target-IsDistinct,
}
use calamari.TgtManager.Fitting.{Fits, replace_target-IsDistinct}

-- The targets that are stored, as a load gives them
abbrev pub targets_of : Env → Option TgtConf → List TargetConf
targets_of env none = []
targets_of env (some conf) = map (strip_target env) conf.target_list

abbrev pub IsSound : Env → Store → Type 0
IsSound env s = IsDistinct (targets_of env s.file)

-- A method that leaves the file alone, and one that returns what is in it
abbrev pub SameFile : {A : Type 0} → Io A → Type 0
SameFile m = (s : Store) → (m s).1.file ≡ s.file

pub SameFile-Keeps : (env : Env) {A : Type 0} (m : Io A) → SameFile m → Keeps (IsSound env) m
SameFile-Keeps env m same s h = rw (same s) h

-- What `load_conf` gives: the targets that are stored, in the same state, or a ConfigError
pub load_conf-targets :
    (env : Env) (s : Store)
    → ((conf : TgtConf) × (load_conf env s ≡ (ok conf, s))
        × (conf.target_list ≡ targets_of env s.file))
      ⊎ ((e : Exception) × (load_conf env s ≡ (err e, s)))
unfolding load_conf
load_conf-targets env s = elim (Option-cases s.file) [
  | inl e ↦ inl (default_conf, rw e refl, rw e refl)
  | inr (conf, e) ↦ elim (Bool-cases (targets_are_valid conf.target_list)) [
    | inl v ↦ inl (strip_conf env conf, rw (e, v) refl, rw e refl)
    | inr v ↦ inr (config_error, rw (e, v) refl)
  ]
]

module _ (env : Env) where
  pub call-SameFile : (c : Call) → SameFile (call env c)
  unfolding call
  call-SameFile c s = elim (Option-cases (env.fails c)) [
    | inl e ↦ rw (call, e) refl
    | inr (x, e) ↦ rw (call, e) refl
  ]

  pub try_call-SameFile : (c : Call) → SameFile (try_call env c)
  unfolding try_call call
  try_call-SameFile c s = elim (Option-cases (env.fails c)) [
    | inl e ↦ rw (call, e) refl
    | inr (x, e) ↦ rw (call, e) refl
  ]

  -- The file that is stored stays, whatever follows that leaves it alone.
  store_conf-IsSound :
      (conf : TgtConf) (n : Io (Unit {0}))
      → IsDistinct conf.target_list
      → SameFile n
      → (s : Store) → IsSound env ((store_conf env conf >> n) s).1
  unfolding store_conf save_conf
  store_conf-IsSound conf n h same s =
      let saved : Store = record s { file = some conf } in
      let c : Call = write_system_conf (conf_lines conf) in
      let kept : IsSound env (call env c saved).1 =
        rw (call-SameFile c saved) (strip-IsDistinct env conf.target_list h) in
      elim (Result-cases (call env c saved).0) [
        | inl (u, e) ↦ rw (e) (SameFile-Keeps env n same (call env c saved).1 kept)
        | inr (x, e) ↦ rw (e) kept
      ]

  pub create_target-Keeps : (iqn : ℕ) → Keeps (IsSound env) (create_target env iqn)
  unfolding create_target
  create_target-Keeps iqn s h = elim (load_conf-targets env s) [
    | inr (x, e) ↦ rw (create_target, e) h
    | inl (conf, e, t) ↦ elim (Option-cases (find_target (has_iqn iqn) conf.target_list)) [
      | inr (old, f) ↦ rw (create_target, e, f) h
      | inl f ↦
          rw (create_target, e, f)
            (store_conf-IsSound _ (try_call env execute)
              (append-IsDistinct (env.strip iqn) conf.target_list (rw t h))
              (try_call-SameFile execute) s)
    ]
  ]

  pub remove_by-Keeps : (test : TargetConf → Bool) → Keeps (IsSound env) (remove_by env test)
  unfolding remove_by
  remove_by-Keeps test s h = elim (load_conf-targets env s) [
    | inr (x, e) ↦ rw (remove_by, e) h
    | inl (conf, e, t) ↦ elim (Option-cases (find_target test conf.target_list)) [
      | inl f ↦ rw (remove_by, e, f) h
      | inr (old, f) ↦ elim (Bool-cases (is_empty old.lun_list)) [
        | inr full ↦ rw (remove_by, e, f, full) h
        | inl bare ↦
            rw (remove_by, e, f, bare)
              (store_conf-IsSound _ (try_call env (delete_target old.iqn))
                (remove_target-IsDistinct test conf.target_list (rw t h))
                (try_call-SameFile (delete_target old.iqn)) s)
      ]
    ]
  ]

  pub set_target_conf-IsSound :
      (iqn : ℕ) (new : TargetConf) (n : Io (Unit {0}))
      → SameFile n
      → (s : Store) → IsSound env s
      → ((old : TargetConf)
          → find_target (has_iqn iqn) (targets_of env s.file) ≡ some old
          → Fits (targets_of env s.file) old new)
      → IsSound env ((set_target_conf env iqn new >> n) s).1
  unfolding set_target_conf
  set_target_conf-IsSound iqn new n same s h fits = elim (load_conf-targets env s) [
    | inr (x, e) ↦ rw (set_target_conf, e) h
    | inl (conf, e, t) ↦ elim (Option-cases (find_target (has_iqn iqn) conf.target_list)) [
      | inl f ↦ rw (set_target_conf, e, f) h
      | inr (old, f) ↦
          rw (set_target_conf, e, f)
            (store_conf-IsSound _ n
              (replace_target-IsDistinct (has_iqn iqn) old new conf.target_list f
                (rw t (fits old (rw t at f))))
              same s)
    ]
  ]

  pub change_target-Keeps :
      (iqn : ℕ) (change : TargetConf → Io TargetConf)
      → ((old : TargetConf) (s : Store)
          → IsSound env s
          → find_target (has_iqn iqn) (targets_of env s.file) ≡ some old
          → ((change old s).1.file ≡ s.file)
            × ((new : TargetConf)
                → (change old s).0 ≡ ok new
                → Fits (targets_of env s.file) old new))
      → Keeps (IsSound env) (change_target env iqn change)
  unfolding change_target get_target_conf
  change_target-Keeps iqn change fit s h = elim (load_conf-targets env s) [
    | inr (x, e) ↦ rw (change_target, get_target_conf, e) h
    | inl (conf, e, t) ↦ elim (Option-cases (find_target (has_iqn iqn) conf.target_list)) [
      | inl f ↦ rw (change_target, get_target_conf, e, f) h
      | inr (old, f) ↦
          let (same, fits) = fit old s h (rw t at f) in
          elim (Result-cases (change old s).0) [
            | inr (x, r) ↦ rw (change_target, get_target_conf, e, f, r) (rw same h)
            | inl (new, r) ↦
                rw (change_target, get_target_conf, e, f, r)
                  (set_target_conf-IsSound iqn new (try_call env (update_target iqn))
                    (try_call-SameFile (update_target iqn)) (change old s).1 (rw same h)
                    (λ old' f'.
                      let first : find_target (has_iqn iqn) (targets_of env s.file) ≡ some old =
                        rw t at f in
                      let again : find_target (has_iqn iqn) (targets_of env s.file) ≡ some old' =
                        rw same at f' in
                      let k : old ≡ old' = ground (arith, first, again) in
                      rw (same, ← k) (fits new r)))
          ]
    ]
  ]
