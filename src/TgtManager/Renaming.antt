-- ===== src/TgtManager/Renaming.antt =====
-- `update_target_iqn` and `del_lun` keep the stored ids and LUNs' numbers distinct.
use calamari.Prelude.{
  ℕ, ◌≡◌, refl, ◌∙◌, Bool, true, false, not, Option-cases, some, map, arith, inl, inr,
}
use calamari.Exec.{Result-cases, when, ◌>>◌}
use calamari.Exec.Rules.{Keeps}
use calamari.TgtManager.Conf.{
  Env, Lun, TargetConf, TgtConf, delete_target, update_target, rbd_remove, Store, Io, call,
  try_call,
}
use calamari.TgtManager.Targets.{has_iqn, find_target, get_target_conf, all_luns}
use calamari.TgtManager.Target.{update_target_iqn}
use calamari.TgtManager.Luns.{
  any_lun, shares, has_number, find_last_lun, remove_lun, same_lun, del_lun,
}
use calamari.TgtManager.Fitting.{Fits, rename-Fits, remove_lun-Fits}
use calamari.TgtManager.Reachable.{
  IsSound, SameFile, targets_of, load_conf-targets, call-SameFile, try_call-SameFile,
  set_target_conf-IsSound,
}

abbrev renamed : ℕ → TargetConf → TargetConf
renamed iqn t = record t {
  iqn = iqn;
  lun_list = map (λ (l : Lun). record l { iqn = iqn }) t.lun_list;
}

abbrev without : (Lun → Bool) → TargetConf → TargetConf
without test t = record t { lun_list = remove_lun test t.lun_list }

module _ (env : Env) where
  then-SameFile : (m n : Io (Unit {0})) → SameFile m → SameFile n → SameFile {A = Unit {0}} (m >> n)
  then-SameFile m n a b s = elim (Result-cases (m s).0) [
    | inl (u, e) ↦ rw e (b (m s).1 ∙ a s)
    | inr (x, e) ↦ rw e (a s)
  ]

  when-SameFile : (b : Bool) (m : Io (Unit {0})) → SameFile m → SameFile (when b m)
  when-SameFile true m a s = a s
  when-SameFile false m a s = refl

  -- The target that is found again is the one that was found.
  found_again :
      (iqn : ℕ) (s : Store) (conf : TgtConf) (t old new : TargetConf)
      → conf.target_list ≡ targets_of env s.file
      → find_target (has_iqn iqn) conf.target_list ≡ some t
      → find_target (has_iqn iqn) (targets_of env s.file) ≡ some old
      → Fits (targets_of env s.file) t new
      → Fits (targets_of env s.file) old new
  found_again iqn s conf t old new same first again fits =
      let once : find_target (has_iqn iqn) (targets_of env s.file) ≡ some t = rw same at first in
      let k : t ≡ old = ground (arith, once, again) in rw (← k) fits

  pub update_target_iqn-Keeps :
      (iqn new_iqn : ℕ) → Keeps (IsSound env) (update_target_iqn env iqn new_iqn)
  unfolding update_target_iqn get_target_conf
  update_target_iqn-Keeps iqn new_iqn s h = elim (load_conf-targets env s) [
    | inr (x, e) ↦ rw (update_target_iqn, get_target_conf, e) h
    | inl (conf, e, t) ↦ elim (Option-cases (find_target (has_iqn iqn) conf.target_list)) [
      | inl f ↦ rw (update_target_iqn, get_target_conf, e, f) h
      | inr (old, f) ↦ elim (Option-cases (find_target (has_iqn new_iqn) conf.target_list)) [
        | inr (other, g) ↦ rw (update_target_iqn, get_target_conf, e, f, e, g) h
        | inl g ↦
            let rest : Io (Unit {0}) =
              call env (delete_target iqn) >> try_call env (update_target new_iqn) in
            rw (update_target_iqn, get_target_conf, e, f, e, g)
              (set_target_conf-IsSound env iqn _ rest
                (then-SameFile _ _ (call-SameFile env (delete_target iqn))
                  (try_call-SameFile env (update_target new_iqn)))
                s h
                (λ o again.
                  found_again iqn s conf old o (renamed new_iqn old) t f again
                    (rename-Fits (targets_of env s.file) old new_iqn h)))
      ]
    ]
  ]

  pub del_lun-Keeps : (iqn number : ℕ) → Keeps (IsSound env) (del_lun env iqn number)
  unfolding del_lun get_target_conf
  del_lun-Keeps iqn number s h = elim (load_conf-targets env s) [
    | inr (x, e) ↦ rw (del_lun, get_target_conf, e) h
    | inl (conf, e, t) ↦ elim (Option-cases (find_target (has_iqn iqn) conf.target_list)) [
      | inl f ↦ rw (del_lun, get_target_conf, e, f) h
      | inr (old, f) ↦ elim (Option-cases (find_last_lun (has_number number) old.lun_list)) [
        | inl g ↦ rw (del_lun, get_target_conf, e, f, e, g) h
        | inr (l, g) ↦
            let again : Bool = not (any_lun (shares env l) (all_luns conf.target_list)) in
            let rest : Io (Unit {0}) =
              try_call env (update_target iqn)
              >> when again (call env (rbd_remove l.pool l.image)) in
            rw (del_lun, get_target_conf, e, f, e, g)
              (set_target_conf-IsSound env iqn _ rest
                (then-SameFile _ _ (try_call-SameFile env (update_target iqn))
                  (when-SameFile again _ (call-SameFile env (rbd_remove l.pool l.image))))
                s h
                (λ o twice.
                  found_again iqn s conf old o (without (same_lun l) old) t f twice
                    (remove_lun-Fits (targets_of env s.file) old (same_lun l) h)))
      ]
    ]
  ]
