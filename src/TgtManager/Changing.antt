-- ===== src/TgtManager/Changing.antt =====
-- The methods that change one target keep the ids and the LUNs' numbers distinct.
use calamari.Prelude.{
  ℕ, ◌≡◌, refl, ap, Bool, Bool-cases, Option, Option-cases, none, some, List, [], ◌∷◌, ◌++◌, ◌==◌,
  arith, inl, inr,
}
use calamari.Exec.{Result-cases, ok, pure, require, or_raise, ◌>>=◌, ◌>>◌, plain_exception}
use calamari.Exec.Rules.{Keeps}
use calamari.TgtManager.Conf.{
  Env, strip_lun, Lun, User, TargetConf, Call, rbd_create, rbd_resize, Store, call, lun_is_valid,
}
use calamari.TgtManager.Targets.{generate_id, all_luns}
use calamari.TgtManager.Target.{change_target}
use calamari.TgtManager.Luns.{
  any_lun, has_name, has_number, is_used, is_taken, resize, find_lun, remove_lun, changed, NewLun,
  new_lun, add_lun, Changes, other_lun, set_lun, lun_of, numbers, rbd_type,
}
use calamari.TgtManager.Distinct.{count_luns}
use calamari.TgtManager.Fitting.{Fits, same-Fits, add-Fits, count_luns-find_lun}
use calamari.TgtManager.Reachable.{
  IsSound, targets_of, load_conf-targets, call-SameFile, change_target-Keeps,
}

module _ (env : Env) where
  -- A change that leaves the name, the id and the LUNs alone
  pub plain-Keeps :
      (iqn : ℕ) (change : TargetConf → TargetConf)
      → ((t : TargetConf) → (change t).id ≡ t.id)
      → ((t : TargetConf) → (change t).lun_list ≡ t.lun_list)
      → Keeps (IsSound env) (change_target env iqn (λ t. pure (change t)))
  plain-Keeps iqn change d l =
      change_target-Keeps env iqn (λ t. pure (change t))
        (λ old s h f. (
          refl,
          λ new e.
              let k : change old ≡ new = ground (arith, e) in
              rw (← k) (
                same-Fits (targets_of env s.file) old (change old) h (d old)
                  (λ n. ap {B = ℕ} (count_luns n) (l old))),
        ))

  -- The same behind a test of the target, and with an entry of a list of users
  pub guarded-Keeps :
      (iqn : ℕ) (test : TargetConf → Bool) (change : TargetConf → TargetConf)
      → ((t : TargetConf) → (change t).id ≡ t.id)
      → ((t : TargetConf) → (change t).lun_list ≡ t.lun_list)
      → Keeps
          (IsSound env)
          (change_target env iqn (λ t. do require (test t) plain_exception; pure (change t)))
  guarded-Keeps iqn test change d l = change_target-Keeps env iqn _ (λ old s h f.
      elim (Bool-cases (test old)) [
        | inr no₁ ↦ (rw no₁ refl, λ new e. absurd (ground (arith, rw no₁ at e)))
        | inl yes₁ ↦ (
          rw yes₁ refl,
          λ new e.
              let k : change old ≡ new = ground (arith, rw yes₁ at e) in
              rw (← k) (
                same-Fits (targets_of env s.file) old (change old) h (d old)
                  (λ n. ap {B = ℕ} (count_luns n) (l old))),
        )
      ])

  pub user-Keeps :
      (iqn : ℕ) (user : TargetConf → Option User) (change : TargetConf → User → TargetConf)
      → ((t : TargetConf) (u : User) → (change t u).id ≡ t.id)
      → ((t : TargetConf) (u : User) → (change t u).lun_list ≡ t.lun_list)
      → Keeps
          (IsSound env)
          (change_target env iqn (λ t. do u ← or_raise plain_exception (user t); pure (change t u)))
  user-Keeps iqn user change d l = change_target-Keeps env iqn _ (λ old s h f.
      elim (Option-cases (user old)) [
        | inl no₁ ↦ (rw no₁ refl, λ new e. absurd (ground (arith, rw no₁ at e)))
        | inr (u, yes₁) ↦ (
          rw yes₁ refl,
          λ new e.
              let k : change old u ≡ new = ground (arith, rw yes₁ at e) in
              rw (← k) (
                same-Fits (targets_of env s.file) old (change old u) h (d old u)
                  (λ n. ap {B = ℕ} (count_luns n) (l old u))),
        )
      ])

  new_lun-Fits :
      (iqn : ℕ) (x : NewLun) (old : TargetConf) (s : Store)
      → IsSound env s
      → ((new_lun env iqn x old s).1.file ≡ s.file)
        × ((new : TargetConf)
            → (new_lun env iqn x old s).0 ≡ ok new
            → Fits (targets_of env s.file) old new)
  unfolding new_lun
  new_lun-Fits iqn x old s h = elim (load_conf-targets env s) [
    | inr (y, e) ↦ (rw (new_lun, e) refl, λ new r. absurd (ground (arith, rw (new_lun, e) at r)))
    | inl (conf, e, t) ↦ elim (Bool-cases (any_lun (has_name x.name) old.lun_list)) [
      | inl a ↦ (rw (new_lun, e, a) refl, λ new r. absurd (ground (arith, rw (new_lun, e, a) at r)))
      | inr a ↦ elim (Bool-cases (is_used x.pool x.image old.lun_list)) [
        | inl b ↦ (
          rw (new_lun, e, a, b) refl,
          λ new r. absurd (ground (arith, rw (new_lun, e, a, b) at r)),
        )
        | inr b ↦
            let c : Call = rbd_create x.pool x.image x.size in
            let same = call-SameFile env c s in
            elim (Result-cases (call env c s).0) [
              | inr (y, k) ↦ (
                rw (new_lun, e, a, b, k) same,
                λ new r. absurd (ground (arith, rw (new_lun, e, a, b, k) at r)),
              )
              | inl (u, k) ↦ (
                rw (new_lun, e, a, b, k) same,
                λ new r.
                    let l : Lun =
                      strip_lun env
                        (lun_of (generate_id (numbers (all_luns conf.target_list))) iqn x) in
                    let made : TargetConf = record old { lun_list = old.lun_list ++ l ∷ [] } in
                    let q : made ≡ new = ground (arith, rw (new_lun, e, a, b, k) at r) in
                    rw (← q) (
                      add-Fits (targets_of env s.file) old l h
                        (ap {B = ℕ} (λ ts. generate_id (numbers (all_luns ts))) t)),
              )
            ]
      ]
    ]
  ]

  other_lun-Fits :
      (number : ℕ) (x : Changes) (old : TargetConf) (s : Store)
      → IsSound env s
      → ((other_lun env number x old s).1.file ≡ s.file)
        × ((new : TargetConf)
            → (other_lun env number x old s).0 ≡ ok new
            → Fits (targets_of env s.file) old new)
  unfolding other_lun
  other_lun-Fits number x old s h =
      elim (Option-cases (find_lun (has_number number) old.lun_list)) [
        | inl f ↦ (rw (other_lun, f) refl, λ new r. absurd (ground (arith, rw (other_lun, f) at r)))
        | inr (l, f) ↦
            let same : (resize env l x.new_size s).1.file ≡ s.file =
              resize-SameFile l x.new_size s in
            let rest : List Lun = remove_lun (has_number number) old.lun_list in
            elim (Result-cases (resize env l x.new_size s).0) [
              | inr (y, k) ↦ (
                rw (other_lun, f, k) same,
                λ new r. absurd (ground (arith, rw (other_lun, f, k) at r)),
              )
              | inl (u, k) ↦ elim (Bool-cases (is_taken env x.new_name rest)) [
                | inl a ↦ (
                  rw (other_lun, f, k, a) same,
                  λ new r. absurd (ground (arith, rw (other_lun, f, k, a) at r)),
                )
                | inr a ↦ elim (Bool-cases (lun_is_valid (changed x l))) [
                  | inr b ↦ (
                    rw (other_lun, f, k, a, b) same,
                    λ new r. absurd (ground (arith, rw (other_lun, f, k, a, b) at r)),
                  )
                  | inl b ↦ (
                    rw (other_lun, f, k, a, b) same,
                    λ new r.
                        let made : TargetConf = record old {
                          lun_list = rest ++ strip_lun env (changed x l) ∷ [];
                        } in
                        let q : made ≡ new = ground (arith, rw (other_lun, f, k, a, b) at r) in
                        rw (← q) (
                          same-Fits (targets_of env s.file) old made h refl (λ n.
                            count_luns-find_lun n (has_number number) l
                              (strip_lun env (changed x l)) old.lun_list f refl)),
                  )
                ]
              ]
            ]
      ]
    where
      resize-SameFile :
          (l : Lun) (size : Option ℕ) (s : Store) → (resize env l size s).1.file ≡ s.file
      resize-SameFile l none s = refl
      resize-SameFile l (some size) s = call-SameFile env (rbd_resize l.pool l.image size) s

  pub add_lun-Keeps : (iqn : ℕ) (x : NewLun) → Keeps (IsSound env) (add_lun env iqn x)
  unfolding add_lun
  add_lun-Keeps iqn x s h = elim (Bool-cases (lun_is_valid (lun_of 1 iqn x))) [
    | inr v ↦ rw (add_lun, v) h
    | inl v ↦ elim (Bool-cases (x.bs_type == rbd_type)) [
      | inr b ↦ rw (add_lun, v, b) h
      | inl b ↦
          rw (add_lun, v, b)
            (change_target-Keeps env iqn (new_lun env iqn x)
              (λ old s' h' f. new_lun-Fits iqn x old s' h') s h)
    ]
  ]

  pub set_lun-Keeps :
      (iqn number : ℕ) (x : Changes) → Keeps (IsSound env) (set_lun env iqn number x)
  unfolding set_lun
  set_lun-Keeps iqn number x =
      change_target-Keeps env iqn (other_lun env number x)
        (λ old s h f. other_lun-Fits number x old s h)
