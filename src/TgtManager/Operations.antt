-- ===== src/TgtManager/Operations.antt =====
-- Sequences of calls of TgtManager and of Target, from a machine without a configuration.
use calamari.Prelude.{
  false, true, ◌∙◌, ℕ, refl, Bool, Option, Option-cases, none, some, List, [], ◌∷◌, arith, inl, inr,
}
use calamari.Exec.Rules.{Keeps}
use calamari.TgtManager.Conf.{
  Env, write_system_conf, conf_lines, default_conf, load_conf, offline, ready, Call, Store, Io,
}
use calamari.TgtManager.Targets.{
  sync, system_restore, create_target, remove_target_by_iqn, remove_target_by_id,
}
use calamari.TgtManager.Target.{
  set_state, set_initiator_addr_list, del_initiator_addr, set_initiator_name_list,
  del_initiator_name, set_incominguser, del_incominguser, set_outgoinguser, del_outgoinguser,
  update_target_iqn,
}
use calamari.TgtManager.Luns.{NewLun, add_lun, Changes, set_lun, del_lun}
use calamari.TgtManager.Reachable.{
  IsSound, SameFile, SameFile-Keeps, load_conf-targets, call-SameFile, create_target-Keeps,
  remove_by-Keeps,
}
use calamari.TgtManager.Renaming.{update_target_iqn-Keeps, del_lun-Keeps}
use calamari.TgtManager.Changing.{
  plain-Keeps, guarded-Keeps, user-Keeps, add_lun-Keeps, set_lun-Keeps,
}

pub data Operation : Type 0 where
  create remove_by_iqn remove_by_id : ℕ → Operation
  set_addrs set_names : (iqn : ℕ) (list : List ℕ) → Operation
  del_addr del_name del_incoming del_outgoing : (iqn item : ℕ) → Operation
  set_incoming set_outgoing : (iqn name passwd : ℕ) → Operation
  add : (iqn : ℕ) (lun : NewLun) → Operation
  set : (iqn number : ℕ) (changes : Changes) → Operation
  rename del : (iqn item : ℕ) → Operation
  switch : (iqn : ℕ) (state : Option Bool) → Operation
  sync_all restore : Operation

module _ (env : Env) where
  abbrev pub run : Operation → Io (Unit {0})
  run (create iqn) = create_target env iqn
  run (remove_by_iqn iqn) = remove_target_by_iqn env iqn
  run (remove_by_id id) = remove_target_by_id env id
  run (set_addrs iqn list) = set_initiator_addr_list env iqn list
  run (set_names iqn list) = set_initiator_name_list env iqn list
  run (del_addr iqn ip) = del_initiator_addr env iqn ip
  run (del_name iqn name) = del_initiator_name env iqn name
  run (del_incoming iqn name) = del_incominguser env iqn name
  run (del_outgoing iqn name) = del_outgoinguser env iqn name
  run (set_incoming iqn name passwd) = set_incominguser env iqn name passwd
  run (set_outgoing iqn name passwd) = set_outgoinguser env iqn name passwd
  run (add iqn lun) = add_lun env iqn lun
  run (set iqn number changes) = set_lun env iqn number changes
  run (rename iqn new_iqn) = update_target_iqn env iqn new_iqn
  run (del iqn number) = del_lun env iqn number
  run (switch iqn state) = set_state env iqn state
  run sync_all = sync env
  run restore = system_restore env

  -- One after the other, whether they raise or not
  abbrev pub runs : List Operation → Store → Store
  runs [] s = s
  runs (o ∷ os) s = runs os (run o s).1

  set_state-Keeps : (iqn : ℕ) (state : Option Bool) → Keeps (IsSound env) (set_state env iqn state)
  unfolding set_state
  set_state-Keeps iqn none s h = h
  set_state-Keeps iqn (some false) s h = rw (call-SameFile env (offline iqn) s) h
  set_state-Keeps iqn (some true) s h = rw (call-SameFile env (ready iqn) s) h

  sync-SameFile : SameFile (sync env)
  unfolding sync
  sync-SameFile s = elim (Option-cases s.file) [
    | inl e ↦ simp (sync, e) refl
    | inr (stored, e) ↦ elim (load_conf-targets env s) [
      | inr (x, f) ↦ simp (sync, e, f) refl
      | inl (conf, f, t) ↦
          let c : Call = write_system_conf (conf_lines conf) in
          simp (sync, e, f) (call-SameFile env c s ∙ e)
    ]
  ]

  system_restore-Keeps : Keeps (IsSound env) (system_restore env)
  unfolding system_restore load_conf
  system_restore-Keeps s h = elim (Option-cases s.file) [
    | inl e ↦ simp (system_restore, e) (λ n. ground arith)
    | inr (stored, e) ↦
        let empty : Store = record s { file = none } in
        let c : Call = write_system_conf (conf_lines default_conf) in
        simp (system_restore, e) (rw (call-SameFile env c empty) (λ n. ground arith))
  ]

  pub run-Keeps : (o : Operation) → Keeps (IsSound env) (run o)
  unfolding set_initiator_addr_list del_initiator_addr set_initiator_name_list del_initiator_name
      set_incominguser del_incominguser set_outgoinguser del_outgoinguser
  run-Keeps (create iqn) = create_target-Keeps env iqn
  run-Keeps (remove_by_iqn iqn) = remove_by-Keeps env _
  run-Keeps (remove_by_id id) = remove_by-Keeps env _
  run-Keeps (set_addrs iqn list) = plain-Keeps env iqn _ (λ t. refl) (λ t. refl)
  run-Keeps (set_names iqn list) = plain-Keeps env iqn _ (λ t. refl) (λ t. refl)
  run-Keeps (del_addr iqn ip) = guarded-Keeps env iqn _ _ (λ t. refl) (λ t. refl)
  run-Keeps (del_name iqn name) = guarded-Keeps env iqn _ _ (λ t. refl) (λ t. refl)
  run-Keeps (del_incoming iqn name) = user-Keeps env iqn _ _ (λ t u. refl) (λ t u. refl)
  run-Keeps (del_outgoing iqn name) = user-Keeps env iqn _ _ (λ t u. refl) (λ t u. refl)
  run-Keeps (set_incoming iqn name passwd) = plain-Keeps env iqn _ (λ t. refl) (λ t. refl)
  run-Keeps (set_outgoing iqn name passwd) = plain-Keeps env iqn _ (λ t. refl) (λ t. refl)
  run-Keeps (add iqn lun) = add_lun-Keeps env iqn lun
  run-Keeps (set iqn number changes) = set_lun-Keeps env iqn number changes
  run-Keeps (rename iqn new_iqn) = update_target_iqn-Keeps env iqn new_iqn
  run-Keeps (del iqn number) = del_lun-Keeps env iqn number
  run-Keeps (switch iqn state) = set_state-Keeps iqn state
  run-Keeps sync_all = SameFile-Keeps env (sync env) sync-SameFile
  run-Keeps restore = system_restore-Keeps
