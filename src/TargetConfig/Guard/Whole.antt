-- ===== src/TargetConfig/Guard/Whole.antt =====
-- When Reconcile of pkg/reconcilers/targetconfig/reconciler.go sends a transaction.
use config_server.Prelude.{
  Bool, Bool-cases, Option, Option-cases, ap, arith, false, inl, inr, none, refl, some, string_eq,
  true, utf8, ◌++◌, ◌<>◌, ◌∙◌, ◌∷◌, ◌≡◌, ◌⊎◌,
}
use config_server.Errors.{Error, Result-cases, err, ok}
use config_server.Instantiation.{Target}
use config_server.Runtime.{Runtime}
use config_server.Runtime.Latch.{transactions}
use config_server.TargetConfig.{
  Controller, is_ready, not_ready_reason, reconcile_configs, reconcile_datastore, reconcile_found,
  reconcile_ready_target, release_target, report_not_ready,
}
use config_server.TargetConfig.Guard.{
  Transacted, reconcile_datastore_lem, report_not_ready-transactions,
}
use config_server.Transactor.{Env, History, Key, adds_target_finalizer, gets_target}

release_target-transactions :
    (env : Env) (ctl : Controller) (key : Key) (h : History)
    → transactions (release_target env ctl key h).1 ≡ transactions h
unfolding release_target transactions
release_target-transactions env ctl key h =
    let same =
      report_not_ready-transactions env key "TargetDeleting" (utf8 "target is being deleted") h in
    ground (arith, same)

ready_target_blocked :
    (env : Env) (ctl : Controller) (key : Key) (runtime : Option Runtime) (target : Target)
    (h : History)
    → is_ready target ≡ false
    → (reconcile_ready_target env ctl key runtime target h).1
      ≡ (report_not_ready env key "TargetNotReady" (not_ready_reason target) h).1
unfolding reconcile_ready_target
ready_target_blocked env ctl key runtime target h blocked = rw blocked refl

ready_target_passed :
    (env : Env) (ctl : Controller) (key : Key) (runtime : Option Runtime) (target : Target)
    (h : History)
    → is_ready target ≡ true
    → reconcile_ready_target env ctl key runtime target h
      ≡ reconcile_datastore env ctl key runtime h
unfolding reconcile_ready_target
ready_target_passed env ctl key runtime target h good = rw good refl

ready_target_lem :
    (env : Env) (ctl : Controller) (key : Key) (runtime : Option Runtime) (target : Target)
    (h : History)
    → let h' = (reconcile_ready_target env ctl key runtime target h).1 in
      (transactions h' ≡ transactions h)
      ⊎ ((is_ready target ≡ true) × Transacted env key runtime h h')
ready_target_lem env ctl key runtime target h = elim (Bool-cases (is_ready target)) [
  | inr blocked ↦ inl (
      ap transactions (ready_target_blocked env ctl key runtime target h blocked)
      ∙ report_not_ready-transactions env key "TargetNotReady" (not_ready_reason target) h)
  | inl good ↦
      rw (ready_target_passed env ctl key runtime target h good)
        (elim (reconcile_datastore_lem env ctl key runtime h) [
          | inl same ↦ inl same
          | inr sent ↦ inr (good, sent)
        ])
]

found_unguarded :
    (env : Env) (ctl : Controller) (key : Key) (runtime : Option Runtime) (target : Target)
    (h : History) (e : Error)
    → target.deleting ≡ false
    → ctl.add_target_finalizer h key ≡ some e
    → (reconcile_found env ctl key runtime target h).1 ≡ adds_target_finalizer key ∷ h
unfolding reconcile_found
found_unguarded env ctl key runtime target h e here failed = ground (arith, here, failed)

found_guarded :
    (env : Env) (ctl : Controller) (key : Key) (runtime : Option Runtime) (target : Target)
    (h : History)
    → target.deleting ≡ false
    → ctl.add_target_finalizer h key ≡ none
    → reconcile_found env ctl key runtime target h
      ≡ reconcile_ready_target env ctl key runtime target (adds_target_finalizer key ∷ h)
unfolding reconcile_found
found_guarded env ctl key runtime target h here done = ground (arith, here, done)

-- What a reconcile relied on that sent a transaction for a target.
abbrev pub Guarded : Env → Key → Option Runtime → Target → History → History → Type 0
Guarded env key runtime target h h' =
    (target.deleting ≡ false) × (is_ready target ≡ true) × Transacted env key runtime h h'

found_lem :
    (env : Env) (ctl : Controller) (key : Key) (runtime : Option Runtime) (target : Target)
    (h : History) (marked : Bool)
    → target.deleting ≡ marked
    → let h' = (reconcile_found env ctl key runtime target h).1 in
      (transactions h' ≡ transactions h) ⊎ Guarded env key runtime target h h'
unfolding transactions
found_lem env ctl key runtime target h true gone =
    inl (unfold reconcile_found in ground (arith, gone, release_target-transactions env ctl key h))
found_lem env ctl key runtime target h false here =
    elim (Option-cases (ctl.add_target_finalizer h key)) [
      | inr (e, failed) ↦
          inl (ap transactions (found_unguarded env ctl key runtime target h e here failed))
      | inl done ↦
          rw (found_guarded env ctl key runtime target h here done)
            (elim (ready_target_lem env ctl key runtime target (adds_target_finalizer key ∷ h)) [
              | inl same ↦ inl same
              | inr (good, sent) ↦ inr (here, good, sent)
            ])
    ]

configs_found :
    (env : Env) (ctl : Controller) (key : Key) (runtime : Option Runtime) (h : History)
    (target : Target)
    → ctl.api_available h ≡ true
    → ctl.read_target h key ≡ ok (some target)
    → reconcile_configs env ctl key runtime h
      ≡ reconcile_found env ctl key runtime target (gets_target key ∷ h)
unfolding reconcile_configs
configs_found env ctl key runtime h target served read = rw (served, read, reconcile_configs) refl

configs_missing :
    (env : Env) (ctl : Controller) (key : Key) (runtime : Option Runtime) (h : History)
    → ctl.api_available h ≡ true
    → ctl.read_target h key ≡ ok none
    → transactions (reconcile_configs env ctl key runtime h).1 ≡ transactions h
unfolding reconcile_configs transactions
configs_missing env ctl key runtime h served read =
    let missing = utf8 "target " ++ utf8 (key.namespace <> "/" <> key.name) ++ utf8 " not found" in
    let same =
      report_not_ready-transactions env key "TargetNotFound" missing (gets_target key ∷ h) in
    ground (arith, served, read, same)

configs_unread :
    (env : Env) (ctl : Controller) (key : Key) (runtime : Option Runtime) (h : History) (e : Error)
    → ctl.read_target h key ≡ err e
    → transactions (reconcile_configs env ctl key runtime h).1 ≡ transactions h
unfolding reconcile_configs transactions
configs_unread env ctl key runtime h e failed = ground (arith, failed)

configs_unserved :
    (env : Env) (ctl : Controller) (key : Key) (runtime : Option Runtime) (h : History)
    → ctl.api_available h ≡ false
    → transactions (reconcile_configs env ctl key runtime h).1 ≡ transactions h
unfolding reconcile_configs transactions
configs_unserved env ctl key runtime h unserved = ground (arith, unserved)

-- A reconcile sends a transaction to the dataserver only for a target that is there, is not being
-- deleted and is Ready, whose runtime lets GetDatastore hand out the datastore; and then it sends what
-- Transact sends, and nothing more.
pub reconcile_configs_sends :
    (env : Env) (ctl : Controller) (key : Key) (runtime : Option Runtime) (h : History)
    → let h' = (reconcile_configs env ctl key runtime h).1 in
      (transactions h' ≡ transactions h)
      ⊎ ((target : Target) × (ctl.read_target h key ≡ ok (some target))
          × Guarded env key runtime target h h')
unfolding transactions
reconcile_configs_sends env ctl key runtime h = elim (Bool-cases (ctl.api_available h)) [
  | inr unserved ↦ inl (configs_unserved env ctl key runtime h unserved)
  | inl served ↦ elim (Result-cases (ctl.read_target h key)) [
    | inr (e, failed) ↦ inl (configs_unread env ctl key runtime h e failed)
    | inl (none, missing) ↦ inl (configs_missing env ctl key runtime h served missing)
    | inl (some target, read) ↦
        rw (configs_found env ctl key runtime h target served read)
          (elim (found_lem env ctl key runtime target (gets_target key ∷ h) target.deleting refl) [
            | inl same ↦ inl same
            | inr guarded ↦ inr (target, read, guarded)
          ])
  ]
]
