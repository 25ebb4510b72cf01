-- ===== src/Runtime/Progress.antt =====
-- That reconcileOnce of pkg/sdc/target/manager/runtime.go gets to phase Running.
use config_server.Prelude.{
  Bytes, String, arith, none, some, string_eq, true, utf8, ◌∙◌, ◌∷◌, ◌≡◌, ◌⊎◌,
}
use config_server.Errors.{is_unknown_datastore_err}
use config_server.Runtime.{
  Runtime, ensuring_datastore, recovering, recovery_latched, running, set_phase,
}
use config_server.Runtime.Datastore.{World, create_datastore, ensure_datastore, recreate_datastore}
use config_server.Runtime.Latch.{
  ensure_datastore-Untouched, latched_same, leave_unless_running-Untouched,
}
use config_server.Runtime.Laws.{run_components_lem}
use config_server.Runtime.Once.{notify_if_changed_lem}
use config_server.Runtime.Reconcile.{
  after_datastore, after_recovery, converge, leave_unless_running, reconcile_desired,
  reconcile_once, record_recovery, recover, run_recovery,
}
use config_server.Transactor.{DatastoreRequest, Env, History, Key, gets_datastore}

create_datastore_works :
    (env : Env) (doing : Bytes) (name : String) (req : DatastoreRequest) (w : World)
    → env.create_datastore w.1 req ≡ none
    → (create_datastore env doing name req w).0 ≡ none
unfolding create_datastore
create_datastore_works env doing name req (rt, h) created = ground (arith, created)

recreate_datastore_works :
    (env : Env) (name : String) (req : DatastoreRequest) (w : World)
    → ((h : History) (r : DatastoreRequest) → env.create_datastore h r ≡ none)
    → ((h : History) → env.delete_datastore h name ≡ none)
    → (recreate_datastore env name req w).0 ≡ none
unfolding recreate_datastore
recreate_datastore_works env name req (rt, h) created deleted =
    rw (deleted h, recreate_datastore)
      (create_datastore_works env (utf8 "recreate") name req _ (created _ req))

ensure_datastore_works :
    (env : Env) (name : String) (req : DatastoreRequest) (w : World)
    → ((h : History)
        → (env.get_datastore h name ≡ none)
          ⊎ (is_unknown_datastore_err (env.get_datastore h name) ≡ true))
    → ((h : History) (r : DatastoreRequest) → env.create_datastore h r ≡ none)
    → ((h : History) → env.delete_datastore h name ≡ none)
    → (ensure_datastore env name req w).0 ≡ none
unfolding ensure_datastore
ensure_datastore_works env name req (rt, h) found created deleted =
    let h' = gets_datastore name ∷ h in
    ground (
      arith,
      found h,
      create_datastore_works env (utf8 "create") name req (set_phase ensuring_datastore none rt, h')
          (created h' req),
      recreate_datastore_works env name req (rt, h') created deleted,
    )

recover_works :
    (env : Env) (target : Key) (req : DatastoreRequest) (rt : Runtime) (h : History)
    → recovery_latched rt ≡ none
    → (run_recovery env target h).0.1 ≡ none
    → (recover env target req (rt, h)).0.phase ≡ running
unfolding recover after_recovery
recover_works env target req rt h free good =
    let (answer, h') = run_recovery env target h in
    let recorded =
      record_recovery (env.get_target h target) answer (set_phase recovering none rt) in
    ground (arith, free, good, run_components_lem env req (recorded, h'))

after_datastore_works :
    (env : Env) (target : Key) (req : DatastoreRequest) (rt : Runtime) (h : History)
    → recovery_latched rt ≡ none
    → (run_recovery env target h).0.1 ≡ none
    → (after_datastore env target req none (rt, h)).0.phase ≡ running
unfolding after_datastore
after_datastore_works env target req rt h free good =
    ground (arith, run_components_lem env req (rt, h), recover_works env target req rt h free good)

reconcile_desired_works :
    (env : Env) (target : Key) (req : DatastoreRequest) (rt : Runtime) (h : History)
    → rt.ds_ready ≡ true
    → env.has_client h ≡ true
    → let (e, w) = ensure_datastore env (env.key_string target) req (leave_unless_running rt, h) in
      (after_datastore env target req e w).0.phase ≡ running
      → (reconcile_desired env target req (rt, h)).0.phase ≡ running
unfolding reconcile_desired
reconcile_desired_works env target req rt h up client done = ground (arith, up, client, done)

-- One run of reconcileOnce ends in phase Running, from whatever state of a runtime whose target is
-- desired, whose dataserver is ready and whose recovery is not latched: if there is a client, the
-- datastore is known or unknown, its creation and deletion succeed, and the recovery succeeds.
pub reconcile_once_progress :
    (env : Env) (target : Key) (req : DatastoreRequest) (rt : Runtime) (h : History)
    → rt.desired ≡ some req
    → rt.ds_ready ≡ true
    → recovery_latched rt ≡ none
    → env.has_client h ≡ true
    → ((h : History)
        → (env.get_datastore h (env.key_string target) ≡ none)
          ⊎ (is_unknown_datastore_err (env.get_datastore h (env.key_string target)) ≡ true))
    → ((h : History) (r : DatastoreRequest) → env.create_datastore h r ≡ none)
    → ((h : History) → env.delete_datastore h (env.key_string target) ≡ none)
    → ((h : History) → (run_recovery env target h).0.1 ≡ none)
    → (reconcile_once env target (rt, h)).0.phase ≡ running
unfolding reconcile_once converge
reconcile_once_progress env target req rt h wanted up free client found created deleted good =
    let name = env.key_string target in
    let left = leave_unless_running rt in
    let (e, w) = ensure_datastore env name req (left, h) in
    let works : e ≡ none = ensure_datastore_works env name req (left, h) found created deleted in
    let still : recovery_latched w.0 ≡ none =
      latched_same (left, h) w (ensure_datastore-Untouched env name req (left, h)).0
      ∙ latched_same (rt, h) (left, h) (leave_unless_running-Untouched rt h).0
      ∙ free in
    let done : (after_datastore env target req e w).0.phase ≡ running =
      rw works (after_datastore_works env target req w.0 w.1 still (good w.1)) in
    ground (
      arith,
      wanted,
      reconcile_desired_works env target req rt h up client done,
      notify_if_changed_lem (reconcile_desired env target req (rt, h)).0,
    )
