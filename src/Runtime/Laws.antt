-- ===== src/Runtime/Laws.antt =====
-- What one run of reconcileOnce of pkg/sdc/target/manager/runtime.go guarantees.
use config_server.Prelude.{
  Bytes, Option, String, arith, bytes_eq, false, nat_eq, none, some, string_eq, true, ◌∷◌, ◌≡◌, ◌⊎◌,
}
use config_server.Errors.{Error}
use config_server.Runtime.{Runtime, recovering, recovery_latched, running, set_phase}
use config_server.Runtime.Datastore.{World, create_datastore, ensure_datastore, recreate_datastore}
use config_server.Runtime.Reconcile.{
  after_recovery, ensure_runtime, reconcile_collector, record_recovery, recover, run_components,
  run_recovery, start_collector,
}
use config_server.Transactor.{DatastoreRequest, Env, History, Key, gets_datastore, gets_target}
use config_server.Transactor.Recover.{recover_configs}

-- In phase Running the dataserver and the datastore are ready, the configs are recovered, and the
-- deviations are watched.
abbrev pub Safe : Runtime → Type 0
Safe rt =
    rt.phase ≡ running
    → (rt.ds_ready ≡ true)
      × (rt.datastore_ready ≡ true)
      × (rt.recovered ≡ true)
      × (rt.watcher ≡ true)

-- What counts as recovered is in a datastore that is ready.
abbrev pub Held : Runtime → Type 0
Held rt = rt.recovered ≡ true → (rt.ds_ready ≡ true) × (rt.datastore_ready ≡ true)

pub ensure_datastore_facts :
    (env : Env) (name : String) (req : DatastoreRequest) (rt : Runtime) (h : History)
    → let (e, w) = ensure_datastore env name req (rt, h) in
      (w.0.ds_ready ≡ rt.ds_ready)
      × (e ≡ none
          → (w.0.datastore_ready ≡ true)
            × ((rt.desired_hash ≡ "") ⊎ (w.0.running_hash ≡ rt.desired_hash))
            × ((w.0.recovered ≡ false) ⊎ ((rt.recovered ≡ true) × (w.1 ≡ gets_datastore name ∷ h))))
unfolding ensure_datastore recreate_datastore create_datastore
ensure_datastore_facts env name req rt h = ground arith

-- When ensureDatastore succeeds, the datastore is ready, and the hash that is recorded for it is the
-- desired one, unless that is empty; and the configs count as recovered only if they did before and
-- nothing was deleted or created.
pub ensure_datastore_lem :
    (env : Env) (name : String) (req : DatastoreRequest) (rt : Runtime) (h : History)
    → (ensure_datastore env name req (rt, h)).0 ≡ none
    → let w = (ensure_datastore env name req (rt, h)).1 in
      (w.0.datastore_ready ≡ true)
      × ((rt.desired_hash ≡ "") ⊎ (w.0.running_hash ≡ rt.desired_hash))
      × ((w.0.recovered ≡ false) ⊎ ((rt.recovered ≡ true) × (w.1 ≡ gets_datastore name ∷ h)))
ensure_datastore_lem env name req rt h good = (ensure_datastore_facts env name req rt h).1 good

pub reconcile_collector_lem :
    (env : Env) (req : DatastoreRequest) (w : World)
    → let w' = reconcile_collector env req w in
      (w'.0.phase ≡ w.0.phase)
      × (w'.0.ds_ready ≡ w.0.ds_ready)
      × (w'.0.datastore_ready ≡ w.0.datastore_ready)
      × (w'.0.recovered ≡ w.0.recovered)
      × (w'.0.watcher ≡ w.0.watcher)
      × (w'.0.woken ≡ w.0.woken)
      × (w'.0.running_hash ≡ w.0.running_hash)
      × (w'.0.desired_hash ≡ w.0.desired_hash)
unfolding reconcile_collector start_collector
reconcile_collector_lem env req w = ground arith

pub run_components_lem :
    (env : Env) (req : DatastoreRequest) (w : World)
    → let w' = run_components env req w in
      (w'.0.phase ≡ running)
      × (w'.0.ds_ready ≡ w.0.ds_ready)
      × (w'.0.datastore_ready ≡ w.0.datastore_ready)
      × (w'.0.recovered ≡ w.0.recovered)
      × (w'.0.watcher ≡ true)
      × (w'.0.woken ≡ w.0.woken)
unfolding run_components
run_components_lem env req w =
    ground
      (arith, reconcile_collector_lem env req (set_phase running none (ensure_runtime w.0), w.1))

pub after_recovery_lem :
    (env : Env) (req : DatastoreRequest) (e : Option Error) (w : World)
    → let w' = after_recovery env req e w in
      (w'.0.ds_ready ≡ w.0.ds_ready)
      × (w'.0.datastore_ready ≡ w.0.datastore_ready)
      × (w'.0.recovered ≡ w.0.recovered)
      × (w'.0.woken ≡ w.0.woken)
      × (w'.0.phase ≡ running → (e ≡ none) × (w'.0.watcher ≡ true))
unfolding after_recovery
after_recovery_lem env req none w = ground (arith, run_components_lem env req w)
after_recovery_lem env req (some e) (rt, h) = ground arith

pub record_recovery_lem :
    (e : Option Error) (answer : Bytes × Option Error) (rt : Runtime)
    → let rt' = record_recovery e answer rt in
      (rt'.ds_ready ≡ rt.ds_ready)
      × (rt'.datastore_ready ≡ rt.datastore_ready)
      × (rt'.woken ≡ rt.woken)
      × (e ≡ none → answer.1 ≡ none → rt'.recovered ≡ true)
unfolding record_recovery
record_recovery_lem none (msg, none) rt = ground arith
record_recovery_lem none (msg, some x) rt = ground arith
record_recovery_lem (some e) (msg, none) rt = ground arith
record_recovery_lem (some e) (msg, some x) rt = ground arith

run_recovery_read :
    (env : Env) (target : Key) (h : History)
    → (run_recovery env target h).0.1 ≡ none
    → env.get_target h target ≡ none
unfolding run_recovery
run_recovery_read env target h e = ground arith

pub recover_facts :
    (env : Env) (target : Key) (req : DatastoreRequest) (rt : Runtime) (h : History)
    → let w = recover env target req (rt, h) in
      (w.0.ds_ready ≡ rt.ds_ready)
      × (w.0.datastore_ready ≡ rt.datastore_ready)
      × (w.0.woken ≡ rt.woken)
      × (w.0.phase ≡ running
          → (w.0.recovered ≡ true)
            × (w.0.watcher ≡ true)
            × (recovery_latched rt ≡ none)
            × ((run_recovery env target h).0.1 ≡ none))
unfolding recover
recover_facts env target req rt h =
    let (answer, h') = run_recovery env target h in
    let started = set_phase recovering none rt in
    let recorded = record_recovery (env.get_target h target) answer started in
    ground (
      arith,
      after_recovery_lem env req answer.1 (recorded, h'),
      record_recovery_lem (env.get_target h target) answer started,
      run_recovery_read env target h,
    )

-- A recovery ends in Running only if it was not latched, and the Target was read and RecoverConfigs
-- returned no error.
pub recover_lem :
    (env : Env) (target : Key) (req : DatastoreRequest) (rt : Runtime) (h : History)
    → (recover env target req (rt, h)).0.phase ≡ running
    → (recovery_latched rt ≡ none)
      × (env.get_target h target ≡ none)
      × ((recover_configs env target (gets_target target ∷ h)).0.1 ≡ none)
unfolding run_recovery
recover_lem env target req rt h e =
    let facts = (recover_facts env target req rt h).3 e in
    ground (arith, facts, run_recovery_read env target h)
