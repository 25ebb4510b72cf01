-- ===== src/Runtime/Loop.antt =====
-- The run loop of pkg/sdc/target/manager/runtime.go in steps, and GetClient and GetDatastore of
-- manager.go. A step is what the loop does under one lock or in one call; other goroutines may act
-- between any two. The replay of the configs and reconcileCollector are one step each: the phase does
-- not change during either.
pub mod Interleave
pub mod Points
pub mod Safety
pub mod Run
pub mod Whole
use config_server.Prelude.{
  Bool, Bytes, Option, String, [], bytes_eq, false, if◌then◌else◌, nat_eq, none, not, some,
  string_eq, true, utf8, ◌&&◌, ◌==◌, ◌||◌, ◌∷◌,
}
use config_server.Errors.{Error, is_unknown_datastore_err, plain, wrapped}
use config_server.Runtime.{
  Runtime, degraded, deleting_target, ensuring_datastore, latch_recovery_failure, notify_if_changed,
  phase_eq, recovering, recovery_failed, recovery_latched, running, set_datastore_ready, set_phase,
  set_recovered, set_recovery_result, set_running_hash, stop_runtime, waiting_for_ds, wake,
}
use config_server.Runtime.Datastore.{World, datastore_error}
use config_server.Runtime.Reconcile.{
  ensure_runtime, is_final, leave_unless_running, pending_unless_degraded, reconcile_collector,
}
use config_server.Transactor.{
  DatastoreRequest, Env, History, Key, creates_datastore, deletes_datastore, gets_datastore,
  gets_target,
}
use config_server.Transactor.Recover.{recover_configs}

-- Where the loop is: what it does next.
pub data Point : Type 0 where
  selects ended : Point
  -- the arms of the select
  ds_wakes ds_closes shuts : Point
  -- reconcileOnce, and its branch for a target that is not desired
  begins stops_released releases forgets forgets_hash : Point
  unreadies_released degrades_released : Error → Point
  unrecovers_released pends : Point
  -- the branch for one that is
  checks_ds leaves asks_client : DatastoreRequest → Point
  waits_ds stops_waiting waits_client : Point
  -- ensureDatastore, with the desired hash that it read
  reads_hash : DatastoreRequest → Point
  probes vanishes differs stops_old deletes_old : DatastoreRequest → String → Point
  creates : Bytes → DatastoreRequest → String → Point
  hashes_created : DatastoreRequest → String → Point
  readies_created unrecovers_created : DatastoreRequest → Point
  adopts : DatastoreRequest → String → Point
  readies : DatastoreRequest → Point
  unreadies degrades : Error → Point
  -- the recovery
  checks_recovered checks_latch recovers replays : DatastoreRequest → Point
  records : DatastoreRequest → Bytes → Option Error → Point
  decides : DatastoreRequest → Option Error → Point
  latches fails retries_later : Error → Point
  -- the end of the run
  ensures_runtime runs collects : DatastoreRequest → Point
  notifies : Point

abbrev pub LoopStep : Type 0
LoopStep = Point × Runtime × History

-- stopRuntime after the phase was set; the loop ends.
unfoldable pub shutdown : Runtime → Runtime
unfolding set_phase stop_runtime
shutdown rt = record (stop_runtime (set_phase deleting_target none rt)) { stopped = true }

-- The answer to GetDataStore.
unfoldable pub probed : Env → String → DatastoreRequest → String → String → Option Error → Point
unfolding is_unknown_datastore_err datastore_error utf8
probed env name req want have none =
    if not (have == "") && not (want == "") && not (have == want)
    then differs req want
    else adopts req want
probed env name req want have (some e) =
    if is_unknown_datastore_err (some e)
    then vanishes req want
    else unreadies (datastore_error env (utf8 "get") name e)

-- The answer to DeleteDataStore before a recreation.
unfoldable pub deleted_old : Env → String → DatastoreRequest → String → Option Error → Point
unfolding is_unknown_datastore_err datastore_error utf8
deleted_old env name req want none = creates (utf8 "recreate") req want
deleted_old env name req want (some e) =
    if is_unknown_datastore_err (some e)
    then creates (utf8 "recreate") req want
    else degrades (datastore_error env (utf8 "delete") name e)

-- The answer to DeleteDataStore when nothing is desired.
unfoldable pub deleted : Env → String → Option Error → Point
unfolding is_unknown_datastore_err datastore_error utf8
deleted env name none = forgets
deleted env name (some e) =
    if is_unknown_datastore_err (some e)
    then forgets
    else unreadies_released (datastore_error env (utf8 "delete") name e)

-- After recoverConfigs.
unfoldable pub decided : DatastoreRequest → Option Error → Point
unfolding is_final
decided req none = ensures_runtime req
decided req (some e) = if is_final e then latches e else retries_later e

-- One step of the loop.
unfoldable pub advance : Env → Key → Point → Runtime → History → LoopStep
unfolding wake stop_runtime set_phase set_datastore_ready set_running_hash set_recovered
    pending_unless_degraded leave_unless_running probed deleted_old deleted decided datastore_error
    recover_configs set_recovery_result latch_recovery_failure recovery_latched ensure_runtime
    reconcile_collector notify_if_changed utf8
advance env target selects rt h = (selects, rt, h)
advance env target ended rt h = (ended, rt, h)
advance env target ds_wakes rt h = (selects, wake rt, h)
advance env target ds_closes rt h = (selects, stop_runtime rt, h)
advance env target shuts rt h = (ended, record (stop_runtime rt) { stopped = true }, h)
advance env target begins rt h = elim rt.desired [
  | none ↦ (stops_released, rt, h)
  | some req ↦ (checks_ds req, rt, h)
]
advance env target stops_released rt h = (releases, stop_runtime rt, h)
advance env target releases rt h =
    let name = env.key_string target in
    if not rt.ds_ready || not (env.has_client h)
    then (forgets, rt, h)
    else (deleted env name (env.delete_datastore h name), rt, deletes_datastore name ∷ h)
advance env target forgets rt h = (forgets_hash, set_datastore_ready false rt, h)
advance env target forgets_hash rt h = (unrecovers_released, set_running_hash "" rt, h)
advance env target (unreadies_released e) rt h =
    (degrades_released e, set_datastore_ready false rt, h)
advance env target (degrades_released e) rt h =
    (unrecovers_released, set_phase degraded (some e) rt, h)
advance env target unrecovers_released rt h = (pends, set_recovered false rt, h)
advance env target pends rt h = elim rt.desired [
  | none ↦ (notifies, pending_unless_degraded rt, h)
  | some req ↦ (notifies, rt, h)
]
advance env target (checks_ds req) rt h =
    if rt.ds_ready then (leaves req, rt, h) else (waits_ds, rt, h)
advance env target waits_ds rt h = (stops_waiting, set_phase waiting_for_ds rt.last_error rt, h)
advance env target stops_waiting rt h = (notifies, stop_runtime rt, h)
advance env target (leaves req) rt h = (asks_client req, leave_unless_running rt, h)
advance env target (asks_client req) rt h =
    if env.has_client h then (reads_hash req, rt, h) else (waits_client, rt, h)
advance env target waits_client rt h =
    (notifies, set_phase waiting_for_ds (some (plain (utf8 "dataserver client nil"))) rt, h)
advance env target (reads_hash req) rt h = (probes req rt.desired_hash, rt, h)
advance env target (probes req want) rt h =
    let name = env.key_string target in
    (
      probed env name req want rt.running_hash (env.get_datastore h name),
      rt,
      gets_datastore name ∷ h,
    )
advance env target (vanishes req want) rt h =
    (creates (utf8 "create") req want, set_phase ensuring_datastore none rt, h)
advance env target (differs req want) rt h =
    (stops_old req want, set_phase ensuring_datastore none rt, h)
advance env target (stops_old req want) rt h = (deletes_old req want, stop_runtime rt, h)
advance env target (deletes_old req want) rt h =
    let name = env.key_string target in
    (deleted_old env name req want (env.delete_datastore h name), rt, deletes_datastore name ∷ h)
advance env target (creates doing req want) rt h = elim (env.create_datastore h req) [
  | some e ↦ (
    degrades (datastore_error env doing (env.key_string target) e),
    rt,
    creates_datastore req ∷ h,
  )
  | none ↦ (hashes_created req want, rt, creates_datastore req ∷ h)
]
advance env target (hashes_created req want) rt h =
    (readies_created req, set_running_hash want rt, h)
advance env target (readies_created req) rt h =
    (unrecovers_created req, set_datastore_ready true rt, h)
advance env target (unrecovers_created req) rt h = (checks_recovered req, set_recovered false rt, h)
advance env target (adopts req want) rt h =
    (readies req, if rt.running_hash == "" then set_running_hash want rt else rt, h)
advance env target (readies req) rt h = (checks_recovered req, set_datastore_ready true rt, h)
advance env target (unreadies e) rt h = (degrades e, set_datastore_ready false rt, h)
advance env target (degrades e) rt h = (notifies, set_phase degraded (some e) rt, h)
advance env target (checks_recovered req) rt h =
    if rt.recovered then (ensures_runtime req, rt, h) else (checks_latch req, rt, h)
advance env target (checks_latch req) rt h = elim (recovery_latched rt) [
  | some e ↦ (fails e, rt, h)
  | none ↦ (recovers req, rt, h)
]
advance env target (recovers req) rt h = (replays req, set_phase recovering none rt, h)
advance env target (replays req) rt h =
    let h' = gets_target target ∷ h in
    elim (env.get_target h target) [
      | some e ↦ (decides req (some (wrapped (utf8 "get target: ") e)), rt, h')
      | none ↦
          let (answer, h'') = recover_configs env target h' in
          (records req (elim answer.0 [ none ↦ [] | some msg ↦ msg ]) answer.1, rt, h'')
    ]
advance env target (records req msg none) rt h =
    (decides req none, set_recovery_result msg none rt, h)
advance env target (records req msg (some e)) rt h =
    (decides req (some e), set_recovery_result [] (some e) rt, h)
advance env target (decides req e) rt h = (decided req e, rt, h)
advance env target (latches e) rt h = (fails e, latch_recovery_failure e rt, h)
advance env target (fails e) rt h = (notifies, set_phase recovery_failed (some e) rt, h)
advance env target (retries_later e) rt h = (notifies, set_phase recovering (some e) rt, h)
advance env target (ensures_runtime req) rt h = (runs req, ensure_runtime rt, h)
advance env target (runs req) rt h = (collects req, set_phase running none rt, h)
advance env target (collects req) rt h =
    let (rt', h') = reconcile_collector env req (rt, h) in (notifies, rt', h')
advance env target notifies rt h = (selects, notify_if_changed rt, h)

-- GetDatastore of a TargetManager that has the runtime: whether the handle is usable.
unfoldable pub get_datastore : Env → World → Bool
get_datastore env (rt, h) =
    rt.ds_ready && rt.datastore_ready && rt.phase == running && env.has_client h
