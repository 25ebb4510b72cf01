-- ===== src/Instantiation/Reconcile.antt =====
-- Reconcile of pkg/reconcilers/targetdatastore/reconciler.go: the pipeline of a live target, and the
-- finalization of one that is deleted.
pub mod Finalize
pub mod Stages
use config_server.Prelude.{
  Bytes, Option, String, false, if◌then◌else◌, length, ltb, none, some, string_eq, true, utf8, ℕ,
  ◌++◌, ◌∷◌,
}
use config_server.Condition.{Condition, get_condition, is_true}
use config_server.Errors.{Error, err, error_text, is_not_found, ok, wrapped}
use config_server.Instantiation.{
  Server, Target, Trace, UsedReferences, W, adds_finalizer, key_eq, reads_target, removes_deviation,
  removes_finalizer,
}
use config_server.Instantiation.Manager.{
  apply_desired, clear_desired, compute_create_ds_hash, delete_datastore_of, delete_target,
  get_or_create, set_retry_token,
}
use config_server.Instantiation.Ready.{
  apply_ready, drop_legacy_conditions, ready_from_runtime, target_not_ready, wrap_error,
}
use config_server.Instantiation.Request.{get_create_datastore_request, is_schema_ready}
use config_server.Runtime.{status}
use config_server.Transactor.{DatastoreRequest, Key}

-- RequeueAfter in seconds, and the error.
abbrev pub ReconcileResult : Type 0
ReconcileResult = ℕ × Option Error

abbrev pub delete_requeue : ℕ
delete_requeue = 5

abbrev pub schema_requeue : ℕ
schema_requeue = 10

-- return ctrl.Result{RequeueAfter: requeue}, r.applyReady(...)
unfoldable pub report :
    Server → Target → ℕ → Condition → Option UsedReferences → W → ReconcileResult × W
unfolding apply_ready
report srv target requeue cond refs (targets, t) =
    let (failure, t') = apply_ready srv target cond refs t in ((requeue, failure), (targets, t'))

unfoldable pub blocked_condition : Server → String → Bytes → W → Condition
unfolding target_not_ready
blocked_condition srv reason msg (targets, t) = target_not_ready (srv.now t) reason msg

-- retryDelete.
unfoldable pub retry_delete : Server → Target → Bytes → Error → W → ReconcileResult × W
unfolding report blocked_condition error_text utf8
retry_delete srv target msg e w =
    report srv target delete_requeue
      (blocked_condition srv "Deleting" (msg ++ utf8 ": " ++ error_text e) w) target.used_references
      w

-- deleteDeviation.
unfoldable pub delete_deviation_of : Server → Target → Trace → Option Error × Trace
unfolding is_not_found utf8
delete_deviation_of srv target t =
    let key : Key = record { namespace = target.namespace; name = target.name } in
    elim (srv.remove_deviation t key) [
      | none ↦ (none, removes_deviation key ∷ t)
      | some e ↦
          if is_not_found e
          then (none, removes_deviation key ∷ t)
          else (some (wrapped (utf8 "cannot delete deviation: ") e), removes_deviation key ∷ t)
    ]

unfoldable pub remove_finalizer_of : Server → Key → W → ReconcileResult × W
unfolding wrap_error utf8
remove_finalizer_of srv key (targets, t) = (
  (0, wrap_error (utf8 "cannot remove finalizer") (srv.remove_finalizer t key)),
  (targets, removes_finalizer key ∷ t),
)

-- reconcileDelete, once this is the last finalizer: from its third, second and first step on.
unfoldable pub finalize_deviation : Server → Key → Target → W → ReconcileResult × W
unfolding delete_deviation_of remove_finalizer_of retry_delete utf8
finalize_deviation srv key target (targets, t) =
    let (failure, t') = delete_deviation_of srv target t in
    elim failure [
      | none ↦ remove_finalizer_of srv key (targets, t')
      | some e ↦ retry_delete srv target (utf8 "cannot delete deviation") e (targets, t')
    ]

unfoldable pub finalize_datastore : Server → Key → Target → W → ReconcileResult × W
unfolding delete_datastore_of finalize_deviation retry_delete utf8
finalize_datastore srv key target (targets, t) =
    let (failure, t') = delete_datastore_of srv key t in
    elim failure [
      | none ↦ finalize_deviation srv key target (targets, t')
      | some e ↦ retry_delete srv target (utf8 "cannot delete datastore") e (targets, t')
    ]

unfoldable pub finalize : Server → Key → Target → W → ReconcileResult × W
unfolding delete_target finalize_datastore retry_delete utf8
finalize srv key target w =
    let (failure, w') = delete_target srv key w in
    elim failure [
      | none ↦ finalize_datastore srv key target w'
      | some e ↦ retry_delete srv target (utf8 "cannot stop target runtime") e w'
    ]

unfoldable pub reconcile_delete : Server → Key → Target → W → ReconcileResult × W
unfolding report blocked_condition finalize utf8
reconcile_delete srv key target w =
    if ltb 1 (length target.finalizers)
    then report srv target delete_requeue
        (blocked_condition srv "Deleting" (utf8 "waiting for other finalizers") w)
        target.used_references w
    else finalize srv key target w

-- 4) runtime
unfoldable pub reconcile_runtime :
    Server → Key → Target → DatastoreRequest → UsedReferences → W → ReconcileResult × W
unfolding compute_create_ds_hash set_retry_token apply_desired get_or_create status
    ready_from_runtime report
reconcile_runtime srv key target req refs (targets, t) =
    let hash = compute_create_ds_hash srv req refs in
    let desired = apply_desired key req hash (set_retry_token key target.recovery_retry targets) in
    let (managed, targets') = get_or_create key desired in
    let (cond, (requeue, datastore_up)) = ready_from_runtime (srv.now t) (status managed.runtime) in
    report srv target requeue cond (if datastore_up then some refs else target.used_references)
      (targets', t)

-- 3) configuration
unfoldable pub reconcile_configuration : Server → Key → Target → W → ReconcileResult × W
unfolding get_create_datastore_request reconcile_runtime report blocked_condition error_text
reconcile_configuration srv key target (targets, t) =
    let (answer, t') = get_create_datastore_request srv target t in
    elim answer [
      | ok (req, refs) ↦ reconcile_runtime srv key target req refs (targets, t')
      | err e ↦
          report srv target 0
            (blocked_condition srv "InvalidConfiguration" (error_text e) (targets, t'))
            target.used_references (targets, t')
    ]

unfoldable pub schema_unknown : Server → Target → Error → W → ReconcileResult × W
unfolding report blocked_condition error_text utf8
schema_unknown srv target e w =
    let (outcome, w') =
      report srv target 0
        (blocked_condition srv "SchemaNotReady"
          (utf8 "cannot get schema ready state: " ++ error_text e) w)
        none w in
    ((0, some (wrapped (utf8 "cannot get schema ready state: ") e)), w')

-- 2) schema
unfoldable pub reconcile_schema : Server → Key → Target → W → ReconcileResult × W
unfolding is_schema_ready schema_unknown reconcile_configuration report blocked_condition
reconcile_schema srv key target (targets, t) =
    let (answer, t') = is_schema_ready srv target t in
    elim answer [
      | err e ↦ schema_unknown srv target e (targets, t')
      | ok (true, msg) ↦ reconcile_configuration srv key target (targets, t')
      | ok (false, msg) ↦
          report srv target schema_requeue
            (blocked_condition srv "SchemaNotReady" msg (targets, t')) none (targets, t')
    ]

abbrev pub condition_type_target_discovery_ready : String
condition_type_target_discovery_ready = "TargetDiscoveryReady"

-- 1) discovery
unfoldable pub reconcile_discovery : Server → Key → Target → W → ReconcileResult × W
unfolding get_condition is_true clear_desired reconcile_schema report blocked_condition
reconcile_discovery srv key target (targets, t) =
    let discovery = get_condition condition_type_target_discovery_ready target.conditions in
    let released = clear_desired key targets in
    if is_true discovery
    then reconcile_schema srv key target (targets, t)
    else report srv target 0
        (blocked_condition srv "DiscoveryNotReady" discovery.message (released, t)) none
        (released, t)

unfoldable pub reconcile_live : Server → Key → Target → W → ReconcileResult × W
unfolding reconcile_discovery wrap_error utf8
reconcile_live srv key target (targets, t) = elim (srv.add_finalizer t key) [
  | some e ↦
      ((0, some (wrapped (utf8 "cannot add finalizer: ") e)), (targets, adds_finalizer key ∷ t))
  | none ↦ reconcile_discovery srv key target (targets, adds_finalizer key ∷ t)
]

unfoldable pub reconcile_target : Server → Key → Target → W → ReconcileResult × W
unfolding drop_legacy_conditions reconcile_delete reconcile_live
reconcile_target srv key target (targets, t) =
    let (dropped, t') = drop_legacy_conditions srv key target t in
    elim dropped [
      | err e ↦ ((0, some e), (targets, t'))
      | ok true ↦ ((0, none), (targets, t'))
      | ok false ↦
          if target.deleting
          then reconcile_delete srv key target (targets, t')
          else reconcile_live srv key target (targets, t')
    ]

unfoldable pub reconcile : Server → Key → W → ReconcileResult × W
unfolding reconcile_target utf8
reconcile srv key (targets, t) =
    let t' = reads_target key ∷ t in
    elim (srv.read_target t key) [
      | err e ↦ ((0, some (wrapped (utf8 "cannot get cr: ") e)), (targets, t'))
      | ok none ↦ ((0, none), (targets, t'))
      | ok (some target) ↦ reconcile_target srv key target (targets, t')
    ]
