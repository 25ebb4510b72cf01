-- ===== src/TargetConfig.antt =====
-- Reconcile of pkg/reconcilers/targetconfig/reconciler.go: when the configs of a target are transacted.
-- A requeue is in milliseconds, 0 for none.
pub mod Guard
use config_server.Prelude.{
  Bool, Bytes, Option, String, [], bytes_eq, if◌then◌else◌, nat_eq, none, not, some, string_eq,
  utf8, ℕ, ◌++◌, ◌<>◌, ◌==◌, ◌∷◌,
}
use config_server.Condition.{condition_true, condition_type_ready, get_condition}
use config_server.Config.{config_not_ready}
use config_server.Errors.{Error, Result, err, ok, wrapped}
use config_server.Instantiation.{Target}
use config_server.Runtime.{Runtime, RuntimeStatus, get_schema, status}
use config_server.Runtime.Loop.{get_datastore}
use config_server.Transactor.{
  Env, Handle, History, Key, M, Outcome, adds_target_finalizer, gets_target,
  removes_target_finalizer,
}
use config_server.Transactor.Status.{set_configs_not_ready, set_configs_ready_from_applied}
use config_server.Transactor.Transact.{transact}

-- What the controller asks, besides the transactor's questions: whether the API group is served, the
-- target (`ok none` is NotFound), its finalizers, and how fmt shows the status of a runtime.
pub record Controller : Type 0 where
  pub api_available : History → Bool
  pub read_target : History → Key → Result (Option Target)
  pub add_target_finalizer : History → Key → Option Error
  pub remove_target_finalizer : History → Key → Option Error
  pub show_status : RuntimeStatus → Bytes

-- RequeueAfter, and the error.
abbrev pub Requeue : Type 0
Requeue = ℕ × Option Error

-- Target.IsReady.
unfoldable pub is_ready : Target → Bool
unfolding get_condition
is_ready target = (get_condition condition_type_ready target.conditions).status == condition_true

-- Target.NotReadyReason.
unfoldable pub not_ready_reason : Target → Bytes
unfolding get_condition utf8
not_ready_reason target =
    let cond = get_condition condition_type_ready target.conditions in
    if cond.status == condition_true
    then utf8 "target ready"
    else if cond.reason == ""
    then utf8 "target not ready"
    else if cond.message == []
    then utf8 cond.reason
    else utf8 cond.reason ++ utf8 ": " ++ cond.message

-- errors.Wrap of a status update.
unfoldable pub update_status_error : Result (Unit {0}) → Option Error
unfolding utf8
update_status_error (ok x) = none
update_status_error (err e) = some (wrapped (utf8 "cannot update status: ") e)

-- setConfigsNotReady.
unfoldable pub report_not_ready : Env → Key → String → Bytes → M (Option Error)
unfolding set_configs_not_ready config_not_ready update_status_error
report_not_ready env key reason msg h =
    let (r, h') = set_configs_not_ready env key (config_not_ready (env.now h) reason msg) h in
    (update_status_error r, h')

-- setConfigsReadyFromApplied.
unfoldable pub report_applied : Env → Key → M (Option Error)
unfolding set_configs_ready_from_applied update_status_error
report_applied env key h =
    let (r, h') = set_configs_ready_from_applied env key h in (update_status_error r, h')

-- The message of a runtime that is not ready; `none` is no handle.
unfoldable pub runtime_message : Controller → Option RuntimeStatus → Bytes
unfolding utf8
runtime_message ctl none = utf8 "target runtime not ready"
runtime_message ctl (some st) =
    let msg = utf8 "target runtime not ready: " ++ ctl.show_status st in
    if st.last_error == [] then msg else msg ++ utf8 ": " ++ st.last_error

-- What follows Transact.
unfoldable pub after_transact : Env → Key → Outcome → M Requeue
unfolding report_applied
after_transact env key (retry, some e) h =
    let (failure, h') = report_applied env key h in
    if not retry
    then ((0, none), h)
    else elim failure [ some f ↦ ((0, some f), h') | none ↦ ((0, some e), h') ]
after_transact env key (retry, none) h =
    let (failure, h') = report_applied env key h in
    elim failure [ some f ↦ ((0, some f), h') | none ↦ ((if retry then 500 else 0, none), h') ]

unfoldable pub handle_of : Env → Key → Runtime → Handle
unfolding get_schema
handle_of env key rt = record { datastore_name = env.key_string key; schema = some (get_schema rt) }

-- From GetDatastore on. `none` is a target without a runtime.
unfoldable pub reconcile_datastore : Env → Controller → Key → Option Runtime → M Requeue
unfolding get_datastore transact after_transact handle_of report_not_ready runtime_message status
    utf8
reconcile_datastore env ctl key none h =
    let (failure, h') =
      report_not_ready env key "TargetRuntimeNotReady" (runtime_message ctl none) h in
    ((5000, failure), h')
reconcile_datastore env ctl key (some rt) h =
    let (failure, h') =
      report_not_ready env key "TargetRuntimeNotReady" (runtime_message ctl (some (status rt))) h in
    let (outcome, h'') = transact env key (handle_of env key rt) h in
    if get_datastore env (rt, h) then after_transact env key outcome h'' else ((5000, failure), h')

unfoldable pub release_target : Env → Controller → Key → M Requeue
unfolding report_not_ready utf8
release_target env ctl key h =
    let (failure, h') =
      report_not_ready env key "TargetDeleting" (utf8 "target is being deleted") h in
    elim failure [
      | some e ↦ ((0, some e), h')
      | none ↦ (
        (
          0,
          elim (ctl.remove_target_finalizer h' key) [
            | none ↦ none
            | some e ↦ some (wrapped (utf8 "cannot remove finalizer: ") e)
          ],
        ),
        removes_target_finalizer key ∷ h',
      )
    ]

-- A target that is not being deleted, once its finalizer is there.
unfoldable pub reconcile_ready_target : Env → Controller → Key → Option Runtime → Target → M Requeue
unfolding is_ready reconcile_datastore report_not_ready not_ready_reason
reconcile_ready_target env ctl key runtime target h =
    let (failure, h') = report_not_ready env key "TargetNotReady" (not_ready_reason target) h in
    if is_ready target then reconcile_datastore env ctl key runtime h else ((0, failure), h')

unfoldable pub reconcile_found : Env → Controller → Key → Option Runtime → Target → M Requeue
unfolding release_target reconcile_ready_target utf8
reconcile_found env ctl key runtime target h =
    let h' = adds_target_finalizer key ∷ h in
    if target.deleting
    then release_target env ctl key h
    else elim (ctl.add_target_finalizer h key) [
      | some e ↦ ((0, some (wrapped (utf8 "cannot add finalizer: ") e)), h')
      | none ↦ reconcile_ready_target env ctl key runtime target h'
    ]

-- Reconcile, of a target that has the given runtime.
unfoldable pub reconcile_configs : Env → Controller → Key → Option Runtime → M Requeue
unfolding reconcile_found report_not_ready utf8
reconcile_configs env ctl key runtime h =
    let missing = utf8 "target " ++ utf8 (key.namespace <> "/" <> key.name) ++ utf8 " not found" in
    let (failure, h'') = report_not_ready env key "TargetNotFound" missing (gets_target key ∷ h) in
    if not (ctl.api_available h) then ((10000, none), h) else elim (ctl.read_target h key) [
      | err e ↦ ((0, some (wrapped (utf8 "cannot get cr: ") e)), gets_target key ∷ h)
      | ok none ↦ ((0, failure), h'')
      | ok (some target) ↦ reconcile_found env ctl key runtime target (gets_target key ∷ h)
    ]
