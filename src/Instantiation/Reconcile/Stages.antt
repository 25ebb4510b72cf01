-- ===== src/Instantiation/Reconcile/Stages.antt =====
-- The stages of Reconcile in pkg/reconcilers/targetdatastore/reconciler.go that may apply Ready=True.
pub mod Ready
pub mod Truth
pub mod Whole
use config_server.Prelude.{
  Bytes, Option, Option-cases, String, [], ap, arith, differ, false, if◌then◌else◌, inl, inr,
  lookup, refl, some, string_eq, sym, ℕ, ◌+◌, ◌∙◌, ◌∷◌, ◌≡◌, ◌⊎◌,
}
use config_server.Condition.{Condition, is_true, new_condition}
use config_server.Errors.{Error, err, error_text, ok}
use config_server.Instantiation.{
  Managed, Server, Target, Targets, Trace, UsedReferences, W, applies_ready, key_eq,
}
use config_server.Instantiation.Manager.{
  apply_desired, compute_create_ds_hash, desire, get_or_create, new_managed, retry_token,
  set_retry_token, start,
}
use config_server.Instantiation.Manager.Laws.{get_or_create-apply_desired}
use config_server.Instantiation.Ready.{
  apply_ready, keep_time, ready_apply, ready_from_runtime, record_transition, target_not_ready,
}
use config_server.Instantiation.Reconcile.{
  ReconcileResult, blocked_condition, reconcile_configuration, reconcile_runtime, report,
}
use config_server.Instantiation.Request.{
  connection_profile_of, get_create_datastore_request, is_schema_ready, secret_of, sync_profile_of,
  tls_of,
}
use config_server.Runtime.{
  Runtime, RuntimeStatus, new_target_runtime, running, set_recovery_retry_token, status,
}
use config_server.Transactor.{DatastoreRequest, Key}

-- How often Ready=True was applied.
unfoldable pub readies : Trace → ℕ
unfolding is_true
readies [] = 0
readies (applies_ready apply ∷ t) =
    let rest = readies t in if is_true apply.condition then rest + 1 else rest
readies (step ∷ t) = readies t

pub not_ready-is_true :
    (srv : Server) (reason : String) (msg : Bytes) (w : W)
    → is_true (blocked_condition srv reason msg w) ≡ false
unfolding is_true blocked_condition target_not_ready new_condition
not_ready-is_true srv reason msg w = ground (arith, differ "False" "True" refl)

pub readies-apply_ready :
    (srv : Server) (target : Target) (cond : Condition) (refs : Option UsedReferences) (t : Trace)
    → is_true cond ≡ false
    → readies (apply_ready srv target cond refs t).1 ≡ readies t
unfolding apply_ready record_transition readies keep_time is_true ready_apply
readies-apply_ready srv target cond refs t blocked = ground (arith, blocked)

pub readies-report :
    (srv : Server) (target : Target) (requeue : ℕ) (cond : Condition) (refs : Option UsedReferences)
    (targets : Targets) (t : Trace)
    → is_true cond ≡ false
    → readies (report srv target requeue cond refs (targets, t)).1.1 ≡ readies t
unfolding report
readies-report srv target requeue cond refs targets t blocked =
    readies-apply_ready srv target cond refs t blocked

ready_from_runtime-is_true :
    (now : ℕ) (st : RuntimeStatus)
    → (st.phase ≡ running) ⊎ (is_true (ready_from_runtime now st).0 ≡ false)
unfolding ready_from_runtime is_true target_not_ready new_condition
ready_from_runtime-is_true now st = ground (arith, differ "False" "True" refl)

phase_of_desired :
    (req : DatastoreRequest) (hash token : String) (managed : Managed)
    → (desire (some req) hash (start (retry_token token managed))).runtime.phase
      ≡ managed.runtime.phase
unfolding desire start retry_token set_recovery_retry_token
phase_of_desired req hash token managed = ground arith

running_before :
    (key : Key) (targets : Targets)
    → (get_or_create key targets).0.runtime.phase ≡ running
    → (managed : Managed) × (lookup key targets ≡ some managed) × (managed.runtime.phase ≡ running)
unfolding get_or_create new_managed new_target_runtime
running_before key targets r = elim (Option-cases (lookup key targets)) [
  | inl absent ↦ absurd (ground (arith, r, absent))
  | inr (managed, found) ↦ (managed, found, ground (arith, r, found))
]

phase_of_status : (rt : Runtime) → rt.phase ≡ (status rt).phase
unfolding status
phase_of_status rt = refl

abbrev pub Runs : Key → Targets → Type 0
Runs key targets =
    (managed : Managed) × (lookup key targets ≡ some managed) × (managed.runtime.phase ≡ running)

abbrev pub Same : Trace → ReconcileResult × W → Type 0
Same t result = readies result.1.1 ≡ readies t

pub reconcile_runtime_lem :
    (srv : Server) (key : Key) (target : Target) (req : DatastoreRequest) (refs : UsedReferences)
    (targets : Targets) (t : Trace)
    → Same t (reconcile_runtime srv key target req refs (targets, t)) ⊎ Runs key targets
unfolding reconcile_runtime
reconcile_runtime_lem srv key target req refs targets t =
    let hash = compute_create_ds_hash srv req refs in
    let desired = apply_desired key req hash (set_retry_token key target.recovery_retry targets) in
    let (managed, targets') = get_or_create key desired in
    let st = status managed.runtime in
    let (cond, (requeue, datastore_up)) = ready_from_runtime (srv.now t) st in
    elim (ready_from_runtime-is_true (srv.now t) st) [
      | inr blocked ↦ inl (
          readies-report srv target requeue cond
            (if datastore_up then some refs else target.used_references) targets' t blocked)
      | inl r ↦ inr (
          running_before key targets (
            sym (phase_of_desired req hash target.recovery_retry (get_or_create key targets).0)
            ∙ sym (
                ap (λ (m : Managed × Targets). m.0.runtime.phase)
                  (get_or_create-apply_desired key req hash target.recovery_retry targets))
            ∙ phase_of_status managed.runtime
            ∙ r))
    ]

-- What a reconcile relied on that applied Ready=True.
abbrev pub WentReady : Server → Key → Target → Targets → Type 0
WentReady srv key target targets =
    (req : DatastoreRequest) × (refs : UsedReferences) × (t : Trace)
    × ((get_create_datastore_request srv target t).0 ≡ ok (req, refs))
    × Runs key targets

pub configuration_failed :
    (srv : Server) (key : Key) (target : Target) (targets : Targets) (t : Trace) (e : Error)
    → (get_create_datastore_request srv target t).0 ≡ err e
    → let t' = (get_create_datastore_request srv target t).1 in
      reconcile_configuration srv key target (targets, t)
      ≡ report srv target 0
          (blocked_condition srv "InvalidConfiguration" (error_text e) (targets, t'))
          target.used_references
          (targets, t')
unfolding reconcile_configuration
configuration_failed srv key target targets t e failed = rw (failed, reconcile_configuration) refl

pub configuration_done :
    (srv : Server) (key : Key) (target : Target) (targets : Targets) (t : Trace)
    (answer : DatastoreRequest × UsedReferences)
    → (get_create_datastore_request srv target t).0 ≡ ok answer
    → reconcile_configuration srv key target (targets, t)
      ≡ reconcile_runtime srv key target answer.0 answer.1
          (targets, (get_create_datastore_request srv target t).1)
unfolding reconcile_configuration
configuration_done srv key target targets t answer done = rw (done, reconcile_configuration) refl

pub readies-get_create_datastore_request :
    (srv : Server) (target : Target) (t : Trace)
    → readies (get_create_datastore_request srv target t).1 ≡ readies t
unfolding get_create_datastore_request sync_profile_of connection_profile_of secret_of tls_of
    readies
readies-get_create_datastore_request srv target t = ground arith

pub readies-is_schema_ready :
    (srv : Server) (target : Target) (t : Trace)
    → readies (is_schema_ready srv target t).1 ≡ readies t
unfolding is_schema_ready readies
readies-is_schema_ready srv target t = ground arith
