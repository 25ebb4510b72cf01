-- ===== src/Instantiation/Reconcile/Stages/Ready.antt =====
-- The schema and configuration stages of Reconcile in pkg/reconcilers/targetdatastore/reconciler.go.
use config_server.Prelude.{
  Bool, Bool-cases, Bytes, ap, false, inl, inr, none, refl, string_eq, true, utf8, ◌++◌, ◌∙◌, ◌≡◌,
  ◌⊎◌,
}
use config_server.Errors.{Error, Result-cases, err, error_text, ok}
use config_server.Instantiation.{Server, Target, Targets, Trace, key_eq}
use config_server.Instantiation.Reconcile.{
  blocked_condition, reconcile_configuration, reconcile_schema, report, schema_unknown,
}
use config_server.Instantiation.Reconcile.Stages.{
  Same, WentReady, configuration_done, configuration_failed, not_ready-is_true,
  readies-get_create_datastore_request, readies-is_schema_ready, readies-report,
  reconcile_runtime_lem,
}
use config_server.Instantiation.Request.{get_create_datastore_request, is_schema_ready}
use config_server.Transactor.{Key}

reconcile_configuration_lem :
    (srv : Server) (key : Key) (target : Target) (targets : Targets) (t : Trace)
    → Same t (reconcile_configuration srv key target (targets, t))
      ⊎ WentReady srv key target targets
reconcile_configuration_lem srv key target targets t =
    let (answer, t') = get_create_datastore_request srv target t in
    let same = readies-get_create_datastore_request srv target t in
    elim (Result-cases answer) [
      | inr (e, failed) ↦
          let cond = blocked_condition srv "InvalidConfiguration" (error_text e) (targets, t') in
          inl (
            rw (configuration_failed srv key target targets t e failed) (
              readies-report srv target 0 cond target.used_references targets t'
                (not_ready-is_true srv "InvalidConfiguration" (error_text e) (targets, t'))
              ∙ same))
      | inl (answer, done) ↦
          rw (configuration_done srv key target targets t answer done)
            (elim (reconcile_runtime_lem srv key target answer.0 answer.1 targets t') [
              | inl blocked ↦ inl (blocked ∙ same)
              | inr runs ↦ inr (answer.0, answer.1, t, done, runs)
            ])
    ]

schema_failed :
    (srv : Server) (key : Key) (target : Target) (targets : Targets) (t : Trace) (e : Error)
    → (is_schema_ready srv target t).0 ≡ err e
    → reconcile_schema srv key target (targets, t)
      ≡ schema_unknown srv target e (targets, (is_schema_ready srv target t).1)
unfolding reconcile_schema
schema_failed srv key target targets t e failed = rw (failed, reconcile_schema) refl

schema_blocks :
    (srv : Server) (key : Key) (target : Target) (targets : Targets) (t : Trace) (msg : Bytes)
    → (is_schema_ready srv target t).0 ≡ ok (false, msg)
    → let t' = (is_schema_ready srv target t).1 in
      reconcile_schema srv key target (targets, t)
      ≡ report srv target 10
          (blocked_condition srv "SchemaNotReady" msg (targets, t'))
          none
          (targets, t')
unfolding reconcile_schema
schema_blocks srv key target targets t msg blocked = rw (blocked, reconcile_schema) refl

schema_passes :
    (srv : Server) (key : Key) (target : Target) (targets : Targets) (t : Trace) (msg : Bytes)
    → (is_schema_ready srv target t).0 ≡ ok (true, msg)
    → reconcile_schema srv key target (targets, t)
      ≡ reconcile_configuration srv key target (targets, (is_schema_ready srv target t).1)
unfolding reconcile_schema
schema_passes srv key target targets t msg passed = rw (passed, reconcile_schema) refl

readies-schema_unknown :
    (srv : Server) (target : Target) (e : Error) (targets : Targets) (t : Trace)
    → Same t (schema_unknown srv target e (targets, t))
unfolding schema_unknown
readies-schema_unknown srv target e targets t =
    let msg = utf8 "cannot get schema ready state: " ++ error_text e in
    readies-report srv target 0 (blocked_condition srv "SchemaNotReady" msg (targets, t)) none
      targets t (not_ready-is_true srv "SchemaNotReady" msg (targets, t))

-- A schema that is ready, on top.
abbrev pub SchemaReady : Server → Target → Type 0
SchemaReady srv target =
    (t : Trace) × (msg : Bytes) × ((is_schema_ready srv target t).0 ≡ ok (true, msg))

pub reconcile_schema_lem :
    (srv : Server) (key : Key) (target : Target) (targets : Targets) (t : Trace)
    → Same t (reconcile_schema srv key target (targets, t))
      ⊎ (SchemaReady srv target × WentReady srv key target targets)
reconcile_schema_lem srv key target targets t =
    let (answer, t') = is_schema_ready srv target t in
    let same = readies-is_schema_ready srv target t in
    elim (Result-cases answer) [
      | inr (e, failed) ↦ inl (
          rw (schema_failed srv key target targets t e failed)
            (readies-schema_unknown srv target e targets t' ∙ same))
      | inl ((ready, msg), done) ↦ elim (Bool-cases ready) [
        | inl yes_ready ↦
            let passed : answer ≡ ok (true, msg) =
              done ∙ ap (λ (b : Bool). ok (b, msg)) yes_ready in
            rw (schema_passes srv key target targets t msg passed)
              (elim (reconcile_configuration_lem srv key target targets t') [
                | inl blocked ↦ inl (blocked ∙ same)
                | inr went ↦ inr ((t, msg, passed), went)
              ])
        | inr not_yet ↦
            let blocked : answer ≡ ok (false, msg) =
              done ∙ ap (λ (b : Bool). ok (b, msg)) not_yet in
            inl (
              rw (schema_blocks srv key target targets t msg blocked) (
                readies-report srv target 10
                  (blocked_condition srv "SchemaNotReady" msg (targets, t')) none targets t'
                  (not_ready-is_true srv "SchemaNotReady" msg (targets, t'))
                ∙ same))
      ]
    ]
