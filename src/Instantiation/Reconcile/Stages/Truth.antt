-- ===== src/Instantiation/Reconcile/Stages/Truth.antt =====
-- When Reconcile of pkg/reconcilers/targetdatastore/reconciler.go says that a target is Ready.
use config_server.Prelude.{
  Bool-cases, Bytes, Option-cases, ap, arith, inl, inr, none, refl, string_eq, true, utf8, ◌++◌,
  ◌∙◌, ◌∷◌, ◌≡◌, ◌⊎◌,
}
use config_server.Condition.{get_condition, is_true}
use config_server.Errors.{Error, error_text}
use config_server.Instantiation.{Server, Target, Targets, Trace, W, adds_finalizer, key_eq}
use config_server.Instantiation.Manager.{
  clear_desired, delete_datastore_of, delete_target, remove_datastore_of,
}
use config_server.Instantiation.Reconcile.{
  blocked_condition, delete_deviation_of, finalize, finalize_datastore, finalize_deviation,
  reconcile_delete, reconcile_discovery, reconcile_live, retry_delete,
}
use config_server.Instantiation.Reconcile.Finalize.Order.{
  finalize_datastore_done, finalize_datastore_failed, finalize_deviation_done,
  finalize_deviation_failed, finalize_done, finalize_failed,
}
use config_server.Instantiation.Reconcile.Stages.{
  Same, WentReady, not_ready-is_true, readies, readies-report,
}
use config_server.Instantiation.Reconcile.Stages.Ready.{SchemaReady, reconcile_schema_lem}
use config_server.Transactor.{Key}

readies-retry_delete :
    (srv : Server) (target : Target) (msg : Bytes) (e : Error) (w : W)
    → readies (retry_delete srv target msg e w).1.1 ≡ readies w.1
unfolding retry_delete
readies-retry_delete srv target msg e (targets, t) =
    let text = msg ++ utf8 ": " ++ error_text e in
    readies-report srv target 5 (blocked_condition srv "Deleting" text (targets, t))
      target.used_references targets t (not_ready-is_true srv "Deleting" text (targets, t))

readies-delete_deviation_of :
    (srv : Server) (target : Target) (t : Trace)
    → readies (delete_deviation_of srv target t).1 ≡ readies t
unfolding delete_deviation_of readies
readies-delete_deviation_of srv target t = ground arith

readies-delete_datastore_of :
    (srv : Server) (key : Key) (t : Trace) → readies (delete_datastore_of srv key t).1 ≡ readies t
unfolding delete_datastore_of remove_datastore_of readies
readies-delete_datastore_of srv key t = ground arith

readies-delete_target :
    (srv : Server) (key : Key) (w : W) → readies (delete_target srv key w).1.1 ≡ readies w.1
unfolding delete_target readies
readies-delete_target srv key (targets, t) = ground arith

readies-finalize_deviation :
    (srv : Server) (key : Key) (target : Target) (targets : Targets) (t : Trace)
    → readies (finalize_deviation srv key target (targets, t)).1.1 ≡ readies t
unfolding readies
readies-finalize_deviation srv key target targets t =
    let (failure, t') = delete_deviation_of srv target t in
    let same = readies-delete_deviation_of srv target t in
    elim (Option-cases failure) [
      | inl done ↦
          ap (λ (w : W). readies w.1) (finalize_deviation_done srv key target targets t done) ∙ same
      | inr (e, failed) ↦
          rw (finalize_deviation_failed srv key target targets t e failed) (
            readies-retry_delete srv target (utf8 "cannot delete deviation") e (targets, t') ∙ same)
    ]

readies-finalize_datastore :
    (srv : Server) (key : Key) (target : Target) (targets : Targets) (t : Trace)
    → readies (finalize_datastore srv key target (targets, t)).1.1 ≡ readies t
readies-finalize_datastore srv key target targets t =
    let (failure, t') = delete_datastore_of srv key t in
    let same = readies-delete_datastore_of srv key t in
    elim (Option-cases failure) [
      | inl done ↦
          rw (finalize_datastore_done srv key target targets t done)
            (readies-finalize_deviation srv key target targets t' ∙ same)
      | inr (e, failed) ↦
          rw (finalize_datastore_failed srv key target targets t e failed) (
            readies-retry_delete srv target (utf8 "cannot delete datastore") e (targets, t') ∙ same)
    ]

readies-finalize :
    (srv : Server) (key : Key) (target : Target) (w : W)
    → readies (finalize srv key target w).1.1 ≡ readies w.1
readies-finalize srv key target w =
    let (failure, (targets', t')) = delete_target srv key w in
    let same = readies-delete_target srv key w in
    elim (Option-cases failure) [
      | inl done ↦
          rw (finalize_done srv key target w done)
            (readies-finalize_datastore srv key target targets' t' ∙ same)
      | inr (e, failed) ↦ rw (finalize_failed srv key target w e failed) (
          readies-retry_delete srv target (utf8 "cannot stop target runtime") e (targets', t')
          ∙ same)
    ]

pub readies-reconcile_delete :
    (srv : Server) (key : Key) (target : Target) (w : W)
    → readies (reconcile_delete srv key target w).1.1 ≡ readies w.1
unfolding reconcile_delete
readies-reconcile_delete srv key target (targets, t) =
    let msg = utf8 "waiting for other finalizers" in
    let cond = blocked_condition srv "Deleting" msg (targets, t) in
    let early =
      readies-report srv target 5 cond target.used_references targets t
        (not_ready-is_true srv "Deleting" msg (targets, t)) in
    ground (arith, early, readies-finalize srv key target (targets, t))

discovery_lem :
    (srv : Server) (key : Key) (target : Target) (targets : Targets) (t : Trace)
    → Same t (reconcile_discovery srv key target (targets, t))
      ⊎ ((is_true (get_condition "TargetDiscoveryReady" target.conditions) ≡ true)
          × SchemaReady srv target
          × WentReady srv key target targets)
unfolding reconcile_discovery
discovery_lem srv key target targets t =
    let discovery = get_condition "TargetDiscoveryReady" target.conditions in
    let released = clear_desired key targets in
    elim (Bool-cases (is_true discovery)) [
      | inl found ↦ rw found (elim (reconcile_schema_lem srv key target targets t) [
        | inl blocked ↦ inl blocked
        | inr (schema, went) ↦ inr (refl, schema, went)
      ])
      | inr missing ↦
          let cond = blocked_condition srv "DiscoveryNotReady" discovery.message (released, t) in
          inl (
            rw missing (
              readies-report srv target 0 cond none released t
                (not_ready-is_true srv "DiscoveryNotReady" discovery.message (released, t))))
    ]

pub live_lem :
    (srv : Server) (key : Key) (target : Target) (targets : Targets) (t : Trace)
    → Same t (reconcile_live srv key target (targets, t))
      ⊎ ((is_true (get_condition "TargetDiscoveryReady" target.conditions) ≡ true)
          × SchemaReady srv target
          × WentReady srv key target targets)
unfolding reconcile_live readies
live_lem srv key target targets t = elim (Option-cases (srv.add_finalizer t key)) [
  | inr (e, failed) ↦ inl (ground (arith, failed))
  | inl done ↦
      rw (done, reconcile_live) (discovery_lem srv key target targets (adds_finalizer key ∷ t))
]
