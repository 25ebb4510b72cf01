-- ===== src/Instantiation/Reconcile/Stages/Whole.antt =====
-- Reconcile of pkg/reconcilers/targetdatastore/reconciler.go as a whole: when a target becomes Ready.
use config_server.Prelude.{
  Bool, Bool-cases, Option, Option-cases, ap, arith, false, if◌then◌else◌, inl, inr, refl, some,
  string_eq, true, ◌∙◌, ◌∷◌, ◌≡◌, ◌⊎◌,
}
use config_server.Condition.{get_condition, is_true}
use config_server.Errors.{Result-cases, ok}
use config_server.Instantiation.{Server, Target, Targets, Trace, W, key_eq, reads_target}
use config_server.Instantiation.Ready.{drop_legacy_conditions}
use config_server.Instantiation.Reconcile.{
  ReconcileResult, reconcile, reconcile_delete, reconcile_live, reconcile_target,
}
use config_server.Instantiation.Reconcile.Stages.{Same, WentReady, readies}
use config_server.Instantiation.Reconcile.Stages.Ready.{SchemaReady}
use config_server.Instantiation.Reconcile.Stages.Truth.{live_lem, readies-reconcile_delete}
use config_server.Transactor.{Key}

readies-drop_legacy_conditions :
    (srv : Server) (key : Key) (target : Target) (t : Trace)
    → readies (drop_legacy_conditions srv key target t).1 ≡ readies t
unfolding drop_legacy_conditions readies
readies-drop_legacy_conditions srv key target t = ground arith

-- The checks that the target has passed.
abbrev pub Passed : Server → Key → Target → Targets → Type 0
Passed srv key target targets =
    (target.deleting ≡ false)
    × (is_true (get_condition "TargetDiscoveryReady" target.conditions) ≡ true)
    × SchemaReady srv target
    × WentReady srv key target targets

unless_dropped :
    (srv : Server) (key : Key) (target : Target) (targets : Targets) (t : Trace) (marked : Bool)
    → target.deleting ≡ marked
    → let result =
        if marked
        then reconcile_delete srv key target (targets, t)
        else reconcile_live srv key target (targets, t) in
      Same t result ⊎ Passed srv key target targets
unless_dropped srv key target targets t true gone =
    inl (readies-reconcile_delete srv key target (targets, t))
unless_dropped srv key target targets t false here = elim (live_lem srv key target targets t) [
  | inl blocked ↦ inl blocked
  | inr (found, schema, went) ↦ inr (here, found, schema, went)
]

target_lem :
    (srv : Server) (key : Key) (target : Target) (targets : Targets) (t : Trace)
    → Same t (reconcile_target srv key target (targets, t)) ⊎ Passed srv key target targets
unfolding reconcile_target
target_lem srv key target targets t =
    let (dropped, t') = drop_legacy_conditions srv key target t in
    let same = readies-drop_legacy_conditions srv key target t in
    elim (Result-cases dropped) [
      | inr (e, failed) ↦ inl (ground (arith, failed, same))
      | inl (patched, done) ↦ elim (Bool-cases patched) [
        | inl cleaned ↦ inl (ground (arith, done, cleaned, same))
        | inr clean ↦
            let kept : dropped ≡ ok false = done ∙ ap (λ (b : Bool). ok b) clean in
            rw (kept, reconcile_target)
              (elim (unless_dropped srv key target targets t' target.deleting refl) [
                | inl blocked ↦ inl (blocked ∙ same)
                | inr passed ↦ inr passed
              ])
      ]
    ]

reconcile_found :
    (srv : Server) (key : Key) (targets : Targets) (t : Trace) (target : Target)
    → srv.read_target t key ≡ ok (some target)
    → reconcile srv key (targets, t)
      ≡ reconcile_target srv key target (targets, reads_target key ∷ t)
unfolding reconcile
reconcile_found srv key targets t target read = rw (read, reconcile) refl

-- Reconcile applies Ready=True only to a target that is there and is not deleted, whose discovery is
-- ready, whose schema is ready, whose datastore request could be built from what it refers to, and
-- whose runtime was in phase Running before the call.
pub reconcile_ready :
    (srv : Server) (key : Key) (targets : Targets) (t : Trace)
    → (readies (reconcile srv key (targets, t)).1.1 ≡ readies t)
      ⊎ ((target : Target) × (srv.read_target t key ≡ ok (some target))
          × Passed srv key target targets)
unfolding reconcile readies
reconcile_ready srv key targets t = elim (Result-cases (srv.read_target t key)) [
  | inr (e, failed) ↦ inl (ground (arith, failed))
  | inl (found, done) ↦ elim (Option-cases found) [
    | inl missing ↦ inl (ground (arith, done, missing))
    | inr (target, there) ↦
        let read : srv.read_target t key ≡ ok (some target) =
          done ∙ ap (λ (o : Option Target). ok o) there in
        elim (target_lem srv key target targets (reads_target key ∷ t)) [
          | inl blocked ↦ inl (
              ap (λ (r : ReconcileResult × W). readies r.1.1)
                (reconcile_found srv key targets t target read)
              ∙ blocked)
          | inr passed ↦ inr (target, read, passed)
        ]
  ]
]
