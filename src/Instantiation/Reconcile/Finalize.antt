-- ===== src/Instantiation/Reconcile/Finalize.antt =====
-- The steps of reconcileDelete of pkg/reconcilers/targetdatastore/reconciler.go, one by one.
pub mod Order
use config_server.Prelude.{
  ==_self, Option, Option-cases, String, [], arith, delete, false, inl, inr, lookup, lookup-delete,
  none, refl, some, string_eq, true, ℕ, ◌+◌, ◌∙◌, ◌∷◌, ◌≡◌, ◌⊎◌,
}
use config_server.Condition.{Condition}
use config_server.Errors.{Error, is_not_found, is_unknown_datastore_err}
use config_server.Instantiation.{
  Managed, Server, Target, Targets, Trace, UsedReferences, W, key_eq, removes_datastore,
  removes_deviation, removes_finalizer, stops_runtime,
}
use config_server.Instantiation.Manager.{
  delete_datastore_of, delete_target, remove_datastore_of, stop_loop,
}
use config_server.Instantiation.Ready.{apply_ready, record_transition}
use config_server.Instantiation.Reconcile.{ReconcileResult, delete_deviation_of, report}
use config_server.Transactor.{Key}

-- How often the finalizer of a target was removed.
unfoldable pub removals : Trace → ℕ
removals [] = 0
removals (removes_finalizer key ∷ t) = removals t + 1
removals (step ∷ t) = removals t

pub removals-apply_ready :
    (srv : Server) (target : Target) (new : Condition) (refs : Option UsedReferences) (t : Trace)
    → removals (apply_ready srv target new refs t).1 ≡ removals t
unfolding apply_ready record_transition removals
removals-apply_ready srv target new refs t = ground arith

-- The target is kept: its finalizer stays, and there is another try after five seconds.
abbrev pub Kept : Trace → ReconcileResult × W → Type 0
Kept t result = (result.0.0 ≡ 5) × (removals result.1.1 ≡ removals t)

pub report-Kept :
    (srv : Server) (target : Target) (cond : Condition) (refs : Option UsedReferences) (w : W)
    → Kept w.1 (report srv target 5 cond refs w)
unfolding report
report-Kept srv target cond refs (targets, t) = (refl, removals-apply_ready srv target cond refs t)

-- No run loop is left for the target: it had no runtime; or the one it had was never started, or has
-- exited before, or has exited now.
abbrev pub Stopped : Server → Key → W → Trace → Type 0
Stopped srv key (targets, t) t' =
    ((lookup key targets ≡ none) × (t' ≡ t))
    ⊎ ((managed : Managed) × (lookup key targets ≡ some managed)
        × (t' ≡ stops_runtime key ∷ t)
        × ((managed.started ≡ false) ⊎ (managed.runtime.stopped ≡ true) ⊎ (srv.exits t key ≡ true)))

stop_loop_lem :
    (srv : Server) (key : Key) (managed : Managed) (t : Trace)
    → (stop_loop srv key managed t).0 ≡ none
    → (managed.started ≡ false) ⊎ (managed.runtime.stopped ≡ true) ⊎ (srv.exits t key ≡ true)
unfolding stop_loop
stop_loop_lem srv key managed t done = ground (arith, done)

delete_target_absent :
    (srv : Server) (key : Key) (targets : Targets) (t : Trace)
    → lookup key targets ≡ none
    → delete_target srv key (targets, t) ≡ (none, (targets, t))
unfolding delete_target
delete_target_absent srv key targets t gone = rw (gone, delete_target) refl

delete_target_stopped :
    (srv : Server) (key : Key) (managed : Managed) (targets : Targets) (t : Trace)
    → lookup key targets ≡ some managed
    → (delete_target srv key (targets, t)).0 ≡ none
    → ((stop_loop srv key managed t).0 ≡ none)
      × (delete_target srv key (targets, t) ≡ (none, (delete key targets, stops_runtime key ∷ t)))
unfolding delete_target
delete_target_stopped srv key managed targets t found done = ground (arith, done, found)

pub delete_target_lem :
    (srv : Server) (key : Key) (targets : Targets) (t : Trace)
    → (delete_target srv key (targets, t)).0 ≡ none
    → let (targets', t') = (delete_target srv key (targets, t)).1 in
      Stopped srv key (targets, t) t' × (lookup key targets' ≡ none)
delete_target_lem srv key targets t done = elim (Option-cases (lookup key targets)) [
  | inl gone ↦ rw (delete_target_absent srv key targets t gone) (inl (gone, refl), gone)
  | inr (managed, found) ↦
      let (halted, same) = delete_target_stopped srv key managed targets t found done in
      rw same (
        inr (managed, found, refl, stop_loop_lem srv key managed t halted),
        lookup-delete key key targets ∙ rw (==_self key) refl,
      )
]

pub removals-delete_target :
    (srv : Server) (key : Key) (w : W) → removals (delete_target srv key w).1.1 ≡ removals w.1
unfolding delete_target removals
removals-delete_target srv key (targets, t) = ground arith

-- The dataserver has deleted the datastore, or does not know it.
abbrev pub DatastoreGone : Server → String → Trace → Type 0
DatastoreGone srv name t =
    (srv.has_client t ≡ true)
    × ((srv.remove_datastore t name ≡ none)
        ⊎ (is_unknown_datastore_err (srv.remove_datastore t name) ≡ true))

pub delete_datastore_of_lem :
    (srv : Server) (key : Key) (t : Trace)
    → (delete_datastore_of srv key t).0 ≡ none
    → DatastoreGone srv (srv.key_string key) t
      × ((delete_datastore_of srv key t).1 ≡ removes_datastore (srv.key_string key) ∷ t)
unfolding delete_datastore_of remove_datastore_of
delete_datastore_of_lem srv key t done = ground (arith, done)

pub removals-delete_datastore_of :
    (srv : Server) (key : Key) (t : Trace) → removals (delete_datastore_of srv key t).1 ≡ removals t
unfolding delete_datastore_of remove_datastore_of removals
removals-delete_datastore_of srv key t = ground arith

-- The API server has deleted the Deviation, or does not have it.
abbrev pub DeviationGone : Server → Key → Trace → Type 0
DeviationGone srv key t =
    (srv.remove_deviation t key ≡ none)
    ⊎ ((e : Error) × (srv.remove_deviation t key ≡ some e) × (is_not_found e ≡ true))

pub delete_deviation_of_lem :
    (srv : Server) (target : Target) (t : Trace)
    → (delete_deviation_of srv target t).0 ≡ none
    → let key : Key = record { namespace = target.namespace; name = target.name } in
      DeviationGone srv key t × ((delete_deviation_of srv target t).1 ≡ removes_deviation key ∷ t)
unfolding delete_deviation_of
delete_deviation_of_lem srv target t done =
    let key : Key = record { namespace = target.namespace; name = target.name } in
    elim (Option-cases (srv.remove_deviation t key)) [
      | inl gone ↦ (inl gone, ground (arith, gone))
      | inr (e, failed) ↦
          let missing : is_not_found e ≡ true = ground (arith, done, failed) in
          (inr (e, failed, missing), ground (arith, failed, missing))
    ]

pub removals-delete_deviation_of :
    (srv : Server) (target : Target) (t : Trace)
    → removals (delete_deviation_of srv target t).1 ≡ removals t
unfolding delete_deviation_of removals
removals-delete_deviation_of srv target t = ground arith
