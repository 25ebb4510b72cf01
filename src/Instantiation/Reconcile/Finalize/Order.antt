-- ===== src/Instantiation/Reconcile/Finalize/Order.antt =====
-- When reconcileDelete of pkg/reconcilers/targetdatastore/reconciler.go removes the finalizer.
use config_server.Prelude.{
  Bool-cases, Bytes, Option-cases, ap, arith, false, inl, inr, length, lookup, ltb, none, refl,
  some, string_eq, subst, true, utf8, ◌++◌, ◌∙◌, ◌∷◌, ◌≡◌, ◌≤◌, ◌⊎◌,
}
use config_server.Errors.{Error, error_text}
use config_server.Instantiation.{
  Server, Target, Targets, Trace, W, key_eq, removes_datastore, removes_deviation,
  removes_finalizer,
}
use config_server.Instantiation.Manager.{delete_datastore_of, delete_target}
use config_server.Instantiation.Reconcile.{
  blocked_condition, delete_deviation_of, finalize, finalize_datastore, finalize_deviation,
  reconcile_delete, remove_finalizer_of, retry_delete,
}
use config_server.Instantiation.Reconcile.Finalize.{
  DatastoreGone, DeviationGone, Kept, Stopped, delete_datastore_of_lem, delete_deviation_of_lem,
  delete_target_lem, removals, removals-delete_datastore_of, removals-delete_deviation_of,
  removals-delete_target, report-Kept,
}
use config_server.Transactor.{Key}

abbrev deviation_of : Target → Key
deviation_of target = record { namespace = target.namespace; name = target.name }

retry_delete-Kept :
    (srv : Server) (target : Target) (msg : Bytes) (e : Error) (targets : Targets) (t t' : Trace)
    → removals t' ≡ removals t
    → Kept t (retry_delete srv target msg e (targets, t'))
unfolding retry_delete
retry_delete-Kept srv target msg e targets t t' same =
    let kept =
      report-Kept srv target
        (blocked_condition srv "Deleting" (msg ++ utf8 ": " ++ error_text e) (targets, t'))
        target.used_references (targets, t') in
    (kept.0, kept.1 ∙ same)

pub finalize_deviation_failed :
    (srv : Server) (key : Key) (target : Target) (targets : Targets) (t : Trace) (e : Error)
    → (delete_deviation_of srv target t).0 ≡ some e
    → finalize_deviation srv key target (targets, t)
      ≡ retry_delete srv target
          (utf8 "cannot delete deviation")
          e
          (targets, (delete_deviation_of srv target t).1)
unfolding finalize_deviation
finalize_deviation_failed srv key target targets t e failed = rw (failed, finalize_deviation) refl

pub finalize_deviation_done :
    (srv : Server) (key : Key) (target : Target) (targets : Targets) (t : Trace)
    → (delete_deviation_of srv target t).0 ≡ none
    → (finalize_deviation srv key target (targets, t)).1
      ≡ (targets, removes_finalizer key ∷ (delete_deviation_of srv target t).1)
unfolding finalize_deviation remove_finalizer_of
finalize_deviation_done srv key target targets t done = rw (done, finalize_deviation) refl

pub finalize_datastore_failed :
    (srv : Server) (key : Key) (target : Target) (targets : Targets) (t : Trace) (e : Error)
    → (delete_datastore_of srv key t).0 ≡ some e
    → finalize_datastore srv key target (targets, t)
      ≡ retry_delete srv target
          (utf8 "cannot delete datastore")
          e
          (targets, (delete_datastore_of srv key t).1)
unfolding finalize_datastore
finalize_datastore_failed srv key target targets t e failed = rw (failed, finalize_datastore) refl

pub finalize_datastore_done :
    (srv : Server) (key : Key) (target : Target) (targets : Targets) (t : Trace)
    → (delete_datastore_of srv key t).0 ≡ none
    → finalize_datastore srv key target (targets, t)
      ≡ finalize_deviation srv key target (targets, (delete_datastore_of srv key t).1)
unfolding finalize_datastore
finalize_datastore_done srv key target targets t done = rw (done, finalize_datastore) refl

pub finalize_failed :
    (srv : Server) (key : Key) (target : Target) (w : W) (e : Error)
    → (delete_target srv key w).0 ≡ some e
    → finalize srv key target w
      ≡ retry_delete srv target (utf8 "cannot stop target runtime") e (delete_target srv key w).1
unfolding finalize
finalize_failed srv key target w e failed = rw (failed, finalize) refl

pub finalize_done :
    (srv : Server) (key : Key) (target : Target) (w : W)
    → (delete_target srv key w).0 ≡ none
    → finalize srv key target w ≡ finalize_datastore srv key target (delete_target srv key w).1
unfolding finalize
finalize_done srv key target w done = rw (done, finalize) refl

-- After the third step, the target is kept, or the Deviation is gone and the finalizer is off.
finalize_deviation_lem :
    (srv : Server) (key : Key) (target : Target) (targets : Targets) (t : Trace)
    → let result = finalize_deviation srv key target (targets, t) in
      Kept t result
      ⊎ (DeviationGone srv (deviation_of target) t
          × (result.1
              ≡ (targets, removes_finalizer key ∷ removes_deviation (deviation_of target) ∷ t)))
finalize_deviation_lem srv key target targets t =
    let (failure, t') = delete_deviation_of srv target t in
    elim (Option-cases failure) [
      | inl done ↦
          let (gone, path) = delete_deviation_of_lem srv target t done in
          inr (
            gone,
            finalize_deviation_done srv key target targets t done
                ∙ ap (λ (s : Trace). (targets, removes_finalizer key ∷ s)) path,
          )
      | inr (e, failed) ↦ inl (
          rw (finalize_deviation_failed srv key target targets t e failed) (
            retry_delete-Kept srv target (utf8 "cannot delete deviation") e targets t t'
              (removals-delete_deviation_of srv target t)))
    ]

-- From the second step on, the same, with the datastore gone first.
finalize_datastore_lem :
    (srv : Server) (key : Key) (target : Target) (targets : Targets) (t : Trace)
    → let result = finalize_datastore srv key target (targets, t) in
      let t' = removes_datastore (srv.key_string key) ∷ t in
      Kept t result
      ⊎ (DatastoreGone srv (srv.key_string key) t
          × DeviationGone srv (deviation_of target) t'
          × (result.1
              ≡ (targets, removes_finalizer key ∷ removes_deviation (deviation_of target) ∷ t')))
finalize_datastore_lem srv key target targets t =
    let (failure, t') = delete_datastore_of srv key t in
    let same = removals-delete_datastore_of srv key t in
    elim (Option-cases failure) [
      | inl done ↦
          let (gone, path) = delete_datastore_of_lem srv key t done in
          rw (finalize_datastore_done srv key target targets t done)
            (elim (finalize_deviation_lem srv key target targets t') [
              | inl kept ↦ inl (kept.0, kept.1 ∙ same)
              | inr (away, last) ↦ inr (
                gone,
                subst (λ (s : Trace). DeviationGone srv (deviation_of target) s) path away,
                last
                    ∙ ap
                        (λ (s : Trace). (
                          targets,
                          removes_finalizer key ∷ removes_deviation (deviation_of target) ∷ s,
                        ))
                        path,
              )
            ])
      | inr (e, failed) ↦ inl (
          rw (finalize_datastore_failed srv key target targets t e failed)
            (retry_delete-Kept srv target (utf8 "cannot delete datastore") e targets t t' same))
    ]

-- The finalizer is taken off, after all the rest.
abbrev pub Finalized : Server → Key → Target → W → W → Type 0
Finalized srv key target w w' =
    (t1 : Trace) × Stopped srv key w t1
    × (lookup key w'.0 ≡ none)
    × DatastoreGone srv (srv.key_string key) t1
    × DeviationGone srv (deviation_of target) (removes_datastore (srv.key_string key) ∷ t1)
    × (w'.1
        ≡ removes_finalizer key
          ∷ removes_deviation (deviation_of target)
          ∷ removes_datastore (srv.key_string key)
          ∷ t1)

finalize_lem :
    (srv : Server) (key : Key) (target : Target) (targets : Targets) (t : Trace)
    → let result = finalize srv key target (targets, t) in
      Kept t result ⊎ Finalized srv key target (targets, t) result.1
finalize_lem srv key target targets t =
    let (failure, (targets', t')) = delete_target srv key (targets, t) in
    let same = removals-delete_target srv key (targets, t) in
    elim (Option-cases failure) [
      | inl done ↦
          let (halted, away) = delete_target_lem srv key targets t done in
          rw (finalize_done srv key target (targets, t) done)
            (elim (finalize_datastore_lem srv key target targets' t') [
              | inl kept ↦ inl (kept.0, kept.1 ∙ same)
              | inr (gone, deviation, last) ↦ inr (
                t',
                halted,
                ap (λ (w : W). lookup key w.0) last ∙ away,
                gone,
                deviation,
                ap (λ (w : W). w.1) last,
              )
            ])
      | inr (e, failed) ↦ inl (
          rw (finalize_failed srv key target (targets, t) e failed)
            (retry_delete-Kept srv target (utf8 "cannot stop target runtime") e targets' t t' same))
    ]

reconcile_delete_early :
    (srv : Server) (key : Key) (target : Target) (w : W)
    → ltb 1 (length target.finalizers) ≡ true
    → Kept w.1 (reconcile_delete srv key target w)
unfolding reconcile_delete
reconcile_delete_early srv key target w others =
    let waits_for = blocked_condition srv "Deleting" (utf8 "waiting for other finalizers") w in
    rw others (report-Kept srv target waits_for target.used_references w)

pub reconcile_delete_last :
    (srv : Server) (key : Key) (target : Target) (w : W)
    → ltb 1 (length target.finalizers) ≡ false
    → reconcile_delete srv key target w ≡ finalize srv key target w
unfolding reconcile_delete
reconcile_delete_last srv key target w last = rw last refl

-- When a target is finalized: reconcileDelete either keeps the finalizer and retries after five
-- seconds; or no other finalizer is left, no run loop is left, then the datastore is gone, then the
-- Deviation is gone, and then the finalizer is taken off, once and as the last step, with no runtime
-- of the target left in the manager.
pub reconcile_delete_order :
    (srv : Server) (key : Key) (target : Target) (targets : Targets) (t : Trace)
    → let result = reconcile_delete srv key target (targets, t) in
      Kept t result
      ⊎ ((length target.finalizers ≤ 1) × Finalized srv key target (targets, t) result.1)
reconcile_delete_order srv key target targets t =
    elim (Bool-cases (ltb 1 (length target.finalizers))) [
      | inl others ↦ inl (reconcile_delete_early srv key target (targets, t) others)
      | inr last ↦
          rw (reconcile_delete_last srv key target (targets, t) last)
            (elim (finalize_lem srv key target targets t) [
              | inl kept ↦ inl kept
              | inr done ↦ inr (ground (arith, last), done)
            ])
    ]
