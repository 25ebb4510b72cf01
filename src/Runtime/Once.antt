-- ===== src/Runtime/Once.antt =====
-- reconcileOnce of pkg/sdc/target/manager/runtime.go as a whole: what its phases mean.
use config_server.Prelude.{
  Bool-cases, Bytes, Option, Option-cases, String, arith, inl, inr, none, some, true, ◌∙◌, ◌≡◌,
}
use config_server.Errors.{Error}
use config_server.Runtime.{Runtime, notify_if_changed, running, set_recovered, status}
use config_server.Runtime.Datastore.{World, create_datastore, ensure_datastore, recreate_datastore}
use config_server.Runtime.Laws.{
  Held, Safe, after_recovery_lem, ensure_datastore_facts, record_recovery_lem, recover_facts,
  run_components_lem,
}
use config_server.Runtime.Reconcile.{
  after_datastore, after_recovery, converge, leave_unless_running, pending_unless_degraded,
  reconcile_desired, reconcile_once, record_recovery, recover, release,
}
use config_server.Transactor.{DatastoreRequest, Env, History, Key}

after_datastore_lem :
    (env : Env) (target : Key) (req : DatastoreRequest) (e : Option Error) (rt : Runtime)
    (h : History)
    → let w = after_datastore env target req e (rt, h) in
      (w.0.ds_ready ≡ rt.ds_ready)
      × (w.0.datastore_ready ≡ rt.datastore_ready)
      × (w.0.phase ≡ running → (e ≡ none) × (w.0.recovered ≡ true) × (w.0.watcher ≡ true))
unfolding after_datastore
after_datastore_lem env target req (some e) rt h = ground arith
after_datastore_lem env target req none rt h =
    ground (arith, run_components_lem env req (rt, h), recover_facts env target req rt h)

leave_unless_running_lem :
    (rt : Runtime)
    → let left = leave_unless_running rt in
      (left.ds_ready ≡ rt.ds_ready)
      × (left.datastore_ready ≡ rt.datastore_ready)
      × (left.recovered ≡ rt.recovered)
unfolding leave_unless_running
leave_unless_running_lem rt = ground arith

reconcile_desired-Safe :
    (env : Env) (target : Key) (req : DatastoreRequest) (rt : Runtime) (h : History)
    → Safe (reconcile_desired env target req (rt, h)).0
unfolding reconcile_desired
reconcile_desired-Safe env target req rt h =
    let left = leave_unless_running rt in
    let (e, w) = ensure_datastore env (env.key_string target) req (left, h) in
    ground (
      arith,
      ensure_datastore_facts env (env.key_string target) req left h,
      after_datastore_lem env target req e w.0 w.1,
      leave_unless_running_lem rt,
    )

release-Safe :
    (env : Env) (target : Key) (rt : Runtime) (h : History) → Safe (release env target (rt, h)).0
unfolding release
release-Safe env target rt h = unfold pending_unless_degraded in ground arith

converge-Safe : (env : Env) (target : Key) (w : World) → Safe (converge env target w).0
unfolding converge
converge-Safe env target (rt, h) = elim (Option-cases rt.desired) [
  | inl nil ↦ rw (nil, converge) (release-Safe env target rt h)
  | inr (req, found) ↦ rw (found, converge) (reconcile_desired-Safe env target req rt h)
]

pub notify_if_changed_lem :
    (rt : Runtime)
    → let rt' = notify_if_changed rt in
      (rt'.phase ≡ rt.phase)
      × (rt'.ds_ready ≡ rt.ds_ready)
      × (rt'.datastore_ready ≡ rt.datastore_ready)
      × (rt'.recovered ≡ rt.recovered)
      × (rt'.watcher ≡ rt.watcher)
      × (rt'.stopped ≡ rt.stopped)
      × (rt'.last_notified ≡ some (status rt))
unfolding notify_if_changed
notify_if_changed_lem rt = ground arith

pub reconcile_once-Safe :
    (env : Env) (target : Key) (w : World) → Safe (reconcile_once env target w).0
unfolding reconcile_once
reconcile_once-Safe env target w =
    let (rt, h) = converge env target w in
    ground (arith, notify_if_changed_lem rt, converge-Safe env target w)

-- Held is kept by the parts.
create_datastore-Held :
    (env : Env) (doing : Bytes) (name : String) (req : DatastoreRequest) (rt : Runtime)
    (h : History)
    → Held rt
    → Held (create_datastore env doing name req (rt, h)).1.0
unfolding create_datastore
create_datastore-Held env doing name req rt h held = ground arith

ensure_datastore-Held :
    (env : Env) (name : String) (req : DatastoreRequest) (rt : Runtime) (h : History)
    → Held rt
    → rt.ds_ready ≡ true
    → Held (ensure_datastore env name req (rt, h)).1.0
unfolding ensure_datastore recreate_datastore
ensure_datastore-Held env name req rt h held ready = unfold create_datastore in ground arith

after_recovery-Held :
    (env : Env) (req : DatastoreRequest) (e : Option Error) (w : World)
    → Held w.0
    → Held (after_recovery env req e w).0
after_recovery-Held env req e w held = ground (arith, after_recovery_lem env req e w)

record_recovery-Held :
    (e : Option Error) (answer : Bytes × Option Error) (rt : Runtime)
    → rt.ds_ready ≡ true
    → rt.datastore_ready ≡ true
    → Held (record_recovery e answer rt)
record_recovery-Held e answer rt ready there = ground (arith, record_recovery_lem e answer rt)

recover-Held :
    (env : Env) (target : Key) (req : DatastoreRequest) (rt : Runtime) (h : History)
    → rt.ds_ready ≡ true
    → rt.datastore_ready ≡ true
    → Held (recover env target req (rt, h)).0
recover-Held env target req rt h ready there = ground (arith, recover_facts env target req rt h)

after_datastore-Held :
    (env : Env) (target : Key) (req : DatastoreRequest) (e : Option Error) (rt : Runtime)
    (h : History)
    → rt.ds_ready ≡ true
    → (e ≡ none → rt.datastore_ready ≡ true)
    → Held rt
    → Held (after_datastore env target req e (rt, h)).0
unfolding after_datastore
after_datastore-Held env target req (some e) rt h ready there held = ground arith
after_datastore-Held env target req none rt h ready there held =
    ground (arith, after_datastore_lem env target req none rt h)

reconcile_desired-Held :
    (env : Env) (target : Key) (req : DatastoreRequest) (rt : Runtime) (h : History)
    → Held rt
    → Held (reconcile_desired env target req (rt, h)).0
unfolding reconcile_desired
reconcile_desired-Held env target req rt h held = elim (Bool-cases rt.ds_ready) [
  | inr down ↦ ground arith
  | inl ready ↦
      let left = leave_unless_running rt in
      let kept = leave_unless_running_lem rt in
      let (e, w) = ensure_datastore env (env.key_string target) req (left, h) in
      let facts = ensure_datastore_facts env (env.key_string target) req left h in
      let left_held : Held left = ground (arith, kept) in
      let w_held =
        ensure_datastore-Held env (env.key_string target) req left h left_held (kept.0 ∙ ready) in
      let done =
        after_datastore-Held env target req e w.0 w.1 (facts.0 ∙ kept.0 ∙ ready)
          (λ none_left. (facts.1 none_left).0) w_held in
      ground (arith, done, left_held)
]

release-Held :
    (env : Env) (target : Key) (rt : Runtime) (h : History) → Held (release env target (rt, h)).0
unfolding release
release-Held env target rt h = unfold pending_unless_degraded set_recovered in ground arith

-- reconcileOnce keeps it that only a datastore that is ready counts as recovered.
pub reconcile_once-Held :
    (env : Env) (target : Key) (w : World) → Held w.0 → Held (reconcile_once env target w).0
unfolding reconcile_once converge
reconcile_once-Held env target (rt, h) held = elim (Option-cases rt.desired) [
  | inl nil ↦ ground (
    arith,
    nil,
    release-Held env target rt h,
    notify_if_changed_lem (release env target (rt, h)).0,
  )
  | inr (req, found) ↦ ground (
    arith,
    found,
    reconcile_desired-Held env target req rt h held,
    notify_if_changed_lem (reconcile_desired env target req (rt, h)).0,
  )
]
