-- ===== src/Runtime/Latch.antt =====
-- The recovery latch of pkg/sdc/target/manager/runtime.go: a replay that failed for good is not tried
-- again for the same target definition and retry token.
use config_server.Prelude.{
  Option, Option-cases, String, [], arith, false, inl, inr, none, some, suc, sym, true, ℕ, ◌∙◌, ◌∷◌,
  ◌≡◌, ◌≢◌, ◌⊎◌,
}
use config_server.Errors.{Error}
use config_server.Runtime.{
  Runtime, notify_if_changed, recovery_failed, recovery_key, recovery_latched, running, set_phase,
}
use config_server.Runtime.Datastore.{World, create_datastore, ensure_datastore, recreate_datastore}
use config_server.Runtime.Reconcile.{
  after_datastore, converge, leave_unless_running, pending_unless_degraded, reconcile_desired,
  reconcile_once, recover, release,
}
use config_server.Transactor.{DatastoreRequest, Env, History, Key, sets_transaction}

-- How many transactions were sent.
unfoldable pub transactions : History → ℕ
transactions [] = 0
transactions (sets_transaction req ∷ h) = suc (transactions h)
transactions (c ∷ h) = transactions h

-- A state is as far as the latch goes what it was, and no transaction was sent.
abbrev pub Untouched : World → World → Type 0
Untouched w w' =
    (w'.0.recovery_failed_err ≡ w.0.recovery_failed_err)
    × (w'.0.recovery_failed_key ≡ w.0.recovery_failed_key)
    × (w'.0.desired_hash ≡ w.0.desired_hash)
    × (w'.0.recovery_token ≡ w.0.recovery_token)
    × (transactions w'.1 ≡ transactions w.1)

pub ensure_datastore-Untouched :
    (env : Env) (name : String) (req : DatastoreRequest) (w : World)
    → let w' = (ensure_datastore env name req w).1 in
      Untouched w w' × ((w.0.recovered ≡ true) ⊎ (w'.0.recovered ≡ false))
unfolding ensure_datastore recreate_datastore create_datastore transactions
ensure_datastore-Untouched env name req (rt, h) = ground arith

release-Untouched :
    (env : Env) (target : Key) (w : World)
    → let w' = release env target w in
      Untouched w w' × (w'.0.recovered ≡ false) × (w'.0.phase ≢ running)
unfolding release pending_unless_degraded transactions
release-Untouched env target (rt, h) = ground arith

pub latched_same : (w w' : World) → Untouched w w' → recovery_latched w'.0 ≡ recovery_latched w.0
unfolding recovery_latched recovery_key
latched_same w w' same = ground (arith, same)

-- A world in which nothing was sent and nothing is recovered.
abbrev Blocked : World → World → Type 0
Blocked w w' = Untouched w w' × (w'.0.recovered ≡ false) × (w'.0.phase ≢ running)

recover_latched :
    (env : Env) (target : Key) (req : DatastoreRequest) (w : World) (e : Error)
    → recovery_latched w.0 ≡ some e
    → recover env target req w ≡ (set_phase recovery_failed (some e) w.0, w.1)
unfolding recover
recover_latched env target req (rt, h) e latched = rw (latched, recover)

after_datastore-Blocked :
    (env : Env) (target : Key) (req : DatastoreRequest) (result : Option Error) (w : World)
    (e : Error)
    → recovery_latched w.0 ≡ some e
    → w.0.recovered ≡ false
    → Blocked w (after_datastore env target req result w)
unfolding after_datastore
after_datastore-Blocked env target req (some x) (rt, h) e latched out = ground arith
after_datastore-Blocked env target req none (rt, h) e latched out =
    ground (arith, recover_latched env target req (rt, h) e latched)

pub leave_unless_running-Untouched :
    (rt : Runtime) (h : History)
    → Untouched (rt, h) (leave_unless_running rt, h)
      × ((leave_unless_running rt).recovered ≡ rt.recovered)
unfolding leave_unless_running
leave_unless_running-Untouched rt h = ground arith

reconcile_desired-Blocked :
    (env : Env) (target : Key) (req : DatastoreRequest) (w : World) (e : Error)
    → recovery_latched w.0 ≡ some e
    → w.0.recovered ≡ false
    → Blocked w (reconcile_desired env target req w)
unfolding reconcile_desired
reconcile_desired-Blocked env target req (rt, h) e latched out =
    let left = leave_unless_running rt in
    let kept = leave_unless_running-Untouched rt h in
    let (x, w) = ensure_datastore env (env.key_string target) req (left, h) in
    let ensured = ensure_datastore-Untouched env (env.key_string target) req (left, h) in
    let held : w.0.recovered ≡ false = ground (arith, ensured.1, kept.1) in
    let still : recovery_latched w.0 ≡ some e =
      latched_same (left, h) w ensured.0 ∙ latched_same (rt, h) (left, h) kept.0 ∙ latched in
    let last = after_datastore-Blocked env target req x w e still held in
    ground (arith, last, ensured.0, kept)

converge-Blocked :
    (env : Env) (target : Key) (w : World) (e : Error)
    → recovery_latched w.0 ≡ some e
    → w.0.recovered ≡ false
    → Blocked w (converge env target w)
unfolding converge
converge-Blocked env target (rt, h) e latched out = elim (Option-cases rt.desired) [
  | inl nil ↦ rw (nil, converge) (release-Untouched env target (rt, h))
  | inr (req, found) ↦
      rw (found, converge) (reconcile_desired-Blocked env target req (rt, h) e latched out)
]

notify_if_changed-Untouched :
    (rt : Runtime) (h : History)
    → Untouched (rt, h) (notify_if_changed rt, h)
      × ((notify_if_changed rt).recovered ≡ rt.recovered)
      × ((notify_if_changed rt).phase ≡ rt.phase)
unfolding notify_if_changed
notify_if_changed-Untouched rt h = ground arith

-- While a replay that failed for good is latched, and the configs are not recovered, a run of
-- reconcileOnce sends no transaction, whatever it is answered; afterwards the failure is still
-- latched, the configs are still not recovered, and the phase is not Running.
pub reconcile_once_latched :
    (env : Env) (target : Key) (w : World) (e : Error)
    → recovery_latched w.0 ≡ some e
    → w.0.recovered ≡ false
    → let w' = reconcile_once env target w in
      (transactions w'.1 ≡ transactions w.1)
      × (recovery_latched w'.0 ≡ some e)
      × (w'.0.recovered ≡ false)
      × (w'.0.phase ≢ running)
unfolding reconcile_once
reconcile_once_latched env target w e latched out =
    let (rt, h) = converge env target w in
    let same = converge-Blocked env target w e latched out in
    let told = notify_if_changed-Untouched rt h in
    let done : World = (notify_if_changed rt, h) in
    (
      same.0.4,
      latched_same (rt, h) done told.0 ∙ latched_same w (rt, h) same.0 ∙ latched,
      told.1 ∙ same.1,
      λ r. same.2 (sym told.2 ∙ r),
    )
