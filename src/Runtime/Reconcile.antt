-- ===== src/Runtime/Reconcile.antt =====
-- reconcileOnce of pkg/sdc/target/manager/runtime.go, with recoverConfigs and reconcileCollector. A run
-- is whole here, as if no other goroutine acted meanwhile; Loop has its steps.
use config_server.Prelude.{
  Bool, Bytes, Option, [], bytes_eq, false, if◌then◌else◌, nat_eq, none, not, some, string_eq, true,
  utf8, ◌&&◌, ◌==◌, ◌∷◌,
}
use config_server.Errors.{Error, as_transaction, plain, to_lower, wrapped}
use config_server.Runtime.{
  Runtime, address_eq, collector_running, collector_stopped, degraded, ensuring_datastore,
  latch_recovery_failure, no_collector, notify_if_changed, pending, phase_eq, recovering,
  recovery_failed, recovery_latched, running, set_phase, set_recovered, set_recovery_result,
  stop_runtime, waiting_for_ds,
}
use config_server.Runtime.Datastore.{World, ensure_datastore, ensure_datastore_deleted}
use config_server.Transactor.{Address, DatastoreRequest, Env, Key, M, gets_target, starts_collector}
use config_server.Transactor.Recover.{recover_configs}

-- collectorAddress: `none` stands for a reason not to run. EqualFold with "gnmi".
unfoldable pub collector_address : DatastoreRequest → Runtime → Option Address
unfolding to_lower utf8
collector_address req rt = elim req.target [
  | none ↦ none
  | some target ↦
      let port = if rt.subscription_port == 0 then target.port else rt.subscription_port in
      if to_lower (utf8 target.type) == utf8 "gnmi"
        && not (target.address == "")
        && rt.has_active_paths
        && not (port == 0)
      then some (record { host = target.address; port = port })
      else none
]

-- Collector.Start: what runs is stopped first.
unfoldable pub start_collector : Env → Address → World → World
start_collector env address (rt, h) = (
  record rt {
    collector = elim (env.dial h address) [
      | none ↦ collector_running address
      | some e ↦ collector_stopped
    ];
  },
  starts_collector address ∷ h,
)

unfoldable pub reconcile_collector : Env → DatastoreRequest → World → World
unfolding collector_address start_collector
reconcile_collector env req (rt, h) = elim (collector_address req rt) [
  | none ↦ (record rt { collector = no_collector }, h)
  | some address ↦ elim rt.collector [
    | collector_running current ↦
        if current == address then (rt, h) else start_collector env address (rt, h)
    | collector_stopped ↦ start_collector env address (rt, h)
    | no_collector ↦ start_collector env address (rt, h)
  ]
]

-- recoverConfigs: the Target is read, and the Transactor replays its configs.
unfoldable pub run_recovery : Env → Key → M (Bytes × Option Error)
unfolding recover_configs
run_recovery env target h =
    let h' = gets_target target ∷ h in
    elim (env.get_target h target) [
      | some e ↦ (([], some (wrapped (utf8 "get target: ") e)), h')
      | none ↦
          let (answer, h'') = recover_configs env target h' in
          ((elim answer.0 [ none ↦ [] | some msg ↦ msg ], answer.1), h'')
    ]

-- The result is recorded only once the Target was read.
unfoldable pub record_recovery : Option Error → Bytes × Option Error → Runtime → Runtime
unfolding set_recovery_result
record_recovery (some e) answer rt = rt
record_recovery none (msg, none) rt = set_recovery_result msg none rt
record_recovery none (msg, some e) rt = set_recovery_result [] (some e) rt

unfoldable pub ensure_runtime : Runtime → Runtime
ensure_runtime rt = record rt { watcher = true }

-- From ensureRuntime on.
unfoldable pub run_components : Env → DatastoreRequest → World → World
unfolding ensure_runtime set_phase reconcile_collector
run_components env req (rt, h) =
    reconcile_collector env req (set_phase running none (ensure_runtime rt), h)

-- A TransactionError that is not recoverable.
unfoldable pub is_final : Error → Bool
unfolding as_transaction
is_final e = elim (as_transaction e) [ none ↦ false | some recoverable ↦ not recoverable ]

unfoldable pub after_recovery : Env → DatastoreRequest → Option Error → World → World
unfolding is_final latch_recovery_failure set_phase run_components
after_recovery env req none w = run_components env req w
after_recovery env req (some e) (rt, h) =
    if is_final e
    then (set_phase recovery_failed (some e) (latch_recovery_failure e rt), h)
    else (set_phase recovering (some e) rt, h)

unfoldable pub recover : Env → Key → DatastoreRequest → World → World
unfolding recovery_latched set_phase run_recovery record_recovery after_recovery
recover env target req (rt, h) = elim (recovery_latched rt) [
  | some e ↦ (set_phase recovery_failed (some e) rt, h)
  | none ↦
      let (answer, h') = run_recovery env target h in
      after_recovery env req answer.1
        (record_recovery (env.get_target h target) answer (set_phase recovering none rt), h')
]

-- Once the datastore is there.
unfoldable pub after_datastore : Env → Key → DatastoreRequest → Option Error → World → World
unfolding set_phase run_components recover
after_datastore env target req (some e) (rt, h) = (set_phase degraded (some e) rt, h)
after_datastore env target req none (rt, h) =
    if rt.recovered then run_components env req (rt, h) else recover env target req (rt, h)

unfoldable pub leave_unless_running : Runtime → Runtime
unfolding set_phase
leave_unless_running rt = if rt.phase == running then rt else set_phase ensuring_datastore none rt

unfoldable pub reconcile_desired : Env → Key → DatastoreRequest → World → World
unfolding leave_unless_running set_phase stop_runtime ensure_datastore after_datastore utf8
reconcile_desired env target req (rt, h) =
    if not rt.ds_ready
    then (stop_runtime (set_phase waiting_for_ds rt.last_error rt), h)
    else if not (env.has_client h)
    then (
      set_phase waiting_for_ds (some (plain (utf8 "dataserver client nil")))
          (leave_unless_running rt),
      h,
    )
    else let (e, w) =
        ensure_datastore env (env.key_string target) req (leave_unless_running rt, h) in
      after_datastore env target req e w

unfoldable pub pending_unless_degraded : Runtime → Runtime
unfolding set_phase
pending_unless_degraded rt = if rt.phase == degraded then rt else set_phase pending none rt

-- Nothing is desired.
unfoldable pub release : Env → Key → World → World
unfolding stop_runtime ensure_datastore_deleted set_recovered pending_unless_degraded
release env target (rt, h) =
    let (rt', h') = ensure_datastore_deleted env (env.key_string target) (stop_runtime rt, h) in
    (pending_unless_degraded (set_recovered false rt'), h')

unfoldable pub converge : Env → Key → World → World
unfolding reconcile_desired release
converge env target (rt, h) = elim rt.desired [
  | none ↦ release env target (rt, h)
  | some req ↦ reconcile_desired env target req (rt, h)
]

unfoldable pub reconcile_once : Env → Key → World → World
unfolding converge notify_if_changed
reconcile_once env target w = let (rt, h) = converge env target w in (notify_if_changed rt, h)
