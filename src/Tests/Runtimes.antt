-- ===== src/Tests/Runtimes.antt =====
-- Examples for the properties of Runtime.
use config_server.Prelude.{
  [], false, inl, none, refl, some, string_discrete, string_eq, suc, true, zero, ℕ, ◌<◌, ◌∷◌, ◌≡◌,
  ◌≢◌, ◌⊎◌,
}
use config_server.Errors.{plain}
use config_server.Runtime.{
  Runtime, new_target_runtime, notify_if_changed, phase_discrete, recovery_failed, recovery_key,
  recovery_latched, running, set_datastore_ready, set_ds_ready, set_phase, set_recovered,
  set_recovery_result, set_running_hash, waiting_for_ds, wake,
}
use config_server.Runtime.Datastore.{ensure_datastore}
use config_server.Runtime.Latch.{reconcile_once_latched, transactions}
use config_server.Runtime.Laws.{ensure_datastore_lem, recover_lem}
use config_server.Runtime.Loop.{advance, begins, decided, get_datastore, probed, selects}
use config_server.Runtime.Loop.Interleave.{
  Machine, Reaches, act, act_step, acts, arms, desires, ds_event, loop_step, loops, machine, pays,
  select, select_step, starts, takes_wake, unrecovers,
}
use config_server.Runtime.Loop.Points.{attends, touches}
use config_server.Runtime.Loop.Safety.{get_datastore-recovered, get_datastore-unrecovered}
use config_server.Runtime.Progress.{reconcile_once_progress}
use config_server.Runtime.Reconcile.{
  after_recovery, collector_address, ensure_runtime, leave_unless_running, reconcile_collector,
  reconcile_once, record_recovery, recover, run_components, run_recovery,
}
use config_server.Tests.{a_request, a_runtime, a_target, an_env, empty_env}
use config_server.Transactor.{History, gets_datastore, gets_target}
use config_server.Transactor.Recover.{
  finish_recovery, recover_configs, recover_intents, replay, status_written, with_applied,
}
use config_server.Transactor.Status.{
  list_configs_per_target, set_recovered_configs, update_configs_for_target, update_each,
}

abbrev stepped : Machine → Machine
stepped = loop_step empty_env a_target

-- The runtime of a new target is started, hears that the dataserver is up, and takes the wake of the
-- desired state.
abbrev first_machine : Machine
first_machine = machine (selects, wake new_target_runtime, []) 0

abbrev second_machine : Machine
second_machine = stepped (select_step (ds_event true none) first_machine)

abbrev third_machine : Machine
third_machine =
    select_step takes_wake (act_step pays (act_step (desires (some a_request) "h1") second_machine))

third_reached : Reaches empty_env a_target third_machine
unfolding loop_step select_step select act_step act wake set_ds_ready advance new_target_runtime
third_reached =
    arms takes_wake
      (acts pays
        (acts (desires (some a_request) "h1") (loops (arms (ds_event true none) (starts []) refl))))
      refl

abbrev steps_on : ℕ → Machine → Machine
steps_on zero m = m
steps_on (suc n) m = stepped (steps_on n m)

steps_on_reached :
    (n : ℕ) (m : Machine) → Reaches empty_env a_target m → Reaches empty_env a_target (steps_on n m)
steps_on_reached zero m reached = reached
steps_on_reached (suc n) m reached = loops (steps_on_reached n m reached)

-- The run is over, and then a handle says that the configs are to be recovered again.
abbrev last_machine : Machine
last_machine = act_step unrecovers (steps_on 18 third_machine)

in_service :
    (get_datastore empty_env (last_machine.rt, last_machine.h) ≡ true)
    × (last_machine.point ≡ selects)
    × (last_machine.owed ≡ 1)
unfolding get_datastore loop_step select_step select act_step act wake set_ds_ready advance probed
    decided new_target_runtime leave_unless_running recovery_latched recover_configs
    list_configs_per_target replay with_applied recover_intents finish_recovery
    set_recovered_configs update_configs_for_target update_each status_written set_recovery_result
    reconcile_collector collector_address notify_if_changed set_phase set_running_hash
    set_datastore_ready set_recovered ensure_runtime string_discrete phase_discrete
in_service = (refl, refl, refl)

get_datastore-recovered_example :
    ((last_machine.rt.recovered ≡ false)
      ⊎ ((last_machine.rt.ds_ready ≡ true) × (last_machine.rt.datastore_ready ≡ true)))
    × ((get_datastore empty_env (last_machine.rt, last_machine.h) ≡ false)
        ⊎ ((touches last_machine.point ≡ false)
            × ((last_machine.rt.recovered ≡ true)
                ⊎ (last_machine.rt.woken ≡ true)
                ⊎ (0 < last_machine.owed)
                ⊎ (attends last_machine.point ≡ true))))
get_datastore-recovered_example =
    get_datastore-recovered empty_env a_target last_machine
      (acts unrecovers (steps_on_reached 18 third_machine third_reached))

-- A loop at its select, whose runtime is Running.
abbrev idle_machine : Machine
idle_machine = machine (selects, a_runtime, []) 0

get_datastore-unrecovered_example :
    let down = loop_step an_env a_target (select_step (ds_event false none) idle_machine) in
    let up = loop_step an_env a_target (select_step (ds_event true none) down) in
    let taken = select_step takes_wake up in
    (get_datastore an_env (up.rt, up.h) ≡ true)
    × (up.rt.recovered ≡ false)
    × (up.rt.woken ≡ true)
    × (get_datastore an_env (taken.rt, taken.h) ≡ true)
    × (taken.rt.recovered ≡ false)
    × (taken.rt.woken ≡ false)
    × (taken.point ≡ begins)
unfolding get_datastore phase_discrete
get_datastore-unrecovered_example = get_datastore-unrecovered an_env a_target idle_machine none refl

ensure_datastore_lem_example :
    let w = (ensure_datastore an_env "default/dev1" a_request (a_runtime, [])).1 in
    (w.0.datastore_ready ≡ true)
    × ((a_runtime.desired_hash ≡ "") ⊎ (w.0.running_hash ≡ "h1"))
    × ((w.0.recovered ≡ false) ⊎ ((true ≡ true) × (w.1 ≡ gets_datastore "default/dev1" ∷ [])))
unfolding ensure_datastore string_discrete
ensure_datastore_lem_example =
    ensure_datastore_lem an_env "default/dev1" a_request a_runtime [] refl

recover_lem_example :
    (recovery_latched a_runtime ≡ none)
    × (empty_env.get_target [] a_target ≡ none)
    × ((recover_configs empty_env a_target (gets_target a_target ∷ [])).0.1 ≡ none)
unfolding recover recovery_latched run_recovery recover_configs list_configs_per_target replay
    with_applied recover_intents finish_recovery set_recovered_configs update_configs_for_target
    update_each status_written record_recovery set_recovery_result after_recovery run_components
    reconcile_collector collector_address set_phase ensure_runtime
recover_lem_example = recover_lem empty_env a_target a_request a_runtime [] refl

-- The replay failed for this target before.
abbrev failed_runtime : Runtime
failed_runtime = record a_runtime {
  phase = recovery_failed;
  recovered = false;
  recovery_failed_key = "h1|";
  recovery_failed_err = some (plain []);
}

reconcile_once_latched_example :
    let w' = reconcile_once an_env a_target (failed_runtime, []) in
    (transactions w'.1 ≡ 0)
    × (recovery_latched w'.0 ≡ some (plain []))
    × (w'.0.recovered ≡ false)
    × (w'.0.phase ≢ running)
unfolding recovery_latched recovery_key string_discrete transactions
reconcile_once_latched_example =
    reconcile_once_latched an_env a_target (failed_runtime, []) (plain []) refl refl

-- A runtime of which nothing is known but what is desired.
abbrev wanting_runtime : Runtime
wanting_runtime = record a_runtime {
  phase = waiting_for_ds;
  running_hash = "";
  datastore_ready = false;
  recovered = false;
}

recovers : (h : History) → (run_recovery empty_env a_target h).0.1 ≡ none
unfolding run_recovery recover_configs list_configs_per_target replay with_applied recover_intents
    finish_recovery set_recovered_configs update_configs_for_target update_each status_written
recovers h = refl

reconcile_once_progress_example :
    (reconcile_once empty_env a_target (wanting_runtime, [])).0.phase ≡ running
unfolding recovery_latched
reconcile_once_progress_example =
    reconcile_once_progress empty_env a_target a_request wanting_runtime [] refl refl refl refl
      (λ h. inl refl) (λ h r. refl) (λ h. refl) recovers
