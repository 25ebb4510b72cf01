-- ===== src/Tests/TargetConfigs.antt =====
-- Examples for the properties of TargetConfig.
use config_server.Prelude.{[], none, some, string_eq, true, ◌∷◌, ◌≡◌, ◌⊎◌}
use config_server.Condition.{condition_type_ready}
use config_server.Errors.{ok}
use config_server.Instantiation.{Target}
use config_server.Runtime.Latch.{transactions}
use config_server.TargetConfig.{Controller, reconcile_configs}
use config_server.TargetConfig.Guard.Whole.{Guarded, reconcile_configs_sends}
use config_server.Tests.{a_runtime, a_target, an_env}
use config_server.Tests.Instantiations.{discovered_condition, live_target}

abbrev pub ready_target : Target
ready_target = record live_target {
  conditions = record discovered_condition { type = condition_type_ready } ∷ [];
}

-- Everything is granted.
abbrev a_controller : Controller
a_controller = record {
  api_available = λ h. true;
  read_target = λ h k. ok (some ready_target);
  add_target_finalizer = λ h k. none;
  remove_target_finalizer = λ h k. none;
  show_status = λ st. [];
}

reconcile_configs_sends_example :
    let h' = (reconcile_configs an_env a_controller a_target (some a_runtime) []).1 in
    (transactions h' ≡ 0)
    ⊎ ((target : Target) × (ok (some ready_target) ≡ ok (some target))
        × Guarded an_env a_target (some a_runtime) target [] h')
unfolding transactions
reconcile_configs_sends_example =
    reconcile_configs_sends an_env a_controller a_target (some a_runtime) []
