-- ===== src/Tests/Statuses.antt =====
-- Examples for the properties of the status writes and of the names of Deviations.
use config_server.Prelude.{
  [], bytes_eq, differ, false, if◌then◌else◌, inr, nat_eq, none, not, refl, some, string_discrete,
  string_eq, true, ◌&&◌, ◌==◌, ◌||◌, ◌∷◌, ◌≡◌, ◌≢◌,
}
use config_server.Condition.{condition_type_ready, equal, get_condition, has_condition, is_true}
use config_server.Config.{condition_type_config_ready, is_config_condition_ready, is_recoverable}
use config_server.Config.Deviation.{
  deviation_name, parse_deviation_name, parse_deviation_name-deviation_name, target_deviation,
}
use config_server.Tests.{a_config, a_spec, a_status, an_env, new_config}
use config_server.Transactor.{gets_config, patches_finalizers}
use config_server.Transactor.Classify.{class_of, unchanged}
use config_server.Transactor.Deviations.{deleted_key, deviation_key, finalizer}
use config_server.Transactor.Deviations.Laws.{deleted_key-ne-deviation_key}
use config_server.Transactor.Failure.{process_failed_config}
use config_server.Transactor.Failure.Laws.{process_failed_config_generation}
use config_server.Transactor.Status.{
  apply_status, config_key, config_spec_to_apply, error_desired, schema_to_apply, status_apply,
  success_desired, with_error,
}
use config_server.Transactor.Status.Apply.{
  apply_configurations_roundtrip, from_schema_apply, from_spec_apply, status_apply_conditions,
}
use config_server.Transactor.Status.Laws.{
  class_of-success_desired, error_desired_lem, success_desired_lem,
}

error_desired_lem_example :
    let d = error_desired 1000 4 [] false a_config in
    (is_recoverable d ≡ (false || not (4 == a_config.generation)))
    × (is_config_condition_ready d ≡ false)
    × (is_true (get_condition condition_type_ready d.status.conditions) ≡ false)
    × (d.status.applied_config ≡ some a_spec)
    × (d.status.last_known_good_schema ≡ none)
    × (d.status.deviation_generation ≡ some 0)
error_desired_lem_example = error_desired_lem 1000 4 [] false a_config

success_desired_lem_example :
    let d = success_desired 1000 new_config none [] new_config in
    (is_config_condition_ready d ≡ true)
    × (is_true (get_condition condition_type_ready d.status.conditions) ≡ true)
    × (d.status.applied_config ≡ some a_spec)
    × (d.status.last_known_good_schema ≡ none)
    × (d.status.deviation_generation ≡ none)
success_desired_lem_example = success_desired_lem 1000 new_config none [] new_config

class_of-success_desired_example :
    class_of an_env (success_desired 1000 new_config none [] new_config) ≡ unchanged
class_of-success_desired_example =
    class_of-success_desired an_env 1000 new_config none [] new_config refl refl

process_failed_config_generation_example :
    let h' = patches_finalizers (config_key new_config) (finalizer ∷ []) ∷ [] in
    let h'' = gets_config (config_key new_config) ∷ h' in
    let desired = error_desired 1000 4 (with_error [] none) false a_config in
    (process_failed_config an_env new_config [] none false []
      ≡ apply_status an_env a_config desired h'')
    × (is_recoverable desired ≡ not (4 == a_config.generation))
process_failed_config_generation_example =
    process_failed_config_generation an_env new_config new_config a_config [] none [] refl refl refl

apply_configurations_roundtrip_example :
    (from_schema_apply (schema_to_apply (record { type = "sros"; vendor = "nokia"; version = "" }))
      ≡ record { type = "sros"; vendor = "nokia"; version = "" })
    × (from_spec_apply (config_spec_to_apply a_spec) ≡ a_spec)
apply_configurations_roundtrip_example =
    apply_configurations_roundtrip (record { type = "sros"; vendor = "nokia"; version = "" }) a_spec

status_apply_conditions_example :
    let sent =
      get_condition condition_type_config_ready (status_apply a_status a_status).conditions in
    let new = get_condition condition_type_config_ready a_status.conditions in
    (equal sent new ≡ true)
    × (sent.last_transition_time ≡ (
        if new.status == new.status && not (new.last_transition_time == 0)
        then new.last_transition_time
        else new.last_transition_time))
unfolding has_condition string_discrete
status_apply_conditions_example =
    status_apply_conditions condition_type_config_ready a_status a_status (inr refl) refl

deleted_key-ne-deviation_key_example : deleted_key a_config ≢ deviation_key a_config
deleted_key-ne-deviation_key_example = deleted_key-ne-deviation_key a_config

parse_deviation_name-deviation_name_example :
    parse_deviation_name (deviation_name target_deviation "dev1") ≡ some (target_deviation, "dev1")
parse_deviation_name-deviation_name_example =
    parse_deviation_name-deviation_name target_deviation "dev1" (differ "dev1" "" refl)
