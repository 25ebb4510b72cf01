-- ===== src/Transactor/Status.antt =====
-- The status writes of pkg/sdc/target/manager/transactor.go.
pub mod Laws
pub mod Apply
use config_server.Prelude.{
  Bool, Bytes, List, Option, String, [], bytes_eq, false, if◌then◌else◌, map, nat_eq, none, not,
  some, string_eq, utf8, ℕ, ◌&&◌, ◌++◌, ◌==◌, ◌||◌, ◌∷◌,
}
use config_server.Condition.{Condition, condition_type_ready, equal, get_condition, has_condition}
use config_server.Config.{
  Config, ConfigBlob, ConfigSpec, ConfigStatus, Schema, condition_type_config_ready, config_failed,
  config_failed_unrecoverable, config_ready, option_nat_eq, option_schema_eq, option_spec_eq,
  ready_from_applied, set_config_condition,
}
use config_server.Errors.{Error, Result, error_text, ok}
use config_server.Transactor.{
  BlobApply, Env, Key, M, SchemaApply, SpecApply, StatusApply, applies_status, check, gets_config,
  lists_configs, return, ◌>>=◌, ◌>>◌,
}
use mathlib.Core.Option

-- "TargetForConfigReady", of LegacyConfigConditionTypes.
abbrev pub legacy_config_condition_types : List String
legacy_config_condition_types = "TargetForConfigReady" ∷ []

-- The condition types that applyStatus owns.
abbrev pub owned_types : List String
owned_types = condition_type_ready ∷ condition_type_config_ready ∷ []

-- What a With method is called for: a string that is not empty.
unfoldable pub set_text : String → Option String
set_text s = if s == "" then none else some s

unfoldable pub schema_to_apply : Schema → SchemaApply
unfolding set_text
schema_to_apply s = record {
  type = set_text s.type;
  vendor = set_text s.vendor;
  version = set_text s.version;
}

unfoldable pub config_blob_to_apply : ConfigBlob → BlobApply
unfolding set_text
config_blob_to_apply b = record { path = set_text b.path; value = b.value }

unfoldable pub config_spec_to_apply : ConfigSpec → SpecApply
unfolding config_blob_to_apply
config_spec_to_apply s = record {
  priority = s.priority;
  revertive = s.revertive;
  lifecycle = s.lifecycle;
  config = map config_blob_to_apply s.config;
}

unfoldable pub keep_transition_time : Condition → Condition → Condition
keep_transition_time new old =
    if old.status == new.status && not (old.last_transition_time == 0)
    then record new { last_transition_time = old.last_transition_time }
    else new

-- The loop over the owned types: the conditions to send, and whether one of them changed.
unfoldable pub owned_conditions :
    List String → List Condition → List Condition → List Condition × Bool
unfolding keep_transition_time
owned_conditions [] current desired = ([], false)
owned_conditions (t ∷ ts) current desired =
    let rest = owned_conditions ts current desired in
    let new = get_condition t desired in
    let old = get_condition t current in
    if has_condition t desired
    then (
      keep_transition_time new old ∷ rest.0,
      not (has_condition t current) || not (equal new old) || rest.1,
    )
    else rest

unfoldable pub has_legacy : List String → List Condition → Bool
has_legacy [] cs = false
has_legacy (t ∷ ts) cs = has_condition t cs || has_legacy ts cs

unfoldable pub status_changed : ConfigStatus → ConfigStatus → Bool
unfolding has_legacy owned_conditions
status_changed current desired =
    not (desired.last_known_good_schema == current.last_known_good_schema)
    || not (desired.applied_config == current.applied_config)
    || not (desired.deviation_generation == current.deviation_generation)
    || has_legacy legacy_config_condition_types current.conditions
    || (owned_conditions owned_types current.conditions desired.conditions).1

unfoldable pub status_apply : ConfigStatus → ConfigStatus → StatusApply
unfolding owned_conditions schema_to_apply config_spec_to_apply
status_apply current desired = record {
  conditions = (owned_conditions owned_types current.conditions desired.conditions).0;
  last_known_good_schema = Option.map schema_to_apply desired.last_known_good_schema;
  applied_config = Option.map config_spec_to_apply desired.applied_config;
  deviation_generation = desired.deviation_generation;
}

unfoldable pub config_key : Config → Key
config_key cfg = record { namespace = cfg.namespace; name = cfg.name }

-- Transactor.applyStatus.
unfoldable pub apply_status : Env → Config → Config → M (Result (Unit {0}))
unfolding status_changed status_apply config_key
apply_status env current desired h =
    let s = status_apply current.status desired.status in
    if status_changed current.status desired.status
    then (
      check (env.apply_status h (config_key desired) s),
      applies_status (config_key desired) s ∷ h,
    )
    else (ok tt, h)

-- client.Get of a Config.
unfoldable pub get_config : Env → Key → M (Result Config)
get_config env key h = (env.get_config h key, gets_config key ∷ h)

unfoldable pub clear_deviation_generation : Config → Config
clear_deviation_generation cfg = record cfg {
  status = record cfg.status { deviation_generation = none };
}

unfoldable pub set_deviation_generation : ℕ → Config → Config
set_deviation_generation g cfg = record cfg {
  status = record cfg.status { deviation_generation = some g };
}

-- The object that updateConfigWithError wants; `generation` is the one it stamps.
unfoldable pub error_desired : ℕ → ℕ → Bytes → Bool → Config → Config
unfolding clear_deviation_generation set_deviation_generation
error_desired now generation msg recoverable current =
    let base = clear_deviation_generation current in
    let outcome =
      if recoverable
      then set_config_condition (config_failed now generation msg) base
      else set_deviation_generation 0
          (set_config_condition (config_failed_unrecoverable now generation msg) base) in
    set_config_condition (ready_from_applied now outcome) outcome

unfoldable pub with_error : Bytes → Option Error → Bytes
unfolding error_text utf8
with_error msg none = msg
with_error msg (some e) = msg ++ utf8 " err " ++ error_text e

-- Transactor.updateConfigWithError.
unfoldable pub update_config_with_error :
    Env → Config → Bytes → Option Error → Bool → M (Result (Unit {0}))
unfolding get_config config_key error_desired with_error apply_status
update_config_with_error env cfg msg e recoverable = do
  current ← get_config env (config_key cfg)
  λ h. elim current.deletion_timestamp [
    | some t ↦ (ok tt, h)
    | none ↦
        apply_status env current
          (error_desired (env.now h) cfg.generation (with_error msg e) recoverable current) h
  ]

-- The object that updateConfigWithSuccess wants, for the config that was transacted.
unfoldable pub success_desired : ℕ → Config → Option Schema → Bytes → Config → Config
success_desired now cfg schema msg current =
    let outcome = set_config_condition (config_ready now cfg.generation msg) current in
    let ready = set_config_condition (ready_from_applied now outcome) outcome in
    record ready {
      status = record ready.status {
        last_known_good_schema = schema;
        applied_config = some cfg.spec;
        deviation_generation = none;
      };
    }

-- Transactor.updateConfigWithSuccess.
unfoldable pub update_config_with_success :
    Env → Config → Option Schema → Bytes → M (Result (Unit {0}))
unfolding get_config config_key success_desired apply_status
update_config_with_success env cfg schema msg = do
  current ← get_config env (config_key cfg)
  λ h. elim current.deletion_timestamp [
    | some t ↦ (ok tt, h)
    | none ↦ apply_status env current (success_desired (env.now h) cfg schema msg current) h
  ]

-- Transactor.ListConfigsPerTarget.
unfoldable pub list_configs_per_target : Env → Key → M (Result (List Config))
list_configs_per_target env target h = (env.list_configs h target, lists_configs target ∷ h)

-- The body of the loop of updateConfigsForTarget. `mutate` answers `none` to leave a config alone;
-- it reads the clock.
unfoldable pub update_one : Env → (ℕ → Config → Option Config) → Config → M (Result (Unit {0}))
unfolding clear_deviation_generation apply_status
update_one env mutate current h = elim (mutate (env.now h) (clear_deviation_generation current)) [
  | none ↦ (ok tt, h)
  | some desired ↦ apply_status env current desired h
]

unfoldable pub update_each :
    Env → (ℕ → Config → Option Config) → List Config → M (Result (Unit {0}))
unfolding update_one
update_each env mutate [] = return tt
update_each env mutate (current ∷ cfgs) = do
  update_one env mutate current
  update_each env mutate cfgs

unfoldable pub update_configs_for_target :
    Env → Key → (ℕ → Config → Option Config) → M (Result (Unit {0}))
unfolding list_configs_per_target update_each
update_configs_for_target env target mutate = do
  cfgs ← list_configs_per_target env target
  update_each env mutate cfgs

unfoldable pub set_configs_not_ready : Env → Key → Condition → M (Result (Unit {0}))
unfolding update_configs_for_target
set_configs_not_ready env target ready =
    update_configs_for_target env target (λ now cfg. some (set_config_condition ready cfg))

unfoldable pub set_configs_ready_from_applied : Env → Key → M (Result (Unit {0}))
unfolding update_configs_for_target
set_configs_ready_from_applied env target =
    update_configs_for_target env target
      (λ now cfg. some (set_config_condition (ready_from_applied now cfg) cfg))

-- The mutation of setRecoveredConfigs.
unfoldable pub mark_recovered_config : (ℕ → Config → Condition) → ℕ → Config → Option Config
mark_recovered_config cond now cfg = elim cfg.status.applied_config [
  | none ↦ none
  | some applied ↦ some (set_config_condition (cond now cfg) cfg)
]

unfoldable pub set_recovered_configs : Env → Key → (ℕ → Config → Condition) → M (Result (Unit {0}))
unfolding update_configs_for_target mark_recovered_config
set_recovered_configs env target cond =
    update_configs_for_target env target (mark_recovered_config cond)
