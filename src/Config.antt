-- ===== src/Config.antt =====
-- apis/config and apis/config/v1alpha1: the Config resource. Its two API versions have the same
-- fields, and one record stands for both. An absent pointer is `none`; int32 and int64 values are
-- only stored and compared, so they are numbers.
pub mod Laws
pub mod Deviation
use config_server.Prelude.{
  Bool, Bytes, Eq, List, Option, String, bool_eq, bytes_eq, false, if◌then◌else◌, nat_eq, none, not,
  some, string_discrete, string_eq, true, utf8, ℕ, ℕ_discrete, ◌<>◌, ◌==◌, ◌||◌,
}
use config_server.Condition.{
  Condition, condition_false, condition_true, condition_type_ready, get_condition, has_condition,
  is_true, new_condition, ready_with_msg, reason_failed, reason_ready, reason_unrecoverable,
  set_condition,
}
use config_server.Errors.{to_lower}

pub record ConfigBlob : Type 0 where
  pub path : String
  pub value : Bytes

pub record ConfigSpec : Type 0 where
  -- lifecycle.deletionPolicy
  pub lifecycle : Option String
  pub priority : ℕ
  pub revertive : Option Bool
  pub config : List ConfigBlob

pub record Schema : Type 0 where
  pub type : String
  pub vendor : String
  pub version : String

pub record ConfigStatus : Type 0 where
  pub conditions : List Condition
  pub last_known_good_schema : Option Schema
  pub applied_config : Option ConfigSpec
  pub deviation_generation : Option ℕ

pub record Config : Type 0 where
  pub name : String
  pub namespace : String
  pub uid : String
  pub labels : List (String × String)
  pub generation : ℕ
  pub deletion_timestamp : Option ℕ
  pub finalizers : List String
  pub spec : ConfigSpec
  pub status : ConfigStatus

-- reflect.DeepEqual on the parts of a status.
unfoldable pub option_spec_discrete : Discrete (Option ConfigSpec)
option_spec_discrete = hlevel (string_discrete, ℕ_discrete)

unfoldable pub option_schema_discrete : Discrete (Option Schema)
option_schema_discrete = hlevel string_discrete

unfoldable pub option_nat_discrete : Discrete (Option ℕ)
option_nat_discrete = hlevel ℕ_discrete

instance abbrev pub option_spec_eq : Eq (Option ConfigSpec)
option_spec_eq = record { dec = option_spec_discrete }

instance abbrev pub option_schema_eq : Eq (Option Schema)
option_schema_eq = record { dec = option_schema_discrete }

instance abbrev pub option_nat_eq : Eq (Option ℕ)
option_nat_eq = record { dec = option_nat_discrete }

-- apis/config/label_keys.go.
abbrev pub target_name_key : String
target_name_key = "config.sdcio.dev/targetName"

abbrev pub target_namespace_key : String
target_namespace_key = "config.sdcio.dev/targetNamespace"

abbrev pub condition_type_config_ready : String
condition_type_config_ready = "ConfigReady"

abbrev pub reason_pending : String
reason_pending = "Pending"

abbrev pub deletion_orphan : String
deletion_orphan = "orphan"

-- configCondition.
unfoldable pub config_condition : ℕ → ℕ → String → String → Bytes → Condition
unfolding new_condition
config_condition now generation status reason msg =
    record (new_condition now condition_type_config_ready status reason msg) {
      observed_generation = generation;
    }

unfoldable pub config_ready : ℕ → ℕ → Bytes → Condition
unfolding config_condition
config_ready now generation msg = config_condition now generation condition_true reason_ready msg

unfoldable pub config_failed : ℕ → ℕ → Bytes → Condition
unfolding config_condition
config_failed now generation msg = config_condition now generation condition_false reason_failed msg

unfoldable pub config_failed_unrecoverable : ℕ → ℕ → Bytes → Condition
unfolding config_condition
config_failed_unrecoverable now generation msg =
    config_condition now generation condition_false reason_unrecoverable msg

unfoldable pub config_not_ready : ℕ → String → Bytes → Condition
unfolding new_condition
config_not_ready now reason msg = new_condition now condition_type_ready condition_false reason msg

-- Config.IsRevertive; `revertive` is what os.LookupEnv("REVERTIVE") finds.
unfoldable pub is_revertive : Option String → Config → Bool
unfolding to_lower utf8
is_revertive env r = elim r.spec.revertive [
  | some b ↦ b
  | none ↦ elim env [
    | some revertive ↦ not (to_lower (utf8 revertive) == utf8 "false")
    | none ↦ true
  ]
]

-- Config.IsRecoverable.
unfoldable pub is_recoverable : Config → Bool
is_recoverable r =
    let c = get_condition condition_type_config_ready r.status.conditions in
    not (c.reason == reason_unrecoverable) || not (c.observed_generation == r.generation)

unfoldable pub is_config_condition_ready : Config → Bool
unfolding is_true
is_config_condition_ready r =
    is_true (get_condition condition_type_config_ready r.status.conditions)

-- Config.Orphan.
unfoldable pub orphan : Config → Bool
orphan r = elim r.spec.lifecycle [ some policy ↦ policy == deletion_orphan | none ↦ false ]

-- Config.SetConditions with one condition.
unfoldable pub set_config_condition : Condition → Config → Config
set_config_condition c r = record r {
  status = record r.status { conditions = set_condition c r.status.conditions };
}

-- Config.ReadyFromApplied.
unfoldable pub ready_from_applied : ℕ → Config → Condition
unfolding config_not_ready ready_with_msg new_condition is_true utf8
ready_from_applied now r =
    let c = get_condition condition_type_config_ready r.status.conditions in
    if has_condition condition_type_config_ready r.status.conditions
    then if is_true c
      then ready_with_msg now c.message
      else new_condition now condition_type_ready condition_false c.reason c.message
    else config_not_ready now reason_pending (utf8 "config not applied yet")

-- GetGVKNSN of apis/config/target_helpers.go.
unfoldable pub get_gvknsn : Config → String
get_gvknsn r = r.namespace <> "." <> r.name
