-- ===== src/ClearDeviation.antt =====
-- Target.ClearDeviations of apis/config/target_helpers.go: a request names configs and paths; either
-- every entry becomes an intent of one transaction, or nothing is sent. The configs of the target come
-- from `configLister`, by name; a Go map is an association list.
pub mod Retry
pub mod Report
pub mod Request
pub mod Laws
use config_server.Prelude.{
  Bool, Bytes, List, Option, String, [], false, if◌then◌else◌, lookup, none, not, not_empty, some,
  string_eq, true, utf8, ◌++◌, ◌∷◌,
}
use config_server.Config.{Config, get_gvknsn, is_revertive}
use config_server.Config.Deviation.{
  DeviationType, config_deviation, parse_deviation_name, target_deviation,
}
use config_server.Errors.{Result, err, error_text, ok, plain}
use config_server.Transactor.{Env, Intent, Key, SetRequest, Update}
use config_server.Transactor.Intents.{get_intent_update}

-- TargetClearDeviationConfig.
pub record ClearConfig : Type 0 where
  pub name : String
  pub paths : List String

-- TargetClearDeviationConfigResult, but for its message and warnings, which are not written.
pub record ClearResult : Type 0 where
  pub name : String
  pub success : Bool
  pub errors : List Bytes

pub record ClearStatus : Type 0 where
  pub message : Bytes
  pub warnings : List Bytes
  pub results : List ClearResult

-- resolveClearDeviationConfig.
unfoldable pub resolve_deviation_name :
    Env → String → String → List (String × Config) → Option (DeviationType × String) → Result Config
unfolding lookup utf8
resolve_deviation_name env name target configs none = err (
    plain (utf8 "config " ++ env.quote (utf8 name) ++ utf8 " not found for target " ++ utf8 target))
resolve_deviation_name env name target configs (some (target_deviation, resource)) = err (
    plain (
      utf8 "deviation "
      ++ env.quote (utf8 name)
      ++ utf8 " is target-scoped; clearing target deviations via cleardeviation is not supported"))
resolve_deviation_name env name target configs (some (config_deviation, resource)) =
    elim (lookup resource configs) [
      | some cfg ↦ ok cfg
      | none ↦ err (
          plain (
            utf8 "config "
            ++ env.quote (utf8 resource)
            ++ utf8 " (from deviation name "
            ++ env.quote (utf8 name)
            ++ utf8 ") not found for target "
            ++ utf8 target))
    ]

unfoldable pub resolve_clear_deviation_config :
    Env → String → String → List (String × Config) → Result Config
unfolding lookup parse_deviation_name resolve_deviation_name
resolve_clear_deviation_config env name target configs = elim (lookup name configs) [
  | some cfg ↦ ok cfg
  | none ↦ resolve_deviation_name env name target configs (parse_deviation_name name)
]

-- The paths that parse, and the errors of those that do not.
unfoldable pub parse_paths : Env → List String → List Bytes × List Bytes
unfolding error_text utf8
parse_paths env [] = ([], [])
parse_paths env (p ∷ ps) =
    let rest = parse_paths env ps in
    elim (env.parse_path p) [
      | ok path ↦ (path ∷ rest.0, rest.1)
      | err e ↦ (
        rest.0,
        (utf8 "invalid path " ++ env.quote (utf8 p) ++ utf8 ": " ++ error_text e) ∷ rest.1,
      )
    ]

unfoldable pub clear_intent : Env → Config → List Bytes → List Update → Intent
clear_intent env cfg revert_paths update = record {
  intent = get_gvknsn cfg;
  priority = cfg.spec.priority;
  update = update;
  delete_intent = false;
  delete_ignore_no_exist = false;
  orphan_intent = false;
  non_revertive = not (is_revertive env.revertive cfg);
  previously_applied = false;
  revert_paths = revert_paths;
}

-- What the body of the loop of buildClearDeviationTxRequest adds: an intent, or a rejection.
pub data Entry : Type 0 where
  accepted : Intent → Entry
  rejected : List Bytes → Entry

unfoldable pub check_config : Env → ClearConfig → String → Config → Entry
unfolding is_revertive parse_paths get_intent_update clear_intent error_text utf8
check_config env entry target cfg =
    let paths = parse_paths env entry.paths in
    if is_revertive env.revertive cfg
    then rejected (
        (utf8 "config "
          ++ env.quote (utf8 entry.name)
          ++ utf8 " is revertive for target "
          ++ utf8 target
          ++ utf8 ", not expecting clearDeviations")
        ∷ [])
    else if not_empty paths.1
    then rejected paths.1
    else elim (get_intent_update env cfg true) [
      | ok update ↦ accepted (clear_intent env cfg paths.0 update)
      | err e ↦ rejected (
          (utf8 "failed to build intent update for config "
            ++ env.quote (utf8 entry.name)
            ++ utf8 ": "
            ++ error_text e)
          ∷ [])
    ]

unfoldable pub check_entry : Env → String → List (String × Config) → ClearConfig → Entry
unfolding resolve_clear_deviation_config check_config error_text
check_entry env target configs entry =
    elim (resolve_clear_deviation_config env entry.name target configs) [
      | ok cfg ↦ check_config env entry target cfg
      | err e ↦ rejected (error_text e ∷ [])
    ]

unfoldable pub add_entry :
    String → Entry → List Intent × List ClearResult → List Intent × List ClearResult
add_entry name (accepted intent) (is, rs) = (intent ∷ is, rs)
add_entry name (rejected errors) (is, rs) =
    (is, record { name = name; success = false; errors = errors } ∷ rs)

-- The loop: the intents, and the rejected entries.
unfoldable pub check_entries :
    Env → String → List (String × Config) → List ClearConfig → List Intent × List ClearResult
unfolding check_entry add_entry
check_entries env target configs [] = ([], [])
check_entries env target configs (entry ∷ entries) =
    let rest = check_entries env target configs entries in
    add_entry entry.name (check_entry env target configs entry) rest

unfoldable pub clear_request : Env → Key → String → List Intent → SetRequest
clear_request env target id intents = record {
  transaction_id = id;
  datastore_name = env.key_string target;
  dry_run = false;
  timeout = 60;
  intents = intents;
}
