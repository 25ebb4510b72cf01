-- ===== src/DryRun.antt =====
-- RunDryRunTransaction of pkg/sdc/target/manager/dryrun.go, and the handlers of
-- apis/config/handlers/confighandler.go that call it. An object that is stored is a Config.
pub mod Laws
use config_server.Prelude.{
  Bool, Bytes, List, Option, String, [], bytes_eq, false, if◌then◌else◌, lookup, nat_eq, none, some,
  string_eq, true, utf8, ℕ, ◌++◌, ◌<>◌, ◌==◌, ◌||◌, ◌∷◌,
}
use config_server.Condition.{
  Condition, condition_false, condition_true, condition_type_ready, reason_failed, reason_ready,
}
use config_server.Config.{
  Config, get_gvknsn, set_config_condition, target_name_key, target_namespace_key,
}
use config_server.Errors.{Error, Result, err, error_text, ok, plain}
use config_server.Instantiation.{Target}
use config_server.Runtime.{status}
use config_server.TargetConfig.{is_ready}
use config_server.Transactor.{
  Env, History, Intent, Key, M, SetRequest, Update, closes_dataserver, dials_dataserver,
  gets_target, sets_transaction,
}
use config_server.Transactor.Intents.{get_intent_update}
use config_server.Transactor.Response.{process_transaction_response}

-- labels[key] of a map that may be nil.
unfoldable pub label : String → List (String × String) → String
unfolding lookup
label key labels = elim (lookup key labels) [ none ↦ "" | some value ↦ value ]

-- GetTargetKey.
unfoldable pub get_target_key : List (String × String) → Result Key
unfolding label utf8
get_target_key labels =
    let name = label target_name_key labels in
    let namespace = label target_namespace_key labels in
    if name == "" || namespace == ""
    then err (
        plain (
          utf8 " target namespace and name is required got "
          ++ utf8 namespace
          ++ utf8 "."
          ++ utf8 name))
    else ok (record { namespace = namespace; name = name })

-- What a handler answers: an object and an error, of which either may be nil; or it panics.
pub data Reply : Type 0 where
  replies : Option Config → Option Error → Reply
  panics : Reply

-- ReadyWithMsg and Failed of apis/condition/condition.go, which do not bound the message.
unfoldable pub outcome_condition : ℕ → String → String → Bytes → Condition
outcome_condition now status reason msg = record {
  type = condition_type_ready;
  status = status;
  observed_generation = 0;
  last_transition_time = now;
  reason = reason;
  message = msg;
}

-- The status once the reply is read.
unfoldable pub finish_dry_run : ℕ → Config → Target → Bytes × Option Error → Reply
unfolding outcome_condition set_config_condition error_text utf8
finish_dry_run now c target (warnings, some e) =
    let msg = warnings ++ utf8 " err " ++ error_text e in
    replies
      (some (set_config_condition (outcome_condition now condition_false reason_failed msg) c))
      (some e)
finish_dry_run now c target (warnings, none) =
    let ready =
      set_config_condition (outcome_condition now condition_true reason_ready warnings) c in
    elim target.discovery_info [
      | none ↦ panics
      | some info ↦
          replies
            (some (record ready {
              status = record ready.status {
                last_known_good_schema =
                    some (record { type = ""; vendor = info.provider; version = info.version });
                applied_config = some c.spec;
              };
            }))
            none
    ]

unfoldable pub dry_run_request : Env → Config → Target → List Intent → Bool → SetRequest
unfolding get_gvknsn
dry_run_request env c target intents dryrun = record {
  transaction_id = get_gvknsn c;
  datastore_name = env.key_string (record { namespace = target.namespace; name = target.name });
  dry_run = dryrun;
  timeout = 60;
  intents = intents;
}

unfoldable pub run_dry_run_transaction : Env → Config → Target → List Intent → Bool → M Reply
unfolding dry_run_request process_transaction_response finish_dry_run
run_dry_run_transaction env c target intents dryrun h =
    let h1 = dials_dataserver ∷ h in
    let req = dry_run_request env c target intents dryrun in
    let reply = env.transaction_set h1 req in
    let h2 = sets_transaction req ∷ h1 in
    elim (env.dial_dataserver h) [
      | some e ↦ (replies none (some e), h1)
      | none ↦ (
        finish_dry_run (env.now h2) c target (process_transaction_response env reply.0 reply.1),
        closes_dataserver ∷ h2,
      )
    ]

-- What client.Get answers for a target.
abbrev pub ReadTarget : Type 0
ReadTarget = History → Key → Result Target

-- The second half of prepareConfigAndTarget.
unfoldable pub ready_or_error : Key → Result Target → Result Target
unfolding is_ready utf8
ready_or_error key (err e) = err e
ready_or_error key (ok target) =
    if is_ready target
    then ok target
    else err (plain (utf8 "target not ready " ++ utf8 (key.namespace <> "/" <> key.name)))

-- prepareConfigAndTarget.
unfoldable pub prepare_target : ReadTarget → Config → M (Result Target)
unfolding get_target_key ready_or_error
prepare_target read c h = elim (get_target_key c.labels) [
  | err e ↦ (err e, h)
  | ok key ↦ (ready_or_error key (read h key), gets_target key ∷ h)
]

unfoldable pub write_intent : Config → List Update → Intent
unfolding get_gvknsn
write_intent c update = record {
  intent = get_gvknsn c;
  priority = c.spec.priority;
  update = update;
  delete_intent = false;
  delete_ignore_no_exist = false;
  orphan_intent = false;
  non_revertive = false;
  previously_applied = false;
  revert_paths = [];
}

unfoldable pub remove_intent : Config → Intent
unfolding get_gvknsn
remove_intent c = record {
  intent = get_gvknsn c;
  priority = 0;
  update = [];
  delete_intent = true;
  delete_ignore_no_exist = false;
  orphan_intent = false;
  non_revertive = false;
  previously_applied = false;
  revert_paths = [];
}

-- DryRunCreateFn and DryRunUpdateFn, which are the same.
unfoldable pub dry_run_write_fn : Env → ReadTarget → Config → Bool → M Reply
unfolding prepare_target get_intent_update write_intent run_dry_run_transaction
dry_run_write_fn env read c dryrun h =
    let (prepared, h') = prepare_target read c h in
    elim prepared [
      | err e ↦ (replies (some c) (some e), h')
      | ok target ↦ elim (get_intent_update env c true) [
        | err e ↦ (replies none (some e), h')
        | ok update ↦ run_dry_run_transaction env c target (write_intent c update ∷ []) dryrun h'
      ]
    ]

-- DryRunDeleteFn.
unfoldable pub dry_run_delete_fn : Env → ReadTarget → Config → Bool → M Reply
unfolding prepare_target remove_intent run_dry_run_transaction
dry_run_delete_fn env read c dryrun h =
    let (prepared, h') = prepare_target read c h in
    elim prepared [
      | err e ↦ (replies (some c) (some e), h')
      | ok target ↦ run_dry_run_transaction env c target (remove_intent c ∷ []) dryrun h'
    ]
