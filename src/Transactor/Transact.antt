-- ===== src/Transactor/Transact.antt =====
-- Transactor.Transact of pkg/sdc/target/manager/transactor.go.
pub mod Protocol
use config_server.Prelude.{
  List, Option, String, [], false, if◌then◌else◌, is_none, none, not_empty, true, ◌&&◌, ◌||◌, ◌∷◌,
}
use config_server.Config.{Config, Schema}
use config_server.Errors.{Error, Result}
use config_server.Transactor.{
  Env, Handle, Key, M, Outcome, SetResponse, attempt, check, confirms_transaction, return, ◌>>=◌,
  ◌>>◌,
}
use config_server.Transactor.Classify.{get_configs_to_transact}
use config_server.Transactor.Deviations.{
  apply_deviation, apply_finalizer, delete_deviation, delete_finalizer,
}
use config_server.Transactor.Failure.{answer_with, handle_transaction_errors}
use config_server.Transactor.Intents.{set_intents}
use config_server.Transactor.Response.{analyze_intent_response}
use config_server.Transactor.Status.{list_configs_per_target, update_config_with_success}

unfoldable pub apply_deviations : Env → List Config → M (Result (Unit {0}))
unfolding apply_deviation
apply_deviations env [] = return tt
apply_deviations env (cfg ∷ cfgs) = do apply_deviation env cfg; apply_deviations env cfgs

-- The confirm call of the dataserver.
unfoldable pub confirm_transaction : Env → String → String → M (Result (Unit {0}))
confirm_transaction env datastore id h =
    (check (env.transaction_confirm h datastore id), confirms_transaction datastore id ∷ h)

-- The loop after the confirm over the configs that were updated: the success is written for the
-- config as it was transacted, whatever the patch of its finalizer answers.
unfoldable pub succeed_all : Env → Option Schema → List (String × Config) → M (Result (Unit {0}))
unfolding apply_finalizer update_config_with_success
succeed_all env schema [] = return tt
succeed_all env schema ((key, cfg) ∷ m) = do
  patched ← apply_finalizer env cfg
  update_config_with_success env cfg schema []
  succeed_all env schema m

-- And over those that were deleted. The Deviation is that of the object that the patch left.
unfoldable pub release_all : Env → List (String × Config) → M (Result (Unit {0}))
unfolding delete_finalizer delete_deviation
release_all env [] = return tt
release_all env ((key, cfg) ∷ m) = do
  patched ← delete_finalizer env cfg
  delete_deviation env patched
  release_all env m

-- From the reply on.
unfoldable pub conclude :
    Env
    → Handle
    → String
    → List (String × Config)
    → List (String × Config)
    → Option SetResponse
    → Option Error
    → M Outcome
unfolding analyze_intent_response handle_transaction_errors confirm_transaction succeed_all
    release_all
conclude env handle id to_update to_delete rsp e =
    let result = analyze_intent_response e rsp in
    if is_none result.global_error && is_none result.intent_errors
    then attempt true (confirm_transaction env handle.datastore_name id) (λ _.
      attempt true (succeed_all env handle.schema (env.range_configs to_update)) (λ _.
        attempt true (release_all env (env.range_configs to_delete)) (λ _. answer_with false none)))
    else handle_transaction_errors env rsp to_update to_delete result.global_error
        result.recoverable

unfoldable pub run_transaction :
    Env → Key → Handle → List (String × Config) → List (String × Config) → M Outcome
unfolding set_intents conclude
run_transaction env target handle to_update to_delete h =
    let id = env.new_uuid h in
    let (reply, h') = set_intents env target id to_update to_delete false h in
    conclude env handle id to_update to_delete reply.0 reply.1 h'

-- What (requeue, err) the caller gets.
unfoldable pub transact : Env → Key → Handle → M Outcome
unfolding list_configs_per_target apply_deviations get_configs_to_transact run_transaction
transact env target handle = attempt true (list_configs_per_target env target) (λ cfgs.
    attempt true (apply_deviations env cfgs) (λ _.
      let maps = get_configs_to_transact env cfgs in
      if not_empty maps.0 || not_empty maps.1
      then run_transaction env target handle maps.0 maps.1
      else answer_with false none))
