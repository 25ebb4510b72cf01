-- ===== src/Transactor/Failure.antt =====
-- handleTransactionErrors of pkg/sdc/target/manager/transactor.go.
pub mod Laws
use config_server.Prelude.{
  Bool, Bytes, List, Option, String, [], false, lookup, map, none, some, string_eq, true, utf8,
  ◌++◌, ◌∷◌,
}
use config_server.Config.{Config}
use config_server.Errors.{Error, Result, join, join_one, plain}
use config_server.Transactor.{
  Env, IntentResponse, M, Outcome, SetResponse, attempt, return, ◌>>=◌, ◌>>◌,
}
use config_server.Transactor.Deviations.{apply_finalizer}
use config_server.Transactor.Response.{join_texts}
use config_server.Transactor.Status.{update_config_with_error}

-- Transactor.processFailedConfig. What updateConfigWithError gets is the object that the patch left.
unfoldable pub process_failed_config :
    Env → Config → Bytes → Option Error → Bool → M (Result (Unit {0}))
unfolding apply_finalizer update_config_with_error
process_failed_config env cfg msg e recoverable = do
  patched ← apply_finalizer env cfg
  update_config_with_error env patched msg e recoverable

-- A loop over one of the two maps with one error for all.
unfoldable pub fail_all : Env → List (String × Config) → Option Error → Bool → M (Result (Unit {0}))
unfolding process_failed_config
fail_all env [] e recoverable = return tt
fail_all env ((key, cfg) ∷ m) e recoverable = do
  process_failed_config env cfg [] e recoverable
  fail_all env m e recoverable

unfoldable pub fail_both :
    Env
    → List (String × Config)
    → List (String × Config)
    → Option Error
    → Bool
    → M (Result (Unit {0}))
unfolding fail_all
fail_both env to_update to_delete e recoverable = do
  fail_all env (env.range_configs to_update) e recoverable
  fail_all env (env.range_configs to_delete) e false

unfoldable pub add_plain : List Bytes → Option Error → Option Error
unfolding join
add_plain [] errs = errs
add_plain (e ∷ es) errs = add_plain es (join errs (some (plain e)))

unfoldable pub collect_warnings : Env → List Bytes → List Bytes
unfolding utf8
collect_warnings env = map (λ e. utf8 "warning: " ++ env.quote e)

-- The error of the whole once an intent is reported that is in neither map.
unfoldable pub unknown_intent : String → Option Error → Option Error
unfolding join utf8
unknown_intent name errs = join errs (
    some (
      plain (
        utf8 "dataserver reported an error in an intent "
        ++ utf8 name
        ++ utf8 " that does not exist")))

-- The loop over the intents of the reply. The answer is the error of an unknown intent, which ends
-- the loop.
unfoldable pub fail_intents :
    Env
    → List (String × Config)
    → List (String × Config)
    → Option Error
    → List (String × IntentResponse)
    → M (Result (Option (Option Error)))
unfolding process_failed_config add_plain collect_warnings join_texts join_one unknown_intent
fail_intents env to_update to_delete global [] = return none
fail_intents env to_update to_delete global ((name, intent) ∷ is) =
    let errs = add_plain intent.errors (join_one global) in
    let msg = join_texts (collect_warnings env intent.errors) in
    elim (lookup name to_update) [
      | some cfg ↦
          process_failed_config env cfg msg errs false
          >> fail_intents env to_update to_delete global is
      | none ↦ elim (lookup name to_delete) [
        | some cfg ↦
            process_failed_config env cfg msg errs false
            >> fail_intents env to_update to_delete global is
        | none ↦ return (some (unknown_intent name errs))
      ]
    ]

abbrev pub answer_with : Bool → Option Error → M Outcome
answer_with requeue e h = ((requeue, e), h)

-- Transactor.handleTransactionErrors.
unfoldable pub handle_transaction_errors :
    Env
    → Option SetResponse
    → List (String × Config)
    → List (String × Config)
    → Option Error
    → Bool
    → M Outcome
unfolding fail_both fail_intents
handle_transaction_errors env none to_update to_delete global recoverable =
    attempt true (fail_both env to_update to_delete global recoverable)
      (λ _. answer_with recoverable global)
handle_transaction_errors env (some rsp) to_update to_delete global recoverable =
    attempt true (fail_intents env to_update to_delete global rsp.intents) λ unknown. elim unknown [
      | none ↦ answer_with recoverable global
      | some e ↦ attempt true (fail_both env to_update to_delete e false) (λ _. answer_with false e)
    ]
