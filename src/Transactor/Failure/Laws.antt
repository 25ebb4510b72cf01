-- ===== src/Transactor/Failure/Laws.antt =====
-- What handleTransactionErrors of pkg/sdc/target/manager/transactor.go calls, and which generation
-- a failure is written for.
use config_server.Prelude.{
  Bool, Bytes, List, Option, Option-cases, String, [], arith, bytes_eq, false, inl, inr, lookup,
  nat_eq, none, not, some, string_eq, true, ◌==◌, ◌∷◌, ◌≡◌,
}
use config_server.Config.{Config, is_recoverable}
use config_server.Errors.{Error, join_one, ok}
use config_server.Transactor.{
  Env, History, IntentResponse, SetResponse, attempt, gets_config, nothing, patches_finalizers,
}
use config_server.Transactor.Deviations.{apply_finalizer, finalizer, patch_metadata}
use config_server.Transactor.Failure.{
  add_plain, answer_with, collect_warnings, fail_all, fail_both, fail_intents,
  handle_transaction_errors, process_failed_config,
}
use config_server.Transactor.Local.{
  >>=-IsLocal, IsLocal, apply_finalizer-IsLocal, attempt-IsLocal, update_config_with_error-IsLocal,
}
use config_server.Transactor.Response.{join_texts}
use config_server.Transactor.Status.{
  apply_status, config_key, error_desired, get_config, update_config_with_error, with_error,
}
use config_server.Transactor.Status.Laws.{error_desired_lem}

process_failed_config-IsLocal :
    (env : Env) (cfg : Config) (msg : Bytes) (e : Option Error) (recoverable : Bool)
    → IsLocal (process_failed_config env cfg msg e recoverable)
unfolding process_failed_config
process_failed_config-IsLocal env cfg msg e recoverable =
    >>=-IsLocal (apply_finalizer env cfg) _ (apply_finalizer-IsLocal env cfg)
      (λ patched. update_config_with_error-IsLocal env patched msg e recoverable)

fail_all-IsLocal :
    (env : Env) (m : List (String × Config)) (e : Option Error) (recoverable : Bool)
    → IsLocal (fail_all env m e recoverable)
unfolding fail_all
fail_all-IsLocal env [] e recoverable = λ h. nothing
fail_all-IsLocal env ((key, cfg) ∷ m) e recoverable =
    >>=-IsLocal (process_failed_config env cfg [] e recoverable) _
      (process_failed_config-IsLocal env cfg [] e recoverable)
      (λ _. fail_all-IsLocal env m e recoverable)

fail_both-IsLocal :
    (env : Env) (to_update to_delete : List (String × Config)) (e : Option Error)
    (recoverable : Bool)
    → IsLocal (fail_both env to_update to_delete e recoverable)
unfolding fail_both
fail_both-IsLocal env to_update to_delete e recoverable =
    >>=-IsLocal (fail_all env (env.range_configs to_update) e recoverable) _
      (fail_all-IsLocal env (env.range_configs to_update) e recoverable)
      (λ _. fail_all-IsLocal env (env.range_configs to_delete) e false)

fail_intents-IsLocal :
    (env : Env) (to_update to_delete : List (String × Config)) (global : Option Error)
    (is : List (String × IntentResponse))
    → IsLocal (fail_intents env to_update to_delete global is)
unfolding fail_intents
fail_intents-IsLocal env to_update to_delete global [] h = nothing
fail_intents-IsLocal env to_update to_delete global ((name, intent) ∷ is) h =
    let errs = add_plain intent.errors (join_one global) in
    let msg = join_texts (collect_warnings env intent.errors) in
    let rest = fail_intents-IsLocal env to_update to_delete global is in
    elim (Option-cases (lookup name to_update)) [
      | inr (cfg, found) ↦
          rw (found, fail_intents)
            (>>=-IsLocal (process_failed_config env cfg msg errs false) _
              (process_failed_config-IsLocal env cfg msg errs false) (λ _. rest) h)
      | inl missing ↦ elim (Option-cases (lookup name to_delete)) [
        | inr (cfg, found) ↦
            rw (missing, fail_intents, found)
              (>>=-IsLocal (process_failed_config env cfg msg errs false) _
                (process_failed_config-IsLocal env cfg msg errs false) (λ _. rest) h)
        | inl unknown ↦ rw (missing, fail_intents, unknown) nothing
      ]
    ]

pub handle_transaction_errors-IsLocal :
    (env : Env) (rsp : Option SetResponse) (to_update to_delete : List (String × Config))
    (global : Option Error) (recoverable : Bool)
    → IsLocal (handle_transaction_errors env rsp to_update to_delete global recoverable)
unfolding handle_transaction_errors
handle_transaction_errors-IsLocal env none to_update to_delete global recoverable =
    attempt-IsLocal true (fail_both env to_update to_delete global recoverable) _
      (fail_both-IsLocal env to_update to_delete global recoverable) (λ _ _. nothing)
handle_transaction_errors-IsLocal env (some rsp) to_update to_delete global recoverable =
    attempt-IsLocal true (fail_intents env to_update to_delete global rsp.intents) _
      (fail_intents-IsLocal env to_update to_delete global rsp.intents) after
  where
    after :
        (unknown : Option (Option Error))
        → IsLocal (elim unknown [
          | none ↦ answer_with recoverable global
          | some e ↦
              attempt true (fail_both env to_update to_delete e false) (λ _. answer_with false e)
        ])
    after none = λ h. nothing
    after (some e) =
        attempt-IsLocal true (fail_both env to_update to_delete e false) _
          (fail_both-IsLocal env to_update to_delete e false) (λ _ _. nothing)

-- A failure that is not recoverable is written for the generation that the patch of the finalizer
-- answered: it blocks the config that was read exactly if the two generations agree, whatever
-- generation was transacted.
pub process_failed_config_generation :
    (env : Env) (cfg patched current : Config) (msg : Bytes) (e : Option Error) (h : History)
    → (env.patch_finalizers h cfg (finalizer ∷ []) ≡ ok patched)
    → (env.get_config
          (patches_finalizers (config_key cfg) (finalizer ∷ []) ∷ h)
          (config_key patched)
        ≡ ok current)
    → (current.deletion_timestamp ≡ none)
    → let h' = patches_finalizers (config_key cfg) (finalizer ∷ []) ∷ h in
      let h'' = gets_config (config_key patched) ∷ h' in
      let desired =
        error_desired (env.now h'') patched.generation (with_error msg e) false current in
      (process_failed_config env cfg msg e false h ≡ apply_status env current desired h'')
      × (is_recoverable desired ≡ not (patched.generation == current.generation))
unfolding process_failed_config apply_finalizer patch_metadata update_config_with_error get_config
process_failed_config_generation env cfg patched current msg e h patch read alive =
    let h' = patches_finalizers (config_key cfg) (finalizer ∷ []) ∷ h in
    let h'' = gets_config (config_key patched) ∷ h' in
    (
      ground (arith, patch, read, alive),
      (error_desired_lem (env.now h'') patched.generation (with_error msg e) false current).0,
    )
