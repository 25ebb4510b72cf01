-- ===== src/Transactor/Transact/Protocol.antt =====
-- What Transact of pkg/sdc/target/manager/transactor.go asks of the dataserver, in which order.
use config_server.Prelude.{
  Bool-cases, List, Option, Option-cases, String, [], false, if◌then◌else◌, inl, inr, none,
  not_empty, refl, some, true, ◌||◌, ◌∙◌, ◌∷◌, ◌≡◌, ◌⊎◌,
}
use config_server.Config.{Config, Schema}
use config_server.Errors.{Error, Result, Result-cases, err, ok}
use config_server.Transactor.{
  Adds, Adds-trans, Env, Handle, History, Intent, Key, M, Outcome, SetRequest, SetResponse, attempt,
  confirms_transaction, nothing, proceed, sets_transaction,
}
use config_server.Transactor.Classify.{get_configs_to_transact}
use config_server.Transactor.Deviations.{
  apply_deviation, apply_finalizer, delete_deviation, delete_finalizer,
}
use config_server.Transactor.Failure.{answer_with}
use config_server.Transactor.Failure.Laws.{handle_transaction_errors-IsLocal}
use config_server.Transactor.Intents.{send_set, set_intents, set_request, update_intents}
use config_server.Transactor.Local.{
  >>=-IsLocal, IsLocal, Local, apply_deviation-IsLocal, apply_finalizer-IsLocal, attempt-IsLocal,
  delete_deviation-IsLocal, delete_finalizer-IsLocal, list_configs_per_target-IsLocal,
  update_config_with_success-IsLocal,
}
use config_server.Transactor.Response.{analyze_intent_response}
use config_server.Transactor.Response.Laws.{analyze_intent_response_lem, is_clean}
use config_server.Transactor.Status.{list_configs_per_target, update_config_with_success}
use config_server.Transactor.Transact.{
  apply_deviations, conclude, confirm_transaction, release_all, run_transaction, succeed_all,
  transact,
}

-- The calls of one transaction with the datastore: none; one TransactionSet whose reply is not
-- clean; or one whose reply is clean, directly followed by the confirm of the same transaction.
-- Before and after come calls that are local.
pub data Protocol (env : Env) (target : Key) (datastore : String) (h : History)
    : History → Type 0 where
  quiet : {h' : History} → Adds Local h h' → Protocol env target datastore h h'
  refused :
      {h1 h' : History} (req : SetRequest)
      → Adds Local h h1
      → (req.datastore_name ≡ env.key_string target) × (req.dry_run ≡ false)
      → (let reply = env.transaction_set h1 req in is_clean reply.0 reply.1 ≡ false)
      → Adds Local (sets_transaction req ∷ h1) h'
      → Protocol env target datastore h h'
  accepted :
      {h1 h' : History} (req : SetRequest)
      → Adds Local h h1
      → (req.datastore_name ≡ env.key_string target) × (req.dry_run ≡ false)
      → (let reply = env.transaction_set h1 req in is_clean reply.0 reply.1 ≡ true)
      → Adds Local
          (confirms_transaction datastore req.transaction_id ∷ sets_transaction req ∷ h1)
          h'
      → Protocol env target datastore h h'

-- Local calls may come first.
after-Local :
    {env : Env} {target : Key} {datastore : String} {h h' h'' : History}
    → Adds Local h h'
    → Protocol env target datastore h' h''
    → Protocol env target datastore h h''
after-Local a (quiet b) = quiet (Adds-trans a b)
after-Local a (refused req b q c d) = refused req (Adds-trans a b) q c d
after-Local a (accepted req b q c d) = accepted req (Adds-trans a b) q c d

attempt-Protocol :
    {A : Type 0} {env : Env} {target : Key} {datastore : String} (m : M (Result A))
    (f : A → M Outcome) (h : History)
    → IsLocal m
    → ((a : A) (h' : History) → Protocol env target datastore h' (f a h').1)
    → Protocol env target datastore h (attempt true m f h).1
attempt-Protocol {A} {env} {target} {datastore} m f h a b = go (m h).0 (m h).1 (a h)
  where
    go :
        (r : Result A) (h' : History)
        → Adds Local h h'
        → Protocol env target datastore h (proceed true r f h').1
    go (ok x) h' c = after-Local c (b x h')
    go (err e) h' c = quiet c

succeed_all-IsLocal :
    (env : Env) (schema : Option Schema) (m : List (String × Config))
    → IsLocal (succeed_all env schema m)
unfolding succeed_all
succeed_all-IsLocal env schema [] = λ h. nothing
succeed_all-IsLocal env schema ((key, cfg) ∷ m) =
    >>=-IsLocal (apply_finalizer env cfg) _ (apply_finalizer-IsLocal env cfg) λ patched.
      >>=-IsLocal (update_config_with_success env cfg schema []) _
        (update_config_with_success-IsLocal env cfg schema [])
        (λ _. succeed_all-IsLocal env schema m)

release_all-IsLocal : (env : Env) (m : List (String × Config)) → IsLocal (release_all env m)
unfolding release_all
release_all-IsLocal env [] = λ h. nothing
release_all-IsLocal env ((key, cfg) ∷ m) =
    >>=-IsLocal (delete_finalizer env cfg) _ (delete_finalizer-IsLocal env cfg) λ patched.
      >>=-IsLocal (delete_deviation env patched) _ (delete_deviation-IsLocal env patched)
        (λ _. release_all-IsLocal env m)

apply_deviations-IsLocal : (env : Env) (cfgs : List Config) → IsLocal (apply_deviations env cfgs)
unfolding apply_deviations
apply_deviations-IsLocal env [] = λ h. nothing
apply_deviations-IsLocal env (cfg ∷ cfgs) =
    >>=-IsLocal (apply_deviation env cfg) _ (apply_deviation-IsLocal env cfg)
      (λ _. apply_deviations-IsLocal env cfgs)

-- After a confirm that succeeded.
finish-IsLocal :
    (env : Env) (handle : Handle) (to_update to_delete : List (String × Config))
    → IsLocal (
        attempt true (succeed_all env handle.schema (env.range_configs to_update)) (λ _.
          attempt true
            (release_all env (env.range_configs to_delete))
            (λ _. answer_with false none)))
finish-IsLocal env handle to_update to_delete =
    attempt-IsLocal true (succeed_all env handle.schema (env.range_configs to_update)) _
      (succeed_all-IsLocal env handle.schema (env.range_configs to_update))
      (λ _.
        attempt-IsLocal true (release_all env (env.range_configs to_delete)) _
          (release_all-IsLocal env (env.range_configs to_delete)) (λ _ _. nothing))

conclude_clean :
    (env : Env) (handle : Handle) (id : String) (to_update to_delete : List (String × Config))
    (rsp : Option SetResponse) (e : Option Error) (h : History)
    → is_clean rsp e ≡ true
    → Adds Local
        (confirms_transaction handle.datastore_name id ∷ h)
        (conclude env handle id to_update to_delete rsp e h).1
unfolding conclude confirm_transaction
conclude_clean env handle id to_update to_delete rsp e h clean =
    rw ((analyze_intent_response_lem e rsp).0 ∙ clean, conclude)
      (elim (Option-cases (env.transaction_confirm h handle.datastore_name id)) [
        | inl confirmed ↦ rw confirmed (
            finish-IsLocal env handle to_update to_delete
              (confirms_transaction handle.datastore_name id ∷ h))
        | inr (x, failed) ↦ rw failed nothing
      ])

conclude_dirty :
    (env : Env) (handle : Handle) (id : String) (to_update to_delete : List (String × Config))
    (rsp : Option SetResponse) (e : Option Error) (h : History)
    → is_clean rsp e ≡ false
    → Adds Local h (conclude env handle id to_update to_delete rsp e h).1
unfolding conclude
conclude_dirty env handle id to_update to_delete rsp e h dirty =
    let result = analyze_intent_response e rsp in
    rw ((analyze_intent_response_lem e rsp).0 ∙ dirty, conclude)
      (handle_transaction_errors-IsLocal env rsp to_update to_delete result.global_error
        result.recoverable h)

-- setIntents fails before it sends anything, or sends one request.
set_intents-cases :
    (env : Env) (target : Key) (id : String) (to_update to_delete : List (String × Config))
    (h : History)
    → ((e : Error) × (set_intents env target id to_update to_delete false h ≡ ((none, some e), h)))
      ⊎ ((updates : List Intent) × (set_intents env target id to_update to_delete false h
            ≡ send_set env (set_request env target id false updates to_delete) h))
unfolding set_intents
set_intents-cases env target id to_update to_delete h =
    elim (Result-cases (update_intents env (env.range_configs to_update))) [
      | inl (updates, parsed) ↦ inr (updates, rw (parsed, set_intents))
      | inr (e, failed) ↦ inl (e, rw (failed, set_intents))
    ]

run_transaction-Protocol :
    (env : Env) (target : Key) (handle : Handle) (to_update to_delete : List (String × Config))
    (h : History)
    → Protocol env target handle.datastore_name h
        (run_transaction env target handle to_update to_delete h).1
unfolding run_transaction set_request
run_transaction-Protocol env target handle to_update to_delete h =
    let id = env.new_uuid h in
    elim (set_intents-cases env target id to_update to_delete h) [
      | inl (e, failed) ↦
          rw (failed, run_transaction)
            (quiet (
              conclude_dirty env handle id to_update to_delete none (some e) h
                (unfold is_clean in refl)))
      | inr (updates, sent) ↦
          let req = set_request env target id false updates to_delete in
          let reply = env.transaction_set h req in
          let h' = sets_transaction req ∷ h in
          elim (Bool-cases (is_clean reply.0 reply.1)) [
            | inl clean ↦
                rw (sent, run_transaction)
                  (accepted req nothing (refl, refl) clean
                    (conclude_clean env handle id to_update to_delete reply.0 reply.1 h' clean))
            | inr dirty ↦
                rw (sent, run_transaction)
                  (refused req nothing (refl, refl) dirty
                    (conclude_dirty env handle id to_update to_delete reply.0 reply.1 h' dirty))
          ]
    ]

-- Transact keeps to the protocol with the dataserver: it sends at most one TransactionSet, never a
-- dry run, confirms it exactly if the reply is clean and with nothing in between, and makes no
-- other call of the dataserver.
pub transact-Protocol :
    (env : Env) (target : Key) (handle : Handle) (h : History)
    → Protocol env target handle.datastore_name h (transact env target handle h).1
unfolding transact
transact-Protocol env target handle h =
    attempt-Protocol (list_configs_per_target env target) _ h
      (list_configs_per_target-IsLocal env target)
      (λ cfgs h'.
        attempt-Protocol (apply_deviations env cfgs) _ h' (apply_deviations-IsLocal env cfgs)
          (λ _ h''. changes cfgs h''))
  where
    changes :
        (cfgs : List Config) (h : History)
        → let maps = get_configs_to_transact env cfgs in
          Protocol env target handle.datastore_name h
            ((if not_empty maps.0 || not_empty maps.1
                then run_transaction env target handle maps.0 maps.1
                else answer_with false none)
              h).1
    changes cfgs h =
        let maps = get_configs_to_transact env cfgs in
        elim (Bool-cases (not_empty maps.0 || not_empty maps.1)) [
          | inl some_change ↦
              rw some_change (run_transaction-Protocol env target handle maps.0 maps.1 h)
          | inr no_change ↦ rw no_change (quiet nothing)
        ]
