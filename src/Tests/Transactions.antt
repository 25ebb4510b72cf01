-- ===== src/Tests/Transactions.antt =====
-- Examples for the properties of Transactor, but for its status writes.
use config_server.Prelude.{
  List, String, [], false, if◌then◌else◌, is_none, none, not, refl, some, string_eq, true, utf8,
  ◌&&◌, ◌++◌, ◌∷◌, ◌≡◌, ◌⊎◌,
}
use config_server.Config.{Config, get_gvknsn, is_revertive}
use config_server.Errors.{
  Error, aborted, external, is_recoverable_transaction_error, transaction, unavailable,
}
use config_server.Tests.{
  a_config, a_handle, a_spec, a_status, a_target, an_env, an_intent_reply, new_config,
}
use config_server.Transactor.{Env, Intent, SetRequest, confirms_transaction, sets_transaction}
use config_server.Transactor.Intents.{
  blobs_of, get_intent_update, recovery_intents, send_set, set_intents, update_intent, updates_of,
}
use config_server.Transactor.Intents.Laws.{
  Deletes, Match, ReplaysConfig, SpecUnparsed, Updates, recovery_intents-Match, set_intents_lem,
}
use config_server.Transactor.Response.{analyze_intent_response, transaction_set}
use config_server.Transactor.Response.Laws.{
  analyze_intent_response_lem, is_clean, no_response_errors, transaction_set_confirms,
}
use config_server.Transactor.Transact.{transact}
use config_server.Transactor.Transact.Protocol.{Protocol, transact-Protocol}

transact-Protocol_example :
    Protocol an_env a_target "default/dev1" [] (transact an_env a_target a_handle []).1
transact-Protocol_example = transact-Protocol an_env a_target a_handle []

set_intents_lem_example :
    ((e : Error) × SpecUnparsed an_env (("k", new_config) ∷ []) e
      × (set_intents an_env a_target "uuid" (("k", new_config) ∷ []) [] false []
          ≡ ((none, some e), [])))
    ⊎ ((req : SetRequest) × (us : List Intent) × (ds : List Intent) × (set_intents an_env a_target
            "uuid"
            (("k", new_config) ∷ [])
            []
            false
            []
          ≡ send_set an_env req [])
        × (req.intents ≡ us ++ ds)
        × (req.transaction_id ≡ "uuid")
        × (req.datastore_name ≡ an_env.key_string a_target)
        × (req.dry_run ≡ false)
        × Match
            (λ (entry : String × Config) i. Updates an_env entry.1 i)
            (("k", new_config) ∷ [])
            us
        × Match (λ (entry : String × Config) i. Deletes entry.1 i) [] ds)
set_intents_lem_example =
    set_intents_lem an_env a_target "uuid" (("k", new_config) ∷ []) [] false []

-- What was applied is not what the spec says.
abbrev changed_config : Config
changed_config = record a_config {
  status = record a_status {
    applied_config =
        some (record a_spec { config = record { path = "/system"; value = 2 ∷ [] } ∷ [] });
  };
}

abbrev replayed_intent : Intent
replayed_intent = record {
  intent = "default.intent1";
  priority = 10;
  update = record { path = utf8 "/system"; value = 2 ∷ [] } ∷ [];
  delete_intent = false;
  delete_ignore_no_exist = false;
  orphan_intent = false;
  non_revertive = false;
  previously_applied = true;
  revert_paths = [];
}

recovery_intents-Match_example :
    Match (ReplaysConfig an_env) (changed_config ∷ []) (replayed_intent ∷ [])
unfolding recovery_intents get_intent_update updates_of blobs_of update_intent get_gvknsn
    is_revertive
recovery_intents-Match_example =
    recovery_intents-Match an_env (changed_config ∷ []) (replayed_intent ∷ []) refl

abbrev failed_request : SetRequest
failed_request = record {
  transaction_id = "t1";
  datastore_name = "default/dev1";
  dry_run = false;
  timeout = 60;
  intents = [];
}

-- The rpc fails.
abbrev failing_env : Env
failing_env = record an_env {
  transaction_set = λ h req. (none, some (external [] (some unavailable) false));
}

transaction_set_confirms_example :
    let reply = failing_env.transaction_set [] failed_request in
    ((transaction_set failing_env failed_request []).1 ≡ (
      if is_clean reply.0 reply.1 && not false
      then confirms_transaction "default/dev1" "t1" ∷ sets_transaction failed_request ∷ []
      else sets_transaction failed_request ∷ []))
    × ((is_clean reply.0 reply.1 ≡ true)
        ⊎ ((e : Error) × ((transaction_set failing_env failed_request []).0.1
              ≡ some (transaction (is_recoverable_transaction_error reply.1) e))))
transaction_set_confirms_example = transaction_set_confirms failing_env failed_request []

analyze_intent_response_lem_example :
    let e = some (external [] (some aborted) false) in
    let r = analyze_intent_response e (some an_intent_reply) in
    ((is_none r.global_error && is_none r.intent_errors) ≡ is_clean (some an_intent_reply) e)
    × (r.global_warnings ≡ [])
    × (r.recoverable
        ≡ (no_response_errors (some an_intent_reply) && is_recoverable_transaction_error e))
analyze_intent_response_lem_example =
    analyze_intent_response_lem (some (external [] (some aborted) false)) (some an_intent_reply)
