-- ===== src/DryRun/Laws.antt =====
-- What a dry run of apis/config/handlers/confighandler.go sends, and what it leaves.
use config_server.Prelude.{
  Bool, Bytes, List, Option, none, some, string_eq, true, utf8, ℕ, ◌++◌, ◌∷◌, ◌≡◌, ◌⊎◌,
}
use config_server.Condition.{
  Condition, condition_false, condition_true, condition_type_ready, reason_failed, reason_ready,
}
use config_server.Config.{Config, set_config_condition}
use config_server.DryRun.{ReadTarget, Reply, dry_run_request, get_target_key, panics, replies}
use config_server.Errors.{Error, error_text, ok}
use config_server.Instantiation.{DiscoveryInfo, Target}
use config_server.TargetConfig.{is_ready}
use config_server.Transactor.{
  Env, History, Intent, Key, closes_dataserver, dials_dataserver, gets_target, sets_transaction,
}
use config_server.Transactor.Response.{process_transaction_response}

-- What a handler answers once the reply is read as warnings and an error: with an error, the object
-- keeps its applied config, and its only new condition is a Ready condition that is False and carries
-- both; without one, the spec becomes the applied config and the schema is that of the target, if that
-- was discovered, and else the handler panics.
abbrev pub Answers : Config → Target → Bytes × Option Error → Reply → Type 0
Answers c target (warnings, some e) reply =
    (stored : Config) × (now : ℕ) × (reply ≡ replies (some stored) (some e))
    × (stored
        ≡ set_config_condition
            (record {
              type = condition_type_ready;
              status = condition_false;
              observed_generation = 0;
              last_transition_time = now;
              reason = reason_failed;
              message = warnings ++ utf8 " err " ++ error_text e;
            })
            c)
Answers c target (warnings, none) reply =
    ((target.discovery_info ≡ none) × (reply ≡ panics))
    ⊎ ((stored : Config) × (now : ℕ) × (info : DiscoveryInfo) × (target.discovery_info ≡ some info)
        × (reply ≡ replies (some stored) none)
        × (stored.spec ≡ c.spec)
        × (stored.status.applied_config ≡ some c.spec)
        × (stored.status.last_known_good_schema
            ≡ some (record { type = ""; vendor = info.provider; version = info.version }))
        × (stored.status.conditions
            ≡ (set_config_condition
                (record {
                  type = condition_type_ready;
                  status = condition_true;
                  observed_generation = 0;
                  last_transition_time = now;
                  reason = reason_ready;
                  message = warnings;
                })
                c).status.conditions))

-- What is sent and answered for a target, from a history on: the dataserver was not reached; or one
-- request was sent, and the dataserver's reply to it decides.
abbrev pub DryRuns : Env → Config → Target → List Intent → Bool → History → Reply × History → Type 0
DryRuns env c target intents dryrun h result =
    let req = dry_run_request env c target intents dryrun in
    let reply = env.transaction_set (dials_dataserver ∷ h) req in
    ((e : Error) × (env.dial_dataserver h ≡ some e)
      × (result ≡ (replies none (some e), dials_dataserver ∷ h)))
    ⊎ ((env.dial_dataserver h ≡ none)
        × (result.1 ≡ closes_dataserver ∷ sets_transaction req ∷ dials_dataserver ∷ h)
        × Answers c target (process_transaction_response env reply.0 reply.1) result.0)

-- The target that the labels of a config name is there and Ready, and was read.
abbrev pub Prepared : ReadTarget → Config → History → Target → History → Type 0
Prepared read c h target h' =
    (key : Key) × (get_target_key c.labels ≡ ok key)
    × (read h key ≡ ok target)
    × (is_ready target ≡ true)
    × (h' ≡ gets_target key ∷ h)
