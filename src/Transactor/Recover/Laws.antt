-- ===== src/Transactor/Recover/Laws.antt =====
-- When RecoverConfigs of pkg/sdc/target/manager/transactor.go takes a target for recovered.
use config_server.Prelude.{List, [], false, none, some, true, ◌∷◌, ◌≡◌}
use config_server.Condition.{Condition}
use config_server.Config.{Config}
use config_server.Errors.{Error, ok}
use config_server.Transactor.{
  Adds, Env, History, Intent, Key, confirms_transaction, lists_configs, marks_recovered,
  sets_transaction,
}
use config_server.Transactor.Intents.{recovery_intents}
use config_server.Transactor.Local.{Local}
use config_server.Transactor.Recover.{recovery_request, with_applied}
use config_server.Transactor.Response.{transaction_set}
use config_server.Transactor.Response.Laws.{is_clean}

-- What is replayed: the intents of exactly the configs of the target that were applied before.
abbrev pub Replays : Env → Key → History → List Intent → Type 0
Replays env target h intents =
    (cfgs : List Config) × (env.list_configs h target ≡ ok cfgs)
    × (recovery_intents env (with_applied cfgs) ≡ ok intents)

-- The calls of a recovery. `marks_recovered true` is made in two cases only.
pub data Recovery (env : Env) (target : Key) (h : History) : History → Type 0 where
  not_sent : {h' : History} → Adds Local h h' → Recovery env target h h'
  refused :
      {h' : History} (intents : List Intent)
      → Replays env target h intents
      → (let h1 = lists_configs target ∷ h in
          let req = recovery_request env target intents in
          let reply = env.transaction_set h1 req in
          (is_clean reply.0 reply.1 ≡ false) × Adds Local (sets_transaction req ∷ h1) h')
      → Recovery env target h h'
  unconfirmed :
      {h' : History} (intents : List Intent) (e : Error)
      → Replays env target h intents
      → (let req = recovery_request env target intents in
          let h2 = sets_transaction req ∷ lists_configs target ∷ h in
          (env.transaction_confirm h2 req.datastore_name "recovery" ≡ some e)
          × Adds Local (confirms_transaction req.datastore_name "recovery" ∷ h2) h')
      → Recovery env target h h'
  replayed :
      {h' : History} (intents : List Intent)
      → Replays env target h intents
      → (let h1 = lists_configs target ∷ h in
          let req = recovery_request env target intents in
          let reply = env.transaction_set h1 req in
          let h2 = sets_transaction req ∷ h1 in
          (is_clean reply.0 reply.1 ≡ true)
          × (env.transaction_confirm h2 req.datastore_name "recovery" ≡ none)
          × Adds Local
              (marks_recovered true ∷ confirms_transaction req.datastore_name "recovery" ∷ h2)
              h')
      → Recovery env target h h'
  nothing_to_replay :
      {h' : History} (cfgs : List Config)
      → env.list_configs h target ≡ ok cfgs
      → with_applied cfgs ≡ []
      → Adds Local (marks_recovered true ∷ lists_configs target ∷ h) h'
      → Recovery env target h h'
