-- ===== src/Transactor/Recover/Success.antt =====
-- What it means that RecoverConfigs of pkg/sdc/target/manager/transactor.go returns no error.
use config_server.Prelude.{List, none, string_eq, true, ◌∷◌, ◌≡◌}
use config_server.Config.{Config}
use config_server.Transactor.{Env, History, Intent, Key, lists_configs, sets_transaction}
use config_server.Transactor.Recover.{recovery_request}
use config_server.Transactor.Response.{transaction_set}
use config_server.Transactor.Response.Laws.{is_clean}

-- The dataserver accepted and confirmed the replay of the intents.
abbrev pub Confirmed : Env → Key → History → List Intent → Type 0
Confirmed env target h intents =
    let h1 = lists_configs target ∷ h in
    let req = recovery_request env target intents in
    let reply = env.transaction_set h1 req in
    (is_clean reply.0 reply.1 ≡ true)
    × (env.transaction_confirm (sets_transaction req ∷ h1) (env.key_string target) "recovery"
        ≡ none)
