-- ===== src/Transactor/Recover.antt =====
-- RecoverConfigs and recoverIntents of pkg/sdc/target/manager/transactor.go: the configs that were
-- applied are replayed into a datastore that holds none of them.
pub mod Laws
pub mod Success
use config_server.Prelude.{Bytes, List, Option, [], false, none, some, true, utf8, ◌∷◌}
use config_server.Config.{Config, config_failed, config_ready}
use config_server.Errors.{Error, Result, err, ok}
use config_server.Transactor.{Env, Intent, Key, M, SetRequest, marks_recovered}
use config_server.Transactor.Intents.{recovery_intents}
use config_server.Transactor.Response.{transaction_set}
use config_server.Transactor.Status.{list_configs_per_target, set_recovered_configs}

-- The configs whose status has an applied config.
unfoldable pub with_applied : List Config → List Config
with_applied [] = []
with_applied (cfg ∷ cfgs) =
    let rest = with_applied cfgs in
    elim cfg.status.applied_config [ none ↦ rest | some applied ↦ cfg ∷ rest ]

unfoldable pub recovery_request : Env → Key → List Intent → SetRequest
recovery_request env target intents = record {
  transaction_id = "recovery";
  datastore_name = env.key_string target;
  dry_run = false;
  timeout = 120;
  intents = intents;
}

-- Transactor.recoverIntents: the message and the error.
unfoldable pub recover_intents : Env → Key → List Config → M (Bytes × Option Error)
unfolding recovery_intents recovery_request transaction_set
recover_intents env target [] h = (([], none), h)
recover_intents env target (cfg ∷ cfgs) h = elim (recovery_intents env (cfg ∷ cfgs)) [
  | err e ↦ (([], some e), h)
  | ok intents ↦ transaction_set env (recovery_request env target intents) h
]

-- What is returned once the status of the configs is written: the message, and the error.
unfoldable pub status_written :
    Result (Unit {0}) → Bytes → Option Bytes × Option Error → Option Bytes × Option Error
status_written (err e) msg written = (some msg, some e)
status_written (ok u) msg written = written

-- From the answer of recoverIntents on. `marks_recovered` is the handle's MarkRecovered.
unfoldable pub finish_recovery : Env → Key → Bytes × Option Error → M (Option Bytes × Option Error)
unfolding set_recovered_configs status_written utf8 config_failed config_ready
finish_recovery env target (msg, some e) h =
    let (r, h') =
      set_recovered_configs env target (λ now cfg. config_failed now cfg.generation msg) h in
    (
      status_written r (utf8 "recovery failed, and failed to update config status")
          (some msg, some e),
      h',
    )
finish_recovery env target (msg, none) h =
    let (r, h') =
      set_recovered_configs env target
        (λ now cfg. config_ready now cfg.generation (utf8 "target recovered"))
        (marks_recovered true ∷ h) in
    (status_written r (utf8 "recovered, but failed to update config status") (none, none), h')

unfoldable pub replay : Env → Key → Result (List Config) → M (Option Bytes × Option Error)
unfolding with_applied recover_intents finish_recovery
replay env target (err e) h = ((none, some e), h)
replay env target (ok cfgs) h =
    let (answer, h') = recover_intents env target (with_applied cfgs) h in
    finish_recovery env target answer h'

-- Transactor.RecoverConfigs.
unfoldable pub recover_configs : Env → Key → M (Option Bytes × Option Error)
unfolding list_configs_per_target replay
recover_configs env target h =
    let (r, h') = list_configs_per_target env target h in replay env target r h'
