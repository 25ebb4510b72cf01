-- ===== src/Tests/DryRuns.antt =====
-- Examples for the properties of DryRun.
use config_server.Prelude.{[], string_eq, ◌∷◌}
use config_server.Config.{Config, target_name_key, target_namespace_key}
use config_server.DryRun.{ReadTarget}
use config_server.Errors.{ok}
use config_server.Tests.{a_config}
use config_server.Tests.TargetConfigs.{ready_target}

abbrev labelled_config : Config
labelled_config = record a_config {
  labels = (target_name_key, "dev1") ∷ (target_namespace_key, "default") ∷ [];
}

abbrev reads_ready : ReadTarget
reads_ready h key = ok ready_target
