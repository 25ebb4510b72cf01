-- ===== src/Transactor/Deviations.antt =====
-- The Deviation of a config, and its finalizer, in pkg/sdc/target/manager/transactor.go.
pub mod Laws
use config_server.Prelude.{List, String, [], if◌then◌else◌, none, some, ◌∷◌}
use config_server.Config.{Config}
use config_server.Config.Deviation.{config_deviation, deviation_name}
use config_server.Errors.{Result, err, is_not_found, ok}
use config_server.Transactor.{
  Env, Key, M, check, creates_deviation, deletes_deviation, gets_deviation, patches_finalizers,
}
use config_server.Transactor.Status.{config_key}

abbrev pub finalizer : String
finalizer = "config.config.sdcio.dev/finalizer"

-- patchMetadata with the finalizers that the mutation sets.
unfoldable pub patch_metadata : Env → Config → List String → M (Result Config)
patch_metadata env cfg finalizers h =
    (env.patch_finalizers h cfg finalizers, patches_finalizers (config_key cfg) finalizers ∷ h)

unfoldable pub apply_finalizer : Env → Config → M (Result Config)
unfolding patch_metadata
apply_finalizer env cfg = patch_metadata env cfg (finalizer ∷ [])

unfoldable pub delete_finalizer : Env → Config → M (Result Config)
unfolding patch_metadata
delete_finalizer env cfg = patch_metadata env cfg []

-- The name under which applyDeviation reads and creates the Deviation of a config.
unfoldable pub deviation_key : Config → Key
unfolding deviation_name
deviation_key cfg = record {
  namespace = cfg.namespace;
  name = deviation_name config_deviation cfg.name;
}

unfoldable pub create_deviation : Env → Key → M (Result (Unit {0}))
create_deviation env key h = (check (env.create_deviation h key), creates_deviation key ∷ h)

-- Transactor.applyDeviation: it is created if it is not found.
unfoldable pub apply_deviation : Env → Config → M (Result (Unit {0}))
unfolding deviation_key create_deviation is_not_found
apply_deviation env cfg h =
    let key = deviation_key cfg in
    let h' = gets_deviation key ∷ h in
    elim (env.get_deviation h key) [
      | none ↦ (ok tt, h')
      | some e ↦ if is_not_found e then create_deviation env key h' else (err e, h')
    ]

-- The key that deleteDeviation deletes: the name of the config itself.
unfoldable pub deleted_key : Config → Key
deleted_key cfg = record { namespace = cfg.namespace; name = cfg.name }

-- Transactor.deleteDeviation: one that is not found is no error.
unfoldable pub delete_deviation : Env → Config → M (Result (Unit {0}))
unfolding deleted_key is_not_found
delete_deviation env cfg h =
    let h' = deletes_deviation (deleted_key cfg) ∷ h in
    elim (env.delete_deviation h (deleted_key cfg)) [
      | none ↦ (ok tt, h')
      | some e ↦ (if is_not_found e then ok tt else err e, h')
    ]
