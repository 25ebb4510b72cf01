-- ===== src/Transactor/Deviations/Laws.antt =====
-- Which Deviations pkg/sdc/target/manager/transactor.go creates and deletes.
use config_server.Prelude.{String, ap, arith, sym, ◌<>◌, ◌≢◌}
use config_server.Config.{Config}
use config_server.Config.Deviation.{config_deviation, deviation_name}
use config_server.Transactor.{Key}
use config_server.Transactor.Deviations.{deleted_key, deviation_key}
use text.Mathlib.TextLemmas.{length-append}
use Prim.Native.String.{count}

pub deviation_name-ne : (s : String) → deviation_name config_deviation s ≢ s
unfolding deviation_name
deviation_name-ne s e =
    omega (arith, ap count e, length-append "config" ("-" <> s), length-append "-" s)

-- The Deviation that is deleted with a config is never the one that was created for it.
pub deleted_key-ne-deviation_key : (cfg : Config) → deleted_key cfg ≢ deviation_key cfg
unfolding deleted_key deviation_key
deleted_key-ne-deviation_key cfg e = deviation_name-ne cfg.name (sym (ap (λ (k : Key). k.name) e))
