-- ===== src/ClearDeviation/Request.antt =====
-- Target.ClearDeviations of apis/config/target_helpers.go, from its checks to its answer.
use config_server.Prelude.{
  Bool, Bytes, List, Option, String, [], bytes_eq, false, if◌then◌else◌, nat_eq, none, not,
  not_empty, some, string_eq, true, utf8, ℕ, ◌+◌, ◌==◌, ◌∷◌,
}
use config_server.ClearDeviation.{
  ClearConfig, ClearResult, ClearStatus, check_entries, clear_request,
}
use config_server.ClearDeviation.Report.{build_clear_deviation_status}
use config_server.ClearDeviation.Retry.{execute_clear_deviation_tx}
use config_server.Config.{Config}
use config_server.Errors.{Error, Result, err, ok}
use config_server.Transactor.{Env, Key, M}
use config_server.Transactor.Response.{join_texts}

-- field.Invalid at spec.config[index].name.
pub record FieldError : Type 0 where
  pub index : ℕ
  pub name : String
  pub message : Bytes

-- validationErrorsToFieldErrors, from an index on.
unfoldable pub field_errors : ℕ → List ClearResult → List FieldError
unfolding join_texts utf8
field_errors i [] = []
field_errors i (r ∷ rs) =
    let msg = join_texts r.errors in
    record {
      index = i;
      name = r.name;
      message = if msg == [] then utf8 "validation failed" else msg;
    }
    ∷ field_errors (i + 1) rs

-- The API error, or the status of the object that is returned.
pub data ClearAnswer : Type 0 where
  not_ready no_spec no_lister : ClearAnswer
  lister_failed : Error → ClearAnswer
  invalid : List FieldError → ClearAnswer
  cleared : ClearStatus → ClearAnswer

-- With the configs of the target.
unfoldable pub clear_configs : Env → Key → List ClearConfig → List (String × Config) → M ClearAnswer
unfolding check_entries field_errors clear_request execute_clear_deviation_tx
    build_clear_deviation_status utf8
clear_configs env target entries configs h =
    let checked = check_entries env target.name configs entries in
    let req = clear_request env target (env.new_uuid h) checked.0 in
    let (answer, h') = execute_clear_deviation_tx env req h in
    if not_empty checked.1
    then (invalid (field_errors 0 checked.1), h)
    else if not (not_empty checked.0)
    then (
      cleared (record { message = utf8 "no configs to process"; warnings = []; results = [] }),
      h,
    )
    else (cleared (build_clear_deviation_status entries configs answer.0 answer.1), h')

-- `ready` is Target.IsReady; the lister is `none` if it is not set.
unfoldable pub clear_deviations :
    Env
    → Key
    → Bool
    → Option (List ClearConfig)
    → Option (Result (List (String × Config)))
    → M ClearAnswer
unfolding clear_configs
clear_deviations env target false spec lister h = (not_ready, h)
clear_deviations env target true none lister h = (no_spec, h)
clear_deviations env target true (some entries) none h = (no_lister, h)
clear_deviations env target true (some entries) (some (err e)) h = (lister_failed e, h)
clear_deviations env target true (some entries) (some (ok configs)) h =
    clear_configs env target entries configs h
