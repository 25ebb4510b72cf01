-- ===== src/Tests/Clearing.antt =====
-- Examples for the properties of ClearDeviation.
use config_server.Prelude.{
  All, List, String, [], arith, false, if◌then◌else◌, lookup, none, not_empty, refl, some,
  string_discrete, string_eq, suc, true, utf8, ℕ, ℕ_discrete, ◌+◌, ◌<◌, ◌∷◌, ◌≡◌, ◌≢◌, ◌≤◌, ◌⊎◌,
}
use config_server.ClearDeviation.{ClearConfig, check_entries, clear_request}
use config_server.ClearDeviation.Laws.{Clears, clear_deviations_atomic}
use config_server.ClearDeviation.Report.{build_clear_deviation_status, contains_name, intent_names}
use config_server.ClearDeviation.Report.Laws.{
  build_clear_deviation_status-Reported, build_clear_deviation_status_by_deviation,
}
use config_server.ClearDeviation.Request.{clear_configs, clear_deviations}
use config_server.ClearDeviation.Retry.{execute_clear_deviation_tx, execute_once}
use config_server.ClearDeviation.Retry.Bounds.{
  Ends, doubled, execute_clear_deviation_tx_lem, pauses, sets,
}
use config_server.Config.{Config, get_gvknsn}
use config_server.Config.Deviation.{config_deviation, deviation_name}
use config_server.Errors.{external, ok, unavailable}
use config_server.Tests.{a_config, a_spec, a_target, an_env, an_intent_reply}
use config_server.Transactor.{Env, IntentResponse, SetRequest, SetResponse}
use config_server.Transactor.Intents.Laws.{Match}

-- Not revertive, so its deviations can be cleared.
abbrev kept_config : Config
kept_config = record a_config { spec = record a_spec { revertive = some false } }

abbrev by_name : ClearConfig
by_name = record { name = "intent1"; paths = "/interfaces" ∷ [] }

abbrev configs_of_target : List (String × Config)
configs_of_target = ("intent1", kept_config) ∷ []

-- The first try finds the dataserver unavailable, the second one is answered.
abbrev flaky_env : Env
flaky_env = record an_env {
  dial_dataserver = λ h.
      if not_empty h then none else some (external (utf8 "no dataserver") (some unavailable) false);
}

abbrev a_set_request : SetRequest
a_set_request = clear_request flaky_env a_target "uuid" []

clear_deviations_atomic_example :
    let after =
      (clear_deviations an_env a_target true
        (some (by_name ∷ []))
        (some (ok configs_of_target))
        []).1 in
    (after ≡ [])
    ⊎ ((entries : List ClearConfig) × (configs : List (String × Config)) × (req : SetRequest)
        × (some (by_name ∷ []) ≡ some entries)
        × (some (ok configs_of_target) ≡ some (ok configs))
        × (req.datastore_name ≡ "default/dev1")
        × (req.dry_run ≡ false)
        × Match (Clears an_env "dev1" configs) entries req.intents
        × (after ≡ (execute_clear_deviation_tx an_env req []).1))
clear_deviations_atomic_example =
    clear_deviations_atomic an_env a_target true (some (by_name ∷ [])) (some (ok configs_of_target))
      []

-- The request of the example is sent.
sends_one :
    (clear_deviations an_env a_target true (some (by_name ∷ [])) (some (ok configs_of_target)) []).1
    ≢ []
unfolding clear_deviations clear_configs check_entries
sends_one = ground arith

-- The second try follows a pause of 200 milliseconds.
retries_once : pauses (execute_clear_deviation_tx flaky_env a_set_request []).1 ≡ 200 ∷ []
unfolding execute_clear_deviation_tx pauses ℕ_discrete
retries_once = refl

execute_clear_deviation_tx_lem_example :
    let result = execute_clear_deviation_tx flaky_env a_set_request [] in
    (k : ℕ) × (k < 4)
    × (pauses result.1 ≡ doubled k 200 (pauses []))
    × (sets result.1 ≤ suc k + sets [])
    × Ends flaky_env (execute_once flaky_env a_set_request) k 4 200 [] result
execute_clear_deviation_tx_lem_example = execute_clear_deviation_tx_lem flaky_env a_set_request []

build_clear_deviation_status-Reported_example :
    let reported =
      build_clear_deviation_status (by_name ∷ []) configs_of_target (some an_intent_reply) none in
    All (λ (c : ClearConfig). contains_name c.name reported.results ≡ true) (by_name ∷ [])
build_clear_deviation_status-Reported_example =
    build_clear_deviation_status-Reported (by_name ∷ []) configs_of_target (some an_intent_reply)
      none

abbrev failed_intent : IntentResponse
failed_intent = record { errors = utf8 "no such path" ∷ []; warnings = [] }

abbrev failed_reply : SetResponse
failed_reply = record { warnings = []; intents = ("default.intent1", failed_intent) ∷ [] }

known_intent : lookup "default.intent1" (intent_names configs_of_target) ≡ some "intent1"
unfolding intent_names lookup get_gvknsn string_discrete
known_intent = refl

build_clear_deviation_status_by_deviation_example :
    let name = deviation_name config_deviation "intent1" in
    let entry : ClearConfig = record { name = name; paths = [] } in
    (build_clear_deviation_status (entry ∷ []) configs_of_target (some failed_reply) none).results
    ≡ (record { name = "intent1"; success = false; errors = utf8 "no such path" ∷ [] }
        ∷ record { name = name; success = true; errors = [] }
        ∷ [])
build_clear_deviation_status_by_deviation_example =
    build_clear_deviation_status_by_deviation "intent1" "default.intent1" [] configs_of_target
      failed_intent failed_reply known_intent refl
