-- ===== src/ClearDeviation/Report.antt =====
-- buildClearDeviationStatus of apis/config/target_helpers.go: what is reported for each entry. The
-- reply's intents are a Go map, ranged over in the order of the list.
pub mod Laws
use config_server.Prelude.{
  Bool, Bytes, List, Option, String, [], bytes_eq, false, if◌then◌else◌, insert, is_none, lookup,
  nat_eq, none, not, not_empty, some, string_eq, ◌++◌, ◌==◌, ◌||◌, ◌∷◌,
}
use config_server.ClearDeviation.{ClearConfig, ClearResult, ClearStatus}
use config_server.Config.{Config, get_gvknsn}
use config_server.Errors.{Error, error_text}
use config_server.Transactor.{IntentResponse, SetResponse}

-- intentToName: the loop, on what it has so far.
unfoldable pub add_names : List (String × Config) → List (String × String) → List (String × String)
unfolding insert
add_names [] names = names
add_names ((name, cfg) ∷ configs) names = add_names configs (insert (get_gvknsn cfg) name names)

unfoldable pub intent_names : List (String × Config) → List (String × String)
unfolding add_names
intent_names configs = add_names configs []

unfoldable pub name_of_intent : List (String × String) → String → String
unfolding lookup
name_of_intent names key = elim (lookup key names) [ some name ↦ name | none ↦ key ]

unfoldable pub contains_name : String → List ClearResult → Bool
contains_name name [] = false
contains_name name (r ∷ rs) = r.name == name || contains_name name rs

-- The loop over the intents of the reply. `responded` holds the names of these results.
unfoldable pub intent_results :
    List (String × String) → List (String × IntentResponse) → List ClearResult
unfolding name_of_intent
intent_results names [] = []
intent_results names ((key, intent) ∷ is) =
    record {
      name = name_of_intent names key;
      success = not (not_empty intent.errors);
      errors = intent.errors;
    }
    ∷ intent_results names is

-- The last loop: what was not reported inherits the outcome of the transaction.
unfoldable pub inherited : List ClearConfig → List ClearResult → Option Error → List ClearResult
unfolding contains_name
inherited [] responded e = []
inherited (cfg ∷ cfgs) responded e =
    let rest = inherited cfgs responded e in
    if contains_name cfg.name responded
    then rest
    else record { name = cfg.name; success = is_none e; errors = [] } ∷ rest

unfoldable pub all_failed : List ClearConfig → Bytes → List ClearResult
all_failed [] message = []
all_failed (cfg ∷ cfgs) message =
    record { name = cfg.name; success = false; errors = message ∷ [] } ∷ all_failed cfgs message

unfoldable pub message_of : Option Error → Bytes
unfolding error_text
message_of none = []
message_of (some e) = error_text e

unfoldable pub build_clear_deviation_status :
    List ClearConfig → List (String × Config) → Option SetResponse → Option Error → ClearStatus
unfolding intent_names intent_results inherited all_failed message_of
build_clear_deviation_status cfgs configs none e = record {
  message = message_of e;
  warnings = [];
  results = all_failed cfgs (message_of e);
}
build_clear_deviation_status cfgs configs (some rsp) e =
    let responded = intent_results (intent_names configs) rsp.intents in
    record {
      message = message_of e;
      warnings = rsp.warnings;
      results = responded ++ inherited cfgs responded e;
    }
