-- ===== src/ClearDeviation/Report/Laws.antt =====
-- What buildClearDeviationStatus of apis/config/target_helpers.go reports, entry by entry.
use config_server.Prelude.{
  All, Bool-cases, Bytes, List, Option, String, [], ap, arith, false, inl, inr, is_none, lookup,
  none, not, not_empty, refl, some, string_eq, sym, true, ◌++◌, ◌||◌, ◌∷◌, ◌≡◌, ◌≢◌,
}
use config_server.ClearDeviation.{ClearConfig, ClearResult}
use config_server.ClearDeviation.Report.{
  all_failed, build_clear_deviation_status, contains_name, inherited, intent_names, intent_results,
  message_of, name_of_intent,
}
use config_server.Config.{Config}
use config_server.Config.Deviation.{config_deviation, deviation_name}
use config_server.Errors.{Error}
use config_server.Transactor.{IntentResponse, SetResponse}
use config_server.Transactor.Deviations.Laws.{deviation_name-ne}

contains_name-append :
    (name : String) (xs ys : List ClearResult)
    → contains_name name (xs ++ ys) ≡ (contains_name name xs || contains_name name ys)
unfolding contains_name
contains_name-append name [] ys = refl
contains_name-append name (x ∷ xs) ys =
    let ih = contains_name-append name xs ys in ground (arith, ih)

contains_name_head :
    (r : ClearResult) (rs : List ClearResult) → contains_name r.name (r ∷ rs) ≡ true
unfolding contains_name
contains_name_head r rs = ground arith

contains_name_tail :
    (name : String) (r : ClearResult) (rs : List ClearResult)
    → contains_name name rs ≡ true
    → contains_name name (r ∷ rs) ≡ true
unfolding contains_name
contains_name_tail name r rs h = ground arith

abbrev Reported : List ClearResult → List ClearConfig → Type 0
Reported results cfgs = All (λ (c : ClearConfig). contains_name c.name results ≡ true) cfgs

append-Reported :
    (r : ClearResult) (before rs : List ClearResult) (cfgs : List ClearConfig)
    → Reported (before ++ rs) cfgs
    → Reported (before ++ (r ∷ rs)) cfgs
unfolding contains_name
append-Reported r before rs [] all = tt
append-Reported r before rs (c ∷ cfgs) (this, others) = (
  ground (
    arith,
    contains_name-append c.name before rs,
    contains_name-append c.name before (r ∷ rs),
    this,
  ),
  append-Reported r before rs cfgs others,
)

abbrev inherits : ClearConfig → Option Error → ClearResult
inherits c e = record { name = c.name; success = is_none e; errors = [] }

inherited_found :
    (c : ClearConfig) (cfgs : List ClearConfig) (responded : List ClearResult) (e : Option Error)
    → contains_name c.name responded ≡ true
    → inherited (c ∷ cfgs) responded e ≡ inherited cfgs responded e
unfolding inherited
inherited_found c cfgs responded e found = rw found refl

inherited_missing :
    (c : ClearConfig) (cfgs : List ClearConfig) (responded : List ClearResult) (e : Option Error)
    → contains_name c.name responded ≡ false
    → inherited (c ∷ cfgs) responded e ≡ inherits c e ∷ inherited cfgs responded e
unfolding inherited
inherited_missing c cfgs responded e missing = rw missing refl

subst-Reported :
    (xs ys before : List ClearResult) (cfgs : List ClearConfig)
    → xs ≡ ys
    → Reported (before ++ ys) cfgs
    → Reported (before ++ xs) cfgs
subst-Reported xs ys before cfgs same all = rw same all

inherited-Reported :
    (cfgs : List ClearConfig) (responded : List ClearResult) (e : Option Error)
    → Reported (responded ++ inherited cfgs responded e) cfgs
inherited-Reported [] responded e = tt
inherited-Reported (c ∷ cfgs) responded e =
    let rest = inherited cfgs responded e in
    let others = inherited-Reported cfgs responded e in
    let append = contains_name-append c.name responded in
    elim (Bool-cases (contains_name c.name responded)) [
      | inl found ↦
          subst-Reported (inherited (c ∷ cfgs) responded e) rest responded (c ∷ cfgs)
            (inherited_found c cfgs responded e found) (ground (arith, found, append rest), others)
      | inr missing ↦
          let r = inherits c e in
          subst-Reported (inherited (c ∷ cfgs) responded e) (r ∷ rest) responded (c ∷ cfgs)
            (inherited_missing c cfgs responded e missing)
            (
              ground (arith, append (r ∷ rest), contains_name_head r rest),
              append-Reported r responded rest cfgs others,
            )
    ]

all_failed-Reported :
    (cfgs : List ClearConfig) (message : Bytes) → Reported (all_failed cfgs message) cfgs
unfolding all_failed
all_failed-Reported [] message = tt
all_failed-Reported (c ∷ cfgs) message =
    let r : ClearResult = record { name = c.name; success = false; errors = message ∷ [] } in
    (
      contains_name_head r (all_failed cfgs message),
      append-Reported r [] (all_failed cfgs message) cfgs (all_failed-Reported cfgs message),
    )

-- Every entry of the request has a result under its name in the status that is built, with and
-- without a reply, with and without an error.
pub build_clear_deviation_status-Reported :
    (cfgs : List ClearConfig) (configs : List (String × Config)) (reply : Option SetResponse)
    (e : Option Error)
    → let results = (build_clear_deviation_status cfgs configs reply e).results in
      All (λ (c : ClearConfig). contains_name c.name results ≡ true) cfgs
unfolding build_clear_deviation_status
build_clear_deviation_status-Reported cfgs configs none e = all_failed-Reported cfgs (message_of e)
build_clear_deviation_status-Reported cfgs configs (some rsp) e =
    inherited-Reported cfgs (intent_results (intent_names configs) rsp.intents) e

abbrev result_of : String → IntentResponse → ClearResult
result_of name intent = record {
  name = name;
  success = not (not_empty intent.errors);
  errors = intent.errors;
}

name_of_intent_known :
    (names : List (String × String)) (key resource : String)
    → lookup key names ≡ some resource
    → name_of_intent names key ≡ resource
unfolding name_of_intent
name_of_intent_known names key resource known = rw (known, name_of_intent) refl

intent_results_known :
    (names : List (String × String)) (key resource : String) (intent : IntentResponse)
    → lookup key names ≡ some resource
    → intent_results names ((key, intent) ∷ []) ≡ result_of resource intent ∷ []
unfolding intent_results
intent_results_known names key resource intent known =
    ap (λ (name : String). result_of name intent ∷ [])
      (name_of_intent_known names key resource known)

contains_name_other :
    (name : String) (r : ClearResult) → r.name ≢ name → contains_name name (r ∷ []) ≡ false
unfolding contains_name
contains_name_other name r other = ground (arith, other)

inherited_other :
    (entry : ClearConfig) (r : ClearResult) (results : List ClearResult)
    → results ≡ r ∷ []
    → r.name ≢ entry.name
    → results ++ inherited (entry ∷ []) results none ≡ r ∷ inherits entry none ∷ []
unfolding inherited
inherited_other entry r results one other = rw (one, contains_name_other entry.name r other) refl

-- When an entry names its config by the name of the Deviation, and the transaction succeeds with a
-- reply for the intent of that config, the intent's errors are reported under the config's name, and
-- the entry itself is reported as a success without errors, whatever the errors of the intent.
pub build_clear_deviation_status_by_deviation :
    (resource key : String) (paths : List String) (configs : List (String × Config))
    (intent : IntentResponse) (reply : SetResponse)
    → lookup key (intent_names configs) ≡ some resource
    → reply.intents ≡ (key, intent) ∷ []
    → let name = deviation_name config_deviation resource in
      let entry : ClearConfig = record { name = name; paths = paths } in
      (build_clear_deviation_status (entry ∷ []) configs (some reply) none).results ≡ (
        record { name = resource; success = not (not_empty intent.errors); errors = intent.errors }
        ∷ record { name = name; success = true; errors = [] }
        ∷ [])
unfolding build_clear_deviation_status
build_clear_deviation_status_by_deviation resource key paths configs intent reply known only =
    let name = deviation_name config_deviation resource in
    inherited_other (record { name = name; paths = paths }) (result_of resource intent)
      (intent_results (intent_names configs) reply.intents)
      (rw only (intent_results_known (intent_names configs) key resource intent known))
      (λ same. deviation_name-ne resource (sym same))
