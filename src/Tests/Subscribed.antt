-- ===== src/Tests/Subscribed.antt =====
-- Examples for the properties of Subscriptions.
use config_server.Prelude.{
  List, String, [], arith, delete, false, insert, is_none, lookup, lookup-delete, lookup-insert,
  none, not, refl, some, string_discrete, string_eq, true, ℕ_discrete, ◌∷◌, ◌≡◌, ◌⊎◌,
}
use config_server.Subscriptions.{PathSubscriptions, Subscription, keys, recompute_current}
use config_server.Subscriptions.Entries.{entry}
use config_server.Subscriptions.Laws.{AtMost, occurs}
use config_server.Subscriptions.Refine.Coherence.{run_current}
use config_server.Subscriptions.Refine.Run.{
  Operation, adds_cr, deletes_cr, run, run_refines, view_after,
}
use config_server.Subscriptions.Update.{
  Parameters, PathStore, SubscriptionResource, Subscriptions, add_subscription, del_subscription,
}

abbrev fast_subscription : Subscription
fast_subscription = record {
  nsn = "default/cr1";
  name = "fast";
  description = none;
  labels = [];
  enabled = true;
  interval = 5;
  encoding = "json";
}

abbrev slow_subscription : Subscription
slow_subscription = record fast_subscription { name = "slow"; interval = 30 }

visits_keys :
    (path : String) (s : List (String × PathSubscriptions))
    → occurs path (keys s) ≡ not (is_none (lookup path s))
unfolding keys lookup
visits_keys path [] = refl
visits_keys path ((p, ps) ∷ s) = ground (arith, visits_keys path s)

-- A store that is an association list.
abbrev list_store : PathStore (List (String × PathSubscriptions))
list_store = record {
  get = lookup;
  put = insert;
  remove = delete;
  visited = keys;
  get-put = λ path wanted ps s. lookup-insert path wanted ps s;
  get-remove = λ path wanted s. lookup-delete path wanted s;
  visits = visits_keys;
}

abbrev fast_parameters : Parameters
fast_parameters = record {
  name = "fast";
  description = none;
  labels = [];
  admin_state = some "enabled";
  mode = "sample";
  interval = some 5;
  paths = "/interfaces" ∷ [];
}

abbrev a_resource : SubscriptionResource
a_resource = record {
  nsn = "default/cr1";
  port = 57400;
  encoding = some "json";
  subscriptions =
      record fast_parameters { name = "slow"; interval = some 30 } ∷ fast_parameters ∷ [];
}

abbrev other_resource : SubscriptionResource
other_resource = record a_resource { nsn = "default/cr2"; subscriptions = fast_parameters ∷ [] }

abbrev two_crs : List Operation
two_crs = adds_cr a_resource ∷ adds_cr other_resource ∷ deletes_cr other_resource ∷ []

run_refines_example :
    entry list_store (run list_store two_crs (record { paths = []; ports = [] })).paths
    ≡ view_after two_crs (entry list_store [])
run_refines_example = run_refines list_store two_crs (record { paths = []; ports = [] })

abbrev after_two : Subscriptions (List (String × PathSubscriptions))
after_two = run list_store two_crs (record { paths = []; ports = [] })

abbrev left_path : PathSubscriptions
left_path = record {
  current = some fast_subscription;
  all_subscriptions =
      ("default/cr1.slow", slow_subscription) ∷ ("default/cr1.fast", fast_subscription) ∷ [];
}

is_left : lookup "/interfaces" after_two.paths ≡ some left_path
unfolding run add_subscription del_subscription lookup insert delete string_discrete ℕ_discrete
is_left = refl

run_current_example :
    (true ≡ true)
    × (left_path.current ≡ (recompute_current left_path).current)
    × ((lookup "default/cr1.slow" left_path.all_subscriptions ≡ none)
        ⊎ ((sub : Subscription) × (lookup "default/cr1.slow" left_path.all_subscriptions ≡ some sub)
            × ((sub.enabled ≡ false) ⊎ AtMost sub.interval left_path.current)))
unfolding lookup
run_current_example =
    run_current list_store [] two_crs "/interfaces" "default/cr1.slow" left_path (λ path. refl)
      is_left
