-- ===== src/Tests/Instantiations.antt =====
-- Examples for the properties of Instantiation.
use config_server.Prelude.{
  [], bytes_discrete, bytes_eq, false, lookup, nat_eq, none, refl, some, string_discrete, string_eq,
  true, ℕ_discrete, ◌<>◌, ◌==◌, ◌∷◌, ◌≡◌, ◌≤◌, ◌⊎◌,
}
use config_server.Condition.{Condition, condition_true, condition_type_ready, reason_ready}
use config_server.Errors.{ok}
use config_server.Instantiation.{
  Managed, SchemaResource, Server, Target, Targets, key_discrete, key_eq,
}
use config_server.Instantiation.Manager.{apply_desired, new_managed, set_retry_token}
use config_server.Instantiation.Manager.Laws.{apply_desired_current}
use config_server.Instantiation.Reconcile.{reconcile, reconcile_delete}
use config_server.Instantiation.Reconcile.Finalize.{Kept, removals}
use config_server.Instantiation.Reconcile.Finalize.Order.{Finalized, reconcile_delete_order}
use config_server.Instantiation.Reconcile.Stages.{readies}
use config_server.Instantiation.Reconcile.Stages.Whole.{Passed, reconcile_ready}
use config_server.Runtime.{new_target_runtime}
use config_server.Tests.{a_request, a_runtime, a_target}
use config_server.Transactor.{Key}

abbrev pub discovered_condition : Condition
discovered_condition = record {
  type = "TargetDiscoveryReady";
  status = condition_true;
  observed_generation = 0;
  last_transition_time = 50;
  reason = reason_ready;
  message = [];
}

abbrev pub live_target : Target
live_target = record {
  name = "dev1";
  namespace = "default";
  deleting = false;
  finalizers = "targetdatastore.inv.sdcio.dev/finalizer" ∷ [];
  recovery_retry = "";
  address = "10.0.0.1";
  credentials = "admin";
  tls_secret = none;
  connection_profile = "gnmi";
  sync_profile = some "sync";
  conditions = discovered_condition ∷ [];
  discovery_info = some (record { provider = "srl"; version = "24.3" });
  used_references = none;
}

abbrev deleted_target : Target
deleted_target = record live_target { deleting = true }

abbrev a_schema : SchemaResource
a_schema = record {
  provider = "srl";
  version = "24.3";
  conditions = record discovered_condition { type = condition_type_ready } ∷ [];
}

-- Everything is granted; the profiles are the default ones.
abbrev a_server : Server
a_server = record {
  now = λ t. 1000;
  key_string = λ k. k.namespace <> "/" <> k.name;
  quote = λ b. b;
  show_discovery = λ info. [];
  marshal_details = λ details. [];
  protojson = λ req. [];
  sha_hex = λ b. "h1";
  read_target = λ t k. ok (some live_target);
  patch_conditions = λ t k cs. none;
  add_finalizer = λ t k. none;
  remove_finalizer = λ t k. none;
  list_schemas = λ t ns. ok (a_schema ∷ []);
  read_sync_profile = λ t k. ok none;
  read_connection_profile = λ t k. ok none;
  read_secret = λ t k. ok (record { resource_version = "7"; data_of = λ field. field });
  apply_ready_status = λ t a. none;
  remove_deviation = λ t k. none;
  exits = λ t k. true;
  has_client = λ t. true;
  remove_datastore = λ t n. none;
}

abbrev running_targets : Targets
running_targets = (a_target, record { runtime = a_runtime; started = true; stopping = false }) ∷ []

reconcile_ready_example :
    (readies (reconcile a_server a_target (running_targets, [])).1.1 ≡ 0)
    ⊎ ((target : Target) × (ok (some live_target) ≡ ok (some target))
        × Passed a_server a_target target running_targets)
unfolding readies
reconcile_ready_example = reconcile_ready a_server a_target running_targets []

-- The target of the example becomes Ready.
becomes_ready : readies (reconcile a_server a_target (running_targets, [])).1.1 ≡ 1
unfolding readies reconcile ℕ_discrete string_discrete bytes_discrete key_discrete
becomes_ready = refl

reconcile_delete_order_example :
    let result = reconcile_delete a_server a_target deleted_target (running_targets, []) in
    Kept [] result
    ⊎ ((1 ≤ 1) × Finalized a_server a_target deleted_target (running_targets, []) result.1)
reconcile_delete_order_example =
    reconcile_delete_order a_server a_target deleted_target running_targets []

-- The finalizer of the example is taken off.
finalizes :
    removals (reconcile_delete a_server a_target deleted_target (running_targets, [])).1.1 ≡ 1
unfolding removals reconcile_delete key_discrete string_discrete
finalizes = refl

-- Another target, with a runtime that was not started.
abbrev other_target : Key
other_target = record { namespace = "default"; name = "dev2" }

abbrev one_target : Targets
one_target = (other_target, new_managed) ∷ []

apply_desired_current_example :
    let after =
      apply_desired a_target a_request "h1" (set_retry_token a_target "again" one_target) in
    ((managed : Managed) × (lookup a_target after ≡ some managed)
      × (managed.started ≡ true)
      × (managed.stopping ≡ false)
      × (managed.runtime ≡ record new_target_runtime {
        desired = some a_request;
        desired_hash = "h1";
        recovery_token = "again";
        woken = true;
      }))
    × (((a_target == other_target) ≡ true)
        ⊎ (lookup other_target after ≡ lookup other_target one_target))
unfolding lookup new_managed key_discrete string_discrete
apply_desired_current_example =
    apply_desired_current a_target other_target a_request "h1" "again" one_target
