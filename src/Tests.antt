-- ===== src/Tests.antt =====
-- Concrete inputs for the properties of the library; the modules below apply each property to one.
pub mod Runtimes
pub mod Transactions
pub mod Statuses
pub mod Conditions
pub mod Subscribed
pub mod Clearing
pub mod Instantiations
pub mod TargetConfigs
pub mod DryRuns
use config_server.Prelude.{[], false, none, some, string_eq, true, utf8, ◌<>◌, ◌∷◌}
use config_server.Condition.{Condition, condition_true, reason_ready}
use config_server.Config.{Config, ConfigSpec, ConfigStatus, condition_type_config_ready}
use config_server.Errors.{ok}
use config_server.Runtime.{Runtime, no_collector, running, status}
use config_server.Runtime.Datastore.{create_datastore}
use config_server.Runtime.Loop.{get_datastore}
use config_server.Transactor.{DatastoreRequest, Env, Handle, Key, SetResponse}
use config_server.Transactor.Deviations.{create_deviation, delete_deviation}
use config_server.Transactor.Response.{transaction_set}
use config_server.Transactor.Status.{apply_status, get_config}

abbrev pub a_spec : ConfigSpec
a_spec = record {
  lifecycle = none;
  priority = 10;
  revertive = some true;
  config = record { path = "/interfaces"; value = 1 ∷ [] } ∷ [];
}

abbrev pub old_condition : Condition
old_condition = record {
  type = condition_type_config_ready;
  status = condition_true;
  observed_generation = 3;
  last_transition_time = 100;
  reason = reason_ready;
  message = [];
}

abbrev pub a_status : ConfigStatus
a_status = record {
  conditions = old_condition ∷ [];
  last_known_good_schema = none;
  applied_config = some a_spec;
  deviation_generation = none;
}

abbrev pub a_config : Config
a_config = record {
  name = "intent1";
  namespace = "default";
  uid = "u1";
  labels = [];
  generation = 4;
  deletion_timestamp = none;
  finalizers = [];
  spec = a_spec;
  status = a_status;
}

-- Not applied yet.
abbrev pub new_config : Config
new_config = record a_config {
  name = "intent2";
  status = record {
    conditions = [];
    last_known_good_schema = none;
    applied_config = none;
    deviation_generation = none;
  };
}

abbrev pub an_intent_reply : SetResponse
an_intent_reply = record {
  warnings = [];
  intents = ("default.intent2", record { errors = []; warnings = [] }) ∷ [];
}

-- Everything is granted; there are two configs.
abbrev pub an_env : Env
an_env = record {
  now = λ h. 1000;
  new_uuid = λ h. "uuid";
  revertive = none;
  sha_sum = λ spec. spec.priority ∷ [];
  parse_path = λ p. ok (utf8 p);
  key_string = λ k. k.namespace <> "/" <> k.name;
  quote = λ b. b;
  range_configs = λ m. m;
  get_config = λ h k. ok a_config;
  list_configs = λ h k. ok (a_config ∷ new_config ∷ []);
  patch_finalizers = λ h c fs. ok c;
  apply_status = λ h k s. none;
  get_deviation = λ h k. none;
  create_deviation = λ h k. none;
  delete_deviation = λ h k. none;
  transaction_set = λ h req. (some an_intent_reply, none);
  transaction_confirm = λ h ds id. none;
  has_client = λ h. true;
  get_target = λ h k. none;
  get_datastore = λ h n. none;
  create_datastore = λ h req. none;
  delete_datastore = λ h n. none;
  dial_dataserver = λ h. none;
  cancelled = λ h ms. false;
  dial = λ h a. none;
}

abbrev pub a_target : Key
a_target = record { namespace = "default"; name = "dev1" }

abbrev pub a_handle : Handle
a_handle = record { datastore_name = "default/dev1"; schema = none }

abbrev pub a_request : DatastoreRequest
a_request = record { schema = none; target = none; rest = [] }

-- A runtime whose target is desired, and whose dataserver is ready.
abbrev pub a_runtime : Runtime
a_runtime = record {
  desired = some a_request;
  desired_hash = "h1";
  recovery_token = "";
  running_hash = "h1";
  phase = running;
  last_error = none;
  ds_ready = true;
  datastore_ready = true;
  recovered = true;
  recovery_msg = [];
  recovery_err = none;
  recovery_failed_key = "";
  recovery_failed_err = none;
  last_notified = none;
  changes = 0;
  has_active_paths = true;
  subscription_port = 0;
  watcher = true;
  collector = no_collector;
  woken = false;
  stopped = false;
}

-- No config was applied to the target.
abbrev pub empty_env : Env
empty_env = record an_env { list_configs = λ h k. ok [] }
