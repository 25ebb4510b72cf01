-- ===== src/Runtime.antt =====
-- TargetRuntime of pkg/sdc/target/manager/runtime.go: its state and the methods that set a part of it.
pub mod Datastore
pub mod Reconcile
pub mod Loop
pub mod Laws
pub mod Once
pub mod Latch
pub mod Progress
use config_server.Prelude.{
  Bool, Bytes, Eq, Option, String, [], bool_discrete, bytes_eq, false, if◌then◌else◌, nat_eq, none,
  some, string_discrete, string_eq, true, ℕ, ℕ_discrete, ◌&&◌, ◌+◌, ◌<>◌, ◌==◌,
}
use config_server.Config.{Schema}
use config_server.Errors.{Error, error_text}
use config_server.Transactor.{Address, DatastoreRequest}

pub data TargetPhase : Type 0 where
  pending waiting_for_ds ensuring_datastore recovering recovery_failed running : TargetPhase
  degraded deleting_target : TargetPhase

pub record RuntimeStatus : Type 0 where
  pub phase : TargetPhase
  pub ds_ready : Bool
  pub ds_store_ready : Bool
  pub running_hash : String
  pub recovered : Bool
  pub recovery_msg : Bytes
  pub last_error : Bytes

unfoldable pub phase_discrete : Discrete TargetPhase
phase_discrete = hlevel

instance abbrev pub phase_eq : Eq TargetPhase
phase_eq = record { dec = phase_discrete }

unfoldable pub status_discrete : Discrete RuntimeStatus
status_discrete = hlevel (phase_discrete, bool_discrete, string_discrete, ℕ_discrete)

instance abbrev pub status_eq : Eq RuntimeStatus
status_eq = record { dec = status_discrete }

unfoldable pub address_discrete : Discrete Address
address_discrete = hlevel (string_discrete, ℕ_discrete)

instance abbrev pub address_eq : Eq Address
address_eq = record { dec = address_discrete }

-- A collector is not there, is there and stopped, or runs against an address.
pub data CollectorState : Type 0 where
  no_collector collector_stopped : CollectorState
  collector_running : Address → CollectorState

pub record Runtime : Type 0 where
  pub desired : Option DatastoreRequest
  pub desired_hash : String
  pub recovery_token : String
  pub running_hash : String
  pub phase : TargetPhase
  pub last_error : Option Error
  pub ds_ready : Bool
  pub datastore_ready : Bool
  pub recovered : Bool
  pub recovery_msg : Bytes
  pub recovery_err : Option Error
  pub recovery_failed_key : String
  pub recovery_failed_err : Option Error
  -- lastNotified and lastNotifiedValid, and how often onChange was called
  pub last_notified : Option RuntimeStatus
  pub changes : ℕ
  -- what HasActivePaths and Port of the subscriptions answer
  pub has_active_paths : Bool
  pub subscription_port : ℕ
  -- whether there is a DeviationWatcher
  pub watcher : Bool
  pub collector : CollectorState
  -- whether wakeCh holds its one element, and whether the loop has ended
  pub woken : Bool
  pub stopped : Bool

-- NewTargetRuntime.
unfoldable pub new_target_runtime : Runtime
new_target_runtime = record {
  desired = none;
  desired_hash = "";
  recovery_token = "";
  running_hash = "";
  phase = pending;
  last_error = none;
  ds_ready = false;
  datastore_ready = false;
  recovered = false;
  recovery_msg = [];
  recovery_err = none;
  recovery_failed_key = "";
  recovery_failed_err = none;
  last_notified = none;
  changes = 0;
  has_active_paths = false;
  subscription_port = 0;
  watcher = false;
  collector = no_collector;
  woken = false;
  stopped = false;
}

unfoldable pub error_bytes : Option Error → Bytes
unfolding error_text
error_bytes none = []
error_bytes (some e) = error_text e

unfoldable pub status : Runtime → RuntimeStatus
unfolding error_bytes
status rt = record {
  phase = rt.phase;
  ds_ready = rt.ds_ready;
  ds_store_ready = rt.datastore_ready;
  running_hash = rt.running_hash;
  recovered = rt.recovered;
  recovery_msg = rt.recovery_msg;
  last_error = error_bytes rt.last_error;
}

unfoldable pub wake : Runtime → Runtime
wake rt = record rt { woken = true }

unfoldable pub set_desired : Option DatastoreRequest → String → Runtime → Runtime
unfolding wake
set_desired req hash rt = wake (record rt { desired = req; desired_hash = hash })

unfoldable pub set_recovery_retry_token : String → Runtime → Runtime
unfolding wake
set_recovery_retry_token token rt =
    let updated = record rt { recovery_token = token } in
    if rt.recovery_token == token then updated else wake updated

unfoldable pub get_schema : Runtime → Schema
get_schema rt =
    let empty : Schema = record { type = ""; vendor = ""; version = "" } in
    elim rt.desired [
      | none ↦ empty
      | some req ↦ elim req.schema [ none ↦ empty | some schema ↦ schema ]
    ]

unfoldable pub set_running_hash : String → Runtime → Runtime
set_running_hash hash rt = record rt { running_hash = hash }

unfoldable pub set_datastore_ready : Bool → Runtime → Runtime
set_datastore_ready ready rt = record rt {
  datastore_ready = ready;
  recovered = ready && rt.recovered;
}

unfoldable pub set_ds_ready : Bool → Option Error → Runtime → Runtime
set_ds_ready true e rt = record rt { ds_ready = true; last_error = none }
set_ds_ready false e rt = record rt {
  ds_ready = false;
  recovered = false;
  last_error = elim e [ none ↦ rt.last_error | some x ↦ some x ];
}

unfoldable pub set_phase : TargetPhase → Option Error → Runtime → Runtime
set_phase phase e rt = record rt { phase = phase; last_error = e }

unfoldable pub set_recovered : Bool → Runtime → Runtime
set_recovered true rt = record rt { recovered = true }
set_recovered false rt = record rt { recovered = false; recovery_msg = []; recovery_err = none }

unfoldable pub set_recovery_result : Bytes → Option Error → Runtime → Runtime
set_recovery_result msg none rt = record rt {
  recovered = true;
  recovery_msg = msg;
  recovery_err = none;
  recovery_failed_key = "";
  recovery_failed_err = none;
}
set_recovery_result msg (some e) rt = record rt {
  recovered = false;
  recovery_msg = msg;
  recovery_err = some e;
}

unfoldable pub recovery_key : Runtime → String
recovery_key rt = rt.desired_hash <> "|" <> rt.recovery_token

unfoldable pub latch_recovery_failure : Error → Runtime → Runtime
unfolding recovery_key
latch_recovery_failure e rt = record rt {
  recovery_failed_key = recovery_key rt;
  recovery_failed_err = some e;
}

unfoldable pub recovery_latched : Runtime → Option Error
unfolding recovery_key
recovery_latched rt = elim rt.recovery_failed_err [
  | none ↦ none
  | some e ↦ if rt.recovery_failed_key == recovery_key rt then some e else none
]

-- stopRuntime: the watcher and the collector.
unfoldable pub stop_runtime : Runtime → Runtime
stop_runtime rt = record rt { watcher = false; collector = no_collector }

unfoldable pub notify_if_changed : Runtime → Runtime
unfolding status
notify_if_changed rt =
    let st = status rt in
    let notified = record rt { last_notified = some st; changes = rt.changes + 1 } in
    elim rt.last_notified [ none ↦ notified | some old ↦ if old == st then rt else notified ]
