-- ===== src/Instantiation.antt =====
-- The instantiation of a target: pkg/reconcilers/targetdatastore/reconciler.go with the TargetManager of
-- pkg/sdc/target/manager/manager.go. Kubernetes, the dataserver, the clock, SHA-256 and the wire forms
-- are not part of the program: they answer through `Server`, from the steps made so far, newest first.
pub mod Manager
pub mod Profiles
pub mod Request
pub mod Ready
pub mod Reconcile
use config_server.Prelude.{Bool, Bytes, Eq, List, Option, String, string_discrete, ℕ}
use config_server.Condition.{Condition}
use config_server.Errors.{Error, Result}
use config_server.Runtime.{Runtime}
use config_server.Transactor.{DatastoreRequest, Key}

-- A TargetRuntime with its startOnce and stopOnce. `done` is closed when the loop has stopped.
pub record Managed : Type 0 where
  pub runtime : Runtime
  pub started : Bool
  pub stopping : Bool

unfoldable pub key_discrete : Discrete Key
key_discrete = hlevel string_discrete

instance abbrev pub key_eq : Eq Key
key_eq = record { dec = key_discrete }

-- TargetManager.targets.
abbrev pub Targets : Type 0
Targets = List (Key × Managed)

pub record DiscoveryInfo : Type 0 where
  pub provider : String
  pub version : String

-- TargetStatusUsedReferences; "" is unset.
pub record UsedReferences : Type 0 where
  pub secret : String
  pub tls_secret : String
  pub connection_profile : String
  pub sync_profile : String

unfoldable pub used_references_discrete : Discrete (Option UsedReferences)
used_references_discrete = hlevel string_discrete

instance abbrev pub used_references_eq : Eq (Option UsedReferences)
used_references_eq = record { dec = used_references_discrete }

-- TargetStatusUsedReferencesApplyConfiguration; what is not set is `none`.
pub record UsedReferencesApply : Type 0 where
  pub secret : Option String
  pub tls_secret : Option String
  pub connection_profile : Option String
  pub sync_profile : Option String

pub record Target : Type 0 where
  pub name : String
  pub namespace : String
  pub deleting : Bool
  pub finalizers : List String
  -- the value of the recovery retry annotation, "" if there is none
  pub recovery_retry : String
  pub address : String
  pub credentials : String
  pub tls_secret : Option String
  pub connection_profile : String
  pub sync_profile : Option String
  pub conditions : List Condition
  pub discovery_info : Option DiscoveryInfo
  pub used_references : Option UsedReferences

pub record SchemaResource : Type 0 where
  pub provider : String
  pub version : String
  pub conditions : List Condition

-- TargetConnectionProfile, as far as a datastore depends on it.
pub record ConnectionProfile : Type 0 where
  pub resource_version : String
  pub protocol : String
  pub port : ℕ
  pub encoding : Option String
  pub insecure : Option Bool
  pub skip_verify : Option Bool
  pub include_ns : Option Bool
  pub operation_with_ns : Option Bool
  pub use_operation_remove : Option Bool
  pub commit_candidate : Option String
  pub target_name : Option String

-- TargetSyncProfileSync; the interval is the unsigned number of nanoseconds.
pub record ProfileSync : Type 0 where
  pub name : String
  pub protocol : String
  pub port : ℕ
  pub paths : List String
  pub mode : String
  pub encoding : Option String
  pub interval : ℕ

pub record SyncProfile : Type 0 where
  pub resource_version : String
  pub sync : List ProfileSync

pub record Secret : Type 0 where
  pub resource_version : String
  pub data_of : String → String

-- sdcpb.TLS, Credentials and the options of a protocol.
pub record Tls : Type 0 where
  pub skip_verify : Bool
  pub ca : String
  pub cert : String
  pub key : String

pub record Credentials : Type 0 where
  pub username : String
  pub password : String

pub data ProtocolOptions : Type 0 where
  no_options : ProtocolOptions
  gnmi_options : String → String → ProtocolOptions
  netconf_options : Bool → Bool → Bool → Bool → ProtocolOptions

-- sdcpb.SyncMode.
pub data SyncMode : Type 0 where
  sm_on_change sm_sample sm_once sm_get : SyncMode

-- sdcpb.SyncConfig, and the sdcpb.Target in it.
pub record SyncConfig : Type 0 where
  pub name : String
  pub type : String
  pub address : String
  pub port : ℕ
  pub tls : Option Tls
  pub credentials : Credentials
  pub options : ProtocolOptions
  pub paths : List String
  pub mode : SyncMode
  pub interval : ℕ

-- sdcpb.Sync.
pub record Sync : Type 0 where
  pub validate : Bool
  pub buffer : ℕ
  pub write_workers : ℕ
  pub config : List SyncConfig

-- What a CreateDataStoreRequest holds besides the schema, and the type, address and port of the target.
pub record Details : Type 0 where
  pub datastore_name : String
  pub credentials : Credentials
  pub tls : Option Tls
  pub options : ProtocolOptions
  pub sync : Sync

-- The apply configuration of applyReady.
pub record ReadyApply : Type 0 where
  pub name : String
  pub namespace : String
  pub condition : Condition
  pub used_references : Option UsedReferencesApply

pub data Step : Type 0 where
  reads_target : Key → Step
  patches_conditions : Key → List Condition → Step
  adds_finalizer : Key → Step
  removes_finalizer : Key → Step
  lists_schemas : String → Step
  reads_sync_profile : Key → Step
  reads_connection_profile : Key → Step
  reads_secret : Key → Step
  records_event : Bool → String → Bytes → Step
  applies_ready : ReadyApply → Step
  removes_deviation : Key → Step
  stops_runtime : Key → Step
  removes_datastore : String → Step

abbrev pub Trace : Type 0
Trace = List Step

pub record Server : Type 0 where
  pub now : Trace → ℕ
  pub key_string : Key → String
  -- %q and, of the discovery info, %v
  pub quote : Bytes → Bytes
  pub show_discovery : Option DiscoveryInfo → Bytes
  pub marshal_details : Details → Bytes
  -- protojson, and the hexadecimal SHA-256
  pub protojson : DatastoreRequest → Bytes
  pub sha_hex : Bytes → String
  -- `ok none` is NotFound
  pub read_target : Trace → Key → Result (Option Target)
  pub patch_conditions : Trace → Key → List Condition → Option Error
  pub add_finalizer : Trace → Key → Option Error
  pub remove_finalizer : Trace → Key → Option Error
  pub list_schemas : Trace → String → Result (List SchemaResource)
  pub read_sync_profile : Trace → Key → Result (Option SyncProfile)
  pub read_connection_profile : Trace → Key → Result (Option ConnectionProfile)
  pub read_secret : Trace → Key → Result Secret
  pub apply_ready_status : Trace → ReadyApply → Option Error
  pub remove_deviation : Trace → Key → Option Error
  -- whether a loop that runs exits before the timeout
  pub exits : Trace → Key → Bool
  pub has_client : Trace → Bool
  pub remove_datastore : Trace → String → Option Error

-- The manager's state and the steps made.
abbrev pub W : Type 0
W = Targets × Trace

-- What a part of the reconciler reads from the server.
abbrev pub Reads : Type 0 → Type 0
Reads A = Trace → Result A × Trace
