-- ===== src/Instantiation/Profiles.antt =====
-- apis/inv/v1alpha1/targetconnprofile_helpers.go and targetsyncprofile_helpers.go: what a profile means
-- for the connection to a target.
use config_server.Prelude.{
  Bool, Option, String, [], bytes_eq, false, if◌then◌else◌, map, nat_eq, none, some, string_eq,
  true, ◌==◌, ◌∷◌,
}
use config_server.Instantiation.{
  ConnectionProfile, Credentials, ProfileSync, ProtocolOptions, Sync, SyncConfig, SyncMode,
  SyncProfile, Tls, gnmi_options, netconf_options, no_options, sm_get, sm_on_change, sm_once,
  sm_sample,
}

-- The *bool fields: IsInsecure, SkipVerify, IncludeNS, OperationWithNS, UseOperationRemove.
unfoldable pub is_set : Option Bool → Bool
is_set none = false
is_set (some b) = b

-- TargetConnectionProfile.Encoding and TargetSyncProfileSync.GetEncoding.
unfoldable pub encoding_of : Option String → String
encoding_of none = "JSON_IETF"
encoding_of (some e) = e

-- TargetConnectionProfile.CommitCandidate.
unfoldable pub commit_candidate_of : Option String → String
commit_candidate_of none = "candidate"
commit_candidate_of (some c) = c

-- DefaultTargetConnectionProfile.
unfoldable pub default_connection_profile : ConnectionProfile
default_connection_profile = record {
  resource_version = "";
  protocol = "gnmi";
  port = 0;
  encoding = some "JSON_IETF";
  insecure = some false;
  skip_verify = some true;
  include_ns = none;
  operation_with_ns = none;
  use_operation_remove = none;
  commit_candidate = none;
  target_name = none;
}

-- DefaultTargetSyncProfile.
unfoldable pub default_sync_profile : SyncProfile
default_sync_profile = record {
  resource_version = "";
  sync =
      record {
        name = "config";
        protocol = "gnmi";
        port = 0;
        paths = "/" ∷ [];
        mode = "get";
        encoding = none;
        interval = 0;
      }
      ∷ [];
}

-- getEncoding.
unfoldable pub wire_encoding : String → String
wire_encoding e = if e == "CONFIG" then "45" else e

-- getSyncMode.
unfoldable pub get_sync_mode : String → SyncMode
get_sync_mode mode =
    if mode == "onChange"
    then sm_on_change
    else if mode == "sample"
    then sm_sample
    else if mode == "once"
    then sm_once
    else if mode == "get"
    then sm_get
    else sm_on_change

-- The body of the loop of GetSyncProfile.
unfoldable pub sync_config : String → Option Tls → Credentials → ProfileSync → SyncConfig
unfolding wire_encoding get_sync_mode encoding_of
sync_config address tls credentials s = record {
  name = s.name;
  type = s.protocol;
  address = address;
  port = s.port;
  tls = tls;
  credentials = credentials;
  options =
      if s.protocol == "gnmi"
      then gnmi_options (wire_encoding (encoding_of s.encoding)) ""
      else no_options;
  paths = s.paths;
  mode = get_sync_mode s.mode;
  interval = s.interval;
}

-- GetSyncProfile, for a target with the given address, TLS and credentials.
unfoldable pub get_sync_profile : String → Option Tls → Credentials → SyncProfile → Sync
unfolding sync_config
get_sync_profile address tls credentials profile = record {
  validate = false;
  buffer = 10000;
  write_workers = 10;
  config = map (sync_config address tls credentials) profile.sync;
}

-- The options of the connection in getCreateDataStoreRequest.
unfoldable pub protocol_options : ConnectionProfile → ProtocolOptions
unfolding encoding_of is_set commit_candidate_of
protocol_options profile =
    if profile.protocol == "gnmi"
    then gnmi_options (encoding_of profile.encoding)
        (elim profile.target_name [ none ↦ "" | some name ↦ name ])
    else if profile.protocol == "netconf"
    then netconf_options (is_set profile.include_ns) (is_set profile.operation_with_ns)
        (is_set profile.use_operation_remove)
        (commit_candidate_of profile.commit_candidate == "running")
    else no_options
