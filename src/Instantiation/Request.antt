-- ===== src/Instantiation/Request.antt =====
-- getCreateDataStoreRequest and isSchemaReady of pkg/reconcilers/targetdatastore/reconciler.go: what a
-- target refers to, read from the server.
use config_server.Prelude.{
  Bool, Bytes, List, Option, String, [], bytes_eq, false, if◌then◌else◌, nat_eq, none, not, some,
  string_eq, utf8, ◌&&◌, ◌++◌, ◌==◌, ◌||◌, ◌∷◌,
}
use config_server.Condition.{condition_type_ready, get_condition, is_true}
use config_server.Errors.{Result, err, ok, plain}
use config_server.Instantiation.{
  ConnectionProfile, Credentials, DiscoveryInfo, Reads, SchemaResource, Secret, Server, SyncProfile,
  Target, Tls, UsedReferences, lists_schemas, reads_connection_profile, reads_secret,
  reads_sync_profile,
}
use config_server.Instantiation.Profiles.{
  default_connection_profile, default_sync_profile, get_sync_profile, is_set, protocol_options,
}
use config_server.Transactor.{DatastoreRequest, Key}

infixl 5 ◌>>=◌
-- Go's `if err != nil { return err }`.
abbrev ◌>>=◌ : {A B : Type 0} → Reads A → (A → Reads B) → Reads B
◌>>=◌ m f t = let (r, t') = m t in elim r [ ok a ↦ f a t' | err e ↦ (err e, t') ]

abbrev return : {A : Type 0} → A → Reads A
return a t = (ok a, t)

unfoldable pub in_namespace : Target → String → Key
in_namespace target name = record { namespace = target.namespace; name = name }

unfoldable pub found_or : {A : Type 0} → A → Result (Option A) → Result A
found_or default (err e) = err e
found_or default (ok none) = ok default
found_or default (ok (some a)) = ok a

-- getSyncProfile.
unfoldable pub sync_profile_of : Server → Key → Reads SyncProfile
unfolding found_or default_sync_profile
sync_profile_of srv key t =
    (found_or default_sync_profile (srv.read_sync_profile t key), reads_sync_profile key ∷ t)

-- getConnProfile.
unfoldable pub connection_profile_of : Server → Key → Reads ConnectionProfile
unfolding found_or default_connection_profile
connection_profile_of srv key t = (
  found_or default_connection_profile (srv.read_connection_profile t key),
  reads_connection_profile key ∷ t,
)

unfoldable pub secret_of : Server → Key → Reads Secret
secret_of srv key t = (srv.read_secret t key, reads_secret key ∷ t)

-- The TLS part, and the version of the secret that it is from.
unfoldable pub tls_of : Server → Target → ConnectionProfile → Reads (Option Tls × String)
unfolding is_set secret_of in_namespace
tls_of srv target profile =
    if is_set profile.insecure then return (none, "") else elim target.tls_secret [
      | none ↦ return (
        some (record { skip_verify = is_set profile.skip_verify; ca = ""; cert = ""; key = "" }),
        "",
      )
      | some name ↦ do
        secret ← secret_of srv (in_namespace target name)
        return (
          some (record {
            skip_verify = is_set profile.skip_verify;
            ca = secret.data_of "ca";
            cert = secret.data_of "cert";
            key = secret.data_of "key";
          }),
          secret.resource_version,
        )
    ]

-- The discovery info, unless it is incomplete.
unfoldable pub complete : Option DiscoveryInfo → Option DiscoveryInfo
complete none = none
complete (some info) = if info.provider == "" || info.version == "" then none else some info

unfoldable pub datastore_request :
    Server
    → Target
    → ConnectionProfile
    → SyncProfile
    → Secret
    → Option Tls
    → DiscoveryInfo
    → DatastoreRequest
unfolding protocol_options get_sync_profile
datastore_request srv target profile sync_profile secret tls info =
    let credentials : Credentials = record {
      username = secret.data_of "username";
      password = secret.data_of "password";
    } in
    record {
      schema = some (record { type = ""; vendor = info.provider; version = info.version });
      target =
          some (record { type = profile.protocol; address = target.address; port = profile.port });
      rest = srv.marshal_details (record {
        datastore_name =
            srv.key_string (record { namespace = target.namespace; name = target.name });
        credentials = credentials;
        tls = tls;
        options = protocol_options profile;
        sync = get_sync_profile target.address tls credentials sync_profile;
      });
    }

unfoldable pub discovered :
    Server
    → Target
    → ConnectionProfile
    → SyncProfile
    → Secret
    → Option Tls × String
    → Result (DatastoreRequest × UsedReferences)
unfolding complete datastore_request utf8
discovered srv target profile sync_profile secret (tls, tls_version) =
    elim (complete target.discovery_info) [
      | none ↦ err (
          plain (
            utf8 "target not discovered, discovery incomplete, got: "
            ++ srv.show_discovery target.discovery_info))
      | some info ↦ ok (
        datastore_request srv target profile sync_profile secret tls info,
        record {
          secret = secret.resource_version;
          tls_secret = tls_version;
          connection_profile = profile.resource_version;
          sync_profile = sync_profile.resource_version;
        },
      )
    ]

-- getCreateDataStoreRequest.
unfoldable pub get_create_datastore_request :
    Server → Target → Reads (DatastoreRequest × UsedReferences)
unfolding sync_profile_of connection_profile_of secret_of tls_of in_namespace discovered utf8
get_create_datastore_request srv target = elim target.sync_profile [
  | none ↦ λ t. (err (plain (utf8 "target " ++ utf8 target.name ++ utf8 " has no syncProfile")), t)
  | some name ↦ do
    sync_profile ← sync_profile_of srv (in_namespace target name)
    profile ← connection_profile_of srv (in_namespace target target.connection_profile)
    secret ← secret_of srv (in_namespace target target.credentials)
    tls ← tls_of srv target profile
    λ t. (discovered srv target profile sync_profile secret tls, t)
]

-- The loop of isSchemaReady: the schema that the target is discovered to have.
unfoldable pub find_schema : DiscoveryInfo → List SchemaResource → Option SchemaResource
find_schema info [] = none
find_schema info (s ∷ ss) =
    let rest = find_schema info ss in
    if (s.provider == info.provider) && (s.version == info.version) then some s else rest

unfoldable pub schema_message : SchemaResource → Bytes
unfolding get_condition is_true utf8
schema_message s =
    let ready = get_condition condition_type_ready s.conditions in
    if not (is_true ready) && (ready.message == [])
    then utf8 "schema " ++ utf8 s.provider ++ utf8 "/" ++ utf8 s.version ++ utf8 " not ready"
    else ready.message

unfoldable pub schema_state : DiscoveryInfo → List SchemaResource → Bool × Bytes
unfolding find_schema schema_message get_condition is_true utf8
schema_state info schemas = elim (find_schema info schemas) [
  | some s ↦ (is_true (get_condition condition_type_ready s.conditions), schema_message s)
  | none ↦ (
    false,
    utf8 "schema "
        ++ utf8 info.provider
        ++ utf8 "/"
        ++ utf8 info.version
        ++ utf8 " referenced by target not found",
  )
]

-- isSchemaReady.
unfoldable pub is_schema_ready : Server → Target → Reads (Bool × Bytes)
unfolding schema_state utf8
is_schema_ready srv target = elim target.discovery_info [
  | none ↦ return (false, utf8 "target has no discovery info")
  | some info ↦ do
    schemas ← λ t. (srv.list_schemas t target.namespace, lists_schemas target.namespace ∷ t)
    return (schema_state info schemas)
]
