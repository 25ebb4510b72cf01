-- ===== src/Instantiation/Manager.antt =====
-- TargetManager of pkg/sdc/target/manager/manager.go, with Start and Stop of a TargetRuntime in runtime.go.
pub mod Laws
use config_server.Prelude.{
  Bool, Option, String, bytes_eq, delete, false, if◌then◌else◌, insert, lookup, nat_eq, none, not,
  some, string_eq, true, utf8, ◌&&◌, ◌++◌, ◌==◌, ◌∷◌,
}
use config_server.Errors.{Error, is_unknown_datastore_err, plain, wrapped}
use config_server.Instantiation.{
  Managed, Server, Targets, Trace, UsedReferences, W, key_eq, removes_datastore, stops_runtime,
}
use config_server.Runtime.{
  RuntimeStatus, new_target_runtime, phase_eq, running, set_desired, set_recovery_retry_token,
  status, wake,
}
use config_server.Runtime.Loop.{shutdown}
use config_server.Transactor.{DatastoreRequest, Key}

unfoldable pub new_managed : Managed
unfolding new_target_runtime
new_managed = record { runtime = new_target_runtime; started = false; stopping = false }

-- GetOrCreate: the runtime, and the targets with it.
unfoldable pub get_or_create : Key → Targets → Managed × Targets
unfolding lookup insert new_managed
get_or_create key targets = elim (lookup key targets) [
  | some managed ↦ (managed, targets)
  | none ↦ (new_managed, insert key new_managed targets)
]

-- A method of the runtime, on the runtime that GetOrCreate returns.
unfoldable pub with_runtime : Key → (Managed → Managed) → Targets → Targets
unfolding get_or_create insert
with_runtime key method targets =
    let (managed, targets') = get_or_create key targets in insert key (method managed) targets'

-- Start; the loop wakes itself.
unfoldable pub start : Managed → Managed
unfolding wake
start managed =
    if managed.started
    then managed
    else record managed { runtime = wake managed.runtime; started = true }

unfoldable pub desire : Option DatastoreRequest → String → Managed → Managed
unfolding set_desired
desire req hash managed = record managed { runtime = set_desired req hash managed.runtime }

unfoldable pub apply_desired : Key → DatastoreRequest → String → Targets → Targets
unfolding with_runtime start desire
apply_desired key req hash targets =
    with_runtime key (desire (some req) hash) (with_runtime key start targets)

unfoldable pub retry_token : String → Managed → Managed
unfolding set_recovery_retry_token
retry_token token managed = record managed {
  runtime = set_recovery_retry_token token managed.runtime;
}

-- TargetManager.SetRecoveryRetryToken.
unfoldable pub set_retry_token : Key → String → Targets → Targets
unfolding with_runtime retry_token
set_retry_token key token targets = with_runtime key (retry_token token) targets

unfoldable pub clear_desired : Key → Targets → Targets
unfolding lookup insert desire
clear_desired key targets = elim (lookup key targets) [
  | none ↦ targets
  | some managed ↦ insert key (desire none "" managed) targets
]

-- Stop: nil once the loop has exited. A loop that was never started has nothing to exit from.
unfoldable pub stop_loop : Server → Key → Managed → Trace → Option Error × Managed
unfolding shutdown utf8
stop_loop srv key managed t =
    let rt = managed.runtime in
    if not managed.started
    then (none, record { runtime = record rt { stopped = true }; started = true; stopping = true })
    else if rt.stopped
    then (none, record managed { stopping = true })
    else if srv.exits t key
    then (none, record { runtime = shutdown rt; started = true; stopping = true })
    else (
      some (
          plain (
            utf8 "target runtime "
            ++ utf8 (srv.key_string key)
            ++ utf8 " did not stop within 15s")),
      record managed { stopping = true },
    )

-- TargetManager.Delete. The runtime that is removed is the one that was stopped.
unfoldable pub delete_target : Server → Key → W → Option Error × W
unfolding lookup insert delete stop_loop
delete_target srv key (targets, t) = elim (lookup key targets) [
  | none ↦ (none, (targets, t))
  | some managed ↦
      let (failure, managed') = stop_loop srv key managed t in
      let t' = stops_runtime key ∷ t in
      elim failure [
        | some e ↦ (some e, (insert key managed' targets, t'))
        | none ↦ (none, (delete key targets, t'))
      ]
]

-- deleteDatastore.
unfoldable pub remove_datastore_of : Server → String → Trace → Option Error × Trace
unfolding is_unknown_datastore_err utf8
remove_datastore_of srv name t =
    let t' = removes_datastore name ∷ t in
    elim (srv.remove_datastore t name) [
      | none ↦ (none, t')
      | some e ↦ if is_unknown_datastore_err (some e) then (none, t') else (
        some (wrapped (utf8 "delete datastore " ++ srv.quote (utf8 name) ++ utf8 ": ") e),
        t',
      )
    ]

-- TargetManager.DeleteDatastore.
unfoldable pub delete_datastore_of : Server → Key → Trace → Option Error × Trace
unfolding remove_datastore_of utf8
delete_datastore_of srv key t =
    let name = srv.key_string key in
    if srv.has_client t then remove_datastore_of srv name t else (
      some (
          plain (
            utf8 "delete datastore "
            ++ srv.quote (utf8 name)
            ++ utf8 ": dataserver not available")),
      t,
    )

-- TargetManager.GetClient: the status, and whether there is a client for it. Without a runtime, the
-- status is the zero one, but for the phase Pending.
unfoldable pub get_client : Server → Key → W → RuntimeStatus × Bool
unfolding lookup status new_target_runtime
get_client srv key (targets, t) = elim (lookup key targets) [
  | none ↦ (status new_target_runtime, false)
  | some managed ↦
      let st = status managed.runtime in
      (st, st.ds_ready && st.ds_store_ready && (st.phase == running) && srv.has_client t)
]

-- ComputeCreateDSHash.
unfoldable pub compute_create_ds_hash : Server → DatastoreRequest → UsedReferences → String
unfolding utf8
compute_create_ds_hash srv req refs = srv.sha_hex (
    srv.protojson req
    ++ utf8 "|cp="
    ++ utf8 refs.connection_profile
    ++ utf8 "|sp="
    ++ utf8 refs.sync_profile
    ++ utf8 "|sec="
    ++ utf8 refs.secret
    ++ utf8 "|tls="
    ++ utf8 refs.tls_secret)
