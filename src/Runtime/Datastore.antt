-- ===== src/Runtime/Datastore.antt =====
-- ensureDatastore and ensureDatastoreDeleted of pkg/sdc/target/manager/runtime.go. What a step adds to
-- the state comes first, then the calls that it made.
use config_server.Prelude.{
  Bytes, Option, String, bytes_eq, false, if◌then◌else◌, nat_eq, none, not, some, string_eq, true,
  utf8, ◌&&◌, ◌++◌, ◌==◌, ◌||◌, ◌∷◌,
}
use config_server.Errors.{Error, is_unknown_datastore_err, wrapped}
use config_server.Runtime.{
  Runtime, degraded, ensuring_datastore, set_datastore_ready, set_phase, set_recovered,
  set_running_hash, stop_runtime,
}
use config_server.Transactor.{
  DatastoreRequest, Env, History, creates_datastore, deletes_datastore, gets_datastore,
}

abbrev pub World : Type 0
World = Runtime × History

unfoldable pub datastore_error : Env → Bytes → String → Error → Error
unfolding utf8
datastore_error env doing name e =
    wrapped (doing ++ utf8 " datastore " ++ env.quote (utf8 name) ++ utf8 ": ") e

-- CreateDataStore, and what follows when it succeeds.
unfoldable pub create_datastore :
    Env → Bytes → String → DatastoreRequest → World → Option Error × World
unfolding datastore_error set_running_hash set_datastore_ready set_recovered
create_datastore env doing name req (rt, h) =
    let h' = creates_datastore req ∷ h in
    elim (env.create_datastore h req) [
      | some e ↦ (some (datastore_error env doing name e), (rt, h'))
      | none ↦ (
        none,
        (set_recovered false (set_datastore_ready true (set_running_hash rt.desired_hash rt)), h'),
      )
    ]

-- The datastore is there with another hash.
unfoldable pub recreate_datastore : Env → String → DatastoreRequest → World → Option Error × World
unfolding create_datastore set_phase stop_runtime is_unknown_datastore_err utf8
recreate_datastore env name req (rt, h) =
    let stopped = stop_runtime (set_phase ensuring_datastore none rt) in
    let h' = deletes_datastore name ∷ h in
    let created = create_datastore env (utf8 "recreate") name req (stopped, h') in
    elim (env.delete_datastore h name) [
      | none ↦ created
      | some e ↦
          if is_unknown_datastore_err (some e)
          then created
          else (some (datastore_error env (utf8 "delete") name e), (stopped, h'))
    ]

-- ensureDatastore, of the datastore that has the given name.
unfoldable pub ensure_datastore : Env → String → DatastoreRequest → World → Option Error × World
unfolding create_datastore recreate_datastore set_phase is_unknown_datastore_err utf8
ensure_datastore env name req (rt, h) =
    let want = rt.desired_hash in
    let have = rt.running_hash in
    let h' = gets_datastore name ∷ h in
    elim (env.get_datastore h name) [
      | some e ↦
          if is_unknown_datastore_err (some e)
          then create_datastore env (utf8 "create") name req
              (set_phase ensuring_datastore none rt, h')
          else (some (datastore_error env (utf8 "get") name e), (set_datastore_ready false rt, h'))
      | none ↦
          if not (have == "") && not (want == "") && not (have == want)
          then recreate_datastore env name req (rt, h')
          else (
            none,
            (set_datastore_ready true (if have == "" then set_running_hash want rt else rt), h'),
          )
    ]

unfoldable pub forget_datastore : Runtime → Runtime
unfolding set_datastore_ready set_running_hash
forget_datastore rt = set_running_hash "" (set_datastore_ready false rt)

unfoldable pub ensure_datastore_deleted : Env → String → World → World
unfolding forget_datastore set_phase is_unknown_datastore_err
ensure_datastore_deleted env name (rt, h) =
    if not rt.ds_ready || not (env.has_client h)
    then (forget_datastore rt, h)
    else let h' = deletes_datastore name ∷ h in
      elim (env.delete_datastore h name) [
        | none ↦ (forget_datastore rt, h')
        | some e ↦ if is_unknown_datastore_err (some e) then (forget_datastore rt, h') else (
          set_phase degraded (some (datastore_error env (utf8 "delete") name e))
              (set_datastore_ready false rt),
          h',
        )
      ]
