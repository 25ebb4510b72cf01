-- ===== src/Runtime/Loop/Run/Ensuring.antt =====
-- The steps of ensureDatastore of pkg/sdc/target/manager/runtime.go.
use config_server.Prelude.{
  Bool-cases, Bytes, Option, Option-cases, bytes_eq, false, if◌then◌else◌, inl, inr, nat_eq, none,
  not, refl, some, string_eq, subst, sym, true, utf8, ◌&&◌, ◌==◌, ◌∷◌, ◌≡◌,
}
use config_server.Errors.{Error, is_unknown_datastore_err}
use config_server.Runtime.{
  Runtime, ensuring_datastore, set_datastore_ready, set_phase, set_recovered, set_running_hash,
  stop_runtime,
}
use config_server.Runtime.Datastore.{
  World, create_datastore, datastore_error, ensure_datastore, recreate_datastore,
}
use config_server.Runtime.Loop.{
  LoopStep, adopts, advance, creates, degrades, deleted_old, deletes_old, differs, hashes_created,
  probed, probes, readies, readies_created, reads_hash, stops_old, unreadies, unrecovers_created,
  vanishes,
}
use config_server.Runtime.Loop.Run.{Finishes, goes, loop_run, turns}
use config_server.Runtime.Loop.Run.Replay.{checks_recovered-Finishes}
use config_server.Runtime.Reconcile.{after_datastore}
use config_server.Transactor.{
  DatastoreRequest, Env, History, Key, creates_datastore, deletes_datastore, gets_datastore,
}

module _ (env : Env) (target : Key) where
  -- A step that leads to what follows an outcome of ensureDatastore.
  abbrev Follows : DatastoreRequest → LoopStep → Option Error × World → Type 0
  Follows req s outcome = Finishes env target s (after_datastore env target req outcome.0 outcome.1)

  to_outcome :
      (req : DatastoreRequest) (s : LoopStep) (o o' : Option Error × World)
      → o' ≡ o
      → Follows req s o
      → Follows req s o'
  to_outcome req s o o' same follows =
      subst (λ (v : Option Error × World). Follows req s v) (sym same) follows

  degrades-Follows :
      (req : DatastoreRequest) (e : Error) (rt : Runtime) (h : History)
      → Follows req (degrades e, rt, h) (some e, (rt, h))
  unfolding advance after_datastore loop_run
  degrades-Follows req e rt h = (1, refl)

  creates-Follows :
      (doing : Bytes) (req : DatastoreRequest) (rt : Runtime) (h : History)
      → Follows req
          (creates doing req rt.desired_hash, rt, h)
          (create_datastore env doing (env.key_string target) req (rt, h))
  unfolding advance create_datastore
  creates-Follows doing req rt h =
      let want = rt.desired_hash in
      let h' = creates_datastore req ∷ h in
      elim (Option-cases (env.create_datastore h req)) [
        | inr (e, failed) ↦
            let failure = datastore_error env doing (env.key_string target) e in
            turns env target (creates doing req want) rt h (degrades failure, rt, h') _
              (rw (failed, advance) refl)
              (to_outcome req _ (some failure, (rt, h')) _ (rw (failed, create_datastore) refl)
                (degrades-Follows req failure rt h'))
        | inl created ↦
            let rt1 = set_running_hash want rt in
            let rt2 = set_datastore_ready true rt1 in
            let rt3 = set_recovered false rt2 in
            turns env target (creates doing req want) rt h (hashes_created req want, rt, h') _
              (rw (created, advance) refl)
              (to_outcome req _ (none, (rt3, h')) _ (rw (created, create_datastore) refl)
                (goes env target (hashes_created req want) rt h' (
                  goes env target (readies_created req) rt1 h' (
                    goes env target (unrecovers_created req) rt2 h'
                      (checks_recovered-Finishes env target req rt3 h')))))
      ]

  deletes_old-Follows :
      (req : DatastoreRequest) (rt : Runtime) (h : History)
      → let name = env.key_string target in
        let created =
          create_datastore env (utf8 "recreate") name req (rt, deletes_datastore name ∷ h) in
        Follows req
          (deletes_old req rt.desired_hash, rt, h)
          (elim (env.delete_datastore h name) [
            | none ↦ created
            | some e ↦ if is_unknown_datastore_err (some e) then created else (
              some (datastore_error env (utf8 "delete") name e),
              (rt, deletes_datastore name ∷ h),
            )
          ])
  unfolding advance deleted_old
  deletes_old-Follows req rt h =
      let name = env.key_string target in
      let want = rt.desired_hash in
      let h' = deletes_datastore name ∷ h in
      let next : LoopStep = (creates (utf8 "recreate") req want, rt, h') in
      let done = creates-Follows (utf8 "recreate") req rt h' in
      elim (Option-cases (env.delete_datastore h name)) [
        | inl gone ↦
            turns env target (deletes_old req want) rt h next _ (rw (gone, advance) refl)
              (to_outcome req next _ _ (rw gone refl) done)
        | inr (e, failed) ↦ elim (Bool-cases (is_unknown_datastore_err (some e))) [
          | inl unknown ↦
              turns env target (deletes_old req want) rt h next _
                (rw (failed, advance) (rw (unknown, deleted_old) refl))
                (to_outcome req next _ _ (rw failed (rw unknown refl)) done)
          | inr known ↦
              let failure = datastore_error env (utf8 "delete") name e in
              turns env target (deletes_old req want) rt h (degrades failure, rt, h') _
                (rw (failed, advance) (rw (known, deleted_old) refl))
                (to_outcome req _ (some failure, (rt, h')) _ (rw failed (rw known refl))
                  (degrades-Follows req failure rt h'))
        ]
      ]

  differs-Follows :
      (req : DatastoreRequest) (rt : Runtime) (h : History)
      → Follows req
          (differs req rt.desired_hash, rt, h)
          (recreate_datastore env (env.key_string target) req (rt, h))
  unfolding advance recreate_datastore
  differs-Follows req rt h =
      let want = rt.desired_hash in
      let left = set_phase ensuring_datastore none rt in
      goes env target (differs req want) rt h (
        goes env target (stops_old req want) left h (deletes_old-Follows req (stop_runtime left) h))

  -- The datastore is there.
  known-Follows :
      (req : DatastoreRequest) (rt : Runtime) (h : History)
      → let name = env.key_string target in
        let have = rt.running_hash in
        let want = rt.desired_hash in
        Follows req
          (probed env name req want have none, rt, h)
          (if not (have == "") && not (want == "") && not (have == want)
            then recreate_datastore env name req (rt, h)
            else (
              none,
              (set_datastore_ready true (if have == "" then set_running_hash want rt else rt), h),
            ))
  unfolding advance probed
  known-Follows req rt h =
      let have = rt.running_hash in
      let want = rt.desired_hash in
      elim (Bool-cases (not (have == "") && not (want == "") && not (have == want))) [
        | inl other ↦ rw other (differs-Follows req rt h)
        | inr same ↦
            let rt1 = if have == "" then set_running_hash want rt else rt in
            rw same (
              goes env target (adopts req want) rt h (
                goes env target (readies req) rt1 h
                  (checks_recovered-Finishes env target req (set_datastore_ready true rt1) h)))
      ]

  -- GetDataStore failed.
  unknown-Follows :
      (req : DatastoreRequest) (rt : Runtime) (h : History) (e : Error)
      → let name = env.key_string target in
        Follows req
          (probed env name req rt.desired_hash rt.running_hash (some e), rt, h)
          (if is_unknown_datastore_err (some e)
            then create_datastore env
                (utf8 "create")
                name
                req
                (set_phase ensuring_datastore none rt, h)
            else (
              some (datastore_error env (utf8 "get") name e),
              (set_datastore_ready false rt, h),
            ))
  unfolding advance probed
  unknown-Follows req rt h e = elim (Bool-cases (is_unknown_datastore_err (some e))) [
    | inl missing ↦ rw missing (
        goes env target (vanishes req rt.desired_hash) rt h
          (creates-Follows (utf8 "create") req (set_phase ensuring_datastore none rt) h))
    | inr failing ↦
        let failure = datastore_error env (utf8 "get") (env.key_string target) e in
        rw failing (
          goes env target (unreadies failure) rt h
            (degrades-Follows req failure (set_datastore_ready false rt) h))
  ]

  pub reads_hash-Follows :
      (req : DatastoreRequest) (rt : Runtime) (h : History)
      → Follows req
          (reads_hash req, rt, h)
          (ensure_datastore env (env.key_string target) req (rt, h))
  unfolding advance ensure_datastore
  reads_hash-Follows req rt h =
      let name = env.key_string target in
      let want = rt.desired_hash in
      let h' = gets_datastore name ∷ h in
      goes env target (reads_hash req) rt h (elim (Option-cases (env.get_datastore h name)) [
        | inl found ↦
            turns env target (probes req want) rt h
              (probed env name req want rt.running_hash none, rt, h') _ (rw (found, advance) refl)
              (to_outcome req _ _ _ (rw (found, ensure_datastore) refl) (known-Follows req rt h'))
        | inr (e, failed) ↦
            turns env target (probes req want) rt h
              (probed env name req want rt.running_hash (some e), rt, h') _
              (rw (failed, advance) refl)
              (to_outcome req _ _ _ (rw (failed, ensure_datastore) refl)
                (unknown-Follows req rt h' e))
      ])
