-- ===== src/Runtime/Loop/Run/Replay.antt =====
-- The steps from the recovery on, in pkg/sdc/target/manager/runtime.go.
use config_server.Prelude.{
  Bool-cases, Bytes, Option, Option-cases, [], arith, inl, inr, none, refl, some, utf8, ◌∷◌,
}
use config_server.Errors.{Error, wrapped}
use config_server.Runtime.{Runtime, recovering, recovery_failed, recovery_latched, set_phase}
use config_server.Runtime.Loop.{
  advance, checks_latch, checks_recovered, decided, decides, ensures_runtime, fails, records,
  recovers, replays,
}
use config_server.Runtime.Loop.Run.{Finishes, goes, loop_run, to, turns}
use config_server.Runtime.Reconcile.{
  after_datastore, after_recovery, is_final, record_recovery, recover, run_components, run_recovery,
}
use config_server.Transactor.{DatastoreRequest, Env, History, Key, gets_target}
use config_server.Transactor.Recover.{recover_configs}

module _ (env : Env) (target : Key) where
  ensures_runtime-Finishes :
      (req : DatastoreRequest) (rt : Runtime) (h : History)
      → Finishes env target (ensures_runtime req, rt, h) (run_components env req (rt, h))
  unfolding loop_run advance run_components
  ensures_runtime-Finishes req rt h = (3, refl)

  decides-Finishes :
      (req : DatastoreRequest) (e : Option Error) (rt : Runtime) (h : History)
      → Finishes env target (decides req e, rt, h) (after_recovery env req e (rt, h))
  unfolding advance after_recovery decided loop_run
  decides-Finishes req none rt h = goes env target _ _ _ (ensures_runtime-Finishes req rt h)
  decides-Finishes req (some e) rt h = elim (Bool-cases (is_final e)) [
    | inl final ↦ rw final (3, rw final refl)
    | inr passing ↦ rw passing (2, rw passing refl)
  ]

  records-Finishes :
      (req : DatastoreRequest) (msg : Bytes) (e : Option Error) (rt : Runtime) (h : History)
      → Finishes env target
          (records req msg e, rt, h)
          (after_recovery env req e (record_recovery none (msg, e) rt, h))
  unfolding advance record_recovery
  records-Finishes req msg none rt h = goes env target _ _ _ (decides-Finishes req none _ h)
  records-Finishes req msg (some e) rt h = goes env target _ _ _ (decides-Finishes req (some e) _ h)

  -- recoverConfigs and what follows, once recovery is not latched.
  recovers-Finishes :
      (req : DatastoreRequest) (rt : Runtime) (h : History)
      → let (answer, h') = run_recovery env target h in
        Finishes env target
          (recovers req, rt, h)
          (after_recovery env req answer.1
            (record_recovery (env.get_target h target) answer (set_phase recovering none rt), h'))
  unfolding advance run_recovery record_recovery
  recovers-Finishes req rt h =
      let rt' = set_phase recovering none rt in
      let h1 = gets_target target ∷ h in
      let (answer, h2) = recover_configs env target h1 in
      let msg : Bytes = elim answer.0 [ none ↦ [] | some m ↦ m ] in
      goes env target (recovers req) rt h (elim (Option-cases (env.get_target h target)) [
        | inr (e, failed) ↦
            let failure = wrapped (utf8 "get target: ") e in
            turns env target (replays req) rt' h (decides req (some failure), rt', h1) _
              (rw (failed, advance) refl)
              (to env target _ (after_recovery env req (some failure) (rt', h1)) _
                (rw (failed, run_recovery, record_recovery) refl)
                (decides-Finishes req (some failure) rt' h1))
        | inl found ↦
            turns env target (replays req) rt' h (records req msg answer.1, rt', h2) _
              (rw (found, advance) refl)
              (to env target _
                (after_recovery env req answer.1 (record_recovery none (msg, answer.1) rt', h2)) _
                (rw (found, run_recovery) refl) (records-Finishes req msg answer.1 rt' h2))
      ])

  checks_latch-Finishes :
      (req : DatastoreRequest) (rt : Runtime) (h : History)
      → Finishes env target (checks_latch req, rt, h) (recover env target req (rt, h))
  unfolding advance loop_run recover
  checks_latch-Finishes req rt h = elim (Option-cases (recovery_latched rt)) [
    | inr (e, latched) ↦
        turns env target (checks_latch req) rt h (fails e, rt, h) _ (rw (latched, advance) refl)
          (to env target _ (set_phase recovery_failed (some e) rt, h) _ (rw (latched, recover) refl)
            (1, refl))
    | inl free ↦
        let (answer, h') = run_recovery env target h in
        turns env target (checks_latch req) rt h (recovers req, rt, h) _ (rw (free, advance) refl)
          (to env target _
            (after_recovery env req answer.1
              (record_recovery (env.get_target h target) answer (set_phase recovering none rt), h'))
            _ (rw (free, recover) refl) (recovers-Finishes req rt h))
  ]

  pub checks_recovered-Finishes :
      (req : DatastoreRequest) (rt : Runtime) (h : History)
      → Finishes env target
          (checks_recovered req, rt, h)
          (after_datastore env target req none (rt, h))
  unfolding advance after_datastore
  checks_recovered-Finishes req rt h = elim (Bool-cases rt.recovered) [
    | inl done ↦
        turns env target (checks_recovered req) rt h (ensures_runtime req, rt, h) _
          (ground (arith, done))
          (to env target _ (run_components env req (rt, h)) _ (ground (arith, done))
            (ensures_runtime-Finishes req rt h))
    | inr missing ↦
        turns env target (checks_recovered req) rt h (checks_latch req, rt, h) _
          (ground (arith, missing))
          (to env target _ (recover env target req (rt, h)) _ (ground (arith, missing))
            (checks_latch-Finishes req rt h))
  ]
