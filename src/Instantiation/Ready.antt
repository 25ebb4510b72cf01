-- ===== src/Instantiation/Ready.antt =====
-- The conditions of a target in pkg/reconcilers/targetdatastore/reconciler.go: readyFromRuntime,
-- applyReady and dropLegacyConditions. A requeue is in seconds, 0 for none.
use config_server.Prelude.{
  Bool, Bytes, List, Option, String, [], bytes_eq, false, if◌then◌else◌, length, nat_eq, none, not,
  some, string_eq, true, utf8, ℕ, ◌&&◌, ◌++◌, ◌==◌, ◌||◌, ◌∷◌,
}
use config_server.Condition.{
  Condition, condition_false, condition_type_ready, equal, get_condition, is_true, new_condition,
  ready_with_msg, reason_ready,
}
use config_server.Errors.{Error, err, ok, wrapped}
use config_server.Instantiation.{
  Reads, ReadyApply, Server, Target, Trace, UsedReferences, UsedReferencesApply, applies_ready,
  patches_conditions, records_event, used_references_eq,
}
use config_server.Runtime.{
  RuntimeStatus, TargetPhase, degraded, deleting_target, ensuring_datastore, pending, recovering,
  recovery_failed, running, waiting_for_ds,
}
use config_server.Transactor.{Key}

-- TargetNotReady.
unfoldable pub target_not_ready : ℕ → String → Bytes → Condition
unfolding new_condition
target_not_ready now reason msg = new_condition now condition_type_ready condition_false reason msg

abbrev pub fallback_requeue : ℕ
fallback_requeue = 30

-- withErr.
unfoldable pub with_error : RuntimeStatus → Bytes → Bytes
unfolding utf8
with_error st msg = if st.last_error == [] then msg else msg ++ utf8 ": " ++ st.last_error

abbrev pub annotation_recovery_retry : String
annotation_recovery_retry = "config.sdcio.dev/recovery-retry"

-- readyFromRuntime: the reason and the message of the condition, unless it is Ready.
unfoldable pub reason_of : RuntimeStatus → TargetPhase → String × Bytes
unfolding with_error utf8
reason_of st running = (reason_ready, st.recovery_msg)
reason_of st recovering = ("Recovering", with_error st (utf8 "recovering configs"))
reason_of st recovery_failed = (
  "RecoveryFailed",
  utf8 "config recovery failed, manual intervention required: "
      ++ st.last_error
      ++ utf8 "; fix the configs, then set annotation "
      ++ utf8 annotation_recovery_retry
      ++ utf8 " to a new value to retry",
)
reason_of st degraded = ("DatastoreFailed", with_error st (utf8 "datastore failed"))
reason_of st ensuring_datastore = ("DatastoreNotReady", with_error st (utf8 "ensuring datastore"))
reason_of st waiting_for_ds = ("DataServerNotReady", with_error st (utf8 "waiting for dataserver"))
reason_of st pending = ("Initializing", utf8 "initializing target runtime")
reason_of st deleting_target = ("Deleting", utf8 "target runtime stopping")

-- The requeue, and datastoreUp.
unfoldable pub requeue_of : TargetPhase → ℕ × Bool
requeue_of running = (0, true)
requeue_of recovering = (fallback_requeue, true)
requeue_of recovery_failed = (0, true)
requeue_of _ = (fallback_requeue, false)

-- readyFromRuntime.
unfoldable pub ready_from_runtime : ℕ → RuntimeStatus → Condition × (ℕ × Bool)
unfolding reason_of requeue_of ready_with_msg target_not_ready
ready_from_runtime now st =
    let (reason, msg) = reason_of st st.phase in
    (
      elim st.phase [ running ↦ ready_with_msg now msg | _ ↦ target_not_ready now reason msg ],
      requeue_of st.phase,
    )

unfoldable pub set_string : String → Option String
set_string s = if s == "" then none else some s

-- usedRefsToApply.
unfoldable pub used_refs_to_apply : Option UsedReferences → Option UsedReferencesApply
unfolding set_string
used_refs_to_apply none = none
used_refs_to_apply (some refs) = some (record {
  secret = set_string refs.secret;
  tls_secret = set_string refs.tls_secret;
  connection_profile = set_string refs.connection_profile;
  sync_profile = set_string refs.sync_profile;
})

-- The transition time moves only with the status.
unfoldable pub keep_time : Condition → Condition → Condition
keep_time old new =
    if (old.status == new.status) && not (old.last_transition_time == 0)
    then record new { last_transition_time = old.last_transition_time }
    else new

-- The event of a transition; a Warning is marked `true`.
unfoldable pub record_transition : Condition → Condition → Trace → Trace
unfolding is_true
record_transition old new t =
    if not (old.status == new.status) || not (old.reason == new.reason)
    then records_event (not (is_true new)) new.reason new.message ∷ t
    else t

unfoldable pub ready_apply : Target → Condition → Option UsedReferences → ReadyApply
unfolding used_refs_to_apply
ready_apply target cond refs = record {
  name = target.name;
  namespace = target.namespace;
  condition = cond;
  used_references = used_refs_to_apply refs;
}

unfoldable pub wrap_error : Bytes → Option Error → Option Error
unfolding utf8
wrap_error msg none = none
wrap_error msg (some e) = some (wrapped (msg ++ utf8 ": ") e)

-- applyReady.
unfoldable pub apply_ready :
    Server → Target → Condition → Option UsedReferences → Trace → Option Error × Trace
unfolding equal get_condition keep_time record_transition ready_apply wrap_error utf8
apply_ready srv target new refs t =
    let old = get_condition condition_type_ready target.conditions in
    let apply = ready_apply target (keep_time old new) refs in
    let t' = record_transition old (keep_time old new) t in
    if equal new old && refs == target.used_references then (none, t) else (
      wrap_error (utf8 "cannot update status") (srv.apply_ready_status t' apply),
      applies_ready apply ∷ t',
    )

-- LegacyTargetConditionTypes.
unfoldable pub is_legacy : Condition → Bool
is_legacy c =
    c.type == "TargetDatastoreReady"
    || c.type == "TargetConnectionReady"
    || c.type == "TargetConfigRecoveryReady"

unfoldable pub without_legacy : List Condition → List Condition
unfolding is_legacy
without_legacy [] = []
without_legacy (c ∷ cs) = let rest = without_legacy cs in if is_legacy c then rest else c ∷ rest

-- dropLegacyConditions: whether it patched.
unfoldable pub drop_legacy_conditions : Server → Key → Target → Reads Bool
unfolding without_legacy utf8
drop_legacy_conditions srv key target t =
    let kept = without_legacy target.conditions in
    if length kept == length target.conditions
    then (ok false, t)
    else elim (srv.patch_conditions t key kept) [
      | none ↦ (ok true, patches_conditions key kept ∷ t)
      | some e ↦ (
        err (wrapped (utf8 "cannot remove legacy conditions: ") e),
        patches_conditions key kept ∷ t,
      )
    ]
