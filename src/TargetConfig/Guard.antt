-- ===== src/TargetConfig/Guard.antt =====
-- The steps of Reconcile in pkg/reconcilers/targetconfig/reconciler.go that send no transaction, and the
-- one that may.
pub mod Whole
use config_server.Prelude.{
  Bool-cases, Bytes, Option, String, ap, arith, false, inl, inr, none, refl, some, string_eq, true,
  ◌∙◌, ◌∷◌, ◌≡◌, ◌⊎◌,
}
use config_server.Config.{config_not_ready, ready_from_applied, set_config_condition}
use config_server.Runtime.{Runtime, status}
use config_server.Runtime.Latch.{transactions}
use config_server.Runtime.Loop.{get_datastore}
use config_server.TargetConfig.{
  Controller, Requeue, after_transact, handle_of, reconcile_datastore, report_applied,
  report_not_ready, runtime_message,
}
use config_server.Transactor.{
  Adds, Call, Env, History, Key, Outcome, nothing, one_more, sets_transaction,
}
use config_server.Transactor.Local.{Local, update_configs_for_target-IsLocal}
use config_server.Transactor.Status.{set_configs_not_ready, set_configs_ready_from_applied}
use config_server.Transactor.Transact.{transact}

unsent : (c : Call) (h : History) → Local c → transactions (c ∷ h) ≡ transactions h
unfolding transactions
unsent (sets_transaction req) h p = absurd p
unsent c h p = refl

transactions-Local : {h h' : History} → Adds Local h h' → transactions h' ≡ transactions h
transactions-Local nothing = refl
transactions-Local (one_more {h'} c p a) = unsent c h' p ∙ transactions-Local a

pub report_not_ready-transactions :
    (env : Env) (key : Key) (reason : String) (msg : Bytes) (h : History)
    → transactions (report_not_ready env key reason msg h).1 ≡ transactions h
unfolding report_not_ready set_configs_not_ready
report_not_ready-transactions env key reason msg h = transactions-Local (
    update_configs_for_target-IsLocal env key
      (λ now cfg. some (set_config_condition (config_not_ready (env.now h) reason msg) cfg)) h)

report_applied-transactions :
    (env : Env) (key : Key) (h : History)
    → transactions (report_applied env key h).1 ≡ transactions h
unfolding report_applied set_configs_ready_from_applied
report_applied-transactions env key h = transactions-Local (
    update_configs_for_target-IsLocal env key
      (λ now cfg. some (set_config_condition (ready_from_applied now cfg) cfg)) h)

after_transact-transactions :
    (env : Env) (key : Key) (outcome : Outcome) (h : History)
    → transactions (after_transact env key outcome h).1 ≡ transactions h
unfolding after_transact
after_transact-transactions env key (retry, e) h =
    let same = report_applied-transactions env key h in ground (arith, same)

-- The transactor was run, from a history to which only local calls were added.
abbrev pub Transacted : Env → Key → Option Runtime → History → History → Type 0
Transacted env key runtime h h' =
    (rt : Runtime) × (h1 : History) × (runtime ≡ some rt)
    × (get_datastore env (rt, h1) ≡ true)
    × (transactions h1 ≡ transactions h)
    × (transactions h' ≡ transactions (transact env key (handle_of env key rt) h1).1)

datastore_used :
    (env : Env) (ctl : Controller) (key : Key) (rt : Runtime) (h : History)
    → get_datastore env (rt, h) ≡ true
    → let (outcome, h') = transact env key (handle_of env key rt) h in
      reconcile_datastore env ctl key (some rt) h ≡ after_transact env key outcome h'
unfolding reconcile_datastore
datastore_used env ctl key rt h usable = rw usable refl

datastore_refused :
    (env : Env) (ctl : Controller) (key : Key) (rt : Runtime) (h : History)
    → get_datastore env (rt, h) ≡ false
    → (reconcile_datastore env ctl key (some rt) h).1
      ≡ (report_not_ready env key "TargetRuntimeNotReady"
          (runtime_message ctl (some (status rt)))
          h).1
unfolding reconcile_datastore
datastore_refused env ctl key rt h unusable = rw unusable refl

pub reconcile_datastore_lem :
    (env : Env) (ctl : Controller) (key : Key) (runtime : Option Runtime) (h : History)
    → let h' = (reconcile_datastore env ctl key runtime h).1 in
      (transactions h' ≡ transactions h) ⊎ Transacted env key runtime h h'
reconcile_datastore_lem env ctl key none h = inl (
    unfold reconcile_datastore in
    report_not_ready-transactions env key "TargetRuntimeNotReady" (runtime_message ctl none) h)
reconcile_datastore_lem env ctl key (some rt) h = elim (Bool-cases (get_datastore env (rt, h))) [
  | inl usable ↦ inr (
    rt,
    h,
    refl,
    usable,
    refl,
    ap (λ (r : Requeue × History). transactions r.1) (datastore_used env ctl key rt h usable)
        ∙ after_transact-transactions env key (transact env key (handle_of env key rt) h).0
            (transact env key (handle_of env key rt) h).1,
  )
  | inr unusable ↦ inl (
      ap transactions (datastore_refused env ctl key rt h unusable)
      ∙ report_not_ready-transactions env key "TargetRuntimeNotReady"
          (runtime_message ctl (some (status rt))) h)
]
