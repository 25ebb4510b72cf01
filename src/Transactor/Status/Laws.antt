-- ===== src/Transactor/Status/Laws.antt =====
-- What the two status writes after a transaction leave behind
-- (pkg/sdc/target/manager/transactor.go).
use config_server.Prelude.{
  Bool, Bytes, Option, ap, arith, bytes_eq, differ, false, if◌then◌else◌, nat_eq, none, not, refl,
  some, string_eq, sym, true, ℕ, ◌==◌, ◌||◌, ◌∙◌, ◌≡◌,
}
use config_server.Condition.{Condition, condition_type_ready, equal, get_condition, is_true}
use config_server.Condition.Laws.{get_condition-set_condition}
use config_server.Config.{
  Config, Schema, condition_type_config_ready, config_failed, config_failed_unrecoverable,
  config_ready, is_config_condition_ready, is_recoverable, ready_from_applied, set_config_condition,
}
use config_server.Config.Laws.{is_recoverable_outcome, ready_from_applied_follows}
use config_server.Transactor.{Env}
use config_server.Transactor.Classify.{class_of, unchanged}
use config_server.Transactor.Status.{
  clear_deviation_generation, error_desired, set_deviation_generation, success_desired,
}

config_ready_after_ready :
    (c : Condition) (r : Config)
    → c.type ≡ condition_type_ready
    → get_condition condition_type_config_ready (set_config_condition c r).status.conditions
      ≡ get_condition condition_type_config_ready r.status.conditions
unfolding set_config_condition
config_ready_after_ready c r h =
    (get_condition-set_condition c r.status.conditions).1 condition_type_config_ready
      (λ e. differ condition_type_config_ready condition_type_ready refl (e ∙ h))

-- Ready is written last, from ConfigReady: it changes no other condition that the code reads.
ready_last :
    (now : ℕ) (o : Config)
    → let d = set_config_condition (ready_from_applied now o) o in
      (is_recoverable d ≡ is_recoverable o)
      × (is_config_condition_ready d ≡ is_config_condition_ready o)
      × (is_true (get_condition condition_type_ready d.status.conditions)
          ≡ is_config_condition_ready o)
unfolding is_recoverable is_config_condition_ready set_config_condition is_true equal
ready_last now o =
    let c = ready_from_applied now o in
    let ready = ready_from_applied_follows now o in
    let same = config_ready_after_ready c o ready.0 in
    let read = (get_condition-set_condition c o.status.conditions).0 in
    (ground (arith, same), ground (arith, same), ground (arith, read, ready.0, ready.1))

-- The object that is written after a failed transaction. Its ConfigReady blocks it exactly if the
-- failure is unrecoverable and the stamped generation is its own, it is not ready, and it keeps what
-- was applied before; deviationGeneration is 0 after an unrecoverable failure and absent otherwise.
pub error_desired_lem :
    (now g : ℕ) (msg : Bytes) (recoverable : Bool) (current : Config)
    → let d = error_desired now g msg recoverable current in
      (is_recoverable d ≡ (recoverable || not (g == current.generation)))
      × (is_config_condition_ready d ≡ false)
      × (is_true (get_condition condition_type_ready d.status.conditions) ≡ false)
      × (d.status.applied_config ≡ current.status.applied_config)
      × (d.status.last_known_good_schema ≡ current.status.last_known_good_schema)
      × (d.status.deviation_generation ≡ (if recoverable then none else some 0))
unfolding error_desired
error_desired_lem now g msg true current =
    let base = clear_deviation_generation current in
    let outcome = set_config_condition (config_failed now g msg) base in
    let facts = is_recoverable_outcome now g msg base in
    let last = ready_last now outcome in
    (
      last.0 ∙ facts.1,
      last.1 ∙ facts.4,
      last.2 ∙ facts.4,
      unfold set_config_condition clear_deviation_generation in refl,
      unfold set_config_condition clear_deviation_generation in refl,
      unfold set_config_condition clear_deviation_generation in refl,
    )
error_desired_lem now g msg false current =
    let base = clear_deviation_generation current in
    let failed = set_config_condition (config_failed_unrecoverable now g msg) base in
    let outcome = set_deviation_generation 0 failed in
    let facts = is_recoverable_outcome now g msg base in
    let last = ready_last now outcome in
    let blocked : is_recoverable outcome ≡ is_recoverable failed =
      unfold is_recoverable set_deviation_generation in refl in
    let unready : is_config_condition_ready outcome ≡ is_config_condition_ready failed =
      unfold is_config_condition_ready set_deviation_generation in refl in
    let kept : base.generation ≡ current.generation = unfold clear_deviation_generation in refl in
    (
      last.0 ∙ blocked ∙ facts.0 ∙ ap (λ (x : ℕ). not (g == x)) kept,
      last.1 ∙ unready ∙ facts.3,
      last.2 ∙ unready ∙ facts.3,
      unfold set_config_condition set_deviation_generation clear_deviation_generation in refl,
      unfold set_config_condition set_deviation_generation clear_deviation_generation in refl,
      unfold set_config_condition set_deviation_generation clear_deviation_generation in refl,
    )

class_of-unchanged :
    (env : Env) (c : Config)
    → is_recoverable c ≡ true
    → c.deletion_timestamp ≡ none
    → is_config_condition_ready c ≡ true
    → c.status.applied_config ≡ some c.spec
    → class_of env c ≡ unchanged
unfolding class_of
class_of-unchanged env c p q r s = ground arith

-- The object that is written after a confirmed transaction is ready and records the spec that was
-- applied and its schema.
pub success_desired_lem :
    (now : ℕ) (cfg : Config) (schema : Option Schema) (msg : Bytes) (current : Config)
    → let d = success_desired now cfg schema msg current in
      (is_config_condition_ready d ≡ true)
      × (is_true (get_condition condition_type_ready d.status.conditions) ≡ true)
      × (d.status.applied_config ≡ some cfg.spec)
      × (d.status.last_known_good_schema ≡ schema)
      × (d.status.deviation_generation ≡ none)
unfolding success_desired
success_desired_lem now cfg schema msg current =
    let outcome = set_config_condition (config_ready now cfg.generation msg) current in
    let facts = is_recoverable_outcome now cfg.generation msg current in
    let last = ready_last now outcome in
    let written = set_config_condition (ready_from_applied now outcome) outcome in
    let good : is_config_condition_ready (success_desired now cfg schema msg current)
        ≡ is_config_condition_ready written =
      unfold is_config_condition_ready in refl in
    (good ∙ last.1 ∙ facts.5, last.2 ∙ facts.5, refl, refl, refl)

-- After a confirmed transaction, if the config is not being deleted and its spec is still the one
-- that was applied, the next classification finds nothing to do for it.
pub class_of-success_desired :
    (env : Env) (now : ℕ) (cfg : Config) (schema : Option Schema) (msg : Bytes) (current : Config)
    → current.deletion_timestamp ≡ none
    → current.spec ≡ cfg.spec
    → class_of env (success_desired now cfg schema msg current) ≡ unchanged
class_of-success_desired env now cfg schema msg current live same =
    let d = success_desired now cfg schema msg current in
    let outcome = set_config_condition (config_ready now cfg.generation msg) current in
    let written = set_config_condition (ready_from_applied now outcome) outcome in
    let free : is_recoverable d ≡ is_recoverable written =
      unfold is_recoverable success_desired in refl in
    let facts = success_desired_lem now cfg schema msg current in
    class_of-unchanged env d
      (free
        ∙ (ready_last now outcome).0
        ∙ (is_recoverable_outcome now cfg.generation msg current).2)
      (unfold set_config_condition success_desired in live) facts.0
      (unfold set_config_condition success_desired in ap some (sym same))
