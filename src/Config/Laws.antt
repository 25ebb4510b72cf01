-- ===== src/Config/Laws.antt =====
-- What the conditions of a Config (apis/config/v1alpha1/condition.go and config_helpers.go) decide.
use config_server.Prelude.{
  Bytes, List, String, [], arith, bytes_eq, differ, false, nat_eq, not, refl, string_eq, true, ℕ,
  ◌==◌, ◌∷◌, ◌≡◌, ◌⊎◌,
}
use config_server.Condition.{
  Condition, condition_false, condition_true, condition_type_ready, equal, get_condition,
  has_condition, is_true, new_condition, reason_failed, reason_ready, reason_unrecoverable,
  set_condition,
}
use config_server.Condition.Laws.{get_condition-set_condition}
use config_server.Config.{
  Config, condition_type_config_ready, config_condition, config_failed, config_failed_unrecoverable,
  config_ready, is_config_condition_ready, is_recoverable, ready_from_applied, reason_pending,
  set_config_condition,
}

equal_fields :
    (c d : Condition)
    → equal c d ≡ true
    → (c.type ≡ d.type)
      × (c.status ≡ d.status)
      × (c.reason ≡ d.reason)
      × (c.message ≡ d.message)
      × (c.observed_generation ≡ d.observed_generation)
unfolding equal
equal_fields c d h = ground arith

-- The ConfigReady condition that was set is read back, but for its transition time.
set_config_condition_read :
    (c : Condition) (r : Config)
    → c.type ≡ condition_type_config_ready
    → let d =
        get_condition condition_type_config_ready (set_config_condition c r).status.conditions in
      (d.status ≡ c.status)
      × (d.reason ≡ c.reason)
      × (d.message ≡ c.message)
      × (d.observed_generation ≡ c.observed_generation)
unfolding set_config_condition
set_config_condition_read c r h =
    let e = get_condition-set_condition c r.status.conditions in
    let f = equal_fields (get_condition c.type (set_condition c r.status.conditions)) c e.0 in
    rw (← h) (f.1, f.2, f.3, f.4)

-- An unrecoverable failure of generation `g` blocks the config exactly as long as its generation
-- is `g`; a recoverable failure and a success never block it; and only the success is ready.
pub is_recoverable_outcome :
    (now g : ℕ) (msg : Bytes) (r : Config)
    → (is_recoverable (set_config_condition (config_failed_unrecoverable now g msg) r)
        ≡ not (g == r.generation))
      × (is_recoverable (set_config_condition (config_failed now g msg) r) ≡ true)
      × (is_recoverable (set_config_condition (config_ready now g msg) r) ≡ true)
      × (is_config_condition_ready (set_config_condition (config_failed_unrecoverable now g msg) r)
          ≡ false)
      × (is_config_condition_ready (set_config_condition (config_failed now g msg) r) ≡ false)
      × (is_config_condition_ready (set_config_condition (config_ready now g msg) r) ≡ true)
unfolding is_recoverable is_config_condition_ready is_true config_failed_unrecoverable config_failed
    config_ready config_condition new_condition set_config_condition
is_recoverable_outcome now g msg r = (
  ground (arith, set_config_condition_read (config_failed_unrecoverable now g msg) r refl),
  ground (
    arith,
    set_config_condition_read (config_failed now g msg) r refl,
    differ reason_failed reason_unrecoverable refl,
  ),
  ground (
    arith,
    set_config_condition_read (config_ready now g msg) r refl,
    differ reason_ready reason_unrecoverable refl,
  ),
  ground (
    arith,
    set_config_condition_read (config_failed_unrecoverable now g msg) r refl,
    differ condition_false condition_true refl,
  ),
  ground (
    arith,
    set_config_condition_read (config_failed now g msg) r refl,
    differ condition_false condition_true refl,
  ),
  ground (arith, set_config_condition_read (config_ready now g msg) r refl),
)

get_condition_absent :
    (t : String) (cs : List Condition)
    → has_condition t cs ≡ false
    → is_true (get_condition t cs) ≡ false
unfolding get_condition has_condition is_true
get_condition_absent t [] h = ground (arith, differ condition_false condition_true refl)
get_condition_absent t (c ∷ cs) h = ground (arith, get_condition_absent t cs)

-- Ready follows ConfigReady: it is True exactly if ConfigReady is, and when ConfigReady is there and
-- False, Ready gives its reason; with no ConfigReady, the config is Pending.
pub ready_from_applied_follows :
    (now : ℕ) (r : Config)
    → let ready = ready_from_applied now r in
      let outcome = get_condition condition_type_config_ready r.status.conditions in
      let applied = has_condition condition_type_config_ready r.status.conditions in
      (ready.type ≡ condition_type_ready)
      × (is_true ready ≡ is_config_condition_ready r)
      × ((applied ≡ true) ⊎ (ready.reason ≡ reason_pending))
      × ((applied ≡ false) ⊎ (is_true ready ≡ true) ⊎ (ready.reason ≡ outcome.reason))
unfolding ready_from_applied is_config_condition_ready is_true
ready_from_applied_follows now r =
    let absent = get_condition_absent condition_type_config_ready r.status.conditions in
    (
      ground arith,
      ground (arith, absent, differ condition_false condition_true refl),
      ground arith,
      ground arith,
    )
