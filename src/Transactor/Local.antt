-- ===== src/Transactor/Local.antt =====
-- Which functions of pkg/sdc/target/manager/transactor.go leave the dataserver alone.
use config_server.Prelude.{
  Bool, Bool-cases, Bytes, List, Option, Option-cases, String, [], inl, inr, ℕ, ◌∷◌,
}
use config_server.Config.{Config, Schema}
use config_server.Errors.{Error, Result, is_not_found}
use config_server.Transactor.{
  >>=-Adds, Adds, Call, Env, History, Key, M, Outcome, adds_target_finalizer, applies_status,
  attempt, attempt-Adds, closes_dataserver, confirms_transaction, creates_datastore,
  creates_deviation, deletes_datastore, deletes_deviation, dials_dataserver, gets_config,
  gets_datastore, gets_deviation, gets_target, lists_configs, marks_recovered, nothing, one_more,
  patches_finalizers, removes_target_finalizer, sets_transaction, starts_collector, waits, ◌>>=◌,
}
use config_server.Transactor.Deviations.{
  apply_deviation, apply_finalizer, create_deviation, delete_deviation, delete_finalizer,
  deleted_key, deviation_key, finalizer, patch_metadata,
}
use config_server.Transactor.Status.{
  apply_status, clear_deviation_generation, config_key, error_desired, get_config,
  list_configs_per_target, status_apply, status_changed, success_desired, update_config_with_error,
  update_config_with_success, update_configs_for_target, update_each, update_one, with_error,
}

-- A call that does not go to the dataserver, nor to the runtime.
abbrev pub Local : Call → Type 0
Local (gets_config k) = Unit {0}
Local (lists_configs k) = Unit {0}
Local (patches_finalizers k fs) = Unit {0}
Local (applies_status k s) = Unit {0}
Local (gets_deviation k) = Unit {0}
Local (creates_deviation k) = Unit {0}
Local (deletes_deviation k) = Unit {0}
Local (sets_transaction req) = ⊥
Local (confirms_transaction ds id) = ⊥
Local (marks_recovered b) = ⊥
Local (gets_target k) = Unit {0}
Local (gets_datastore n) = ⊥
Local (creates_datastore r) = ⊥
Local (deletes_datastore n) = ⊥
Local (starts_collector a) = ⊥
Local dials_dataserver = ⊥
Local closes_dataserver = ⊥
Local (waits ms) = ⊥
Local (adds_target_finalizer k) = Unit {0}
Local (removes_target_finalizer k) = Unit {0}

-- A computation whose calls are all local.
abbrev pub IsLocal : {A : Type 0} → M A → Type 0
IsLocal m = (h : History) → Adds Local h (m h).1

single : (c : Call) (h : History) → Local c → Adds Local h (c ∷ h)
single c h p = one_more c p nothing

pub >>=-IsLocal :
    {A B : Type 0} (m : M (Result A)) (f : A → M (Result B))
    → IsLocal m
    → ((a : A) → IsLocal (f a))
    → IsLocal (m >>= f)
>>=-IsLocal m f a b h = >>=-Adds m f h (a h) b

pub attempt-IsLocal :
    {A : Type 0} (requeue : Bool) (m : M (Result A)) (f : A → M Outcome)
    → IsLocal m
    → ((a : A) → IsLocal (f a))
    → IsLocal (attempt requeue m f)
attempt-IsLocal requeue m f a b h = attempt-Adds requeue m f h (a h) b

patch_metadata-IsLocal :
    (env : Env) (cfg : Config) (fs : List String) → IsLocal (patch_metadata env cfg fs)
unfolding patch_metadata
patch_metadata-IsLocal env cfg fs h = one_more (patches_finalizers (config_key cfg) fs) tt nothing

pub apply_finalizer-IsLocal : (env : Env) (cfg : Config) → IsLocal (apply_finalizer env cfg)
unfolding apply_finalizer
apply_finalizer-IsLocal env cfg = patch_metadata-IsLocal env cfg (finalizer ∷ [])

pub delete_finalizer-IsLocal : (env : Env) (cfg : Config) → IsLocal (delete_finalizer env cfg)
unfolding delete_finalizer
delete_finalizer-IsLocal env cfg = patch_metadata-IsLocal env cfg []

pub apply_deviation-IsLocal : (env : Env) (cfg : Config) → IsLocal (apply_deviation env cfg)
unfolding apply_deviation create_deviation
apply_deviation-IsLocal env cfg h =
    let key = deviation_key cfg in
    let read = single (gets_deviation key) h tt in
    elim (Option-cases (env.get_deviation h key)) [
      | inl found ↦ rw (found, apply_deviation) read
      | inr (e, failed) ↦ elim (Bool-cases (is_not_found e)) [
        | inl missing ↦
            rw (failed, apply_deviation, missing) (one_more (creates_deviation key) tt read)
        | inr other ↦ rw (failed, apply_deviation, other) read
      ]
    ]

pub delete_deviation-IsLocal : (env : Env) (cfg : Config) → IsLocal (delete_deviation env cfg)
unfolding delete_deviation
delete_deviation-IsLocal env cfg h =
    let key = deleted_key cfg in
    let deleted = single (deletes_deviation key) h tt in
    elim (Option-cases (env.delete_deviation h key)) [
      | inl found ↦ rw (found, delete_deviation) deleted
      | inr (e, failed) ↦ rw (failed, delete_deviation) deleted
    ]

pub list_configs_per_target-IsLocal :
    (env : Env) (target : Key) → IsLocal (list_configs_per_target env target)
unfolding list_configs_per_target
list_configs_per_target-IsLocal env target h = one_more (lists_configs target) tt nothing

apply_status-IsLocal :
    (env : Env) (current desired : Config) → IsLocal (apply_status env current desired)
unfolding apply_status
apply_status-IsLocal env current desired h =
    elim (Bool-cases (status_changed current.status desired.status)) [
      | inl changed ↦ rw changed (
          one_more
            (applies_status (config_key desired) (status_apply current.status desired.status)) tt
            nothing)
      | inr same ↦ rw same nothing
    ]

get_config-IsLocal : (env : Env) (key : Key) → IsLocal (get_config env key)
unfolding get_config
get_config-IsLocal env key h = one_more (gets_config key) tt nothing

pub update_config_with_error-IsLocal :
    (env : Env) (cfg : Config) (msg : Bytes) (e : Option Error) (recoverable : Bool)
    → IsLocal (update_config_with_error env cfg msg e recoverable)
unfolding update_config_with_error
update_config_with_error-IsLocal env cfg msg e recoverable =
    >>=-IsLocal (get_config env (config_key cfg)) _ (get_config-IsLocal env (config_key cfg))
      λ current h. elim (Option-cases current.deletion_timestamp) [
        | inl alive ↦ rw alive (
            apply_status-IsLocal env current
              (error_desired (env.now h) cfg.generation (with_error msg e) recoverable current) h)
        | inr (t, going) ↦ rw going nothing
      ]

pub update_config_with_success-IsLocal :
    (env : Env) (cfg : Config) (schema : Option Schema) (msg : Bytes)
    → IsLocal (update_config_with_success env cfg schema msg)
unfolding update_config_with_success
update_config_with_success-IsLocal env cfg schema msg =
    >>=-IsLocal (get_config env (config_key cfg)) _ (get_config-IsLocal env (config_key cfg))
      λ current h. elim (Option-cases current.deletion_timestamp) [
        | inl alive ↦ rw alive (
            apply_status-IsLocal env current (success_desired (env.now h) cfg schema msg current) h)
        | inr (t, going) ↦ rw going nothing
      ]

update_one-IsLocal :
    (env : Env) (mutate : ℕ → Config → Option Config) (current : Config)
    → IsLocal (update_one env mutate current)
unfolding update_one
update_one-IsLocal env mutate current h =
    elim (Option-cases (mutate (env.now h) (clear_deviation_generation current))) [
      | inl left ↦ rw (left, update_one) nothing
      | inr (desired, found) ↦ rw (found, update_one) (apply_status-IsLocal env current desired h)
    ]

update_each-IsLocal :
    (env : Env) (mutate : ℕ → Config → Option Config) (cfgs : List Config)
    → IsLocal (update_each env mutate cfgs)
unfolding update_each
update_each-IsLocal env mutate [] = λ h. nothing
update_each-IsLocal env mutate (current ∷ cfgs) =
    >>=-IsLocal (update_one env mutate current) _ (update_one-IsLocal env mutate current)
      (λ _. update_each-IsLocal env mutate cfgs)

pub update_configs_for_target-IsLocal :
    (env : Env) (target : Key) (mutate : ℕ → Config → Option Config)
    → IsLocal (update_configs_for_target env target mutate)
unfolding update_configs_for_target
update_configs_for_target-IsLocal env target mutate =
    >>=-IsLocal _ _ (list_configs_per_target-IsLocal env target)
      (λ cfgs. update_each-IsLocal env mutate cfgs)
