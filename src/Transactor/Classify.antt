-- ===== src/Transactor/Classify.antt =====
-- getConfigsToTransact of pkg/sdc/target/manager/transactor.go: which configs a transaction carries.
pub mod Laws
use config_server.Prelude.{
  Bool, List, String, [], bytes_eq, false, if◌then◌else◌, insert, nat_eq, none, not, not_empty,
  some, string_eq, true, ◌==◌, ◌||◌, ◌∷◌,
}
use config_server.Config.{Config, get_gvknsn, is_config_condition_ready, is_recoverable}
use config_server.Transactor.{Env}

pub data Class : Type 0 where
  unrecoverable deleting updating unchanged : Class

-- The maps of the function, by config key.
pub record Classes : Type 0 where
  pub to_update : List (String × Config)
  pub to_delete : List (String × Config)
  pub non_recoverable : List (String × Config)
  pub no_change : List (String × Config)

unfoldable pub is_deleting : Config → Bool
is_deleting cfg = elim cfg.deletion_timestamp [ none ↦ false | some t ↦ true ]

unfoldable pub same_spec : Env → Config → Bool
same_spec env cfg = elim cfg.status.applied_config [
  | none ↦ false
  | some applied ↦ env.sha_sum cfg.spec == env.sha_sum applied
]

-- The cases of the switch, in order.
unfoldable pub class_of : Env → Config → Class
unfolding is_deleting same_spec
class_of env cfg =
    if not (is_recoverable cfg)
    then unrecoverable
    else if is_deleting cfg
    then deleting
    else if not (is_config_condition_ready cfg)
    then updating
    else if same_spec env cfg
    then unchanged
    else updating

-- What a case does.
unfoldable pub file_as : Class → Config → Classes → Classes
file_as unrecoverable cfg s = record s {
  non_recoverable = insert (get_gvknsn cfg) cfg s.non_recoverable;
}
file_as deleting cfg s = record s { to_delete = insert (get_gvknsn cfg) cfg s.to_delete }
file_as updating cfg s = record s { to_update = insert (get_gvknsn cfg) cfg s.to_update }
file_as unchanged cfg s = record s { no_change = insert (get_gvknsn cfg) cfg s.no_change }

unfoldable pub classify : Env → List Config → Classes → Classes
unfolding class_of file_as
classify env [] s = s
classify env (cfg ∷ cfgs) s = classify env cfgs (file_as (class_of env cfg) cfg s)

-- The two loops that add configs once there is a change. The pair is (update, delete).
unfoldable pub add_all :
    List (String × Config)
    → List (String × Config) × List (String × Config)
    → List (String × Config) × List (String × Config)
unfolding is_deleting
add_all [] (u, d) = (u, d)
add_all ((key, cfg) ∷ m) (u, d) =
    add_all m (if is_deleting cfg then (u, insert key cfg d) else (insert key cfg u, d))

abbrev no_classes : Classes
no_classes = record { to_update = []; to_delete = []; non_recoverable = []; no_change = [] }

unfoldable pub get_configs_to_transact :
    Env → List Config → List (String × Config) × List (String × Config)
unfolding classify add_all
get_configs_to_transact env cfgs =
    let s = classify env cfgs no_classes in
    if not_empty s.to_update || not_empty s.to_delete
    then add_all (env.range_configs s.no_change)
        (add_all (env.range_configs s.non_recoverable) (s.to_update, s.to_delete))
    else (s.to_update, s.to_delete)
