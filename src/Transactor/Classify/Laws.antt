-- ===== src/Transactor/Classify/Laws.antt =====
-- A transaction carries every config of the target, or none.
use config_server.Prelude.{
  All, Bool, List, Option, String, [], bytes_eq, false, if◌then◌else◌, lookup, nat_eq, none,
  not_empty, some, string_eq, true, ◌==◌, ◌||◌, ◌∷◌, ◌≡◌, ◌≢◌,
}
use config_server.Config.{Config, get_gvknsn}
use config_server.Transactor.{Env}
use config_server.Transactor.Classify.{
  Class, Classes, class_of, deleting, is_deleting, unchanged, unrecoverable, updating,
}

-- The config with a key.
pub find_config : String → List Config → Option Config
find_config k [] = none
find_config k (c ∷ cs) = if get_gvknsn c == k then some c else find_config k cs

-- No two configs have one key.
abbrev pub Distinct : List Config → Type 0
Distinct [] = Unit {0}
Distinct (c ∷ cs) = All (λ d. get_gvknsn d ≢ get_gvknsn c) cs × Distinct cs

-- No two entries of a map have one key.
abbrev pub DistinctKeys : List (String × Config) → Type 0
DistinctKeys [] = Unit {0}
DistinctKeys ((k, c) ∷ m) = (lookup k m ≡ none) × DistinctKeys m

-- Go ranges over every entry of a map once, in some order.
abbrev pub RangesOnce : Env → Type 0
RangesOnce env =
    (m : List (String × Config))
    → DistinctKeys m
    → DistinctKeys (env.range_configs m)
      × ((k : String) → lookup k (env.range_configs m) ≡ lookup k m)

-- Which configs a map of `Classes` holds.
abbrev held : Class → Classes → List (String × Config)
held unrecoverable s = s.non_recoverable
held deleting s = s.to_delete
held updating s = s.to_update
held unchanged s = s.no_change

abbrev is_class : Class → Class → Bool
is_class unrecoverable unrecoverable = true
is_class deleting deleting = true
is_class updating updating = true
is_class unchanged unchanged = true
is_class _ _ = false

-- What a map answers for a key: the config of that key, if it is of the map's class.
abbrev answer : Env → Class → Option Config → Option Config → Option Config
answer env q none before = before
answer env q (some c) before = if is_class q (class_of env c) then some c else before

-- The config has to be transacted for its own sake: it is to be updated or deleted.
unfoldable pub is_change : Env → Config → Bool
is_change env c = elim (class_of env c) [ deleting ↦ true | updating ↦ true | _ ↦ false ]

unfoldable pub any_change : Env → List Config → Bool
any_change env [] = false
any_change env (c ∷ cs) = is_change env c || any_change env cs

abbrev has_change : Classes → Bool
has_change s = not_empty s.to_update || not_empty s.to_delete

-- What the maps answer after one more map was added.
abbrev added : Bool → Option Config → Option Config → Option Config
added want none before = before
added want (some c) before =
    if is_deleting c then if want then some c else before else if want then before else some c

-- What a transaction carries under a key: an update of a config that stays, a delete of one that is
-- being deleted.
abbrev pub carried : Bool → Option Config → Option Config
carried want none = none
carried want (some c) =
    if is_deleting c then if want then some c else none else if want then none else some c
