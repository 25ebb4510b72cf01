-- ===== src/Transactor/Status/Apply.antt =====
-- applyStatus of pkg/sdc/target/manager/transactor.go: when it writes, and what it sends.
use config_server.Prelude.{
  Bool, List, Option, String, [], arith, bytes_eq, false, if◌then◌else◌, map, nat_eq, none, not,
  refl, some, string_eq, true, ◌&&◌, ◌==◌, ◌||◌, ◌∙◌, ◌∷◌, ◌≡◌, ◌≢◌, ◌⊎◌,
}
use config_server.Condition.{Condition, condition_type_ready, equal, get_condition, has_condition}
use config_server.Condition.Laws.{equal_self}
use config_server.Config.{
  Config, ConfigBlob, ConfigSpec, ConfigStatus, Schema, condition_type_config_ready, option_nat_eq,
  option_schema_eq, option_spec_eq,
}
use config_server.Errors.{ok}
use config_server.Transactor.{BlobApply, Env, History, SchemaApply, SpecApply}
use config_server.Transactor.Status.{
  apply_status, config_blob_to_apply, config_spec_to_apply, has_legacy, keep_transition_time,
  legacy_config_condition_types, owned_conditions, owned_types, schema_to_apply, set_text,
  status_apply,
}

-- The apply configurations read back as the values they were made from.
from_text : Option String → String
from_text none = ""
from_text (some s) = s

from_blob : BlobApply → ConfigBlob
from_blob b = record { path = from_text b.path; value = b.value }

pub from_schema_apply : SchemaApply → Schema
unfolding from_text
from_schema_apply a = record {
  type = from_text a.type;
  vendor = from_text a.vendor;
  version = from_text a.version;
}

pub from_spec_apply : SpecApply → ConfigSpec
unfolding from_text from_blob
from_spec_apply a = record {
  priority = a.priority;
  revertive = a.revertive;
  lifecycle = a.lifecycle;
  config = map from_blob a.config;
}

from_text-set_text : (s : String) → from_text (set_text s) ≡ s
unfolding from_text set_text
from_text-set_text s = ground arith

from_blob-config_blob_to_apply : (b : ConfigBlob) → from_blob (config_blob_to_apply b) ≡ b
unfolding from_blob config_blob_to_apply
from_blob-config_blob_to_apply b = ground (arith, from_text-set_text b.path)

map-blobs : (bs : List ConfigBlob) → map from_blob (map config_blob_to_apply bs) ≡ bs
map-blobs [] = refl
map-blobs (b ∷ bs) = cc (from_blob-config_blob_to_apply b, map-blobs bs)

-- The schema and the spec that are sent are those of the status, with nothing lost.
pub apply_configurations_roundtrip :
    (schema : Schema) (spec : ConfigSpec)
    → (from_schema_apply (schema_to_apply schema) ≡ schema)
      × (from_spec_apply (config_spec_to_apply spec) ≡ spec)
unfolding from_schema_apply from_spec_apply schema_to_apply config_spec_to_apply
apply_configurations_roundtrip schema spec = (
  ground (
    arith,
    from_text-set_text schema.type,
    from_text-set_text schema.vendor,
    from_text-set_text schema.version,
  ),
  ground (arith, map-blobs spec.config),
)

owned_conditions_same :
    (ts : List String) (cs : List Condition) → (owned_conditions ts cs cs).1 ≡ false
unfolding owned_conditions
owned_conditions_same [] cs = refl
owned_conditions_same (t ∷ ts) cs =
    ground (arith, owned_conditions_same ts cs, equal_self (get_condition t cs))

-- A status that is there already is not written again, unless a legacy condition is to be removed.
pub apply_status_idle :
    (env : Env) (cfg : Config) (h : History)
    → has_legacy legacy_config_condition_types cfg.status.conditions ≡ false
    → apply_status env cfg cfg h ≡ (ok tt, h)
unfolding apply_status
apply_status_idle env cfg h legacy =
    ground (arith, owned_conditions_same owned_types cfg.status.conditions)

get_condition_type : (t : String) (cs : List Condition) → (get_condition t cs).type ≡ t
unfolding get_condition
get_condition_type t [] = refl
get_condition_type t (c ∷ cs) = ground (arith, get_condition_type t cs)

keep_transition_time_lem :
    (new old : Condition)
    → (equal (keep_transition_time new old) new ≡ true)
      × ((keep_transition_time new old).type ≡ new.type)
      × (old.status ≡ new.status
          → old.last_transition_time ≢ 0
          → (keep_transition_time new old).last_transition_time ≡ old.last_transition_time)
      × (old.status ≢ new.status
          → (keep_transition_time new old).last_transition_time ≡ new.last_transition_time)
unfolding keep_transition_time equal
keep_transition_time_lem new old = (ground arith, ground arith, ground arith, ground arith)

abbrev occurs : String → List String → Bool
occurs t [] = false
occurs t (u ∷ us) = u == t || occurs t us

get_condition-owned_conditions :
    (t : String) (ts : List String) (current desired : List Condition)
    → occurs t ts ≡ true
    → has_condition t desired ≡ true
    → get_condition t (owned_conditions ts current desired).0
      ≡ keep_transition_time (get_condition t desired) (get_condition t current)
unfolding owned_conditions get_condition
get_condition-owned_conditions t [] current desired o h = cc
get_condition-owned_conditions t (u ∷ us) current desired o h =
    let new = get_condition u desired in
    let old = get_condition u current in
    let kept : (keep_transition_time new old).type ≡ u =
      (keep_transition_time_lem new old).1 ∙ get_condition_type u desired in
    ground (arith, kept, get_condition-owned_conditions t us current desired)

-- What is sent for the two owned conditions: the wanted condition, with the transition time of the
-- one that is there if the status stays, and its own if the status flips.
pub status_apply_conditions :
    (t : String) (current desired : ConfigStatus)
    → (t ≡ condition_type_ready) ⊎ (t ≡ condition_type_config_ready)
    → has_condition t desired.conditions ≡ true
    → let sent = get_condition t (status_apply current desired).conditions in
      let new = get_condition t desired.conditions in
      let old = get_condition t current.conditions in
      (equal sent new ≡ true)
      × (sent.last_transition_time ≡ (
          if old.status == new.status && not (old.last_transition_time == 0)
          then old.last_transition_time
          else new.last_transition_time))
unfolding status_apply
status_apply_conditions t current desired which h =
    let owned : occurs t owned_types ≡ true = ground (arith, which) in
    let sent =
      get_condition-owned_conditions t owned_types current.conditions desired.conditions owned h in
    let kept =
      keep_transition_time_lem (get_condition t desired.conditions)
        (get_condition t current.conditions) in
    rw sent (kept.0, ground (arith, kept.2, kept.3))
