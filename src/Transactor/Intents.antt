-- ===== src/Transactor/Intents.antt =====
-- The intents of a transaction: GetIntentUpdate of apis/config/target_helpers.go, and setIntents of
-- pkg/sdc/target/manager/transactor.go.
pub mod Laws
use config_server.Prelude.{Bool, List, Option, String, [], false, none, not, some, true, ◌++◌, ◌∷◌}
use config_server.Config.{Config, ConfigBlob, get_gvknsn, is_revertive, orphan}
use config_server.Errors.{Error, Result, err, ok}
use config_server.Transactor.{
  Env, Intent, Key, M, SetRequest, SetResponse, Update, sets_transaction,
}

-- The loop of GetIntentUpdate.
unfoldable pub updates_of : Env → List ConfigBlob → Result (List Update)
updates_of env [] = ok []
updates_of env (blob ∷ blobs) = elim (env.parse_path blob.path) [
  | err e ↦ err e
  | ok path ↦ elim (updates_of env blobs) [
    | err e ↦ err e
    | ok rest ↦ ok (record { path = path; value = blob.value } ∷ rest)
  ]
]

-- The blobs to send: those of the applied config when recovering, if there is one.
unfoldable pub blobs_of : Config → Bool → List ConfigBlob
blobs_of cfg true = cfg.spec.config
blobs_of cfg false = elim cfg.status.applied_config [
  | none ↦ cfg.spec.config
  | some applied ↦ applied.config
]

unfoldable pub get_intent_update : Env → Config → Bool → Result (List Update)
unfolding updates_of blobs_of
get_intent_update env cfg use_spec = updates_of env (blobs_of cfg use_spec)

unfoldable pub update_intent : Env → Config → List Update → Intent
update_intent env cfg update = record {
  intent = get_gvknsn cfg;
  priority = cfg.spec.priority;
  update = update;
  delete_intent = false;
  delete_ignore_no_exist = false;
  orphan_intent = false;
  non_revertive = not (is_revertive env.revertive cfg);
  previously_applied = false;
  revert_paths = [];
}

unfoldable pub delete_intent_of : Config → Intent
delete_intent_of cfg = record {
  intent = get_gvknsn cfg;
  priority = 0;
  update = [];
  delete_intent = true;
  delete_ignore_no_exist = true;
  orphan_intent = orphan cfg;
  non_revertive = false;
  previously_applied = false;
  revert_paths = [];
}

-- The first loop of setIntents; a path that does not parse ends it.
unfoldable pub update_intents : Env → List (String × Config) → Result (List Intent)
unfolding get_intent_update update_intent
update_intents env [] = ok []
update_intents env ((key, cfg) ∷ m) = elim (get_intent_update env cfg true) [
  | err e ↦ err e
  | ok update ↦ elim (update_intents env m) [
    | err e ↦ err e
    | ok rest ↦ ok (update_intent env cfg update ∷ rest)
  ]
]

-- The second.
unfoldable pub delete_intents : List (String × Config) → List Intent
unfolding delete_intent_of
delete_intents [] = []
delete_intents ((key, cfg) ∷ m) = delete_intent_of cfg ∷ delete_intents m

-- The TransactionSet call of the dataserver.
abbrev pub send_set : Env → SetRequest → M (Option SetResponse × Option Error)
send_set env req h = (env.transaction_set h req, sets_transaction req ∷ h)

unfoldable pub set_request :
    Env → Key → String → Bool → List Intent → List (String × Config) → SetRequest
unfolding delete_intents
set_request env target transaction_id dry_run updates to_delete = record {
  transaction_id = transaction_id;
  datastore_name = env.key_string target;
  dry_run = dry_run;
  timeout = 60;
  intents = updates ++ delete_intents (env.range_configs to_delete);
}

-- Transactor.setIntents.
unfoldable pub set_intents :
    Env
    → Key
    → String
    → List (String × Config)
    → List (String × Config)
    → Bool
    → M (Option SetResponse × Option Error)
unfolding update_intents set_request
set_intents env target transaction_id to_update to_delete dry_run =
    elim (update_intents env (env.range_configs to_update)) [
      | err e ↦ λ h. ((none, some e), h)
      | ok updates ↦ send_set env (set_request env target transaction_id dry_run updates to_delete)
    ]

-- The intents of recoverIntents: the applied config, marked as applied before.
unfoldable pub recovery_intents : Env → List Config → Result (List Intent)
unfolding get_intent_update update_intent
recovery_intents env [] = ok []
recovery_intents env (cfg ∷ cfgs) = elim (get_intent_update env cfg false) [
  | err e ↦ err e
  | ok update ↦ elim (recovery_intents env cfgs) [
    | err e ↦ err e
    | ok rest ↦ ok (record (update_intent env cfg update) { previously_applied = true } ∷ rest)
  ]
]
