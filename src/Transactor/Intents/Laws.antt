-- ===== src/Transactor/Intents/Laws.antt =====
-- What the intents of a transaction say of the configs (pkg/sdc/target/manager/transactor.go).
use config_server.Prelude.{
  Bool, List, Option-cases, String, [], arith, false, inl, inr, none, not, refl, some, true, ◌++◌,
  ◌∷◌, ◌≡◌, ◌⊎◌,
}
use config_server.Config.{Config, ConfigBlob, ConfigSpec, get_gvknsn, is_revertive, orphan}
use config_server.Errors.{Error, Result-cases, err, ok}
use config_server.Transactor.{Env, History, Intent, Key, SetRequest, Update}
use config_server.Transactor.Intents.{
  blobs_of, delete_intents, get_intent_update, recovery_intents, send_set, set_intents, set_request,
  update_intents, updates_of,
}

-- The intents stand for the configs, one for one and in order; and so updates for blobs.
abbrev pub Match : {A B : Type 0} → (A → B → Type 0) → List A → List B → Type 0
Match P [] [] = Unit {0}
Match P [] (b ∷ bs) = ⊥
Match P (a ∷ xs) [] = ⊥
Match P (a ∷ xs) (b ∷ bs) = P a b × Match P xs bs

-- An update carries a blob: its parsed path, and its value.
abbrev pub Carries : Env → ConfigBlob → Update → Type 0
Carries env blob u = (env.parse_path blob.path ≡ ok u.path) × (u.value ≡ blob.value)

-- An intent updates the config to its spec.
abbrev pub Updates : Env → Config → Intent → Type 0
Updates env cfg i =
    (i.intent ≡ get_gvknsn cfg)
    × (i.priority ≡ cfg.spec.priority)
    × (i.delete_intent ≡ false)
    × Match (Carries env) cfg.spec.config i.update
    × (i.non_revertive ≡ not (is_revertive env.revertive cfg))

-- The blobs that were applied, or those of the spec if nothing was.
abbrev pub CarriesApplied : Env → Config → List Update → Type 0
CarriesApplied env cfg us =
    ((spec : ConfigSpec) × (cfg.status.applied_config ≡ some spec)
      × Match (Carries env) spec.config us)
    ⊎ ((cfg.status.applied_config ≡ none) × Match (Carries env) cfg.spec.config us)

-- An intent replays what was applied, if anything was.
abbrev pub ReplaysConfig : Env → Config → Intent → Type 0
ReplaysConfig env cfg i =
    (i.intent ≡ get_gvknsn cfg)
    × (i.priority ≡ cfg.spec.priority)
    × (i.delete_intent ≡ false)
    × CarriesApplied env cfg i.update
    × (i.non_revertive ≡ not (is_revertive env.revertive cfg))
    × (i.previously_applied ≡ true)

-- A path of the blobs does not parse.
abbrev pub Unparsed : Env → List ConfigBlob → Error → Type 0
Unparsed env [] e = ⊥
Unparsed env (blob ∷ blobs) e = (env.parse_path blob.path ≡ err e) ⊎ Unparsed env blobs e

-- A path in the spec of one of the configs does not parse.
abbrev pub SpecUnparsed : Env → List (String × Config) → Error → Type 0
SpecUnparsed env [] e = ⊥
SpecUnparsed env ((key, cfg) ∷ m) e = Unparsed env cfg.spec.config e ⊎ SpecUnparsed env m e

-- An intent deletes the config.
abbrev pub Deletes : Config → Intent → Type 0
Deletes cfg i =
    (i.intent ≡ get_gvknsn cfg)
    × (i.delete_intent ≡ true)
    × (i.delete_ignore_no_exist ≡ true)
    × (i.orphan_intent ≡ orphan cfg)
    × (i.update ≡ [])

updates_of-Match :
    (env : Env) (blobs : List ConfigBlob) (us : List Update)
    → updates_of env blobs ≡ ok us
    → Match (Carries env) blobs us
unfolding updates_of
updates_of-Match env [] [] h = tt
updates_of-Match env [] (u ∷ us) h = cc
updates_of-Match env (b ∷ bs) [] h = ground arith
updates_of-Match env (b ∷ bs) (u ∷ us) h = ground (arith, updates_of-Match env bs us)

updates_of-Unparsed :
    (env : Env) (blobs : List ConfigBlob) (e : Error)
    → updates_of env blobs ≡ err e
    → Unparsed env blobs e
unfolding updates_of
updates_of-Unparsed env [] e h = cc
updates_of-Unparsed env (b ∷ bs) e h = ground (arith, updates_of-Unparsed env bs e)

get_intent_update_wanted :
    (env : Env) (cfg : Config) (us : List Update)
    → get_intent_update env cfg true ≡ ok us
    → Match (Carries env) cfg.spec.config us
unfolding get_intent_update blobs_of
get_intent_update_wanted env cfg us h = updates_of-Match env cfg.spec.config us h

get_intent_update_applied :
    (env : Env) (cfg : Config) (us : List Update)
    → get_intent_update env cfg false ≡ ok us
    → CarriesApplied env cfg us
unfolding get_intent_update blobs_of
get_intent_update_applied env cfg us h = elim (Option-cases cfg.status.applied_config) [
  | inl absent ↦ inr (absent, updates_of-Match env cfg.spec.config us (ground (arith, h, absent)))
  | inr (spec, found) ↦
      inl (spec, found, updates_of-Match env spec.config us (ground (arith, h, found)))
]

get_intent_update-Unparsed :
    (env : Env) (cfg : Config) (e : Error)
    → get_intent_update env cfg true ≡ err e
    → Unparsed env cfg.spec.config e
unfolding get_intent_update blobs_of
get_intent_update-Unparsed env cfg e h = updates_of-Unparsed env cfg.spec.config e h

update_intents-SpecUnparsed :
    (env : Env) (m : List (String × Config)) (e : Error)
    → update_intents env m ≡ err e
    → SpecUnparsed env m e
unfolding update_intents
update_intents-SpecUnparsed env [] e h = cc
update_intents-SpecUnparsed env ((k, c) ∷ m) e h =
    ground (arith, get_intent_update-Unparsed env c e, update_intents-SpecUnparsed env m e)

update_intents-Match :
    (env : Env) (m : List (String × Config)) (is : List Intent)
    → update_intents env m ≡ ok is
    → Match (λ entry i. Updates env entry.1 i) m is
unfolding update_intents
update_intents-Match env [] [] h = tt
update_intents-Match env [] (i ∷ is) h = cc
update_intents-Match env ((k, c) ∷ m) [] h = ground arith
update_intents-Match env ((k, c) ∷ m) (i ∷ is) h =
    ground (arith, get_intent_update_wanted env c i.update, update_intents-Match env m is)

delete_intents-Match :
    (m : List (String × Config)) → Match (λ entry i. Deletes entry.1 i) m (delete_intents m)
unfolding delete_intents
delete_intents-Match [] = tt
delete_intents-Match ((k, c) ∷ m) = ((refl, refl, refl, refl, refl), delete_intents-Match m)

-- The intents of a recovery stand for the configs, one for one and in order: each carries the paths
-- and values that were applied, or those of the spec if nothing was, as an update that was applied
-- before.
pub recovery_intents-Match :
    (env : Env) (cfgs : List Config) (is : List Intent)
    → recovery_intents env cfgs ≡ ok is
    → Match (ReplaysConfig env) cfgs is
unfolding recovery_intents
recovery_intents-Match env [] [] h = tt
recovery_intents-Match env [] (i ∷ is) h = cc
recovery_intents-Match env (c ∷ cfgs) [] h = ground arith
recovery_intents-Match env (c ∷ cfgs) (i ∷ is) h =
    ground (arith, get_intent_update_applied env c i.update, recovery_intents-Match env cfgs is)

-- setIntents either meets a path of a spec that does not parse, and then sends nothing; or it sends one
-- request, whose intents carry, for each config to update, the parsed paths and the values of its spec,
-- and for each config to delete, its removal, in the order in which the maps are ranged over.
pub set_intents_lem :
    (env : Env) (target : Key) (id : String) (to_update to_delete : List (String × Config))
    (dry_run : Bool) (h : History)
    → ((e : Error) × SpecUnparsed env (env.range_configs to_update) e
        × (set_intents env target id to_update to_delete dry_run h ≡ ((none, some e), h)))
      ⊎ ((req : SetRequest) × (us : List Intent) × (ds : List Intent) × (set_intents env target id
              to_update to_delete dry_run h
            ≡ send_set env req h)
          × (req.intents ≡ us ++ ds)
          × (req.transaction_id ≡ id)
          × (req.datastore_name ≡ env.key_string target)
          × (req.dry_run ≡ dry_run)
          × Match (λ entry i. Updates env entry.1 i) (env.range_configs to_update) us
          × Match (λ entry i. Deletes entry.1 i) (env.range_configs to_delete) ds)
unfolding set_intents set_request
set_intents_lem env target id to_update to_delete dry_run h =
    let m = env.range_configs to_update in
    let ds = delete_intents (env.range_configs to_delete) in
    elim (Result-cases (update_intents env m)) [
      | inr (e, failed) ↦
          inl (e, update_intents-SpecUnparsed env m e failed, rw (failed, set_intents))
      | inl (us, parsed) ↦ inr (
        set_request env target id dry_run us to_delete,
        us,
        ds,
        rw (parsed, set_intents),
        refl,
        refl,
        refl,
        refl,
        update_intents-Match env m us parsed,
        delete_intents-Match (env.range_configs to_delete),
      )
    ]
