-- ===== src/ClearDeviation/Laws.antt =====
-- What Target.ClearDeviations of apis/config/target_helpers.go sends: all or nothing.
use config_server.Prelude.{
  Bool, Bool-cases, Bytes, List, Option, String, [], arith, false, inl, inr, none, not_empty, refl,
  some, true, ◌∷◌, ◌≡◌, ◌⊎◌,
}
use config_server.ClearDeviation.{
  ClearConfig, Entry, accepted, add_entry, check_config, check_entries, check_entry, clear_intent,
  clear_request, parse_paths, rejected, resolve_clear_deviation_config,
}
use config_server.ClearDeviation.Request.{clear_configs, clear_deviations}
use config_server.ClearDeviation.Retry.{execute_clear_deviation_tx}
use config_server.Config.{Config, get_gvknsn, is_revertive}
use config_server.Errors.{Result, Result-cases, err, ok}
use config_server.Transactor.{Env, History, Intent, Key, SetRequest}
use config_server.Transactor.Intents.{get_intent_update}
use config_server.Transactor.Intents.Laws.{Match}

-- The intent of an entry that was accepted: for the config that it names, which is not revertive,
-- with every path of the entry to revert and the config's own spec to keep.
abbrev pub Clears : Env → String → List (String × Config) → ClearConfig → Intent → Type 0
Clears env target configs entry i =
    (cfg : Config) × (resolve_clear_deviation_config env entry.name target configs ≡ ok cfg)
    × (is_revertive env.revertive cfg ≡ false)
    × (i.intent ≡ get_gvknsn cfg)
    × (i.priority ≡ cfg.spec.priority)
    × (parse_paths env entry.paths ≡ (i.revert_paths, []))
    × (get_intent_update env cfg true ≡ ok i.update)
    × (i.non_revertive ≡ true)
    × (i.delete_intent ≡ false)

not_empty-nil : {A : Type 0} (xs : List A) → not_empty xs ≡ false → xs ≡ []
not_empty-nil [] h = refl
not_empty-nil (x ∷ xs) h = absurd (cc)

check_config-accepted :
    (env : Env) (entry : ClearConfig) (target : String) (cfg : Config) (i : Intent)
    → check_config env entry target cfg ≡ accepted i
    → (is_revertive env.revertive cfg ≡ false)
      × (i.intent ≡ get_gvknsn cfg)
      × (i.priority ≡ cfg.spec.priority)
      × (parse_paths env entry.paths ≡ (i.revert_paths, []))
      × (get_intent_update env cfg true ≡ ok i.update)
      × (i.non_revertive ≡ true)
      × (i.delete_intent ≡ false)
unfolding check_config clear_intent
check_config-accepted env entry target cfg i h =
    let paths = parse_paths env entry.paths in ground (arith, h, not_empty-nil paths.1)

check_entry-accepted :
    (env : Env) (target : String) (configs : List (String × Config)) (entry : ClearConfig)
    (i : Intent)
    → check_entry env target configs entry ≡ accepted i
    → Clears env target configs entry i
unfolding check_entry
check_entry-accepted env target configs entry i h =
    elim (Result-cases (resolve_clear_deviation_config env entry.name target configs)) [
      | inl (cfg, found) ↦
          let f = check_config-accepted env entry target cfg i (ground (arith, h, found)) in
          (cfg, found, f.0, f.1, f.2, f.3, f.4, f.5, f.6)
      | inr (e, failed) ↦ absurd (ground (arith, h, failed))
    ]

Entry-cases :
    (e : Entry) → ((i : Intent) × (e ≡ accepted i)) ⊎ ((es : List Bytes) × (e ≡ rejected es))
Entry-cases (accepted i) = inl (i, refl)
Entry-cases (rejected es) = inr (es, refl)

check_entries-Match :
    (env : Env) (target : String) (configs : List (String × Config)) (entries : List ClearConfig)
    → (check_entries env target configs entries).1 ≡ []
    → Match (Clears env target configs) entries (check_entries env target configs entries).0
unfolding check_entries add_entry
check_entries-Match env target configs [] h = tt
check_entries-Match env target configs (entry ∷ entries) h =
    elim (Entry-cases (check_entry env target configs entry)) [
      | inl (i, taken) ↦
          let rest = check_entries env target configs entries in
          let left : rest.1 ≡ [] = ground (arith, h, taken) in
          rw taken (
            check_entry-accepted env target configs entry i taken,
            check_entries-Match env target configs entries left,
          )
      | inr (es, wrong) ↦ absurd (ground (arith, h, wrong))
    ]

-- ClearDeviations either makes no call at all; or every entry of the request was accepted, and it
-- sends one request, which is no dry run, with one intent for each entry, in order.
pub clear_deviations_atomic :
    (env : Env) (target : Key) (ready : Bool) (spec : Option (List ClearConfig))
    (lister : Option (Result (List (String × Config)))) (h : History)
    → ((clear_deviations env target ready spec lister h).1 ≡ h)
      ⊎ ((entries : List ClearConfig) × (configs : List (String × Config)) × (req : SetRequest)
          × (spec ≡ some entries)
          × (lister ≡ some (ok configs))
          × (req.datastore_name ≡ env.key_string target)
          × (req.dry_run ≡ false)
          × Match (Clears env target.name configs) entries req.intents
          × ((clear_deviations env target ready spec lister h).1
              ≡ (execute_clear_deviation_tx env req h).1))
unfolding clear_deviations clear_configs
clear_deviations_atomic env target false spec lister h = inl refl
clear_deviations_atomic env target true none lister h = inl refl
clear_deviations_atomic env target true (some entries) none h = inl refl
clear_deviations_atomic env target true (some entries) (some (err e)) h = inl refl
clear_deviations_atomic env target true (some entries) (some (ok configs)) h =
    let checked = check_entries env target.name configs entries in
    elim (Bool-cases (not_empty checked.1)) [
      | inl wrong ↦ inl (ground (arith, wrong))
      | inr fine ↦ elim (Bool-cases (not_empty checked.0)) [
        | inr idle ↦ inl (ground (arith, fine, idle))
        | inl some_intent ↦ inr (
          entries,
          configs,
          clear_request env target (env.new_uuid h) checked.0,
          refl,
          refl,
          unfold clear_request in refl,
          unfold clear_request in refl,
          unfold clear_request in
              check_entries-Match env target.name configs entries (not_empty-nil checked.1 fine),
          ground (arith, fine, some_intent),
        )
      ]
    ]
