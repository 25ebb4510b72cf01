-- ===== src/Tests/Conditions.antt =====
-- Examples for the properties of Condition and Config.
use config_server.Prelude.{
  Bytes, List, String, [], arith, bytes_eq, concat, length, nat_eq, refl, reverse, string_eq, take,
  true, ℕ, ◌<◌, ◌∷◌, ◌≡◌, ◌≤◌, ◌⊎◌,
}
use config_server.Condition.{
  condition_false, condition_type_ready, equal, get_condition, set_condition,
}
use config_server.Condition.Dedupe.{dedupe_conditions, dedupe_conditions_last}
use config_server.Condition.Laws.{UniqueTypes, set_condition-UniqueTypes, set_condition_lem}
use config_server.Condition.Message.{cut_at_rune, truncate_message, truncate_message_bounded}
use config_server.Condition.Message.Runes.{cut_at_rune_whole}
use config_server.Config.{condition_type_config_ready}
use config_server.Tests.{old_condition}

set_condition_lem_example :
    let cs =
      set_condition (record old_condition { status = condition_false }) (old_condition ∷ []) in
    (equal
        (get_condition condition_type_config_ready cs)
        (record old_condition { status = condition_false })
      ≡ true)
    × ((condition_type_ready ≡ condition_type_config_ready)
        ⊎ (get_condition condition_type_ready cs
            ≡ get_condition condition_type_ready (old_condition ∷ [])))
set_condition_lem_example =
    set_condition_lem (record old_condition { status = condition_false }) (old_condition ∷ [])
      condition_type_ready

set_condition-UniqueTypes_example : UniqueTypes (set_condition old_condition (old_condition ∷ []))
set_condition-UniqueTypes_example =
    set_condition-UniqueTypes old_condition (old_condition ∷ []) (tt, tt)

dedupe_conditions_last_example :
    let cs = old_condition ∷ record old_condition { status = condition_false } ∷ [] in
    UniqueTypes (dedupe_conditions cs)
    × ((t : String) → get_condition t (dedupe_conditions cs) ≡ get_condition t (reverse cs))
dedupe_conditions_last_example =
    dedupe_conditions_last (old_condition ∷ record old_condition { status = condition_false } ∷ [])

truncate_message_bounded_example :
    (length (truncate_message (1 ∷ 2 ∷ 3 ∷ 4 ∷ 5 ∷ []) 4) ≤ 4)
    × ((truncate_message (1 ∷ 2 ∷ 3 ∷ 4 ∷ 5 ∷ []) 4 ≡ 1 ∷ 2 ∷ 3 ∷ 4 ∷ 5 ∷ []) ⊎ (4 < 5))
truncate_message_bounded_example = truncate_message_bounded (1 ∷ 2 ∷ 3 ∷ 4 ∷ 5 ∷ []) 4

-- "aéb": the second rune has two bytes.
cut_at_rune_whole_example :
    let rs : List Bytes = (97 ∷ []) ∷ (195 ∷ 169 ∷ []) ∷ (98 ∷ []) ∷ [] in
    ((k : ℕ) × (cut_at_rune (concat rs) 2 ≡ concat (take k rs)))
    × (length (concat (take 1 rs)) ≤ length (cut_at_rune (concat rs) 2))
cut_at_rune_whole_example =
    cut_at_rune_whole ((97 ∷ []) ∷ (195 ∷ 169 ∷ []) ∷ (98 ∷ []) ∷ []) 2 1
      ((refl, tt), ((refl, (refl, tt)), ((refl, tt), tt))) (omega arith)
