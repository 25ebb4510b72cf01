-- ===== src/Subscriptions/Refine/Coherence.antt =====
-- What holds of every path after any run of AddSubscription and DelSubscription of
-- pkg/sdc/target/manager/subscription.go.
use config_server.Prelude.{
  Bool, Bool-cases, List, Option, Option-cases, String, [], arith, bytes_eq, false, if◌then◌else◌,
  inl, inr, insert, lookup, nat_eq, none, not_empty, refl, some, string_eq, subst, sym, true, ◌==◌,
  ◌∷◌, ◌≡◌, ◌⊎◌,
}
use config_server.Subscriptions.{PathSubscriptions, Subscription, recompute_current}
use config_server.Subscriptions.Entries.{remove_locked_found, remove_locked_missing}
use config_server.Subscriptions.Laws.{AtMost, recompute_current_lowest}
use config_server.Subscriptions.Refine.Run.{Operation, adds_cr, deletes_cr, run}
use config_server.Subscriptions.Update.{
  Parameters, PathStore, Subscriptions, add_parameters, add_paths, add_subscription,
  del_subscription, delete_names, desired_at, difference, found_or_new, get_encoding, get_existing,
  get_subscription, prune, remove_all, remove_locked, subscription_key, with_all,
}

-- A path that is there has subscriptions, and its current one is chosen among them.
abbrev Fresh : PathSubscriptions → Type 0
Fresh ps = (ps.current ≡ (recompute_current ps).current) × (not_empty ps.all_subscriptions ≡ true)

FreshOrMissing : Option PathSubscriptions → Type 0
FreshOrMissing none = Unit {0}
FreshOrMissing (some ps) = Fresh ps

with_all-Fresh :
    (m : List (String × Subscription)) (ps : PathSubscriptions)
    → not_empty m ≡ true
    → Fresh (with_all m ps)
unfolding with_all recompute_current
with_all-Fresh m ps some_left = (refl, some_left)

not_empty-insert :
    (name : String) (new : Subscription) (m : List (String × Subscription))
    → not_empty (insert name new m) ≡ true
unfolding insert
not_empty-insert name new [] = refl
not_empty-insert name new ((found, old) ∷ more) = ground arith

if-FreshOrMissing :
    (b : Bool) (o o' : Option PathSubscriptions)
    → FreshOrMissing o
    → FreshOrMissing o'
    → FreshOrMissing (if b then o else o')
if-FreshOrMissing true o o' f f' = f
if-FreshOrMissing false o o' f f' = f'

-- Against any subscription of the path, if there is one by that name.
chosen_lowest :
    (name : String) (ps : PathSubscriptions)
    → ps.current ≡ (recompute_current ps).current
    → (lookup name ps.all_subscriptions ≡ none)
      ⊎ ((sub : Subscription) × (lookup name ps.all_subscriptions ≡ some sub)
          × ((sub.enabled ≡ false) ⊎ AtMost sub.interval ps.current))
chosen_lowest name ps current = elim (Option-cases (lookup name ps.all_subscriptions)) [
  | inl missing ↦ inl missing
  | inr (sub, known) ↦ elim (Bool-cases sub.enabled) [
    | inr off ↦ inr (sub, known, inl off)
    | inl on ↦ inr (
      sub,
      known,
      inr (
          subst (AtMost sub.interval) (sym current)
            (recompute_current_lowest ps name sub known on)),
    )
  ]
]

module _ {S : Type 0} (store : PathStore S) where
  Coherent : S → Type 0
  Coherent s = (path : String) → FreshOrMissing (store.get path s)

  put-Coherent :
      (path : String) (ps : PathSubscriptions) (s : S)
      → Fresh ps
      → Coherent s
      → Coherent (store.put path ps s)
  unfolding Coherent FreshOrMissing
  put-Coherent path ps s fresh all wanted =
      rw (store.get-put path wanted ps s)
        (if-FreshOrMissing (path == wanted) (some ps) (store.get wanted s) fresh (all wanted))

  remove-Coherent : (path : String) (s : S) → Coherent s → Coherent (store.remove path s)
  unfolding Coherent FreshOrMissing
  remove-Coherent path s all wanted =
      rw (store.get-remove path wanted s)
        (if-FreshOrMissing (path == wanted) none (store.get wanted s) tt (all wanted))

  remove_locked-Coherent :
      (path : String) (names : List String) (s : S)
      → Coherent s
      → Coherent (remove_locked store path names s)
  remove_locked-Coherent path names s all = elim (Option-cases (store.get path s)) [
    | inl missing ↦ rw (remove_locked_missing store path names s missing) all
    | inr (ps, found) ↦
        let left = delete_names names ps.all_subscriptions in
        rw (remove_locked_found store path names s ps found) (elim (Bool-cases (not_empty left)) [
          | inl some_left ↦
              rw some_left
                (put-Coherent path (with_all left ps) s (with_all-Fresh left ps some_left) all)
          | inr none_left ↦ rw none_left (remove-Coherent path s all)
        ])
  ]

  prune-Coherent :
      (desired existing : List (String × List String)) (s : S)
      → Coherent s
      → Coherent (prune store desired existing s)
  unfolding prune
  prune-Coherent desired [] s all = all
  prune-Coherent desired ((path, owned) ∷ existing) s all =
      let stale = difference owned (desired_at path desired) in
      prune-Coherent desired existing _ (elim (Bool-cases (not_empty stale)) [
        | inl some_stale ↦ rw some_stale (remove_locked-Coherent path stale s all)
        | inr none_stale ↦ rw none_stale all
      ])

  remove_all-Coherent :
      (existing : List (String × List String)) (s : S)
      → Coherent s
      → Coherent (remove_all store existing s)
  unfolding remove_all
  remove_all-Coherent [] s all = all
  remove_all-Coherent ((path, owned) ∷ existing) s all =
      remove_all-Coherent existing (remove_locked store path owned s)
        (remove_locked-Coherent path owned s all)

  add_paths-Coherent :
      (name : String) (new : Subscription) (paths : List String) (s : S)
      (desired : List (String × List String))
      → Coherent s
      → Coherent (add_paths store name new paths (s, desired)).0
  unfolding add_paths
  add_paths-Coherent name new [] s desired all = all
  add_paths-Coherent name new (path ∷ paths) s desired all =
      let ps = found_or_new (store.get path s) in
      let m = insert name new ps.all_subscriptions in
      add_paths-Coherent name new paths (store.put path (with_all m ps) s) _ (
        put-Coherent path (with_all m ps) s
          (with_all-Fresh m ps (not_empty-insert name new ps.all_subscriptions)) all)

  add_parameters-Coherent :
      (nsn encoding : String) (ps : List Parameters) (s : S) (desired : List (String × List String))
      → Coherent s
      → Coherent (add_parameters store nsn encoding ps (s, desired)).0
  unfolding add_parameters
  add_parameters-Coherent nsn encoding [] s desired all = all
  add_parameters-Coherent nsn encoding (p ∷ ps) s desired all =
      let name = subscription_key nsn p.name in
      let new = get_subscription nsn p encoding in
      let (s', desired') = add_paths store name new p.paths (s, desired) in
      add_parameters-Coherent nsn encoding ps s' desired'
        (add_paths-Coherent name new p.paths s desired all)

  run-Coherent :
      (ops : List Operation) (state : Subscriptions S)
      → Coherent state.paths
      → Coherent (run store ops state).paths
  unfolding run add_subscription del_subscription
  run-Coherent [] state all = all
  run-Coherent (adds_cr cr ∷ ops) state all =
      let (s, desired) =
        add_parameters store cr.nsn (get_encoding cr) cr.subscriptions (state.paths, []) in
      run-Coherent ops (add_subscription store cr state) (
        prune-Coherent desired (get_existing store cr.nsn s (store.visited s)) s
          (add_parameters-Coherent cr.nsn (get_encoding cr) cr.subscriptions state.paths [] all))
  run-Coherent (deletes_cr cr ∷ ops) state all =
      let s = state.paths in
      run-Coherent ops (del_subscription store cr state)
        (remove_all-Coherent (get_existing store cr.nsn s (store.visited s)) s all)

  -- From an empty store and after any run of AddSubscription and DelSubscription: a path that is there
  -- has at least one subscription, its current one is what recomputeCurrent picks, and whichever of its
  -- subscriptions is enabled, the current one is enabled and has an interval that is no longer.
  pub run_current :
      (empty : S) (ops : List Operation) (path name : String) (ps : PathSubscriptions)
      → ((path : String) → store.get path empty ≡ none)
      → store.get path (run store ops (record { paths = empty; ports = [] })).paths ≡ some ps
      → (not_empty ps.all_subscriptions ≡ true)
        × (ps.current ≡ (recompute_current ps).current)
        × ((lookup name ps.all_subscriptions ≡ none)
            ⊎ ((sub : Subscription) × (lookup name ps.all_subscriptions ≡ some sub)
                × ((sub.enabled ≡ false) ⊎ AtMost sub.interval ps.current)))
  unfolding Coherent FreshOrMissing
  run_current empty ops path name ps nowhere found =
      let before : Subscriptions S = record { paths = empty; ports = [] } in
      let all = run-Coherent ops before (λ p. subst FreshOrMissing (sym (nowhere p)) tt) in
      let (current, some_left) = subst FreshOrMissing found (all path) in
      (some_left, current, chosen_lowest name ps current)
