-- ===== src/Subscriptions/Refine.antt =====
-- AddSubscription of pkg/sdc/target/manager/subscription.go: what its loops write, and what a reconcile
-- of one CR means for every path and name.
pub mod Run
pub mod Coherence
use config_server.Prelude.{
  Bool, Bool-cases, List, Option, Option-cases, String, [], ap, arith, bytes_eq, eq_of_==, false,
  if◌then◌else◌, inl, inr, insert, is_none, lookup, lookup-insert, nat_eq, none, not, refl, some,
  string_eq, true, ◌&&◌, ◌==◌, ◌||◌, ◌∙◌, ◌∷◌, ◌≡◌,
}
use config_server.Subscriptions.{Subscription}
use config_server.Subscriptions.Entries.{entry, entry-deleted, entry-pruned, entry-put}
use config_server.Subscriptions.Laws.{occurs}
use config_server.Subscriptions.Update.{
  Parameters, PathStore, SubscriptionResource, Subscriptions, add_parameters, add_paths,
  add_subscription, del_subscription, desired_at, found_or_new, get_encoding, get_subscription,
  is_owned, subscription_key, with_all,
}

-- Which subscription each name has under each path.
abbrev pub View : Type 0
View = String → String → Option Subscription

-- The last parameters of a CR that declare a name under a path.
abbrev pub declaration : String → String → List Parameters → View
declaration nsn encoding [] path name = none
declaration nsn encoding (p ∷ ps) path name = elim (declaration nsn encoding ps path name) [
  | some declared ↦ some declared
  | none ↦
      if occurs path p.paths && subscription_key nsn p.name == name
      then some (get_subscription nsn p encoding)
      else none
]

abbrev pub unless_owned : String → Option Subscription → Option Subscription
unless_owned nsn old = if is_owned nsn old then none else old

-- A CR is reconciled: what it declares is there, and nothing else of it.
abbrev pub reconciled : SubscriptionResource → View → View
reconciled cr view path name =
    elim (declaration cr.nsn (get_encoding cr) cr.subscriptions path name) [
      | some declared ↦ some declared
      | none ↦ unless_owned cr.nsn (view path name)
    ]

abbrev pub forgotten : SubscriptionResource → View → View
forgotten cr view path name = unless_owned cr.nsn (view path name)

desired_at_if :
    (b : Bool) (o o' : Option (List String))
    → elim (if b then o else o') [ none ↦ [] | some names ↦ names ] ≡ (
        if b
        then elim o [ none ↦ [] | some names ↦ names ]
        else elim o' [ none ↦ [] | some names ↦ names ])
desired_at_if true o o' = refl
desired_at_if false o o' = refl

desired_at-insert :
    (path wanted : String) (names : List String) (desired : List (String × List String))
    → desired_at wanted (insert path names desired)
      ≡ (if path == wanted then names else desired_at wanted desired)
unfolding desired_at
desired_at-insert path wanted names desired =
    rw (lookup-insert path wanted names desired, desired_at)
      (desired_at_if (path == wanted) (some names) (lookup wanted desired))

occurs_desired :
    (path wanted name n : String) (desired : List (String × List String))
    → occurs n (desired_at wanted (insert path (name ∷ desired_at path desired) desired))
      ≡ (path == wanted && name == n || occurs n (desired_at wanted desired))
occurs_desired path wanted name n desired =
    ap (occurs n) (desired_at-insert path wanted (name ∷ desired_at path desired) desired)
    ∙ elim (Bool-cases (path == wanted)) [
      | inr other ↦ ground (arith, other)
      | inl same ↦
          let here =
            ap (λ (j : String). occurs n (desired_at j desired)) (eq_of_== path wanted same) in
          ground (arith, same, here)
    ]

module _ {S : Type 0} (store : PathStore S) where
  lookup-found_or_new :
      (path n : String) (s : S)
      → lookup n (found_or_new (store.get path s)).all_subscriptions ≡ entry store s path n
  unfolding found_or_new lookup
  lookup-found_or_new path n s = elim (Option-cases (store.get path s)) [
    | inl missing ↦ rw (missing, found_or_new) refl
    | inr (ps, found) ↦ rw (found, found_or_new) refl
  ]

  entry_written :
      (path wanted name n : String) (new : Subscription) (s : S)
      → let ps = found_or_new (store.get path s) in
        let written = with_all (insert name new ps.all_subscriptions) ps in
        entry store (store.put path written s) wanted n
        ≡ (if path == wanted && name == n then some new else entry store s wanted n)
  unfolding with_all
  entry_written path wanted name n new s =
      let ps = found_or_new (store.get path s) in
      let written = with_all (insert name new ps.all_subscriptions) ps in
      let changed = lookup-insert name n new ps.all_subscriptions in
      let old = lookup-found_or_new path n s in
      entry-put store path wanted n written s ∙ elim (Bool-cases (path == wanted)) [
        | inr other ↦ ground (arith, other)
        | inl same ↦
            let here = ap (λ (j : String). entry store s j n) (eq_of_== path wanted same) in
            ground (arith, same, changed, old, here)
      ]

  add_paths_lem :
      (name : String) (new : Subscription) (paths : List String) (s : S)
      (desired : List (String × List String)) (wanted n : String)
      → let (s', desired') = add_paths store name new paths (s, desired) in
        let here = occurs wanted paths && name == n in
        (entry store s' wanted n ≡ (if here then some new else entry store s wanted n))
        × (occurs n (desired_at wanted desired') ≡ (here || occurs n (desired_at wanted desired)))
  unfolding add_paths
  add_paths_lem name new [] s desired wanted n = (refl, refl)
  add_paths_lem name new (path ∷ paths) s desired wanted n =
      let ps = found_or_new (store.get path s) in
      let s' = store.put path (with_all (insert name new ps.all_subscriptions) ps) s in
      let desired' = insert path (name ∷ desired_at path desired) desired in
      let (entries, names) = add_paths_lem name new paths s' desired' wanted n in
      (
        entries ∙ ground (arith, entry_written path wanted name n new s),
        names ∙ ground (arith, occurs_desired path wanted name n desired),
      )

  add_parameters_lem :
      (nsn encoding : String) (ps : List Parameters) (s : S) (desired : List (String × List String))
      (wanted n : String)
      → let (s', desired') = add_parameters store nsn encoding ps (s, desired) in
        let declared = declaration nsn encoding ps wanted n in
        (entry store s' wanted n
          ≡ elim declared [ some new ↦ some new | none ↦ entry store s wanted n ])
        × (occurs n (desired_at wanted desired')
            ≡ (not (is_none declared) || occurs n (desired_at wanted desired)))
  unfolding add_parameters
  add_parameters_lem nsn encoding [] s desired wanted n = (refl, refl)
  add_parameters_lem nsn encoding (p ∷ ps) s desired wanted n =
      let name = subscription_key nsn p.name in
      let new = get_subscription nsn p encoding in
      let (s', desired') = add_paths store name new p.paths (s, desired) in
      let (entries, names) = add_parameters_lem nsn encoding ps s' desired' wanted n in
      let (written, declared) = add_paths_lem name new p.paths s desired wanted n in
      (entries ∙ ground (arith, written), names ∙ ground (arith, declared))

  -- AddSubscription leaves, for each path and name, what the CR declares last for it; else nothing if
  -- the CR owned what was there; else what was there.
  pub add_subscription-reconciled :
      (cr : SubscriptionResource) (state : Subscriptions S) (path name : String)
      → entry store (add_subscription store cr state).paths path name
        ≡ reconciled cr (entry store state.paths) path name
  unfolding add_subscription is_owned desired_at lookup
  add_subscription-reconciled cr state path name =
      let (s, desired) =
        add_parameters store cr.nsn (get_encoding cr) cr.subscriptions (state.paths, []) in
      let (entries, names) =
        add_parameters_lem cr.nsn (get_encoding cr) cr.subscriptions state.paths [] path name in
      entry-pruned store cr.nsn path name desired s
      ∙ elim (Option-cases (declaration cr.nsn (get_encoding cr) cr.subscriptions path name)) [
        | inl nothing_said ↦ ground (arith, nothing_said, entries, names)
        | inr (new, said) ↦ ground (arith, said, entries, names)
      ]

  -- DelSubscription leaves, for each path and name, what was there, unless the CR owned it.
  pub del_subscription-forgotten :
      (cr : SubscriptionResource) (state : Subscriptions S) (path name : String)
      → entry store (del_subscription store cr state).paths path name
        ≡ forgotten cr (entry store state.paths) path name
  unfolding del_subscription
  del_subscription-forgotten cr state path name = entry-deleted store cr.nsn path name state.paths
