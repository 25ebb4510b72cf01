-- ===== src/Subscriptions/Entries.antt =====
-- The loops of pkg/sdc/target/manager/subscription.go that remove subscriptions, by what they leave
-- under every path and name.
use config_server.Prelude.{
  Bool, Bool-cases, List, Option, Option-cases, String, [], ap, arith, bytes_eq, delete, eq_of_==,
  false, if◌then◌else◌, inl, inr, is_none, lookup, lookup-delete, nat_eq, none, not, not_empty,
  refl, some, string_eq, sym, true, ◌&&◌, ◌==◌, ◌||◌, ◌∙◌, ◌∷◌, ◌≡◌,
}
use config_server.Subscriptions.{PathSubscriptions, Subscription, keys}
use config_server.Subscriptions.Laws.{occurs, occurs-keys}
use config_server.Subscriptions.Update.{
  PathStore, delete_names, desired_at, difference, get_existing, is_owned, owned_of, prune,
  remove_all, remove_locked, with_all,
}

occurs-difference :
    (k : String) (ns ms : List String)
    → occurs k (difference ns ms) ≡ (occurs k ns && not (occurs k ms))
unfolding difference
occurs-difference k [] ms = refl
occurs-difference k (n ∷ ns) ms = elim (Bool-cases (n == k)) [
  | inl same ↦
      let here = eq_of_== n k same in
      let later = occurs-difference k ns ms in
      let same_ms : occurs n ms ≡ occurs k ms = ap (λ (j : String). occurs j ms) here in
      ground (arith, same, later, same_ms)
  | inr other ↦ ground (arith, other, occurs-difference k ns ms)
]

lookup-delete_names :
    (k : String) (ns : List String) (m : List (String × Subscription))
    → lookup k (delete_names ns m) ≡ (if occurs k ns then none else lookup k m)
unfolding delete_names
lookup-delete_names k [] m = refl
lookup-delete_names k (n ∷ ns) m =
    let later = lookup-delete_names k ns (delete n m) in
    let first = lookup-delete n k m in ground (arith, later, first)

occurs-owned_of :
    (nsn k : String) (m : List (String × Subscription)) (ns : List String)
    → occurs k (owned_of nsn m ns) ≡ (occurs k ns && is_owned nsn (lookup k m))
unfolding owned_of
occurs-owned_of nsn k m [] = refl
occurs-owned_of nsn k m (n ∷ ns) = elim (Bool-cases (n == k)) [
  | inl same ↦
      let here = eq_of_== n k same in
      let later = occurs-owned_of nsn k m ns in
      let same_lookup : lookup n m ≡ lookup k m = ap (λ (j : String). lookup j m) here in
      let same_owner = ap (is_owned nsn) same_lookup in ground (arith, same, later, same_owner)
  | inr other ↦ ground (arith, other, occurs-owned_of nsn k m ns)
]

owned_keys :
    (nsn k : String) (m : List (String × Subscription))
    → occurs k (owned_of nsn m (keys m)) ≡ is_owned nsn (lookup k m)
unfolding is_owned
owned_keys nsn k m = elim (Option-cases (lookup k m)) [
  | inl absent ↦ ground (arith, absent, occurs-owned_of nsn k m (keys m))
  | inr (s, found) ↦
      ground (arith, found, occurs-keys k m s found, occurs-owned_of nsn k m (keys m))
]

-- The subscription of a name among those of a path that may be missing.
abbrev pub entry_of : Option PathSubscriptions → String → Option Subscription
entry_of none name = none
entry_of (some ps) name = lookup name ps.all_subscriptions

entry_of-if :
    (b : Bool) (o o' : Option PathSubscriptions) (name : String)
    → entry_of (if b then o else o') name ≡ (if b then entry_of o name else entry_of o' name)
entry_of-if true o o' name = refl
entry_of-if false o o' name = refl

not_empty-nil : {A : Type 0} (xs : List A) → not_empty xs ≡ false → xs ≡ []
not_empty-nil [] h = refl
not_empty-nil (x ∷ xs) h = cc

module _ {S : Type 0} (store : PathStore S) where
  abbrev pub entry : S → String → String → Option Subscription
  entry s path name = entry_of (store.get path s) name

  pub entry-put :
      (path wanted name : String) (ps : PathSubscriptions) (s : S)
      → entry (store.put path ps s) wanted name
        ≡ (if path == wanted then lookup name ps.all_subscriptions else entry s wanted name)
  entry-put path wanted name ps s =
      ap (λ (o : Option PathSubscriptions). entry_of o name) (store.get-put path wanted ps s)
      ∙ entry_of-if (path == wanted) (some ps) (store.get wanted s) name

  entry-remove :
      (path wanted name : String) (s : S)
      → entry (store.remove path s) wanted name
        ≡ (if path == wanted then none else entry s wanted name)
  entry-remove path wanted name s =
      ap (λ (o : Option PathSubscriptions). entry_of o name) (store.get-remove path wanted s)
      ∙ entry_of-if (path == wanted) none (store.get wanted s) name

  pub remove_locked_missing :
      (path : String) (names : List String) (s : S)
      → store.get path s ≡ none
      → remove_locked store path names s ≡ s
  unfolding remove_locked
  remove_locked_missing path names s missing = rw (missing, remove_locked) refl

  pub remove_locked_found :
      (path : String) (names : List String) (s : S) (ps : PathSubscriptions)
      → store.get path s ≡ some ps
      → let left = delete_names names ps.all_subscriptions in
        remove_locked store path names s
        ≡ (if not_empty left then store.put path (with_all left ps) s else store.remove path s)
  unfolding remove_locked
  remove_locked_found path names s ps found = rw (found, remove_locked) refl

  -- Where a store is written or cut at a path, the entry there is what is left.
  entry-left :
      (path wanted name : String) (left : List (String × Subscription)) (ps : PathSubscriptions)
      (s : S)
      → entry
          (if not_empty left then store.put path (with_all left ps) s else store.remove path s)
          wanted
          name
        ≡ (if path == wanted then lookup name left else entry s wanted name)
  unfolding with_all lookup
  entry-left path wanted name [] ps s = entry-remove path wanted name s
  entry-left path wanted name (x ∷ left) ps s =
      entry-put path wanted name (with_all (x ∷ left) ps) s

  entry_there :
      (path wanted name : String) (s : S) (o : Option PathSubscriptions)
      → (path == wanted) ≡ true
      → store.get path s ≡ o
      → entry s wanted name ≡ entry_of o name
  entry_there path wanted name s o same found =
      ap (λ (j : String). entry s j name) (sym (eq_of_== path wanted same))
      ∙ ap (λ (o : Option PathSubscriptions). entry_of o name) found

  entry-remove_locked :
      (path wanted name : String) (names : List String) (s : S)
      → entry (remove_locked store path names s) wanted name
        ≡ (if path == wanted && occurs name names then none else entry s wanted name)
  entry-remove_locked path wanted name names s = elim (Option-cases (store.get path s)) [
    | inl missing ↦
        ap (λ (s : S). entry s wanted name) (remove_locked_missing path names s missing)
        ∙ elim (Bool-cases (path == wanted)) [
          | inr other ↦ ground (arith, other)
          | inl e ↦ ground (arith, e, entry_there path wanted name s none e missing)
        ]
    | inr (ps, found) ↦
        let left = delete_names names ps.all_subscriptions in
        let cut = lookup-delete_names name names ps.all_subscriptions in
        ap (λ (s : S). entry s wanted name) (remove_locked_found path names s ps found)
        ∙ entry-left path wanted name left ps s
        ∙ elim (Bool-cases (path == wanted)) [
          | inr other ↦ ground (arith, other)
          | inl e ↦ ground (arith, e, cut, entry_there path wanted name s (some ps) e found)
        ]
  ]

  entry-unless_empty :
      (path wanted name : String) (stale : List String) (s : S)
      → entry (if not_empty stale then remove_locked store path stale s else s) wanted name
        ≡ (if path == wanted && occurs name stale then none else entry s wanted name)
  entry-unless_empty path wanted name [] s = ground arith
  entry-unless_empty path wanted name (n ∷ ns) s = entry-remove_locked path wanted name (n ∷ ns) s

  -- What the prune loop cuts.
  abbrev pub stale_in :
      List (String × List String) → List (String × List String) → String → String → Bool
  stale_in desired [] path name = false
  stale_in desired ((p, owned) ∷ existing) path name =
      (p == path && occurs name (difference owned (desired_at p desired)))
      || stale_in desired existing path name

  pub entry-prune :
      (desired existing : List (String × List String)) (path name : String) (s : S)
      → entry (prune store desired existing s) path name
        ≡ (if stale_in desired existing path name then none else entry s path name)
  unfolding prune
  entry-prune desired [] path name s = refl
  entry-prune desired ((p, owned) ∷ existing) path name s =
      let stale = difference owned (desired_at p desired) in
      let s' = if not_empty stale then remove_locked store p stale s else s in
      entry-prune desired existing path name s'
      ∙ ground (arith, entry-unless_empty p path name stale s)

  abbrev pub owned_in : List (String × List String) → String → String → Bool
  owned_in [] path name = false
  owned_in ((p, owned) ∷ existing) path name =
      (p == path && occurs name owned) || owned_in existing path name

  pub entry-remove_all :
      (existing : List (String × List String)) (path name : String) (s : S)
      → entry (remove_all store existing s) path name
        ≡ (if owned_in existing path name then none else entry s path name)
  unfolding remove_all
  entry-remove_all [] path name s = refl
  entry-remove_all ((p, owned) ∷ existing) path name s =
      let step = entry-remove_locked p path name owned s in
      entry-remove_all existing path name (remove_locked store p owned s) ∙ ground (arith, step)

  -- A name that the CR owns under a path, and does not declare.
  abbrev pub is_stale : String → List (String × List String) → S → String → String → Bool
  is_stale nsn desired s path name =
      is_owned nsn (entry s path name) && not (occurs name (desired_at path desired))

  stale_if :
      (desired rest : List (String × List String)) (p path name : String) (owned : List String)
      → stale_in desired (if not_empty owned then (p, owned) ∷ rest else rest) path name ≡ (
          (p == path && occurs name (difference owned (desired_at p desired)))
          || stale_in desired rest path name)
  unfolding difference
  stale_if desired rest p path name [] = ground arith
  stale_if desired rest p path name (n ∷ ns) = refl

  existing_missing :
      (nsn : String) (s : S) (p : String) (paths : List String)
      → store.get p s ≡ none
      → get_existing store nsn s (p ∷ paths) ≡ get_existing store nsn s paths
  unfolding get_existing
  existing_missing nsn s p paths missing = rw (missing, get_existing) refl

  existing_found :
      (nsn : String) (s : S) (p : String) (paths : List String) (ps : PathSubscriptions)
      → store.get p s ≡ some ps
      → let owned = owned_of nsn ps.all_subscriptions (keys ps.all_subscriptions) in
        let rest = get_existing store nsn s paths in
        get_existing store nsn s (p ∷ paths) ≡ (if not_empty owned then (p, owned) ∷ rest else rest)
  unfolding get_existing
  existing_found nsn s p paths ps found = rw (found, get_existing) refl

  existing_step :
      (nsn p path name : String) (desired : List (String × List String)) (s : S)
      (paths : List String)
      → stale_in desired (get_existing store nsn s (p ∷ paths)) path name ≡ (
          (p == path && is_stale nsn desired s p name)
          || stale_in desired (get_existing store nsn s paths) path name)
  unfolding is_owned
  existing_step nsn p path name desired s paths = elim (Option-cases (store.get p s)) [
    | inl missing ↦
        let nothing_there : entry s p name ≡ none =
          ap (λ (o : Option PathSubscriptions). entry_of o name) missing in
        ap (λ (l : List (String × List String)). stale_in desired l path name)
          (existing_missing nsn s p paths missing)
        ∙ ground (arith, nothing_there)
    | inr (ps, found) ↦
        let owned = owned_of nsn ps.all_subscriptions (keys ps.all_subscriptions) in
        let there : entry s p name ≡ lookup name ps.all_subscriptions =
          ap (λ (o : Option PathSubscriptions). entry_of o name) found in
        let owner = owned_keys nsn name ps.all_subscriptions ∙ ap (is_owned nsn) (sym there) in
        ap (λ (l : List (String × List String)). stale_in desired l path name)
          (existing_found nsn s p paths ps found)
        ∙ stale_if desired (get_existing store nsn s paths) p path name owned
        ∙ ground (arith, owner, occurs-difference name owned (desired_at p desired))
  ]

  stale-get_existing :
      (nsn path name : String) (desired : List (String × List String)) (s : S) (paths : List String)
      → stale_in desired (get_existing store nsn s paths) path name
        ≡ (occurs path paths && is_stale nsn desired s path name)
  unfolding get_existing
  stale-get_existing nsn path name desired s [] = refl
  stale-get_existing nsn path name desired s (p ∷ paths) =
      let later = stale-get_existing nsn path name desired s paths in
      existing_step nsn p path name desired s paths ∙ elim (Bool-cases (p == path)) [
        | inr other ↦ ground (arith, other, later)
        | inl same ↦
            let here : is_stale nsn desired s p name ≡ is_stale nsn desired s path name =
              ap (λ (j : String). is_stale nsn desired s j name) (eq_of_== p path same) in
            ground (arith, same, later, here)
      ]

  -- The prune loop as a whole: what the CR owns and does not declare goes, and nothing else.
  pub entry-pruned :
      (nsn path name : String) (desired : List (String × List String)) (s : S)
      → entry (prune store desired (get_existing store nsn s (store.visited s)) s) path name
        ≡ (if is_stale nsn desired s path name then none else entry s path name)
  unfolding is_owned
  entry-pruned nsn path name desired s =
      let existing = get_existing store nsn s (store.visited s) in
      let cut = stale-get_existing nsn path name desired s (store.visited s) in
      let seen = store.visits path s in
      entry-prune desired existing path name s ∙ elim (Option-cases (store.get path s)) [
        | inl missing ↦
            let nothing_there : entry s path name ≡ none =
              ap (λ (o : Option PathSubscriptions). entry_of o name) missing in
            ground (arith, cut, nothing_there)
        | inr (ps, found) ↦
            let visited_there : occurs path (store.visited s) ≡ true =
              seen ∙ ap (λ (o : Option PathSubscriptions). not (is_none o)) found in
            ground (arith, cut, visited_there)
      ]

  owned_in-stale_in :
      (existing : List (String × List String)) (path name : String)
      → owned_in existing path name ≡ stale_in [] existing path name
  unfolding desired_at lookup
  owned_in-stale_in [] path name = refl
  owned_in-stale_in ((p, owned) ∷ existing) path name =
      ground (arith, owned_in-stale_in existing path name, occurs-difference name owned [])

  -- The loop of DelSubscription as a whole: what the CR owns goes, and nothing else.
  pub entry-deleted :
      (nsn path name : String) (s : S)
      → entry (remove_all store (get_existing store nsn s (store.visited s)) s) path name
        ≡ (if is_owned nsn (entry s path name) then none else entry s path name)
  unfolding desired_at lookup
  entry-deleted nsn path name s =
      let existing = get_existing store nsn s (store.visited s) in
      let same = owned_in-stale_in existing path name in
      let cut = entry-prune [] existing path name s in
      let pruned = entry-pruned nsn path name [] s in
      entry-remove_all existing path name s ∙ ground (arith, same, cut, pruned)
