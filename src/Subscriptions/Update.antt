-- ===== src/Subscriptions/Update.antt =====
-- AddSubscription and DelSubscription of pkg/sdc/target/manager/subscription.go, with the helpers of
-- apis/inv/v1alpha1/subscription_helpers.go. A Go map is an association list.
use config_server.Prelude.{
  Bool, List, Option, String, [], bytes_eq, delete, false, if◌then◌else◌, insert, is_none, lookup,
  nat_eq, none, not, not_empty, some, string_eq, ℕ, ◌<>◌, ◌==◌, ◌∷◌, ◌≡◌,
}
use config_server.Subscriptions.{PathSubscriptions, Subscription, keys, recompute_current}
use config_server.Subscriptions.Laws.{occurs}

-- What the code relies on of the store of paths: Get, Apply, Delete and the keys that List visits.
pub record PathStore (S : Type 0) : Type 0 where
  pub get : String → S → Option PathSubscriptions
  pub put : String → PathSubscriptions → S → S
  pub remove : String → S → S
  pub visited : S → List String
  pub get-put :
      (path wanted : String) (ps : PathSubscriptions) (s : S)
      → get wanted (put path ps s) ≡ (if path == wanted then some ps else get wanted s)
  pub get-remove :
      (path wanted : String) (s : S)
      → get wanted (remove path s) ≡ (if path == wanted then none else get wanted s)
  pub visits : (path : String) (s : S) → occurs path (visited s) ≡ not (is_none (get path s))

-- SubscriptionParameters; the interval is in whole seconds.
pub record Parameters : Type 0 where
  pub name : String
  pub description : Option String
  pub labels : List (String × String)
  pub admin_state : Option String
  pub mode : String
  pub interval : Option ℕ
  pub paths : List String

-- The Subscription resource; `nsn` is its namespaced name.
pub record SubscriptionResource : Type 0 where
  pub nsn : String
  pub port : ℕ
  pub encoding : Option String
  pub subscriptions : List Parameters

unfoldable pub get_interval_seconds : Parameters → ℕ
get_interval_seconds p =
    if p.mode == "onChange" then 0 else elim p.interval [ none ↦ 15 | some seconds ↦ seconds ]

unfoldable pub is_enabled : Parameters → Bool
is_enabled p = elim p.admin_state [ none ↦ false | some state ↦ state == "enabled" ]

unfoldable pub get_encoding : SubscriptionResource → String
get_encoding cr = elim cr.encoding [ none ↦ "ASCII" | some e ↦ e ]

unfoldable pub get_subscription : String → Parameters → String → Subscription
unfolding is_enabled get_interval_seconds
get_subscription nsn p encoding = record {
  nsn = nsn;
  name = p.name;
  description = p.description;
  labels = p.labels;
  enabled = is_enabled p;
  interval = get_interval_seconds p;
  encoding = encoding;
}

-- getSubscriptionNSNName.
unfoldable pub subscription_key : String → String → String
subscription_key nsn name = nsn <> "." <> name

-- Paths and ports.
pub record Subscriptions (S : Type 0) : Type 0 where
  pub paths : S
  pub ports : List (String × ℕ)

-- The names of a set that are kept.
unfoldable pub difference : List String → List String → List String
difference [] ms = []
difference (n ∷ ns) ms = let rest = difference ns ms in if occurs n ms then rest else n ∷ rest

unfoldable pub delete_names :
    List String → List (String × Subscription) → List (String × Subscription)
unfolding delete
delete_names [] m = m
delete_names (n ∷ ns) m = delete_names ns (delete n m)

-- The names of a path that the CR owns.
unfoldable pub is_owned : String → Option Subscription → Bool
is_owned nsn none = false
is_owned nsn (some s) = s.nsn == nsn

unfoldable pub owned_of : String → List (String × Subscription) → List String → List String
unfolding lookup is_owned
owned_of nsn m [] = []
owned_of nsn m (n ∷ ns) =
    let rest = owned_of nsn m ns in if is_owned nsn (lookup n m) then n ∷ rest else rest

-- desired[path].
unfoldable pub desired_at : String → List (String × List String) → List String
unfolding lookup
desired_at path desired = elim (lookup path desired) [ none ↦ [] | some names ↦ names ]

unfoldable pub no_subscriptions : PathSubscriptions
no_subscriptions = record { current = none; all_subscriptions = [] }

unfoldable pub found_or_new : Option PathSubscriptions → PathSubscriptions
unfolding no_subscriptions
found_or_new none = no_subscriptions
found_or_new (some ps) = ps

unfoldable pub with_all : List (String × Subscription) → PathSubscriptions → PathSubscriptions
unfolding recompute_current
with_all m ps = recompute_current (record ps { all_subscriptions = m })

module _ {S : Type 0} (store : PathStore S) where
  -- removeLocked.
  unfoldable pub remove_locked : String → List String → S → S
  unfolding delete_names with_all
  remove_locked path names s = elim (store.get path s) [
    | none ↦ s
    | some ps ↦
        let left = delete_names names ps.all_subscriptions in
        if not_empty left then store.put path (with_all left ps) s else store.remove path s
  ]

  -- The inner loop of AddSubscription: one subscription under each of its paths.
  unfoldable pub add_paths :
      String
      → Subscription
      → List String
      → S × List (String × List String)
      → S × List (String × List String)
  unfolding insert with_all desired_at found_or_new
  add_paths name new [] state = state
  add_paths name new (path ∷ paths) (s, desired) =
      let ps = found_or_new (store.get path s) in
      add_paths name new paths (
        store.put path (with_all (insert name new ps.all_subscriptions) ps) s,
        insert path (name ∷ desired_at path desired) desired,
      )

  unfoldable pub add_parameters :
      String
      → String
      → List Parameters
      → S × List (String × List String)
      → S × List (String × List String)
  unfolding add_paths get_subscription subscription_key
  add_parameters nsn encoding [] state = state
  add_parameters nsn encoding (p ∷ ps) state =
      add_parameters nsn encoding ps
        (add_paths (subscription_key nsn p.name) (get_subscription nsn p encoding) p.paths state)

  -- getExistingCRSubscription.
  unfoldable pub get_existing : String → S → List String → List (String × List String)
  unfolding owned_of keys
  get_existing nsn s [] = []
  get_existing nsn s (path ∷ paths) =
      let rest = get_existing nsn s paths in
      elim (store.get path s) [
        | none ↦ rest
        | some ps ↦
            let owned = owned_of nsn ps.all_subscriptions (keys ps.all_subscriptions) in
            if not_empty owned then (path, owned) ∷ rest else rest
      ]

  -- The loop of AddSubscription that prunes.
  unfoldable pub prune : List (String × List String) → List (String × List String) → S → S
  unfolding remove_locked difference desired_at
  prune desired [] s = s
  prune desired ((path, owned) ∷ existing) s =
      let stale = difference owned (desired_at path desired) in
      prune desired existing (if not_empty stale then remove_locked path stale s else s)

  -- The loop of DelSubscription.
  unfoldable pub remove_all : List (String × List String) → S → S
  unfolding remove_locked
  remove_all [] s = s
  remove_all ((path, owned) ∷ existing) s = remove_all existing (remove_locked path owned s)

  unfoldable pub add_subscription : SubscriptionResource → Subscriptions S → Subscriptions S
  unfolding add_parameters get_existing prune insert get_encoding
  add_subscription cr state =
      let (s, desired) =
        add_parameters cr.nsn (get_encoding cr) cr.subscriptions (state.paths, []) in
      record {
        paths = prune desired (get_existing cr.nsn s (store.visited s)) s;
        ports = insert cr.nsn cr.port state.ports;
      }

  unfoldable pub del_subscription : SubscriptionResource → Subscriptions S → Subscriptions S
  unfolding get_existing remove_all delete
  del_subscription cr state =
      let s = state.paths in
      record {
        paths = remove_all (get_existing cr.nsn s (store.visited s)) s;
        ports = delete cr.nsn state.ports;
      }
