-- ===== src/Subscriptions/Read.antt =====
-- What a runtime and its collector read of the subscriptions: Port, GetPaths, HasActivePaths and
-- HasSubscriptions of pkg/sdc/target/manager/subscription.go.
use config_server.Prelude.{
  Bool, List, Option, String, [], bytes_eq, if◌then◌else◌, insert, lookup, nat_eq, none, not_empty,
  some, string_eq, ℕ, ◌++◌, ◌==◌, ◌∷◌,
}
use config_server.Subscriptions.{PathSubscriptions, Subscription, sort_strings, string_ltb}
use config_server.Subscriptions.Update.{PathStore, Subscriptions}

-- The namespaced names with a port that is not 0.
unfoldable pub with_port : List (String × ℕ) → List String
with_port [] = []
with_port ((nsn, p) ∷ ports) = let rest = with_port ports in if p == 0 then rest else nsn ∷ rest

unfoldable pub first_port : List String → List (String × ℕ) → ℕ
unfolding lookup
first_port [] ports = 0
first_port (nsn ∷ nsns) ports = elim (lookup nsn ports) [ none ↦ 0 | some p ↦ p ]

-- Port.
unfoldable pub port_of : List (String × ℕ) → ℕ
unfolding with_port first_port sort_strings
port_of ports = first_port (sort_strings (with_port ports)) ports

pub record ActivePath : Type 0 where
  pub path : String
  pub interval : ℕ

-- sort.Slice by path.
unfoldable pub place_path : ActivePath → List ActivePath → List ActivePath
unfolding string_ltb
place_path p [] = p ∷ []
place_path p (q ∷ qs) =
    let rest = place_path p qs in if string_ltb q.path p.path then q ∷ rest else p ∷ q ∷ qs

unfoldable pub sort_paths : List ActivePath → List ActivePath
unfolding place_path
sort_paths [] = []
sort_paths (p ∷ ps) = place_path p (sort_paths ps)

unfoldable pub add_path :
    String → ActivePath → List (String × List ActivePath) → List (String × List ActivePath)
unfolding lookup insert
add_path encoding p m =
    insert encoding (elim (lookup encoding m) [ none ↦ [] | some ps ↦ ps ] ++ p ∷ []) m

unfoldable pub sort_all : List (String × List ActivePath) → List (String × List ActivePath)
unfolding sort_paths
sort_all [] = []
sort_all ((encoding, ps) ∷ m) = (encoding, sort_paths ps) ∷ sort_all m

unfoldable pub current_of : Option PathSubscriptions → Option Subscription
current_of none = none
current_of (some ps) = ps.current

module _ {S : Type 0} (store : PathStore S) where
  -- The loop of GetPaths, on what it has so far.
  unfoldable pub collect_paths :
      S → List String → List (String × List ActivePath) → List (String × List ActivePath)
  unfolding add_path current_of
  collect_paths s [] m = m
  collect_paths s (path ∷ paths) m = elim (current_of (store.get path s)) [
    | none ↦ collect_paths s paths m
    | some c ↦
        collect_paths s paths
          (add_path c.encoding (record { path = path; interval = c.interval }) m)
  ]

  unfoldable pub get_paths : Subscriptions S → List (String × List ActivePath)
  unfolding collect_paths sort_all
  get_paths state = sort_all (collect_paths state.paths (store.visited state.paths) [])

  unfoldable pub has_active_paths : Subscriptions S → Bool
  unfolding get_paths
  has_active_paths state = not_empty (get_paths state)

  unfoldable pub has_subscriptions : Subscriptions S → Bool
  has_subscriptions state = not_empty (store.visited state.paths)
