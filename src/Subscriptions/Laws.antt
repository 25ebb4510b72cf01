-- ===== src/Subscriptions/Laws.antt =====
-- recomputeCurrent of pkg/sdc/target/manager/subscription.go picks an enabled subscription with the
-- lowest interval.
use mathlib.Core.Path.{subst}
use config_server.Prelude.{
  Bool, Bool-cases, List, Option, String, [], arith, bytes_eq, eq_of_==, false, inl, inr, lookup,
  nat_eq, none, refl, some, string_eq, sym, true, ℕ, ◌&&◌, ◌==◌, ◌||◌, ◌∙◌, ◌∷◌, ◌≡◌, ◌≤◌, ◌⊎◌,
}
use config_server.Subscriptions.{
  PathSubscriptions, Subscription, better, consider, keys, pick, place, recompute_current,
  sort_strings,
}

abbrev pub occurs : String → List String → Bool
occurs k [] = false
occurs k (n ∷ ns) = n == k || occurs k ns

occurs-place : (k n : String) (ns : List String) → occurs k (place n ns) ≡ occurs k (n ∷ ns)
unfolding place
occurs-place k n [] = refl
occurs-place k n (m ∷ ms) = ground (arith, occurs-place k n ms)

occurs-sort_strings : (k : String) (ns : List String) → occurs k (sort_strings ns) ≡ occurs k ns
unfolding sort_strings
occurs-sort_strings k [] = refl
occurs-sort_strings k (n ∷ ns) =
    ground (arith, occurs-sort_strings k ns, occurs-place k n (sort_strings ns))

pub occurs-keys :
    (k : String) (m : List (String × Subscription)) (s : Subscription)
    → lookup k m ≡ some s
    → occurs k (keys m) ≡ true
unfolding keys lookup
occurs-keys k [] s h = ground arith
occurs-keys k ((j, v) ∷ m) s h = ground (arith, occurs-keys k m s)

-- Some enabled subscription whose interval is at most `i`.
abbrev pub AtMost : ℕ → Option Subscription → Type 0
AtMost i none = ⊥
AtMost i (some c) = (c.enabled ≡ true) × (c.interval ≤ i)

consider-AtMost :
    (i : ℕ) (cur next : Option Subscription) → AtMost i cur → AtMost i (consider cur next)
unfolding consider better
consider-AtMost i none next a = absurd a
consider-AtMost i (some c) none a = a
consider-AtMost i (some c) (some s) a = ground arith

-- What is current is enabled, and one of the subscriptions of the path.
abbrev pub IsOneOf : List (String × Subscription) → Option Subscription → Type 0
IsOneOf m none = Unit {0}
IsOneOf m (some c) = (c.enabled ≡ true) × (k : String) × (lookup k m ≡ some c)

consider-cases :
    (cur : Option Subscription) (s : Subscription)
    → ((s.enabled ≡ true) × (consider cur (some s) ≡ some s)) ⊎ (consider cur (some s) ≡ cur)
unfolding consider
consider-cases cur s = elim (Bool-cases (s.enabled && better cur s)) [
  | inl taken ↦ inl (ground (arith, taken), ground (arith, taken))
  | inr left ↦ inr (ground (arith, left))
]

consider-IsOneOf :
    (m : List (String × Subscription)) (n : String) (cur next : Option Subscription)
    → lookup n m ≡ next
    → IsOneOf m cur
    → IsOneOf m (consider cur next)
consider-IsOneOf m n cur none h one = unfold consider in one
consider-IsOneOf m n cur (some s) h one = elim (consider-cases cur s) [
  | inl (on, taken) ↦ subst (IsOneOf m) (sym taken) (on, n, h)
  | inr left ↦ subst (IsOneOf m) (sym left) one
]

pick-IsOneOf :
    (m : List (String × Subscription)) (ns : List String) (cur : Option Subscription)
    → IsOneOf m cur
    → IsOneOf m (pick m ns cur)
unfolding pick
pick-IsOneOf m [] cur one = one
pick-IsOneOf m (n ∷ ns) cur one =
    pick-IsOneOf m ns (consider cur (lookup n m)) (consider-IsOneOf m n cur (lookup n m) refl one)

consider-found :
    (m : List (String × Subscription)) (cur : Option Subscription) (s : Subscription)
    → s.enabled ≡ true
    → IsOneOf m cur
    → AtMost s.interval (consider cur (some s))
unfolding consider better
consider-found m none s on one = ground arith
consider-found m (some c) s on one = ground (arith, one.0)

pick-AtMost :
    (m : List (String × Subscription)) (ns : List String) (cur : Option Subscription) (i : ℕ)
    → AtMost i cur
    → AtMost i (pick m ns cur)
unfolding pick
pick-AtMost m [] cur i a = a
pick-AtMost m (n ∷ ns) cur i a =
    pick-AtMost m ns (consider cur (lookup n m)) i (consider-AtMost i cur (lookup n m) a)

pick-found :
    (m : List (String × Subscription)) (k : String) (s : Subscription) (ns : List String)
    (cur : Option Subscription)
    → lookup k m ≡ some s
    → s.enabled ≡ true
    → occurs k ns ≡ true
    → IsOneOf m cur
    → AtMost s.interval (pick m ns cur)
unfolding pick
pick-found m k s [] cur found on here one = absurd (ground (arith, here))
pick-found m k s (n ∷ ns) cur found on here one = elim (Bool-cases (n == k)) [
  | inl same ↦
      pick-AtMost m ns (consider cur (lookup n m)) s.interval
        (rw (eq_of_== n k same, found) (consider-found m cur s on one))
  | inr other ↦
      pick-found m k s ns (consider cur (lookup n m)) found on (ground (arith, here, other))
        (consider-IsOneOf m n cur (lookup n m) refl one)
]

-- If the path has an enabled subscription, the current one is an enabled one whose interval is no
-- longer.
pub recompute_current_lowest :
    (ps : PathSubscriptions) (k : String) (s : Subscription)
    → lookup k ps.all_subscriptions ≡ some s
    → s.enabled ≡ true
    → AtMost s.interval (recompute_current ps).current
unfolding recompute_current
recompute_current_lowest ps k s found on =
    let m = ps.all_subscriptions in
    pick-found m k s (sort_strings (keys m)) none found on
      (occurs-sort_strings k (keys m) ∙ occurs-keys k m s found) tt

-- The current subscription, if there is one, is enabled and one of those of the path; recomputing
-- does not change those.
pub recompute_current_member :
    (ps : PathSubscriptions)
    → IsOneOf ps.all_subscriptions (recompute_current ps).current
      × ((recompute_current ps).all_subscriptions ≡ ps.all_subscriptions)
unfolding recompute_current
recompute_current_member ps =
    let m = ps.all_subscriptions in (pick-IsOneOf m (sort_strings (keys m)) none tt, refl)
