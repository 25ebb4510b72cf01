-- ===== src/Subscriptions.antt =====
-- pkg/sdc/target/manager/subscription.go: which of the subscriptions of a path is the one that the
-- collector uses.
pub mod Laws
pub mod Update
pub mod Read
pub mod Entries
pub mod Refine
use config_server.Prelude.{
  Bool, List, Option, String, [], bytes_eq, false, if◌then◌else◌, lookup, ltb, nat_eq, none, some,
  string_eq, true, ℕ, ◌&&◌, ◌==◌, ◌∷◌,
}
use Prim.Native.Char.{code}

pub record Subscription : Type 0 where
  pub nsn : String
  pub name : String
  pub description : Option String
  pub labels : List (String × String)
  pub enabled : Bool
  -- 0 is onChange
  pub interval : ℕ
  pub encoding : String

pub record PathSubscriptions : Type 0 where
  pub current : Option Subscription
  -- by <cr nsn>.<subscription name>
  pub all_subscriptions : List (String × Subscription)

-- Go's `a < b` on strings.
unfoldable pub string_ltb : String → String → Bool
string_ltb s String.[] = false
string_ltb String.[] (String.◌∷◌ d t) = true
string_ltb (String.◌∷◌ c s) (String.◌∷◌ d t) =
    let rest = string_ltb s t in
    if ltb (code c) (code d) then true else if code c == code d then rest else false

-- sort.Strings.
unfoldable pub place : String → List String → List String
unfolding string_ltb
place n [] = n ∷ []
place n (m ∷ ms) = let rest = place n ms in if string_ltb m n then m ∷ rest else n ∷ m ∷ ms

unfoldable pub sort_strings : List String → List String
unfolding place
sort_strings [] = []
sort_strings (n ∷ ns) = place n (sort_strings ns)

unfoldable pub keys {ℓ} : {V : Type ℓ} → List (String × V) → List String
keys [] = []
keys ((k, v) ∷ m) = k ∷ keys m

-- `ps.Current == nil || s.Interval < ps.Current.Interval`.
unfoldable pub better : Option Subscription → Subscription → Bool
better none s = true
better (some c) s = ltb s.interval c.interval

-- What one round of the loop leaves as the current subscription.
unfoldable pub consider : Option Subscription → Option Subscription → Option Subscription
unfolding better
consider cur none = cur
consider cur (some s) = if s.enabled && better cur s then some s else cur

-- The loop over the sorted names.
unfoldable pub pick :
    List (String × Subscription) → List String → Option Subscription → Option Subscription
unfolding consider
pick m [] cur = cur
pick m (n ∷ ns) cur = pick m ns (consider cur (lookup n m))

unfoldable pub recompute_current : PathSubscriptions → PathSubscriptions
unfolding pick sort_strings keys
recompute_current ps = record ps {
  current = pick ps.all_subscriptions (sort_strings (keys ps.all_subscriptions)) none;
}
