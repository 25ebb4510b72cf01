-- ===== src/Prelude/Assoc.antt =====
-- A Go map as an association list: at most one entry for a key is read, written or removed.
use mathlib.Core.Path.{◌≡◌, refl}
use mathlib.Core.List.{List, [], ◌∷◌, ◌++◌}
use mathlib.Core.Option.{Option, none, some}
use native.Mathlib.Omega.{arith}
use config_server.Prelude.Test.{Eq, ◌==◌, if◌then◌else◌}

module _ {ℓ κ} {K : Type ℓ} {V : Type κ} ⦃e : Eq K⦄ where
  -- m[k] with its `ok`.
  unfoldable pub lookup : K → List (K × V) → Option V
  lookup wanted [] = none
  lookup wanted ((found, v) ∷ more) =
      let rest = lookup wanted more in if found == wanted then some v else rest

  -- m[k] = v.
  unfoldable pub insert : K → V → List (K × V) → List (K × V)
  insert key value [] = (key, value) ∷ []
  insert key value ((found, old) ∷ more) =
      let rest = insert key value more in
      if found == key then (key, value) ∷ more else (found, old) ∷ rest

  -- delete(m, k).
  unfoldable pub delete : K → List (K × V) → List (K × V)
  delete k [] = []
  delete k ((j, w) ∷ m) = if j == k then delete k m else (j, w) ∷ delete k m

  pub lookup-insert :
      (key wanted : K) (value : V) (m : List (K × V))
      → let after = insert key value m in
        lookup wanted after ≡ (if key == wanted then some value else lookup wanted m)
  unfolding insert lookup
  lookup-insert key wanted value [] = refl
  lookup-insert key wanted value ((found, old) ∷ more) =
      ground (arith, lookup-insert key wanted value more)

  pub lookup-delete :
      (k j : K) (m : List (K × V)) → lookup j (delete k m) ≡ (if k == j then none else lookup j m)
  unfolding lookup delete
  lookup-delete k j [] = ground arith
  lookup-delete k j ((i, w) ∷ m) = ground (arith, lookup-delete k j m)

  pub lookup-append :
      (k : K) (m n : List (K × V))
      → lookup k (m ++ n) ≡ elim (lookup k m) [ some v ↦ some v | none ↦ lookup k n ]
  unfolding lookup
  lookup-append k [] n = refl
  lookup-append k ((i, w) ∷ m) n = ground (arith, lookup-append k m n)
