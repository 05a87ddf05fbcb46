-- ===== src/Common/Map.antt =====
-- A Go map with text keys, as an association list: the model of `map[string]V`.
use rescale_interlink.Common.Tests.{if◌then◌else◌, ◌===◌, ===_iff, ===_self}
use Prim.Native.String.{String}
use mathlib.Core.Path.{◌≡◌}
use mathlib.Core.List.{List, [], ◌∷◌}
use mathlib.Core.Option.{Option, none, some}
use native.Mathlib.Omega.{arith}

abbrev pub Map {ℓ} : Type ℓ → Type ℓ
Map V = List (String × V)

module _ {ℓ} {V : Type ℓ} where
  -- m[k], with the second result of `v, ok := m[k]`.
  unfoldable pub get : Map V → String → Option V
  get [] k = none
  get ((j, v) ∷ m) k = if j === k then some v else get m k

  -- delete(m, k)
  unfoldable pub delete : Map V → String → Map V
  delete [] k = []
  delete ((j, v) ∷ m) k = if j === k then delete m k else (j, v) ∷ delete m k

  -- m[k] = v
  unfoldable pub put : Map V → String → V → Map V
  unfolding delete
  put m k v = (k, v) ∷ delete m k

  pub get-delete :
      (m : Map V) (k j : String) → get (delete m k) j ≡ (if k === j then none else get m j)
  unfolding get delete
  get-delete [] k j = ground arith
  get-delete ((i, v) ∷ m) k j =
      ground (arith, ===_iff k j, ===_iff i k, ===_iff i j, get-delete m k j)

  pub get-put :
      (m : Map V) (k j : String) (v : V) → get (put m k v) j ≡ (if k === j then some v else get m j)
  unfolding get put
  get-put m k j v = ground (arith, get-delete m k j)

  pub get-put_self : (m : Map V) (k : String) (v : V) → get (put m k v) k ≡ some v
  unfolding get put
  get-put_self m k v = ground (arith, ===_self k)

  -- m[k], with the zero value for a missing key.
  abbrev pub get_or : Map V → String → V → V
  get_or m k d = elim (get m k) [ none ↦ d | some v ↦ v ]

pub ruleset map_laws = (get-delete, get-put)
