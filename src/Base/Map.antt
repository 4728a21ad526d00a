-- ===== src/Base/Map.antt =====
-- `HashMap` and `HashSet` as association lists: a key stands once, and an insertion of a key that
-- is there replaces its value. The order of entries stands for the unspecified iteration order.
use mathlib.Core.Path.{◌≡◌, refl}
use mathlib.Core.Logic.{ite}
use mathlib.Core.List.{List, [], ◌∷◌}
use mathlib.Core.Bool.{Bool, true, false}
use mathlib.Core.Option.{Option, none, some}
use native.Mathlib.Omega.{arith}
use penguinsync.Base.Keys.{Key, ◌=?◌}

abbrev pub Map : Type 0 → Type 0 → Type 0
Map K V = List (K × V)

unfoldable pub elem : {K : Type 0} ⦃k : Key K⦄ → K → List K → Bool
elem a [] = false
elem a (x ∷ xs) = ite (x =? a) true (elem a xs)

module _ {K V : Type 0} ⦃k : Key K⦄ where
  unfoldable pub lookup : K → Map K V → Option V
  lookup a [] = none
  lookup a ((b, v) ∷ m) = ite (b =? a) (some v) (lookup a m)

  unfoldable pub insert : K → V → Map K V → Map K V
  insert a v [] = (a, v) ∷ []
  insert a v ((b, w) ∷ m) = ite (b =? a) ((a, v) ∷ m) ((b, w) ∷ insert a v m)

  unfoldable pub remove : K → Map K V → Map K V
  remove a [] = []
  remove a ((b, w) ∷ m) = ite (b =? a) (remove a m) ((b, w) ∷ remove a m)

  pub lookup-insert :
      (a c : K) (v : V) (m : Map K V) → lookup c (insert a v m) ≡ ite (a =? c) (some v) (lookup c m)
  unfolding lookup insert
  lookup-insert a c v [] = refl
  lookup-insert a c v ((b, w) ∷ m) = ground (arith, lookup-insert a c v m)

  pub lookup-remove :
      (a c : K) (m : Map K V) → lookup c (remove a m) ≡ ite (a =? c) none (lookup c m)
  unfolding lookup remove
  lookup-remove a c [] = ground arith
  lookup-remove a c ((b, w) ∷ m) = ground (arith, lookup-remove a c m)

  pub ruleset map_laws = (lookup-insert, lookup-remove)
