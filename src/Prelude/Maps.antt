-- ===== src/Prelude/Maps.antt =====
-- Go maps and key-unique tables as association lists. An insert replaces the entry in its place.
use rootmote_agent.Prelude.Tests.{if◌then◌else◌}
use rootmote_agent.Prelude.Keys.{Keyed, ◌==◌, beq_refl}
use mathlib.Core.Path.{◌≡◌, refl}
use mathlib.Core.Option.{Option, none, some}
use mathlib.Core.List.{List, [], ◌∷◌}
use native.Mathlib.Omega.{arith}

abbrev pub Map {ℓ κ} : Type ℓ → Type κ → Type (ℓ ⊔ κ)
Map K V = List (K × V)

module _ {ℓ κ} {K : Type ℓ} {V : Type κ} ⦃t : Keyed K⦄ where
  unfoldable pub lookup : K → Map K V → Option V
  lookup k [] = none
  lookup k ((j, v) ∷ m) = if j == k then some v else lookup k m

  unfoldable pub insert : K → V → Map K V → Map K V
  insert k v [] = (k, v) ∷ []
  insert k v ((j, w) ∷ m) = if j == k then (k, v) ∷ m else (j, w) ∷ insert k v m

  unfoldable pub delete : K → Map K V → Map K V
  delete k [] = []
  delete k ((j, v) ∷ m) = let rest = delete k m in if j == k then rest else (j, v) ∷ rest

  pub lookup-insert :
      (k i : K) (new : V) (m : Map K V)
      → lookup i (insert k new m) ≡ (if k == i then some new else lookup i m)
  unfolding insert lookup
  lookup-insert k i new [] = refl
  lookup-insert k i new ((j, old) ∷ rest) =
      ground (arith, lookup-insert k i new rest, t.decides j i, t.decides j k, t.decides k i)

  pub lookup-insert_self : (k : K) (new : V) (m : Map K V) → lookup k (insert k new m) ≡ some new
  lookup-insert_self k new m = ground (arith, lookup-insert k k new m, beq_refl k)
