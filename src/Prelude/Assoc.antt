-- ===== src/Prelude/Assoc.antt =====
-- A hash map as the list of its insertions, the latest first. The program never iterates over one.
use mathlib.Core.Path.{◌≡◌, refl}
use mathlib.Core.Logic.{◌≢◌}
use mathlib.Core.Option.{Option, none, some}
use mathlib.Core.List.{List, [], ◌∷◌}
use glass_lint.Prelude.Tests.{if◌then◌else◌}
use glass_lint.Prelude.Equality.{Eq, ◌==◌, ≢→==}

module _ {K V : Type 0} ⦃e : Eq K⦄ where
  unfoldable pub lookup : K → List (K × V) → Option V
  lookup k [] = none
  lookup k ((j, v) ∷ m) = if j == k then some v else lookup k m

  unfoldable pub insert : K → V → List (K × V) → List (K × V)
  insert k v m = (k, v) ∷ m

  pub lookup-insert :
      (k j : K) (v : V) (m : List (K × V))
      → lookup j (insert k v m) ≡ (if k == j then some v else lookup j m)
  unfolding lookup insert
  lookup-insert k j v m = refl

  pub lookup-insert_same :
      {k j : K} (v : V) (m : List (K × V)) → k ≡ j → lookup j (insert k v m) ≡ some v
  unfolding lookup insert
  lookup-insert_same {k} {j} v m h = rw ((e.eq_iff k j).1 h)

  pub lookup-insert_other :
      {k j : K} (v : V) (m : List (K × V)) → k ≢ j → lookup j (insert k v m) ≡ lookup j m
  unfolding lookup insert
  lookup-insert_other {k} {j} v m h = rw (≢→== k j h)
