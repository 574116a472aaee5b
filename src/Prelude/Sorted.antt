-- ===== src/Prelude/Sorted.antt =====
-- Sorted vectors: binary search, insertion and removal at a position, and the maps and sets that
-- stand on them. `BTreeMap` and `BTreeSet` are the sorted lists of their items.
pub mod Splits
pub mod Maps
pub mod Extensional
pub mod Sizes
use Prim.Native.Nat.{ℕ, zero, suc}
use mathlib.Core.Path.{◌≡◌, refl}
use mathlib.Core.Bool.{Bool, true, false}
use mathlib.Core.Option.{Option, none, some}
use mathlib.Core.List.{List, [], ◌∷◌}
use glass_lint.Prelude.Tests.{if◌then◌else◌}
use glass_lint.Prelude.Lists.{get_elem?, set}
use glass_lint.Prelude.Options.{◌>>=◌}
use glass_lint.Prelude.Results.{Result, ok, err}
use glass_lint.Prelude.Order.{Ord, lt}

module _ {A : Type 0} where
  -- `Vec::insert`. Past the end, where the code panics, it adds at the end.
  unfoldable pub insert_at : ℕ → A → List A → List A
  insert_at zero a xs = a ∷ xs
  insert_at (suc i) a [] = a ∷ []
  insert_at (suc i) a (x ∷ xs) = x ∷ insert_at i a xs

  -- `Vec::remove`. Past the end, where the code panics, nothing changes.
  pub remove_at : ℕ → List A → List A
  remove_at i [] = []
  remove_at zero (x ∷ xs) = xs
  remove_at (suc i) (x ∷ xs) = x ∷ remove_at i xs

abbrev pub next_position : Result ℕ ℕ → Result ℕ ℕ
next_position (ok i) = ok (suc i)
next_position (err i) = err (suc i)

-- `slice::binary_search_by_key` on a sorted slice: the position of the key, or the one where it
-- belongs.
module _ {A K : Type 0} ⦃o : Ord K⦄ (key : A → K) where
  unfoldable pub binary_search_by_key : K → List A → Result ℕ ℕ
  binary_search_by_key k [] = err 0
  binary_search_by_key k (x ∷ xs) =
      let later = next_position (binary_search_by_key k xs) in
      if lt (key x) k then later else if lt k (key x) then err 0 else ok 0

module _ {K : Type 0} ⦃o : Ord K⦄ where
  abbrev pub binary_search : K → List K → Result ℕ ℕ
  binary_search k xs = binary_search_by_key (λ a. a) k xs

  -- `slice::sort`, by insertion before the first item that is not smaller.
  pub sorted_insert : K → List K → List K
  sorted_insert k [] = k ∷ []
  sorted_insert k (x ∷ xs) =
      let later = x ∷ sorted_insert k xs in if lt x k then later else k ∷ x ∷ xs

  unfoldable pub sort : List K → List K
  unfolding sorted_insert
  sort [] = []
  sort (x ∷ xs) = sorted_insert x (sort xs)

  -- `Vec::dedup`: an item goes where it equals the one that is kept before it.
  pub dedup_after : K → List K → List K
  dedup_after k [] = []
  dedup_after k (x ∷ xs) =
      let kept = x ∷ dedup_after x xs in
      let gone = dedup_after k xs in if lt k x then kept else if lt x k then kept else gone

  unfoldable pub dedup : List K → List K
  unfolding dedup_after
  dedup [] = []
  dedup (x ∷ xs) = x ∷ dedup_after x xs

module _ {K V : Type 0} ⦃o : Ord K⦄ where
  abbrev pub key_of : K × V → K
  key_of e = e.0

  -- `BTreeMap::get`.
  unfoldable pub get : K → List (K × V) → Option V
  get k m = elim (binary_search_by_key key_of k m) [
    | ok i ↦ get_elem? m i >>= λ e. some e.1
    | err i ↦ none
  ]

  -- `BTreeMap::insert`, without the old value.
  unfoldable pub put : K → V → List (K × V) → List (K × V)
  put k v m = elim (binary_search_by_key key_of k m) [
    | ok i ↦ set m i (k, v)
    | err i ↦ insert_at i (k, v) m
  ]

  -- `BTreeMap::remove`, without the old value.
  pub delete : K → List (K × V) → List (K × V)
  delete k m = elim (binary_search_by_key key_of k m) [ ok i ↦ remove_at i m | err i ↦ m ]
