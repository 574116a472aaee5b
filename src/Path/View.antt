-- ===== src/Path/View.antt =====
-- glass-lint-datastructures/src/path/view.rs: the borrowed view of a path.
pub mod Ancestry
use glass_lint.Prelude.{ℕ, ◌-◌, Bool, true, false, Option, none, some, List, [], ◌∷◌}
use glass_lint.Prelude.{
  Eq, length, take, drop, leb, ltb, if◌then◌else◌, ◌==◌, ◌&&◌, list_eq, map, range,
}

abbrev pub PathView : Type 0 → Type 0
PathView T = List T

module _ {T : Type 0} where
  abbrev pub is_empty : PathView T → Bool
  is_empty [] = true
  is_empty (x ∷ xs) = false

  abbrev pub segments : PathView T → List T
  segments view = view

  pub first_segment : PathView T → Option T
  first_segment [] = none
  first_segment (x ∷ xs) = some x

  pub last_segment : PathView T → Option T
  last_segment [] = none
  last_segment (x ∷ []) = some x
  last_segment (x ∷ y ∷ xs) = last_segment (y ∷ xs)

  pub without_last_segment : PathView T → Option (PathView T)
  without_last_segment view = if is_empty view then none else some (take (length view - 1) view)

  pub without_first_segment : PathView T → Option (PathView T)
  without_first_segment view = if is_empty view then none else some (drop 1 view)

  pub prefix_at : ℕ → PathView T → Option (PathView T)
  prefix_at len view = if ltb (length view) len then none else some (take len view)

  pub tail_after : ℕ → PathView T → Option (PathView T)
  tail_after count view = if ltb (length view) count then none else some (drop count view)

  pub prefixes : PathView T → List (PathView T)
  prefixes view = map (λ end. take end view) (range 1 (length view))

  abbrev pub is_root : PathView T → Bool
  is_root view = leb (length view) 1

  pub is_equal_or_descendant_of : ⦃e : Eq T⦄ → PathView T → PathView T → Bool
  is_equal_or_descendant_of root view =
      leb (length root) (length view) && take (length root) view == root

  abbrev pub len : PathView T → ℕ
  len view = length view
