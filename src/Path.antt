-- ===== src/Path.antt =====
-- glass-lint-datastructures/src/path: dotted paths as sequences of segments. A path owns its
-- segments and a view borrows them; both are the list of the segments here.
mod Tests
pub mod View
pub mod Symbol
use glass_lint.Prelude.{
  ℕ, suc, ◌-◌, ◌≤◌, Bool, true, false, Option, none, some, List, [], ◌∷◌, ◌++◌,
}
use glass_lint.Prelude.{Eq, length, take, drop, leb, if◌then◌else◌, ◌==◌, ◌&&◌, list_eq}
use mathlib.Core.Option
use View.{PathView}

-- `struct Path<S>`, where `S` dereferences to a slice of `T`.
abbrev pub SegmentPath : Type 0 → Type 0
SegmentPath T = List T

module _ {T : Type 0} where
  abbrev pub is_empty : SegmentPath T → Bool
  is_empty [] = true
  is_empty (x ∷ xs) = false

  abbrev pub new : SegmentPath T
  new = []

  abbrev pub append : T → SegmentPath T → SegmentPath T
  append segment path = path ++ segment ∷ []

  abbrev pub segments : SegmentPath T → List T
  segments path = path

  abbrev pub as_view : SegmentPath T → PathView T
  as_view path = path

  abbrev pub from_ids : List T → SegmentPath T
  from_ids ids = ids

  abbrev pub from_view : PathView T → SegmentPath T
  from_view view = from_ids (View.segments view)

  abbrev pub first_segment : SegmentPath T → Option T
  first_segment [] = none
  first_segment (x ∷ xs) = some x

  abbrev pub last_segment : SegmentPath T → Option T
  last_segment [] = none
  last_segment (x ∷ []) = some x
  last_segment (x ∷ y ∷ xs) = last_segment (y ∷ xs)

  abbrev pub without_last_segment : SegmentPath T → Option (SegmentPath T)
  without_last_segment path = if is_empty path then none else some (take (length path - 1) path)

  abbrev pub without_first_segment : SegmentPath T → Option (SegmentPath T)
  without_first_segment path = if is_empty path then none else some (drop 1 path)

  abbrev pub append_path : SegmentPath T → SegmentPath T → SegmentPath T
  append_path suffix path = path ++ suffix

  abbrev pub suffix : ℕ → SegmentPath T → Option (SegmentPath T)
  suffix count path = Option.map from_view (View.tail_after count (as_view path))

  abbrev pub is_root : SegmentPath T → Bool
  is_root path = leb (length path) 1

  abbrev pub len : SegmentPath T → ℕ
  len path = length path

  abbrev pub is_equal_or_descendant_of : ⦃e : Eq T⦄ → SegmentPath T → SegmentPath T → Bool
  is_equal_or_descendant_of root path =
      leb (length root) (length path) && take (length root) path == root
