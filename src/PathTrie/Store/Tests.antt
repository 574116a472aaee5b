-- ===== src/PathTrie/Store/Tests.antt =====
-- A store of two paths, one above the other.
use glass_lint.Prelude.{
  ◌≡◌, ◌↔◌, inl, inr, refl, sym, ap, arith, List, [], ◌∷◌, ◌++◌, reverse, some, true, pair_eq,
}
use glass_lint.Prelude.Assoc.{lookup, insert}
use glass_lint.PathTrie.{
  PathId, empty, PathSegment, property, index, local, id_eq, segment_eq, parent_eq,
}
use glass_lint.PathTrie.Store.{PathStore, with_max_nodes, append, starts_with, collect_segments}
use glass_lint.PathTrie.Store.Valid.{IsValid, Spells, with_max_nodes-IsValid}
use glass_lint.PathTrie.Store.Push.{IsParent, after, after-IsValid}
use glass_lint.PathTrie.Store.Append.{Appended, append-Appended}
use glass_lint.PathTrie.Store.{append_linked}
use glass_lint.PathTrie.{PathLink}
use glass_lint.PathTrie.Store.Linked.{AppendedLinked, append_linked-AppendedLinked}
use glass_lint.PathTrie.Store.{concat, without_first}
use glass_lint.PathTrie.Store.Concat.{AppendedAll, concat-AppendedAll}
use glass_lint.PathTrie.Store.Suffix.{without_first_iff}
use glass_lint.PathTrie.Store.Walks.{collect_segments_lem, starts_with_iff}

abbrev fresh_store : PathStore
fresh_store = (with_max_nodes 8 1).0

abbrev first : PathId
first = record { index = 1; owner = 1 }

abbrev second : PathId
second = record { index = 2; owner = 1 }

-- With the path of the property 4, and with that and the index 3 behind it.
abbrev one_path : PathStore
one_path = after fresh_store (local empty) (property 4) 0 1

abbrev two_paths : PathStore
two_paths = after one_path (local first) (index 3) 1 2

root_fits : IsParent fresh_store (local empty) 1
root_fits p e =
    let same : empty ≡ p = cc in
    (inl (sym same), λ m found. ground (arith, ap (λ (x : PathId). x.index) same))

first_fits : IsParent one_path (local first) 2
first_fits p e =
    let same : first ≡ p = cc in
    (
      inr (
        ap (λ (x : PathId). x.owner) (sym same),
        omega (arith, ap (λ (x : PathId). x.index) same),
        omega (arith, ap (λ (x : PathId). x.index) same),
      ),
      λ m found. ground (arith, found, ap (λ (x : PathId). x.index) same),
    )

one_path-IsValid : IsValid one_path
unfolding lookup
one_path-IsValid =
    after-IsValid fresh_store (with_max_nodes-IsValid 8 1 (omega arith)) (local empty) (property 4)
      0 1 refl (omega arith) refl root_fits

two_paths-IsValid : IsValid two_paths
unfolding lookup insert
two_paths-IsValid =
    after-IsValid one_path one_path-IsValid (local first) (index 3) 1 2 refl (omega arith) refl
      first_fits

spelled : Spells two_paths second (index 3 ∷ property 4 ∷ [])
spelled = (
  1,
  record { parent = local first; depth = 2; segment = some (index 3) },
  first,
  refl,
  refl,
  refl,
  refl,
  (
    0,
    record { parent = local empty; depth = 1; segment = some (property 4) },
    empty,
    refl,
    refl,
    refl,
    refl,
    refl,
  ),
)

spelled_above : Spells two_paths first (property 4 ∷ [])
spelled_above = (
  0,
  record { parent = local empty; depth = 1; segment = some (property 4) },
  empty,
  refl,
  refl,
  refl,
  refl,
  refl,
)

append-Appended_example :
    Appended two_paths
      (property 9)
      (index 3 ∷ property 4 ∷ [])
      (append second (property 9) two_paths)
append-Appended_example =
    append-Appended two_paths two_paths-IsValid second (property 9) (index 3 ∷ property 4 ∷ [])
      spelled

collect_segments_lem_example :
    collect_segments second two_paths ≡ some (reverse (index 3 ∷ property 4 ∷ []))
collect_segments_lem_example =
    collect_segments_lem two_paths two_paths-IsValid second (index 3 ∷ property 4 ∷ []) spelled

starts_with_iff_example :
    (starts_with second first two_paths ≡ true)
    ↔ ((us : List PathSegment) × (index 3 ∷ property 4 ∷ [] ≡ us ++ property 4 ∷ []))
starts_with_iff_example =
    starts_with_iff two_paths two_paths-IsValid second first (index 3 ∷ property 4 ∷ [])
      (property 4 ∷ []) spelled spelled_above

concat-AppendedAll_example :
    AppendedAll two_paths (property 4 ∷ index 3 ∷ property 4 ∷ []) (concat second first two_paths)
concat-AppendedAll_example =
    concat-AppendedAll two_paths second first (index 3 ∷ property 4 ∷ []) (property 4 ∷ [])
      two_paths-IsValid spelled spelled_above

without_first_iff_example :
    (without_first second two_paths ≡ some first) ↔ Spells two_paths first (index 3 ∷ [])
without_first_iff_example =
    without_first_iff two_paths two_paths-IsValid second first (index 3 ∷ []) (property 4) spelled

abbrev foreign : PathLink
foreign = record { path = record { index = 1; owner = 2 }; depth = 1 }

append_linked-AppendedLinked_example :
    AppendedLinked two_paths foreign (property 9) (append_linked foreign (property 9) two_paths)
append_linked-AppendedLinked_example =
    append_linked-AppendedLinked two_paths two_paths-IsValid foreign (property 9)
