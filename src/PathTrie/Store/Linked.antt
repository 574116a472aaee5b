-- ===== src/PathTrie/Store/Linked.antt =====
-- Paths whose parent belongs to another store.
use glass_lint.Prelude.{
  ℕ, suc, ◌+◌, ◌-◌, ◌≤◌, ◌<◌, ◌≡◌, ◌⊎◌, inl, inr, refl, ap, ◌∙◌, some, none, Option,
}
use glass_lint.Prelude.{
  List, [], ◌∷◌, ◌++◌, length, length-append, get_elem?, lt_of_get_elem?, arith, u32_max, pair_eq,
}
use glass_lint.Prelude.{Option-cases, Bool-cases, leb, leb→le, leb→gt, if◌then◌else◌}
use glass_lint.Prelude.Assoc.{lookup, lookup-insert_same}
use glass_lint.PathTrie.{
  PathId, for_store, PathSegment, PathLink, linked, id_eq, segment_eq, parent_eq,
}
use glass_lint.PathTrie.Store.{
  PathStore, local_id, node, depth, push_node, next_node, parent_depth, append_node, append_under,
  append_linked, find_linked_edge,
}
use glass_lint.PathTrie.Store.Valid.{IsValid, handle, Spells, Spells-append}
use glass_lint.PathTrie.Store.Push.{IsParent, pushed, after, last_node, after-IsValid}

-- What appending below a link does.
pub data AppendedLinked (st : PathStore) (l : PathLink) (s : PathSegment)
    (r : PathStore × Option PathId) : Type 0 where
  known_link :
      (id : PathId)
      → r ≡ (st, some id)
      → find_linked_edge l s st ≡ some id
      → AppendedLinked st l s r
  added_link :
      (su : PathStore) (id : PathId)
      → r ≡ (su, some id)
      → find_linked_edge l s st ≡ none
      → IsValid su
      → find_linked_edge l s su ≡ some id
      → depth id su ≡ some (l.depth + 1)
      → length su.nodes ≡ length st.nodes + 1
      → ((jd : PathId) (ts : List PathSegment) → Spells st jd ts → Spells su jd ts)
      → AppendedLinked st l s r
  full_link :
      r ≡ (st, none)
      → find_linked_edge l s st ≡ none
      → (st.max_nodes ≤ length st.nodes) ⊎ (u32_max < length st.nodes) ⊎ (u32_max ≤ l.depth)
      → AppendedLinked st l s r

module _ (st : PathStore) (valid : IsValid st) (l : PathLink) (s : PathSegment) where
  abbrev bounds : Option (ℕ × ℕ)
  bounds =
      if leb st.max_nodes (length st.nodes)
      then none
      else if leb (length st.nodes) u32_max
      then (if leb (l.depth + 1) u32_max then some (length st.nodes, l.depth + 1) else none)
      else none

  next_node_lem : next_node (linked l) st ≡ bounds
  unfolding next_node parent_depth
  next_node_lem = ground arith

  refused : next_node (linked l) st ≡ none → append_node (linked l) s st ≡ (st, none)
  unfolding append_node
  refused h = rw (h, append_node)

  fits : IsParent st (linked l) (l.depth + 1)
  fits p e = absurd cc

  pushes :
      (k : ℕ)
      → length st.nodes ≡ suc k
      → next_node (linked l) st ≡ some (length st.nodes, l.depth + 1)
      → append_node (linked l) s st ≡ (after st (linked l) s k (l.depth + 1), some (handle st k))
  unfolding append_node push_node for_store
  pushes k size h =
      let at : next_node (linked l) st ≡ some (suc k, l.depth + 1) =
        h ∙ ap (λ x. some (x, l.depth + 1)) size in
      rw (at, append_node)

  depth_after :
      (k : ℕ)
      → get_elem? (st.nodes ++ pushed (linked l) s (l.depth + 1) ∷ []) (suc k)
        ≡ some (pushed (linked l) s (l.depth + 1))
      → depth (handle st k) (after st (linked l) s k (l.depth + 1)) ≡ some (l.depth + 1)
  unfolding depth node local_id
  depth_after k found = ground (arith, found)

  pushed_lem :
      (k : ℕ)
      → length st.nodes ≡ suc k
      → lookup (linked l, s) st.by_edge ≡ none
      → length st.nodes ≤ u32_max
      → next_node (linked l) st ≡ some (length st.nodes, l.depth + 1)
      → AppendedLinked st l s (append_node (linked l) s st)
  unfolding find_linked_edge
  pushed_lem k size absent room h =
      let d = l.depth + 1 in
      added_link (after st (linked l) s k d) (handle st k) (pushes k size h) absent
        (after-IsValid st valid (linked l) s k d size room absent fits)
        (lookup-insert_same (handle st k) st.by_edge refl)
        (depth_after k (last_node st valid (linked l) s k d size room absent fits))
        (length-append st.nodes (pushed (linked l) s d ∷ []))
        (λ jd ts x.
          Spells-append st (after st (linked l) s k d) (pushed (linked l) s d ∷ []) ts jd refl refl
            x)

  pushed_size : (k : ℕ) × (length st.nodes ≡ suc k)
  pushed_size = (length st.nodes - 1, omega (arith, lt_of_get_elem? st.nodes 0 valid.root))

  append_node_lem :
      lookup (linked l, s) st.by_edge ≡ none → AppendedLinked st l s (append_node (linked l) s st)
  unfolding find_linked_edge
  append_node_lem absent = elim (Bool-cases (leb st.max_nodes (length st.nodes))) [
    | inl over ↦ full_link (refused (next_node_lem ∙ (rw over))) absent (inl (leb→le _ _ over))
    | inr room ↦ elim (Bool-cases (leb (length st.nodes) u32_max)) [
      | inr wide ↦
          full_link (refused (next_node_lem ∙ (rw (room, wide)))) absent
            (inr (inl (leb→gt _ _ wide)))
      | inl narrow ↦ elim (Bool-cases (leb (l.depth + 1) u32_max)) [
        | inr deep ↦
            full_link (refused (next_node_lem ∙ (rw (room, narrow, deep)))) absent
              (inr (inr (omega (arith, leb→gt _ _ deep))))
        | inl shallow ↦
            pushed_lem pushed_size.0 pushed_size.1 absent (leb→le _ _ narrow)
              (next_node_lem ∙ (rw (room, narrow, shallow)))
      ]
    ]
  ]

  -- On a valid store, appending a segment below a link to another store returns the handle that the
  -- link and the segment are known under, with the store unchanged, if there is one. Else it returns
  -- a new handle, one deeper than the link, in a store that is valid, has one node more, knows the
  -- edge and spells all that it spelled. Only at the bound on nodes, at the end of the 32-bit
  -- indices or at the largest depth it returns nothing and changes nothing.
  pub append_linked-AppendedLinked : AppendedLinked st l s (append_linked l s st)
  unfolding append_linked append_under find_linked_edge
  append_linked-AppendedLinked = elim (Option-cases (lookup (linked l, s) st.by_edge)) [
    | inl absent ↦ rw (absent, append_linked, append_under) (append_node_lem absent)
    | inr (id, at) ↦ known_link id (rw (at, append_linked, append_under)) at
  ]
