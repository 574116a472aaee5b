-- ===== src/PathTrie/Store/Append.antt =====
-- Appending a segment: the handle that it returns spells the longer path, and nothing else changes.
use glass_lint.Prelude.{
  ℕ, suc, ◌+◌, ◌-◌, ◌≤◌, ◌<◌, ◌≡◌, ◌⊎◌, inl, inr, refl, sym, ap, subst, ◌∙◌, some, none, Option,
}
use glass_lint.Prelude.{
  List, [], ◌∷◌, length, length-append, get_elem?, lt_of_get_elem?, arith, u32_max, pair_eq,
}
use glass_lint.Prelude.{
  some_injective, Option-cases, Bool-cases, leb, leb→le, leb→gt, if◌then◌else◌,
}
use glass_lint.Prelude.Assoc.{lookup}
use glass_lint.PathTrie.{
  PathId, for_store, PathSegment, ParentRef, local, PathNode, id_eq, segment_eq, parent_eq,
}
use glass_lint.PathTrie.Store.{PathStore, local_id, push_node, next_node, parent_depth}
use glass_lint.PathTrie.Store.{append_node, append_under, append}
use glass_lint.PathTrie.Store.Valid.{
  IsValid, IsEarlier, handle, Spells, Spells-IsEarlier, Spells-node, Spells-append, Spells-interned,
}
use glass_lint.PathTrie.Store.Push.{IsParent, pushed, after, last_node, after-IsValid}

-- A handle that spells a path belongs to the store.
pub Spells-local_id :
    (st : PathStore) (id : PathId) (ss : List PathSegment)
    → IsValid st
    → Spells st id ss
    → local_id id st ≡ some id
unfolding local_id
Spells-local_id st id [] v h = rw h
Spells-local_id st id (s ∷ ss) v (i, n, p, at, found, seg, par, rest) = rw at (ground arith)

-- What appending `s` to a handle of the path `ss` does. The path may be known; a node may be
-- added; or a bound is reached.
pub data Appended (st : PathStore) (s : PathSegment) (ss : List PathSegment)
    (r : PathStore × Option PathId) : Type 0 where
  known : (id : PathId) → r ≡ (st, some id) → Spells st id (s ∷ ss) → Appended st s ss r
  added :
      (su : PathStore) (id : PathId)
      → r ≡ (su, some id)
      → IsValid su
      → Spells su id (s ∷ ss)
      → length su.nodes ≡ length st.nodes + 1
      → ((jd : PathId) → ¬ Spells st jd (s ∷ ss))
      → ((jd : PathId) (ts : List PathSegment) → Spells st jd ts → Spells su jd ts)
      → Appended st s ss r
  full :
      r ≡ (st, none)
      → ((jd : PathId) → ¬ Spells st jd (s ∷ ss))
      → (st.max_nodes ≤ length st.nodes) ⊎ (u32_max < length st.nodes) ⊎ (u32_max ≤ length ss)
      → Appended st s ss r

module _ (st : PathStore) (valid : IsValid st) (p : PathId) (s : PathSegment)
    (ss : List PathSegment) (path : Spells st p ss) where
  abbrev bounds : Option (ℕ × ℕ)
  bounds =
      if leb st.max_nodes (length st.nodes)
      then none
      else if leb (length st.nodes) u32_max
      then (if leb (length ss + 1) u32_max then some (length st.nodes, length ss + 1) else none)
      else none

  next_node_lem : next_node (local p) st ≡ bounds
  unfolding next_node parent_depth
  next_node_lem =
      let (m, found, d) = Spells-node st valid ss p path in rw found (rw d (ground arith))

  pub edge_node : (jd : PathId) → lookup (local p, s) st.by_edge ≡ some jd → Spells st jd (s ∷ ss)
  edge_node jd h =
      let (i, n, at, found, par, seg) = valid.edge_to (local p) s jd h in
      (i, n, p, at, found, seg, par, path)

  -- No handle spells the longer path where the map has no edge for it.
  pub unspelled : lookup (local p, s) st.by_edge ≡ none → (jd : PathId) → ¬ Spells st jd (s ∷ ss)
  unspelled absent jd (i, n, q, at, found, seg, par, rest) =
      let same : q ≡ p = Spells-interned st valid ss q p rest path in
      let here : lookup (local q, s) st.by_edge ≡ some (handle st i) =
        ap (λ (r : ParentRef). lookup (r, s) st.by_edge) (sym par)
        ∙ valid.edge_from i n s found seg in
      let moved : lookup (local q, s) st.by_edge ≡ none =
        ap (λ (x : PathId). lookup (local x, s) st.by_edge) same ∙ absent in
      let clash : none ≡ some (handle st i) = sym moved ∙ here in cc

  append_node-none : next_node (local p) st ≡ none → append_node (local p) s st ≡ (st, none)
  unfolding append_node
  append_node-none h = rw (h, append_node)

  fits : IsParent st (local p) (length ss + 1)
  fits x e =
      let same : p ≡ x = cc in
      let (m, found, d) = Spells-node st valid ss p path in
      (
        subst (λ y. IsEarlier st y (length st.nodes)) same (Spells-IsEarlier st valid ss p path),
        λ n up.
            let at : get_elem? st.nodes p.index ≡ some n =
              ap (λ (y : PathId). get_elem? st.nodes y.index) same ∙ up in
            let one : m ≡ n = some_injective (sym found ∙ at) in
            omega (arith, ap (λ (y : PathNode). y.depth) one),
      )

  append_node-some :
      (k : ℕ)
      → length st.nodes ≡ suc k
      → next_node (local p) st ≡ some (length st.nodes, length ss + 1)
      → append_node (local p) s st ≡ (after st (local p) s k (length ss + 1), some (handle st k))
  unfolding append_node push_node for_store
  append_node-some k size h =
      let at : next_node (local p) st ≡ some (suc k, length ss + 1) =
        h ∙ ap (λ x. some (x, length ss + 1)) size in
      rw (at, append_node)

  pushed_lem :
      (k : ℕ)
      → length st.nodes ≡ suc k
      → lookup (local p, s) st.by_edge ≡ none
      → length st.nodes ≤ u32_max
      → next_node (local p) st ≡ some (length st.nodes, length ss + 1)
      → Appended st s ss (append_node (local p) s st)
  pushed_lem k size absent room h =
      let d = length ss + 1 in
      let keeps : (jd : PathId) (ts : List PathSegment)
          → Spells st jd ts
          → Spells (after st (local p) s k d) jd ts =
        λ jd ts x.
          Spells-append st (after st (local p) s k d) (pushed (local p) s d ∷ []) ts jd refl refl
            x in
      added (after st (local p) s k d) (handle st k) (append_node-some k size h)
        (after-IsValid st valid (local p) s k d size room absent fits)
        (
          k,
          pushed (local p) s d,
          p,
          refl,
          last_node st valid (local p) s k d size room absent fits,
          refl,
          refl,
          keeps p ss path,
        )
        (length-append st.nodes (pushed (local p) s d ∷ [])) (unspelled absent) keeps

  pushed_size : (k : ℕ) × (length st.nodes ≡ suc k)
  pushed_size = (length st.nodes - 1, omega (arith, lt_of_get_elem? st.nodes 0 valid.root))

  append_node_lem :
      lookup (local p, s) st.by_edge ≡ none → Appended st s ss (append_node (local p) s st)
  append_node_lem absent = elim (Bool-cases (leb st.max_nodes (length st.nodes))) [
    | inl over ↦
        full (append_node-none (next_node_lem ∙ (rw over))) (unspelled absent)
          (inl (leb→le _ _ over))
    | inr room ↦ elim (Bool-cases (leb (length st.nodes) u32_max)) [
      | inr wide ↦
          full (append_node-none (next_node_lem ∙ (rw (room, wide)))) (unspelled absent)
            (inr (inl (leb→gt _ _ wide)))
      | inl narrow ↦ elim (Bool-cases (leb (length ss + 1) u32_max)) [
        | inr deep ↦
            full (append_node-none (next_node_lem ∙ (rw (room, narrow, deep)))) (unspelled absent)
              (inr (inr (omega (arith, leb→gt _ _ deep))))
        | inl shallow ↦
            pushed_lem pushed_size.0 pushed_size.1 absent (leb→le _ _ narrow)
              (next_node_lem ∙ (rw (room, narrow, shallow)))
      ]
    ]
  ]

  -- On a valid store, appending a segment to a handle of a path returns a handle of the longer path:
  -- an old one, with the store unchanged, exactly if there is one; else a new one, in a store that
  -- is valid, has one node more and spells all that it spelled. Only at the bound on nodes, at the
  -- end of the 32-bit indices or at the largest depth it returns nothing and changes nothing.
  pub append-Appended : Appended st s ss (append p s st)
  unfolding append append_under
  append-Appended =
      rw (Spells-local_id st p ss valid path, append)
        (elim (Option-cases (lookup (local p, s) st.by_edge)) [
          | inl absent ↦ rw (absent, append_under) (append_node_lem absent)
          | inr (id, at) ↦ known id (rw (at, append_under)) (edge_node id at)
        ])
