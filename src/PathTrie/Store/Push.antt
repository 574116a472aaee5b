-- ===== src/PathTrie/Store/Push.antt =====
-- A pushed node keeps the store valid.
use glass_lint.Prelude.{ℕ, suc, ◌+◌, ◌≤◌, ◌<◌, ◌≡◌, ◌≢◌, inl, inr, sym, ap, subst, ◌∙◌, some, none}
use glass_lint.Prelude.{
  [], ◌∷◌, ◌++◌, length, length-append, get_elem?, get_elem?-append_left, get_elem?-append_end,
}
use glass_lint.Prelude.{
  get_elem?-append_cases, lt_of_get_elem?, arith, u32_max, pair_eq, some_injective,
}
use glass_lint.Prelude.{==_cases}
use glass_lint.Prelude.Assoc.{lookup, insert, lookup-insert_same, lookup-insert_other}
use glass_lint.PathTrie.{
  PathId, PathSegment, ParentRef, local, PathNode, id_eq, segment_eq, parent_eq,
}
use glass_lint.PathTrie.Store.{PathStore}
use glass_lint.PathTrie.Store.Valid.{IsValid, IsEarlier, handle}

-- A parent under which a node may be pushed at the depth `d`.
abbrev pub IsParent : PathStore → ParentRef → ℕ → Type 0
IsParent st q d =
    (p : PathId)
    → q ≡ local p
    → IsEarlier st p (length st.nodes)
      × ((m : PathNode) → get_elem? st.nodes p.index ≡ some m → d ≡ m.depth + 1)

abbrev pub pushed : ParentRef → PathSegment → ℕ → PathNode
pushed q s d = record { parent = q; depth = d; segment = some s }

-- The store with that node, at the handle of index `k`.
abbrev pub after : PathStore → ParentRef → PathSegment → ℕ → ℕ → PathStore
after st q s k d = record st {
  nodes = st.nodes ++ pushed q s d ∷ [];
  by_edge = insert (q, s) (handle st k) st.by_edge;
}

module _ (st : PathStore) (valid : IsValid st) (q : ParentRef) (s : PathSegment) (k d : ℕ)
    (size : length st.nodes ≡ suc k) (room : length st.nodes ≤ u32_max)
    (absent : lookup (q, s) st.by_edge ≡ none) (fits : IsParent st q d) where
  pub last_node : get_elem? (st.nodes ++ (pushed q s d) ∷ []) (suc k) ≡ some (pushed q s d)
  last_node =
      ap (get_elem? (st.nodes ++ (pushed q s d) ∷ [])) (sym size)
      ∙ get_elem?-append_end st.nodes (pushed q s d)

  after-IsEarlier :
      (i : ℕ) (n : PathNode) (p : PathId)
      → get_elem? (st.nodes ++ (pushed q s d) ∷ []) (suc i) ≡ some n
      → n.parent ≡ local p
      → IsEarlier st p (suc i)
  after-IsEarlier i n p found par =
      elim (get_elem?-append_cases st.nodes (pushed q s d) n (suc i) found) [
        | inl (old, inside) ↦ valid.earlier i n p old par
        | inr (at, same) ↦
            let given : q ≡ local p = cc in subst (IsEarlier st p) (sym at) (fits p given).0
      ]

  after-level :
      (i : ℕ) (n m : PathNode) (p : PathId)
      → get_elem? (st.nodes ++ (pushed q s d) ∷ []) (suc i) ≡ some n
      → n.parent ≡ local p
      → get_elem? (st.nodes ++ (pushed q s d) ∷ []) p.index ≡ some m
      → n.depth ≡ m.depth + 1
  after-level i n m p found par up =
      elim (get_elem?-append_cases st.nodes (pushed q s d) n (suc i) found) [
        | inl (old, inside) ↦
            valid.level i n m p old par (below p i (valid.earlier i n p old par) inside m up)
        | inr (at, same) ↦
            let given : q ≡ local p = cc in
            let deep : n.depth ≡ d = ap (λ (x : PathNode). x.depth) same in
            let up' = at_parent p (fits p given).0 m up in deep ∙ (fits p given).1 m up'
      ]
    where
      at_parent :
          (p : PathId)
          → IsEarlier st p (length st.nodes)
          → (m : PathNode) → get_elem? (st.nodes ++ (pushed q s d) ∷ []) p.index ≡ some m
          → get_elem? st.nodes p.index ≡ some m
      at_parent p (inl root) m h =
          sym (
            get_elem?-append_left st.nodes ((pushed q s d) ∷ []) p.index
              (omega (arith, ap (λ (x : PathId). x.index) root)))
          ∙ h
      at_parent p (inr (own, pos, lt)) m h =
          sym (get_elem?-append_left st.nodes ((pushed q s d) ∷ []) p.index lt) ∙ h

      below :
          (p : PathId) (i : ℕ)
          → IsEarlier st p (suc i)
          → suc i < length st.nodes
          → (m : PathNode) → get_elem? (st.nodes ++ (pushed q s d) ∷ []) p.index ≡ some m
          → get_elem? st.nodes p.index ≡ some m
      below p i (inl root) inside m h = at_parent p (inl root) m h
      below p i (inr (own, pos, lt)) inside m h = at_parent p (inr (own, pos, omega arith)) m h

  after-edge_to :
      (r : ParentRef) (t : PathSegment) (id : PathId)
      → lookup (r, t) (after st q s k d).by_edge ≡ some id
      → (i : ℕ) × (n : PathNode) × (id ≡ handle st i)
        × (get_elem? (st.nodes ++ (pushed q s d) ∷ []) (suc i) ≡ some n)
        × (n.parent ≡ r)
        × (n.segment ≡ some t)
  after-edge_to r t id h =
      let old_key : ParentRef × PathSegment = (q, s) in
      let key : ParentRef × PathSegment = (r, t) in
      elim (==_cases old_key key) [
        | inl same ↦
            let at : handle st k ≡ id =
              some_injective (sym (lookup-insert_same (handle st k) st.by_edge same) ∙ h) in
            (
              k,
              (pushed q s d),
              sym at,
              last_node,
              ap (λ (x : ParentRef × PathSegment). x.0) same,
              ap (λ (x : ParentRef × PathSegment). some x.1) same,
            )
        | inr other ↦
            let before : lookup key st.by_edge ≡ some id =
              sym (lookup-insert_other (handle st k) st.by_edge other) ∙ h in
            let (i, n, at, found, par, seg) = valid.edge_to r t id before in
            (
              i,
              n,
              at,
              get_elem?-append_left st.nodes ((pushed q s d) ∷ []) (suc i)
                    (lt_of_get_elem? st.nodes (suc i) found)
                  ∙ found,
              par,
              seg,
            )
      ]

  after-edge_from :
      (i : ℕ) (n : PathNode) (t : PathSegment)
      → get_elem? (st.nodes ++ (pushed q s d) ∷ []) (suc i) ≡ some n
      → n.segment ≡ some t
      → lookup (n.parent, t) (after st q s k d).by_edge ≡ some (handle st i)
  after-edge_from i n t found seg =
      let old_key : ParentRef × PathSegment = (q, s) in
      let key : ParentRef × PathSegment = (n.parent, t) in
      elim (get_elem?-append_cases st.nodes (pushed q s d) n (suc i) found) [
        | inl (old, inside) ↦
            let before : lookup key st.by_edge ≡ some (handle st i) =
              valid.edge_from i n t old seg in
            let other : old_key ≢ key = λ (e : old_key ≡ key).
              let clash : none ≡ some (handle st i) =
                sym absent ∙ ap (λ (x : ParentRef × PathSegment). lookup x st.by_edge) e ∙ before in
              cc in
            lookup-insert_other (handle st k) st.by_edge other ∙ before
        | inr (at, same) ↦
            let same_key : old_key ≡ key = cc in
            let place : k ≡ i = omega arith in
            lookup-insert_same (handle st k) st.by_edge same_key
            ∙ ap (λ (x : ℕ). some (handle st x)) place
      ]

  pub after-IsValid : IsValid (after st q s k d)
  after-IsValid = record {
    owned = valid.owned;
    small = omega (arith, length-append st.nodes ((pushed q s d) ∷ []));
    root = get_elem?-append_left st.nodes ((pushed q s d) ∷ []) 0 (omega arith) ∙ valid.root;
    earlier = after-IsEarlier;
    level = after-level;
    edge_to = after-edge_to;
    edge_from = after-edge_from;
  }
