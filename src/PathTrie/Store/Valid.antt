-- ===== src/PathTrie/Store/Valid.antt =====
-- What holds of every store, and the paths that its handles spell.
use glass_lint.Prelude.{
  ℕ, suc, ◌+◌, ◌≤◌, ◌<◌, ◌≡◌, ◌≢◌, ◌⊎◌, inl, inr, refl, sym, ap, subst, ◌∙◌, some,
}
use glass_lint.Prelude.{
  List, [], ◌∷◌, ◌++◌, length, get_elem?, get_elem?-append_left, lt_of_get_elem?, arith, u32_max,
}
use glass_lint.Prelude.{pair_eq, some_injective}
use glass_lint.Prelude.Assoc.{lookup}
use glass_lint.PathTrie.{
  PathId, empty, PathSegment, ParentRef, local, PathNode, id_eq, segment_eq, parent_eq,
}
use glass_lint.PathTrie.Store.{with_max_nodes, PathStore, root_node}

-- A local parent of the node at an index: the root, or an earlier node of the same store.
abbrev pub IsEarlier : PathStore → PathId → ℕ → Type 0
IsEarlier st p k = (p ≡ empty) ⊎ (p.owner ≡ st.owner) × (0 < p.index) × (p.index < k)

abbrev pub handle : PathStore → ℕ → PathId
handle st i = record { index = suc i; owner = st.owner }

pub record IsValid (st : PathStore) : Type 0 where
  pub owned : st.owner ≢ 0
  pub small : length st.nodes ≤ u32_max + 1
  pub root : get_elem? st.nodes 0 ≡ some root_node
  -- Local parents stand before their children, one level above them.
  pub earlier :
      (i : ℕ) (n : PathNode) (p : PathId)
      → get_elem? st.nodes (suc i) ≡ some n
      → n.parent ≡ local p
      → IsEarlier st p (suc i)
  pub level :
      (i : ℕ) (n m : PathNode) (p : PathId)
      → get_elem? st.nodes (suc i) ≡ some n
      → n.parent ≡ local p
      → get_elem? st.nodes p.index ≡ some m
      → n.depth ≡ m.depth + 1
  -- The edges are those of the nodes behind the root.
  pub edge_to :
      (q : ParentRef) (s : PathSegment) (id : PathId)
      → lookup (q, s) st.by_edge ≡ some id
      → (i : ℕ) × (n : PathNode) × (id ≡ handle st i)
        × (get_elem? st.nodes (suc i) ≡ some n)
        × (n.parent ≡ q)
        × (n.segment ≡ some s)
  pub edge_from :
      (i : ℕ) (n : PathNode) (s : PathSegment)
      → get_elem? st.nodes (suc i) ≡ some n
      → n.segment ≡ some s
      → lookup (n.parent, s) st.by_edge ≡ some (handle st i)

-- The handle is one of the store's, and its segments, the last first, are these.
abbrev pub Spells : PathStore → PathId → List PathSegment → Type 0
Spells st id [] = id ≡ empty
Spells st id (s ∷ ss) =
    (i : ℕ) × (n : PathNode) × (p : PathId) × (id ≡ handle st i)
    × (get_elem? st.nodes (suc i) ≡ some n)
    × (n.segment ≡ some s)
    × (n.parent ≡ local p)
    × Spells st p ss

-- A handle spells one path.
pub Spells-unique :
    (st : PathStore) (id : PathId) (ss ts : List PathSegment)
    → Spells st id ss
    → Spells st id ts
    → ss ≡ ts
Spells-unique st id [] [] hs ht = refl
Spells-unique st id [] (t ∷ ts) hs (i, n, p, at, _, _, _, _) =
    absurd (omega (arith, ap (λ (x : PathId). x.index) (sym hs ∙ at)))
Spells-unique st id (s ∷ ss) [] (i, n, p, at, _, _, _, _) ht =
    absurd (omega (arith, ap (λ (x : PathId). x.index) (sym ht ∙ at)))
Spells-unique st id (s ∷ ss) (t ∷ ts) (i, n, p, at, found, seg, par, rest)
      (j, m, q, at', found', seg', par', rest') =
    let ij : i ≡ j = omega (arith, ap (λ (x : PathId). x.index) (sym at ∙ at')) in
    let nm : n ≡ m = cc in
    let pq : p ≡ q = cc in
    let st_eq : s ≡ t = cc in
    let rec = Spells-unique st p ss ts rest (subst (λ x. Spells st x ts) (sym pq) rest') in cc

module _ (st : PathStore) (valid : IsValid st) where
  -- Two handles that spell one path are equal: paths are interned.
  pub Spells-interned :
      (ss : List PathSegment) (id jd : PathId) → Spells st id ss → Spells st jd ss → id ≡ jd
  Spells-interned [] id jd hs ht = hs ∙ sym ht
  Spells-interned (s ∷ ss) id jd (i, n, p, at, found, seg, par, rest)
        (j, m, q, at', found', seg', par', rest') =
      let pq = Spells-interned ss p q rest rest' in
      let here = valid.edge_from i n s found seg in
      let there = valid.edge_from j m s found' seg' in
      let key : n.parent ≡ m.parent = cc in
      at ∙ some_injective (sym here ∙ ap (λ k. lookup (k, s) st.by_edge) key ∙ there) ∙ sym at'

  pub Spells-index : (ss : List PathSegment) (id : PathId) → Spells st id ss → length ss ≤ id.index
  Spells-index [] id h = omega arith
  Spells-index (s ∷ ss) id (i, n, p, at, found, seg, par, rest) =
      let below = Spells-index ss p rest in
      elim (valid.earlier i n p found par) [
        | inl root ↦
            omega (arith, ap (λ (x : PathId). x.index) at, ap (λ (x : PathId). x.index) root)
        | inr (own, pos, lt) ↦ omega (arith, ap (λ (x : PathId). x.index) at)
      ]

  pub Spells-inside :
      (ss : List PathSegment) (id : PathId) → Spells st id ss → id.index < length st.nodes
  Spells-inside [] id h =
      omega (arith, ap (λ (x : PathId). x.index) h, lt_of_get_elem? st.nodes 0 valid.root)
  Spells-inside (s ∷ ss) id (i, n, p, at, found, seg, par, rest) =
      omega (arith, ap (λ (x : PathId). x.index) at, lt_of_get_elem? st.nodes (suc i) found)

  pub Spells-IsEarlier :
      (ss : List PathSegment) (id : PathId) → Spells st id ss → IsEarlier st id (length st.nodes)
  Spells-IsEarlier [] id h = inl h
  Spells-IsEarlier (s ∷ ss) id (i, n, p, at, found, seg, par, rest) =
      let inside = lt_of_get_elem? st.nodes (suc i) found in
      inr (ap (λ (x : PathId). x.owner) at, rw at (omega arith), rw at inside)

  -- The node of a handle, with the depth of its path.
  pub Spells-node :
      (ss : List PathSegment) (id : PathId)
      → Spells st id ss
      → (n : PathNode) × (get_elem? st.nodes id.index ≡ some n) × (n.depth ≡ length ss)
  Spells-node [] id h = (root_node, rw h valid.root, refl)
  Spells-node (s ∷ ss) id (i, n, p, at, found, seg, par, rest) =
      let (m, up, d) = Spells-node ss p rest in
      (n, rw at found, omega (arith, valid.level i n m p found par up))

-- What a store spells it spells still when nodes are added.
pub Spells-append :
    (st su : PathStore) (new_nodes : List PathNode) (ss : List PathSegment) (id : PathId)
    → su.owner ≡ st.owner
    → su.nodes ≡ st.nodes ++ new_nodes
    → Spells st id ss
    → Spells su id ss
Spells-append st su new_nodes [] id own grown h = h
Spells-append st su new_nodes (s ∷ ss) id own grown (i, n, p, at, found, seg, par, rest) = (
  i,
  n,
  p,
  rw own at,
  ap (λ l. get_elem? l (suc i)) grown
      ∙ get_elem?-append_left st.nodes new_nodes (suc i) (lt_of_get_elem? st.nodes (suc i) found)
      ∙ found,
  seg,
  par,
  Spells-append st su new_nodes ss p own grown rest,
)

-- A fresh store is valid; its number is not 0, which stands for no store.
pub with_max_nodes-IsValid :
    (max_nodes next_store_id : ℕ)
    → next_store_id ≢ 0
    → IsValid (with_max_nodes max_nodes next_store_id).0
unfolding lookup
with_max_nodes-IsValid max_nodes next_store_id numbered = record {
  owned = numbered;
  small = omega arith;
  root = refl;
  earlier = λ i n p found par. absurd cc;
  level = λ i n m p found par up. absurd cc;
  edge_to = λ q s id h. absurd cc;
  edge_from = λ i n s found seg. absurd cc;
}
