-- ===== src/PathTrie/Store/Walks.antt =====
-- The walks from a handle up to the root, and what they read of its path.
use glass_lint.Prelude.{
  ℕ, zero, suc, ◌-◌, ◌≤◌, ◌<◌, ◌≡◌, ◌↔◌, inl, inr, refl, sym, ap, subst, ◌∙◌, some,
}
use glass_lint.Prelude.{
  List, [], ◌∷◌, ◌++◌, reverse, length, length-append, get_elem?, arith, pair_eq,
}
use glass_lint.Prelude.{true, false, Bool-cases, ltb, ltb→lt, ◌==◌, ==→≡, ==_refl}
use glass_lint.PathTrie.{PathId, PathSegment, local, PathNode, id_eq, segment_eq, parent_eq}
use glass_lint.PathTrie.Store.{
  PathStore, local_id, node, segment, is_empty, depth, parent_ref, ancestor,
}
use glass_lint.PathTrie.Store.{starts_with, collect_loop, collect_segments}
use glass_lint.PathTrie.Store.Valid.{
  IsValid, Spells, Spells-node, Spells-inside, Spells-index, Spells-unique, Spells-interned,
}
use glass_lint.PathTrie.Store.Append.{Spells-local_id}

module _ (st : PathStore) (valid : IsValid st) where
  node_lem :
      (id : PathId) (ss : List PathSegment)
      → Spells st id ss
      → node id st ≡ get_elem? st.nodes id.index
  unfolding node
  node_lem id ss h = rw (Spells-local_id st id ss valid h) refl

  -- What one step of a walk reads of a handle that is not the root.
  abbrev pub Step : PathId → PathSegment → List PathSegment → Type 0
  Step id s ss =
      (n : PathNode) × (p : PathId) × (is_empty id ≡ false)
      × (node id st ≡ some n)
      × (segment id st ≡ some s)
      × (n.parent ≡ local p)
      × Spells st p ss

  pub step_lem :
      (id : PathId) (s : PathSegment) (ss : List PathSegment) → Spells st id (s ∷ ss) → Step id s ss
  unfolding segment
  step_lem id s ss (i, n, p, at, found, seg, par, rest) =
      let path : Spells st id (s ∷ ss) = (i, n, p, at, found, seg, par, rest) in
      let here : local_id id st ≡ some id = Spells-local_id st id (s ∷ ss) valid path in
      let up : get_elem? st.nodes id.index ≡ some n = rw at found in
      let other : is_empty id ≡ false = rw at (ground arith) in
      (n, p, other, node_lem id (s ∷ ss) path ∙ up, rw (here, other, up) seg, par, rest)

  collect_loop_lem :
      (fuel : ℕ) (id : PathId) (ss : List PathSegment)
      → Spells st id ss
      → length ss < fuel
      → collect_loop fuel id st ≡ some ss
  unfolding collect_loop
  collect_loop_lem zero id ss h lt = absurd (omega arith)
  collect_loop_lem (suc fuel) id [] h lt = rw (h, collect_loop) refl
  collect_loop_lem (suc fuel) id (s ∷ ss) h lt =
      let (n, p, other, at, seg, par, rest) = step_lem id s ss h in
      rw (other, at, seg, par, collect_loop_lem fuel p ss rest (omega arith)) refl

  -- `collect_segments` returns the segments of a path from the root on, never `none`.
  pub collect_segments_lem :
      (id : PathId) (ss : List PathSegment)
      → Spells st id ss
      → collect_segments id st ≡ some (reverse ss)
  unfolding collect_segments
  collect_segments_lem id ss h =
      rw
        (
          Spells-local_id st id ss valid h,
          collect_loop_lem (suc (length st.nodes)) id ss h
              (omega (arith, Spells-index st valid ss id h, Spells-inside st valid ss id h)),
        )
        refl

  -- The depth of a handle that spells a path is the length of the path.
  pub depth_lem :
      (id : PathId) (ss : List PathSegment) → Spells st id ss → depth id st ≡ some (length ss)
  unfolding depth
  depth_lem id ss h =
      let (n, found, d) = Spells-node st valid ss id h in rw (node_lem id ss h ∙ found) (ap some d)

  parent_ref_lem :
      (id : PathId) (s : PathSegment) (ss : List PathSegment)
      → Spells st id (s ∷ ss)
      → (p : PathId) × (parent_ref id st ≡ some (local p)) × Spells st p ss
  unfolding parent_ref
  parent_ref_lem id s ss h =
      let (n, p, other, at, seg, par, rest) = step_lem id s ss h in (p, rw at (ap some par), rest)

  -- As many links up as there are segments in front leads to the handle of the rest.
  pub ancestor_lem :
      (us ts : List PathSegment) (id : PathId)
      → Spells st id (us ++ ts)
      → (jd : PathId) × (ancestor (length us) id st ≡ some jd) × Spells st jd ts
  unfolding ancestor
  ancestor_lem [] ts id h = (id, refl, h)
  ancestor_lem (u ∷ us) ts id h =
      let (p, up, rest) = parent_ref_lem id u (us ++ ts) h in
      let (jd, far, path) = ancestor_lem us ts p rest in (jd, rw (up, ancestor) far, path)

  starts_with-ancestor :
      (id p jd : PathId) (ss ts : List PathSegment)
      → Spells st id ss
      → Spells st p ts
      → ltb (length ss) (length ts) ≡ false
      → ancestor (length ss - length ts) id st ≡ some jd
      → starts_with id p st ≡ (jd == p)
  unfolding starts_with
  starts_with-ancestor id p jd ss ts h g long far =
      rw
        (
          depth_lem id ss h,
          depth_lem p ts g,
          long,
          far,
          Spells-local_id st p ts valid g,
          starts_with,
        )
        refl

  starts_with-shorter :
      (id p : PathId) (ss ts : List PathSegment)
      → Spells st id ss
      → Spells st p ts
      → ltb (length ss) (length ts) ≡ true
      → starts_with id p st ≡ false
  unfolding starts_with
  starts_with-shorter id p ss ts h g short =
      rw (depth_lem id ss h, depth_lem p ts g, short, starts_with) refl

  split_at :
      (k : ℕ) (ss : List PathSegment)
      → k ≤ length ss
      → (us : List PathSegment) × (vs : List PathSegment) × (ss ≡ us ++ vs) × (length us ≡ k)
  split_at zero ss le = ([], ss, refl, refl)
  split_at (suc k) [] le = absurd (omega arith)
  split_at (suc k) (s ∷ ss) le =
      let (us, vs, eq, len) = split_at k ss (omega arith) in
      (s ∷ us, vs, ap (λ l. s ∷ l) eq, ap suc len)

  -- `starts_with` holds for exactly the handles whose path has the other's path in front.
  pub starts_with_iff :
      (id p : PathId) (ss ts : List PathSegment)
      → Spells st id ss
      → Spells st p ts
      → (starts_with id p st ≡ true) ↔ ((us : List PathSegment) × (ss ≡ us ++ ts))
  starts_with_iff id p ss ts h g = (into, from)
    where
      into : starts_with id p st ≡ true → (us : List PathSegment) × (ss ≡ us ++ ts)
      into holds = elim (Bool-cases (ltb (length ss) (length ts))) [
        | inl short ↦
            let clash : false ≡ true = sym (starts_with-shorter id p ss ts h g short) ∙ holds in
            absurd cc
        | inr long ↦
            let (us, vs, eq, len) = split_at (length ss - length ts) ss (omega arith) in
            let (jd, far, path) = ancestor_lem us vs id (subst (Spells st id) eq h) in
            let far' : ancestor (length ss - length ts) id st ≡ some jd =
              ap (λ k. ancestor k id st) (sym len) ∙ far in
            let same : (jd == p) ≡ true =
              sym (starts_with-ancestor id p jd ss ts h g long far') ∙ holds in
            let jp : jd ≡ p = ==→≡ jd p same in
            let vt : vs ≡ ts = Spells-unique st p vs ts (subst (λ x. Spells st x vs) jp path) g in
            (us, eq ∙ ap (λ l. us ++ l) vt)
      ]

      from : (us : List PathSegment) × (ss ≡ us ++ ts) → starts_with id p st ≡ true
      from (us, eq) = elim (Bool-cases (ltb (length ss) (length ts))) [
        | inl short ↦ absurd (omega (arith, ltb→lt _ _ short, length-append us ts, ap length eq))
        | inr long ↦
            let (jd, far, path) = ancestor_lem us ts id (subst (Spells st id) eq h) in
            let len : length us ≡ length ss - length ts =
              omega (arith, length-append us ts, ap length eq) in
            let far' : ancestor (length ss - length ts) id st ≡ some jd =
              ap (λ k. ancestor k id st) (sym len) ∙ far in
            let jp : jd ≡ p = Spells-interned st valid ts jd p path g in
            starts_with-ancestor id p jd ss ts h g long far'
            ∙ ap (λ (x : PathId). x == p) jp
            ∙ ==_refl p
      ]
