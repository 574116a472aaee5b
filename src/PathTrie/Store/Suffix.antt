-- ===== src/PathTrie/Store/Suffix.antt =====
-- The first segment of a path and the path without it.
use glass_lint.Prelude.{
  ℕ, zero, suc, ◌+◌, ◌<◌, ◌≡◌, ◌↔◌, inl, inr, refl, sym, ap, subst, ◌∙◌, some, none, Option,
}
use glass_lint.Prelude.{
  List, [], ◌∷◌, ◌++◌, reverse, length, length-append, arith, false, Option-cases, some_injective,
}
use glass_lint.Prelude.{pair_eq}
use mathlib.Core.List.{reverse_aux, reverse_aux-eq, reverse-reverse}
use glass_lint.PathTrie.{PathId, empty, PathSegment, id_eq, segment_eq, parent_eq}
use glass_lint.PathTrie.Store.{PathStore, segment, is_empty, first_loop, first_segment_of}
use glass_lint.PathTrie.Store.{find_edge, find_all, rest_loop, rebuild_without_first, without_first}
use glass_lint.PathTrie.Store.Valid.{IsValid, Spells, Spells-index, Spells-inside, Spells-interned}
use glass_lint.PathTrie.Store.Append.{Spells-local_id, edge_node, unspelled}
use glass_lint.PathTrie.Store.Walks.{step_lem, ancestor_lem}

module _ (st : PathStore) (valid : IsValid st) where
  first_loop_lem :
      (fuel : ℕ) (id : PathId) (us : List PathSegment) (s : PathSegment) (last : Option PathSegment)
      → Spells st id (us ++ s ∷ [])
      → length us + 1 < fuel
      → first_loop fuel last id st ≡ some s
  unfolding first_loop
  first_loop_lem zero id us s last h lt = absurd (omega arith)
  first_loop_lem (suc zero) id us s last h lt = absurd (omega arith)
  first_loop_lem (suc (suc fuel)) id [] s last h lt =
      let (n, p, other, at, seg, par, rest) = step_lem st valid id s [] h in
      rw (other, at, seg, par, rest) refl
  first_loop_lem (suc (suc fuel)) id (u ∷ us) s last h lt =
      let (n, p, other, at, seg, par, rest) = step_lem st valid id u (us ++ s ∷ []) h in
      rw (other, at, seg, par) (first_loop_lem (suc fuel) p us s (some u) rest (omega arith))

  -- The first segment of a path is the one below the root.
  first_segment_of_lem :
      (id : PathId) (us : List PathSegment) (s : PathSegment)
      → Spells st id (us ++ s ∷ [])
      → first_segment_of id st ≡ some s
  unfolding first_segment_of
  first_segment_of_lem id us s h = rw (Spells-local_id st id (us ++ s ∷ []) valid h) (
      first_loop_lem (suc (length st.nodes)) id us s none h (
        omega (
          arith,
          Spells-index st valid (us ++ s ∷ []) id h,
          Spells-inside st valid (us ++ s ∷ []) id h,
          length-append us (s ∷ []),
        )))

  rest_loop_lem :
      (fuel : ℕ) (id : PathId) (us : List PathSegment) (s : PathSegment)
      → Spells st id (us ++ s ∷ [])
      → length us < fuel
      → rest_loop fuel id st ≡ some us
  unfolding rest_loop
  rest_loop_lem zero id us s h lt = absurd (omega arith)
  rest_loop_lem (suc fuel) id [] s h lt =
      let (n, p, other, at, seg, par, rest) = step_lem st valid id s [] h in rw (at, par, rest) refl
  rest_loop_lem (suc fuel) id (u ∷ us) s h lt =
      let (n, p, other, at, seg, par, rest) = step_lem st valid id u (us ++ s ∷ []) h in
      let inner : is_empty p ≡ false = not_root p us s rest in
      rw (at, par, inner, seg, rest_loop_lem fuel p us s rest (omega arith)) refl
    where
      not_root :
          (p : PathId) (us : List PathSegment) (s : PathSegment)
          → Spells st p (us ++ s ∷ [])
          → is_empty p ≡ false
      not_root p [] s h =
          let (n, q, other, at, seg, par, rest) = step_lem st valid p s [] h in other
      not_root p (u ∷ us) s h =
          let (n, q, other, at, seg, par, rest) = step_lem st valid p u (us ++ s ∷ []) h in other

  find_edge-Spells :
      (id jd : PathId) (s : PathSegment) (ss : List PathSegment)
      → Spells st id ss
      → find_edge id s st ≡ some jd
      → Spells st jd (s ∷ ss)
  unfolding find_edge
  find_edge-Spells id jd s ss h found =
      edge_node st valid id s ss h jd (rw (Spells-local_id st id ss valid h) at found)

  find_edge-none :
      (id : PathId) (s : PathSegment) (ss : List PathSegment)
      → Spells st id ss
      → find_edge id s st ≡ none
      → (jd : PathId) → ¬ Spells st jd (s ∷ ss)
  unfolding find_edge
  find_edge-none id s ss h missing =
      unspelled st valid id s ss h (rw (Spells-local_id st id ss valid h) at missing)

  -- A handle of a path lies below a handle of what stands in front.
  above :
      (xs ss : List PathSegment) (jd : PathId)
      → Spells st jd (reverse_aux xs ss)
      → (id : PathId) × Spells st id ss
  above xs ss jd h =
      let (id, far, path) =
        ancestor_lem st valid (reverse xs) ss jd (subst (Spells st jd) (reverse_aux-eq xs ss) h) in
      (id, path)

  find_all_iff :
      (xs ss : List PathSegment) (id jd : PathId)
      → Spells st id ss
      → (find_all xs id st ≡ some jd) ↔ Spells st jd (reverse_aux xs ss)
  unfolding find_all
  find_all_iff [] ss id jd h = (
    λ e. subst (λ x. Spells st x ss) (some_injective e) h,
    λ g. ap some (Spells-interned st valid ss id jd h g),
  )
  find_all_iff (x ∷ xs) ss id jd h = elim (Option-cases (find_edge id x st)) [
    | inl missing ↦ (
      λ e. let clash : none ≡ some jd = rw missing at e in absurd cc,
      λ g.
          let (kd, path) = above xs (x ∷ ss) jd g in
          absurd (find_edge-none id x ss h missing kd path),
    )
    | inr (kd, found) ↦
        let rec = find_all_iff xs (x ∷ ss) kd jd (find_edge-Spells id kd x ss h found) in
        (λ e. rec.0 (rw found at e), λ g. rw found (rec.1 g))
  ]

  without_first-find_all :
      (id : PathId) (us : List PathSegment) (s : PathSegment)
      → Spells st id (us ++ s ∷ [])
      → without_first id st ≡ find_all (reverse us) empty st
  unfolding without_first rebuild_without_first
  without_first-find_all id us s h =
      let (last, seg) = last_segment us h in
      let rest : rest_loop (suc (length st.nodes)) id st ≡ some us =
        rest_loop_lem (suc (length st.nodes)) id us s h (
          omega (
            arith,
            Spells-index st valid (us ++ s ∷ []) id h,
            Spells-inside st valid (us ++ s ∷ []) id h,
            length-append us (s ∷ []),
          )) in
      rw (seg, Spells-local_id st id (us ++ s ∷ []) valid h, rest) refl
    where
      last_segment :
          (us : List PathSegment)
          → Spells st id (us ++ s ∷ [])
          → (last : PathSegment) × (segment id st ≡ some last)
      last_segment [] h =
          let (n, q, other, at, seg, par, rest) = step_lem st valid id s [] h in (s, seg)
      last_segment (u ∷ us) h =
          let (n, q, other, at, seg, par, rest) = step_lem st valid id u (us ++ s ∷ []) h in
          (u, seg)

  -- `without_first` returns exactly the handle that spells the path without its first segment, and
  -- so nothing where the store has none.
  pub without_first_iff :
      (id jd : PathId) (us : List PathSegment) (s : PathSegment)
      → Spells st id (us ++ s ∷ [])
      → (without_first id st ≡ some jd) ↔ Spells st jd us
  without_first_iff id jd us s h =
      let through = find_all_iff (reverse us) [] empty jd refl in
      let whole : reverse_aux (reverse us) [] ≡ us = reverse-reverse us in
      let same = without_first-find_all id us s h in
      (
        λ e. subst (Spells st jd) whole (through.0 (sym same ∙ e)),
        λ g. same ∙ through.1 (subst (Spells st jd) (sym whole) g),
      )
