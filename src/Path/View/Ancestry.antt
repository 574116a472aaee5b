-- ===== src/Path/View/Ancestry.antt =====
-- Prefixes, tails and ancestry of views.
use glass_lint.Prelude.{
  ltb→lt, ℕ, zero, suc, ◌+◌, ◌≤◌, ◌<◌, ◌≡◌, refl, sym, ap, subst, ◌∙◌, ◌≢◌, true, none, some,
}
use glass_lint.Prelude.{
  List, [], ◌∷◌, ◌++◌, ◌∈◌, ◌↔◌, ◌⊎◌, inl, inr, arith, Eq, list_eq, list_beq_iff, ltb,
}
use glass_lint.Prelude.{
  length, length-append, take, drop, take-append-drop, take-append, length-take,
}
use glass_lint.Prelude.{
  Bool-cases, le→leb, mem-map, mem_of_map, map, range, length-map, nat_beq, nat_beq_iff,
}
use glass_lint.Path.View.{PathView, prefix_at, tail_after, prefixes, is_equal_or_descendant_of}
use glass_lint.Path.View.{without_last_segment, without_first_segment, last_segment, first_segment}

mem-range : (start count i : ℕ) → start ≤ i → i < start + count → i ∈ range start count
mem-range start zero i low high = absurd (omega arith)
mem-range start (suc count) i low high = elim (Bool-cases (nat_beq i start)) [
  | inl same ↦ inl ((nat_beq_iff i start).0 same)
  | inr more ↦ inr (mem-range (start + 1) count i (ground arith) (omega arith))
]

range_bounds : (start count i : ℕ) → i ∈ range start count → (start ≤ i) × (i < start + count)
range_bounds start zero i m = absurd m
range_bounds start (suc count) i (inl h) = omega arith
range_bounds start (suc count) i (inr m) = omega (arith, range_bounds (start + 1) count i m)

length-range : (start count : ℕ) → length (range start count) ≡ count
length-range start zero = refl
length-range start (suc count) = ap suc (length-range (start + 1) count)

module _ {T : Type 0} where
  length-pos : (q : List T) → q ≢ [] → 0 < length q
  length-pos [] h = absurd (h refl)
  length-pos (x ∷ q) h = omega arith

  -- The two halves at a position: past the end both are refused; else they make up the view, the
  -- first as long as asked.
  prefix_at-tail_after :
      (n : ℕ) (view : PathView T)
      → (length view < n) × (prefix_at n view ≡ none) × (tail_after n view ≡ none)
        ⊎ (p t : PathView T) × (prefix_at n view ≡ some p)
          × (tail_after n view ≡ some t)
          × (p ++ t ≡ view)
          × (length p ≡ n)
  unfolding prefix_at tail_after
  prefix_at-tail_after n view = elim (Bool-cases (ltb (length view) n)) [
    | inl far ↦ inl (ltb→lt _ _ far, rw far refl, rw far refl)
    | inr near ↦ inr (
      take n view,
      drop n view,
      rw near refl,
      rw near refl,
      take-append-drop n view,
      length-take n view (ground arith),
    )
  ]

  module _ ⦃e : Eq T⦄ where
    -- A view is equal to or a descendant of a root exactly when it is the root and a rest.
    is_equal_or_descendant_of_iff :
        (root view : PathView T)
        → (is_equal_or_descendant_of root view ≡ true) ↔ ((rest : List T) × (view ≡ root ++ rest))
    unfolding is_equal_or_descendant_of
    is_equal_or_descendant_of_iff root view = (
      λ h.
          let same : take (length root) view ≡ root =
            (list_beq_iff (take (length root) view) root).0 (ground arith) in
          (
            drop (length root) view,
            sym (take-append-drop (length root) view) ∙ ap (λ l. l ++ drop (length root) view) same,
          ),
      λ (rest, whole).
          let fits =
            le→leb (length root) (length view)
              (omega (arith, ap length whole, length-append root rest)) in
          let same : take (length root) view ≡ root =
            ap (take (length root)) whole ∙ take-append root rest in
          rw fits ((list_beq_iff (take (length root) view) root).1 same),
    )

  -- `prefixes` are the views that are not empty and that the view is or descends from; there are
  -- as many of them as segments.
  mem-prefixes :
      ⦃e : Eq T⦄ (q view : PathView T)
      → ((q ∈ prefixes view) ↔ ((q ≢ []) × (is_equal_or_descendant_of q view ≡ true)))
        × (length (prefixes view) ≡ length view)
  unfolding prefixes
  mem-prefixes q view = (
    (
      λ m.
          let (n, within, same) = mem_of_map (λ n. take n view) q (range 1 (length view)) m in
          let (low, high) = range_bounds 1 (length view) n within in
          let size : length q ≡ n = ap length same ∙ length-take n view (omega arith) in
          (
            λ nil. absurd (omega (arith, ap length nil)),
            (is_equal_or_descendant_of_iff q view).1 (
              drop n view,
              sym (take-append-drop n view) ∙ ap (λ l. l ++ drop n view) (sym same),
            ),
          ),
      λ (filled, descends).
          let (rest, whole) = (is_equal_or_descendant_of_iff q view).0 descends in
          let low = length-pos q filled in
          let high : length q < 1 + length view =
            omega (arith, ap length whole, length-append q rest) in
          subst (λ l. l ∈ map (λ n. take n view) (range 1 (length view)))
            (ap (take (length q)) whole ∙ take-append q rest)
            (mem-map (λ n. take n view) (length q) (range 1 (length view))
              (mem-range 1 (length view) (length q) low high)),
    ),
    length-map (λ n. take n view) (range 1 (length view)) ∙ length-range 1 (length view),
  )

  split_last :
      (x : T) (xs : List T)
      → (last : T) × (last_segment (x ∷ xs) ≡ some last)
        × (take (length xs) (x ∷ xs) ++ last ∷ [] ≡ x ∷ xs)
  unfolding last_segment
  split_last x [] = (x, refl, refl)
  split_last x (y ∷ xs) =
      let (last, found, whole) = split_last y xs in (last, found, ap (λ l. x ∷ l) whole)

  -- A view that is not empty is its part without the last segment and that segment, and its first
  -- segment and the part without it; an empty view has none of these.
  without_segments :
      (view : PathView T)
      → (view ≡ [])
          × (without_last_segment view ≡ none)
          × (last_segment view ≡ none)
          × (without_first_segment view ≡ none)
          × (first_segment view ≡ none)
        ⊎ (start end : PathView T) × (first last : T) × (without_last_segment view ≡ some start)
          × (last_segment view ≡ some last)
          × (start ++ last ∷ [] ≡ view)
          × (first_segment view ≡ some first)
          × (without_first_segment view ≡ some end)
          × (first ∷ end ≡ view)
  unfolding without_last_segment without_first_segment first_segment last_segment
  without_segments [] = inl (refl, refl, refl, refl, refl)
  without_segments (x ∷ xs) =
      let (last, found, whole) = split_last x xs in
      inr (
        take (length xs) (x ∷ xs),
        xs,
        x,
        last,
        ap (λ n. some (take n (x ∷ xs))) (omega arith),
        found,
        whole,
        refl,
        refl,
        refl,
      )
