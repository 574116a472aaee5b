-- ===== src/Flow/Values.antt =====
-- The sorted values recorded for one index of a lifecycle.
use glass_lint.Prelude.{◌≡◌, refl, sym, ap, ◌∙◌, subst, ◌⊎◌, inl, inr, ◌↔◌, Bool, true, false}
use glass_lint.Prelude.{List, [], ◌∷◌, ◌++◌, append-nil, arith, ◌∈◌, mem-append}
use glass_lint.Prelude.Order.{Ord, lt}
use glass_lint.Prelude.Sorted.Splits.{
  hit, miss, split, IsBefore, IsAfter, IsSorted, IsSorted-insert, search_hit, search_miss,
  insert_at-length, remove_at-length,
}
use glass_lint.Flow.{EvidenceValues, insert_value, remove_value, from_value, is_empty}

module _ {K : Type 0} ⦃o : Ord K⦄ where
  abbrev pub itself : K → K
  itself k = k

  abbrev pub IsOrderedSet : EvidenceValues K → Type 0
  IsOrderedSet vs = IsSorted itself vs

  pub not-mem-IsBefore : (k : K) (ls : List K) → IsBefore itself k ls → ¬ (k ∈ ls)
  not-mem-IsBefore k [] h m = m
  not-mem-IsBefore k (x ∷ ls) (h, hs) (inl e) =
      cc (subst (λ y. lt y k ≡ true) (sym e) h, o.irrefl k)
  not-mem-IsBefore k (x ∷ ls) (h, hs) (inr m) = not-mem-IsBefore k ls hs m

  pub not-mem-IsAfter : (k : K) (rs : List K) → IsAfter itself k rs → ¬ (k ∈ rs)
  not-mem-IsAfter k [] h m = m
  not-mem-IsAfter k (x ∷ rs) (h, hs) (inl e) = cc (subst (λ y. lt k y ≡ true) (sym e) h, o.irrefl k)
  not-mem-IsAfter k (x ∷ rs) (h, hs) (inr m) = not-mem-IsAfter k rs hs m

  mem_middle : (a k : K) (ls rs : List K) → (a ∈ ls ++ k ∷ rs) ↔ ((a ≡ k) ⊎ (a ∈ ls ++ rs))
  mem_middle a k [] rs = (λ m. m, λ m. m)
  mem_middle a k (x ∷ ls) rs = ground (arith, mem_middle a k ls rs)

  insert_value-miss :
      (k : K) (ls rs : List K)
      → IsBefore itself k ls
      → IsAfter itself k rs
      → insert_value k (ls ++ rs) ≡ (ls ++ k ∷ rs, true)
  unfolding insert_value
  insert_value-miss k ls rs before after =
      rw (search_miss itself k ls rs before after, insert_value)
        (ap (λ l. (l, true)) (insert_at-length ls rs k))

  insert_value-hit :
      (k : K) (ls rs : List K)
      → IsBefore itself k ls
      → insert_value k (ls ++ k ∷ rs) ≡ (ls ++ k ∷ rs, false)
  unfolding insert_value
  insert_value-hit k ls rs before = rw (search_hit itself k ls rs k before refl, insert_value)

  remove_value-hit :
      (k : K) (ls rs : List K)
      → IsBefore itself k ls
      → remove_value k (ls ++ k ∷ rs) ≡ (ls ++ rs, true)
  unfolding remove_value
  remove_value-hit k ls rs before =
      rw (search_hit itself k ls rs k before refl, remove_value)
        (ap (λ l. (l, true)) (remove_at-length ls rs k))

  -- A larger value goes to the end.
  pub insert_value-end :
      (k : K) (ls : List K) → IsBefore itself k ls → insert_value k ls ≡ (ls ++ k ∷ [], true)
  insert_value-end k ls before =
      ap (insert_value k) (sym (append-nil ls)) ∙ insert_value-miss k ls [] before tt

  pub from_value_lem : (k : K) → from_value k ≡ k ∷ []
  unfolding from_value
  from_value_lem k = ap (λ r. r.0) (insert_value-end k [] tt)

  -- What an insertion does to a set of values.
  pub data Inserted (k : K) (vs : EvidenceValues K) (r : EvidenceValues K × Bool) : Type 0 where
    old : r ≡ (vs, false) → k ∈ vs → Inserted k vs r
    fresh :
        (ws : EvidenceValues K)
        → r ≡ (ws, true)
        → ¬ (k ∈ vs)
        → IsOrderedSet ws
        → is_empty ws ≡ false
        → remove_value k ws ≡ (vs, true)
        → ((a : K) → (a ∈ ws) ↔ ((a ≡ k) ⊎ (a ∈ vs)))
        → Inserted k vs r

  nonempty_middle : (k : K) (ls rs : List K) → is_empty (ls ++ k ∷ rs) ≡ false
  nonempty_middle k [] rs = refl
  nonempty_middle k (x ∷ ls) rs = refl

  pub insert_value-Inserted :
      (k : K) (vs : EvidenceValues K) → IsOrderedSet vs → Inserted k vs (insert_value k vs)
  insert_value-Inserted k vs s = elim (split itself k vs s) [
    | hit ls rs a whole same before after ↦
        let whole' : vs ≡ ls ++ k ∷ rs = whole ∙ ap (λ x. ls ++ x ∷ rs) same in
        old
          (ap (insert_value k) whole'
            ∙ insert_value-hit k ls rs before
            ∙ ap (λ l. (l, false)) (sym whole'))
          (subst (λ l. k ∈ l) (sym whole') ((mem_middle k k ls rs).1 (inl refl)))
    | miss ls rs whole before after ↦
        fresh (ls ++ k ∷ rs) (ap (insert_value k) whole ∙ insert_value-miss k ls rs before after)
          (λ m. elim ((mem-append k ls rs).0 (subst (λ l. k ∈ l) whole m)) [
            | inl left ↦ not-mem-IsBefore k ls before left
            | inr right ↦ not-mem-IsAfter k rs after right
          ])
          (IsSorted-insert itself ls rs k (subst (λ l. IsOrderedSet l) whole s) before after)
          (nonempty_middle k ls rs)
          (remove_value-hit k ls rs before ∙ ap (λ l. (l, true)) (sym whole))
          (λ a.
            subst (λ l. (a ∈ ls ++ k ∷ rs) ↔ ((a ≡ k) ⊎ (a ∈ l))) (sym whole)
              (mem_middle a k ls rs))
  ]
