-- ===== src/Flow/Rollback.antt =====
-- Taking back what was recorded, and recording again what was cleared.
use glass_lint.Prelude.{some_injective, append-nil, ℕ, ◌≡◌, refl, sym, ap, ◌∙◌, subst, fun_ext}
use glass_lint.Prelude.{Bool, true, false, Option, some}
use glass_lint.Prelude.{List, [], ◌∷◌, ◌++◌, append_assoc, arith, length, nat_beq_iff}
use glass_lint.Prelude.Order.{Ord, nat_ord, lt}
use glass_lint.Prelude.Words.{Word, bit_word, or_word, and_not_word}
use glass_lint.Prelude.Sorted.{key_of}
use glass_lint.Prelude.Sorted.Splits.{
  IsBefore, IsAfter, search_hit, remove_at-length, set-length, get_elem?-length,
}
use glass_lint.Prelude.Sorted.Maps.{present, absent, keyed}
use glass_lint.Flow.{
  BoundedIndex, EvidenceValues, IndexedEvidence, insert_value, remove_value, is_empty, insert,
  remove, remove_event, remove_value_found, drop_empty, restore, from_value,
}
use glass_lint.Flow.Values.{
  IsOrderedSet, itself, old, fresh, insert_value-Inserted, insert_value-end, from_value_lem,
}
use glass_lint.Flow.Indexed.{
  Entries, IsValid, insert-present, insert-absent, remove-present, remove-absent, with_entries,
  is_some,
}

-- Setting a clear bit and clearing it again.
clear_set :
    (i : ℕ) (m : Word) → m i ≡ false → and_not_word (or_word m (bit_word i)) (bit_word i) ≡ m
clear_set i m h = fun_ext λ j. ground (arith, nat_beq_iff i j, λ (e : i ≡ j). ap m e)

set_clear : (i : ℕ) (m : Word) → m i ≡ true → or_word (and_not_word m (bit_word i)) (bit_word i) ≡ m
set_clear i m h = fun_ext λ j. ground (arith, nat_beq_iff i j, λ (e : i ≡ j). ap m e)

module _ {K : Type 0} ⦃o : Ord K⦄ where
  module _ (i : BoundedIndex) (v : K) (m : Word) (ls rs : Entries K)
      (before : IsBefore key_of i ls) where
    remove_event-present :
        (vs : EvidenceValues K)
        → remove_event i v (record { mask = m; entries = ls ++ (i, vs) ∷ rs })
          ≡ remove_value_found i (length ls) v (record { mask = m; entries = ls ++ (i, vs) ∷ rs })
    unfolding remove_event
    remove_event-present vs = rw (search_hit key_of i ls rs (i, vs) before refl, remove_event)

    -- Taking one of several values leaves the entry.
    remove_event-kept :
        (vs ws : EvidenceValues K)
        → remove_value v vs ≡ (ws, true)
        → is_empty ws ≡ false
        → remove_event i v (record { mask = m; entries = ls ++ (i, vs) ∷ rs })
          ≡ (record { mask = m; entries = ls ++ (i, ws) ∷ rs }, true)
    unfolding remove_value_found drop_empty
    remove_event-kept vs ws removed full =
        remove_event-present vs
        ∙ (rw (get_elem?-length ls rs (i, vs), remove_value_found)
            (rw removed (
              rw full (
                ap (λ l. (record { mask = m; entries = l }, true))
                  (set-length ls rs (i, vs) (i, ws))))))

    -- Taking the only value takes the entry and its bit.
    remove_event-last :
        (vs : EvidenceValues K)
        → remove_value v vs ≡ ([], true)
        → remove_event i v (record { mask = m; entries = ls ++ (i, vs) ∷ rs })
          ≡ (record { mask = and_not_word m (bit_word i); entries = ls ++ rs }, true)
    unfolding remove_value_found drop_empty
    remove_event-last vs removed =
        remove_event-present vs
        ∙ (rw (get_elem?-length ls rs (i, vs), remove_value_found)
            (rw removed (
              ap (λ l. (record { mask = and_not_word m (bit_word i); entries = l }, true))
                (remove_at-length ls rs (i, vs)))))

  remove_value-from_value : (v : K) → remove_value v (from_value v) ≡ ([], true)
  unfolding from_value
  remove_value-from_value v = elim (insert_value-Inserted v [] tt) [
    | old r m ↦ absurd m
    | fresh ws r new a_set full back mem ↦ ap (λ x. remove_value v x.0) r ∙ back
  ]

  module _ (i : BoundedIndex) (v : K) (e : IndexedEvidence K) (valid : IsValid e) where
    -- With valid evidence, removing an event that `insert` has recorded as new answers `true` and
    -- gives the evidence from before it: the values, the entries and the mask.
    pub remove_event-insert :
        (insert i v e).1 ≡ true → remove_event i v (insert i v e).0 ≡ (e, true)
    remove_event-insert new = elim (keyed i [] e.entries valid.sorted) [
      | present ls rs vs whole before after at ↦
          let r =
            ap (insert i v) (with_entries e whole) ∙ insert-present i e.mask ls rs before v vs in
          elim (insert_value-Inserted v vs (valid.filled i vs at).0) [
            | old s m ↦
                let flag : (insert_value v vs).1 ≡ true = sym (ap (λ x. x.1) r) ∙ new in
                cc (ap (λ (x : EvidenceValues K × Bool). x.1) s)
            | fresh ws s other a_set full back mem ↦
                ap (λ x. remove_event i v x.0) r
                ∙ ap
                    (λ (x : EvidenceValues K × Bool).
                      remove_event i v (record { mask = e.mask; entries = ls ++ (i, x.0) ∷ rs }))
                    s
                ∙ remove_event-kept i v e.mask ls rs before ws vs back (valid.filled i vs at).1
                ∙ ap (λ x. (x, true)) (sym (with_entries e whole))
          ]
      | absent ls rs whole before after at ↦
          let r =
            ap (insert i v) (with_entries e whole) ∙ insert-absent i e.mask ls rs before after v in
          let clear : e.mask i ≡ false = valid.masked i ∙ ap is_some at in
          ap (λ x. remove_event i v x.0) r
          ∙ remove_event-last i v (or_word e.mask (bit_word i)) ls rs before (from_value v)
              (remove_value-from_value v)
          ∙ ap (λ w. (record { mask = w; entries = ls ++ rs }, true)) (clear_set i e.mask clear)
          ∙ ap (λ x. (x, true)) (sym (with_entries e whole))
    ]

  IsAfter-middle : (x k : K) (ls rs : List K) → IsAfter itself x (ls ++ k ∷ rs) → lt x k ≡ true
  IsAfter-middle x k [] rs h = h.0
  IsAfter-middle x k (y ∷ ls) rs h = IsAfter-middle x k ls rs h.1

  IsBefore-sorted : (k : K) (ls rs : List K) → IsOrderedSet (ls ++ k ∷ rs) → IsBefore itself k ls
  IsBefore-sorted k [] rs s = tt
  IsBefore-sorted k (x ∷ ls) rs (first, rest) =
      (IsAfter-middle x k ls rs first, IsBefore-sorted k ls rs rest)

  -- Restoring adds values larger than those there are at the end, one by one.
  restore-present :
      (i : BoundedIndex) (m : Word) (ls rs : Entries K) (ps vs : EvidenceValues K)
      → IsBefore key_of i ls
      → IsOrderedSet (ps ++ vs)
      → restore i vs (record { mask = m; entries = ls ++ (i, ps) ∷ rs })
        ≡ record { mask = m; entries = ls ++ (i, ps ++ vs) ∷ rs }
  unfolding restore
  restore-present i m ls rs ps [] before s =
      ap (λ l. record { mask = m; entries = ls ++ (i, l) ∷ rs }) (sym (append-nil ps))
  restore-present i m ls rs ps (v ∷ vs) before s =
      let step : (insert i v (record { mask = m; entries = ls ++ (i, ps) ∷ rs })).0
          ≡ record { mask = m; entries = ls ++ (i, ps ++ v ∷ []) ∷ rs } =
        ap (λ x. x.0) (insert-present i m ls rs before v ps)
        ∙ ap (λ (x : EvidenceValues K × Bool). record { mask = m; entries = ls ++ (i, x.0) ∷ rs })
            (insert_value-end v ps (IsBefore-sorted v ps vs s)) in
      let regroup : (ps ++ v ∷ []) ++ vs ≡ ps ++ v ∷ vs = append_assoc ps (v ∷ []) vs in
      ap (restore i vs) step
      ∙ restore-present i m ls rs (ps ++ v ∷ []) vs before
          (subst (λ l. IsOrderedSet l) (sym regroup) s)
      ∙ ap (λ l. record { mask = m; entries = ls ++ (i, l) ∷ rs }) regroup

  restore-absent :
      (i : BoundedIndex) (m : Word) (ls rs : Entries K) (vs : EvidenceValues K)
      → IsBefore key_of i ls
      → IsAfter key_of i rs
      → IsOrderedSet vs
      → is_empty vs ≡ false
      → restore i vs (record { mask = m; entries = ls ++ rs })
        ≡ record { mask = or_word m (bit_word i); entries = ls ++ (i, vs) ∷ rs }
  unfolding restore
  restore-absent i m ls rs [] before after s full = cc
  restore-absent i m ls rs (v ∷ vs) before after s full =
      ap (λ x. restore i vs x.0) (insert-absent i m ls rs before after v)
      ∙ ap
          (λ x.
            restore i vs (record { mask = or_word m (bit_word i); entries = ls ++ (i, x) ∷ rs }))
          (from_value_lem v)
      ∙ restore-present i (or_word m (bit_word i)) ls rs (v ∷ []) vs before s

  module _ (i : BoundedIndex) (e : IndexedEvidence K) (valid : IsValid e) where
    -- With valid evidence, restoring the values that `remove` has given back yields the evidence from
    -- before it: the values, the entries and the mask.
    pub restore-remove :
        (vs : EvidenceValues K) → (remove i e).1 ≡ some vs → restore i vs (remove i e).0 ≡ e
    restore-remove vs given = elim (keyed i [] e.entries valid.sorted) [
      | present ls rs ws whole before after at ↦
          let r = ap (remove i) (with_entries e whole) ∙ remove-present i e.mask ls rs before ws in
          let same : vs ≡ ws = some_injective (sym given ∙ ap (λ x. x.1) r) in
          let full = valid.filled i ws at in
          let set_bit : e.mask i ≡ true = valid.masked i ∙ ap is_some at in
          ap (λ x. restore i vs x.0) r
          ∙ ap
              (λ l.
                restore i l
                  (record { mask = and_not_word e.mask (bit_word i); entries = ls ++ rs }))
              same
          ∙ restore-absent i (and_not_word e.mask (bit_word i)) ls rs ws before after full.0 full.1
          ∙ ap (λ w. record { mask = w; entries = ls ++ (i, ws) ∷ rs }) (set_clear i e.mask set_bit)
          ∙ sym (with_entries e whole)
      | absent ls rs whole before after at ↦
          let r =
            ap (remove i) (with_entries e whole) ∙ remove-absent i e.mask ls rs before after in
          cc (ap (λ (x : IndexedEvidence K × Option (EvidenceValues K)). x.1) r)
    ]
