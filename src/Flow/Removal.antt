-- ===== src/Flow/Removal.antt =====
-- Removal of what is recorded for an index keeps the invariant.
use glass_lint.Prelude.{ℕ, ◌<◌, ◌≡◌, ◌≢◌, sym, ap, ◌∙◌, subst, inl, inr}
use glass_lint.Prelude.{false, ◌&&◌, not, Option, some, none, nat_beq, nat_beq_iff, Bool-cases}
use glass_lint.Prelude.{[], arith, ==_cases, nat_eq}
use glass_lint.Prelude.Order.{Ord, nat_ord}
use glass_lint.Prelude.Words.{Word, word_bits}
use glass_lint.Prelude.Sorted.{get, delete}
use glass_lint.Prelude.Sorted.Maps.{
  IsMap, present, absent, keyed, delete-IsMap, get-delete_same, delete_hit, delete_miss,
}
use glass_lint.Prelude.Sorted.Extensional.{get-delete_other}
use glass_lint.Flow.{BoundedIndex, EvidenceValues, IndexedEvidence, is_empty, remove}
use glass_lint.Flow.Values.{IsOrderedSet}
use glass_lint.Flow.Indexed.{is_some, IsValid, remove-present, remove-absent, with_entries}

bit_clear : (i j : ℕ) (m : Word) → m i ≡ false → m j ≡ (m j && not (nat_beq i j))
bit_clear i j m h = elim (Bool-cases (nat_beq i j)) [
  | inr other ↦ ground arith
  | inl same ↦ ground (arith, ap m ((nat_beq_iff i j).0 same))
]

module _ {K : Type 0} ⦃o : Ord K⦄ where
  -- What `remove` does to the mask and to the entries.
  pub record Deleted (i : BoundedIndex) (e : IndexedEvidence K)
      (r : IndexedEvidence K × Option (EvidenceValues K)) : Type 0 where
    pub entries_deleted : r.0.entries ≡ delete i e.entries
    pub mask_cleared : (j : ℕ) → r.0.mask j ≡ (e.mask j && not (nat_beq i j))
    pub given : r.1 ≡ get i e.entries

  module _ (i : BoundedIndex) (e : IndexedEvidence K) (valid : IsValid e) where
    pub remove-Deleted : Deleted i e (remove i e)
    remove-Deleted = elim (keyed i [] e.entries valid.sorted) [
      | present ls rs vs whole before after at ↦
          let r = ap (remove i) (with_entries e whole) ∙ remove-present i e.mask ls rs before vs in
          record {
            entries_deleted =
                ap (λ x. x.0.entries) r
                ∙ sym (ap (delete i) whole ∙ delete_hit i [] ls rs before vs);
            mask_cleared = λ j. ap (λ x. x.0.mask j) r;
            given = ap (λ x. x.1) r ∙ sym at;
          }
      | absent ls rs whole before after at ↦
          let r =
            ap (remove i) (with_entries e whole) ∙ remove-absent i e.mask ls rs before after in
          record {
            entries_deleted =
                ap (λ x. x.0.entries) r
                ∙ sym (ap (delete i) whole ∙ delete_miss i [] ls rs before after);
            mask_cleared =
                λ j. ap (λ x. x.0.mask j) r ∙ bit_clear i j e.mask (valid.masked i ∙ ap is_some at);
            given = ap (λ x. x.1) r ∙ sym at;
          }
    ]

    get-remove_same : get i (remove i e).0.entries ≡ none
    get-remove_same =
        ap (get i) remove-Deleted.entries_deleted ∙ get-delete_same i [] e.entries valid.sorted

    get-remove_other : (j : ℕ) → j ≢ i → get j (remove i e).0.entries ≡ get j e.entries
    get-remove_other j apart =
        ap (get j) remove-Deleted.entries_deleted
        ∙ get-delete_other j i [] e.entries apart valid.sorted

    kept_by :
        {P : ℕ → EvidenceValues K → Type 0}
        → ((j : ℕ) (vs : EvidenceValues K) → get j e.entries ≡ some vs → P j vs)
        → (j : ℕ) (vs : EvidenceValues K) → get j (remove i e).0.entries ≡ some vs
        → P j vs
    kept_by all j vs at = elim (==_cases j i) [
      | inl same ↦
          absurd (
            none_some
              (sym get-remove_same ∙ ap (λ x. get x (remove i e).0.entries) (sym same) ∙ at))
      | inr apart ↦ all j vs (sym (get-remove_other j apart) ∙ at)
    ]
      where
        none_some : {vs : EvidenceValues K} → none ≡ some vs → ⊥
        none_some h = cc

    pub remove-IsValid : IsValid (remove i e).0
    remove-IsValid = record {
      sorted =
          subst (λ l. IsMap l) (sym remove-Deleted.entries_deleted)
            (delete-IsMap i [] e.entries valid.sorted);
      bounded = kept_by {P = λ j vs. j < word_bits} valid.bounded;
      filled = kept_by {P = λ j vs. IsOrderedSet vs × (is_empty vs ≡ false)} valid.filled;
      masked = λ j. elim (==_cases j i) [
        | inl same ↦
            remove-Deleted.mask_cleared j
            ∙ ground (arith, (nat_beq_iff i j).1 (sym same))
            ∙ sym (ap is_some (ap (λ x. get x (remove i e).0.entries) same ∙ get-remove_same))
        | inr apart ↦
            remove-Deleted.mask_cleared j
            ∙ ground (arith, nat_beq_iff i j)
            ∙ valid.masked j
            ∙ sym (ap is_some (get-remove_other j apart))
      ];
    }
