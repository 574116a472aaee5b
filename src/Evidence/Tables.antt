-- ===== src/Evidence/Tables.antt =====
-- The table: what an operation changes, and what a merge holds.
use glass_lint.Prelude.{
  ℕ, ◌≤◌, ◌<◌, ◌≡◌, ◌≢◌, inl, inr, refl, ap, ◌∙◌, sym, subst, [], ◌∷◌, ◌++◌, map,
}
use glass_lint.Prelude.{
  some, ltb, ltb→lt, nat_beq, nat_beq_iff, append-nil, if◌then◌else◌, arith, Bool-cases, Result, ok,
  err,
}
use glass_lint.Evidence.{Rows, find_row, update_row, merge_rows, mark_rows, mark_possible}
use glass_lint.Evidence.{
  RuleEvidenceTable, RuleEvidenceError, rule_out_of_range, capacity_mismatch, for_rule,
  change_items, merge_equal_capacity, mark_all_possible,
}
use glass_lint.Evidence.Rows.{
  find_row-above, Items, IsOrdered, IsBelow, or_empty, items_at, find_row-update_row,
  update_row-IsOrdered, update_row-IsBelow,
}

-- The rows stand in the order of their rules, which the capacity covers.
pub record IsValid (t : RuleEvidenceTable) : Type 0 where
  pub ordered : IsOrdered t.values
  pub below : IsBelow t.capacity t.values

-- The outcome of a change to the items of one rule.
pub data Changed (rule : ℕ) (change : Items → Items) (t : RuleEvidenceTable)
    (r : Result RuleEvidenceTable RuleEvidenceError) : Type 0 where
  refused :
      t.capacity ≤ rule → r ≡ err (rule_out_of_range rule t.capacity) → Changed rule change t r
  changed :
      (t' : RuleEvidenceTable)
      → rule < t.capacity
      → r ≡ ok t'
      → IsValid t'
      → ((j : ℕ)
          → for_rule j t'
            ≡ (if nat_beq j rule then some (change (items_at rule t.values)) else for_rule j t))
      → Changed rule change t r

-- An operation on a rule within the capacity changes the items of that rule, those of a rule without
-- any being none, leaves every other rule as it was and the table valid; a rule beyond the capacity
-- is refused. The operations are `record`, `mark_event_truncated` and `replace`, by their change.
pub change_items-Changed :
    (rule : ℕ) (change : Items → Items) (t : RuleEvidenceTable)
    → IsValid t
    → Changed rule change t (change_items rule change t)
unfolding change_items
change_items-Changed rule change t v = elim (Bool-cases (ltb rule t.capacity)) [
  | inl inside ↦
      let lt = ltb→lt rule t.capacity inside in
      changed (record t { values = update_row rule change t.values }) lt (rw inside refl)
        (record {
          ordered = update_row-IsOrdered rule change t.values v.ordered;
          below = update_row-IsBelow t.capacity rule change t.values lt v.below;
        })
        (λ j. find_row-update_row rule j change t.values v.ordered)
  | inr outside ↦ refused (ground arith) (rw outside refl)
]

rest-IsOrdered :
    (k : ℕ) (items : Items) (rows : Rows) → IsOrdered ((k, items) ∷ rows) → IsOrdered rows
rest-IsOrdered k items [] h = tt
rest-IsOrdered k items ((j, more) ∷ rows) h = h.1

merge_rows-IsOrdered : (rows other : Rows) → IsOrdered rows → IsOrdered (merge_rows rows other)
unfolding merge_rows
merge_rows-IsOrdered rows [] h = h
merge_rows-IsOrdered rows ((k, items) ∷ other) h =
    merge_rows-IsOrdered (update_row k (λ old. old ++ items) rows) other
      (update_row-IsOrdered k (λ old. old ++ items) rows h)

merge_rows-IsBelow :
    (n : ℕ) (rows other : Rows)
    → IsBelow n rows
    → IsBelow n other
    → IsBelow n (merge_rows rows other)
unfolding merge_rows
merge_rows-IsBelow n rows [] h g = h
merge_rows-IsBelow n rows ((k, items) ∷ other) h (lt, g) =
    merge_rows-IsBelow n (update_row k (λ old. old ++ items) rows) other
      (update_row-IsBelow n k (λ old. old ++ items) rows lt h) g

items_at-update_row :
    (k j : ℕ) (items : Items) (rows : Rows)
    → IsOrdered rows
    → items_at j (update_row k (λ old. old ++ items) rows)
      ≡ (if nat_beq j k then items_at k rows ++ items else items_at j rows)
items_at-update_row k j items rows h =
    let read = find_row-update_row k j (λ old. old ++ items) rows h in
    elim (Bool-cases (nat_beq j k)) [
      | inl here ↦ ap or_empty read ∙ (rw here)
      | inr there ↦ ap or_empty read ∙ (rw there)
    ]

merge_rows-items :
    (rows other : Rows) (j : ℕ)
    → IsOrdered rows
    → IsOrdered other
    → items_at j (merge_rows rows other) ≡ items_at j rows ++ items_at j other
unfolding merge_rows find_row
merge_rows-items rows [] j h g = sym (append-nil (items_at j rows))
merge_rows-items rows ((k, items) ∷ other) j h g =
    let next = update_row k (λ old. old ++ items) rows in
    let rec =
      merge_rows-items next other j (update_row-IsOrdered k (λ old. old ++ items) rows h)
        (rest-IsOrdered k items other g) in
    let step = items_at-update_row k j items rows h in
    elim (Bool-cases (nat_beq j k)) [
      | inl here ↦
          let jk : j ≡ k = (nat_beq_iff j k).0 here in
          let absent : items_at j other ≡ [] =
            ap or_empty (find_row-above k j other g (omega arith)) in
          let kept : items_at j next ≡ items_at j rows ++ items =
            step ∙ (rw here (ap (λ i. items_at i rows ++ items) (sym jk))) in
          rw here (
            rec
            ∙ ap (λ l. l ++ items_at j other) kept
            ∙ ap (λ l. (items_at j rows ++ items) ++ l) absent
            ∙ append-nil (items_at j rows ++ items))
      | inr there ↦ rw there (rec ∙ ap (λ l. l ++ items_at j other) (step ∙ (rw there refl)))
    ]

-- The outcome of a merge.
pub data Merged (a b : RuleEvidenceTable) (r : Result RuleEvidenceTable RuleEvidenceError)
    : Type 0 where
  mismatch :
      a.capacity ≢ b.capacity → r ≡ err (capacity_mismatch a.capacity b.capacity) → Merged a b r
  merged :
      (t : RuleEvidenceTable)
      → a.capacity ≡ b.capacity
      → r ≡ ok t
      → IsValid t
      → ((j : ℕ) → items_at j t.values ≡ items_at j a.values ++ items_at j b.values)
      → Merged a b r

-- Merging valid tables of one capacity gives a valid table that holds, for every rule, the items of
-- the first and then those of the second; tables of two capacities are refused.
pub merge_equal_capacity-Merged :
    (a b : RuleEvidenceTable) → IsValid a → IsValid b → Merged a b (merge_equal_capacity a b)
unfolding merge_equal_capacity
merge_equal_capacity-Merged a b va vb = elim (Bool-cases (nat_beq a.capacity b.capacity)) [
  | inl same ↦
      let cap = (nat_beq_iff a.capacity b.capacity).0 same in
      merged (record a { values = merge_rows a.values b.values }) cap (rw same refl)
        (record {
          ordered = merge_rows-IsOrdered a.values b.values va.ordered;
          below =
              merge_rows-IsBelow a.capacity a.values b.values va.below
                (subst (λ n. IsBelow n b.values) (sym cap) vb.below);
        })
        (λ j. merge_rows-items a.values b.values j va.ordered vb.ordered)
  | inr other ↦ mismatch (λ e. ground (arith, e, other)) (rw other refl)
]

-- After marking everything possible each rule has its items, each marked possible.
for_rule-mark_all_possible :
    (j : ℕ) (t : RuleEvidenceTable)
    → items_at j (mark_all_possible t).values ≡ map mark_possible (items_at j t.values)
unfolding find_row mark_rows
for_rule-mark_all_possible j t = rows_marked t.values
  where
    rows_marked : (rows : Rows) → items_at j (mark_rows rows) ≡ map mark_possible (items_at j rows)
    rows_marked [] = refl
    rows_marked ((k, items) ∷ rows) = elim (Bool-cases (nat_beq j k)) [
      | inl here ↦ rw here refl
      | inr there ↦ rw there (rows_marked rows)
    ]
