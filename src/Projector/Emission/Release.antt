-- ===== src/Projector/Emission/Release.antt =====
-- What a write to the counts, and the release of a reservation, leave.
use glass_lint.Prelude.{
  ℕ, ◌+◌, ◌-◌, ◌≤◌, ◌≡◌, ◌≢◌, sym, ap, ◌∙◌, subst, some, Bool-cases, List, inl, inr, arith, nat_beq,
  if◌then◌else◌,
}
use glass_lint.Prelude.Order.{same_cases}
use glass_lint.Prelude.Sorted.{get, put, delete}
use glass_lint.Prelude.Sorted.Maps.{IsMap, put-IsMap, delete-IsMap, get-put_same, get-delete_same}
use glass_lint.Prelude.Sorted.Extensional.{get-put_other, get-delete_other}
use glass_lint.Projector.Emission.{ReportEvidenceKey, report_ord, or_zero, released}
use glass_lint.Projector.Emission.Accounts.{total, total-put, total-delete}

module _ (key : ReportEvidenceKey) (n : ℕ) (emitted : List (ReportEvidenceKey × ℕ))
    (sorted : IsMap emitted) where
  -- A count of each key at most `m` stays so.
  pub each-put :
      (m : ℕ)
      → n ≤ m
      → ((k : ReportEvidenceKey) → or_zero (get k emitted) ≤ m)
      → (k : ReportEvidenceKey) → or_zero (get k (put key n emitted)) ≤ m
  each-put m small all k = elim (same_cases k key) [
    | inl same ↦ omega (
      arith,
      ap or_zero (ap (λ x. get x (put key n emitted)) same ∙ get-put_same key n emitted sorted),
    )
    | inr apart ↦ omega (arith, all k, ap or_zero (get-put_other k key n emitted apart sorted))
  ]

  -- Writing the count that is there, or a zero where there is none, changes no count.
  pub same-put :
      n ≡ or_zero (get key emitted)
      → (k : ReportEvidenceKey) → or_zero (get k (put key n emitted)) ≡ or_zero (get k emitted)
  same-put h k = elim (same_cases k key) [
    | inl same ↦
        ap or_zero (ap (λ x. get x (put key n emitted)) same ∙ get-put_same key n emitted sorted)
        ∙ h
        ∙ ap (λ x. or_zero (get x emitted)) (sym same)
    | inr apart ↦ ap or_zero (get-put_other k key n emitted apart sorted)
  ]

-- The two lists count the same emissions.
pub record Agrees (before after : List (ReportEvidenceKey × ℕ)) : Type 0 where
  pub sorted : IsMap after
  pub summed : total after ≡ total before
  pub each : (k : ReportEvidenceKey) → or_zero (get k after) ≡ or_zero (get k before)

-- The release of a reservation.
module _ (key : ReportEvidenceKey) (n : ℕ) (emitted : List (ReportEvidenceKey × ℕ))
    (sorted : IsMap emitted) (counted : n ≡ or_zero (get key emitted)) where
  abbrev pub made : List (ReportEvidenceKey × ℕ)
  made = put key (n + 1) emitted

  made-IsMap : IsMap made
  made-IsMap = put-IsMap key (n + 1) emitted sorted

  made-at : get key made ≡ some (n + 1)
  made-at = get-put_same key (n + 1) emitted sorted

  made-total : total made ≡ total emitted + 1
  made-total = omega (arith, total-put key (n + 1) emitted sorted, counted)

  released_each :
      (after : List (ReportEvidenceKey × ℕ))
      → or_zero (get key after) ≡ n
      → ((k : ReportEvidenceKey) → k ≢ key → get k after ≡ get k made)
      → (k : ReportEvidenceKey) → or_zero (get k after) ≡ or_zero (get k emitted)
  released_each after here others k = elim (same_cases k key) [
    | inl same ↦
        ap (λ x. or_zero (get x after)) same
        ∙ here
        ∙ counted
        ∙ ap (λ x. or_zero (get x emitted)) (sym same)
    | inr apart ↦ ap or_zero (others k apart ∙ get-put_other k key (n + 1) emitted apart sorted)
  ]

  pub released-Agrees : Agrees emitted (released key (n + 1) made)
  released-Agrees = elim (Bool-cases (nat_beq n 0)) [
    | inl last ↦
        let zero : n ≡ 0 = ground arith in
        let after : released key (n + 1) made ≡ delete key made =
          unfold released in
          ap (λ x. if nat_beq x 0 then delete key made else put key x made) {x = n + 1 - 1} {y = 0}
            (omega (arith, zero)) in
        let gone = get-delete_same key n made made-IsMap in
        subst (Agrees emitted) (sym after) (record {
          sorted = delete-IsMap key n made made-IsMap;
          summed =
              omega
                (arith, total-delete key n made made-IsMap, ap or_zero made-at, made-total, zero);
          each =
              released_each (delete key made) (omega (arith, ap or_zero gone, zero))
                (λ k apart. get-delete_other k key n made apart made-IsMap);
        })
    | inr more ↦
        let after : released key (n + 1) made ≡ put key n made =
          unfold released in
          ap (λ x. if nat_beq x 0 then delete key made else put key x made) {x = n + 1 - 1} {y = n}
            (omega arith)
          ∙ ap (λ b. if b then delete key made else put key n made) more in
        subst (Agrees emitted) (sym after) (record {
          sorted = put-IsMap key n made made-IsMap;
          summed = omega (arith, total-put key n made made-IsMap, ap or_zero made-at, made-total);
          each =
              released_each (put key n made) (ap or_zero (get-put_same key n made made-IsMap))
                (λ k apart. get-put_other k key n made apart made-IsMap);
        })
  ]
