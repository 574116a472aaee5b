-- ===== src/Projector/Emission/Accounts.antt =====
-- The counters of the sink agree with each other and with the bounds.
use glass_lint.Prelude.{ℕ, ◌+◌, ◌≤◌, ◌≡◌, refl, sym, ap, ◌∙◌, List, [], ◌∷◌, ◌++◌, arith}
use glass_lint.Prelude.Sorted.{get, put, delete, binary_search_by_key}
use glass_lint.Prelude.Sorted.Maps.{
  IsMap, present, absent, keyed, put_hit, put_miss, delete_hit, delete_miss,
}
use glass_lint.Evidence.{RuleEvidenceTable}
use glass_lint.Projector.Emission.{ReportEvidenceKey, report_ord, FlowEvidence, new, or_zero}

pub total : List (ReportEvidenceKey × ℕ) → ℕ
total [] = 0
total ((key, count) ∷ emitted) = count + total emitted

total-append : (ls rs : List (ReportEvidenceKey × ℕ)) → total (ls ++ rs) ≡ total ls + total rs
unfolding total
total-append [] rs = omega arith
total-append ((key, count) ∷ ls) rs = omega (arith, total-append ls rs)

module _ (key : ReportEvidenceKey) (n : ℕ) (emitted : List (ReportEvidenceKey × ℕ))
    (sorted : IsMap emitted) where
  -- Writing a count moves the total by the difference to the old one.
  pub total-put : total (put key n emitted) + or_zero (get key emitted) ≡ total emitted + n
  unfolding total
  total-put = elim (keyed key n emitted sorted) [
    | present ls rs w whole before after at ↦ omega (
      arith,
      ap or_zero at,
      ap total whole,
      ap total (ap (put key n) whole ∙ put_hit key n ls rs before w),
      total-append ls ((key, w) ∷ rs),
      total-append ls ((key, n) ∷ rs),
    )
    | absent ls rs whole before after at ↦ omega (
      arith,
      ap or_zero at,
      ap total whole,
      ap total (ap (put key n) whole ∙ put_miss key n ls rs before after),
      total-append ls rs,
      total-append ls ((key, n) ∷ rs),
    )
  ]

  pub total-delete : total (delete key emitted) + or_zero (get key emitted) ≡ total emitted
  unfolding total
  total-delete = elim (keyed key n emitted sorted) [
    | present ls rs w whole before after at ↦ omega (
      arith,
      ap or_zero at,
      ap total whole,
      ap total (ap (delete key) whole ∙ delete_hit key n ls rs before w),
      total-append ls ((key, w) ∷ rs),
      total-append ls rs,
    )
    | absent ls rs whole before after at ↦ omega (
      arith,
      ap or_zero at,
      ap total (ap (delete key) whole ∙ delete_miss key n ls rs before after ∙ sym whole),
    )
  ]

pub record IsAccounted (f : FlowEvidence) : Type 0 where
  pub sorted : IsMap f.emitted
  pub summed : total f.emitted ≡ f.total_emitted
  pub within : f.total_emitted ≤ f.limit
  pub each : (key : ReportEvidenceKey) → or_zero (get key f.emitted) ≤ f.max_per_key

pub new-IsAccounted : (evidence : RuleEvidenceTable) (limit : ℕ) → IsAccounted (new evidence limit)
unfolding new total get binary_search_by_key
new-IsAccounted evidence limit = record {
  sorted = tt;
  summed = refl;
  within = omega arith;
  each = λ key. omega arith;
}

-- The number of emissions admitted for a key.
abbrev pub emissions : ReportEvidenceKey → FlowEvidence → ℕ
emissions key f = or_zero (get key f.emitted)
