-- ===== src/Selection/Resolution.antt =====
-- What `resolve` returns, or refuses.
use glass_lint.Prelude.{ℕ, List, [], ◌∷◌, map, Bool, true, false, arith, refl, ap, ◌∙◌}
use glass_lint.Prelude.{◌≡◌, ◌↔◌, ◌⊎◌, inl, inr, Bool-cases, none, some, get_elem?, ◌∈◌}
use glass_lint.Prelude.{Result, ok, err, replicate, length}
use glass_lint.Selection.{RuleOverride, RuleSelection, CompiledRuleRecord, LintConfigError, matches}
use glass_lint.Selection.{
  evaluate, validate_override_matches, override_error, unless_error, take_enabled,
  validated_evaluation, resolve,
}
use glass_lint.Selection.Overrides.{IsRuleSelected, evaluate_from-enabled}
use glass_lint.Selection.Flags.{hits_any, evaluate-flags}

hits_any-true :
    (rs : List CompiledRuleRecord) (o : RuleOverride)
    → hits_any rs o ≡ true
    → (r : CompiledRuleRecord) × (r ∈ rs) × (matches o.selector r.rule_id ≡ true)
hits_any-true [] o h = absurd cc
hits_any-true (r ∷ rs) o h = elim (Bool-cases (matches o.selector r.rule_id)) [
  | inl hit ↦ (r, inl refl, hit)
  | inr miss ↦ let (q, here, hit) = hits_any-true rs o (rw miss at h) in (q, inr here, hit)
]

hits_any-false :
    (rs : List CompiledRuleRecord) (o : RuleOverride)
    → hits_any rs o ≡ false
    → (r : CompiledRuleRecord) → r ∈ rs
    → matches o.selector r.rule_id ≡ false
hits_any-false [] o h r m = absurd m
hits_any-false (q ∷ rs) o h r (inl same) =
    ap (λ (x : CompiledRuleRecord). matches o.selector x.rule_id) same ∙ ground arith
hits_any-false (q ∷ rs) o h r (inr m) = hits_any-false rs o (ground arith) r m

-- The first override whose flag is not set is reported.
validate-cases :
    (f : RuleOverride → Bool) (os : List RuleOverride)
    → ((validate_override_matches os (map f os) ≡ none)
        × ((o : RuleOverride) → o ∈ os → f o ≡ true))
      ⊎ ((o : RuleOverride) × (o ∈ os)
          × (f o ≡ false)
          × (validate_override_matches os (map f os) ≡ some (override_error o)))
unfolding validate_override_matches
validate-cases f [] = inl (refl, λ o m. absurd m)
validate-cases f (o ∷ os) = elim (Bool-cases (f o)) [
  | inr off ↦ inr (o, inl refl, off, rw off refl)
  | inl on ↦ elim (validate-cases f os) [
    | inl (passed, all_on) ↦
        inl (rw on passed, λ p. elim [ inl same ↦ ap f same ∙ on | inr m ↦ all_on p m ])
    | inr (p, m, off, refused) ↦ inr (p, inr m, off, rw on refused)
  ]
]

-- The outcome of `resolve`: the indexes of exactly the selected rules, each override having matched
-- some rule; or the error of an override that matches none.
pub data Resolved (s : RuleSelection) (catalog : List CompiledRuleRecord)
    (r : Result (List ℕ) LintConfigError) : Type 0 where
  resolved :
      (ids : List ℕ)
      → r ≡ ok ids
      → ((o : RuleOverride)
          → o ∈ s.overrides
          → (q : CompiledRuleRecord) × (q ∈ catalog) × (matches o.selector q.rule_id ≡ true))
      → ((i : ℕ)
          → (i ∈ ids)
            ↔ ((q : CompiledRuleRecord) × (get_elem? catalog i ≡ some q) × IsRuleSelected s q))
      → Resolved s catalog r
  unmatched :
      (o : RuleOverride)
      → o ∈ s.overrides
      → ((q : CompiledRuleRecord) → q ∈ catalog → matches o.selector q.rule_id ≡ false)
      → r ≡ err (override_error o)
      → Resolved s catalog r

evaluate-enabled :
    (s : RuleSelection) (catalog : List CompiledRuleRecord) (i : ℕ)
    → (i ∈ (evaluate s catalog).enabled)
      ↔ ((q : CompiledRuleRecord) × (get_elem? catalog i ≡ some q) × IsRuleSelected s q)
unfolding evaluate
evaluate-enabled s catalog i =
    let through = evaluate_from-enabled s catalog 0 i (replicate (length s.overrides) false) in
    (
      λ h.
          let (j, q, at, found, sel) = through.0 h in
          let same : i ≡ j = omega arith in (q, ap (get_elem? catalog) same ∙ found, sel),
      λ (q, found, sel). through.1 (i, q, omega arith, found, sel),
    )

resolve-through :
    (s : RuleSelection) (catalog : List CompiledRuleRecord)
    → resolve s catalog
      ≡ take_enabled (
          unless_error
            (validate_override_matches s.overrides (map (hits_any catalog) s.overrides))
            (evaluate s catalog))
unfolding resolve validated_evaluation
resolve-through s catalog =
    ap
      (λ flags.
        take_enabled
          (unless_error (validate_override_matches s.overrides flags) (evaluate s catalog)))
      (evaluate-flags s catalog)

-- `resolve` returns the indexes of exactly the rules that the last matching override enables, or the
-- baseline where none matches, if every override matches some rule; else it reports one that does not.
pub resolve-Resolved :
    (s : RuleSelection) (catalog : List CompiledRuleRecord) → Resolved s catalog (resolve s catalog)
resolve-Resolved s catalog = elim (validate-cases (hits_any catalog) s.overrides) [
  | inl (passed, all_on) ↦
      resolved (evaluate s catalog).enabled
        (resolve-through s catalog
          ∙ ap (λ e. take_enabled (unless_error e (evaluate s catalog))) passed)
        (λ o m. hits_any-true catalog o (all_on o m)) (evaluate-enabled s catalog)
  | inr (o, m, off, refused) ↦ unmatched o m (hits_any-false catalog o off) (
      resolve-through s catalog
      ∙ ap (λ e. take_enabled (unless_error e (evaluate s catalog))) refused)
]
