-- ===== src/Selection.antt =====
-- glass-lint-core/src/lint/selection.rs: rule selectors, overrides and their evaluation against a
-- catalog; glass-lint-core/src/api/rule/taxonomy.rs: confidence.
mod Tests
pub mod Pattern
mod Selectors
pub mod Overrides
mod Flags
pub mod Resolution
use glass_lint.Prelude.{
  ℕ, zero, suc, Text, List, [], ◌∷◌, ◌++◌, Bool, true, false, not, ◌&&◌, ◌||◌, Option, none, some,
}
use glass_lint.Prelude.{
  leb, nat_beq, if◌then◌else◌, Result, ok, err, is_empty, length, set, replicate, ◌==◌, nat_eq,
  list_eq,
}
use glass_lint.RuleId
use glass_lint.Selection.Pattern.{star, contains_char, RulePattern, parse_pattern, matches_pattern}

pub data LintConfigError : Type 0 where
  unknown_rule : Text → LintConfigError
  invalid_selector : Text → LintConfigError
  duplicate_rule : Text → LintConfigError

pub record RuleSelector : Type 0 where
  pub raw : Text
  pub pattern : Option RulePattern

-- One of `?`, `[`, `]`, `{`, `}`.
abbrev pub is_reserved : ℕ → Bool
is_reserved c =
    nat_beq c 0x3f || nat_beq c 0x5b || nat_beq c 0x5d || nat_beq c 0x7b || nat_beq c 0x7d

abbrev pub has_reserved : Text → Bool
has_reserved [] = false
has_reserved (c ∷ cs) = is_reserved c || has_reserved cs

abbrev pub with_pattern : Text → Result RulePattern Text → Result RuleSelector LintConfigError
with_pattern selector (ok p) = ok (record { raw = selector; pattern = some p })
with_pattern selector (err e) = err (invalid_selector e)

abbrev pub without_pattern : Text → Result Text Text → Result RuleSelector LintConfigError
without_pattern selector (ok id) = ok (record { raw = selector; pattern = none })
without_pattern selector (err e) = err (invalid_selector selector)

pub parse : Text → Result RuleSelector LintConfigError
parse selector =
    if is_empty selector || has_reserved selector
    then err (invalid_selector selector)
    else if contains_char star selector
    then with_pattern selector (parse_pattern selector)
    else without_pattern selector (RuleId.parse selector)

abbrev pub has_wildcard : RuleSelector → Bool
has_wildcard s = elim s.pattern [ none ↦ false | some p ↦ true ]

pub matches : RuleSelector → Text → Bool
matches s id = elim s.pattern [ none ↦ id == s.raw | some p ↦ matches_pattern p id ]

pub data RuleState : Type 0 where
  disabled : RuleState
  enabled : RuleState

pub record RuleOverride : Type 0 where
  pub selector : RuleSelector
  pub state : RuleState

abbrev pub is_enabled : RuleState → Bool
is_enabled disabled = false
is_enabled enabled = true

pub data Confidence : Type 0 where
  high : Confidence
  medium : Confidence
  low : Confidence

abbrev pub rank : Confidence → ℕ
rank high = 0
rank medium = 1
rank low = 2

abbrev pub meets : Confidence → Confidence → Bool
meets c minimum = leb (rank c) (rank minimum)

-- `All`, `None` and `MinimumConfidence`.
pub data RuleBaseline : Type 0 where
  all_rules : RuleBaseline
  no_rule : RuleBaseline
  minimum_confidence : Confidence → RuleBaseline

abbrev pub recommended : RuleBaseline
recommended = minimum_confidence high

pub record RuleSelection : Type 0 where
  pub baseline : RuleBaseline
  pub overrides : List RuleOverride

abbrev pub new : RuleBaseline → RuleSelection
new baseline = record { baseline = baseline; overrides = [] }

abbrev pub with_override : RuleOverride → RuleSelection → RuleSelection
with_override value s = record s { overrides = s.overrides ++ value ∷ [] }

-- Of a compiled rule, what the selection reads.
pub record CompiledRuleRecord : Type 0 where
  pub rule_id : Text
  pub confidence : Confidence

abbrev pub meets_baseline : RuleBaseline → CompiledRuleRecord → Bool
meets_baseline all_rules r = true
meets_baseline no_rule r = false
meets_baseline (minimum_confidence c) r = meets r.confidence c

-- The inner loop of `evaluate`, from an index on, over the flags and the state of one rule.
pub apply_overrides : List RuleOverride → ℕ → Text → List Bool → Bool → List Bool × Bool
apply_overrides [] index id matched state = (matched, state)
apply_overrides (o ∷ os) index id matched state =
    if matches o.selector id
    then apply_overrides os (suc index) id (set matched index true) (is_enabled o.state)
    else apply_overrides os (suc index) id matched state

pub record SelectionEvaluation : Type 0 where
  pub matched_overrides : List Bool
  pub enabled : List ℕ

pub evaluate_from : RuleSelection → List CompiledRuleRecord → ℕ → List Bool → SelectionEvaluation
evaluate_from s [] index matched = record { matched_overrides = matched; enabled = [] }
evaluate_from s (r ∷ rs) index matched =
    let applied = apply_overrides s.overrides 0 r.rule_id matched (meets_baseline s.baseline r) in
    let rest = evaluate_from s rs (suc index) applied.0 in
    record rest { enabled = if applied.1 then index ∷ rest.enabled else rest.enabled }

pub evaluate : RuleSelection → List CompiledRuleRecord → SelectionEvaluation
evaluate s catalog = evaluate_from s catalog 0 (replicate (length s.overrides) false)

abbrev pub unknown_or_invalid : Text → Result Text Text → LintConfigError
unknown_or_invalid raw (ok id) = unknown_rule id
unknown_or_invalid raw (err e) = invalid_selector raw

abbrev pub override_error : RuleOverride → LintConfigError
override_error o =
    if not (has_wildcard o.selector)
    then unknown_or_invalid o.selector.raw (RuleId.parse o.selector.raw)
    else invalid_selector o.selector.raw

-- The error, if there is one.
pub validate_override_matches : List RuleOverride → List Bool → Option LintConfigError
validate_override_matches [] ms = none
validate_override_matches (o ∷ os) [] = none
validate_override_matches (o ∷ os) (m ∷ ms) =
    if m then validate_override_matches os ms else some (override_error o)

abbrev pub unless_error {ℓ} : {A : Type ℓ} → Option LintConfigError → A → Result A LintConfigError
unless_error none a = ok a
unless_error (some e) a = err e

pub validated_evaluation :
    RuleSelection → List CompiledRuleRecord → Result SelectionEvaluation LintConfigError
validated_evaluation s catalog =
    let evaluation = evaluate s catalog in
    unless_error (validate_override_matches s.overrides evaluation.matched_overrides) evaluation

abbrev pub take_enabled :
    Result SelectionEvaluation LintConfigError → Result (List ℕ) LintConfigError
take_enabled (ok evaluation) = ok evaluation.enabled
take_enabled (err e) = err e

pub resolve : RuleSelection → List CompiledRuleRecord → Result (List ℕ) LintConfigError
resolve s catalog = take_enabled (validated_evaluation s catalog)

pub record PreparedRuleSelection : Type 0 where
  pub catalog : List CompiledRuleRecord
  pub enabled : List ℕ

abbrev pub with_catalog :
    List CompiledRuleRecord
    → Result SelectionEvaluation LintConfigError
    → Result PreparedRuleSelection LintConfigError
with_catalog catalog (ok evaluation) =
    ok (record { catalog = catalog; enabled = evaluation.enabled })
with_catalog catalog (err e) = err e

abbrev pub prepare :
    RuleSelection → List CompiledRuleRecord → Result PreparedRuleSelection LintConfigError
prepare s catalog = with_catalog catalog (validated_evaluation s catalog)
