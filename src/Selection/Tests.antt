-- ===== src/Selection/Tests.antt =====
-- A selector parsed and matched, and a selection resolved.
use glass_lint.Prelude.{Text, List, [], ◌∷◌, ◌≡◌, ◌↔◌, ok, some, true, refl}
use glass_lint.Selection.{RuleSelector, parse, matches, RuleSelection, disabled, high, medium}
use glass_lint.Selection.{minimum_confidence, CompiledRuleRecord, resolve}
use glass_lint.Selection.Pattern.{contains_char, pattern_of, parse_pattern, star}
use glass_lint.RuleId.{split_once, all_from}
use glass_lint.Selection.Pattern.Segments.{Glob}
use glass_lint.Selection.Selectors.{matches-Glob}
use glass_lint.Selection.Resolution.{Resolved, resolve-Resolved}

-- "js:a*", "js:ab" and "js:b".
abbrev raw : Text
raw = 0x6a ∷ 0x73 ∷ 0x3a ∷ 0x61 ∷ star ∷ []

abbrev long_id : Text
long_id = 0x6a ∷ 0x73 ∷ 0x3a ∷ 0x61 ∷ 0x62 ∷ []

abbrev short_id : Text
short_id = 0x6a ∷ 0x73 ∷ 0x3a ∷ 0x62 ∷ []

abbrev selector : RuleSelector
selector = record { raw = raw; pattern = some (pattern_of raw) }

parsed : parse raw ≡ ok selector
unfolding parse contains_char parse_pattern split_once all_from
parsed = refl

matches-Glob_example : (matches selector long_id ≡ true) ↔ Glob raw long_id
matches-Glob_example = matches-Glob raw selector parsed long_id

abbrev selection : RuleSelection
selection = record {
  baseline = minimum_confidence medium;
  overrides = record { selector = selector; state = disabled } ∷ [];
}

abbrev catalog : List CompiledRuleRecord
catalog =
    record { rule_id = long_id; confidence = high }
    ∷ record { rule_id = short_id; confidence = medium }
    ∷ []

resolve-Resolved_example : Resolved selection catalog (resolve selection catalog)
resolve-Resolved_example = resolve-Resolved selection catalog
