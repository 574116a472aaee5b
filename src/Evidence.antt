-- ===== src/Evidence.antt =====
-- glass-lint-core/src/api/classification.rs: evidence of matches, and its table by rule; the kinds
-- of matches from api/rule/query/mod.rs and the certainty from project/types/report/finding.rs.
-- The `BTreeMap` is the list of its entries, in the order of their keys.
mod Tests
pub mod Items
pub mod Rows
pub mod Tables
use glass_lint.Prelude.{
  ℕ, ◌+◌, Text, List, [], ◌∷◌, ◌++◌, Bool, true, false, ◌||◌, Option, none, some,
}
use glass_lint.Prelude.{ltb, nat_beq, min, u32_max, length, map, if◌then◌else◌, Result, ok, err}
use glass_lint.Diagnostic.{ByteRange}

pub data MatchKind : Type 0 where
  call member_call member_read property_write import string_contains : MatchKind
  class_use constructor_use call_argument : MatchKind

pub data MatchCertainty : Type 0 where
  definite possible : MatchCertainty

abbrev pub is_possible : MatchCertainty → Bool
is_possible definite = false
is_possible possible = true

-- A `RuleIndex`, a `RuleEvidenceCapacity` and a `TraceNodeId` are the number that they hold.
pub record Occurrence : Type 0 where
  pub span : ByteRange
  pub fact : Option ℕ
  pub trace : Option ℕ

pub record ClassificationEvidence : Type 0 where
  pub kind : MatchKind
  pub symbol : Text
  pub count : ℕ
  pub truncated : Bool
  pub certainty : MatchCertainty
  pub occurrences : List Occurrence

pub from_parts :
    MatchKind → Text → ℕ → Bool → MatchCertainty → List Occurrence → Option ClassificationEvidence
from_parts kind symbol total_count truncated certainty occurrences =
    if ltb total_count (length occurrences)
    then none
    else some (record {
      kind = kind;
      symbol = symbol;
      count = min total_count u32_max;
      truncated = truncated;
      certainty = certainty;
      occurrences = occurrences;
    })

abbrev pub from_occurrences :
    MatchKind → Text → List Occurrence → MatchCertainty → Option ClassificationEvidence
from_occurrences kind symbol [] certainty = none
from_occurrences kind symbol (o ∷ os) certainty =
    from_parts kind symbol (length (o ∷ os)) false certainty (o ∷ os)

-- `none` where the code panics.
abbrev pub from_occurrence :
    MatchKind → Text → Occurrence → MatchCertainty → Option ClassificationEvidence
from_occurrence kind symbol occurrence certainty =
    from_parts kind symbol 1 false certainty (occurrence ∷ [])

abbrev pub mark_truncated : ClassificationEvidence → ClassificationEvidence
mark_truncated e = record e { truncated = true }

abbrev pub mark_possible : ClassificationEvidence → ClassificationEvidence
mark_possible e = record e { certainty = possible }

-- `u32::saturating_add`.
abbrev pub saturating_add : ℕ → ℕ → ℕ
saturating_add a b = min (a + b) u32_max

pub append : ClassificationEvidence → ClassificationEvidence → ClassificationEvidence
append e other = record e {
  certainty = if is_possible e.certainty || is_possible other.certainty then possible else definite;
  count = saturating_add e.count other.count;
  truncated = e.truncated || other.truncated;
  occurrences = e.occurrences ++ other.occurrences;
}

pub data RuleEvidenceError : Type 0 where
  rule_out_of_range : ℕ → ℕ → RuleEvidenceError
  capacity_mismatch : ℕ → ℕ → RuleEvidenceError

-- `RuleEvidenceCapacity::validate`: the error, if there is one.
abbrev pub validate : ℕ → ℕ → Option RuleEvidenceError
validate rule capacity = if ltb rule capacity then none else some (rule_out_of_range rule capacity)

abbrev pub Rows : Type 0
Rows = List (ℕ × List ClassificationEvidence)

-- `BTreeMap::get`.
pub find_row : ℕ → Rows → Option (List ClassificationEvidence)
find_row rule [] = none
find_row rule ((key, items) ∷ rows) =
    let rest = find_row rule rows in if nat_beq rule key then some items else rest

-- A write through `entry(rule).or_default()`.
pub update_row : ℕ → (List ClassificationEvidence → List ClassificationEvidence) → Rows → Rows
update_row rule change [] = (rule, change []) ∷ []
update_row rule change ((key, items) ∷ rows) =
    let rest = update_row rule change rows in
    if nat_beq rule key
    then (key, change items) ∷ rows
    else if ltb rule key
    then (rule, change []) ∷ (key, items) ∷ rows
    else (key, items) ∷ rest

pub record RuleEvidenceTable : Type 0 where
  pub capacity : ℕ
  pub values : Rows

abbrev pub new : ℕ → RuleEvidenceTable
new capacity = record { capacity = capacity; values = [] }

abbrev pub for_rule : ℕ → RuleEvidenceTable → Option (List ClassificationEvidence)
for_rule rule t = find_row rule t.values

abbrev pub unless_refused {ℓ} :
    {A : Type ℓ} → Option RuleEvidenceError → A → Result A RuleEvidenceError
unless_refused none a = ok a
unless_refused (some e) a = err e

-- `items_mut` and what a caller does with it: nothing changes on an error.
pub change_items :
    ℕ
    → (List ClassificationEvidence → List ClassificationEvidence)
    → RuleEvidenceTable
    → Result RuleEvidenceTable RuleEvidenceError
change_items rule change t =
    unless_refused (validate rule t.capacity)
      (record t { values = update_row rule change t.values })

abbrev pub record_evidence :
    ℕ → ClassificationEvidence → RuleEvidenceTable → Result RuleEvidenceTable RuleEvidenceError
record_evidence rule evidence t = change_items rule (λ items. items ++ evidence ∷ []) t

abbrev pub is_fact : ℕ → Option ℕ → Bool
is_fact event none = false
is_fact event (some f) = nat_beq f event

abbrev pub has_event : ℕ → List Occurrence → Bool
has_event event [] = false
has_event event (o ∷ os) = is_fact event o.fact || has_event event os

abbrev pub truncate_event : ℕ → ClassificationEvidence → ClassificationEvidence
truncate_event event e = if has_event event e.occurrences then mark_truncated e else e

abbrev pub mark_event_truncated :
    ℕ → ℕ → RuleEvidenceTable → Result RuleEvidenceTable RuleEvidenceError
mark_event_truncated rule event t = change_items rule (map (truncate_event event)) t

abbrev pub replace :
    ℕ → List ClassificationEvidence → RuleEvidenceTable → Result RuleEvidenceTable RuleEvidenceError
replace rule evidence t = change_items rule (λ items. evidence) t

pub merge_rows : Rows → Rows → Rows
merge_rows rows [] = rows
merge_rows rows ((rule, items) ∷ other) =
    merge_rows (update_row rule (λ old. old ++ items) rows) other

pub merge_equal_capacity :
    RuleEvidenceTable → RuleEvidenceTable → Result RuleEvidenceTable RuleEvidenceError
merge_equal_capacity t other =
    if nat_beq t.capacity other.capacity
    then ok (record t { values = merge_rows t.values other.values })
    else err (capacity_mismatch t.capacity other.capacity)

pub mark_rows : Rows → Rows
mark_rows [] = []
mark_rows ((key, items) ∷ rows) = (key, map mark_possible items) ∷ mark_rows rows

abbrev pub mark_all_possible : RuleEvidenceTable → RuleEvidenceTable
mark_all_possible t = record t { values = mark_rows t.values }
