-- ===== src/Projector/Emission.antt =====
-- glass-lint-core/src/analysis/flow/projector/state.rs and history.rs: the sink of the evidence that
-- a projection emits, bounded for each key and for the whole run. The table of evidence that the
-- code borrows is a field.
pub mod Accounts
mod Release
pub mod Admission
use glass_lint.Prelude.{
  ℕ, ◌+◌, ◌-◌, ◌≡◌, Bool, true, false, ◌&&◌, ◌||◌, Option, none, some, List, [], ◌∷◌, leb, ltb,
  nat_beq, if◌then◌else◌, arith, Result, ok, err,
}
use glass_lint.Prelude.Order.{Ord}
use glass_lint.Prelude.Sorted.{get, put, delete}
use glass_lint.Evidence.{
  RuleEvidenceTable, ClassificationEvidence, record_evidence, mark_event_truncated,
}
use glass_lint.Evidence
use glass_lint.Flow.State.{FactId, FlowObjectId, RuleIndex}

pub record ReportEvidenceKey : Type 0 where
  pub rule : RuleIndex
  pub flow : ℕ
  pub object : FlowObjectId
  pub event : FactId

-- The derived order of the keys, field by field.
abbrev pub report_lt : ReportEvidenceKey → ReportEvidenceKey → Bool
report_lt a b =
    ltb a.rule b.rule
    || nat_beq a.rule b.rule
      && (ltb a.flow b.flow
          || nat_beq a.flow b.flow
            && (ltb a.object b.object || nat_beq a.object b.object && ltb a.event b.event))

pub report_irrefl : (a : ReportEvidenceKey) → report_lt a a ≡ false
report_irrefl a = ground arith

pub report_trans :
    (a b c : ReportEvidenceKey) → report_lt a b ≡ true → report_lt b c ≡ true → report_lt a c ≡ true
report_trans a b c h k = ground arith

pub report_total : (a b : ReportEvidenceKey) → report_lt a b ≡ false → report_lt b a ≡ false → a ≡ b
report_total a b h k = ground arith

instance abbrev pub report_ord : Ord ReportEvidenceKey
report_ord = record {
  lt = report_lt;
  irrefl = report_irrefl;
  trans = report_trans;
  total = report_total;
}

abbrev pub max_emissions_per_key : ℕ
max_emissions_per_key = 256

pub record FlowEvidence : Type 0 where
  pub items : RuleEvidenceTable
  pub emitted : List (ReportEvidenceKey × ℕ)
  pub truncated : List (ReportEvidenceKey × Unit {0})
  pub total_emitted : ℕ
  pub limit_rejected : Bool
  pub limit : ℕ
  pub max_per_key : ℕ

pub new : RuleEvidenceTable → ℕ → FlowEvidence
new evidence limit = record {
  items = evidence;
  emitted = [];
  truncated = [];
  total_emitted = 0;
  limit_rejected = false;
  limit = limit;
  max_per_key = max_emissions_per_key;
}

-- `reserve` behind `entry(key).or_insert(0)`, which leaves `count` for the key.
pub reserve_at : ReportEvidenceKey → ℕ → FlowEvidence → FlowEvidence × Bool
reserve_at key count f =
    if leb f.max_per_key count
    then (record f { emitted = put key count f.emitted; truncated = put key tt f.truncated }, false)
    else if leb f.limit f.total_emitted
    then (
      record f {
        emitted = put key count f.emitted;
        truncated = put key tt f.truncated;
        limit_rejected = true;
      },
      false,
    )
    else (
      record f { emitted = put key (count + 1) f.emitted; total_emitted = f.total_emitted + 1 },
      true,
    )

abbrev pub or_zero : Option ℕ → ℕ
or_zero none = 0
or_zero (some count) = count

pub reserve : ReportEvidenceKey → FlowEvidence → FlowEvidence × Bool
unfolding reserve_at
reserve key f = reserve_at key (or_zero (get key f.emitted)) f

pub released : ReportEvidenceKey → ℕ → List (ReportEvidenceKey × ℕ) → List (ReportEvidenceKey × ℕ)
released key count emitted =
    if nat_beq (count - 1) 0 then delete key emitted else put key (count - 1) emitted

pub release : ReportEvidenceKey → FlowEvidence → FlowEvidence
unfolding released
release key f = record f {
  emitted = elim (get key f.emitted) [
    | none ↦ f.emitted
    | some count ↦ released key count f.emitted
  ];
  total_emitted = f.total_emitted - 1;
}

pub record_if_admitted :
    ReportEvidenceKey → RuleIndex → ClassificationEvidence → FlowEvidence → FlowEvidence × Bool
record_if_admitted key rule evidence f =
    let (f', reserved) = reserve key f in
    if reserved
    then elim (record_evidence rule evidence f'.items) [
      | ok items ↦ (record f' { items = items }, true)
      | err _ ↦ (release key f', false)
    ]
    else (f', false)

-- `let _ = self.items.mark_event_truncated(…)`
pub mark_event : ReportEvidenceKey → RuleEvidenceTable → RuleEvidenceTable
mark_event key items = elim (mark_event_truncated key.rule key.event items) [
  | ok items' ↦ items'
  | err _ ↦ items
]

pub mark_events : List (ReportEvidenceKey × Unit {0}) → RuleEvidenceTable → RuleEvidenceTable
unfolding mark_event
mark_events [] items = items
mark_events ((key, _) ∷ keys) items = mark_events keys (mark_event key items)

pub mark_truncated : FlowEvidence → FlowEvidence
mark_truncated f = record f { items = mark_events f.truncated f.items }

pub mark_all_possible : FlowEvidence → FlowEvidence
mark_all_possible f = record f { items = Evidence.mark_all_possible f.items }
