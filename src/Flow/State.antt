-- ===== src/Flow/State.antt =====
-- glass-lint-core/src/analysis/model/flow.rs and flow/state.rs: the identity of a flow, and the
-- state of one flow for one object. Facts, objects and rules are their raw indices.
pub mod Reverts
use glass_lint.Prelude.{
  ℕ, Bool, true, false, ◌&&◌, ◌||◌, ◌≡◌, Option, List, arith, ltb, nat_beq, if◌then◌else◌,
  usize_max,
}
use glass_lint.Prelude.Order.{Ord, nat_ord}
use glass_lint.Flow.{BoundedIndex, EvidenceValues, LifecycleEvidence, FlowReadiness, no_lifecycle}
use glass_lint.Flow

abbrev pub RuleIndex : Type 0
RuleIndex = ℕ

abbrev pub FactId : Type 0
FactId = ℕ

abbrev pub FlowObjectId : Type 0
FlowObjectId = ℕ

pub record FlowId : Type 0 where
  pub rule_index : RuleIndex
  pub flow_index : ℕ

pub record FlowStateKey : Type 0 where
  pub object : FlowObjectId
  pub flow : FlowId

-- The derived order of the keys: by object, then by rule, then by flow.
abbrev pub key_lt : FlowStateKey → FlowStateKey → Bool
key_lt a b =
    ltb a.object b.object
    || nat_beq a.object b.object
      && (ltb a.flow.rule_index b.flow.rule_index
          || nat_beq a.flow.rule_index b.flow.rule_index && ltb a.flow.flow_index b.flow.flow_index)

pub key_irrefl : (a : FlowStateKey) → key_lt a a ≡ false
key_irrefl a = ground arith

pub key_trans : (a b c : FlowStateKey) → key_lt a b ≡ true → key_lt b c ≡ true → key_lt a c ≡ true
key_trans a b c h k = ground arith

pub key_total : (a b : FlowStateKey) → key_lt a b ≡ false → key_lt b a ≡ false → a ≡ b
key_total a b h k = ground arith

instance abbrev pub key_ord : Ord FlowStateKey
key_ord = record { lt = key_lt; irrefl = key_irrefl; trans = key_trans; total = key_total }

-- `object_range(object).contains(key)`: from the least flow of the object to its greatest.
pub in_object_range : FlowObjectId → FlowStateKey → Bool
in_object_range object key =
    let first : FlowStateKey = record {
      object = object;
      flow = record { rule_index = 0; flow_index = 0 };
    } in
    let last : FlowStateKey = record {
      object = object;
      flow = record { rule_index = usize_max; flow_index = usize_max };
    } in
    if key_lt key first then false else if key_lt last key then false else true

pub record FlowState : Type 0 where
  pub flow : FlowId
  pub source_event : FactId
  pub object_id : FlowObjectId
  pub evidence : LifecycleEvidence FactId

unfoldable pub new : FlowId → FactId → FlowObjectId → FlowState
new flow source_event object_id = record {
  flow = flow;
  source_event = source_event;
  object_id = object_id;
  evidence = no_lifecycle;
}

abbrev pub key : FlowState → FlowStateKey
key s = record { object = s.object_id; flow = s.flow }

pub record_requirement : BoundedIndex → FactId → FlowState → FlowState × Bool
record_requirement index event s =
    let (evidence, added) = Flow.record_requirement index event s.evidence in
    (record s { evidence = evidence }, added)

pub clear_requirement : BoundedIndex → FlowState → FlowState × Option (EvidenceValues FactId)
clear_requirement index s =
    let (evidence, events) = Flow.clear_requirement index s.evidence in
    (record s { evidence = evidence }, events)

pub remove_requirement_event : BoundedIndex → FactId → FlowState → FlowState × Bool
remove_requirement_event index event s =
    let (evidence, removed) = Flow.remove_requirement_event index event s.evidence in
    (record s { evidence = evidence }, removed)

pub restore_requirement : BoundedIndex → EvidenceValues FactId → FlowState → FlowState
restore_requirement index events s = record s {
  evidence = Flow.restore_requirement index events s.evidence;
}

pub record_sink : BoundedIndex → FactId → FlowState → FlowState × Bool
record_sink index event s =
    let (evidence, added) = Flow.record_sink index event s.evidence in
    (record s { evidence = evidence }, added)

pub remove_sink_event : BoundedIndex → FactId → FlowState → FlowState × Bool
remove_sink_event index event s =
    let (evidence, removed) = Flow.remove_sink_event index event s.evidence in
    (record s { evidence = evidence }, removed)

abbrev pub is_ready : FlowReadiness → FlowState → Bool
is_ready readiness s = Flow.requirements_ready readiness s.evidence

abbrev pub complete : FlowReadiness → FlowState → Bool
complete readiness s = Flow.complete readiness s.evidence

abbrev pub prior_sinks : FactId → FlowState → List FactId
prior_sinks event s = Flow.prior_sink_events (λ sink. nat_beq sink event) s.evidence
