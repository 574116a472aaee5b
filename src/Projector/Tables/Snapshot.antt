-- ===== src/Projector/Tables/Snapshot.antt =====
-- `semantic_snapshot` of state/tables.rs: the live tables with objects numbered by their first alias.
mod Tests
pub mod Renaming
use glass_lint.Prelude.{
  ℕ, ◌+◌, ◌≡◌, ◌≤◌, ◌<◌, ◌≢◌, ◌↔◌, refl, sym, ap, ◌∙◌, arith, inl, inr, Option, none, some, List,
  [], ◌∷◌, map, length, min, u32_max, Option-cases, some_injective, ◌∈◌,
}
use glass_lint.Prelude.Order.{nat_ord, same_cases}
use glass_lint.Prelude.Sorted.{get, put, binary_search_by_key}
use glass_lint.Prelude.Sorted.Maps.{IsMap, put-IsMap, get-put_same}
use glass_lint.Prelude.Sorted.Extensional.{get-put_other}
use glass_lint.Flow.{BoundedIndex, requirement_entries, sink_entries}
use glass_lint.Flow.State.{FactId, FlowId, FlowObjectId, FlowState, FlowStateKey}
use glass_lint.Projector.Aliases.{ValueId}
use glass_lint.Projector.Log.{States}
use glass_lint.Projector.Tables.{FlowStateTable}

abbrev pub CanonicalObjectId : Type 0
CanonicalObjectId = ℕ

pub record CanonicalAlias : Type 0 where
  pub value : ValueId
  pub object : CanonicalObjectId

pub record CanonicalFlowState : Type 0 where
  pub object : CanonicalObjectId
  pub flow : FlowId
  pub source_event : FactId
  pub requirements : List (BoundedIndex × List FactId)
  pub sinks : List (BoundedIndex × List FactId)

pub record FlowSemanticSnapshot : Type 0 where
  pub aliases : List CanonicalAlias
  pub states : List CanonicalFlowState

abbrev pub Numbers : Type 0
Numbers = List (FlowObjectId × CanonicalObjectId)

-- The loop over the aliases, with `next.saturating_add(1)`.
pub number_all : List (ValueId × FlowObjectId) → Numbers → ℕ → Numbers
number_all [] objects next = objects
number_all ((value, o) ∷ aliases) objects next =
    let added = number_all aliases (put o next objects) (min (next + 1) u32_max) in
    let kept = number_all aliases objects next in
    elim (get o objects) [ none ↦ added | some _ ↦ kept ]

-- The two closures under `filter_map`.
abbrev pub with_alias :
    ValueId → Option CanonicalObjectId → List CanonicalAlias → List CanonicalAlias
with_alias value none rest = rest
with_alias value (some id) rest = record { value = value; object = id } ∷ rest

pub canonical_aliases : List (ValueId × FlowObjectId) → Numbers → List CanonicalAlias
canonical_aliases [] objects = []
canonical_aliases ((value, o) ∷ aliases) objects =
    let rest = canonical_aliases aliases objects in with_alias value (get o objects) rest

abbrev pub canonical_state : FlowStateKey → FlowState → CanonicalObjectId → CanonicalFlowState
canonical_state key state id = record {
  object = id;
  flow = key.flow;
  source_event = state.source_event;
  requirements = requirement_entries state.evidence;
  sinks = sink_entries state.evidence;
}

abbrev pub with_state :
    FlowStateKey
    → FlowState
    → Option CanonicalObjectId
    → List CanonicalFlowState
    → List CanonicalFlowState
with_state key state none rest = rest
with_state key state (some id) rest = canonical_state key state id ∷ rest

pub canonical_states : States → Numbers → List CanonicalFlowState
canonical_states [] objects = []
canonical_states ((key, state) ∷ states) objects =
    let rest = canonical_states states objects in with_state key state (get key.object objects) rest

pub numbers : FlowStateTable → Numbers
unfolding number_all
numbers t = number_all t.live.aliases.values [] 0

pub semantic_snapshot : FlowStateTable → FlowSemanticSnapshot
unfolding numbers canonical_aliases canonical_states
semantic_snapshot t = record {
  aliases = canonical_aliases t.live.aliases.values (numbers t);
  states = canonical_states t.live.states (numbers t);
}
