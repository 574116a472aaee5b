-- ===== src/Flow.antt =====
-- glass-lint-core/src/analysis/model/flow.rs: the evidence that a flow keeps for its requirements
-- and sinks. A `BoundedIndex` is a number below `u64::BITS`, as its constructor checks.
mod Tests
mod Masks
pub mod Limits
pub mod State
pub mod Values
pub mod Indexed
pub mod Removal
pub mod Rollback
pub mod Readiness
use glass_lint.Prelude.{ℕ, Bool, true, false, Option, none, some, List, [], ◌∷◌, ◌++◌, length}
use glass_lint.Prelude.{◌&&◌, not, ltb, leb, nat_beq, if◌then◌else◌, get_elem?, set}
use glass_lint.Prelude.{Result, ok, err}
use glass_lint.Prelude.Order.{Ord, nat_ord}
use glass_lint.Prelude.Words.{
  Word, word_bits, zero_word, max_word, bit_word, or_word, and_not_word, is_zero_word, word_beq,
  saturating_pred,
}
use glass_lint.Prelude.Sorted.{
  insert_at, remove_at, binary_search, binary_search_by_key, key_of, sort, dedup,
}

pub data RequirementReadiness : Type 0 where
  any_requirement all_requirements : RequirementReadiness

pub data SinkReadiness : Type 0 where
  configuration any_sink all_sinks : SinkReadiness

pub record FlowReadiness : Type 0 where
  pub requirement_mode : RequirementReadiness
  pub requirement_count : ℕ
  pub sink_mode : SinkReadiness
  pub sink_count : ℕ

abbrev pub BoundedIndex : Type 0
BoundedIndex = ℕ

pub bounded_index : ℕ → Option BoundedIndex
bounded_index index = if ltb index word_bits then some index else none

pub mask : ℕ → Option Word
mask count =
    if ltb word_bits count
    then none
    else some (if nat_beq count word_bits then max_word else saturating_pred (bit_word count))

abbrev pub EvidenceValues : Type 0 → Type 0
EvidenceValues K = List K

abbrev pub is_empty {ℓ} : {K : Type ℓ} → List K → Bool
is_empty [] = true
is_empty (value ∷ values) = false

module _ {K : Type 0} ⦃o : Ord K⦄ where
  pub insert_value : K → EvidenceValues K → EvidenceValues K × Bool
  insert_value value values = elim (binary_search value values) [
    | ok _ ↦ (values, false)
    | err position ↦ (insert_at position value values, true)
  ]

  pub remove_value : K → EvidenceValues K → EvidenceValues K × Bool
  remove_value value values = elim (binary_search value values) [
    | ok position ↦ (remove_at position values, true)
    | err _ ↦ (values, false)
  ]

  pub from_value : K → EvidenceValues K
  unfolding insert_value
  from_value value = (insert_value value []).0

pub record IndexedEvidence (K : Type 0) : Type 0 where
  pub mask : Word
  pub entries : List (BoundedIndex × EvidenceValues K)

module _ {K : Type 0} ⦃o : Ord K⦄ where
  pub no_evidence : IndexedEvidence K
  no_evidence = record { mask = zero_word; entries = [] }

  -- A position that a search has found lies in range, so the `none` below is never met.
  insert_found : ℕ → K → IndexedEvidence K → IndexedEvidence K × Bool
  insert_found position value e = elim (get_elem? e.entries position) [
    | none ↦ (e, false)
    | some (index, values) ↦
        let (values', added) = insert_value value values in
        (record e { entries = set e.entries position (index, values') }, added)
  ]

  pub insert : BoundedIndex → K → IndexedEvidence K → IndexedEvidence K × Bool
  unfolding insert_found
  insert parameter value e = elim (binary_search_by_key key_of parameter e.entries) [
    | ok position ↦ insert_found position value e
    | err position ↦ (
      record {
        mask = or_word e.mask (bit_word parameter);
        entries = insert_at position (parameter, from_value value) e.entries;
      },
      true,
    )
  ]

  remove_found :
      BoundedIndex → ℕ → IndexedEvidence K → IndexedEvidence K × Option (EvidenceValues K)
  remove_found parameter position e = elim (get_elem? e.entries position) [
    | none ↦ (e, none)
    | some (index, values) ↦ (
      record {
        mask = and_not_word e.mask (bit_word parameter);
        entries = remove_at position e.entries;
      },
      some values,
    )
  ]

  pub remove : BoundedIndex → IndexedEvidence K → IndexedEvidence K × Option (EvidenceValues K)
  unfolding remove_found
  remove parameter e = elim (binary_search_by_key key_of parameter e.entries) [
    | ok position ↦ remove_found parameter position e
    | err position ↦ (e, none)
  ]

  -- The entry that has lost a value goes where it has no other.
  drop_empty :
      BoundedIndex → ℕ → BoundedIndex → EvidenceValues K → IndexedEvidence K → IndexedEvidence K
  drop_empty parameter position index values e =
      if is_empty values
      then record {
        mask = and_not_word e.mask (bit_word parameter);
        entries = remove_at position e.entries;
      }
      else record e { entries = set e.entries position (index, values) }

  remove_value_found : BoundedIndex → ℕ → K → IndexedEvidence K → IndexedEvidence K × Bool
  remove_value_found parameter position value e = elim (get_elem? e.entries position) [
    | none ↦ (e, false)
    | some (index, values) ↦
        let (values', removed) = remove_value value values in
        if removed then (drop_empty parameter position index values' e, true) else (e, false)
  ]

  pub remove_event : BoundedIndex → K → IndexedEvidence K → IndexedEvidence K × Bool
  unfolding remove_value_found drop_empty
  remove_event parameter value e = elim (binary_search_by_key key_of parameter e.entries) [
    | ok position ↦ remove_value_found parameter position value e
    | err position ↦ (e, false)
  ]

  pub restore : BoundedIndex → EvidenceValues K → IndexedEvidence K → IndexedEvidence K
  restore parameter [] e = e
  restore parameter (value ∷ values) e = restore parameter values (insert parameter value e).0

  pub values_of : List (BoundedIndex × EvidenceValues K) → List K
  values_of [] = []
  values_of ((index, values) ∷ entries) = values ++ values_of entries

  pub values : IndexedEvidence K → List K
  values e = values_of e.entries

  -- `any(|(index, _)| index >= count)`
  pub beyond : ℕ → List (BoundedIndex × EvidenceValues K) → Bool
  beyond count [] = false
  beyond count ((index, values) ∷ entries) = if leb count index then true else beyond count entries

  pub ready_any : ℕ → IndexedEvidence K → Bool
  ready_any count e = if beyond count e.entries then false else not (is_zero_word e.mask)

  pub ready_all : ℕ → IndexedEvidence K → Bool
  ready_all count e =
      if beyond count e.entries
      then false
      else elim (mask count) [ none ↦ false | some required ↦ word_beq e.mask required ]

pub record LifecycleEvidence (E : Type 0) : Type 0 where
  pub requirements : IndexedEvidence E
  pub sinks : IndexedEvidence E

module _ {E : Type 0} ⦃o : Ord E⦄ where
  pub no_lifecycle : LifecycleEvidence E
  no_lifecycle = record { requirements = no_evidence; sinks = no_evidence }

  pub record_requirement : BoundedIndex → E → LifecycleEvidence E → LifecycleEvidence E × Bool
  record_requirement index event l =
      let (requirements, added) = insert index event l.requirements in
      (record l { requirements = requirements }, added)

  pub clear_requirement :
      BoundedIndex → LifecycleEvidence E → LifecycleEvidence E × Option (EvidenceValues E)
  clear_requirement index l =
      let (requirements, events) = remove index l.requirements in
      (record l { requirements = requirements }, events)

  pub remove_requirement_event : BoundedIndex → E → LifecycleEvidence E → LifecycleEvidence E × Bool
  remove_requirement_event index event l =
      let (requirements, removed) = remove_event index event l.requirements in
      (record l { requirements = requirements }, removed)

  pub restore_requirement :
      BoundedIndex → EvidenceValues E → LifecycleEvidence E → LifecycleEvidence E
  restore_requirement index events l = record l {
    requirements = restore index events l.requirements;
  }

  pub requirements_ready : FlowReadiness → LifecycleEvidence E → Bool
  requirements_ready readiness l = elim (readiness.requirement_mode) [
    | any_requirement ↦ ready_any readiness.requirement_count l.requirements
    | all_requirements ↦ ready_all readiness.requirement_count l.requirements
  ]

  pub record_sink : BoundedIndex → E → LifecycleEvidence E → LifecycleEvidence E × Bool
  record_sink index event l =
      let (sinks, added) = insert index event l.sinks in (record l { sinks = sinks }, added)

  pub remove_sink_event : BoundedIndex → E → LifecycleEvidence E → LifecycleEvidence E × Bool
  remove_sink_event index event l =
      let (sinks, removed) = remove_event index event l.sinks in
      (record l { sinks = sinks }, removed)

  pub sinks_ready : FlowReadiness → LifecycleEvidence E → Bool
  sinks_ready readiness l = elim (readiness.sink_mode) [
    | configuration ↦ true
    | any_sink ↦ true
    | all_sinks ↦ ready_all readiness.sink_count l.sinks
  ]

  pub complete : FlowReadiness → LifecycleEvidence E → Bool
  complete readiness l = requirements_ready readiness l && sinks_ready readiness l

  abbrev pub requirement_entries : LifecycleEvidence E → List (BoundedIndex × List E)
  requirement_entries l = l.requirements.entries

  abbrev pub sink_entries : LifecycleEvidence E → List (BoundedIndex × List E)
  sink_entries l = l.sinks.entries

  -- `filter_map(|(index, values)| values.iter().next().map(…))`
  pub first_events : List (BoundedIndex × List E) → List (BoundedIndex × E)
  first_events [] = []
  first_events ((index, []) ∷ entries) = first_events entries
  first_events ((index, event ∷ events) ∷ entries) = (index, event) ∷ first_events entries

  pub first_requirement_events : LifecycleEvidence E → List (BoundedIndex × E)
  first_requirement_events l = first_events l.requirements.entries

  -- `filter(|event| !exclude(event))`
  pub without : (E → Bool) → List E → List E
  without exclude [] = []
  without exclude (event ∷ events) =
      let kept = event ∷ without exclude events in
      let rest = without exclude events in if exclude event then rest else kept

  pub prior_sink_events : (E → Bool) → LifecycleEvidence E → List E
  unfolding sort dedup without
  prior_sink_events exclude l = dedup (sort (without exclude (values l.sinks)))
