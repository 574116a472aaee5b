-- ===== src/Flow/State/Reverts.antt =====
-- What the operations of a flow state keep, and that each is taken back by its inverse.
use glass_lint.Prelude.{◌<◌, ◌≡◌, ap, Bool, true, some}
use glass_lint.Prelude.Order.{nat_ord}
use glass_lint.Prelude.Words.{word_bits}
use glass_lint.Flow.{
  BoundedIndex, EvidenceValues, IndexedEvidence, LifecycleEvidence, no_lifecycle, insert, remove,
}
use glass_lint.Flow
use glass_lint.Flow.Indexed.{IsValid, insert-IsValid, no_evidence-IsValid}
use glass_lint.Flow.Removal.{remove-IsValid}
use glass_lint.Flow.Rollback.{remove_event-insert, restore-remove}
use glass_lint.Flow.State.{
  FactId, FlowId, FlowObjectId, FlowState, new, record_requirement, clear_requirement,
  remove_requirement_event, restore_requirement, record_sink, remove_sink_event,
}

pub record IsValidState (s : FlowState) : Type 0 where
  pub requirements : IsValid s.evidence.requirements
  pub sinks : IsValid s.evidence.sinks

pub new-IsValidState :
    (flow : FlowId) (event : FactId) (object : FlowObjectId) → IsValidState (new flow event object)
unfolding new Flow.no_lifecycle
new-IsValidState flow event object = record {
  requirements = no_evidence-IsValid;
  sinks = no_evidence-IsValid;
}

module _ (index : BoundedIndex) (s : FlowState) (valid : IsValidState s) where
  module _ (event : FactId) where
    pub record_requirement-IsValidState :
        index < word_bits → IsValidState (record_requirement index event s).0
    unfolding record_requirement Flow.record_requirement
    record_requirement-IsValidState small = record {
      requirements = insert-IsValid index event s.evidence.requirements valid.requirements small;
      sinks = valid.sinks;
    }

    pub record_sink-IsValidState : index < word_bits → IsValidState (record_sink index event s).0
    unfolding record_sink Flow.record_sink
    record_sink-IsValidState small = record {
      requirements = valid.requirements;
      sinks = insert-IsValid index event s.evidence.sinks valid.sinks small;
    }

    pub remove_requirement_event-record :
        (record_requirement index event s).1 ≡ true
        → (remove_requirement_event index event (record_requirement index event s).0).0 ≡ s
    unfolding record_requirement Flow.record_requirement remove_requirement_event
        Flow.remove_requirement_event
    remove_requirement_event-record new =
        ap
          (λ (r : IndexedEvidence FactId × Bool). record s {
            evidence = record { requirements = r.0; sinks = s.evidence.sinks };
          })
          (remove_event-insert index event s.evidence.requirements valid.requirements new)

    pub remove_sink_event-record :
        (record_sink index event s).1 ≡ true
        → (remove_sink_event index event (record_sink index event s).0).0 ≡ s
    unfolding record_sink Flow.record_sink remove_sink_event Flow.remove_sink_event
    remove_sink_event-record new =
        ap
          (λ (r : IndexedEvidence FactId × Bool). record s {
            evidence = record { requirements = s.evidence.requirements; sinks = r.0 };
          })
          (remove_event-insert index event s.evidence.sinks valid.sinks new)

  pub clear_requirement-IsValidState : IsValidState (clear_requirement index s).0
  unfolding clear_requirement Flow.clear_requirement
  clear_requirement-IsValidState = record {
    requirements = remove-IsValid index s.evidence.requirements valid.requirements;
    sinks = valid.sinks;
  }

  pub restore_requirement-clear :
      (events : EvidenceValues FactId)
      → (clear_requirement index s).1 ≡ some events
      → restore_requirement index events (clear_requirement index s).0 ≡ s
  unfolding clear_requirement Flow.clear_requirement restore_requirement Flow.restore_requirement
  restore_requirement-clear events given =
      ap
        (λ (e : IndexedEvidence FactId). record s {
          evidence = record { requirements = e; sinks = s.evidence.sinks };
        })
        (restore-remove index s.evidence.requirements valid.requirements events given)
