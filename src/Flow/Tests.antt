-- ===== src/Flow/Tests.antt =====
-- Evidence of a flow with two requirements and one sink, built by the operations.
use glass_lint.Prelude.{ℕ, ◌≡◌, ◌↔◌, true, some, [], ◌∷◌, arith, refl}
use glass_lint.Prelude.Order.{nat_ord}
use glass_lint.Prelude.Sorted.{binary_search_by_key, insert_at}
use glass_lint.Flow.{
  all_requirements, any_sink, FlowReadiness, IndexedEvidence, LifecycleEvidence, no_evidence,
  insert, remove, remove_event, restore, complete, from_value, insert_value,
}
use glass_lint.Flow.Indexed.{IsValid, no_evidence-IsValid, insert-IsValid}
use glass_lint.Flow.Readiness.{RequirementsMet, SinksMet, complete_iff}
use glass_lint.Flow.Rollback.{remove_event-insert, restore-remove}
use glass_lint.Flow.Limits.{from_flow_operations}
use glass_lint.Flow.Limits.Scaled.{AreWithin, from_flow_operations_mono}

abbrev one : IndexedEvidence ℕ
one = (insert 0 7 no_evidence).0

one-IsValid : IsValid one
one-IsValid = insert-IsValid 0 7 no_evidence no_evidence-IsValid (omega arith)

abbrev two : IndexedEvidence ℕ
two = (insert 1 9 one).0

two-IsValid : IsValid two
two-IsValid = insert-IsValid 1 9 one one-IsValid (omega arith)

abbrev evidence : LifecycleEvidence ℕ
evidence = record { requirements = two; sinks = one }

abbrev readiness : FlowReadiness
readiness = record {
  requirement_mode = all_requirements;
  requirement_count = 2;
  sink_mode = any_sink;
  sink_count = 1;
}

complete_iff_example :
    (complete readiness evidence ≡ true)
    ↔ (RequirementsMet all_requirements 2 two × SinksMet any_sink 1 one)
complete_iff_example = complete_iff readiness evidence two-IsValid one-IsValid

added : (insert 1 9 one).1 ≡ true
unfolding insert no_evidence binary_search_by_key insert_at
added = refl

given : (remove 1 two).1 ≡ some (9 ∷ [])
unfolding insert remove no_evidence binary_search_by_key insert_value from_value insert_at
given = refl

restore-remove_example : restore 1 (9 ∷ []) (remove 1 two).0 ≡ two
restore-remove_example = restore-remove 1 two two-IsValid (9 ∷ []) given

remove_event-insert_example : remove_event 1 9 (insert 1 9 one).0 ≡ (one, true)
remove_event-insert_example = remove_event-insert 1 9 one one-IsValid added

from_flow_operations_mono_example :
    AreWithin (from_flow_operations 10) (from_flow_operations 1000000)
from_flow_operations_mono_example = from_flow_operations_mono 10 1000000 (omega arith)
