-- ===== src/Projector/Tests.antt =====
-- A short run of the projector's tables, a stack of control frames, and a sink of evidence.
use glass_lint.Prelude.{
  ◌≡◌, arith, ◌↔◌, true, false, some, none, List, [], ◌∷◌, refl, if◌then◌else◌, ltb,
}
use glass_lint.Evidence
use glass_lint.Evidence.{ClassificationEvidence, call, definite, Occurrence}
use glass_lint.Projector.Aliases.{ValueId, no_aliases, get_alias, contains_object}
use glass_lint.Projector.Aliases.Runs.{Call, setting, removing, run, aliased_by, run-aliased_by}
use glass_lint.Projector.Tables.Capacity.{Admitted, admit_object-Admitted}
use glass_lint.Flow.State
use glass_lint.Flow.State.{FlowState}
use glass_lint.Projector.Tables.{
  admit_object, FlowEnvironment, FlowStateTable, new, bind, unbind_aliases, clear, capture, restore,
}
use glass_lint.Projector.Tables.Consistent.{IsConsistent, entries_of}
use glass_lint.Projector.Tables.Restore.{restore_lem, moved_to}
use glass_lint.Projector.Tables.Runs.{
  binding, unbinding_aliases, clearing, Run, here, next, reached-IsConsistent, restore-capture,
}
use glass_lint.Projector.Control.{
  continue_exit, ControlStack, ControlFrame, loop, switch, route_abrupt,
}
use glass_lint.Projector.Control.Routing.{Routed, route_abrupt-Routed}
use glass_lint.Projector.Emission.{ReportEvidenceKey, FlowEvidence, record_if_admitted}
use glass_lint.Projector.Emission
use glass_lint.Projector.Emission.Accounts.{new-IsAccounted}
use glass_lint.Projector.Emission.Admission.{Admission, record_if_admitted-Admission}

abbrev start : FlowStateTable
start = new 8 16

abbrev bound : FlowStateTable
bound = bind 4 2 (bind 3 1 start)

bound-Run : Run start bound
bound-Run = next (next here (binding 3 1 refl)) (binding 4 2 refl)

abbrev cleared : FlowStateTable
cleared = clear (unbind_aliases (3 ∷ []) bound)

cleared-Run : Run bound cleared
cleared-Run = next (next here (unbinding_aliases (3 ∷ []) refl)) (clearing refl)

reached-IsConsistent_example : IsConsistent bound
reached-IsConsistent_example = reached-IsConsistent 8 16 bound-Run

restore-capture_example : restore (capture true bound) cleared ≡ (
    if cleared.log.budget_exhausted
    then some (cleared, false)
    else some (
      record cleared {
        live = bound.live;
        log = record cleared.log {
          history = record cleared.log.history { cursor = bound.log.history.cursor };
        };
      },
      true,
    ))
restore-capture_example =
    restore-capture bound cleared (reached-IsConsistent 8 16 bound-Run) cleared-Run true

restore_lem_example : restore (record { checkpoint = 1; reachable = true }) bound ≡ (
    if bound.log.budget_exhausted
    then some (bound, false)
    else if ltb (entries_of bound) 1
    then some (bound, false)
    else some (moved_to 1 bound, true))
restore_lem_example =
    restore_lem bound (reached-IsConsistent 8 16 bound-Run)
      (record { checkpoint = 1; reachable = true })

abbrev state : FlowState
state = State.new (record { rule_index = 0; flow_index = 0 }) 7 5

admit_object-Admitted_example :
    Admitted (9 ∷ []) 5 (state ∷ []) start (admit_object (9 ∷ []) 5 (state ∷ []) start)
admit_object-Admitted_example =
    admit_object-Admitted (9 ∷ []) 5 (state ∷ []) start (unfold new in omega arith)
      (reached-IsConsistent 8 16 here)

-- A value that is bound anew, and one that is removed.
abbrev calls : List Call
calls = setting 3 1 ∷ setting 4 1 ∷ setting 3 2 ∷ removing 4 ∷ []

run-aliased_by_example :
    (get_alias 4 (run calls no_aliases) ≡ aliased_by calls (λ w. none) 4)
    × ((contains_object 1 (run calls no_aliases) ≡ true)
        ↔ ((w : ValueId) × (aliased_by calls (λ w. none) w ≡ some 1)))
run-aliased_by_example = run-aliased_by calls 4 1

abbrev outer : ControlFrame
outer = loop (record {
  region = 5;
  body_start = 0;
  baseline = [];
  guaranteed = false;
  breaks = [];
  continues = [];
})

abbrev inner : ControlFrame
inner = switch (record { region = 6; baseline = []; breaks = []; has_default = true })

abbrev stack : ControlStack
stack = inner ∷ outer ∷ []

abbrev environment : FlowEnvironment
environment = record { checkpoint = 3; reachable = true }

route_abrupt-Routed_example :
    Routed continue_exit environment stack (route_abrupt continue_exit environment stack)
route_abrupt-Routed_example = route_abrupt-Routed continue_exit environment stack

abbrev report : ReportEvidenceKey
report = record { rule = 0; flow = 0; object = 1; event = 7 }

abbrev sink : FlowEvidence
sink = Emission.new (Evidence.new 4) 2

abbrev item : ClassificationEvidence
item = record {
  kind = call;
  symbol = 0x66 ∷ [];
  count = 1;
  truncated = false;
  certainty = definite;
  occurrences = record { span = record { start = 2; end = 5 }; fact = some 7; trace = none } ∷ [];
}

record_if_admitted-Admission_example :
    Admission report 0 item sink (record_if_admitted report 0 item sink)
record_if_admitted-Admission_example =
    record_if_admitted-Admission report 0 item sink (new-IsAccounted (Evidence.new 4) 2)
