-- ===== src/Projector/Log.antt =====
-- glass-lint-core/src/analysis/flow/projector/history.rs, and `InverseDelta::apply` of state.rs: the
-- bounded log of the mutations of the alias and state tables.
-- `record` cannot panic on a valid history; where it would, the model leaves the history as it is.
use glass_lint.Prelude.{ℕ, Bool, true, false, Option, none, some, List, [], leb, if◌then◌else◌}
use glass_lint.Prelude.Order.{nat_ord}
use glass_lint.Prelude.Sorted.{get, put, delete}
use glass_lint.History.{HistoryCursor, HistoryTransition, undo, redo, ParentLinkedHistory}
use glass_lint.History
use glass_lint.Flow.{BoundedIndex, EvidenceValues}
use glass_lint.Flow.State.{
  FactId, FlowObjectId, FlowState, FlowStateKey, key_ord, record_requirement, clear_requirement,
  remove_requirement_event, restore_requirement, record_sink, remove_sink_event,
}
use glass_lint.Projector.Aliases.{ValueId, AliasTable, no_aliases, set_alias, remove_alias}

pub data InverseDelta : Type 0 where
  alias_insert : ValueId → FlowObjectId → InverseDelta
  alias_update : ValueId → FlowObjectId → FlowObjectId → InverseDelta
  alias_remove : ValueId → FlowObjectId → InverseDelta
  state_insert : FlowStateKey → FlowState → InverseDelta
  state_update : FlowStateKey → FlowState → FlowState → InverseDelta
  state_remove : FlowStateKey → FlowState → InverseDelta
  requirement_insert : FlowStateKey → BoundedIndex → FactId → InverseDelta
  requirement_remove : FlowStateKey → BoundedIndex → EvidenceValues FactId → InverseDelta
  sink_insert : FlowStateKey → BoundedIndex → FactId → InverseDelta

abbrev pub States : Type 0
States = List (FlowStateKey × FlowState)

-- What a delta acts on.
pub record LiveTables : Type 0 where
  pub aliases : AliasTable
  pub states : States

abbrev pub no_tables : LiveTables
no_tables = record { aliases = no_aliases; states = [] }

-- `if let Some(state) = states.get_mut(key) { … }`
unfoldable pub modify : FlowStateKey → (FlowState → FlowState) → States → States
modify key f states = elim (get key states) [
  | none ↦ states
  | some state ↦ put key (f state) states
]

abbrev pub on_aliases : (AliasTable → AliasTable) → LiveTables → LiveTables
on_aliases f t = record t { aliases = f t.aliases }

abbrev pub on_states : (States → States) → LiveTables → LiveTables
on_states f t = record t { states = f t.states }

unfoldable pub apply : HistoryTransition → InverseDelta → LiveTables → LiveTables
apply undo (alias_insert value object) t = on_aliases (λ a. (remove_alias value a).0) t
apply redo (alias_insert value object) t = on_aliases (λ a. (set_alias value object a).0) t
apply undo (alias_update value old new) t = on_aliases (λ a. (set_alias value old a).0) t
apply redo (alias_update value old new) t = on_aliases (λ a. (set_alias value new a).0) t
apply undo (alias_remove value object) t = on_aliases (λ a. (set_alias value object a).0) t
apply redo (alias_remove value object) t = on_aliases (λ a. (remove_alias value a).0) t
apply undo (state_insert key state) t = on_states (delete key) t
apply redo (state_insert key state) t = on_states (put key state) t
apply undo (state_update key old new) t = on_states (put key old) t
apply redo (state_update key old new) t = on_states (put key new) t
apply undo (state_remove key state) t = on_states (put key state) t
apply redo (state_remove key state) t = on_states (delete key) t
apply undo (requirement_insert key index event) t =
    on_states (modify key (λ s. (remove_requirement_event index event s).0)) t
apply redo (requirement_insert key index event) t =
    on_states (modify key (λ s. (record_requirement index event s).0)) t
apply undo (requirement_remove key index events) t =
    on_states (modify key (restore_requirement index events)) t
apply redo (requirement_remove key index events) t =
    on_states (modify key (λ s. (clear_requirement index s).0)) t
apply undo (sink_insert key index event) t =
    on_states (modify key (λ s. (remove_sink_event index event s).0)) t
apply redo (sink_insert key index event) t =
    on_states (modify key (λ s. (record_sink index event s).0)) t

abbrev pub Checkpoint : Type 0
Checkpoint = HistoryCursor

pub record MutationLog : Type 0 where
  pub history : ParentLinkedHistory InverseDelta
  pub budget_exhausted : Bool
  pub limit : ℕ

unfoldable pub new : ℕ → MutationLog
new limit = record { history = History.new; budget_exhausted = false; limit = limit }

unfoldable pub recorded : Option (ParentLinkedHistory InverseDelta) → MutationLog → MutationLog
recorded none log = log
recorded (some history) log = record log { history = history }

-- `MutationLog::record`.
unfoldable pub record_delta : InverseDelta → MutationLog → MutationLog
unfolding recorded
record_delta delta log =
    if leb log.limit (History.len log.history)
    then record log { budget_exhausted = true }
    else recorded (History.record_delta delta log.history) log

abbrev pub checkpoint : MutationLog → Checkpoint
checkpoint log = History.checkpoint log.history

-- `MutationLog::transition` with the callback `delta.apply(direction, …)`: whether the log has moved
-- to the checkpoint, the log and the tables. It is `none` where the transition panics.
unfoldable pub transition :
    Checkpoint → MutationLog → LiveTables → Option (Bool × MutationLog × LiveTables)
transition target log t =
    if log.budget_exhausted
    then some (false, log, t)
    else elim (History.transition apply target log.history t) [
      | none ↦ none
      | some (moved, history, t') ↦ some (moved, record log { history = history }, t')
    ]
