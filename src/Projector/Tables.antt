-- ===== src/Projector/Tables.antt =====
-- glass-lint-core/src/analysis/flow/projector/state/tables.rs: the live tables of one projector pass.
-- An operation returns the table that it leaves, with its result where the code has one.
mod Undo
pub mod Consistent
pub mod Mutations
pub mod Loops
pub mod Clear
pub mod Restore
pub mod Runs
pub mod Capacity
pub mod Snapshot
use glass_lint.Prelude.{
  ℕ, ◌+◌, Bool, true, false, Option, none, some, List, [], ◌∷◌, map, length, ltb, if◌then◌else◌,
  contains,
}
use glass_lint.Prelude.Order.{nat_ord}
use glass_lint.Prelude.Sorted.{get, put, delete, insert_at, binary_search}
use glass_lint.Prelude.{Result, ok, err, min, usize_max, ◌>>=◌}
use glass_lint.Flow.{BoundedIndex}
use glass_lint.Flow.State.{
  FactId, FlowObjectId, FlowId, FlowState, FlowStateKey, key_ord, in_object_range,
}
use glass_lint.Flow.State
use glass_lint.Projector.Aliases.{
  ValueId, AliasTable, no_aliases, get_alias, set_alias, remove_alias, take, contains_object,
  objects,
}
use glass_lint.Projector.Log.{
  InverseDelta, alias_insert, alias_update, alias_remove, state_insert, state_update, state_remove,
  requirement_insert, requirement_remove, sink_insert, States, LiveTables, MutationLog, Checkpoint,
  record_delta, checkpoint, transition,
}
use glass_lint.Projector.Log

pub record FlowEnvironment : Type 0 where
  pub checkpoint : Checkpoint
  pub reachable : Bool

abbrev pub initial : FlowEnvironment
initial = record { checkpoint = 0; reachable = true }

pub record FlowStateTable : Type 0 where
  pub live : LiveTables
  pub log : MutationLog
  pub state_limit : ℕ
  pub state_limit_rejected : Bool

unfoldable pub new : ℕ → ℕ → FlowStateTable
new state_limit mutation_limit = record {
  live = Log.no_tables;
  log = Log.new mutation_limit;
  state_limit = state_limit;
  state_limit_rejected = false;
}

-- Tables that a mutation has left, with the mutation in the log.
pub logged : InverseDelta → LiveTables → FlowStateTable → FlowStateTable
logged delta live t = record t { live = live; log = record_delta delta t.log }

abbrev pub with_aliases : AliasTable → FlowStateTable → LiveTables
with_aliases aliases t = record { aliases = aliases; states = t.live.states }

abbrev pub with_states : States → FlowStateTable → LiveTables
with_states states t = record { aliases = t.live.aliases; states = states }

abbrev pub object_for : ValueId → FlowStateTable → Option FlowObjectId
object_for value t = get_alias value t.live.aliases

pub object_for_any : List ValueId → FlowStateTable → Option FlowObjectId
object_for_any [] t = none
object_for_any (value ∷ values) t =
    let later = object_for_any values t in
    elim (object_for value t) [ none ↦ later | some object ↦ some object ]

bound : ValueId → FlowObjectId → Option FlowObjectId → InverseDelta
bound value object none = alias_insert value object
bound value object (some old) = alias_update value old object

pub bind : ValueId → FlowObjectId → FlowStateTable → FlowStateTable
unfolding bound
bind value object t =
    let (aliases, previous) = set_alias value object t.live.aliases in
    logged (bound value object previous) (with_aliases aliases t) t

pub unbind : ValueId → FlowStateTable → FlowStateTable × Option FlowObjectId
unbind value t =
    let (aliases, removed) = remove_alias value t.live.aliases in
    elim removed [
      | none ↦ (t, none)
      | some old ↦ (logged (alias_remove value old) (with_aliases aliases t) t, some old)
    ]

abbrev pub has_alias_for : FlowObjectId → FlowStateTable → Bool
has_alias_for object t = contains_object object t.live.aliases

pub bind_aliases : List ValueId → FlowObjectId → FlowStateTable → FlowStateTable
bind_aliases [] object t = t
bind_aliases (value ∷ values) object t = bind_aliases values object (bind value object t)

-- `states.range(FlowStateKey::object_range(object))`
pub states_for : FlowObjectId → States → States
states_for object [] = []
states_for object ((key, state) ∷ states) =
    let kept = (key, state) ∷ states_for object states in
    let rest = states_for object states in if in_object_range object key then kept else rest

pub remove_state : FlowStateKey → FlowStateTable → FlowStateTable
remove_state key t = elim (get key t.live.states) [
  | none ↦ t
  | some state ↦ logged (state_remove key state) (with_states (delete key t.live.states) t) t
]

pub remove_states : List FlowStateKey → FlowStateTable → FlowStateTable
unfolding remove_state
remove_states [] t = t
remove_states (key ∷ keys) t = remove_states keys (remove_state key t)

pub remove_states_for : FlowObjectId → FlowStateTable → FlowStateTable
remove_states_for object t = remove_states (map (λ e. e.0) (states_for object t.live.states)) t

-- A `BTreeSet<FlowObjectId>` with one more item.
pub insert_object : FlowObjectId → List FlowObjectId → List FlowObjectId
insert_object object objects = elim (binary_search object objects) [
  | ok _ ↦ objects
  | err position ↦ insert_at position object objects
]

-- The first loop of `unbind_aliases`, with the set of objects.
pub unbind_all :
    List ValueId → List FlowObjectId → FlowStateTable → FlowStateTable × List FlowObjectId
unfolding insert_object
unbind_all [] objects t = (t, objects)
unbind_all (value ∷ values) objects t =
    let (t', removed) = unbind value t in
    unbind_all values (elim removed [ none ↦ objects | some o ↦ insert_object o objects ]) t'

-- The second loop of `unbind_aliases`.
pub drop_unaliased : List FlowObjectId → FlowStateTable → FlowStateTable
drop_unaliased [] t = t
drop_unaliased (object ∷ objects) t =
    drop_unaliased objects (if has_alias_for object t then t else remove_states_for object t)

pub unbind_aliases : List ValueId → FlowStateTable → FlowStateTable
unbind_aliases values t = let (t', objects) = unbind_all values [] t in drop_unaliased objects t'

-- The objects of `values`, as a set.
pub aliased : List ValueId → FlowStateTable → List FlowObjectId
unfolding insert_object
aliased [] t = []
aliased (value ∷ values) t =
    let rest = aliased values t in
    elim (object_for value t) [ none ↦ rest | some o ↦ insert_object o rest ]

pub remove_all_states : List FlowObjectId → FlowStateTable → FlowStateTable
remove_all_states [] t = t
remove_all_states (object ∷ objects) t = remove_all_states objects (remove_states_for object t)

pub invalidate_aliases : List ValueId → FlowStateTable → FlowStateTable
invalidate_aliases values t = remove_all_states (aliased values t) t

abbrev pub state_at : FlowObjectId → FlowId → FlowStateTable → Option FlowState
state_at object flow t = get (record { object = object; flow = flow }) t.live.states

pub record_requirement :
    FlowObjectId → FlowId → BoundedIndex → FactId → FlowStateTable → FlowStateTable × Bool
record_requirement object flow index event t =
    let key : FlowStateKey = record { object = object; flow = flow } in
    elim (get key t.live.states) [
      | none ↦ (t, false)
      | some state ↦
          let (state', added) = State.record_requirement index event state in
          if added
          then (
            logged (requirement_insert key index event)
                (with_states (put key state' t.live.states) t) t,
            true,
          )
          else (t, false)
    ]

pub clear_requirement :
    FlowObjectId → FlowId → BoundedIndex → FlowStateTable → FlowStateTable × Bool
clear_requirement object flow index t =
    let key : FlowStateKey = record { object = object; flow = flow } in
    elim (get key t.live.states) [
      | none ↦ (t, false)
      | some state ↦
          let (state', removed) = State.clear_requirement index state in
          elim removed [
            | none ↦ (t, false)
            | some events ↦ (
              logged (requirement_remove key index events)
                  (with_states (put key state' t.live.states) t) t,
              true,
            )
          ]
    ]

pub record_sink :
    FlowObjectId → FlowId → BoundedIndex → FactId → FlowStateTable → FlowStateTable × Bool
record_sink object flow index event t =
    let key : FlowStateKey = record { object = object; flow = flow } in
    elim (get key t.live.states) [
      | none ↦ (t, false)
      | some state ↦
          let (state', added) = State.record_sink index event state in
          if added
          then (
            logged (sink_insert key index event) (with_states (put key state' t.live.states) t) t,
            true,
          )
          else (t, false)
    ]

pub record PropertyWriteUpdate : Type 0 where
  pub index : BoundedIndex
  pub value_matches : Bool

-- The inner loop of `apply_property_write`.
pub apply_updates :
    FlowObjectId → FactId → FlowId → List PropertyWriteUpdate → FlowStateTable → FlowStateTable
apply_updates object event flow [] t = t
apply_updates object event flow (update ∷ updates) t =
    let cleared = (clear_requirement object flow update.index t).0 in
    apply_updates object event flow updates (
      if update.value_matches
      then (record_requirement object flow update.index event cleared).0
      else cleared)

-- The outer loop, with the flows affected. The plan's `updates_for` does not change its state.
pub apply_to_flows :
    FlowObjectId
    → FactId
    → (FlowId → List PropertyWriteUpdate)
    → List FlowId
    → FlowStateTable
    → FlowStateTable × List FlowId
apply_to_flows object event updates_for [] t = (t, [])
apply_to_flows object event updates_for (flow ∷ flows) t = elim (updates_for flow) [
  | [] ↦ apply_to_flows object event updates_for flows t
  | update ∷ updates ↦
      let (t', affected) =
        apply_to_flows object event updates_for flows
          (apply_updates object event flow (update ∷ updates) t) in
      (t', flow ∷ affected)
]

pub apply_property_write :
    FlowObjectId
    → FactId
    → (FlowId → List PropertyWriteUpdate)
    → FlowStateTable
    → FlowStateTable × List FlowId
apply_property_write object event updates_for t =
    apply_to_flows object event updates_for (map (λ e. e.0.flow) (states_for object t.live.states))
      t

inserted : FlowState → Option FlowState → InverseDelta
inserted state none = state_insert (State.key state) state
inserted state (some old) = state_update (State.key state) old state

pub insert_state_unchecked : FlowState → FlowStateTable → FlowStateTable
unfolding inserted
insert_state_unchecked state t =
    logged (inserted state (get (State.key state) t.live.states))
      (with_states (put (State.key state) state t.live.states) t) t

pub insert_states : List FlowState → FlowStateTable → FlowStateTable
insert_states [] t = t
insert_states (state ∷ states) t = insert_states states (insert_state_unchecked state t)

-- The keys of `states` that the table does not hold, as a `BTreeSet`, here a map to the unit.
pub new_keys :
    List FlowState
    → List (FlowStateKey × Unit {0})
    → FlowStateTable
    → List (FlowStateKey × Unit {0})
new_keys [] keys t = keys
new_keys (state ∷ states) keys t =
    new_keys states
      (elim (get (State.key state) t.live.states) [
        | none ↦ put (State.key state) tt keys
        | some _ ↦ keys
      ])
      t

-- `usize::saturating_add`.
abbrev pub saturating_add : ℕ → ℕ → ℕ
saturating_add a b = min (a + b) usize_max

pub admit_object : List ValueId → FlowObjectId → List FlowState → FlowStateTable → FlowStateTable
admit_object aliases object states t =
    if ltb t.state_limit (saturating_add (length t.live.states) (length (new_keys states [] t)))
    then record t { state_limit_rejected = true }
    else insert_states states (bind_aliases aliases object t)

-- The two loops of `clear`: they log what `take` has taken.
pub log_aliases : List (ValueId × FlowObjectId) → MutationLog → MutationLog
log_aliases [] log = log
log_aliases ((value, object) ∷ values) log =
    log_aliases values (record_delta (alias_remove value object) log)

pub log_states : States → MutationLog → MutationLog
log_states [] log = log
log_states ((key, state) ∷ states) log =
    log_states states (record_delta (state_remove key state) log)

pub clear : FlowStateTable → FlowStateTable
clear t =
    let (aliases, values) = take t.live.aliases in
    record t {
      live = record { aliases = aliases; states = [] };
      log = log_states t.live.states (log_aliases values t.log);
    }

abbrev pub capture : Bool → FlowStateTable → FlowEnvironment
capture reachable t = record { checkpoint = checkpoint t.log; reachable = reachable }

-- `restore`: it is `none` where the transition of the history panics.
pub restore : FlowEnvironment → FlowStateTable → Option (FlowStateTable × Bool)
restore environment t = elim (transition environment.checkpoint t.log t.live) [
  | none ↦ none
  | some (moved, log, live) ↦
      some (record t { live = live; log = log }, if moved then environment.reachable else false)
]
