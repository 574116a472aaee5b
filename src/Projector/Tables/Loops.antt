-- ===== src/Projector/Tables/Loops.antt =====
-- The operations that log several mutations keep the invariant.
use glass_lint.Prelude.{
  ◌<◌, refl, subst, true, Bool-cases, List-cases, ltb, length, inl, inr, arith, List, [], ◌∷◌, map,
}
use glass_lint.Prelude.Order.{nat_ord}
use glass_lint.Prelude.Words.{word_bits}
use glass_lint.Flow.State.{FactId, FlowId, FlowObjectId, FlowState, FlowStateKey, key_ord}
use glass_lint.Flow.State.Reverts.{IsValidState}
use glass_lint.Projector.Aliases.{ValueId}
use glass_lint.Projector.Tables.{
  FlowStateTable, bind, unbind, bind_aliases, remove_state, remove_states, remove_states_for,
  states_for, unbind_all, drop_unaliased, unbind_aliases, aliased, remove_all_states,
  invalidate_aliases, has_alias_for, PropertyWriteUpdate, apply_updates, apply_to_flows,
  apply_property_write, clear_requirement, record_requirement, insert_state_unchecked,
  insert_states, admit_object, saturating_add, new_keys,
}
use glass_lint.Projector.Tables.Consistent.{IsConsistent, Follows, Follows-refl, Follows-trans}
use glass_lint.Projector.Tables.Mutations.{
  bind-Follows, unbind-Follows, remove_state-Follows, insert_state_unchecked-Follows,
  record_requirement-Follows, clear_requirement-Follows,
}

pub bind_aliases-Follows :
    (values : List ValueId) (object : FlowObjectId) (t : FlowStateTable)
    → IsConsistent t
    → Follows t (bind_aliases values object t)
unfolding bind_aliases
bind_aliases-Follows [] object t c = Follows-refl t c
bind_aliases-Follows (value ∷ values) object t c =
    let first = bind-Follows t c value object in
    Follows-trans _ _ _ first
      (bind_aliases-Follows values object (bind value object t) first.consistent)

remove_states-Follows :
    (keys : List FlowStateKey) (t : FlowStateTable)
    → IsConsistent t
    → Follows t (remove_states keys t)
unfolding remove_states
remove_states-Follows [] t c = Follows-refl t c
remove_states-Follows (key ∷ keys) t c =
    let first = remove_state-Follows t c key in
    Follows-trans _ _ _ first (remove_states-Follows keys (remove_state key t) first.consistent)

pub remove_states_for-Follows :
    (object : FlowObjectId) (t : FlowStateTable)
    → IsConsistent t
    → Follows t (remove_states_for object t)
unfolding remove_states_for
remove_states_for-Follows object t c =
    remove_states-Follows (map (λ e. e.0) (states_for object t.live.states)) t c

unbind_all-Follows :
    (values : List ValueId) (objects : List FlowObjectId) (t : FlowStateTable)
    → IsConsistent t
    → Follows t (unbind_all values objects t).0
unfolding unbind_all
unbind_all-Follows [] objects t c = Follows-refl t c
unbind_all-Follows (value ∷ values) objects t c =
    let first = unbind-Follows t c value in
    Follows-trans _ _ _ first (unbind_all-Follows values _ (unbind value t).0 first.consistent)

drop_unaliased-Follows :
    (objects : List FlowObjectId) (t : FlowStateTable)
    → IsConsistent t
    → Follows t (drop_unaliased objects t)
unfolding drop_unaliased
drop_unaliased-Follows [] t c = Follows-refl t c
drop_unaliased-Follows (object ∷ objects) t c = elim (Bool-cases (has_alias_for object t)) [
  | inl held ↦ rw held (drop_unaliased-Follows objects t c)
  | inr free ↦
      let first = remove_states_for-Follows object t c in
      rw free (
        Follows-trans _ _ _ first
          (drop_unaliased-Follows objects (remove_states_for object t) first.consistent))
]

pub unbind_aliases-Follows :
    (values : List ValueId) (t : FlowStateTable)
    → IsConsistent t
    → Follows t (unbind_aliases values t)
unfolding unbind_aliases
unbind_aliases-Follows values t c =
    let first = unbind_all-Follows values [] t c in
    Follows-trans _ _ _ first (
      drop_unaliased-Follows (unbind_all values [] t).1 (unbind_all values [] t).0 first.consistent)

remove_all_states-Follows :
    (objects : List FlowObjectId) (t : FlowStateTable)
    → IsConsistent t
    → Follows t (remove_all_states objects t)
unfolding remove_all_states
remove_all_states-Follows [] t c = Follows-refl t c
remove_all_states-Follows (object ∷ objects) t c =
    let first = remove_states_for-Follows object t c in
    Follows-trans _ _ _ first
      (remove_all_states-Follows objects (remove_states_for object t) first.consistent)

pub invalidate_aliases-Follows :
    (values : List ValueId) (t : FlowStateTable)
    → IsConsistent t
    → Follows t (invalidate_aliases values t)
unfolding invalidate_aliases
invalidate_aliases-Follows values t c = remove_all_states-Follows (aliased values t) t c

-- The indices of updates are bounded, as every `RequirementIndex` is.
abbrev pub AreBounded : List PropertyWriteUpdate → Type 0
AreBounded [] = Unit
AreBounded (update ∷ updates) = (update.index < word_bits) × AreBounded updates

module _ (object : FlowObjectId) (event : FactId) where
  apply_updates-Follows :
      (flow : FlowId) (updates : List PropertyWriteUpdate) (t : FlowStateTable)
      → AreBounded updates
      → IsConsistent t
      → Follows t (apply_updates object event flow updates t)
  unfolding apply_updates
  apply_updates-Follows flow [] t b c = Follows-refl t c
  apply_updates-Follows flow (update ∷ updates) t (small, b) c =
      let cleared = (clear_requirement object flow update.index t).0 in
      let first = clear_requirement-Follows t c object flow update.index in
      elim (Bool-cases update.value_matches) [
        | inr not_matching ↦ rw not_matching (
            Follows-trans _ _ _ first
              (apply_updates-Follows flow updates cleared b first.consistent))
        | inl matching ↦
            let second =
              record_requirement-Follows cleared first.consistent object flow update.index event
                small in
            rw matching (
              Follows-trans _ _ _ first (
                Follows-trans _ _ _ second (
                  apply_updates-Follows flow updates
                    (record_requirement object flow update.index event cleared).0 b
                    second.consistent)))
      ]

  module _ (updates_for : FlowId → List PropertyWriteUpdate)
      (bounded : (flow : FlowId) → AreBounded (updates_for flow)) where
    apply_to_flows-Follows :
        (flows : List FlowId) (t : FlowStateTable)
        → IsConsistent t
        → Follows t (apply_to_flows object event updates_for flows t).0
    unfolding apply_to_flows
    apply_to_flows-Follows [] t c = Follows-refl t c
    apply_to_flows-Follows (flow ∷ flows) t c = elim (List-cases (updates_for flow)) [
      | inl nothing ↦ rw (nothing, apply_to_flows) (apply_to_flows-Follows flows t c)
      | inr (update, updates, whole) ↦
          let some_bounded = subst AreBounded whole (bounded flow) in
          let first = apply_updates-Follows flow (update ∷ updates) t some_bounded c in
          rw (whole, apply_to_flows)
            (Follows-trans _ _ _ first (
              apply_to_flows-Follows flows (apply_updates object event flow (update ∷ updates) t)
                first.consistent))
    ]

    pub apply_property_write-Follows :
        (t : FlowStateTable)
        → IsConsistent t
        → Follows t (apply_property_write object event updates_for t).0
    unfolding apply_property_write
    apply_property_write-Follows t c =
        apply_to_flows-Follows (map (λ e. e.0.flow) (states_for object t.live.states)) t c

abbrev pub AllValid : List FlowState → Type 0
AllValid [] = Unit
AllValid (state ∷ states) = IsValidState state × AllValid states

insert_states-Follows :
    (states : List FlowState) (t : FlowStateTable)
    → AllValid states
    → IsConsistent t
    → Follows t (insert_states states t)
unfolding insert_states
insert_states-Follows [] t v c = Follows-refl t c
insert_states-Follows (state ∷ states) t (v, vs) c =
    let first = insert_state_unchecked-Follows t c state v in
    Follows-trans _ _ _ first
      (insert_states-Follows states (insert_state_unchecked state t) vs first.consistent)

rejected-Follows :
    (t : FlowStateTable) → IsConsistent t → Follows t (record t { state_limit_rejected = true })
rejected-Follows t c = record {
  consistent = record {
    history = c.history;
    valid = c.valid;
    replayed = c.replayed;
    spent = c.spent;
    undoes = c.undoes;
    all_valid = c.all_valid;
  };
  extends = record {
    grown = omega arith;
    kept = λ i r. refl;
    still_exhausted = λ h. h;
    same_limit = refl;
  };
}

pub admit_object-Follows :
    (aliases : List ValueId) (object : FlowObjectId) (states : List FlowState) (t : FlowStateTable)
    → AllValid states
    → IsConsistent t
    → Follows t (admit_object aliases object states t)
unfolding admit_object
admit_object-Follows aliases object states t v c =
    elim (Bool-cases
      (ltb t.state_limit (saturating_add (length t.live.states) (length (new_keys states [] t))))) [
        | inl over ↦ rw over (rejected-Follows t c)
        | inr fits ↦
            let first = bind_aliases-Follows aliases object t c in
            rw fits (
              Follows-trans _ _ _ first
                (insert_states-Follows states (bind_aliases aliases object t) v first.consistent))
      ]
