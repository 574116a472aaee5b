-- ===== src/Projector/Tables/Mutations.antt =====
-- The operations that log one mutation keep the invariant.
use glass_lint.Prelude.{
  ◌<◌, ◌≡◌, sym, ap, ◌∙◌, subst, some, none, Option-cases, Bool-cases, inl, inr, some_injective,
}
use glass_lint.Prelude.Order.{nat_ord, same_cases}
use glass_lint.Prelude.Words.{word_bits}
use glass_lint.Prelude.Sorted.{get, put, delete}
use glass_lint.Prelude.Sorted.Maps.{put-IsMap, delete-IsMap, get-put_same, get-delete_same}
use glass_lint.Prelude.Sorted.Extensional.{get-put_other, get-delete_other}
use glass_lint.Flow.{BoundedIndex}
use glass_lint.Flow.State.{FactId, FlowId, FlowObjectId, FlowState, FlowStateKey, key_ord}
use glass_lint.Flow.State
use glass_lint.Flow.State.Reverts.{
  IsValidState, record_requirement-IsValidState, clear_requirement-IsValidState,
  record_sink-IsValidState,
}
use glass_lint.Projector.Aliases.{ValueId, set_alias}
use glass_lint.Projector.Aliases.Counted.{
  set_alias-IsCounted, remove_alias-IsCounted, set_alias-previous, remove_alias-object,
}
use glass_lint.Projector.Log.{LiveTables}
use glass_lint.Projector.Tables.{
  FlowStateTable, bound, bind, unbind, remove_state, record_requirement, clear_requirement,
  record_sink, inserted, insert_state_unchecked, with_aliases,
}
use glass_lint.Projector.Tables.Undo.{
  set_new-Reverts, set_old-Reverts, remove_alias-Reverts, put_new-Reverts, put_old-Reverts,
  delete-Reverts, requirement_insert-Reverts, requirement_remove-Reverts, sink_insert-Reverts,
}
use glass_lint.Projector.Tables.Consistent.{
  IsConsistent, AreValid, Follows, Follows-refl, logged-Follows,
}

module _ (t : LiveTables) (valid : AreValid t) (key : FlowStateKey) where
  put-AreValid :
      (state : FlowState)
      → IsValidState state
      → AreValid (record t { states = put key state t.states })
  put-AreValid state ok_state = record {
    counted = valid.counted;
    sorted = put-IsMap key state t.states valid.sorted;
    states = λ k s at. elim (same_cases k key) [
      | inr apart ↦
          valid.states k s (sym (get-put_other k key state t.states apart valid.sorted) ∙ at)
      | inl same ↦
          subst IsValidState
            (some_injective (
              sym (get-put_same key state t.states valid.sorted)
              ∙ ap (λ x. get x (put key state t.states)) (sym same)
              ∙ at))
            ok_state
    ];
  }

  pub delete-AreValid : FlowState → AreValid (record t { states = delete key t.states })
  delete-AreValid any = record {
    counted = valid.counted;
    sorted = delete-IsMap key any t.states valid.sorted;
    states = λ k s at. valid.states k s (still k s at);
  }
    where
      none_some : {s : FlowState} → none ≡ some s → ⊥
      none_some h = cc

      still :
          (k : FlowStateKey) (s : FlowState)
          → get k (delete key t.states) ≡ some s
          → get k t.states ≡ some s
      still k s at = elim (same_cases k key) [
        | inr apart ↦ sym (get-delete_other k key any t.states apart valid.sorted) ∙ at
        | inl same ↦ absurd (
            none_some (
              sym (get-delete_same key any t.states valid.sorted)
              ∙ ap (λ x. get x (delete key t.states)) (sym same)
              ∙ at))
      ]

module _ (t : FlowStateTable) (c : IsConsistent t) where
  module _ (value : ValueId) where
    pub bind-Follows : (object : FlowObjectId) → Follows t (bind value object t)
    unfolding bind bound
    bind-Follows object =
        let aliases = (set_alias value object t.live.aliases).0 in
        let valid : AreValid (with_aliases aliases t) = record {
          counted = set_alias-IsCounted t.live.aliases c.valid.counted value object;
          sorted = c.valid.sorted;
          states = c.valid.states;
        } in
        elim (Option-cases (get value t.live.aliases.values)) [
          | inl new ↦
              rw (set_alias-previous value object t.live.aliases ∙ new, bind, bound)
                (logged-Follows t c _ _ (set_new-Reverts t.live c.valid.counted value object new)
                  valid)
          | inr (old, at) ↦
              rw (set_alias-previous value object t.live.aliases ∙ at, bind, bound)
                (logged-Follows t c _ _ (set_old-Reverts t.live c.valid.counted value object old at)
                  valid)
        ]

    pub unbind-Follows : Follows t (unbind value t).0
    unfolding unbind
    unbind-Follows = elim (Option-cases (get value t.live.aliases.values)) [
      | inl nothing ↦
          rw (remove_alias-object value t.live.aliases ∙ nothing, unbind) (Follows-refl t c)
      | inr (old, at) ↦
          rw (remove_alias-object value t.live.aliases ∙ at, unbind)
            (logged-Follows t c _ _ (remove_alias-Reverts t.live c.valid.counted value old at)
              record {
                counted = remove_alias-IsCounted t.live.aliases c.valid.counted value;
                sorted = c.valid.sorted;
                states = c.valid.states;
              })
    ]

  pub remove_state-Follows : (key : FlowStateKey) → Follows t (remove_state key t)
  unfolding remove_state
  remove_state-Follows key = elim (Option-cases (get key t.live.states)) [
    | inl nothing ↦ rw (nothing, remove_state) (Follows-refl t c)
    | inr (state, at) ↦
        rw (at, remove_state)
          (logged-Follows t c _ _ (delete-Reverts t.live c.valid.sorted key state at)
            (delete-AreValid t.live c.valid key state))
  ]

  pub insert_state_unchecked-Follows :
      (state : FlowState) → IsValidState state → Follows t (insert_state_unchecked state t)
  unfolding insert_state_unchecked inserted
  insert_state_unchecked-Follows state ok_state =
      let key = State.key state in
      let valid = put-AreValid t.live c.valid key state ok_state in
      elim (Option-cases (get key t.live.states)) [
        | inl new ↦
            rw (new, insert_state_unchecked, inserted)
              (logged-Follows t c _ _ (put_new-Reverts t.live c.valid.sorted key state new) valid)
        | inr (old, at) ↦
            rw (at, insert_state_unchecked, inserted)
              (logged-Follows t c _ _ (put_old-Reverts t.live c.valid.sorted key state old at)
                valid)
      ]

  module _ (object : FlowObjectId) (flow : FlowId) (index : BoundedIndex) where
    abbrev here : FlowStateKey
    here = record { object = object; flow = flow }

    pub record_requirement-Follows :
        (event : FactId)
        → index < word_bits
        → Follows t (record_requirement object flow index event t).0
    unfolding record_requirement
    record_requirement-Follows event small = elim (Option-cases (get here t.live.states)) [
      | inl nothing ↦ rw (nothing, record_requirement) (Follows-refl t c)
      | inr (state, at) ↦
          let ok_state = c.valid.states here state at in
          elim (Bool-cases (State.record_requirement index event state).1) [
            | inr known ↦ rw (at, record_requirement) (rw known (Follows-refl t c))
            | inl new ↦
                rw (at, record_requirement)
                  (rw new (
                    logged-Follows t c _ _
                      (requirement_insert-Reverts t.live c.valid.sorted here state at ok_state index
                        event new)
                      (put-AreValid t.live c.valid here _
                        (record_requirement-IsValidState index state ok_state event small))))
          ]
    ]

    pub record_sink-Follows :
        (event : FactId) → index < word_bits → Follows t (record_sink object flow index event t).0
    unfolding record_sink
    record_sink-Follows event small = elim (Option-cases (get here t.live.states)) [
      | inl nothing ↦ rw (nothing, record_sink) (Follows-refl t c)
      | inr (state, at) ↦
          let ok_state = c.valid.states here state at in
          elim (Bool-cases (State.record_sink index event state).1) [
            | inr known ↦ rw (at, record_sink) (rw known (Follows-refl t c))
            | inl new ↦
                rw (at, record_sink)
                  (rw new (
                    logged-Follows t c _ _
                      (sink_insert-Reverts t.live c.valid.sorted here state at ok_state index event
                        new)
                      (put-AreValid t.live c.valid here _
                        (record_sink-IsValidState index state ok_state event small))))
          ]
    ]

    pub clear_requirement-Follows : Follows t (clear_requirement object flow index t).0
    unfolding clear_requirement
    clear_requirement-Follows = elim (Option-cases (get here t.live.states)) [
      | inl nothing ↦ rw (nothing, clear_requirement) (Follows-refl t c)
      | inr (state, at) ↦
          let ok_state = c.valid.states here state at in
          elim (Option-cases (State.clear_requirement index state).1) [
            | inl known ↦ rw (at, clear_requirement) (rw known (Follows-refl t c))
            | inr (events, given) ↦
                rw (at, clear_requirement)
                  (rw given (
                    logged-Follows t c _ _
                      (requirement_remove-Reverts t.live c.valid.sorted here state at ok_state index
                        events given)
                      (put-AreValid t.live c.valid here _
                        (clear_requirement-IsValidState index state ok_state))))
          ]
    ]
