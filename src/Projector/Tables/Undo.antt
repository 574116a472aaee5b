-- ===== src/Projector/Tables/Undo.antt =====
-- Each mutation that an operation logs is undone where it was applied.
use glass_lint.Prelude.{◌≡◌, refl, ap, ◌∙◌, true, some, none}
use glass_lint.Prelude.Order.{nat_ord}
use glass_lint.Prelude.Sorted.{get, put, delete}
use glass_lint.Prelude.Sorted.Maps.{IsMap, get-put_same, delete-put, put-put, put-delete}
use glass_lint.History.{undo, redo}
use glass_lint.Flow.{BoundedIndex, EvidenceValues}
use glass_lint.Flow.State.{
  FactId, FlowObjectId, FlowState, FlowStateKey, key_ord, record_requirement, clear_requirement,
  remove_requirement_event, restore_requirement, record_sink, remove_sink_event,
}
use glass_lint.Flow.State.Reverts.{
  IsValidState, remove_requirement_event-record, remove_sink_event-record,
  restore_requirement-clear,
}
use glass_lint.Projector.Aliases.{ValueId, AliasTable, set_alias, remove_alias}
use glass_lint.Projector.Aliases.Counted.{
  IsCounted, set_alias-IsCounted, remove_alias-IsCounted, AliasTable_ext, set_alias-values,
  remove_alias-values,
}
use glass_lint.Projector.Log.{
  InverseDelta, alias_insert, alias_update, alias_remove, state_insert, state_update, state_remove,
  requirement_insert, requirement_remove, sink_insert, LiveTables, modify, apply,
}

-- `d` takes the tables from `before` to `after` and back.
pub record Reverts (d : InverseDelta) (before after : LiveTables) : Type 0 where
  pub forth : apply redo d before ≡ after
  pub back : apply undo d after ≡ before

module _ (t : LiveTables) (valid : IsCounted t.aliases) (value : ValueId) where
  back_to :
      (a : AliasTable) → IsCounted a → a.values ≡ t.aliases.values → record t { aliases = a } ≡ t
  back_to a counted same =
      ap (λ x. record t { aliases = x }) (AliasTable_ext a t.aliases counted valid same)

  module _ (object : FlowObjectId) where
    abbrev set_to : AliasTable
    set_to = (set_alias value object t.aliases).0

    set_to-IsCounted : IsCounted set_to
    set_to-IsCounted = set_alias-IsCounted t.aliases valid value object

    set_to-get : get value set_to.values ≡ some object
    set_to-get =
        ap (get value) (set_alias-values value object t.aliases)
        ∙ get-put_same value object t.aliases.values valid.sorted

    pub set_new-Reverts :
        get value t.aliases.values ≡ none
        → Reverts (alias_insert value object) t (record t { aliases = set_to })
    unfolding apply
    set_new-Reverts new = record {
      forth = refl;
      back = back_to _ (remove_alias-IsCounted set_to set_to-IsCounted value) (
          remove_alias-values value set_to set_to-get
          ∙ ap (delete value) (set_alias-values value object t.aliases)
          ∙ delete-put value object t.aliases.values valid.sorted new);
    }

    pub set_old-Reverts :
        (old : FlowObjectId)
        → get value t.aliases.values ≡ some old
        → Reverts (alias_update value old object) t (record t { aliases = set_to })
    unfolding apply
    set_old-Reverts old at = record {
      forth = refl;
      back = back_to _ (set_alias-IsCounted set_to set_to-IsCounted value old) (
          set_alias-values value old set_to
          ∙ ap (put value old) (set_alias-values value object t.aliases)
          ∙ put-put value old t.aliases.values valid.sorted object at);
    }

    pub remove_alias-Reverts :
        get value t.aliases.values ≡ some object
        → Reverts
            (alias_remove value object)
            t
            (record t { aliases = (remove_alias value t.aliases).0 })
    unfolding apply
    remove_alias-Reverts at = record {
      forth = refl;
      back =
          let removed = (remove_alias value t.aliases).0 in
          back_to _
            (set_alias-IsCounted removed (remove_alias-IsCounted t.aliases valid value) value
              object)
            (set_alias-values value object removed
              ∙ ap (put value object) (remove_alias-values value t.aliases at)
              ∙ put-delete value object t.aliases.values valid.sorted at);
    }

module _ (t : LiveTables) (sorted : IsMap t.states) (key : FlowStateKey) (state : FlowState) where
  pub put_new-Reverts :
      get key t.states ≡ none
      → Reverts (state_insert key state) t (record t { states = put key state t.states })
  unfolding apply
  put_new-Reverts new = record {
    forth = refl;
    back = ap (λ x. record t { states = x }) (delete-put key state t.states sorted new);
  }

  pub put_old-Reverts :
      (old : FlowState)
      → get key t.states ≡ some old
      → Reverts (state_update key old state) t (record t { states = put key state t.states })
  unfolding apply
  put_old-Reverts old at = record {
    forth = refl;
    back = ap (λ x. record t { states = x }) (put-put key old t.states sorted state at);
  }

  module _ (at : get key t.states ≡ some state) where
    pub delete-Reverts :
        Reverts (state_remove key state) t (record t { states = delete key t.states })
    unfolding apply
    delete-Reverts = record {
      forth = refl;
      back = ap (λ x. record t { states = x }) (put-delete key state t.states sorted at);
    }

    modify_at : (f : FlowState → FlowState) → modify key f t.states ≡ put key (f state) t.states
    unfolding modify
    modify_at f = rw (at, modify)

    modify_back :
        (f : FlowState → FlowState) (next : FlowState)
        → f next ≡ state
        → modify key f (put key next t.states) ≡ t.states
    unfolding modify
    modify_back f next h =
        rw (get-put_same key next t.states sorted, modify)
          (ap (λ s. put key s (put key next t.states)) h
            ∙ put-put key state t.states sorted next at)

    module _ (valid : IsValidState state) (index : BoundedIndex) where
      pub requirement_insert-Reverts :
          (event : FactId)
          → (record_requirement index event state).1 ≡ true
          → Reverts
              (requirement_insert key index event)
              t
              (record t { states = put key (record_requirement index event state).0 t.states })
      unfolding apply
      requirement_insert-Reverts event new = record {
        forth =
            ap (λ x. record t { states = x })
              (modify_at (λ s. (record_requirement index event s).0));
        back =
            ap (λ x. record t { states = x })
              (modify_back (λ s. (remove_requirement_event index event s).0)
                (record_requirement index event state).0
                (remove_requirement_event-record index state valid event new));
      }

      pub requirement_remove-Reverts :
          (events : EvidenceValues FactId)
          → (clear_requirement index state).1 ≡ some events
          → Reverts
              (requirement_remove key index events)
              t
              (record t { states = put key (clear_requirement index state).0 t.states })
      unfolding apply
      requirement_remove-Reverts events given = record {
        forth = ap (λ x. record t { states = x }) (modify_at (λ s. (clear_requirement index s).0));
        back =
            ap (λ x. record t { states = x })
              (modify_back (restore_requirement index events) (clear_requirement index state).0
                (restore_requirement-clear index state valid events given));
      }

      pub sink_insert-Reverts :
          (event : FactId)
          → (record_sink index event state).1 ≡ true
          → Reverts
              (sink_insert key index event)
              t
              (record t { states = put key (record_sink index event state).0 t.states })
      unfolding apply
      sink_insert-Reverts event new = record {
        forth = ap (λ x. record t { states = x }) (modify_at (λ s. (record_sink index event s).0));
        back =
            ap (λ x. record t { states = x })
              (modify_back (λ s. (remove_sink_event index event s).0)
                (record_sink index event state).0
                (remove_sink_event-record index state valid event new));
      }
