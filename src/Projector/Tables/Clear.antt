-- ===== src/Projector/Tables/Clear.antt =====
-- Clearing the tables logs a removal of each alias and state, and keeps the invariant.
use glass_lint.Prelude.{◌≡◌, refl, ap, ◌∙◌, subst, some, List, [], ◌∷◌}
use glass_lint.Prelude.Order.{nat_ord}
use glass_lint.Prelude.Sorted.{get, delete}
use glass_lint.Prelude.Sorted.Extensional.{get_here, delete_here}
use glass_lint.Flow.State.{FlowObjectId, key_ord}
use glass_lint.Projector.Aliases.{ValueId, no_aliases, remove_alias}
use glass_lint.Projector.Aliases.Counted.{
  no_aliases-IsCounted, AliasTable_ext, remove_alias-IsCounted, remove_alias-values,
}
use glass_lint.Projector.Log.{States, MutationLog, alias_remove, state_remove}
use glass_lint.Projector.Tables.{
  FlowStateTable, logged, log_aliases, log_states, clear, with_aliases, with_states,
}
use glass_lint.Projector.Tables.Undo.{remove_alias-Reverts, delete-Reverts}
use glass_lint.Projector.Tables.Consistent.{
  IsConsistent, AreValid, Follows, Follows-refl, Follows-trans, logged-Follows,
}
use glass_lint.Projector.Tables.Mutations.{delete-AreValid}

abbrev cleared_aliases : MutationLog → FlowStateTable → FlowStateTable
cleared_aliases log t = record t {
  live = record { aliases = no_aliases; states = t.live.states };
  log = log;
}

abbrev cleared_states : MutationLog → FlowStateTable → FlowStateTable
cleared_states log t = record t {
  live = record { aliases = t.live.aliases; states = [] };
  log = log;
}

log_aliases-Follows :
    (values : List (ValueId × FlowObjectId)) (t : FlowStateTable)
    → IsConsistent t
    → t.live.aliases.values ≡ values
    → Follows t (cleared_aliases (log_aliases values t.log) t)
unfolding log_aliases logged
log_aliases-Follows [] t c h =
    subst (λ a. Follows t (record t { live = record { aliases = a; states = t.live.states } }))
      (AliasTable_ext t.live.aliases no_aliases c.valid.counted no_aliases-IsCounted h)
      (Follows-refl t c)
log_aliases-Follows ((value, object) ∷ values) t c h =
    let at : get value t.live.aliases.values ≡ some object =
      ap (get value) h ∙ get_here value object values in
    let valid : AreValid (with_aliases (remove_alias value t.live.aliases).0 t) = record {
      counted = remove_alias-IsCounted t.live.aliases c.valid.counted value;
      sorted = c.valid.sorted;
      states = c.valid.states;
    } in
    let first =
      logged-Follows t c _ _ (remove_alias-Reverts t.live c.valid.counted value object at) valid in
    let left : (remove_alias value t.live.aliases).0.values ≡ values =
      remove_alias-values value t.live.aliases at
      ∙ ap (delete value) h
      ∙ delete_here value object values in
    Follows-trans _ _ _ first (
      log_aliases-Follows values
        (logged (alias_remove value object) (with_aliases (remove_alias value t.live.aliases).0 t)
          t)
        first.consistent left)

log_states-Follows :
    (states : States) (t : FlowStateTable)
    → IsConsistent t
    → t.live.states ≡ states
    → Follows t (cleared_states (log_states states t.log) t)
unfolding log_states logged
log_states-Follows [] t c h =
    subst (λ s. Follows t (record t { live = record { aliases = t.live.aliases; states = s } })) h
      (Follows-refl t c)
log_states-Follows ((key, state) ∷ states) t c h =
    let at : get key t.live.states ≡ some state = ap (get key) h ∙ get_here key state states in
    let first =
      logged-Follows t c _ _ (delete-Reverts t.live c.valid.sorted key state at)
        (delete-AreValid t.live c.valid key state) in
    let left : delete key t.live.states ≡ states =
      ap (delete key) h ∙ delete_here key state states in
    Follows-trans _ _ _ first (
      log_states-Follows states
        (logged (state_remove key state) (with_states (delete key t.live.states) t) t)
        first.consistent left)

pub clear-Follows : (t : FlowStateTable) → IsConsistent t → Follows t (clear t)
unfolding clear
clear-Follows t c =
    let first = log_aliases-Follows t.live.aliases.values t c refl in
    Follows-trans _ _ _ first (
      log_states-Follows t.live.states (cleared_aliases (log_aliases t.live.aliases.values t.log) t)
        first.consistent refl)
