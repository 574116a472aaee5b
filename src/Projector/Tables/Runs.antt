-- ===== src/Projector/Tables/Runs.antt =====
-- Runs of operations on the table, and what restoring a captured environment brings back.
use glass_lint.Prelude.{
  ℕ, ◌<◌, ◌≡◌, sym, ap, ◌∙◌, subst, false, Bool, some, inl, inr, arith, List, ltb, if◌then◌else◌,
  Bool-cases,
}
use glass_lint.Prelude.Words.{word_bits}
use mathlib.Core.List.{foldr}
use glass_lint.History.{redo}
use glass_lint.History.Transition.{replay_lem}
use glass_lint.Flow.{BoundedIndex}
use glass_lint.Flow.State.{FactId, FlowId, FlowObjectId, FlowState}
use glass_lint.Projector.Aliases.{ValueId}
use glass_lint.Projector.Log.{no_tables, apply}
use glass_lint.Projector.Tables.{
  FlowEnvironment, FlowStateTable, new, bind, unbind, bind_aliases, unbind_aliases,
  invalidate_aliases, record_requirement, clear_requirement, record_sink, PropertyWriteUpdate,
  apply_property_write, admit_object, remove_states_for, clear, capture, restore,
}
use glass_lint.Projector.Tables.Consistent.{
  IsConsistent, Follows, Follows-refl, Follows-trans, entries_of, tables_at, new-IsConsistent,
}
use glass_lint.Projector.Tables.Mutations.{
  bind-Follows, unbind-Follows, record_requirement-Follows, clear_requirement-Follows,
  record_sink-Follows,
}
use glass_lint.Projector.Tables.Loops.{
  bind_aliases-Follows, unbind_aliases-Follows, invalidate_aliases-Follows,
  remove_states_for-Follows, AreBounded, apply_property_write-Follows, AllValid,
  admit_object-Follows,
}
use glass_lint.Projector.Tables.Clear.{clear-Follows}
use glass_lint.Projector.Tables.Restore.{restore_lem, restore-Follows}

-- A call of one operation that changes the table.
pub data Step (t u : FlowStateTable) : Type 0 where
  binding : (value : ValueId) (object : FlowObjectId) → u ≡ bind value object t → Step t u
  unbinding : (value : ValueId) → u ≡ (unbind value t).0 → Step t u
  binding_aliases :
      (values : List ValueId) (object : FlowObjectId) → u ≡ bind_aliases values object t → Step t u
  unbinding_aliases : (values : List ValueId) → u ≡ unbind_aliases values t → Step t u
  invalidating : (values : List ValueId) → u ≡ invalidate_aliases values t → Step t u
  recording_requirement :
      (object : FlowObjectId) (flow : FlowId) (index : BoundedIndex) (event : FactId)
      → index < word_bits
      → u ≡ (record_requirement object flow index event t).0
      → Step t u
  clearing_requirement :
      (object : FlowObjectId) (flow : FlowId) (index : BoundedIndex)
      → u ≡ (clear_requirement object flow index t).0
      → Step t u
  recording_sink :
      (object : FlowObjectId) (flow : FlowId) (index : BoundedIndex) (event : FactId)
      → index < word_bits
      → u ≡ (record_sink object flow index event t).0
      → Step t u
  writing_property :
      (object : FlowObjectId) (event : FactId) (updates_for : FlowId → List PropertyWriteUpdate)
      → ((flow : FlowId) → AreBounded (updates_for flow))
      → u ≡ (apply_property_write object event updates_for t).0
      → Step t u
  admitting :
      (aliases : List ValueId) (object : FlowObjectId) (states : List FlowState)
      → AllValid states
      → u ≡ admit_object aliases object states t
      → Step t u
  removing_states : (object : FlowObjectId) → u ≡ remove_states_for object t → Step t u
  clearing : u ≡ clear t → Step t u
  restoring :
      (environment : FlowEnvironment) (b : Bool) → restore environment t ≡ some (u, b) → Step t u

pub data Run (t : FlowStateTable) : FlowStateTable → Type 0 where
  here : Run t t
  next : {u v : FlowStateTable} → Run t u → Step u v → Run t v

module _ (t u : FlowStateTable) (c : IsConsistent t) where
  by : {v : FlowStateTable} → u ≡ v → Follows t v → Follows t u
  by e f = subst (Follows t) (sym e) f

  pub Step-Follows : Step t u → Follows t u
  Step-Follows (binding value object e) = by e (bind-Follows t c value object)
  Step-Follows (unbinding value e) = by e (unbind-Follows t c value)
  Step-Follows (binding_aliases values object e) = by e (bind_aliases-Follows values object t c)
  Step-Follows (unbinding_aliases values e) = by e (unbind_aliases-Follows values t c)
  Step-Follows (invalidating values e) = by e (invalidate_aliases-Follows values t c)
  Step-Follows (recording_requirement object flow index event small e) =
      by e (record_requirement-Follows t c object flow index event small)
  Step-Follows (clearing_requirement object flow index e) =
      by e (clear_requirement-Follows t c object flow index)
  Step-Follows (recording_sink object flow index event small e) =
      by e (record_sink-Follows t c object flow index event small)
  Step-Follows (writing_property object event updates_for bounded e) =
      by e (apply_property_write-Follows object event updates_for bounded t c)
  Step-Follows (admitting aliases object states valid e) =
      by e (admit_object-Follows aliases object states t valid c)
  Step-Follows (removing_states object e) = by e (remove_states_for-Follows object t c)
  Step-Follows (clearing e) = by e (clear-Follows t c)
  Step-Follows (restoring environment b e) = restore-Follows t c environment u b e

Run-Follows : (t : FlowStateTable) {u : FlowStateTable} → IsConsistent t → Run t u → Follows t u
Run-Follows t c here = Follows-refl t c
Run-Follows t c (next {u} {v} run step) =
    let first = Run-Follows t c run in
    Follows-trans t u v first (Step-Follows u v first.consistent step)

-- A table reached from an empty one by any operations is consistent: the history is valid, the
-- counts are those of the aliases, the recorded evidence is well formed, and unless the log has
-- filled up the tables are the replay of the log. The states that the operations admit are valid,
-- and the indices that they record are below 64.
pub reached-IsConsistent :
    (state_limit mutation_limit : ℕ) {t : FlowStateTable}
    → Run (new state_limit mutation_limit) t
    → IsConsistent t
reached-IsConsistent state_limit mutation_limit run =
    let whole =
      Run-Follows (new state_limit mutation_limit) (new-IsConsistent state_limit mutation_limit)
        run in
    whole.consistent

module _ (t u : FlowStateTable) (c : IsConsistent t) (run : Run t u) where
  follows : Follows t u
  follows = Run-Follows t c run

  same_live : u.log.budget_exhausted ≡ false → tables_at u t.log.history.cursor ≡ t.live
  same_live fine =
      let was_fine : t.log.budget_exhausted ≡ false = elim (Bool-cases t.log.budget_exhausted) [
        | inl over ↦ cc (follows.extends.still_exhausted over)
        | inr ok ↦ ok
      ] in
      replay_lem apply u.log.history t.log.history.cursor no_tables
      ∙ ap (foldr (apply redo) no_tables)
          (follows.extends.kept t.log.history.cursor c.history.inside)
      ∙ sym (replay_lem apply t.log.history t.log.history.cursor no_tables)
      ∙ sym (c.replayed was_fine)

  -- After any operations on a consistent table, restoring an environment captured before them brings
  -- back the aliases, their counts and the states of that moment, with the cursor of the log, and
  -- answers whether the environment is reachable; if the log has filled up it changes nothing and
  -- answers `false`. The states that the operations admit are valid, and the indices that they record
  -- are below 64.
  pub restore-capture :
      (reachable : Bool)
      → restore (capture reachable t) u ≡ (
          if u.log.budget_exhausted
          then some (u, false)
          else some (
            record u {
              live = t.live;
              log = record u.log {
                history = record u.log.history { cursor = t.log.history.cursor };
              };
            },
            reachable,
          ))
  restore-capture reachable =
      let near : ltb (entries_of u) t.log.history.cursor ≡ false =
        ground (arith, follows.extends.grown, c.history.inside) in
      elim (Bool-cases u.log.budget_exhausted) [
        | inl over ↦ restore_lem u follows.consistent (capture reachable t) ∙ (rw over)
        | inr fine ↦
            restore_lem u follows.consistent (capture reachable t)
            ∙ (rw (fine, near))
            ∙ ap
                (λ l. some (
                  record u {
                    live = l;
                    log = record u.log {
                      history = record u.log.history { cursor = t.log.history.cursor };
                    };
                  },
                  reachable,
                ))
                (same_live fine)
            ∙ (rw fine)
      ]
