-- ===== src/Projector/Tables/Restore.antt =====
-- Restoring a captured environment, after any operations on the table.
use glass_lint.Prelude.{
  ◌≤◌, ◌≡◌, refl, sym, ap, ◌∙◌, subst, true, false, Bool, some, none, Option, inl, inr, arith, ltb,
  if◌then◌else◌, Bool-cases, some_injective,
}
use mathlib.Core.List.{foldr}
use glass_lint.History.{HistoryCursor, redo}
use glass_lint.History
use glass_lint.History.Record.{deltas_of-moved}
use glass_lint.History.Transition.{Undoes, replay_lem, transition-Undoes}
use glass_lint.Projector.Log.{LiveTables, no_tables, apply, transition, InverseDelta}
use glass_lint.Projector.Tables.{FlowEnvironment, FlowStateTable, restore}
use glass_lint.Projector.Tables.Consistent.{
  IsConsistent, AreValid, Follows, Follows-refl, entries_of, tables_at,
}

-- The table with the tables and the cursor of a checkpoint.
abbrev pub moved_to : HistoryCursor → FlowStateTable → FlowStateTable
moved_to c t = record t {
  live = tables_at t c;
  log = record t.log { history = record t.log.history { cursor = c } };
}

module _ (t : FlowStateTable) (c : IsConsistent t) where
  moved_to-Follows :
      (i : HistoryCursor)
      → i ≤ entries_of t
      → t.log.budget_exhausted ≡ false
      → Follows t (moved_to i t)
  moved_to-Follows i r fine = record {
    consistent = record {
      history = record { linked = c.history.linked; inside = r };
      valid = c.all_valid i r;
      replayed = λ h. same_tables i;
      spent = λ over. absurd (false_true (sym fine ∙ over));
      undoes = λ j s.
          subst (λ ds. Undoes apply no_tables ds) (sym (deltas_of-moved t.log.history i j))
            (c.undoes j s);
      all_valid = λ j s. subst AreValid (same_tables j) (c.all_valid j s);
    };
    extends = record {
      grown = omega arith;
      kept = λ j s. deltas_of-moved t.log.history i j;
      still_exhausted = λ h. h;
      same_limit = refl;
    };
  }
    where
      false_true : false ≡ true → ⊥
      false_true h = cc

      same_tables : (j : HistoryCursor) → tables_at t j ≡ tables_at (moved_to i t) j
      same_tables j =
          replay_lem apply t.log.history j no_tables
          ∙ ap (foldr (apply redo) no_tables) (sym (deltas_of-moved t.log.history i j))
          ∙ sym (replay_lem apply (moved_to i t).log.history j no_tables)

  module _ (environment : FlowEnvironment) where
    restore_by :
        (b : Bool) (h : History.ParentLinkedHistory InverseDelta) (l : LiveTables)
        → t.log.budget_exhausted ≡ false
        → History.transition apply environment.checkpoint t.log.history t.live ≡ some (b, h, l)
        → restore environment t
          ≡ some (
            record t { live = l; log = record t.log { history = h } },
            if b then environment.reachable else false,
          )
    unfolding restore transition
    restore_by b h l fine e =
        let log = t.log in
        let moved : (if false
              then some (false, log, t.live)
              else elim (History.transition apply environment.checkpoint log.history t.live) [
                | none ↦ none
                | some (moved, history, t') ↦ some (moved, record log { history = history }, t')
              ])
            ≡ some (b, record log { history = h }, l) =
          rw e in
        let run : transition environment.checkpoint log t.live
            ≡ some (b, record log { history = h }, l) =
          ap
            (λ x.
              if x
              then some (false, log, t.live)
              else elim (History.transition apply environment.checkpoint log.history t.live) [
                | none ↦ none
                | some (moved, history, t') ↦ some (moved, record log { history = history }, t')
              ])
            fine
          ∙ moved in
        rw (run, restore)

    moves :
        t.log.budget_exhausted ≡ false
        → History.transition apply environment.checkpoint t.log.history t.live ≡ (
            if ltb (entries_of t) environment.checkpoint
            then some (false, t.log.history, t.live)
            else some (
              true,
              record t.log.history { cursor = environment.checkpoint },
              tables_at t environment.checkpoint,
            ))
    moves fine =
        ap (History.transition apply environment.checkpoint t.log.history) (c.replayed fine)
        ∙ transition-Undoes apply t.log.history environment.checkpoint no_tables c.history
            (c.undoes t.log.history.cursor c.history.inside)
        ∙ ap
            (λ l.
              if ltb (entries_of t) environment.checkpoint
              then some (false, t.log.history, l)
              else some (
                true,
                record t.log.history { cursor = environment.checkpoint },
                tables_at t environment.checkpoint,
              ))
            (sym (c.replayed fine))

    -- On a consistent table `restore` always returns: with a full log, or for a checkpoint out of
    -- range, the table as it is and `false`; else the tables that the log replays from the root to
    -- the checkpoint, with the cursor there, and whether the environment is reachable.
    pub restore_lem : restore environment t ≡ (
        if t.log.budget_exhausted
        then some (t, false)
        else if ltb (entries_of t) environment.checkpoint
        then some (t, false)
        else some (moved_to environment.checkpoint t, environment.reachable))
    unfolding restore transition
    restore_lem = elim (Bool-cases t.log.budget_exhausted) [
      | inl over ↦ rw (over, restore, transition)
      | inr fine ↦ elim (Bool-cases (ltb (entries_of t) environment.checkpoint)) [
        | inl far ↦
            restore_by false t.log.history t.live fine (moves fine ∙ (rw far)) ∙ (rw (fine, far))
        | inr near ↦
            restore_by true (record t.log.history { cursor = environment.checkpoint })
              (tables_at t environment.checkpoint) fine (moves fine ∙ (rw near))
            ∙ (rw (fine, near))
      ]
    ]

    pub restore-Follows :
        (u : FlowStateTable) (b : Bool) → restore environment t ≡ some (u, b) → Follows t u
    restore-Follows u b h = elim (Bool-cases t.log.budget_exhausted) [
      | inl over ↦ stays u b (sym h ∙ restore_lem ∙ (rw over))
      | inr fine ↦ elim (Bool-cases (ltb (entries_of t) environment.checkpoint)) [
        | inl far ↦ stays u b (sym h ∙ restore_lem ∙ (rw (fine, far)))
        | inr near ↦
            let same : ◌≡◌ {A = Option (FlowStateTable × Bool)} (some (u, b))
                (some (moved_to environment.checkpoint t, environment.reachable)) =
              sym h ∙ restore_lem ∙ (rw (fine, near)) in
            subst (Follows t) (sym (ap (λ x. x.0) (some_injective same)))
              (moved_to-Follows environment.checkpoint (ground arith) fine)
      ]
    ]
      where
        stays :
            (u : FlowStateTable) (b : Bool)
            → ◌≡◌ {A = Option (FlowStateTable × Bool)} (some (u, b)) (some (t, false))
            → Follows t u
        stays u b e = subst (Follows t) (sym (ap (λ x. x.0) (some_injective e))) (Follows-refl t c)
