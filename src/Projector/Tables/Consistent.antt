-- ===== src/Projector/Tables/Consistent.antt =====
-- The invariant of the live tables: they are the replay of their log, which can be undone.
use glass_lint.Prelude.{
  ℕ, ◌+◌, ◌≤◌, ◌<◌, ◌≡◌, ◌⊎◌, refl, sym, ap, ◌∙◌, subst, true, false, some, none, inl, inr, length,
  arith, [], ◌∷◌, leb, le→leb, leb→le, leb→gt, Bool-cases,
}
use glass_lint.Prelude.Sorted.{get, binary_search_by_key}
use glass_lint.Prelude.Sorted.Maps.{IsMap}
use mathlib.Core.List.{foldr}
use glass_lint.History.{ParentLinkedHistory, HistoryCursor, HistoryTransition, undo, redo}
use glass_lint.History
use glass_lint.History.Record.{deltas_of, deltas_of-root, Recorded, record_delta-Recorded}
use glass_lint.History.Record
use glass_lint.History.Transition.{Undoes, replay, replay_lem}
use glass_lint.Flow.State.{FlowState, FlowStateKey, key_ord}
use glass_lint.Flow.State.Reverts.{IsValidState}
use glass_lint.Projector.Aliases.Counted.{IsCounted, no_aliases-IsCounted}
use glass_lint.Projector.Log.{
  InverseDelta, LiveTables, no_tables, MutationLog, apply, record_delta, recorded,
}
use glass_lint.Projector.Log
use glass_lint.Projector.Tables.{FlowStateTable, logged, new}
use glass_lint.Projector.Tables.Undo.{Reverts}

pub record AreValid (t : LiveTables) : Type 0 where
  pub counted : IsCounted t.aliases
  pub sorted : IsMap t.states
  pub states :
      (key : FlowStateKey) (state : FlowState) → get key t.states ≡ some state → IsValidState state

pub no_tables-AreValid : AreValid no_tables
unfolding get binary_search_by_key
no_tables-AreValid = record {
  counted = no_aliases-IsCounted;
  sorted = tt;
  states = λ key state h. absurd (none_some h);
}
  where
    none_some : {s : FlowState} → none ≡ some s → ⊥
    none_some h = cc

abbrev pub entries_of : FlowStateTable → ℕ
entries_of t = length t.log.history.entries

-- The tables at a checkpoint.
abbrev pub tables_at : FlowStateTable → HistoryCursor → LiveTables
tables_at t c = replay apply t.log.history c no_tables

pub record IsConsistent (t : FlowStateTable) : Type 0 where
  pub history : Record.IsValid t.log.history
  pub valid : AreValid t.live
  pub replayed : t.log.budget_exhausted ≡ false → t.live ≡ tables_at t t.log.history.cursor
  pub spent : t.log.budget_exhausted ≡ true → t.log.limit ≤ entries_of t
  pub undoes :
      (c : HistoryCursor) → c ≤ entries_of t → Undoes apply no_tables (deltas_of t.log.history c)
  pub all_valid : (c : HistoryCursor) → c ≤ entries_of t → AreValid (tables_at t c)

-- The log of `u` continues that of `t`.
pub record Extends (t u : FlowStateTable) : Type 0 where
  pub grown : entries_of t ≤ entries_of u
  pub kept :
      (c : HistoryCursor) → c ≤ entries_of t → deltas_of u.log.history c ≡ deltas_of t.log.history c
  pub still_exhausted : t.log.budget_exhausted ≡ true → u.log.budget_exhausted ≡ true
  pub same_limit : u.state_limit ≡ t.state_limit

pub record Follows (t u : FlowStateTable) : Type 0 where
  pub consistent : IsConsistent u
  pub extends : Extends t u

pub Extends-refl : (t : FlowStateTable) → Extends t t
Extends-refl t = record {
  grown = omega arith;
  kept = λ c r. refl;
  still_exhausted = λ h. h;
  same_limit = refl;
}

pub Follows-refl : (t : FlowStateTable) → IsConsistent t → Follows t t
Follows-refl t c = record { consistent = c; extends = Extends-refl t }

pub Follows-trans : (t u v : FlowStateTable) → Follows t u → Follows u v → Follows t v
Follows-trans t u v f g = record {
  consistent = g.consistent;
  extends = record {
    grown = omega (arith, f.extends.grown, g.extends.grown);
    kept = λ c r. g.extends.kept c (omega (arith, f.extends.grown)) ∙ f.extends.kept c r;
    still_exhausted = λ h. g.extends.still_exhausted (f.extends.still_exhausted h);
    same_limit = g.extends.same_limit ∙ f.extends.same_limit;
  };
}

module _ (t : FlowStateTable) (c : IsConsistent t) (d : InverseDelta) (live : LiveTables)
    (reverts : Reverts d t.live live) (valid : AreValid live) where
  logged_full : t.log.limit ≤ entries_of t → Follows t (logged d live t)
  unfolding logged record_delta
  logged_full full =
      let full' : leb t.log.limit (entries_of t) ≡ true = le→leb _ _ full in
      rw (full', logged, record_delta)
        record {
          consistent = record {
            history = c.history;
            valid = valid;
            replayed = λ h. absurd (true_false h);
            spent = λ h. full;
            undoes = c.undoes;
            all_valid = c.all_valid;
          };
          extends = record {
            grown = omega arith;
            kept = λ c r. refl;
            still_exhausted = λ h. refl;
            same_limit = refl;
          };
        }
    where
      true_false : true ≡ false → ⊥
      true_false h = cc

  added : Recorded t.log.history d (History.record_delta d t.log.history)
  added = record_delta-Recorded t.log.history d c.history

  after_log : FlowStateTable
  unfolding added
  after_log = record t { live = live; log = record t.log { history = added.after } }

  module _ (room : entries_of t < t.log.limit) where
    not_exhausted : t.log.budget_exhausted ≡ false
    not_exhausted = elim (Bool-cases t.log.budget_exhausted) [
      | inl over ↦ absurd (omega (arith, c.spent over))
      | inr fine ↦ fine
    ]

    logged-after_log : logged d live t ≡ after_log
    unfolding logged record_delta recorded after_log
    logged-after_log =
        let room' : leb t.log.limit (entries_of t) ≡ false = ground arith in
        rw (room', logged, record_delta) (rw (added.returns, recorded))

    undone_live : t.live ≡ tables_at t t.log.history.cursor
    undone_live = c.replayed not_exhausted

    earlier : (i : HistoryCursor) → i ≤ entries_of t → tables_at after_log i ≡ tables_at t i
    unfolding after_log
    earlier i r =
        replay_lem apply added.after i no_tables
        ∙ ap (foldr (apply redo) no_tables) (added.kept i r)
        ∙ sym (replay_lem apply t.log.history i no_tables)

    latest : tables_at after_log added.after.cursor ≡ live
    unfolding after_log
    latest =
        replay_lem apply added.after added.after.cursor no_tables
        ∙ ap (foldr (apply redo) no_tables) added.extended
        ∙ ap (apply redo d)
            (sym (replay_lem apply t.log.history t.log.history.cursor no_tables) ∙ sym undone_live)
        ∙ reverts.forth

    grown_by_one : entries_of after_log ≡ entries_of t + 1
    unfolding after_log
    grown_by_one = added.size

    Undoes-latest : Undoes apply no_tables (d ∷ deltas_of t.log.history t.log.history.cursor)
    Undoes-latest =
        let here : foldr (apply redo) no_tables (deltas_of t.log.history t.log.history.cursor)
            ≡ t.live =
          sym (replay_lem apply t.log.history t.log.history.cursor no_tables) ∙ sym undone_live in
        (
          ap (λ s. apply undo d (apply redo d s)) here
              ∙ ap (apply undo d) reverts.forth
              ∙ reverts.back
              ∙ sym here,
          c.undoes t.log.history.cursor c.history.inside,
        )

    after_log-Follows : Follows t after_log
    unfolding after_log
    after_log-Follows = record {
      consistent = record {
        history = added.valid;
        valid = valid;
        replayed = λ h. sym latest;
        spent = λ over. absurd (false_true (sym not_exhausted ∙ over));
        undoes = λ i r. elim (split_last i r) [
          | inl old ↦ subst (Undoes apply no_tables) (sym (added.kept i old)) (c.undoes i old)
          | inr last ↦
              subst (λ j. Undoes apply no_tables (deltas_of added.after j)) (sym last)
                (subst (Undoes apply no_tables) (sym added.extended) Undoes-latest)
        ];
        all_valid = λ i r. elim (split_last i r) [
          | inl old ↦ subst AreValid (sym (earlier i old)) (c.all_valid i old)
          | inr last ↦
              subst (λ j. AreValid (tables_at after_log j)) (sym last)
                (subst AreValid (sym latest) valid)
        ];
      };
      extends = record {
        grown = omega (arith, grown_by_one);
        kept = added.kept;
        still_exhausted = λ h. h;
        same_limit = refl;
      };
    }
      where
        false_true : false ≡ true → ⊥
        false_true h = cc

        split_last :
            (i : HistoryCursor)
            → i ≤ length added.after.entries
            → (i ≤ entries_of t) ⊎ (i ≡ added.after.cursor)
        split_last i r = grind (arith, grown_by_one, added.moved)

  -- A mutation that can be undone, and leaves valid tables, keeps the invariant, with the log full
  -- or not.
  pub logged-Follows : Follows t (logged d live t)
  logged-Follows = elim (Bool-cases (leb t.log.limit (entries_of t))) [
    | inl full ↦ logged_full (leb→le _ _ full)
    | inr room ↦
        let some_room : entries_of t < t.log.limit = leb→gt _ _ room in
        subst (Follows t) (sym (logged-after_log some_room)) (after_log-Follows some_room)
  ]

pub new-IsConsistent :
    (state_limit mutation_limit : ℕ) → IsConsistent (new state_limit mutation_limit)
unfolding new Log.new History.new
new-IsConsistent state_limit mutation_limit =
    let h : ParentLinkedHistory InverseDelta = record { entries = []; cursor = 0 } in
    let root : replay apply h 0 no_tables ≡ no_tables =
      replay_lem apply h 0 no_tables ∙ ap (foldr (apply redo) no_tables) (deltas_of-root h) in
    record {
      history = Record.new-IsValid;
      valid = no_tables-AreValid;
      replayed = λ p. sym root;
      spent = λ p. absurd (false_true p);
      undoes = λ c r.
          let at : 0 ≡ c = omega arith in
          subst (λ j. Undoes apply no_tables (deltas_of h j)) at
            (subst (Undoes apply no_tables) (sym (deltas_of-root h)) tt);
      all_valid = λ c r.
          let at : 0 ≡ c = omega arith in
          subst (λ j. AreValid (replay apply h j no_tables)) at
            (subst AreValid (sym root) no_tables-AreValid);
    }
  where
    false_true : false ≡ true → ⊥
    false_true h = cc
