-- ===== src/History/Tests.antt =====
-- A history with two branches: a record on one and a transition to the other.
use glass_lint.Prelude.{
  ℕ, zero, suc, ◌+◌, ◌-◌, ◌≤◌, [], ◌∷◌, ◌≡◌, some, true, false, arith, ltb, length, if◌then◌else◌,
  get_elem?,
}
use glass_lint.History.{
  HistoryEntry, HistoryTransition, undo, redo, ParentLinkedHistory, record_delta, transition, depth,
}
use glass_lint.History.Record.{IsValid, Recorded, record_delta-Recorded}
use glass_lint.History.Transition.{replay, transition_lem}

abbrev history : ParentLinkedHistory ℕ
history = record {
  entries =
      record { parent = 0; depth = 1; delta = 5 }
      ∷ record { parent = 1; depth = 2; delta = 6 }
      ∷ record { parent = 0; depth = 1; delta = 7 }
      ∷ [];
  cursor = 2;
}

entries_earlier : (i : ℕ) (e : HistoryEntry ℕ) → get_elem? history.entries i ≡ some e → e.parent ≤ i
entries_earlier zero e h = ground arith
entries_earlier (suc zero) e h = ground arith
entries_earlier (suc (suc zero)) e h = ground arith
entries_earlier (suc (suc (suc i))) e h = absurd cc

entries_level :
    (i : ℕ) (e : HistoryEntry ℕ) {d : ℕ}
    → get_elem? history.entries i ≡ some e
    → depth history.entries e.parent ≡ some d
    → e.depth ≡ suc d
unfolding depth
entries_level zero e h at = ground arith
entries_level (suc zero) e h at = ground arith
entries_level (suc (suc zero)) e h at = ground arith
entries_level (suc (suc (suc i))) e h at = absurd cc

history-IsValid : IsValid history
history-IsValid = record {
  linked = record { earlier = entries_earlier; level = entries_level };
  inside = omega arith;
}

record_delta-Recorded_example : Recorded history 8 (record_delta 8 history)
record_delta-Recorded_example = record_delta-Recorded history 8 history-IsValid

-- A delta is added to the state, and taken off again.
abbrev add_or_take : HistoryTransition → ℕ → ℕ → ℕ
add_or_take undo d s = s - d
add_or_take redo d s = s + d

add_then_take : (d s : ℕ) → add_or_take undo d (add_or_take redo d s) ≡ s
add_then_take d s = omega arith

transition_lem_example :
    transition add_or_take 3 history (replay add_or_take history history.cursor 100) ≡ (
      if ltb (length history.entries) 3
      then some (false, history, replay add_or_take history history.cursor 100)
      else some (true, record history { cursor = 3 }, replay add_or_take history 3 100))
transition_lem_example = transition_lem add_or_take add_then_take history 3 100 history-IsValid
