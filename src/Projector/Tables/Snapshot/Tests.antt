-- ===== src/Projector/Tables/Snapshot/Tests.antt =====
-- Two tables that differ in the numbers of their objects alone, in another order, differ in the order
-- of the states in their snapshots.
use glass_lint.Prelude.{
  nat_beq, if◌then◌else◌, arith, refl, ◌≡◌, ◌≢◌, ap, some, none, [], ◌∷◌, Option, false,
}
use mathlib.Core.List.{Perm}
use mathlib.Core.List.Permᴰ
use glass_lint.Projector.Tables.Snapshot.Renaming.{semantic_snapshot-renumbered}
use glass_lint.Prelude.Sorted.{get, put, binary_search_by_key, insert_at}
use glass_lint.Flow.State.{FlowState, FlowStateKey, FlowObjectId, FactId}
use glass_lint.Flow.State
use glass_lint.Projector.Log.{States}
use glass_lint.Projector.Log
use glass_lint.Projector.Tables.{FlowStateTable}
use glass_lint.Projector.Tables.Snapshot.{
  FlowSemanticSnapshot, semantic_snapshot, numbers, number_all, canonical_aliases, canonical_states,
}

abbrev state : FactId → FlowObjectId → FlowStateKey × FlowState
state source object =
    let s = State.new (record { rule_index = 0; flow_index = 0 }) source object in (State.key s, s)

abbrev table : FlowObjectId → FlowObjectId → States → FlowStateTable
table x y states = record {
  live = record {
    aliases = record { values = (3, x) ∷ (4, y) ∷ []; object_refs = [] };
    states = states;
  };
  log = Log.new 8;
  state_limit = 8;
  state_limit_rejected = false;
}

abbrev first_source : FlowSemanticSnapshot → Option FactId
first_source s = elim (s.states) [ [] ↦ none | state ∷ rest ↦ some state.source_event ]

order_shows :
    semantic_snapshot (table 1 2 (state 7 1 ∷ state 8 2 ∷ []))
    ≢ semantic_snapshot (table 3 2 (state 8 2 ∷ state 7 3 ∷ []))
unfolding semantic_snapshot numbers number_all canonical_aliases canonical_states get put
    binary_search_by_key insert_at State.new
order_shows same = cc (ap first_source same)

-- The first object under the number of a fresh one.
abbrev renumber : FlowObjectId → FlowObjectId
renumber o = if nat_beq o 1 then 3 else if nat_beq o 3 then 1 else o

semantic_snapshot-renumbered_example :
    ((semantic_snapshot (table 3 2 (state 8 2 ∷ state 7 3 ∷ []))).aliases
      ≡ (semantic_snapshot (table 1 2 (state 7 1 ∷ state 8 2 ∷ []))).aliases)
    × Perm
        (semantic_snapshot (table 3 2 (state 8 2 ∷ state 7 3 ∷ []))).states
        (semantic_snapshot (table 1 2 (state 7 1 ∷ state 8 2 ∷ []))).states
unfolding State.new
semantic_snapshot-renumbered_example =
    semantic_snapshot-renumbered renumber (λ o p h. ground arith)
      (table 1 2 (state 7 1 ∷ state 8 2 ∷ [])) (table 3 2 (state 8 2 ∷ state 7 3 ∷ [])) refl
      ∣ Permᴰ.swap refl refl ∣₁
