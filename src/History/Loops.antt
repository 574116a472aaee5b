-- ===== src/History/Loops.antt =====
-- What each loop of `transition` returns, on a linked history and with enough fuel.
use glass_lint.Prelude.{
  ◌>>=◌, ℕ, min, zero, suc, ◌<◌, ◌≡◌, refl, sym, ◌∙◌, ap, none, some, Option, inl, inr,
}
use glass_lint.Prelude.{List, [], ◌∷◌, ◌++◌, length, get_elem?, arith, reverse}
use glass_lint.Prelude.{ltb, nat_beq, nat_beq_iff, Bool-cases, false}
use mathlib.Core.List.{reverse-append, foldl, foldr}
use glass_lint.History.{HistoryEntry, HistoryCursor, HistoryTransition, undo, redo, parent}
use glass_lint.History.{climb, meet, forward, undo_loop, redo_all}
use glass_lint.History.Lineage.{Up, Up-unique, IsLinked, Up-le, Up-depth}

module _ {D : Type 0} (es : List (HistoryEntry D)) where
  pub record Climbed (goal : ℕ) (c : HistoryCursor) (ds : List D) (r : Option HistoryCursor)
      : Type 0 where
    pub at : HistoryCursor
    pub below : List D
    pub above : List D
    pub returns : r ≡ some at
    pub walked : Up es at c below
    pub left : Up es 0 at above
    pub whole : ds ≡ below ++ above
    pub level : length above ≡ min goal (length ds)

  pub record Met (s t : HistoryCursor) (ds ts : List D) (r : Option HistoryCursor) : Type 0 where
    pub at : HistoryCursor
    pub from_source : List D
    pub from_target : List D
    pub above : List D
    pub returns : r ≡ some at
    pub source_walk : Up es at s from_source
    pub target_walk : Up es at t from_target
    pub source_whole : ds ≡ from_source ++ above
    pub target_whole : ts ≡ from_target ++ above

  -- The entries at `is` hold the deltas `ds`.
  abbrev pub Reads : List ℕ → List D → Type 0
  Reads [] [] = Unit
  Reads (i ∷ is) (d ∷ ds) =
      ((e : HistoryEntry D) × (get_elem? es i ≡ some e) × (e.delta ≡ d)) × Reads is ds
  Reads _ _ = ⊥

  pub record Gathered (ds : List D) (r : Option (List ℕ)) : Type 0 where
    pub indexes : List ℕ
    pub returns : r ≡ some indexes
    pub reads : Reads indexes ds

  module _ (linked : IsLinked es) where
    pub climb_lem :
        (fuel goal c : ℕ) (ds : List D)
        → Up es 0 c ds
        → length ds < fuel
        → Climbed goal c ds (climb fuel es goal c)
    unfolding climb parent
    climb_lem zero goal c ds h f = absurd (omega arith)
    climb_lem (suc fuel) goal c [] h f = record {
      at = c;
      below = [];
      above = [];
      returns = rw (Up-depth es linked c [] h) (ground arith);
      walked = refl;
      left = h;
      whole = refl;
      level = omega arith;
    }
    climb_lem (suc fuel) goal c (x ∷ xs) h f = elim (Bool-cases (ltb goal (length (x ∷ xs)))) [
      | inr stop ↦ record {
        at = c;
        below = [];
        above = x ∷ xs;
        returns = rw (Up-depth es linked c (x ∷ xs) h) (rw stop);
        walked = refl;
        left = h;
        whole = refl;
        level = ground arith;
      }
      | inl go ↦
          let (i, e, at, found, same, rest) = h in
          let run = climb_lem fuel goal e.parent xs rest (omega arith) in
          record {
            at = run.at;
            below = x ∷ run.below;
            above = run.above;
            returns = rw (Up-depth es linked c (x ∷ xs) h) (rw go (rw at (rw found run.returns)));
            walked = (i, e, at, found, same, run.walked);
            left = run.left;
            whole = ap (λ l. x ∷ l) run.whole;
            level = ground (arith, run.level);
          }
    ]

    pub meet_lem :
        (fuel s t : ℕ) (ds ts : List D)
        → Up es 0 s ds
        → Up es 0 t ts
        → length ds ≡ length ts
        → length ds < fuel
        → Met s t ds ts (meet fuel es s t)
    unfolding meet parent
    meet_lem zero s t ds ts hs ht l f = absurd (omega arith)
    meet_lem (suc fuel) s t [] [] hs ht l f = record {
      at = s;
      from_source = [];
      from_target = [];
      above = [];
      returns = ground arith;
      source_walk = refl;
      target_walk = ht ∙ sym hs;
      source_whole = refl;
      target_whole = refl;
    }
    meet_lem (suc fuel) s t [] (y ∷ ys) hs ht l f = absurd (omega arith)
    meet_lem (suc fuel) s t (x ∷ xs) [] hs ht l f = absurd (omega arith)
    meet_lem (suc fuel) s t (x ∷ xs) (y ∷ ys) hs ht l f = elim (Bool-cases (nat_beq s t)) [
      | inl equal ↦
          let st = (nat_beq_iff s t).0 equal in
          record {
            at = s;
            from_source = [];
            from_target = [];
            above = x ∷ xs;
            returns = rw equal;
            source_walk = refl;
            target_walk = sym st;
            source_whole = refl;
            target_whole = Up-unique es t (y ∷ ys) (x ∷ xs) ht (rw (← st) hs);
          }
      | inr apart ↦
          let (i, e, at, found, same, rest) = hs in
          let (j, e', at', found', same', rest') = ht in
          let run = meet_lem fuel e.parent e'.parent xs ys rest rest' (omega arith) (omega arith) in
          record {
            at = run.at;
            from_source = x ∷ run.from_source;
            from_target = y ∷ run.from_target;
            above = run.above;
            returns = rw apart (rw at (rw found (rw at' (rw found' run.returns))));
            source_walk = (i, e, at, found, same, run.source_walk);
            target_walk = (j, e', at', found', same', run.target_walk);
            source_whole = ap (λ l. x ∷ l) run.source_whole;
            target_whole = ap (λ l. y ∷ l) run.target_whole;
          }
    ]

    pub forward_lem :
        (fuel a c : ℕ) (ds : List D)
        → Up es a c ds
        → length ds < fuel
        → Gathered ds (forward fuel es a c)
    unfolding forward
    forward_lem zero a c ds h f = absurd (omega arith)
    forward_lem (suc fuel) a zero [] h f = record {
      indexes = [];
      returns = ground arith;
      reads = tt;
    }
    forward_lem (suc fuel) a (suc i) [] h f = record {
      indexes = [];
      returns = ground arith;
      reads = tt;
    }
    forward_lem (suc fuel) a zero (d ∷ ds) (i, e, at, found, same, rest) f = absurd (omega arith)
    forward_lem (suc fuel) a (suc j) (d ∷ ds) (i, e, at, found, same, rest) f =
        let run = forward_lem fuel a e.parent ds rest (omega arith) in
        let ij : j ≡ i = omega arith in
        let apart : nat_beq (suc j) a ≡ false =
          ground (arith, Up-le es linked a (suc j) (d ∷ ds) (i, e, at, found, same, rest)) in
        record {
          indexes = j ∷ run.indexes;
          returns = rw apart (rw ij (rw found (rw run.returns)));
          reads = ((e, rw ij found, same), run.reads);
        }

    module _ {S : Type 0} (apply : HistoryTransition → D → S → S) where
      pub undo_loop_lem :
          (fuel a c : ℕ) (ds : List D) (s : S)
          → Up es a c ds
          → length ds < fuel
          → undo_loop apply fuel es a c s ≡ some (foldl (λ s d. apply undo d s) s ds)
      unfolding undo_loop
      undo_loop_lem zero a c ds s h f = absurd (omega arith)
      undo_loop_lem (suc fuel) a zero [] s h f = ground arith
      undo_loop_lem (suc fuel) a (suc i) [] s h f = ground arith
      undo_loop_lem (suc fuel) a zero (d ∷ ds) s (i, e, at, found, same, rest) f =
          absurd (omega arith)
      undo_loop_lem (suc fuel) a (suc j) (d ∷ ds) s (i, e, at, found, same, rest) f =
          let run = undo_loop_lem fuel a e.parent ds (apply undo e.delta s) rest (omega arith) in
          let ij : j ≡ i = omega arith in
          let apart : nat_beq (suc j) a ≡ false =
            ground (arith, Up-le es linked a (suc j) (d ∷ ds) (i, e, at, found, same, rest)) in
          rw apart (rw ij (rw found (rw (← same) run)))

      redo_all-append :
          (is js : List ℕ) (s : S)
          → redo_all apply es (is ++ js) s ≡ (redo_all apply es is s >>= redo_all apply es js)
      unfolding redo_all
      redo_all-append [] js s = refl
      redo_all-append (i ∷ is) js s =
          elim (get_elem? es i)
            as (λ r. (r >>= λ e. redo_all apply es (is ++ js) (apply redo e.delta s)) ≡ (
              (r >>= λ e. redo_all apply es is (apply redo e.delta s)) >>= redo_all apply es js)) [
                | none ↦ refl
                | some e ↦ redo_all-append is js (apply redo e.delta s)
              ]

      pub redo_all_lem :
          (is : List ℕ) (ds : List D) (s : S)
          → Reads is ds
          → redo_all apply es (reverse is) s ≡ some (foldr (apply redo) s ds)
      redo_all_lem [] [] s h = unfold redo_all in refl
      redo_all_lem [] (d ∷ ds) s h = absurd h
      redo_all_lem (i ∷ is) [] s h = absurd h
      redo_all_lem (i ∷ is) (d ∷ ds) s ((e, found, same), rest) =
          ap (λ l. redo_all apply es l s) (reverse-append (i ∷ []) is)
          ∙ redo_all-append (reverse is) (i ∷ []) s
          ∙ ap (λ r. r >>= redo_all apply es (i ∷ [])) (redo_all_lem is ds s rest)
          ∙ (unfold redo_all in rw (found, same))
