-- ===== src/History/Transition.antt =====
-- A transition brings the caller's state to the replay of the target.
use glass_lint.Prelude.{subst, list_laws, ℕ, suc, ◌≤◌, ◌≡◌, refl, sym, ◌∙◌, ap, some, inl, inr}
use glass_lint.Prelude.{List, [], ◌∷◌, ◌++◌, length, arith}
use glass_lint.Prelude.{true, false}
use glass_lint.Prelude.{reverse, Bool-cases, ltb, if◌then◌else◌}
use mathlib.Core.List.{foldl, foldr}
use glass_lint.History.{HistoryEntry, HistoryCursor, HistoryTransition, undo, redo}
use glass_lint.History.{
  ParentLinkedHistory, transition, move_to, undo_loop, redo_all, common_ancestor,
}
use glass_lint.History.Lineage.{Up, IsLinked, Up-append, Up-le, Up-depth}
use glass_lint.History.Loops.{climb_lem, meet_lem, forward_lem, undo_loop_lem, redo_all_lem, Reads}
use glass_lint.History.Record.{IsValid, deltas_of, deltas_of-Up}

module _ {D : Type 0} where
  regroup : (ds xs ys zs ws : List D) → ds ≡ xs ++ ys → ys ≡ zs ++ ws → ds ≡ (xs ++ zs) ++ ws
  regroup ds xs ys zs ws p q = rw (p, q) (simp list_laws)

  -- The cursor and the target as walks to one ancestor, whose own deltas are `above`.
  record Joined (h : ParentLinkedHistory D) (target : HistoryCursor) : Type 0 where
    at : HistoryCursor
    from_source : List D
    from_target : List D
    above : List D
    returns : common_ancestor target h ≡ some at
    source_walk : Up h.entries at h.cursor from_source
    target_walk : Up h.entries at target from_target
    source_whole : deltas_of h h.cursor ≡ from_source ++ above
    target_whole : deltas_of h target ≡ from_target ++ above

  common_ancestor-Joined :
      (h : ParentLinkedHistory D) (target : HistoryCursor)
      → IsValid h
      → target ≤ length h.entries
      → Joined h target
  unfolding common_ancestor
  common_ancestor-Joined h target v r =
      let es = h.entries in
      let fuel = suc (length es) in
      let ds = deltas_of h h.cursor in
      let ts = deltas_of h target in
      let up = deltas_of-Up h h.cursor v.linked v.inside in
      let to = deltas_of-Up h target v.linked r in
      let short = Up-le es v.linked 0 h.cursor ds up in
      let short' = Up-le es v.linked 0 target ts to in
      let a = climb_lem es v.linked fuel (length ts) h.cursor ds up (omega arith) in
      let b = climb_lem es v.linked fuel (length a.above) target ts to (omega arith) in
      let m =
        meet_lem es v.linked fuel a.at b.at a.above b.above a.left b.left
          (omega (arith, a.level, b.level)) (omega (arith, a.level)) in
      record {
        at = m.at;
        from_source = a.below ++ m.from_source;
        from_target = b.below ++ m.from_target;
        above = m.above;
        returns =
            rw (Up-depth es v.linked target ts to) (
              rw a.returns
                (rw (Up-depth es v.linked a.at a.above a.left) (rw b.returns m.returns)));
        source_walk = Up-append es m.at a.at h.cursor a.below m.from_source a.walked m.source_walk;
        target_walk = Up-append es m.at b.at target b.below m.from_target b.walked m.target_walk;
        source_whole = regroup ds a.below a.above m.from_source m.above a.whole m.source_whole;
        target_whole = regroup ts b.below b.above m.from_target m.above b.whole m.target_whole;
      }

  module _ {S : Type 0} (apply : HistoryTransition → D → S → S) where
    -- The state at a cursor: its deltas applied to the state at the root, the oldest first.
    pub replay : ParentLinkedHistory D → HistoryCursor → S → S
    replay h c origin = foldr (apply redo) origin (deltas_of h c)

    pub replay_lem :
        (h : ParentLinkedHistory D) (c : HistoryCursor) (origin : S)
        → replay h c origin ≡ foldr (apply redo) origin (deltas_of h c)
    unfolding replay
    replay_lem h c origin = refl

    foldr-append :
        (xs ys : List D) (s : S)
        → foldr (apply redo) s (xs ++ ys) ≡ foldr (apply redo) (foldr (apply redo) s ys) xs
    foldr-append [] ys s = refl
    foldr-append (x ∷ xs) ys s = ap (apply redo x) (foldr-append xs ys s)

    -- Each delta, the latest first, is undone where it was applied.
    abbrev pub Undoes : S → List D → Type 0
    Undoes origin [] = Unit
    Undoes origin (d ∷ ds) =
        (apply undo d (apply redo d (foldr (apply redo) origin ds)) ≡ foldr (apply redo) origin ds)
        × Undoes origin ds

    undone :
        (xs zs : List D) (origin : S)
        → Undoes origin (xs ++ zs)
        → foldl (λ s d. apply undo d s) (foldr (apply redo) origin (xs ++ zs)) xs
          ≡ foldr (apply redo) origin zs
    undone [] zs origin u = refl
    undone (x ∷ xs) zs origin (u, us) = rw u (undone xs zs origin us)

    Undoes-inverse :
        ((d : D) (s : S) → apply undo d (apply redo d s) ≡ s)
        → (origin : S) (ds : List D) → Undoes origin ds
    Undoes-inverse inverse origin [] = tt
    Undoes-inverse inverse origin (d ∷ ds) =
        (inverse d (foldr (apply redo) origin ds), Undoes-inverse inverse origin ds)

    going_back :
        (es : List (HistoryEntry D)) (a c : ℕ) (ds xs zs : List D) (origin : S)
        → IsLinked es
        → Up es a c xs
        → c ≤ length es
        → ds ≡ xs ++ zs
        → Undoes origin ds
        → undo_loop apply (suc (length es)) es a c (foldr (apply redo) origin ds)
          ≡ some (foldr (apply redo) origin zs)
    going_back es a c ds xs zs origin linked walk r whole u =
        undo_loop_lem es linked apply (suc (length es)) a c xs _ walk
          (omega (arith, Up-le es linked a c xs walk))
        ∙ ap (λ l. some (foldl (λ s d. apply undo d s) (foldr (apply redo) origin l) xs)) whole
        ∙ ap some (undone xs zs origin (subst (Undoes origin) whole u))

    going_forth :
        (es : List (HistoryEntry D)) (is : List ℕ) (ds ys zs : List D) (origin : S)
        → IsLinked es
        → Reads es is ys
        → ds ≡ ys ++ zs
        → redo_all apply es (reverse is) (foldr (apply redo) origin zs)
          ≡ some (foldr (apply redo) origin ds)
    going_forth es is ds ys zs origin linked reads whole =
        redo_all_lem es linked apply is ys (foldr (apply redo) origin zs) reads
        ∙ ap some (sym (foldr-append ys zs origin) ∙ sym (ap (foldr (apply redo) origin) whole))

    move_to_lem :
        (h : ParentLinkedHistory D) (target : HistoryCursor) (origin : S)
        → IsValid h
        → Undoes origin (deltas_of h h.cursor)
        → target ≤ length h.entries
        → move_to apply target h (replay h h.cursor origin)
          ≡ some (true, record h { cursor = target }, replay h target origin)
    unfolding move_to replay
    move_to_lem h target origin v u r =
        let es = h.entries in
        let j = common_ancestor-Joined h target v r in
        let g =
          forward_lem es v.linked (suc (length es)) j.at target j.from_target j.target_walk
            (omega (arith, Up-le es v.linked j.at target j.from_target j.target_walk)) in
        let back =
          going_back es j.at h.cursor (deltas_of h h.cursor) j.from_source j.above origin v.linked
            j.source_walk v.inside j.source_whole u in
        let forth =
          going_forth es g.indexes (deltas_of h target) j.from_target j.above origin v.linked
            g.reads j.target_whole in
        rw j.returns (rw back (rw g.returns (rw forth)))

    -- On a valid history whose deltas up to the cursor are undone where they were applied, a caller
    -- whose state is the replay of the cursor moves to the replay of the target.
    pub transition-Undoes :
        (h : ParentLinkedHistory D) (target : HistoryCursor) (origin : S)
        → IsValid h
        → Undoes origin (deltas_of h h.cursor)
        → transition apply target h (replay h h.cursor origin) ≡ (
            if ltb (length h.entries) target
            then some (false, h, replay h h.cursor origin)
            else some (true, record h { cursor = target }, replay h target origin))
    unfolding transition
    transition-Undoes h target origin v u = elim (Bool-cases (ltb (length h.entries) target)) [
      | inl far ↦ rw far
      | inr near ↦ rw near (move_to_lem h target origin v u (ground arith))
    ]

    -- On a valid history, with an `undo` that inverts `redo`, a caller whose state is the replay
    -- of the cursor is answered `true` for a target in range, and its state becomes the replay of
    -- the target, which is the new cursor; for any other target it is answered `false` and
    -- nothing changes. No case panics or loops.
    pub transition_lem :
        ((d : D) (s : S) → apply undo d (apply redo d s) ≡ s)
        → (h : ParentLinkedHistory D) (target : HistoryCursor) (origin : S) → IsValid h
        → transition apply target h (replay h h.cursor origin) ≡ (
            if ltb (length h.entries) target
            then some (false, h, replay h h.cursor origin)
            else some (true, record h { cursor = target }, replay h target origin))
    transition_lem inverse h target origin v =
        transition-Undoes h target origin v (Undoes-inverse inverse origin (deltas_of h h.cursor))
