-- ===== src/History/Record.antt =====
-- Recording: a history stays linked, and the lineage of the cursor is extended.
use glass_lint.Prelude.{
  get_elem?-append_cases, ℕ, zero, suc, ◌+◌, ◌≤◌, ◌≡◌, refl, sym, ◌∙◌, ap, some, Option, inl, inr,
}
use glass_lint.Prelude.{List, [], ◌∷◌, ◌++◌, length, length-append, arith}
use glass_lint.Prelude.{get_elem?-append_left, get_elem?-append_end, lt_of_get_elem?}
use glass_lint.History.{HistoryEntry, HistoryCursor, depth}
use glass_lint.History.{ParentLinkedHistory, new, record_delta}
use glass_lint.History.Lineage.{Up, Up-unique, IsLinked, Up-depth, lineage, lineage-Up}

module _ {D : Type 0} where
  pub record IsValid (h : ParentLinkedHistory D) : Type 0 where
    pub linked : IsLinked h.entries
    pub inside : h.cursor ≤ length h.entries

  -- The deltas recorded on the way from the root to `c`, the latest first.
  pub deltas_of : ParentLinkedHistory D → HistoryCursor → List D
  deltas_of h c = lineage h.entries c c

  pub deltas_of-Up :
      (h : ParentLinkedHistory D) (c : HistoryCursor)
      → IsLinked h.entries
      → c ≤ length h.entries
      → Up h.entries 0 c (deltas_of h c)
  unfolding deltas_of
  deltas_of-Up h c linked r = lineage-Up h.entries linked c c (omega arith) r

  pub deltas_of-root : (h : ParentLinkedHistory D) → deltas_of h 0 ≡ []
  unfolding deltas_of lineage
  deltas_of-root h = refl

  -- The deltas of a position do not depend on the cursor.
  pub deltas_of-moved :
      (h : ParentLinkedHistory D) (i c : HistoryCursor)
      → deltas_of (record h { cursor = i }) c ≡ deltas_of h c
  unfolding deltas_of
  deltas_of-moved h i c = refl

  depth-append_left :
      (es fs : List (HistoryEntry D)) (c : ℕ) → c ≤ length es → depth (es ++ fs) c ≡ depth es c
  unfolding depth
  depth-append_left es fs zero r = refl
  depth-append_left es fs (suc i) r = rw (get_elem?-append_left es fs i r)

  Up-append_left :
      (es fs : List (HistoryEntry D)) (c : ℕ) (ds : List D) → Up es 0 c ds → Up (es ++ fs) 0 c ds
  Up-append_left es fs c [] h = h
  Up-append_left es fs c (d ∷ ds) (i, e, at, found, same, rest) =
      let within = lt_of_get_elem? es i found in
      (
        i,
        e,
        at,
        get_elem?-append_left es fs i within ∙ found,
        same,
        Up-append_left es fs e.parent ds rest,
      )

  pub new-IsValid : IsValid (new {D = D})
  unfolding new
  new-IsValid = record {
    linked = record { earlier = λ i e h. cc; level = λ i e h. cc };
    inside = omega arith;
  }

  append-IsLinked :
      (es : List (HistoryEntry D)) (c d : ℕ) (delta : D)
      → IsLinked es
      → c ≤ length es
      → depth es c ≡ some d
      → IsLinked (es ++ record { parent = c; depth = d + 1; delta = delta } ∷ [])
  append-IsLinked es c d delta linked r at = record {
    earlier = λ i e found. elim (get_elem?-append_cases es x e i found) [
      | inl (old, within) ↦ linked.earlier i e old
      | inr (last, same) ↦ rw (same, last) r
    ];
    level = λ i e found depth_of. elim (get_elem?-append_cases es x e i found) [
      | inl (old, within) ↦
          let before : e.parent ≤ length es = omega (arith, linked.earlier i e old) in
          linked.level i e old (sym (depth-append_left es (x ∷ []) e.parent before) ∙ depth_of)
      | inr (last, same) ↦
          let shown = depth-append_left es (x ∷ []) c r in
          ground (arith, shown, ap (λ (z : HistoryEntry D). depth (es ++ x ∷ []) z.parent) same)
    ];
  }
    where
      x : HistoryEntry D
      x = record { parent = c; depth = d + 1; delta = delta }

  -- What `record` leaves.
  pub record Recorded (h : ParentLinkedHistory D) (delta : D) (r : Option (ParentLinkedHistory D))
      : Type 0 where
    pub after : ParentLinkedHistory D
    pub returns : r ≡ some after
    pub valid : IsValid after
    pub moved : after.cursor ≡ length h.entries + 1
    pub size : length after.entries ≡ length h.entries + 1
    pub extended : deltas_of after after.cursor ≡ delta ∷ deltas_of h h.cursor
    pub kept : (c : HistoryCursor) → c ≤ length h.entries → deltas_of after c ≡ deltas_of h c

  -- On a valid history `record` does not panic and keeps the history valid; the new cursor is a
  -- fresh one, whose deltas are the recorded one and then those of the old cursor, and the deltas
  -- of every earlier cursor, on other branches too, are as before.
  pub record_delta-Recorded :
      (h : ParentLinkedHistory D) (delta : D) → IsValid h → Recorded h delta (record_delta delta h)
  unfolding record_delta
  record_delta-Recorded h delta v =
      let up = deltas_of-Up h h.cursor v.linked v.inside in
      let at = Up-depth h.entries v.linked h.cursor (deltas_of h h.cursor) up in
      let d = length (deltas_of h h.cursor) in
      let x : HistoryEntry D = record { parent = h.cursor; depth = d + 1; delta = delta } in
      let es = h.entries ++ x ∷ [] in
      let size = length-append h.entries (x ∷ []) in
      let after : ParentLinkedHistory D = record { entries = es; cursor = length es } in
      let linked = append-IsLinked h.entries h.cursor d delta v.linked v.inside at in
      let here : Up es 0 (length es) (delta ∷ deltas_of h h.cursor) = (
        length h.entries,
        x,
        omega (arith, size),
        get_elem?-append_end h.entries x,
        refl,
        Up-append_left h.entries (x ∷ []) h.cursor (deltas_of h h.cursor) up,
      ) in
      record {
        after = after;
        returns = rw at;
        valid = record { linked = linked; inside = omega arith };
        moved = omega (arith, size);
        size = size;
        extended =
            Up-unique es (length es) _ _ (deltas_of-Up after (length es) linked (omega arith)) here;
        kept = λ c r.
            Up-unique es c _ _ (deltas_of-Up after c linked (omega (arith, size)))
              (Up-append_left h.entries (x ∷ []) c _ (deltas_of-Up h c v.linked r));
      }
