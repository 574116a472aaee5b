-- ===== src/History/Lineage.antt =====
-- Walks from a cursor towards the root, and the deltas that they meet, the nearest first.
use glass_lint.Prelude.{ℕ, zero, suc, ◌+◌, ◌≤◌, ◌≡◌, refl, ap, none, some}
use glass_lint.Prelude.{List, [], ◌∷◌, ◌++◌, length, get_elem?, get_elem?-within, arith}
use glass_lint.History.{HistoryEntry, HistoryCursor, depth}

module _ {D : Type 0} (es : List (HistoryEntry D)) where
  -- The walk from `c` to its ancestor `a` meets the deltas `ds`.
  abbrev pub Up : HistoryCursor → HistoryCursor → List D → Type 0
  Up a c [] = c ≡ a
  Up a c (d ∷ ds) =
      (i : ℕ) × (e : HistoryEntry D) × (c ≡ suc i)
      × (get_elem? es i ≡ some e)
      × (e.delta ≡ d)
      × Up a e.parent ds

  -- Every entry links to an earlier cursor, one level above it.
  pub record IsLinked : Type 0 where
    pub earlier : (i : ℕ) (e : HistoryEntry D) → get_elem? es i ≡ some e → e.parent ≤ i
    pub level :
        (i : ℕ) (e : HistoryEntry D) {d : ℕ}
        → get_elem? es i ≡ some e
        → depth es e.parent ≡ some d
        → e.depth ≡ suc d

  pub Up-append :
      (a b c : HistoryCursor) (xs ys : List D) → Up b c xs → Up a b ys → Up a c (xs ++ ys)
  Up-append a b c [] ys hx hy = rw hx hy
  Up-append a b c (x ∷ xs) ys (i, e, at, found, same, rest) hy =
      (i, e, at, found, same, Up-append a b e.parent xs ys rest hy)

  -- A cursor has one walk to the root.
  pub Up-unique : (c : HistoryCursor) (xs ys : List D) → Up 0 c xs → Up 0 c ys → xs ≡ ys
  Up-unique c [] [] hx hy = refl
  Up-unique c [] (y ∷ ys) hx (i, e, at, _, _, _) = absurd (omega arith)
  Up-unique c (x ∷ xs) [] (i, e, at, _, _, _) hy = absurd (omega arith)
  Up-unique c (x ∷ xs) (y ∷ ys) (i, e, at, found, same, rest) (j, f, at', found', same', rest') =
      let ij : i ≡ j = omega arith in
      let ef : e ≡ f = cc in ground (arith, Up-unique e.parent xs ys rest (rw ef rest'))

  module _ (linked : IsLinked) where
    pub Up-le : (a c : HistoryCursor) (ds : List D) → Up a c ds → a + length ds ≤ c
    Up-le a c [] h = omega arith
    Up-le a c (d ∷ ds) (i, e, at, found, same, rest) =
        omega (arith, Up-le a e.parent ds rest, linked.earlier i e found)

    pub Up-depth : (c : HistoryCursor) (ds : List D) → Up 0 c ds → depth es c ≡ some (length ds)
    unfolding depth
    Up-depth c [] h = rw h
    Up-depth c (d ∷ ds) (i, e, at, found, same, rest) =
        rw (at, found) (ap some (linked.level i e found (Up-depth e.parent ds rest)))

  -- The deltas on the way to the root. The fuel is a cursor at least as large.
  unfoldable pub lineage : ℕ → HistoryCursor → List D
  lineage zero c = []
  lineage (suc fuel) zero = []
  lineage (suc fuel) (suc i) = elim (get_elem? es i) [
    | none ↦ []
    | some e ↦ e.delta ∷ lineage fuel e.parent
  ]

  pub lineage-Up : IsLinked → (fuel c : ℕ) → c ≤ fuel → c ≤ length es → Up 0 c (lineage fuel c)
  unfolding lineage
  lineage-Up linked zero c h r = omega arith
  lineage-Up linked (suc fuel) zero h r = refl
  lineage-Up linked (suc fuel) (suc i) h r =
      let (e, found) = get_elem?-within es i r in
      let before = linked.earlier i e found in
      rw (found, lineage, Up)
        (i, e, refl, found, refl, lineage-Up linked fuel e.parent (omega arith) (omega arith))
