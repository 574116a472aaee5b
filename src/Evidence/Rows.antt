-- ===== src/Evidence/Rows.antt =====
-- The rows as a map: what is read after a write, a merge or a mark.
use glass_lint.Prelude.{ℕ, ◌≤◌, ◌<◌, ◌≡◌, inl, inr, refl, List, [], ◌∷◌, true, false}
use glass_lint.Prelude.{
  Option, none, some, ltb, ltb→lt, nat_beq, nat_beq_iff, if◌then◌else◌, arith, Bool-cases,
}
use glass_lint.Evidence.{ClassificationEvidence, Rows, find_row, update_row}

abbrev pub Items : Type 0
Items = List ClassificationEvidence

-- The keys rise, from above a bound.
abbrev pub IsAbove : ℕ → Rows → Type 0
IsAbove k [] = Unit
IsAbove k ((j, items) ∷ rows) = (k < j) × IsAbove j rows

abbrev pub IsOrdered : Rows → Type 0
IsOrdered [] = Unit
IsOrdered ((k, items) ∷ rows) = IsAbove k rows

abbrev pub IsBelow : ℕ → Rows → Type 0
IsBelow n [] = Unit
IsBelow n ((k, items) ∷ rows) = (k < n) × IsBelow n rows

abbrev pub or_empty : Option Items → Items
or_empty none = []
or_empty (some items) = items

abbrev pub items_at : ℕ → Rows → Items
items_at j rows = or_empty (find_row j rows)

pub find_row-above : (k j : ℕ) (rows : Rows) → IsAbove k rows → j ≤ k → find_row j rows ≡ none
unfolding find_row
find_row-above k j [] h le = refl
find_row-above k j ((i, items) ∷ rows) (lt, h) le =
    let other : nat_beq j i ≡ false = ground arith in
    rw other (find_row-above i j rows h (omega arith))

update_row-IsAbove :
    (k r : ℕ) (f : Items → Items) (rows : Rows)
    → k < r
    → IsAbove k rows
    → IsAbove k (update_row r f rows)
unfolding update_row
update_row-IsAbove k r f [] lt h = (lt, tt)
update_row-IsAbove k r f ((j, items) ∷ rows) lt (kj, h) = elim (Bool-cases (nat_beq r j)) [
  | inl same ↦ rw same (kj, h)
  | inr other ↦ elim (Bool-cases (ltb r j)) [
    | inl before ↦ rw (other, before) (lt, (ltb→lt _ _ before, h))
    | inr after ↦ rw (other, after) (kj, update_row-IsAbove j r f rows (ground arith) h)
  ]
]

pub update_row-IsOrdered :
    (r : ℕ) (f : Items → Items) (rows : Rows) → IsOrdered rows → IsOrdered (update_row r f rows)
unfolding update_row
update_row-IsOrdered r f [] h = tt
update_row-IsOrdered r f ((j, items) ∷ rows) h = elim (Bool-cases (nat_beq r j)) [
  | inl same ↦ rw same h
  | inr other ↦ elim (Bool-cases (ltb r j)) [
    | inl before ↦ rw (other, before) (ltb→lt _ _ before, h)
    | inr after ↦ rw (other, after) (update_row-IsAbove j r f rows (ground arith) h)
  ]
]

pub update_row-IsBelow :
    (n r : ℕ) (f : Items → Items) (rows : Rows)
    → r < n
    → IsBelow n rows
    → IsBelow n (update_row r f rows)
unfolding update_row
update_row-IsBelow n r f [] lt h = (lt, tt)
update_row-IsBelow n r f ((j, items) ∷ rows) lt (jn, h) = elim (Bool-cases (nat_beq r j)) [
  | inl same ↦ rw same (jn, h)
  | inr other ↦ elim (Bool-cases (ltb r j)) [
    | inl before ↦ rw (other, before) (lt, (jn, h))
    | inr after ↦ rw (other, after) (jn, update_row-IsBelow n r f rows lt h)
  ]
]

above-IsOrdered : (k : ℕ) (rows : Rows) → IsAbove k rows → IsOrdered rows
above-IsOrdered k [] h = tt
above-IsOrdered k ((j, items) ∷ rows) (lt, h) = h

-- A write is read at its own key, and no other key changes.
pub find_row-update_row :
    (r j : ℕ) (f : Items → Items) (rows : Rows)
    → IsOrdered rows
    → find_row j (update_row r f rows)
      ≡ (if nat_beq j r then some (f (items_at r rows)) else find_row j rows)
unfolding find_row update_row
find_row-update_row r j f [] h = refl
find_row-update_row r j f ((k, items) ∷ rows) h = elim (Bool-cases (nat_beq r k)) [
  | inl same ↦
      let rk : r ≡ k = (nat_beq_iff r k).0 same in
      elim (Bool-cases (nat_beq j k)) [
        | inl here ↦ let jr : nat_beq j r ≡ true = ground arith in rw (same, here, jr) refl
        | inr there ↦ let jr : nat_beq j r ≡ false = ground arith in rw (same, there, jr) refl
      ]
  | inr other ↦ elim (Bool-cases (ltb r k)) [
    | inl before ↦
        let gone = find_row-above k r rows h (ground arith) in
        elim (Bool-cases (nat_beq j r)) [
          | inl here ↦ rw (other, before, here, gone) refl
          | inr there ↦ rw (other, before, there) refl
        ]
    | inr after ↦
        let rec = find_row-update_row r j f rows (above-IsOrdered k rows h) in
        elim (Bool-cases (nat_beq j k)) [
          | inl here ↦
              let jr : nat_beq j r ≡ false = ground arith in rw (other, after, here, jr) refl
          | inr there ↦ rw (other, after, there) rec
        ]
  ]
]
