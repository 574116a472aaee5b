-- ===== src/Table/Tests.antt =====
-- A table whose identifiers are their numbers, cut off at the largest `u32`.
use glass_lint.Prelude.{
  ℕ, [], ◌∷◌, ◌≡◌, ◌↔◌, ◌∈◌, some, none, refl, arith, min, u32_max, length, leb, nat_beq,
  if◌then◌else◌,
}
use glass_lint.Table.{
  IdIndex, IndexTable, get, insert, contains, out_of_range, replaced, inserted, get_disjoint, iter,
  len,
}
use glass_lint.Table.Lookup.{IsValid, get-insert, iter_iff}
use glass_lint.Table.Disjoint.{Lent, get_disjoint-Lent}

instance abbrev number_ids : IdIndex ℕ
number_ids = record {
  into = λ i. min i u32_max;
  from_raw = λ i. i;
  into-le = λ i. omega arith;
  into-from_raw = λ i h. omega arith;
}

abbrev table : IndexTable ℕ
table = record { values = none ∷ some 7 ∷ none ∷ []; occupied = 1; capacity = 4 }

table-IsValid : IsValid table
table-IsValid = record { counted = refl; bounded = omega arith }

get-insert_example :
    (get {I = ℕ} 1 (insert {I = ℕ} 3 9 table).0 ≡ (
      if leb 4 (number_ids.into 3)
      then get {I = ℕ} 1 table
      else if nat_beq (number_ids.into 3) (number_ids.into 1)
      then some 9
      else get {I = ℕ} 1 table))
    × ((insert {I = ℕ} 3 9 table).1 ≡ (
        if leb 4 (number_ids.into 3)
        then out_of_range
        else if contains {I = ℕ} 3 table
        then replaced
        else inserted))
get-insert_example = get-insert 3 1 9 table

get_disjoint-Lent_example : Lent {I = ℕ} 2 1 table (get_disjoint {I = ℕ} 2 1 table)
get_disjoint-Lent_example = get_disjoint-Lent {I = ℕ} 2 1 table

iter_iff_example :
    (((1, 7) ∈ iter {I = ℕ} table)
      ↔ ((number_ids.from_raw (number_ids.into 1) ≡ 1) × (get {I = ℕ} 1 table ≡ some 7)))
    × (length (iter {I = ℕ} table) ≡ len table)
iter_iff_example = iter_iff table 1 7 table-IsValid (omega arith)
