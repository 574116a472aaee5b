-- ===== src/Evidence/Tests.antt =====
-- Evidence made, joined and tabled.
use glass_lint.Prelude.{arith, [], ◌∷◌, some, none, false}
use glass_lint.Evidence.{
  call, definite, possible, Occurrence, ClassificationEvidence, RuleEvidenceTable,
}
use glass_lint.Evidence.{change_items, merge_equal_capacity}
use glass_lint.Evidence.Rows.{Items}
use glass_lint.Evidence.Tables.{
  IsValid, Changed, change_items-Changed, Merged, merge_equal_capacity-Merged,
}

abbrev occurrence : Occurrence
occurrence = record { span = record { start = 2; end = 5 }; fact = some 7; trace = none }

abbrev one : ClassificationEvidence
one = record {
  kind = call;
  symbol = 0x66 ∷ [];
  count = 1;
  truncated = false;
  certainty = definite;
  occurrences = occurrence ∷ [];
}

abbrev many : ClassificationEvidence
many = record one { count = 4000000000; certainty = possible }

abbrev table : RuleEvidenceTable
table = record { capacity = 4; values = (1, one ∷ []) ∷ (3, many ∷ []) ∷ [] }

table-IsValid : IsValid table
table-IsValid = record { ordered = (omega arith, tt); below = (omega arith, (omega arith, tt)) }

abbrev add_one : Items → Items
add_one items = one ∷ items

change_items-Changed_example : Changed 2 add_one table (change_items 2 add_one table)
change_items-Changed_example = change_items-Changed 2 add_one table table-IsValid

merge_equal_capacity-Merged_example : Merged table table (merge_equal_capacity table table)
merge_equal_capacity-Merged_example =
    merge_equal_capacity-Merged table table table-IsValid table-IsValid
