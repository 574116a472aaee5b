-- ===== src/Name/Tests.antt =====
-- Names interned.
use glass_lint.Prelude.{Text, [], ◌∷◌, ◌≡◌, ◌↔◌, some, refl, arith, false, nat_eq, list_eq}
use glass_lint.Prelude.IndexSets.{get_index_of, index_from}
use glass_lint.Name.{
  NameTable, intern, resolve, lookup, ok, lookup_path, resolve_path, insert_new, with_max_entries,
}
use glass_lint.Name.Stability.{IsValid, Interns, intern-Interns}
use glass_lint.Name.Runs.{intern_all, resolve-intern_all}
use glass_lint.Name.Paths.{lookup_path_iff}

abbrev first_name : Text
first_name = 0x61 ∷ []

abbrev second_name : Text
second_name = 0x62 ∷ []

abbrev table : NameTable
table = record { names = first_name ∷ []; max_entries = 2; exhausted = false }

table-IsValid : IsValid table
table-IsValid = record { distinct = (λ m. m, tt); bounded = omega arith; small = omega arith }

intern-Interns_example :
    Interns second_name table (intern second_name table).0 (intern second_name table).1
intern-Interns_example = intern-Interns second_name table table-IsValid

answered : (intern first_name (intern_all [] (with_max_entries 2))).1 ≡ ok 0
unfolding intern insert_new get_index_of index_from with_max_entries intern_all
answered = refl

resolve-intern_all_example :
    (resolve 0 (intern_all (first_name ∷ second_name ∷ []) (with_max_entries 2)) ≡ some first_name)
    × (lookup first_name (intern_all (first_name ∷ second_name ∷ []) (with_max_entries 2)) ≡ some 0)
resolve-intern_all_example = resolve-intern_all 2 [] (second_name ∷ []) first_name 0 answered

lookup_path_iff_example :
    (lookup_path (first_name ∷ first_name ∷ []) table ≡ some (0 ∷ 0 ∷ []))
    ↔ (resolve_path (0 ∷ 0 ∷ []) table ≡ some (first_name ∷ first_name ∷ []))
lookup_path_iff_example =
    lookup_path_iff (first_name ∷ first_name ∷ []) (0 ∷ 0 ∷ []) table table-IsValid
