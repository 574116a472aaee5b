-- ===== src/Catalog.antt =====
-- glass-lint-core/src/lint/catalog.rs: catalogs of compiled rules and their combination.
mod Tests
mod Combine
use glass_lint.Prelude.{
  ℕ, Text, List, [], ◌∷◌, ◌++◌, Bool, true, false, Option, none, some, if◌then◌else◌, Result, ok,
  err,
}
use glass_lint.Prelude.{length, get_elem?, map, contains, nat_eq, list_eq}
use glass_lint.Selection.{CompiledRuleRecord}

abbrev pub RuleCatalog : Type 0
RuleCatalog = List CompiledRuleRecord

-- The inner loop of `combine`, over the records of one catalog: the ids seen and the records so far.
pub add_records :
    List CompiledRuleRecord → List Text → RuleCatalog → Result (List Text × RuleCatalog) Text
add_records [] seen records = ok (seen, records)
add_records (r ∷ rs) seen records =
    let rest = add_records rs (seen ++ r.rule_id ∷ []) (records ++ r ∷ []) in
    if contains seen r.rule_id then err r.rule_id else rest

abbrev pub and_add :
    Result (List Text × RuleCatalog) Text
    → (List Text → RuleCatalog → Result RuleCatalog Text)
    → Result RuleCatalog Text
and_add (err id) next = err id
and_add (ok (seen, records)) next = next seen records

pub add_catalogs : List RuleCatalog → List Text → RuleCatalog → Result RuleCatalog Text
add_catalogs [] seen records = ok records
add_catalogs (c ∷ cs) seen records = and_add (add_records c seen records) (add_catalogs cs)

pub combine : List RuleCatalog → Result RuleCatalog Text
combine catalogs = add_catalogs catalogs [] []

abbrev pub rule_ids : RuleCatalog → List Text
rule_ids [] = []
rule_ids (r ∷ rs) = r.rule_id ∷ rule_ids rs

abbrev pub rule_count : RuleCatalog → ℕ
rule_count c = length c

abbrev pub rule_id : RuleCatalog → ℕ → Option Text
rule_id c i = elim (get_elem? c i) [ none ↦ none | some r ↦ some r.rule_id ]
