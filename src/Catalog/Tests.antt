-- ===== src/Catalog/Tests.antt =====
-- Catalogs combined.
use glass_lint.Prelude.{List, [], ◌∷◌}
use glass_lint.Selection.{high, low}
use glass_lint.Catalog.{RuleCatalog, combine}
use glass_lint.Catalog.Combine.{concat, Combined, combine-Combined}

abbrev catalogs : List RuleCatalog
catalogs =
    (record { rule_id = 0x61 ∷ []; confidence = high } ∷ [])
    ∷ (record { rule_id = 0x62 ∷ []; confidence = low }
        ∷ record { rule_id = 0x61 ∷ []; confidence = low }
        ∷ [])
    ∷ []

combine-Combined_example : Combined [] (concat catalogs) (combine catalogs)
combine-Combined_example = combine-Combined catalogs
