-- ===== src/Budget/Tests.antt =====
-- A run of requests on a budget.
use glass_lint.Prelude.{[], ◌∷◌, ◌≡◌, arith}
use glass_lint.Budget.{new, try_all}
use glass_lint.Budget.Prefixes.{prefix_fits, try_all-new}

try_all-new_example :
    (try_all (3 ∷ 4 ∷ 5 ∷ 1 ∷ []) (new 10)).1 ≡ prefix_fits 10 0 (3 ∷ 4 ∷ 5 ∷ 1 ∷ [])
try_all-new_example = try_all-new 10 (3 ∷ 4 ∷ 5 ∷ 1 ∷ []) (omega arith)
