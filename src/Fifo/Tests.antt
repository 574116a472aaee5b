-- ===== src/Fifo/Tests.antt =====
-- A run of calls on a queue.
use glass_lint.Prelude.{ℕ, List, [], ◌∷◌, ◌++◌, ◌≡◌, ◌≤◌, IsNodup, length, nat_eq}
use glass_lint.Fifo.{Call, push_call, pop_call, drain_call, run, new}
use glass_lint.Fifo.Delivery.{admit, run-new}

abbrev calls : List (Call ℕ)
calls =
    push_call 4 ∷ push_call 7 ∷ push_call 4 ∷ pop_call ∷ push_call 4 ∷ push_call 9 ∷ drain_call ∷ []

run-new_example :
    ((run calls (new 2, [])).1 ++ (run calls (new 2, [])).0.queue ≡ admit 2 [] calls)
    × IsNodup (admit 2 [] calls)
    × (length (admit 2 [] calls) ≤ 2)
run-new_example = run-new 2 calls
