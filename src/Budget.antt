-- ===== src/Budget.antt =====
-- glass-lint-datastructures/src/budget.rs: the consumption counter and the exhaustion flag.
-- `&mut self` methods return the new state with their result.
mod Tests
pub mod Prefixes
use glass_lint.Prelude.{ℕ, ◌+◌, ◌-◌, Bool, true, false, none, some, List, [], ◌∷◌}
use glass_lint.Prelude.{leb, if◌then◌else◌, checked_add}

-- `Cell<bool>`: the flag is the whole state.
pub record BudgetTracker : Type 0 where
  pub exhausted : Bool

abbrev pub mark_exhausted : BudgetTracker → BudgetTracker
mark_exhausted t = record t { exhausted = true }

abbrev pub is_exhausted : BudgetTracker → Bool
is_exhausted t = t.exhausted

pub record Budget : Type 0 where
  pub limit : ℕ
  pub used : ℕ
  pub exhausted : Bool

pub new : ℕ → Budget
new limit = record { limit = limit; used = 0; exhausted = false }

pub try_add : ℕ → Budget → Budget × Bool
try_add amount b = if b.exhausted then (b, false) else elim (checked_add b.used amount) [
  | none ↦ (record b { exhausted = true }, false)
  | some next ↦
      if leb next b.limit
      then (record b { used = next }, true)
      else (record b { exhausted = true }, false)
]

abbrev pub try_push : Budget → Budget × Bool
unfolding try_add
try_push b = try_add 1 b

pub remaining : Budget → ℕ
remaining b = if b.exhausted then 0 else b.limit - b.used

-- A sequence of requests: the final state and the answers in order.
pub try_all : List ℕ → Budget → Budget × List Bool
try_all [] b = (b, [])
try_all (amount ∷ rest) b =
    let (next, admitted) = try_add amount b in
    let (final, answers) = try_all rest next in (final, admitted ∷ answers)
