-- ===== src/Budget/Prefixes.antt =====
-- The counter never passes its limit, latches, and answers a sequence of requests by prefix sums.
use glass_lint.Prelude.{ℕ, ◌+◌, ◌≤◌, ◌<◌, ◌≡◌, refl, Bool, true, false, List, [], ◌∷◌, arith}
use glass_lint.Prelude.{leb, usize_max}
use glass_lint.Budget.{Budget, new, try_add, remaining, try_all}

pub record IsValid (b : Budget) : Type 0 where
  pub within : b.used ≤ b.limit
  pub representable : b.limit ≤ usize_max

pub new-IsValid : (limit : ℕ) → limit ≤ usize_max → IsValid (new limit)
unfolding new
new-IsValid limit h = omega arith

-- Admission and its effect on `used`, `remaining` and the latch, on every branch of `try_add`:
-- a live budget admits exactly the amounts that fit into what remains; an admitted amount moves
-- from `remaining` to `used`; a refused one leaves `used`, latches and leaves nothing.
pub try_add_lem :
    (amount : ℕ) (b : Budget)
    → IsValid b
    → b.exhausted ≡ false
    → ((try_add amount b).1 ≡ leb amount (remaining b))
      × ((try_add amount b).1 ≡ true
          → ((try_add amount b).0.used ≡ b.used + amount)
            × (remaining (try_add amount b).0 + amount ≡ remaining b))
      × ((try_add amount b).1 ≡ false
          → ((try_add amount b).0.used ≡ b.used)
            × ((try_add amount b).0.exhausted ≡ true)
            × (remaining (try_add amount b).0 ≡ 0))
unfolding try_add remaining
try_add_lem amount b v live = (ground arith, λ h. ground arith, λ h. ground arith)

pub try_add-IsValid : (amount : ℕ) (b : Budget) → IsValid b → IsValid (try_add amount b).0
unfolding try_add
try_add-IsValid amount b v = ground arith

pub try_add-limit : (amount : ℕ) (b : Budget) → (try_add amount b).0.limit ≡ b.limit
unfolding try_add
try_add-limit amount b = ground arith

-- The independent description: an answer is whether the sum of all requests so far fits.
pub prefix_fits : ℕ → ℕ → List ℕ → List Bool
prefix_fits limit total [] = []
prefix_fits limit total (amount ∷ rest) =
    leb (total + amount) limit ∷ prefix_fits limit (total + amount) rest

prefix_fits_over :
    (limit total : ℕ) (xs : List ℕ) (b : Budget)
    → b.exhausted ≡ true
    → limit < total
    → (try_all xs b).1 ≡ prefix_fits limit total xs
unfolding try_all try_add prefix_fits
prefix_fits_over limit total [] b h over = refl
prefix_fits_over limit total (x ∷ xs) b h over =
    ground (arith, prefix_fits_over limit (total + x) xs b)

try_all-prefix_fits :
    (xs : List ℕ) (b : Budget)
    → IsValid b
    → b.exhausted ≡ false
    → (try_all xs b).1 ≡ prefix_fits b.limit b.used xs
unfolding try_all try_add prefix_fits
try_all-prefix_fits [] b v live = refl
try_all-prefix_fits (x ∷ xs) b v live = ground (
  arith,
  try_all-prefix_fits xs (record b { used = b.used + x }),
  prefix_fits_over b.limit (b.used + x) xs (record b { exhausted = true }),
)

-- From a new budget, a sequence of requests is answered as if by the sums of its prefixes: a
-- request is admitted exactly when the sum of it and of all requests before it, the refused ones
-- included, is within the limit.
pub try_all-new :
    (limit : ℕ) (xs : List ℕ)
    → limit ≤ usize_max
    → (try_all xs (new limit)).1 ≡ prefix_fits limit 0 xs
unfolding new
try_all-new limit xs h = try_all-prefix_fits xs (new limit) (new-IsValid limit h) refl
