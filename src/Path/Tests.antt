-- ===== src/Path/Tests.antt =====
-- Chains read and printed, views cut and compared.
use glass_lint.Prelude.{ℕ, Text, [], ◌∷◌, ◌≡◌, All, refl, arith, trim, trim_start, nat_eq}
use glass_lint.Path.Symbol.{SymbolPath, dot, from_chain, display}
use glass_lint.Path.Symbol.RoundTrip.{IsClean, from_chain-display}
use glass_lint.Path.View.{PathView}

-- "a" and "bc", and " a..bc".
abbrev path : SymbolPath
path = (0x61 ∷ []) ∷ (0x62 ∷ 0x63 ∷ []) ∷ []

abbrev chain : Text
chain = 0x20 ∷ 0x61 ∷ dot ∷ dot ∷ 0x62 ∷ 0x63 ∷ []

path-IsClean : All IsClean path
unfolding trim trim_start
path-IsClean = (
  record { filled = refl; undotted = ground arith; trimmed = refl },
  (record { filled = refl; undotted = ground arith; trimmed = refl }, tt),
)

from_chain-display_example : from_chain (display path) ≡ path
from_chain-display_example = from_chain-display path path-IsClean

abbrev root : PathView ℕ
root = 4 ∷ 5 ∷ []

abbrev view : PathView ℕ
view = 4 ∷ 5 ∷ 6 ∷ []
