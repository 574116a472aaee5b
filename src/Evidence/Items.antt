-- ===== src/Evidence/Items.antt =====
-- Single evidence: what is counted, and that joining is associative.
use glass_lint.Prelude.{ℕ, ◌≤◌, ◌<◌, ◌≡◌, ◌⊎◌, inl, inr, refl, Text, List, Bool, true, false, ◌||◌}
use glass_lint.Prelude.{
  none, some, ltb, min, u32_max, length, length-append, append_assoc, if◌then◌else◌, arith,
  Bool-cases, ltb→lt,
}
use glass_lint.Evidence.{
  MatchKind, MatchCertainty, definite, possible, is_possible, Occurrence, ClassificationEvidence,
}
use glass_lint.Evidence.{from_parts, append, saturating_add}

-- The count is a `u32` that covers the retained occurrences, up to the largest `u32`.
pub record IsCounted (e : ClassificationEvidence) : Type 0 where
  pub covers : min (length e.occurrences) u32_max ≤ e.count
  pub small : e.count ≤ u32_max

-- `from_parts` refuses exactly a total below the number of occurrences; else the evidence it makes
-- has these occurrences, and its count is right.
from_parts-IsCounted :
    (kind : MatchKind) (symbol : Text) (total : ℕ) (cut : Bool) (c : MatchCertainty)
    (os : List Occurrence)
    → (total < length os) × (from_parts kind symbol total cut c os ≡ none)
      ⊎ (e : ClassificationEvidence) × (from_parts kind symbol total cut c os ≡ some e)
        × (length os ≤ total)
        × (e.occurrences ≡ os)
        × IsCounted e
unfolding from_parts
from_parts-IsCounted kind symbol total cut c os = elim (Bool-cases (ltb total (length os))) [
  | inl few ↦ inl (ltb→lt _ _ few, rw few refl)
  | inr enough ↦
      let le : length os ≤ total = ground arith in
      inr (
        record {
          kind = kind;
          symbol = symbol;
          count = min total u32_max;
          truncated = cut;
          certainty = c;
          occurrences = os;
        },
        rw enough refl,
        le,
        refl,
        record { covers = omega arith; small = omega arith },
      )
]

pub append-IsCounted :
    (e f : ClassificationEvidence) → IsCounted e → IsCounted f → IsCounted (append e f)
unfolding append
append-IsCounted e f he hf = record {
  covers = omega (arith, he.covers, hf.covers, length-append e.occurrences f.occurrences);
  small = omega arith;
}

certainty_assoc :
    (a b c : MatchCertainty)
    → (if is_possible (if is_possible a || is_possible b then possible else definite)
          || is_possible c
        then possible
        else definite)
      ≡ (if is_possible a
            || is_possible (if is_possible b || is_possible c then possible else definite)
          then possible
          else definite)
certainty_assoc definite definite definite = refl
certainty_assoc definite definite possible = refl
certainty_assoc definite possible definite = refl
certainty_assoc definite possible possible = refl
certainty_assoc possible b c = refl

saturating_assoc :
    (a b c : ℕ) → saturating_add (saturating_add a b) c ≡ saturating_add a (saturating_add b c)
saturating_assoc a b c = omega arith

or_assoc : (a b c : Bool) → (a || b || c) ≡ (a || (b || c))
or_assoc true b c = refl
or_assoc false b c = refl

-- Joining three pieces of evidence gives the same in either order of the joins, the saturated count
-- included.
append-append : (e f g : ClassificationEvidence) → append (append e f) g ≡ append e (append f g)
unfolding append
append-append e f g =
    rw
      (
        certainty_assoc e.certainty f.certainty g.certainty,
        saturating_assoc e.count f.count g.count,
        or_assoc e.truncated f.truncated g.truncated,
        append_assoc e.occurrences f.occurrences g.occurrences,
      )
      refl
