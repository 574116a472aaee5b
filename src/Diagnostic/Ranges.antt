-- ===== src/Diagnostic/Ranges.antt =====
-- What ranges contain.
use glass_lint.Prelude.{ℕ, ◌+◌, ◌≤◌, ◌<◌, ◌≡◌, ◌⊎◌, ◌↔◌, inl, inr, refl, true, arith}
use glass_lint.Prelude.{ok, Bool-cases}
use glass_lint.Diagnostic.{
  ByteRange, new_bytes, len, is_empty, Position, position_leb, SourceRange, contains,
}

-- A byte range that `new` accepts is as long as its ends are apart, and is empty exactly if its length is 0.
new_bytes-len :
    (a b : ℕ) (r : ByteRange)
    → new_bytes a b ≡ ok r
    → (r.start ≡ a) × (r.end ≡ b) × (a + len r ≡ b) × ((is_empty r ≡ true) ↔ (len r ≡ 0))
unfolding new_bytes
new_bytes-len a b r h = ground arith

-- Lexicographic order of positions, by line and then by column.
abbrev pub IsAtMost : Position → Position → Type 0
IsAtMost a b = (a.line < b.line) ⊎ (a.line ≡ b.line) × (a.column ≤ b.column)

abbrev pub IsBefore : Position → Position → Type 0
IsBefore a b = (a.line < b.line) ⊎ (a.line ≡ b.line) × (a.column < b.column)

-- A half-open range holds its start and not its end.
abbrev pub Holds : SourceRange → Position → Type 0
Holds r p = IsAtMost r.start p × IsBefore p r.end

position_leb_iff : (a b : Position) → (position_leb a b ≡ true) ↔ IsAtMost a b
position_leb_iff a b = ground arith

contains-bounds :
    (r s : SourceRange) → (contains r s ≡ true) ↔ (IsAtMost r.start s.start × IsAtMost s.end r.end)
unfolding contains
contains-bounds r s = ground (arith, position_leb_iff r.start s.start, position_leb_iff s.end r.end)

contains→Holds : (r s : SourceRange) (p : Position) → contains r s ≡ true → Holds s p → Holds r p
contains→Holds r s p h inside = let (lo, hi) = (contains-bounds r s).0 h in ground arith

Holds→contains :
    (r s : SourceRange)
    → IsBefore s.start s.end
    → ((p : Position) → Holds s p → Holds r p)
    → contains r s ≡ true
Holds→contains r s some_inside h =
    let at_start = h s.start (inr (refl, omega arith), some_inside) in
    elim (Bool-cases (position_leb s.end r.end)) [
      | inl le ↦ (contains-bounds r s).1 (at_start.0, (position_leb_iff s.end r.end).0 le)
      | inr gt ↦ let past : Holds r r.end = h r.end (ground arith) in absurd (ground arith)
    ]

-- A range contains another that is not empty exactly if it holds each position that the other holds.
contains_iff :
    (r s : SourceRange)
    → IsBefore s.start s.end
    → (contains r s ≡ true) ↔ ((p : Position) → Holds s p → Holds r p)
contains_iff r s some_inside =
    (λ h p inside. contains→Holds r s p h inside, Holds→contains r s some_inside)
