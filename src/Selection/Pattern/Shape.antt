-- ===== src/Selection/Pattern/Shape.antt =====
-- How literals and wildcards alternate in the segments of a pattern.
use glass_lint.Prelude.{
  ℕ, Text, List, [], ◌∷◌, Bool, true, false, arith, refl, sym, ap, ◌∙◌, subst, split,
}
use glass_lint.Prelude.{◌≡◌, ◌≢◌, ◌⊎◌, inl, inr, nat_beq, nat_beq_iff, Bool-cases}
use glass_lint.Selection.Pattern.{
  star, contains_char, ends_with_char, PatternSegment, literal, wildcard, push_parts,
}
use glass_lint.Selection.Pattern.Segments.{
  segments_of, segments_of-star, segments_of-other, cons_literal,
}

-- No literal stands behind a literal, and none is the last one if the pattern ends with `*`.
abbrev pub IsSpaced : Bool → List PatternSegment → Type 0
IsSpaced ends [] = Unit
IsSpaced ends (wildcard ∷ segments) = IsSpaced ends segments
IsSpaced ends (literal l ∷ []) = ends ≡ false
IsSpaced ends (literal l ∷ literal m ∷ segments) = ⊥
IsSpaced ends (literal l ∷ wildcard ∷ segments) = IsSpaced ends segments

abbrev pub HasWildcard : List PatternSegment → Type 0
HasWildcard [] = ⊥
HasWildcard (wildcard ∷ segments) = Unit
HasWildcard (literal l ∷ segments) = HasWildcard segments

-- To split on the first character of a pattern.
first_cases :
    (c : ℕ) (cs : Text)
    → ((c ≡ star) × (segments_of (c ∷ cs) ≡ wildcard ∷ segments_of cs))
      ⊎ ((c ≢ star) × (segments_of (c ∷ cs) ≡ cons_literal c (segments_of cs)))
first_cases c cs = elim (Bool-cases (nat_beq c star)) [
  | inl same ↦
      let is_star : c ≡ star = (nat_beq_iff c star).0 same in
      inl (is_star, ap (λ d. segments_of (d ∷ cs)) is_star ∙ segments_of-star cs)
  | inr other ↦
      let ne : c ≢ star = ground (arith, nat_beq_iff c star) in inr (ne, segments_of-other c cs ne)
]

cons_literal-IsSpaced :
    (ends : Bool) (c : ℕ) (ss : List PatternSegment)
    → ((ss ≡ []) → ends ≡ false)
    → IsSpaced ends ss
    → IsSpaced ends (cons_literal c ss)
cons_literal-IsSpaced ends c [] last h = last refl
cons_literal-IsSpaced ends c (wildcard ∷ ss) last h = h
cons_literal-IsSpaced ends c (literal l ∷ []) last h = h
cons_literal-IsSpaced ends c (literal l ∷ literal m ∷ ss) last h = h
cons_literal-IsSpaced ends c (literal l ∷ wildcard ∷ ss) last h = h

cons_literal_nonempty : (c : ℕ) (ss : List PatternSegment) → cons_literal c ss ≢ []
cons_literal_nonempty c [] h = cc
cons_literal_nonempty c (wildcard ∷ ss) h = cc
cons_literal_nonempty c (literal l ∷ ss) h = cc

segments_of_nonempty : (c : ℕ) (cs : Text) → segments_of (c ∷ cs) ≢ []
segments_of_nonempty c cs h = elim (first_cases c cs) [
  | inl (_, form) ↦ let clash : [] ≡ wildcard ∷ segments_of cs = sym h ∙ form in cc
  | inr (_, form) ↦ cons_literal_nonempty c (segments_of cs) (sym form ∙ h)
]

pub segments_of-IsSpaced : (raw : Text) → IsSpaced (ends_with_char star raw) (segments_of raw)
unfolding push_parts split
segments_of-IsSpaced [] = tt
segments_of-IsSpaced (c ∷ []) = elim (first_cases c []) [
  | inl (_, form) ↦ subst (IsSpaced (ends_with_char star (c ∷ []))) (sym form) tt
  | inr (ne, form) ↦
      subst (IsSpaced (ends_with_char star (c ∷ []))) (sym form)
        (ground (arith, nat_beq_iff c star))
]
segments_of-IsSpaced (c ∷ d ∷ ds) =
    let rec = segments_of-IsSpaced (d ∷ ds) in
    let ends = ends_with_char star (d ∷ ds) in
    elim (first_cases c (d ∷ ds)) [
      | inl (_, form) ↦ subst (IsSpaced ends) (sym form) rec
      | inr (ne, form) ↦ subst (IsSpaced ends) (sym form) (
          cons_literal-IsSpaced ends c (segments_of (d ∷ ds))
            (λ e. absurd (segments_of_nonempty d ds e)) rec)
    ]

cons_literal-HasWildcard :
    (c : ℕ) (ss : List PatternSegment) → HasWildcard ss → HasWildcard (cons_literal c ss)
cons_literal-HasWildcard c [] h = h
cons_literal-HasWildcard c (wildcard ∷ ss) h = h
cons_literal-HasWildcard c (literal l ∷ ss) h = h

pub segments_of-HasWildcard :
    (raw : Text) → contains_char star raw ≡ true → HasWildcard (segments_of raw)
unfolding contains_char
segments_of-HasWildcard [] h = absurd cc
segments_of-HasWildcard (c ∷ cs) h = elim (first_cases c cs) [
  | inl (_, form) ↦ subst HasWildcard (sym form) tt
  | inr (ne, form) ↦
      let later : contains_char star cs ≡ true = ground (arith, nat_beq_iff c star) in
      subst HasWildcard (sym form)
        (cons_literal-HasWildcard c (segments_of cs) (segments_of-HasWildcard cs later))
]
