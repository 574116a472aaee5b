-- ===== src/Selection/Pattern/Segments.antt =====
-- The segments of a pattern accept what the text of the pattern describes.
use glass_lint.Prelude.{ℕ, Text, List, [], ◌∷◌, ◌++◌, false, arith, refl, sym, ap, ◌∙◌}
use glass_lint.Prelude.{
  ◌≡◌, ◌≢◌, ◌↔◌, ◌⊎◌, inl, inr, subst, nat_beq, nat_beq_iff, split, cons_first, Bool-cases,
}
use glass_lint.Selection.Pattern.{star, PatternSegment, literal, wildcard, push_parts, pop}

-- What a pattern describes: `*` stands for any text, any other character for itself.
abbrev pub Glob : Text → Text → Type 0
Glob [] s = s ≡ []
Glob (c ∷ cs) s =
    ((c ≡ star) × (u : Text) × (v : Text) × (s ≡ u ++ v) × Glob cs v)
    ⊎ ((c ≢ star) × (v : Text) × (s ≡ c ∷ v) × Glob cs v)

-- The same for segments.
abbrev pub Accepts : List PatternSegment → Text → Type 0
Accepts [] s = s ≡ []
Accepts (literal l ∷ segments) s = (v : Text) × (s ≡ l ++ v) × Accepts segments v
Accepts (wildcard ∷ segments) s = (u : Text) × (v : Text) × (s ≡ u ++ v) × Accepts segments v

abbrev pub segments_of : Text → List PatternSegment
segments_of raw = pop (push_parts (split star raw))

abbrev pub cons_literal : ℕ → List PatternSegment → List PatternSegment
cons_literal c [] = literal (c ∷ []) ∷ []
cons_literal c (wildcard ∷ segments) = literal (c ∷ []) ∷ wildcard ∷ segments
cons_literal c (literal l ∷ segments) = literal (c ∷ l) ∷ segments

split-cons : (c : ℕ) (s : Text) → (part : Text) × (parts : List Text) × (split c s ≡ part ∷ parts)
unfolding split cons_first
split-cons c [] = ([], [], refl)
split-cons c (d ∷ ds) =
    let (part, parts, eq) = split-cons c ds in
    elim (Bool-cases (nat_beq d c)) [
      | inl same ↦ ([], split c ds, rw (same, split) refl)
      | inr other ↦ (d ∷ part, parts, rw (other, eq, split) refl)
    ]

pop-cons :
    (s : PatternSegment) (part : Text) (parts : List Text)
    → pop (s ∷ push_parts (part ∷ parts)) ≡ s ∷ pop (push_parts (part ∷ parts))
unfolding push_parts
pop-cons s [] parts = refl
pop-cons s (c ∷ part) parts = refl

pub segments_of-star : (cs : Text) → segments_of (star ∷ cs) ≡ wildcard ∷ segments_of cs
unfolding split push_parts
segments_of-star cs =
    let (part, parts, eq) = split-cons star cs in
    ap (λ l. pop (wildcard ∷ push_parts l)) eq
    ∙ pop-cons wildcard part parts
    ∙ ap (λ l. wildcard ∷ pop (push_parts l)) (sym eq)

push_cons :
    (c : ℕ) (part : Text) (parts : List Text)
    → pop (push_parts ((c ∷ part) ∷ parts)) ≡ cons_literal c (pop (push_parts (part ∷ parts)))
unfolding push_parts
push_cons c [] [] = refl
push_cons c [] ([] ∷ parts) = refl
push_cons c [] ((d ∷ ds) ∷ parts) = refl
push_cons c (d ∷ ds) parts = refl

pub segments_of-other :
    (c : ℕ) (cs : Text) → c ≢ star → segments_of (c ∷ cs) ≡ cons_literal c (segments_of cs)
unfolding split cons_first
segments_of-other c cs ne =
    let (part, parts, eq) = split-cons star cs in
    let other : nat_beq c star ≡ false = ground (arith, nat_beq_iff c star) in
    let first : split star (c ∷ cs) ≡ (c ∷ part) ∷ parts = rw (other, eq, split) refl in
    ap (λ l. pop (push_parts l)) first
    ∙ push_cons c part parts
    ∙ ap (λ l. cons_literal c (pop (push_parts l))) (sym eq)

Accepts-cons_literal :
    (c : ℕ) (ss : List PatternSegment) (s : Text)
    → Accepts (cons_literal c ss) s ↔ ((v : Text) × (s ≡ c ∷ v) × Accepts ss v)
Accepts-cons_literal c [] s = (
  λ (v, eq, rest). ([], eq ∙ ap (λ l. c ∷ l) rest, refl),
  λ (v, eq, rest). ([], eq ∙ ap (λ l. c ∷ l) rest, refl),
)
Accepts-cons_literal c (wildcard ∷ ss) s = (λ h. h, λ h. h)
Accepts-cons_literal c (literal l ∷ ss) s = (
  λ (v, eq, rest). (l ++ v, eq, (v, refl, rest)),
  λ (v, eq, (w, eq', rest)). (w, eq ∙ ap (λ l. c ∷ l) eq', rest),
)

pub Accepts-segments_of : (raw s : Text) → Accepts (segments_of raw) s ↔ Glob raw s
unfolding split push_parts
Accepts-segments_of [] s = (λ h. h, λ h. h)
Accepts-segments_of (c ∷ cs) s = elim (Bool-cases (nat_beq c star)) [
  | inl same ↦
      let is_star : c ≡ star = (nat_beq_iff c star).0 same in
      let form : segments_of (c ∷ cs) ≡ wildcard ∷ segments_of cs =
        ap (λ d. segments_of (d ∷ cs)) is_star ∙ segments_of-star cs in
      (
        λ h.
            let (u, v, eq, rest) = subst (λ l. Accepts l s) form h in
            inl (is_star, u, v, eq, (Accepts-segments_of cs v).0 rest),
        elim [
          | inl (_, u, v, eq, rest) ↦
              subst (λ l. Accepts l s) (sym form) (u, v, eq, (Accepts-segments_of cs v).1 rest)
          | inr other ↦ absurd (other.0 is_star)
        ],
      )
  | inr other ↦
      let ne : c ≢ star = ground (arith, nat_beq_iff c star) in
      let form = segments_of-other c cs ne in
      let through = Accepts-cons_literal c (segments_of cs) s in
      (
        λ h.
            let (v, eq, rest) = through.0 (subst (λ l. Accepts l s) form h) in
            inr (ne, v, eq, (Accepts-segments_of cs v).0 rest),
        elim [
          | inl same ↦ absurd (ne same.0)
          | inr (_, v, eq, rest) ↦
              subst (λ l. Accepts l s) (sym form)
                (through.1 (v, eq, (Accepts-segments_of cs v).1 rest))
        ],
      )
]
