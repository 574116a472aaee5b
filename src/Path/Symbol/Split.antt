-- ===== src/Path/Symbol/Split.antt =====
-- `split` and `join` at a separator are inverse to one another on texts without it.
use glass_lint.Prelude.{ℕ, ◌≡◌, ◌≢◌, refl, sym, ap, ◌∙◌, false, List, [], ◌∷◌, ◌++◌}
use mathlib.Core.Path.{ap₂}
use glass_lint.Prelude.{
  Text, split, join, cons_first, All, arith, nat_beq, nat_beq_iff, Bool-cases, inl, inr,
}

-- The separator does not occur.
abbrev pub IsFree : ℕ → Text → Type 0
IsFree sep cs = All (λ c. c ≢ sep) cs

unequal : (a b : ℕ) → a ≢ b → nat_beq a b ≡ false
unequal a b h = ground arith

pub split_free : (sep : ℕ) (cs : Text) → IsFree sep cs → split sep cs ≡ cs ∷ []
unfolding split cons_first
split_free sep [] h = refl
split_free sep (c ∷ cs) (h, rest) = rw (unequal c sep h) (rw (split_free sep cs rest))

pub split-append :
    (sep : ℕ) (cs ds : Text) → IsFree sep cs → split sep (cs ++ sep ∷ ds) ≡ cs ∷ split sep ds
unfolding split cons_first
split-append sep [] ds h = rw ((nat_beq_iff sep sep).1 refl)
split-append sep (c ∷ cs) ds (h, rest) = rw (unequal c sep h) (rw (split-append sep cs ds rest))

-- Splitting a join gives the parts back, where there is a part and none holds the separator.
pub split-join :
    (sep : ℕ) (part : Text) (parts : List Text)
    → All (IsFree sep) (part ∷ parts)
    → split sep (join sep (part ∷ parts)) ≡ part ∷ parts
unfolding join
split-join sep part [] (h, _) = split_free sep part h
split-join sep part (next ∷ parts) (h, rest) =
    split-append sep part (join sep (next ∷ parts)) h
    ∙ ap (λ l. part ∷ l) (split-join sep next parts rest)

-- Joining a split gives the text back.
pub join-cons_first :
    (sep c : ℕ) (parts : List Text)
    → parts ≢ []
    → join sep (cons_first c parts) ≡ c ∷ join sep parts
unfolding join cons_first
join-cons_first sep c [] h = absurd (h refl)
join-cons_first sep c (part ∷ []) h = refl
join-cons_first sep c (part ∷ next ∷ parts) h = refl

cons_first-ne-nil : (c : ℕ) (parts : List Text) → cons_first c parts ≢ []
unfolding cons_first
cons_first-ne-nil c [] h = cc
cons_first-ne-nil c (part ∷ parts) h = cc

pub split-ne-nil : (sep : ℕ) (cs : Text) → split sep cs ≢ []
unfolding split
split-ne-nil sep [] = λ h. cc
split-ne-nil sep (c ∷ cs) = elim (Bool-cases (nat_beq c sep)) [
  | inl at ↦ rw at (λ h. cc)
  | inr other ↦ rw other (cons_first-ne-nil c (split sep cs))
]

join-cons_nil :
    (sep : ℕ) (parts : List Text) → parts ≢ [] → join sep ([] ∷ parts) ≡ sep ∷ join sep parts
unfolding join
join-cons_nil sep [] h = absurd (h refl)
join-cons_nil sep (part ∷ parts) h = refl

pub join-split : (sep : ℕ) (cs : Text) → join sep (split sep cs) ≡ cs
unfolding split
join-split sep [] = unfold join in refl
join-split sep (c ∷ cs) = elim (Bool-cases (nat_beq c sep)) [
  | inl at ↦ rw at (
      join-cons_nil sep (split sep cs) (split-ne-nil sep cs)
      ∙ ap₂ (λ (d : ℕ) (ds : Text). d ∷ ds) (sym ((nat_beq_iff c sep).0 at)) (join-split sep cs))
  | inr other ↦ rw other (
      join-cons_first sep c (split sep cs) (split-ne-nil sep cs)
      ∙ ap (λ (ds : Text). c ∷ ds) (join-split sep cs))
]

cons_first-All :
    (sep c : ℕ) (parts : List Text)
    → c ≢ sep
    → All (IsFree sep) parts
    → All (IsFree sep) (cons_first c parts)
unfolding cons_first
cons_first-All sep c [] h a = ((h, tt), tt)
cons_first-All sep c (part ∷ parts) h (p, rest) = ((h, p), rest)

-- No part of a split holds the separator.
pub split-All : (sep : ℕ) (cs : Text) → All (IsFree sep) (split sep cs)
unfolding split
split-All sep [] = (tt, tt)
split-All sep (c ∷ cs) = elim (Bool-cases (nat_beq c sep)) [
  | inl at ↦ rw at (tt, split-All sep cs)
  | inr other ↦
      rw other
        (cons_first-All sep c (split sep cs) (λ e. cc ((nat_beq_iff c sep).1 e)) (split-All sep cs))
]
