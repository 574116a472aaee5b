-- ===== src/Path/Symbol/Trim.antt =====
-- `trim` removes nothing a second time, and adds no character.
use glass_lint.Prelude.{ℕ, ◌≡◌, refl, sym, ap, ◌∙◌, false, [], ◌∷◌, ◌++◌, reverse}
use glass_lint.Prelude.{
  length, ◌≤◌, Text, trim, trim_start, is_whitespace, All, All-append, Bool-cases, inl, inr, arith,
}
use mathlib.Core.List.{reverse-append, reverse-reverse}

trim_start-trim_start : (cs : Text) → trim_start (trim_start cs) ≡ trim_start cs
unfolding trim_start
trim_start-trim_start [] = refl
trim_start-trim_start (c ∷ cs) = elim (Bool-cases (is_whitespace c)) [
  | inl space ↦ rw space (trim_start-trim_start cs)
  | inr other ↦ rw other (rw other)
]

trim_start-append :
    (cs : Text) (c : ℕ)
    → is_whitespace c ≡ false
    → trim_start (cs ++ c ∷ []) ≡ trim_start cs ++ c ∷ []
unfolding trim_start
trim_start-append [] c h = rw h
trim_start-append (b ∷ cs) c h = elim (Bool-cases (is_whitespace b)) [
  | inl space ↦ rw space (trim_start-append cs c h)
  | inr other ↦ rw other
]

-- Cutting the end of a text that starts with no white space leaves such a text.
cut_end : Text → Text
cut_end cs = reverse (trim_start (reverse cs))

length-trim_start : (cs : Text) → length (trim_start cs) ≤ length cs
unfolding trim_start
length-trim_start [] = omega arith
length-trim_start (c ∷ cs) = ground (arith, length-trim_start cs)

reverse-cons : (c : ℕ) (cs : Text) → reverse (c ∷ cs) ≡ reverse cs ++ c ∷ []
reverse-cons c cs = reverse-append (c ∷ []) cs

-- The end is cut behind a first character that is kept.
cut_end-cons : (c : ℕ) (cs : Text) → is_whitespace c ≡ false → cut_end (c ∷ cs) ≡ c ∷ cut_end cs
unfolding cut_end
cut_end-cons c cs h =
    ap (λ l. reverse (trim_start l)) (reverse-cons c cs)
    ∙ ap reverse (trim_start-append (reverse cs) c h)
    ∙ reverse-append (trim_start (reverse cs)) (c ∷ [])

starts_dark : (c : ℕ) (cs : Text) → trim_start (c ∷ cs) ≡ c ∷ cs → is_whitespace c ≡ false
unfolding trim_start
starts_dark c cs h = ground (arith, length-trim_start cs, ap length h)

dark_kept : (c : ℕ) (cs : Text) → is_whitespace c ≡ false → trim_start (c ∷ cs) ≡ c ∷ cs
unfolding trim_start
dark_kept c cs h = rw h

trim_start-cut_end : (cs : Text) → trim_start cs ≡ cs → trim_start (cut_end cs) ≡ cut_end cs
trim_start-cut_end [] h = unfold cut_end trim_start in refl
trim_start-cut_end (c ∷ cs) h =
    let dark = starts_dark c cs h in
    ap trim_start (cut_end-cons c cs dark)
    ∙ (dark_kept c (cut_end cs) dark ∙ sym (cut_end-cons c cs dark))

cut_end-cut_end : (cs : Text) → cut_end (cut_end cs) ≡ cut_end cs
unfolding cut_end
cut_end-cut_end cs =
    ap (λ l. reverse (trim_start l)) (reverse-reverse (trim_start (reverse cs)))
    ∙ ap reverse (trim_start-trim_start (reverse cs))

-- `trim` is idempotent.
pub trim-trim : (cs : Text) → trim (trim cs) ≡ trim cs
unfolding trim cut_end
trim-trim cs =
    ap cut_end (trim_start-cut_end (trim_start cs) (trim_start-trim_start cs))
    ∙ cut_end-cut_end (trim_start cs)

module _ (P : ℕ → Type 0) where
  All-trim_start : (cs : Text) → All P cs → All P (trim_start cs)
  unfolding trim_start
  All-trim_start [] a = tt
  All-trim_start (c ∷ cs) (p, a) = elim (Bool-cases (is_whitespace c)) [
    | inl space ↦ rw space (All-trim_start cs a)
    | inr other ↦ rw other (p, a)
  ]

  All-reverse : (cs : Text) → All P cs → All P (reverse cs)
  All-reverse [] a = tt
  All-reverse (c ∷ cs) (p, a) =
      rw (reverse-cons c cs) (All-append P (reverse cs) (c ∷ []) (All-reverse cs a) (p, tt))

  pub All-trim : (cs : Text) → All P cs → All P (trim cs)
  unfolding trim
  All-trim cs a =
      All-reverse (trim_start (reverse (trim_start cs))) (
        All-trim_start (reverse (trim_start cs))
          (All-reverse (trim_start cs) (All-trim_start cs a)))
