-- ===== src/Selection/Selectors.antt =====
-- A parsed selector matches what its text describes.
use glass_lint.Prelude.{Text, [], ◌∷◌, true, false, ◌||◌, arith, refl, sym, ap, ◌∙◌, subst}
use glass_lint.Prelude.{◌≡◌, ◌≢◌, ◌↔◌, ◌⊎◌, inl, inr, nat_beq_iff, is_empty, Bool-cases, none, some}
use glass_lint.Prelude.{Result, ok, err, ◌==◌, ==→≡, ==_refl, nat_eq, list_eq, Option-cases}
use glass_lint.RuleId.{colon, split_once}
use glass_lint.RuleId
use glass_lint.Selection.{
  RuleSelector, parse, matches, with_pattern, without_pattern, has_reserved, invalid_selector,
}
use glass_lint.Selection.Pattern.{
  star, contains_char, ends_with_char, RulePattern, pattern_of, parse_parts, parse_pattern,
  matches_pattern,
}
use glass_lint.Selection.Pattern.Segments.{Glob, segments_of, Accepts-segments_of}
use glass_lint.Selection.Pattern.Shape.{segments_of-IsSpaced, segments_of-HasWildcard}
use glass_lint.Selection.Pattern.Loop.{segments_iff}

-- Without `*` a pattern describes itself alone.
Glob-literal : (raw id : Text) → contains_char star raw ≡ false → Glob raw id ↔ (id ≡ raw)
unfolding contains_char
Glob-literal [] id plain = (λ h. h, λ h. h)
Glob-literal (c ∷ cs) id plain =
    let ne : c ≢ star = ground (arith, nat_beq_iff c star) in
    let rest : contains_char star cs ≡ false = ground arith in
    (
      elim [
        | inl same ↦ absurd (ne same.0)
        | inr (other, v, eq, h) ↦ eq ∙ ap (λ t. c ∷ t) ((Glob-literal cs v rest).0 h)
      ],
      λ eq. inr (ne, cs, eq, (Glob-literal cs cs rest).1 refl),
    )

parse_pattern-ok : (raw : Text) (p : RulePattern) → parse_pattern raw ≡ ok p → p ≡ pattern_of raw
unfolding parse_pattern
parse_pattern-ok raw p h = elim (Option-cases (split_once colon raw)) [
  | inl missing ↦ let clash : err raw ≡ ok p = ap (parse_parts raw) (sym missing) ∙ h in absurd cc
  | inr ((provider, name), found) ↦
      let at : parse_parts raw (some (provider, name)) ≡ ok p =
        ap (parse_parts raw) (sym found) ∙ h in
      sym (accepted provider name at)
]
  where
    accepted :
        (provider name : Text) → parse_parts raw (some (provider, name)) ≡ ok p → pattern_of raw ≡ p
    accepted provider name at = ground arith

matches_pattern_iff :
    (raw id : Text)
    → contains_char star raw ≡ true
    → (matches_pattern (pattern_of raw) id ≡ true) ↔ Glob raw id
unfolding matches_pattern pattern_of
matches_pattern_iff raw id wild =
    let here =
      segments_iff (ends_with_char star raw) (segments_of raw) id (segments_of-IsSpaced raw)
        (segments_of-HasWildcard raw wild) in
    let there = Accepts-segments_of raw id in (λ h. there.0 (here.0 h), λ h. here.1 (there.1 h))

abbrev plain_selector : Text → RuleSelector
plain_selector raw = record { raw = raw; pattern = none }

abbrev glob_selector : Text → RuleSelector
glob_selector raw = record { raw = raw; pattern = some (pattern_of raw) }

with_pattern-ok :
    (raw : Text) (s : RuleSelector)
    → with_pattern raw (parse_pattern raw) ≡ ok s
    → s ≡ glob_selector raw
with_pattern-ok raw s h = go (parse_pattern raw) h (parse_pattern-ok raw)
  where
    go :
        (r : Result RulePattern Text)
        → with_pattern raw r ≡ ok s
        → ((p : RulePattern) → r ≡ ok p → p ≡ pattern_of raw)
        → s ≡ glob_selector raw
    go (ok p) h same =
        let at : record { raw = raw; pattern = some p } ≡ s = ground arith in
        sym at ∙ ap (λ (q : RulePattern). record { raw = raw; pattern = some q }) (same p refl)
    go (err e) h same = absurd cc

without_pattern-ok :
    (raw : Text) (r : Result Text Text) (s : RuleSelector)
    → without_pattern raw r ≡ ok s
    → s ≡ plain_selector raw
without_pattern-ok raw (ok id) s h = ground arith
without_pattern-ok raw (err e) s h = absurd cc

parse-cases :
    (raw : Text) (s : RuleSelector)
    → parse raw ≡ ok s
    → ((contains_char star raw ≡ true) × (s ≡ glob_selector raw))
      ⊎ ((contains_char star raw ≡ false) × (s ≡ plain_selector raw))
unfolding parse
parse-cases raw s h = elim (Bool-cases (is_empty raw || has_reserved raw)) [
  | inl refused ↦ let clash : err (invalid_selector raw) ≡ ok s = rw refused at h in absurd cc
  | inr fine ↦ elim (Bool-cases (contains_char star raw)) [
    | inl wild ↦ inl (wild, with_pattern-ok raw s (rw (fine, wild) at h))
    | inr plain ↦ inr (plain, without_pattern-ok raw (RuleId.parse raw) s (rw (fine, plain) at h))
  ]
]

-- A selector that `parse` accepts matches exactly the ids that its text describes, `*` standing for
-- any text and every other character for itself.
pub matches-Glob :
    (raw : Text) (s : RuleSelector)
    → parse raw ≡ ok s
    → (id : Text) → (matches s id ≡ true) ↔ Glob raw id
unfolding matches
matches-Glob raw s h id = elim (parse-cases raw s h) [
  | inl (wild, same) ↦
      subst (λ x. (matches x id ≡ true) ↔ Glob raw id) (sym same) (matches_pattern_iff raw id wild)
  | inr (plain, same) ↦
      let one = Glob-literal raw id plain in
      subst (λ x. (matches x id ≡ true) ↔ Glob raw id) (sym same)
        (λ e. one.1 (==→≡ id raw e), λ g. ap (λ x. id == x) (sym (one.0 g)) ∙ ==_refl id)
]
