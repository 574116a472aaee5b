-- ===== src/RuleId/Parts.antt =====
-- The texts that `parse` accepts, and the two parts it finds in them.
use glass_lint.Prelude.{ℕ, suc, Text, [], ◌∷◌, ◌++◌, Bool, true, false, Option, none, some, arith}
use glass_lint.Prelude.{◌≡◌, ◌≢◌, ◌↔◌, inl, inr, refl, sym, ap, ◌∙◌, nat_beq, nat_beq_iff}
use glass_lint.Prelude.{ok, err, Bool-cases, Option-cases, ◌∈◌, some_injective}
use glass_lint.RuleId.{
  colon, prepend, split_once, all_from, is_part_character, valid_characters, valid_part, valid_name,
}
use glass_lint.RuleId.{accept, valid_provider, from_provider_and_name, parse}

-- A text without the separator stands before the first one.
split_once-append :
    (sep : ℕ) (p n : Text)
    → ((c : ℕ) → c ∈ p → c ≢ sep)
    → split_once sep (p ++ sep ∷ n) ≡ some (p, n)
unfolding split_once
split_once-append sep [] n free = rw ((nat_beq_iff sep sep).1 refl) refl
split_once-append sep (c ∷ p) n free =
    let rest = split_once-append sep p n (λ d h. free d (inr h)) in
    let other : nat_beq c sep ≡ false = ground (arith, free c (inl refl)) in rw (other, rest) refl

prepend-some :
    (c : ℕ) (o : Option (Text × Text)) (p n : Text)
    → prepend c o ≡ some (p, n)
    → (before : Text) × (o ≡ some (before, n)) × (p ≡ c ∷ before)
prepend-some c none p n h = cc
prepend-some c (some (before, after)) p n h =
    let same : (c ∷ before, after) ≡ (p, n) = some_injective h in
    (
      before,
      ap (λ (x : Text × Text). some (before, x.1)) same,
      ap (λ (x : Text × Text). x.0) (sym same),
    )

split_once-some : (sep : ℕ) (s p n : Text) → split_once sep s ≡ some (p, n) → s ≡ p ++ sep ∷ n
unfolding split_once
split_once-some sep [] p n h = cc
split_once-some sep (c ∷ cs) p n h = elim (Bool-cases (nat_beq c sep)) [
  | inl same ↦
      let at : ([], cs) ≡ (p, n) = some_injective (rw same at h) in
      let c_sep : c ≡ sep = (nat_beq_iff c sep).0 same in
      let nil : [] ≡ p = ap (λ (x : Text × Text). x.0) at in
      let rest : cs ≡ n = ap (λ (x : Text × Text). x.1) at in cc
  | inr other ↦
      let at : prepend c (split_once sep cs) ≡ some (p, n) = rw other at h in
      let (before, found, eq) = prepend-some c (split_once sep cs) p n at in
      cc (split_once-some sep cs before n found)
]

all_from-free :
    (allow_dot : Bool) (i : ℕ) (s : Text)
    → all_from (is_part_character allow_dot) i s ≡ true
    → (c : ℕ) → c ∈ s
    → c ≢ colon
unfolding all_from
all_from-free allow_dot i [] h c m = absurd m
all_from-free allow_dot i (x ∷ s) h c (inl same) = ground (arith, same)
all_from-free allow_dot i (x ∷ s) h c (inr m) = all_from-free allow_dot (suc i) s (ground arith) c m

valid_part-free :
    (allow_dot : Bool) (s : Text) → valid_part s allow_dot ≡ true → (c : ℕ) → c ∈ s → c ≢ colon
unfolding valid_part valid_characters
valid_part-free allow_dot s h c m = all_from-free allow_dot 0 s (ground arith) c m

valid_provider-free : (s : Text) → valid_provider s ≡ true → (c : ℕ) → c ∈ s → c ≢ colon
unfolding valid_provider
valid_provider-free s h = valid_part-free false s h

accept_iff :
    (s t p n : Text)
    → (accept s (some (p, n)) ≡ ok t)
      ↔ ((t ≡ s) × (valid_provider p ≡ true) × (valid_name n ≡ true))
unfolding valid_provider valid_name
accept_iff s t p n = ground arith

parse-parts :
    (p n : Text)
    → valid_provider p ≡ true
    → valid_name n ≡ true
    → parse (p ++ colon ∷ n) ≡ ok (p ++ colon ∷ n)
unfolding parse
parse-parts p n hp hn =
    ap (accept (p ++ colon ∷ n)) (split_once-append colon p n (valid_provider-free p hp))
    ∙ (accept_iff (p ++ colon ∷ n) (p ++ colon ∷ n) p n).1 (refl, hp, hn)

-- `parse` accepts exactly the texts of a valid provider, a colon and a valid name, as they are.
pub parse_iff :
    (s t : Text)
    → (parse s ≡ ok t) ↔ (
        (t ≡ s)
        × (p : Text) × (n : Text) × (s ≡ p ++ colon ∷ n)
        × (valid_provider p ≡ true)
        × (valid_name n ≡ true))
unfolding parse
parse_iff s t = (into, from)
  where
    into :
        parse s ≡ ok t
        → (t ≡ s)
          × (p : Text) × (n : Text) × (s ≡ p ++ colon ∷ n)
          × (valid_provider p ≡ true)
          × (valid_name n ≡ true)
    into h = elim (Option-cases (split_once colon s)) [
      | inl nothing ↦ let refused : err s ≡ ok t = ap (accept s) (sym nothing) ∙ h in cc
      | inr ((p, n), found) ↦
          let (same, hp, hn) = (accept_iff s t p n).0 (ap (accept s) (sym found) ∙ h) in
          (same, p, n, split_once-some colon s p n found, hp, hn)
    ]

    from :
        (t ≡ s)
          × (p : Text) × (n : Text) × (s ≡ p ++ colon ∷ n)
          × (valid_provider p ≡ true)
          × (valid_name n ≡ true)
        → parse s ≡ ok t
    from (same, p, n, eq, hp, hn) = ap parse eq ∙ parse-parts p n hp hn ∙ ap ok (sym eq ∙ sym same)

-- What `from_provider_and_name` builds is parsed as it is, and splits into the same two parts.
parse-from_provider_and_name :
    (p n t : Text)
    → from_provider_and_name p n ≡ ok t
    → (parse t ≡ ok t) × (split_once colon t ≡ some (p, n))
unfolding from_provider_and_name
parse-from_provider_and_name p n t h =
    let (same, hp, hn) = built h in
    (
      ap parse same ∙ parse-parts p n hp hn ∙ ap ok (sym same),
      ap (split_once colon) same ∙ split_once-append colon p n (valid_provider-free p hp),
    )
  where
    built :
        from_provider_and_name p n ≡ ok t
        → (t ≡ p ++ colon ∷ n) × (valid_provider p ≡ true) × (valid_name n ≡ true)
    built h = ground arith
