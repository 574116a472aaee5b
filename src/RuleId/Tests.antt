-- ===== src/RuleId/Tests.antt =====
-- Identifiers built and parsed.
use glass_lint.Prelude.{Text, [], ◌∷◌, ◌++◌, ◌≡◌, ◌↔◌, ok, true, refl}
use glass_lint.RuleId.{
  colon, parse, valid_provider, valid_name, from_provider_and_name, valid_part, valid_characters,
  all_from,
}
use glass_lint.RuleId.Parts.{parse_iff}

-- "js" and "a.b".
abbrev provider : Text
provider = 0x6a ∷ 0x73 ∷ []

abbrev name : Text
name = 0x61 ∷ 0x2e ∷ 0x62 ∷ []

abbrev whole : Text
whole = provider ++ colon ∷ name

parse_iff_example : (parse whole ≡ ok whole) ↔ (
    (whole ≡ whole)
    × (p : Text) × (n : Text) × (whole ≡ p ++ colon ∷ n)
    × (valid_provider p ≡ true)
    × (valid_name n ≡ true))
parse_iff_example = parse_iff whole whole

built : from_provider_and_name provider name ≡ ok whole
unfolding from_provider_and_name valid_provider valid_part valid_characters all_from valid_name
built = refl
