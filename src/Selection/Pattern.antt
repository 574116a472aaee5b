-- ===== src/Selection/Pattern.antt =====
-- glass-lint-core/src/lint/selection.rs: rule patterns with `*`, parsed and matched.
-- Selectors and rule ids are ASCII once they are valid, so that an offset in bytes is one in characters.
pub mod Segments
pub mod Shape
mod Greedy
pub mod Loop
use glass_lint.Prelude.{
  ℕ, zero, suc, ◌+◌, ◌-◌, Text, List, [], ◌∷◌, ◌++◌, Bool, true, false, not, ◌&&◌, ◌||◌, Option,
  none, some,
}
use glass_lint.Prelude.{
  nat_beq, ltb, if◌then◌else◌, Result, ok, err, is_empty, split, length, drop, ◌==◌, nat_eq,
  list_eq,
}
use glass_lint.RuleId.{
  colon, hyphen, underscore, dot, split_once, is_ascii_lowercase, is_ascii_digit, is_separator,
}
use glass_lint.RuleId.{starts_with_separator, ends_with_separator, contains_dots, all_from}

abbrev pub star : ℕ
star = 0x2a

-- `str::contains` of a character.
unfoldable pub contains_char : ℕ → Text → Bool
contains_char c [] = false
contains_char c (d ∷ ds) = nat_beq d c || contains_char c ds

-- `str::ends_with` of a character.
abbrev pub ends_with_char : ℕ → Text → Bool
ends_with_char c [] = false
ends_with_char c (d ∷ []) = nat_beq d c
ends_with_char c (d ∷ e ∷ ds) = ends_with_char c (e ∷ ds)

-- `str::starts_with`, `str::ends_with` and `str::find` of a text, which stands first here.
abbrev pub starts_with : Text → Text → Bool
starts_with [] s = true
starts_with (l ∷ ls) [] = false
starts_with (l ∷ ls) (c ∷ cs) = nat_beq l c && starts_with ls cs

pub ends_with : Text → Text → Bool
ends_with l [] = l == []
ends_with l (c ∷ cs) = l == c ∷ cs || ends_with l cs

abbrev pub one_more : Option ℕ → Option ℕ
one_more none = none
one_more (some n) = some (suc n)

pub find : Text → Text → Option ℕ
find l [] = if starts_with l [] then some 0 else none
find l (c ∷ cs) = let rest = find l cs in if starts_with l (c ∷ cs) then some 0 else one_more rest

pub data PatternSegment : Type 0 where
  literal : Text → PatternSegment
  wildcard : PatternSegment

pub record RulePattern : Type 0 where
  pub segments : List PatternSegment
  pub ends_with_wildcard : Bool

abbrev pub is_pattern_character : Bool → ℕ → ℕ → Bool
is_pattern_character allow_dot index c =
    nat_beq c star
    || is_ascii_lowercase c
    || ltb 0 index && is_ascii_digit c
    || nat_beq c hyphen
    || nat_beq c underscore
    || allow_dot && nat_beq c dot

abbrev pub valid_pattern_part : Text → Bool → Bool
valid_pattern_part part allow_dot =
    if is_empty part || starts_with_separator part || contains_dots part
    then false
    else all_from (is_pattern_character allow_dot) 0 part && not (ends_with_separator part)

-- The segments that the loop of `parse` pushes: a literal for each part, if it is not empty, and a
-- wildcard behind each.
pub push_parts : List Text → List PatternSegment
push_parts [] = []
push_parts (part ∷ parts) =
    if is_empty part
    then wildcard ∷ push_parts parts
    else literal part ∷ wildcard ∷ push_parts parts

-- `Vec::pop`.
abbrev pub pop : List PatternSegment → List PatternSegment
pop [] = []
pop (s ∷ []) = []
pop (s ∷ t ∷ ss) = s ∷ pop (t ∷ ss)

unfoldable pub pattern_of : Text → RulePattern
pattern_of selector = record {
  segments = pop (push_parts (split star selector));
  ends_with_wildcard = ends_with_char star selector;
}

abbrev pub parse_parts : Text → Option (Text × Text) → Result RulePattern Text
parse_parts selector none = err selector
parse_parts selector (some (provider, name)) =
    if contains_char colon name
      || not (valid_pattern_part provider false)
      || not (valid_pattern_part name true)
    then err selector
    else ok (pattern_of selector)

unfoldable pub parse_pattern : Text → Result RulePattern Text
parse_pattern selector = parse_parts selector (split_once colon selector)

-- The loop of `matches` over the segments, with their number, from an index and a position on.
pub match_loop : ℕ → Bool → ℕ → ℕ → List PatternSegment → Text → Bool
match_loop count ends index pos [] id = true
match_loop count ends index pos (wildcard ∷ segments) id =
    match_loop count ends (suc index) pos segments id
match_loop count ends index pos (literal l ∷ segments) id =
    if nat_beq index 0
    then starts_with l id && match_loop count ends (suc index) (length l) segments id
    else if nat_beq index (count - 1) && not ends
    then ends_with l (drop pos id) && match_loop count ends (suc index) pos segments id
    else elim (find l (drop pos id)) [
      | none ↦ false
      | some found ↦ match_loop count ends (suc index) (pos + (found + length l)) segments id
    ]

unfoldable pub matches_pattern : RulePattern → Text → Bool
matches_pattern p id = match_loop (length p.segments) p.ends_with_wildcard 0 0 p.segments id
