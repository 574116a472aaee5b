-- ===== src/RuleId.antt =====
-- glass-lint-core/src/rule_id.rs: rule identifiers `provider:name`.
mod Tests
mod Parts
use glass_lint.Prelude.{
  ℕ, suc, Text, List, [], ◌∷◌, ◌++◌, Bool, true, false, not, ◌&&◌, ◌||◌, Option, none, some,
}
use glass_lint.Prelude.{ltb, leb, nat_beq, if◌then◌else◌, Result, ok, err, is_empty}

abbrev pub colon : ℕ
colon = 0x3a

abbrev pub hyphen : ℕ
hyphen = 0x2d

abbrev pub underscore : ℕ
underscore = 0x5f

abbrev pub dot : ℕ
dot = 0x2e

abbrev pub prepend : ℕ → Option (Text × Text) → Option (Text × Text)
prepend c none = none
prepend c (some (before, after)) = some (c ∷ before, after)

-- `str::split_once`: what stands before and after the first occurrence.
unfoldable pub split_once : ℕ → Text → Option (Text × Text)
split_once sep [] = none
split_once sep (c ∷ cs) =
    let rest = split_once sep cs in if nat_beq c sep then some ([], cs) else prepend c rest

abbrev pub is_ascii_lowercase : ℕ → Bool
is_ascii_lowercase c = leb 0x61 c && leb c 0x7a

abbrev pub is_ascii_digit : ℕ → Bool
is_ascii_digit c = leb 0x30 c && leb c 0x39

-- One of `['-', '_', '.']`.
abbrev pub is_separator : ℕ → Bool
is_separator c = nat_beq c hyphen || nat_beq c underscore || nat_beq c dot

abbrev pub starts_with_separator : Text → Bool
starts_with_separator [] = false
starts_with_separator (c ∷ cs) = is_separator c

abbrev pub ends_with_separator : Text → Bool
ends_with_separator [] = false
ends_with_separator (c ∷ []) = is_separator c
ends_with_separator (c ∷ d ∷ cs) = ends_with_separator (d ∷ cs)

-- `contains("..")`.
abbrev pub contains_dots : Text → Bool
contains_dots [] = false
contains_dots (c ∷ []) = false
contains_dots (c ∷ d ∷ cs) = nat_beq c dot && nat_beq d dot || contains_dots (d ∷ cs)

abbrev pub is_part_character : Bool → ℕ → ℕ → Bool
is_part_character allow_dot index c =
    ltb 0 index && is_ascii_digit c
    || is_ascii_lowercase c
    || nat_beq c hyphen
    || nat_beq c underscore
    || allow_dot && nat_beq c dot

-- `chars().enumerate().all(test)`, from an index on.
unfoldable pub all_from : (ℕ → ℕ → Bool) → ℕ → Text → Bool
all_from test index [] = true
all_from test index (c ∷ cs) = test index c && all_from test (suc index) cs

pub valid_characters : Text → Bool → Bool
valid_characters part allow_dot = all_from (is_part_character allow_dot) 0 part

abbrev pub valid_boundaries : Text → Bool
valid_boundaries part =
    not (starts_with_separator part) && not (ends_with_separator part) && not (contains_dots part)

pub valid_part : Text → Bool → Bool
valid_part part allow_dot =
    not (is_empty part) && valid_characters part allow_dot && valid_boundaries part

pub valid_name : Text → Bool
valid_name value = valid_part value true

pub valid_provider : Text → Bool
valid_provider value = valid_part value false

-- `RuleId` and `RuleName` are the texts that they hold; an error holds the refused text.
abbrev pub new_name : Text → Result Text Text
new_name value = if valid_name value then ok value else err value

abbrev pub from_valid_provider_and_name : Text → Text → Text
from_valid_provider_and_name provider name = provider ++ colon ∷ name

pub from_provider_and_name : Text → Text → Result Text Text
from_provider_and_name provider name =
    if not (valid_provider provider) || not (valid_name name)
    then err (provider ++ colon ∷ name)
    else ok (provider ++ colon ∷ name)

abbrev pub accept : Text → Option (Text × Text) → Result Text Text
accept value none = err value
accept value (some (provider, name)) =
    if not (valid_part provider false) || not (valid_part name true) then err value else ok value

pub parse : Text → Result Text Text
parse value = accept value (split_once colon value)
