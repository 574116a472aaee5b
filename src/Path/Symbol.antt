-- ===== src/Path/Symbol.antt =====
-- glass-lint-datastructures/src/path/name_path.rs: paths of names, and their dotted text.
pub mod Split
mod Trim
pub mod RoundTrip
use glass_lint.Prelude.{ℕ, Bool, true, false, Option, none, some, List, [], ◌∷◌, ◌++◌, map}
use glass_lint.Prelude.{Eq, ◌==◌, list_eq, Text, split, join, trim, filter_nonempty, if◌then◌else◌}
use glass_lint.Prelude.{nat_beq, drop, nat_eq, list_beq}

abbrev pub SymbolPath : Type 0
SymbolPath = List Text

abbrev pub dot : ℕ
dot = b'.'

pub from_chain : Text → SymbolPath
from_chain chain = filter_nonempty (map trim (split dot chain))

abbrev pub from_segments : List Text → SymbolPath
from_segments segments = segments

-- `impl fmt::Display`.
pub display : SymbolPath → Text
display path = join dot path

pub eq_chain : Text → SymbolPath → Bool
eq_chain chain path = path == split dot chain

-- `suffix.strip_prefix('.').unwrap_or(suffix)`.
pub strip_dot : Text → Text
strip_dot [] = []
strip_dot (c ∷ cs) = if nat_beq c dot then cs else c ∷ cs

pub append_chain : Text → SymbolPath → SymbolPath
append_chain suffix path = path ++ filter_nonempty (split dot (strip_dot suffix))

-- The texts "this" and "bind".
abbrev pub this : Text
this = 116 ∷ 104 ∷ 105 ∷ 115 ∷ []

abbrev pub bind : Text
bind = 98 ∷ 105 ∷ 110 ∷ 100 ∷ []

abbrev pub without_this_prefix : SymbolPath → SymbolPath
without_this_prefix [] = []
without_this_prefix (first ∷ rest) = if first == this then rest else first ∷ rest

abbrev pub without_bind_suffix : SymbolPath → Option SymbolPath
without_bind_suffix path = elim (glass_lint.Path.last_segment path) [
  | none ↦ none
  | some last ↦ if last == bind then glass_lint.Path.without_last_segment path else none
]
