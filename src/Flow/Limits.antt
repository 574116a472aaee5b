-- ===== src/Flow/Limits.antt =====
-- glass-lint-core/src/analysis/model/flow/limits.rs: the limits of one flow scope, scaled by the
-- operations that it is granted.
pub mod Scaled
use glass_lint.Prelude.{ℕ, ◌*◌, ◌/◌, Option, none, some, leb, ltb, if◌then◌else◌}
use glass_lint.Prelude.{usize_max, u32_max, u32_try_from}

pub record FlowLimits : Type 0 where
  pub objects : ℕ
  pub states : ℕ
  pub emissions : ℕ
  pub mutation : ℕ
  pub alternatives : ℕ
  pub operations : ℕ

abbrev pub default_objects : ℕ
default_objects = 65536

abbrev pub default_states : ℕ
default_states = 262144

abbrev pub default_emissions : ℕ
default_emissions = 65536

abbrev pub default_mutations : ℕ
default_mutations = 4096

abbrev pub default_flow_operations : ℕ
default_flow_operations = 262144

abbrev pub min_objects : ℕ
min_objects = 1024

abbrev pub min_states : ℕ
min_states = 4096

abbrev pub min_emissions : ℕ
min_emissions = 1024

abbrev pub min_mutations : ℕ
min_mutations = 256

abbrev pub default_alternatives : ℕ
default_alternatives = 4096

abbrev pub min_alternatives : ℕ
min_alternatives = 16

-- `u64::checked_mul`; a `u64` has the range of a `usize`.
abbrev pub checked_mul : ℕ → ℕ → Option ℕ
checked_mul a b = if leb (a * b) usize_max then some (a * b) else none

-- `Option::map_or`.
abbrev pub map_or : ℕ → (ℕ → ℕ) → Option ℕ → ℕ
map_or default f none = default
map_or default f (some a) = f a

-- `Ord::clamp`.
abbrev pub clamp : ℕ → ℕ → ℕ → ℕ
clamp minimum maximum n = if ltb n minimum then minimum else if ltb maximum n then maximum else n

pub scaled_limit : ℕ → ℕ → ℕ → ℕ → ℕ
scaled_limit default flow_operations minimum maximum = clamp minimum maximum (
    map_or usize_max (λ product. product / default_flow_operations)
      (checked_mul default flow_operations))

-- `unwrap_or(u32::MAX)`.
abbrev pub or_u32_max : Option ℕ → ℕ
or_u32_max none = u32_max
or_u32_max (some n) = n

pub from_flow_operations : ℕ → FlowLimits
from_flow_operations flow_operations = record {
  objects =
      or_u32_max (u32_try_from (scaled_limit default_objects flow_operations min_objects u32_max));
  states = scaled_limit default_states flow_operations min_states usize_max;
  emissions = scaled_limit default_emissions flow_operations min_emissions usize_max;
  mutation = scaled_limit default_mutations flow_operations min_mutations usize_max;
  alternatives = scaled_limit default_alternatives flow_operations min_alternatives usize_max;
  operations = flow_operations;
}
