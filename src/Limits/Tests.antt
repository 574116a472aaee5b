-- ===== src/Limits/Tests.antt =====
-- Limits built and read.
use glass_lint.Prelude.{◌≡◌, none, some}
use glass_lint.Limits.{Raw, given, deserialize}
use glass_lint.Limits.Builders.{first_zero, checks, outcome, deserialize-first_zero}

abbrev partial : Raw
partial = record {
  syntax_depth = some 64;
  semantic_operations = none;
  effect_operations = some 0;
  evidence_items = none;
  link_operations = some 0;
  flow_operations = none;
  trace_nodes = some 9;
}

deserialize-first_zero_example :
    deserialize partial ≡ outcome (given partial) (first_zero (checks (given partial)))
deserialize-first_zero_example = deserialize-first_zero partial
