-- ===== src/Limits.antt =====
-- glass-lint-core/src/limits.rs: the validated bounds on parsing, analysis and project sources.
-- `NonZeroUsize` is the number it holds; `non_zero` is its constructor.
mod Tests
mod Builders
use glass_lint.Prelude.{
  ℕ, ◌*◌, Option, none, some, nat_beq, if◌then◌else◌, Result, ok, err, and_then, ok_or,
}

abbrev pub non_zero : ℕ → Option ℕ
non_zero n = if nat_beq n 0 then none else some n

pub data AnalysisLimitError : Type 0 where
  syntax_depth_zero : AnalysisLimitError
  semantic_operations_zero : AnalysisLimitError
  effect_operations_zero : AnalysisLimitError
  evidence_items_zero : AnalysisLimitError
  link_operations_zero : AnalysisLimitError
  flow_operations_zero : AnalysisLimitError
  trace_nodes_zero : AnalysisLimitError

pub record AnalysisLimits : Type 0 where
  pub syntax_depth : ℕ
  pub semantic_operations : ℕ
  pub effect_operations : ℕ
  pub evidence_items : ℕ
  pub link_operations : ℕ
  pub flow_operations : ℕ
  pub trace_nodes : ℕ

pub data ProjectAdmissionLimitError : Type 0 where
  max_sources_zero : ProjectAdmissionLimitError
  max_source_bytes_zero : ProjectAdmissionLimitError

pub record ProjectAdmissionLimits : Type 0 where
  pub max_sources : ℕ
  pub max_source_bytes : ℕ

abbrev pub default_project : ProjectAdmissionLimits
default_project = record { max_sources = 10000; max_source_bytes = 512 * 1024 * 1024 }

abbrev pub new : ℕ → ℕ → Result ProjectAdmissionLimits ProjectAdmissionLimitError
new max_sources max_source_bytes =
    and_then (ok_or (non_zero max_sources) max_sources_zero) (λ sources.
      and_then (ok_or (non_zero max_source_bytes) max_source_bytes_zero)
        (λ bytes. ok (record { max_sources = sources; max_source_bytes = bytes })))

abbrev pub with_max_sources :
    ℕ → ProjectAdmissionLimits → Result ProjectAdmissionLimits ProjectAdmissionLimitError
with_max_sources value l = new value l.max_source_bytes

abbrev pub with_max_source_bytes :
    ℕ → ProjectAdmissionLimits → Result ProjectAdmissionLimits ProjectAdmissionLimitError
with_max_source_bytes value l = new l.max_sources value

abbrev pub default : AnalysisLimits
default = record {
  syntax_depth = 512;
  semantic_operations = 1048576;
  effect_operations = 65536;
  evidence_items = 65536;
  link_operations = 1000000;
  flow_operations = 262144;
  trace_nodes = 65536;
}

pub validated : ℕ → AnalysisLimitError → Result ℕ AnalysisLimitError
validated value error = ok_or (non_zero value) error

pub with_limit :
    ℕ
    → AnalysisLimitError
    → (AnalysisLimits → ℕ → AnalysisLimits)
    → AnalysisLimits
    → Result AnalysisLimits AnalysisLimitError
with_limit value error assign l = and_then (validated value error) (λ limit. ok (assign l limit))

pub with_syntax_depth : ℕ → AnalysisLimits → Result AnalysisLimits AnalysisLimitError
with_syntax_depth value l =
    with_limit value syntax_depth_zero (λ this limit. record this { syntax_depth = limit }) l

pub with_semantic_operations : ℕ → AnalysisLimits → Result AnalysisLimits AnalysisLimitError
with_semantic_operations value l =
    with_limit value semantic_operations_zero
      (λ this limit. record this { semantic_operations = limit }) l

pub with_effect_operations : ℕ → AnalysisLimits → Result AnalysisLimits AnalysisLimitError
with_effect_operations value l =
    with_limit value effect_operations_zero
      (λ this limit. record this { effect_operations = limit }) l

pub with_evidence_items : ℕ → AnalysisLimits → Result AnalysisLimits AnalysisLimitError
with_evidence_items value l =
    with_limit value evidence_items_zero (λ this limit. record this { evidence_items = limit }) l

pub with_link_operations : ℕ → AnalysisLimits → Result AnalysisLimits AnalysisLimitError
with_link_operations value l =
    with_limit value link_operations_zero (λ this limit. record this { link_operations = limit }) l

pub with_flow_operations : ℕ → AnalysisLimits → Result AnalysisLimits AnalysisLimitError
with_flow_operations value l =
    with_limit value flow_operations_zero (λ this limit. record this { flow_operations = limit }) l

pub with_trace_nodes : ℕ → AnalysisLimits → Result AnalysisLimits AnalysisLimitError
with_trace_nodes value l =
    with_limit value trace_nodes_zero (λ this limit. record this { trace_nodes = limit }) l

-- The fields of a configuration; one that is left out has its default.
pub record Raw : Type 0 where
  pub syntax_depth : Option ℕ
  pub semantic_operations : Option ℕ
  pub effect_operations : Option ℕ
  pub evidence_items : Option ℕ
  pub link_operations : Option ℕ
  pub flow_operations : Option ℕ
  pub trace_nodes : Option ℕ

abbrev pub unwrap_or : Option ℕ → ℕ → ℕ
unwrap_or none d = d
unwrap_or (some n) d = n

abbrev pub given : Raw → AnalysisLimits
given raw = record {
  syntax_depth = unwrap_or raw.syntax_depth default.syntax_depth;
  semantic_operations = unwrap_or raw.semantic_operations default.semantic_operations;
  effect_operations = unwrap_or raw.effect_operations default.effect_operations;
  evidence_items = unwrap_or raw.evidence_items default.evidence_items;
  link_operations = unwrap_or raw.link_operations default.link_operations;
  flow_operations = unwrap_or raw.flow_operations default.flow_operations;
  trace_nodes = unwrap_or raw.trace_nodes default.trace_nodes;
}

-- `deserialize`, from the fields on that serde has read.
pub deserialize : Raw → Result AnalysisLimits AnalysisLimitError
deserialize raw =
    let r = given raw in
    let l1 = with_syntax_depth r.syntax_depth default in
    let l2 = and_then l1 (with_semantic_operations r.semantic_operations) in
    let l3 = and_then l2 (with_effect_operations r.effect_operations) in
    let l4 = and_then l3 (with_evidence_items r.evidence_items) in
    let l5 = and_then l4 (with_link_operations r.link_operations) in
    let l6 = and_then l5 (with_flow_operations r.flow_operations) in
    and_then l6 (with_trace_nodes r.trace_nodes)
