-- ===== src/Limits/Builders.antt =====
-- The builders set their own field only, and refuse exactly zero.
use glass_lint.Prelude.{
  ℕ, ◌≡◌, ◌≢◌, refl, Option, none, some, nat_beq, if◌then◌else◌, Result, ok, err, arith,
}
use glass_lint.Prelude.{List, [], ◌∷◌, set, ◌∙◌, Bool-cases, inl, inr, nat_beq_iff}
use glass_lint.Limits.{
  AnalysisLimits, AnalysisLimitError, non_zero, validated, with_limit, Raw, given, deserialize,
}
use glass_lint.Limits.{
  syntax_depth_zero, semantic_operations_zero, effect_operations_zero, evidence_items_zero,
  link_operations_zero, flow_operations_zero, trace_nodes_zero,
}
use glass_lint.Limits.{
  with_syntax_depth, with_semantic_operations, with_effect_operations, with_evidence_items,
}
use glass_lint.Limits.{with_link_operations, with_flow_operations, with_trace_nodes}

-- A field by its name: its error, its getter and its builder.
pub data Field : Type 0 where
  syntax_depth : Field
  semantic_operations : Field
  effect_operations : Field
  evidence_items : Field
  link_operations : Field
  flow_operations : Field
  trace_nodes : Field

abbrev pub error_of : Field → AnalysisLimitError
error_of syntax_depth = syntax_depth_zero
error_of semantic_operations = semantic_operations_zero
error_of effect_operations = effect_operations_zero
error_of evidence_items = evidence_items_zero
error_of link_operations = link_operations_zero
error_of flow_operations = flow_operations_zero
error_of trace_nodes = trace_nodes_zero

abbrev pub position : Field → ℕ
position syntax_depth = 0
position semantic_operations = 1
position effect_operations = 2
position evidence_items = 3
position link_operations = 4
position flow_operations = 5
position trace_nodes = 6

abbrev pub fields : AnalysisLimits → List ℕ
fields l =
    l.syntax_depth ∷ l.semantic_operations ∷ l.effect_operations ∷ l.evidence_items
    ∷ l.link_operations ∷ l.flow_operations ∷ l.trace_nodes ∷ []

abbrev pub with_field : Field → ℕ → AnalysisLimits → Result AnalysisLimits AnalysisLimitError
with_field syntax_depth = with_syntax_depth
with_field semantic_operations = with_semantic_operations
with_field effect_operations = with_effect_operations
with_field evidence_items = with_evidence_items
with_field link_operations = with_link_operations
with_field flow_operations = with_flow_operations
with_field trace_nodes = with_trace_nodes

abbrev assign : Field → AnalysisLimits → ℕ → AnalysisLimits
assign syntax_depth l v = record l { syntax_depth = v }
assign semantic_operations l v = record l { semantic_operations = v }
assign effect_operations l v = record l { effect_operations = v }
assign evidence_items l v = record l { evidence_items = v }
assign link_operations l v = record l { link_operations = v }
assign flow_operations l v = record l { flow_operations = v }
assign trace_nodes l v = record l { trace_nodes = v }

with_field-with_limit :
    (f : Field) (v : ℕ) (l : AnalysisLimits)
    → with_field f v l ≡ with_limit v (error_of f) (assign f) l
unfolding with_syntax_depth with_semantic_operations with_effect_operations with_evidence_items
    with_link_operations with_flow_operations with_trace_nodes
with_field-with_limit syntax_depth v l = refl
with_field-with_limit semantic_operations v l = refl
with_field-with_limit effect_operations v l = refl
with_field-with_limit evidence_items v l = refl
with_field-with_limit link_operations v l = refl
with_field-with_limit flow_operations v l = refl
with_field-with_limit trace_nodes v l = refl

fields-assign :
    (f : Field) (v : ℕ) (l : AnalysisLimits) → fields (assign f l v) ≡ set (fields l) (position f) v
fields-assign syntax_depth v l = refl
fields-assign semantic_operations v l = refl
fields-assign effect_operations v l = refl
fields-assign evidence_items v l = refl
fields-assign link_operations v l = refl
fields-assign flow_operations v l = refl
fields-assign trace_nodes v l = refl

-- A builder's outcome: its error at zero; else the limits with this one field set.
pub data Built (f : Field) (v : ℕ) (l : AnalysisLimits)
    (r : Result AnalysisLimits AnalysisLimitError) : Type 0 where
  refused : v ≡ 0 → r ≡ err (error_of f) → Built f v l r
  set_field :
      (l' : AnalysisLimits)
      → v ≢ 0
      → r ≡ ok l'
      → fields l' ≡ set (fields l) (position f) v
      → Built f v l r

with_limit_lem :
    (v : ℕ) (e : AnalysisLimitError) (a : AnalysisLimits → ℕ → AnalysisLimits) (l : AnalysisLimits)
    → with_limit v e a l ≡ (if nat_beq v 0 then err e else ok (a l v))
unfolding with_limit validated
with_limit_lem v e a l = elim (Bool-cases (nat_beq v 0)) [
  | inl z ↦ rw (z, non_zero) refl
  | inr p ↦ rw (p, non_zero) refl
]

-- Each builder returns its own error at zero; at any other value it sets its field and no other.
with_field-Built : (f : Field) (v : ℕ) (l : AnalysisLimits) → Built f v l (with_field f v l)
with_field-Built f v l =
    let through = with_field-with_limit f v l ∙ with_limit_lem v (error_of f) (assign f) l in
    elim (Bool-cases (nat_beq v 0)) [
      | inl z ↦ refused ((nat_beq_iff v 0).0 z) (through ∙ (rw z))
      | inr p ↦
          set_field (assign f l v) (λ e. ground (arith, e, p)) (through ∙ (rw p))
            (fields-assign f v l)
    ]

-- The error of the first field that is zero, in the order of the record.
abbrev pub first_zero : List (ℕ × AnalysisLimitError) → Option AnalysisLimitError
first_zero [] = none
first_zero ((v, e) ∷ rest) = if nat_beq v 0 then some e else first_zero rest

abbrev pub checks : AnalysisLimits → List (ℕ × AnalysisLimitError)
checks l =
    (l.syntax_depth, syntax_depth_zero)
    ∷ (l.semantic_operations, semantic_operations_zero)
    ∷ (l.effect_operations, effect_operations_zero)
    ∷ (l.evidence_items, evidence_items_zero)
    ∷ (l.link_operations, link_operations_zero)
    ∷ (l.flow_operations, flow_operations_zero)
    ∷ (l.trace_nodes, trace_nodes_zero)
    ∷ []

abbrev pub outcome :
    AnalysisLimits → Option AnalysisLimitError → Result AnalysisLimits AnalysisLimitError
outcome l none = ok l
outcome l (some e) = err e

-- `deserialize` returns the given fields, the defaults for those left out, if none is zero; else
-- the error of the first that is.
pub deserialize-first_zero :
    (raw : Raw) → deserialize raw ≡ outcome (given raw) (first_zero (checks (given raw)))
unfolding deserialize with_syntax_depth with_semantic_operations with_effect_operations
    with_evidence_items with_link_operations with_flow_operations with_trace_nodes with_limit
    validated
deserialize-first_zero raw = ground arith
