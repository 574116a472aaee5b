-- ===== src/Flow/Limits/Scaled.antt =====
-- The scaled limits: their values at the default, and how they grow.
use glass_lint.Prelude.{ℕ, ◌*◌, ◌/◌, ◌≤◌, ◌≡◌, arith, usize_max, u32_max, u32_try_from}
use glass_lint.Flow.Limits.{
  FlowLimits, scaled_limit, from_flow_operations, default_flow_operations, default_objects,
  default_states, default_emissions, default_mutations, default_alternatives, min_objects,
  min_states, min_emissions, min_mutations, min_alternatives, checked_mul, map_or, clamp,
  or_u32_max,
}

-- The least and the largest value.
pub scaled_limit_bounds :
    (default n minimum maximum : ℕ)
    → minimum ≤ maximum
    → (minimum ≤ scaled_limit default n minimum maximum)
      × (scaled_limit default n minimum maximum ≤ maximum)
unfolding scaled_limit
scaled_limit_bounds default n minimum maximum h = ground arith

quotient : ℕ → ℕ → ℕ
quotient default n =
    map_or usize_max (λ product. product / default_flow_operations) (checked_mul default n)

quotient_mono :
    (default n m : ℕ) → default * n ≤ default * m → quotient default n ≤ quotient default m
unfolding quotient
quotient_mono default n m h = ground arith

clamp_mono : (a b x y : ℕ) → x ≤ y → a ≤ b → clamp a b x ≤ clamp a b y
clamp_mono a b x y h k = ground arith

scaled_limit_mono :
    (default n m minimum maximum : ℕ)
    → default * n ≤ default * m
    → minimum ≤ maximum
    → scaled_limit default n minimum maximum ≤ scaled_limit default m minimum maximum
unfolding scaled_limit quotient
scaled_limit_mono default n m minimum maximum h k =
    clamp_mono minimum maximum (quotient default n) (quotient default m)
      (quotient_mono default n m h) k

objects_lem : (x : ℕ) → x ≤ u32_max → or_u32_max (u32_try_from x) ≡ x
objects_lem x h = ground arith

-- The limits of `a` are at most those of `b`.
pub record AreWithin (a b : FlowLimits) : Type 0 where
  pub objects : a.objects ≤ b.objects
  pub states : a.states ≤ b.states
  pub emissions : a.emissions ≤ b.emissions
  pub mutation : a.mutation ≤ b.mutation
  pub alternatives : a.alternatives ≤ b.alternatives
  pub operations : a.operations ≤ b.operations

-- More operations granted never lower any of the limits, also where a product overflows.
pub from_flow_operations_mono :
    (n m : ℕ) → n ≤ m → AreWithin (from_flow_operations n) (from_flow_operations m)
unfolding from_flow_operations
from_flow_operations_mono n m h =
    let small : (x : ℕ) → scaled_limit default_objects x min_objects u32_max ≤ u32_max =
      λ x. (scaled_limit_bounds default_objects x min_objects u32_max (omega arith)).1 in
    record {
      objects = omega (
        arith,
        objects_lem _ (small n),
        objects_lem _ (small m),
        scaled_limit_mono default_objects n m min_objects u32_max (omega arith) (omega arith),
      );
      states =
          scaled_limit_mono default_states n m min_states usize_max (omega arith) (omega arith);
      emissions =
          scaled_limit_mono default_emissions n m min_emissions usize_max (omega arith)
            (omega arith);
      mutation =
          scaled_limit_mono default_mutations n m min_mutations usize_max (omega arith)
            (omega arith);
      alternatives =
          scaled_limit_mono default_alternatives n m min_alternatives usize_max (omega arith)
            (omega arith);
      operations = h;
    }
