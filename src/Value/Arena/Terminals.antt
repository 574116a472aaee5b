-- ===== src/Value/Arena/Terminals.antt =====
-- The terminal of an identifier is the end of its chain of bindings.
use glass_lint.Prelude.{
  ℕ, zero, suc, ◌+◌, ◌≡◌, ◌<◌, ◌≤◌, sym, ap, ◌∙◌, arith, inl, inr, ◌⊎◌, Option, none, some, length,
  get_elem?, Option-cases, get_elem?-beyond, lt_of_get_elem?, some_injective,
}
use glass_lint.Value.{Value, ValueId}
use glass_lint.Value.Arena.{ValueTable, target_of, get, resolve_id, resolve}
use glass_lint.Value.Arena.Interning.{IsValid, length_le}

-- The chain of bindings, followed for a number of steps.
pub follow : ℕ → ValueId → ValueTable → Option ValueId
follow zero id t = none
follow (suc fuel) id t = elim (get id t) [
  | none ↦ none
  | some v ↦ elim (target_of v) [ none ↦ some id | some target ↦ follow fuel target t ]
]

module _ (t : ValueTable) where
  -- A chain ends at a value that is no binding.
  follow-direct :
      (fuel : ℕ) (id end : ValueId)
      → follow fuel id t ≡ some end
      → (value : Value) × (get end t ≡ some value) × (target_of value ≡ none)
  unfolding follow
  follow-direct zero id end h = cc
  follow-direct (suc fuel) id end h = elim (Option-cases (get id t)) [
    | inl missing ↦ cc (rw (missing, follow) at h)
    | inr (value, at) ↦ elim (Option-cases (target_of value)) [
      | inl direct ↦
          let same : id ≡ end = some_injective (rw direct at (rw (at, follow) at h)) in
          (value, ap (λ i. get i t) (sym same) ∙ at, direct)
      | inr (target, leads) ↦ follow-direct fuel target end (rw leads at (rw (at, follow) at h))
    ]
  ]

module _ (t : ValueTable) (v : IsValid t) where
  follow_lem : (fuel : ℕ) (id : ValueId) → id < fuel → follow fuel id t ≡ resolve_id id t
  unfolding follow get resolve_id
  follow_lem zero id h = absurd (omega arith)
  follow_lem (suc fuel) id h = elim (Option-cases (get_elem? t.values id)) [
    | inl missing ↦
        rw (missing, follow)
          (sym (
            get_elem?-beyond t.terminal_cache id
              (omega (arith, length_le t.values id missing, v.covered))))
    | inr (value, at) ↦ elim (Option-cases (target_of value)) [
      | inl direct ↦ rw (at, follow) (rw direct (sym (v.own id value at direct)))
      | inr (target, leads) ↦
          let (earlier, shared) = v.through id value target at leads in
          rw (at, follow)
            (rw leads (follow_lem fuel target (omega (arith, earlier, h)) ∙ sym shared))
    ]
  ]

  -- On a valid arena `resolve_id`, which reads a cache, is the end of the chain of bindings from the
  -- identifier on, for which one more step than the identifier is always enough.
  pub resolve_id-follow : (id : ValueId) → resolve_id id t ≡ follow (id + 1) id t
  resolve_id-follow id = sym (follow_lem (id + 1) id (omega arith))

  -- On a valid arena `resolve` answers for an identifier that exists, with a value that is no
  -- binding, and does not answer for one that does not exist.
  pub resolve-direct :
      (id : ValueId)
      → (id < length t.values)
          × ((value : Value) × (resolve id t ≡ some value) × (target_of value ≡ none))
        ⊎ (length t.values ≤ id) × (resolve id t ≡ none)
  unfolding resolve resolve_id
  resolve-direct id = elim (Option-cases (get_elem? t.terminal_cache id)) [
    | inl missing ↦
        inr (omega (arith, length_le t.terminal_cache id missing, v.covered), rw missing)
    | inr (end, at) ↦
        let (value, stands, direct) =
          follow-direct t (id + 1) id end (sym (resolve_id-follow id) ∙ at) in
        let small = lt_of_get_elem? t.terminal_cache id at in
        inl (omega (arith, small, v.covered), (value, rw at stands, direct))
  ]
