-- ===== src/Value/Arena/Interning.antt =====
-- Interning a value: what becomes of the arena, and what its terminals say.
use glass_lint.Prelude.{
  ℕ, zero, suc, ◌≡◌, ◌≤◌, ◌<◌, ◌⊎◌, refl, sym, ap, ◌∙◌, arith, inl, inr, true, Option, none, some,
  List, [], ◌∷◌, ◌++◌, length, length-append, get_elem?, leb, leb→le, leb→gt, Bool-cases,
  Option-cases, some_injective, u32_max, u32_try_from,
}
use glass_lint.Prelude.{
  ◌∈◌, IsNodup, IsNodup-append_end, get_elem?-append_left, get_elem?-append_end,
  get_elem?-append_cases, lt_of_get_elem?,
}
use glass_lint.Prelude.IndexSets.{get_index_of, get_index_of-found, get_index_of-missing}
use glass_lint.Value.{Value, unknown, ValueId, unknown_id}
use glass_lint.Value.Equal.{value_eq}
use glass_lint.Value.Arena.{
  ValueTable, default, target_of, max_values, intern_at, intern_with, or_index, intern_value, get,
}

-- No value stands twice, bindings lead to earlier values, and each value has the terminal of its
-- chain beside it.
pub record IsValid (t : ValueTable) : Type 0 where
  pub distinct : IsNodup t.values
  pub bounded : length t.values ≤ max_values
  pub covered : length t.terminal_cache ≡ length t.values
  pub first : get_elem? t.values 0 ≡ some unknown
  pub own :
      (i : ValueId) (v : Value)
      → get_elem? t.values i ≡ some v
      → target_of v ≡ none
      → get_elem? t.terminal_cache i ≡ some i
  pub through :
      (i : ValueId) (v : Value) (target : ValueId)
      → get_elem? t.values i ≡ some v
      → target_of v ≡ some target
      → (target < i) × (get_elem? t.terminal_cache i ≡ get_elem? t.terminal_cache target)

-- What interning a value does to the arena: it finds the value, adds it, or refuses it.
pub data Interns (value : Value) (t : ValueTable) : ValueTable × ValueId → Type 0 where
  known : (id : ValueId) → get id t ≡ some value → Interns value t (t, id)
  fresh :
      (u : ValueTable)
      → ¬ (value ∈ t.values)
      → length t.values < max_values
      → u.values ≡ t.values ++ value ∷ []
      → u.exhausted ≡ t.exhausted
      → IsValid u
      → Interns value t (u, length t.values)
  refused :
      (max_values ≤ length t.values) × (¬ (value ∈ t.values))
        ⊎ (target : ValueId) × (target_of value ≡ some target) × (length t.values ≤ target)
      → IsValid (record t { exhausted = true })
      → Interns value t (record t { exhausted = true }, unknown_id)

exhausted-IsValid : (t : ValueTable) → IsValid t → IsValid (record t { exhausted = true })
exhausted-IsValid t v = record {
  distinct = v.distinct;
  bounded = v.bounded;
  covered = v.covered;
  first = v.first;
  own = v.own;
  through = v.through;
}

module _ (value : Value) (t : ValueTable) (v : IsValid t) (c : ValueId) where
  abbrev pushed : ValueTable
  pushed = record t { values = t.values ++ value ∷ []; terminal_cache = t.terminal_cache ++ c ∷ [] }

  module _ (absent : ¬ (value ∈ t.values)) (room : length t.values < max_values)
      (own_terminal : target_of value ≡ none → c ≡ length t.values)
      (terminal : (target : ValueId)
        → target_of value ≡ some target
        → get_elem? t.terminal_cache target ≡ some c) where
    kept :
        (i : ℕ)
        → i < length t.values
        → get_elem? pushed.terminal_cache i ≡ get_elem? t.terminal_cache i
    kept i h = get_elem?-append_left t.terminal_cache (c ∷ []) i (omega (arith, h, v.covered))

    last : (i : ℕ) → i ≡ length t.values → get_elem? pushed.terminal_cache i ≡ some c
    last i h =
        ap (get_elem? pushed.terminal_cache) (h ∙ sym v.covered)
        ∙ get_elem?-append_end t.terminal_cache c

    pushed-IsValid : IsValid pushed
    pushed-IsValid = record {
      distinct = IsNodup-append_end t.values value v.distinct absent;
      bounded = omega (arith, length-append t.values (value ∷ []));
      covered = omega (
        arith,
        length-append t.values (value ∷ []),
        length-append t.terminal_cache (c ∷ []),
        v.covered,
      );
      first =
          get_elem?-append_left t.values (value ∷ []) 0 (lt_of_get_elem? t.values 0 v.first)
          ∙ v.first;
      own = λ i w at direct. elim (get_elem?-append_cases t.values value w i at) [
        | inl (before, small) ↦ kept i small ∙ v.own i w before direct
        | inr (end, same) ↦
            last i end ∙ ap some (own_terminal (ap target_of (sym same) ∙ direct) ∙ sym end)
      ];
      through = λ i w target at leads. elim (get_elem?-append_cases t.values value w i at) [
        | inl (before, small) ↦
            let (earlier, shared) = v.through i w target before leads in
            (earlier, kept i small ∙ shared ∙ sym (kept target (omega arith)))
        | inr (end, same) ↦
            let at_target = terminal target (ap target_of (sym same) ∙ leads) in
            let small = lt_of_get_elem? t.terminal_cache target at_target in
            (
              omega (arith, small, v.covered, end),
              last i end ∙ sym (kept target (omega (arith, small, v.covered)) ∙ at_target),
            )
      ];
    }

u32_fits : (n : ℕ) → n ≤ u32_max → u32_try_from n ≡ some n
u32_fits n h = ground arith

pub length_le : {A : Type 0} → (xs : List A) (i : ℕ) → get_elem? xs i ≡ none → length xs ≤ i
length_le [] i h = omega arith
length_le (x ∷ xs) zero h = cc
length_le (x ∷ xs) (suc i) h = omega (arith, length_le xs i h)

-- A value that the set has not got.
intern_at-Interns :
    (value : Value) (t : ValueTable) (terminal : Option ValueId)
    → IsValid t
    → (target_of value ≡ none → terminal ≡ none)
    → ((target : ValueId)
        → target_of value ≡ some target
        → (c : ValueId) × (terminal ≡ some c) × (get_elem? t.terminal_cache target ≡ some c))
    → ¬ (value ∈ t.values)
    → Interns value t (
        intern_at t value
          (or_index (length t.values) terminal)
          (length t.values)
          (u32_try_from (length t.values)))
unfolding intern_at
intern_at-Interns value t terminal v own_terminal through_terminal absent =
    let c = or_index (length t.values) terminal in
    rw (u32_fits (length t.values) (omega (arith, v.bounded)))
      (elim (Bool-cases (leb max_values (length t.values))) [
        | inl full ↦ rw full (
            refused (inl (leb→le max_values (length t.values) full, absent))
              (exhausted-IsValid t v))
        | inr room ↦
            let small = leb→gt max_values (length t.values) room in
            rw room (
              fresh (pushed value t v c) absent small refl refl (
                pushed-IsValid value t v c absent small
                  (λ direct. ap (or_index (length t.values)) (own_terminal direct))
                  (λ target leads.
                    let (d, is_d, at) = through_terminal target leads in
                    at ∙ ap some (sym (ap (or_index (length t.values)) is_d)))))
      ])

intern_with-Interns :
    (value : Value) (t : ValueTable) (terminal : Option ValueId)
    → IsValid t
    → (target_of value ≡ none → terminal ≡ none)
    → ((target : ValueId)
        → target_of value ≡ some target
        → (c : ValueId) × (terminal ≡ some c) × (get_elem? t.terminal_cache target ≡ some c))
    → Interns value t (intern_with terminal value t)
unfolding intern_with
intern_with-Interns value t terminal v own_terminal through_terminal =
    elim (Option-cases (get_index_of value t.values)) [
      | inr (idx, at) ↦
          let found = get_index_of-found value t.values at in
          let fits = u32_fits idx (omega (arith, lt_of_get_elem? t.values idx found, v.bounded)) in
          rw (at, intern_with) (rw fits (known idx (unfold get in found)))
      | inl missing ↦
          rw (missing, intern_with)
            (intern_at-Interns value t terminal v own_terminal through_terminal
              (get_index_of-missing value t.values missing))
    ]

-- On a valid arena, interning finds the value where it stands, changing nothing; or adds it at the
-- end, under the next identifier, and the arena stays valid; or refuses it with the unknown value,
-- only marking the arena exhausted, where the arena is full or the value binds an identifier that
-- does not exist.
pub intern_value-Interns :
    (value : Value) (t : ValueTable) → IsValid t → Interns value t (intern_value value t)
unfolding intern_value
intern_value-Interns value t v = elim (Option-cases (target_of value)) [
  | inl direct ↦
      rw (direct, intern_value)
        (intern_with-Interns value t none v (λ h. refl) (λ target leads. cc))
  | inr (target, leads) ↦ elim (Option-cases (get_elem? t.terminal_cache target)) [
    | inl far ↦
        rw (leads, intern_value)
          (rw (far) (
            refused
              (inr (target, leads, omega (arith, length_le t.terminal_cache target far, v.covered)))
              (exhausted-IsValid t v)))
    | inr (c, at) ↦
        rw (leads, intern_value)
          (rw at (
            intern_with-Interns value t (some c) v (λ direct. cc)
              (λ other leads_other. (
                c,
                refl,
                ap (get_elem? t.terminal_cache) (some_injective (sym leads_other ∙ leads)) ∙ at,
              ))))
  ]
]

in_default : (i : ℕ) (v : Value) → get_elem? (unknown ∷ []) i ≡ some v → (i ≡ 0) × (v ≡ unknown)
in_default zero v h = (refl, sym (some_injective h))
in_default (suc i) v h = cc

pub default-IsValid : IsValid default
unfolding default
default-IsValid = record {
  distinct = ground arith;
  bounded = omega arith;
  covered = refl;
  first = refl;
  own = λ i v at direct.
      let (zeroth, is_unknown) = in_default i v at in
      ap (get_elem? (unknown_id ∷ [])) zeroth ∙ ap some (sym zeroth);
  through = λ i v target at leads.
      let (zeroth, is_unknown) = in_default i v at in cc (sym leads ∙ ap target_of is_unknown);
}
