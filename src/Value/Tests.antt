-- ===== src/Value/Tests.antt =====
-- An arena with a value and a binding of it, and an object of one property.
use glass_lint.Prelude.{
  ℕ, zero, suc, ◌≡◌, ◌<◌, ◌≤◌, ◌⊎◌, length, refl, sym, ap, arith, some, none, [], ◌∷◌, get_elem?,
  false, inl, inr, some_injective, ◌∙◌,
}
use glass_lint.Value.{
  Value, unknown, local, static_number, binding, new_key, lexical_root, StaticProperties, insert,
  ValueId,
}
use glass_lint.Value.Arena.{ValueTable, intern_value, resolve, resolve_id, target_of}
use glass_lint.Value.Arena.Interning.{IsValid, Interns, intern_value-Interns}
use glass_lint.Value.Arena.Terminals.{follow, resolve_id-follow, resolve-direct}
use glass_lint.Value.Properties.{Written, insert-Written}

abbrev arena : ValueTable
arena = record {
  values = unknown ∷ local ∷ binding (new_key (lexical_root 0 1 0)) 1 ∷ [];
  next_object = 0;
  exhausted = false;
  terminal_cache = 0 ∷ 1 ∷ 1 ∷ [];
}

own :
    (i : ValueId) (v : Value)
    → get_elem? arena.values i ≡ some v
    → target_of v ≡ none
    → get_elem? arena.terminal_cache i ≡ some i
own zero v h direct = refl
own (suc zero) v h direct = refl
own (suc (suc zero)) v h direct = cc (sym direct ∙ sym (ap target_of (some_injective h)))
own (suc (suc (suc i))) v h direct = absurd cc

through :
    (i : ValueId) (v : Value) (target : ValueId)
    → get_elem? arena.values i ≡ some v
    → target_of v ≡ some target
    → (target < i) × (get_elem? arena.terminal_cache i ≡ get_elem? arena.terminal_cache target)
through zero v target h leads = cc (sym leads ∙ sym (ap target_of (some_injective h)))
through (suc zero) v target h leads = cc (sym leads ∙ sym (ap target_of (some_injective h)))
through (suc (suc zero)) v target h leads =
    let one : 1 ≡ target = some_injective (ap target_of (some_injective h) ∙ leads) in
    (omega arith, ap (get_elem? arena.terminal_cache) one)
through (suc (suc (suc i))) v target h leads = absurd cc

arena-IsValid : IsValid arena
arena-IsValid = record {
  distinct = (
    λ m. elim m [ inl e ↦ cc | inr rest ↦ elim rest [ inl e ↦ cc | inr none_left ↦ none_left ] ],
    (λ m. elim m [ inl e ↦ cc | inr none_left ↦ none_left ], (λ m. m, tt)),
  );
  bounded = omega arith;
  covered = refl;
  first = refl;
  own = own;
  through = through;
}

resolve_id-follow_example : resolve_id 2 arena ≡ follow 3 2 arena
resolve_id-follow_example = resolve_id-follow arena arena-IsValid 2

resolve-direct_example :
    (2 < length arena.values)
      × ((value : Value) × (resolve 2 arena ≡ some value) × (target_of value ≡ none))
    ⊎ (length arena.values ≤ 2) × (resolve 2 arena ≡ none)
resolve-direct_example = resolve-direct arena arena-IsValid 2

intern_value-Interns_example :
    Interns (static_number 7) arena (intern_value (static_number 7) arena)
intern_value-Interns_example = intern_value-Interns (static_number 7) arena arena-IsValid

abbrev properties : StaticProperties ℕ
properties = record { entries = (3, 8) ∷ [] }

insert-Written_example : Written 3 9 properties (insert 3 9 properties)
insert-Written_example = insert-Written 3 9 properties
