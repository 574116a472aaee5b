-- ===== src/Projector/Aliases/Counted.antt =====
-- The reference counts of an alias table follow from its aliases.
use glass_lint.Prelude.{◌+◌, ◌-◌, ◌≡◌, refl, sym, ap, ◌∙◌, inl, inr, arith}
use glass_lint.Prelude.{true, some, List, nat_eq, Option-cases, ◌↔◌, ◌<◌}
use glass_lint.Prelude.Order.{nat_ord}
use glass_lint.Prelude.Sorted.{get, put, delete, binary_search_by_key}
use glass_lint.Prelude.Sorted.Maps.{IsMap, put-IsMap, delete-IsMap}
use glass_lint.Prelude.Sorted.Extensional.{map_ext}
use glass_lint.Flow.State.{FlowObjectId}
use glass_lint.Projector.Aliases.{
  ValueId, AliasTable, no_aliases, decrement, release, set_alias, remove_alias, contains_object,
}
use glass_lint.Projector.Aliases.Counts.{
  one_if, aliases_of, counted, Counts, aliases_of-put_new, aliases_of-put_old, aliases_of-delete,
  counted_zero, counted_some, one_if_same, increment-Counts, decrement-Counts,
}

pub record IsCounted (t : AliasTable) : Type 0 where
  pub sorted : IsMap t.values
  pub refs : Counts t.object_refs (λ object. aliases_of object t.values)

pub aliases_of_pos :
    (value : ValueId) (o : FlowObjectId) (values : List (ValueId × FlowObjectId))
    → IsMap values
    → get value values ≡ some o
    → 0 < aliases_of o values
aliases_of_pos value o values sorted at =
    omega (arith, aliases_of-delete value o values sorted o at o, one_if_same o o refl)

module _ (t : AliasTable) (valid : IsCounted t) where
  pub set_alias-IsCounted :
      (value : ValueId) (object : FlowObjectId) → IsCounted (set_alias value object t).0
  unfolding set_alias release
  set_alias-IsCounted value object = elim (Option-cases (get value t.values)) [
    | inl new ↦ record {
      sorted = put-IsMap value object t.values valid.sorted;
      refs =
          rw (new, release)
            (increment-Counts object t.object_refs (λ o. aliases_of o t.values)
              (λ o. aliases_of o (put value object t.values)) valid.refs
              (aliases_of-put_new value object t.values valid.sorted new));
    }
    | inr (old, at) ↦ record {
      sorted = put-IsMap value object t.values valid.sorted;
      refs =
          let some_left = aliases_of_pos value old t.values valid.sorted at in
          rw (at, release)
            (increment-Counts object (decrement old t.object_refs)
              (λ o. aliases_of o t.values - one_if old o)
              (λ o. aliases_of o (put value object t.values))
              (decrement-Counts old t.object_refs (λ o. aliases_of o t.values)
                (λ o. aliases_of o t.values - one_if old o) valid.refs some_left
                (λ o. left_over value old o at))
              (λ o. omega (
                arith,
                aliases_of-put_old value object t.values valid.sorted old at o,
                left_over value old o at,
              )));
    }
  ]
    where
      left_over :
          (value : ValueId) (old o : FlowObjectId)
          → get value t.values ≡ some old
          → aliases_of o t.values - one_if old o + one_if old o ≡ aliases_of o t.values
      left_over value old o at =
          omega (arith, aliases_of-delete value 0 t.values valid.sorted old at o)

  pub remove_alias-IsCounted : (value : ValueId) → IsCounted (remove_alias value t).0
  unfolding remove_alias
  remove_alias-IsCounted value = elim (Option-cases (get value t.values)) [
    | inl nothing ↦ rw (nothing, remove_alias) valid
    | inr (old, at) ↦
        rw (at, remove_alias)
          record {
            sorted = delete-IsMap value 0 t.values valid.sorted;
            refs =
                decrement-Counts old t.object_refs (λ o. aliases_of o t.values)
                  (λ o. aliases_of o (delete value t.values)) valid.refs
                  (aliases_of_pos value old t.values valid.sorted at)
                  (aliases_of-delete value 0 t.values valid.sorted old at);
          }
  ]

  -- In a table whose counts follow from its aliases, `contains_object` holds exactly for the objects
  -- that some value aliases.
  pub contains_object-aliases :
      (o : FlowObjectId) → (contains_object o t ≡ true) ↔ (0 < aliases_of o t.values)
  unfolding contains_object
  contains_object-aliases o = elim (Option-cases (get o t.object_refs)) [
    | inl nothing ↦
        let none_left =
          counted_zero (aliases_of o t.values) (sym (valid.refs.counts o) ∙ nothing) in
        rw (nothing, contains_object) (λ h. cc, λ h. absurd (omega arith))
    | inr (n, at) ↦
        let left = counted_some (aliases_of o t.values) n (sym (valid.refs.counts o) ∙ at) in
        rw (at, contains_object) (λ h. omega arith, λ h. refl)
  ]

pub no_aliases-IsCounted : IsCounted no_aliases
unfolding get binary_search_by_key aliases_of
no_aliases-IsCounted = record { sorted = tt; refs = record { sorted = tt; counts = λ o. refl } }

pub set_alias-values :
    (value : ValueId) (object : FlowObjectId) (t : AliasTable)
    → (set_alias value object t).0.values ≡ put value object t.values
unfolding set_alias
set_alias-values value object t = refl

pub set_alias-previous :
    (value : ValueId) (object : FlowObjectId) (t : AliasTable)
    → (set_alias value object t).1 ≡ get value t.values
unfolding set_alias
set_alias-previous value object t = refl

pub remove_alias-values :
    (value : ValueId) (t : AliasTable) {object : FlowObjectId}
    → get value t.values ≡ some object
    → (remove_alias value t).0.values ≡ delete value t.values
unfolding remove_alias
remove_alias-values value t at = rw (at, remove_alias)

pub remove_alias-object :
    (value : ValueId) (t : AliasTable) → (remove_alias value t).1 ≡ get value t.values
unfolding remove_alias
remove_alias-object value t = elim (Option-cases (get value t.values)) [
  | inl nothing ↦ rw (nothing, remove_alias)
  | inr (object, at) ↦ rw (at, remove_alias)
]

-- Tables with the same aliases have the same counts.
pub AliasTable_ext : (s t : AliasTable) → IsCounted s → IsCounted t → s.values ≡ t.values → s ≡ t
AliasTable_ext s t sv tv h =
    let refs : s.object_refs ≡ t.object_refs =
      map_ext s.object_refs t.object_refs sv.refs.sorted tv.refs.sorted
        (λ o. sv.refs.counts o ∙ ap (λ vs. counted (aliases_of o vs)) h ∙ sym (tv.refs.counts o)) in
    λ z. record { values = h z; object_refs = refs z }
