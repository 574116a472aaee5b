-- ===== src/Projector/Aliases/Runs.antt =====
-- Sequences of writes and removals of aliases, against the function from values to objects.
use glass_lint.Prelude.{
  ◌≡◌, ◌<◌, ◌↔◌, refl, sym, ap, ◌∙◌, inl, inr, arith, true, Option, none, some, List, [], ◌∷◌,
  nat_beq, if◌then◌else◌, Option-cases, Bool-cases, nat_beq_iff,
}
use glass_lint.Prelude.Order.{nat_ord}
use glass_lint.Prelude.Sorted.{get, put, delete, binary_search_by_key}
use glass_lint.Prelude.Sorted.Maps.{IsMap, get_hit, get-put_same, get-delete_same}
use glass_lint.Prelude.Sorted.Extensional.{get-put_other, get-delete_other, get_after, get_past}
use glass_lint.Flow.State.{FlowObjectId}
use glass_lint.Projector.Aliases.{
  ValueId, AliasTable, no_aliases, get_alias, set_alias, remove_alias, contains_object,
}
use glass_lint.Projector.Aliases.Counts.{aliases_of}
use glass_lint.Projector.Aliases.Counted.{
  IsCounted, no_aliases-IsCounted, set_alias-IsCounted, remove_alias-IsCounted, set_alias-values,
  remove_alias-values, contains_object-aliases, aliases_of_pos,
}

pub data Call : Type 0 where
  setting : ValueId → FlowObjectId → Call
  removing : ValueId → Call

pub run : List Call → AliasTable → AliasTable
run [] t = t
run (setting value object ∷ calls) t = run calls (set_alias value object t).0
run (removing value ∷ calls) t = run calls (remove_alias value t).0

-- The object that each value aliases after some calls, by the last call that names the value.
pub aliased_by : List Call → (ValueId → Option FlowObjectId) → ValueId → Option FlowObjectId
aliased_by [] f w = f w
aliased_by (setting value object ∷ calls) f w =
    aliased_by calls (λ x. if nat_beq value x then some object else f x) w
aliased_by (removing value ∷ calls) f w =
    aliased_by calls (λ x. if nat_beq value x then none else f x) w

module _ (t : AliasTable) (valid : IsCounted t) (value w : ValueId) where
  get-set :
      (object : FlowObjectId)
      → get w (set_alias value object t).0.values
        ≡ (if nat_beq value w then some object else get w t.values)
  get-set object =
      ap (get w) (set_alias-values value object t) ∙ elim (Bool-cases (nat_beq value w)) [
        | inl same ↦
            let e : value ≡ w = (nat_beq_iff value w).0 same in
            rw same (
              ap (λ x. get x (put value object t.values)) (sym e)
              ∙ get-put_same value object t.values valid.sorted)
        | inr other ↦
            rw other (get-put_other w value object t.values (λ e. ground (arith, e)) valid.sorted)
      ]

  get-remove :
      get w (remove_alias value t).0.values ≡ (if nat_beq value w then none else get w t.values)
  get-remove = elim (Option-cases (get value t.values)) [
    | inl nothing ↦
        let same : (remove_alias value t).0.values ≡ t.values =
          unfold remove_alias in rw (nothing, remove_alias) in
        ap (get w) same ∙ elim (Bool-cases (nat_beq value w)) [
          | inl here ↦
              let e : value ≡ w = (nat_beq_iff value w).0 here in
              rw here (ap (λ x. get x t.values) (sym e) ∙ nothing)
          | inr other ↦ rw other
        ]
    | inr (object, at) ↦
        ap (get w) (remove_alias-values value t at) ∙ elim (Bool-cases (nat_beq value w)) [
          | inl same ↦
              let e : value ≡ w = (nat_beq_iff value w).0 same in
              rw same (
                ap (λ x. get x (delete value t.values)) (sym e)
                ∙ get-delete_same value 0 t.values valid.sorted)
          | inr other ↦
              rw other (get-delete_other w value 0 t.values (λ e. ground (arith, e)) valid.sorted)
        ]
  ]

run-IsCounted : (calls : List Call) (t : AliasTable) → IsCounted t → IsCounted (run calls t)
unfolding run
run-IsCounted [] t c = c
run-IsCounted (setting value object ∷ calls) t c =
    run-IsCounted calls (set_alias value object t).0 (set_alias-IsCounted t c value object)
run-IsCounted (removing value ∷ calls) t c =
    run-IsCounted calls (remove_alias value t).0 (remove_alias-IsCounted t c value)

get-run :
    (calls : List Call) (t : AliasTable) (f : ValueId → Option FlowObjectId)
    → IsCounted t
    → ((w : ValueId) → get w t.values ≡ f w)
    → (w : ValueId) → get w (run calls t).values ≡ aliased_by calls f w
unfolding run aliased_by
get-run [] t f c h w = h w
get-run (setting value object ∷ calls) t f c h w =
    get-run calls (set_alias value object t).0 (λ x. if nat_beq value x then some object else f x)
      (set_alias-IsCounted t c value object)
      (λ x. get-set t c value x object ∙ ap (λ o. if nat_beq value x then some object else o) (h x))
      w
get-run (removing value ∷ calls) t f c h w =
    get-run calls (remove_alias value t).0 (λ x. if nat_beq value x then none else f x)
      (remove_alias-IsCounted t c value)
      (λ x. get-remove t c value x ∙ ap (λ o. if nat_beq value x then none else o) (h x)) w

-- An object with an alias is the object of some value.
value_of :
    (o : FlowObjectId) (values : List (ValueId × FlowObjectId))
    → IsMap values
    → 0 < aliases_of o values
    → (value : ValueId) × (get value values ≡ some o)
unfolding aliases_of
value_of o [] sorted h = absurd (omega arith)
value_of o ((v, p) ∷ values) (after, sorted) h = elim (Bool-cases (nat_beq p o)) [
  | inl same ↦ (v, get_hit v p [] values tt p ∙ ap some ((nat_beq_iff p o).0 same))
  | inr other ↦
      let (w, at) = value_of o values sorted (ground (arith, other, h)) in
      (
        w,
        get_past w v p values (λ e. cc (at, get_after v values after, ap (λ x. get x values) e))
              after
            ∙ at,
      )
]

-- After any sequence of `set` and `remove` on an empty table, `get` reads for each value the object
-- of the last call that names it, and `contains_object` holds exactly for the objects that some
-- value aliases by these calls.
pub run-aliased_by :
    (calls : List Call) (value : ValueId) (o : FlowObjectId)
    → (get_alias value (run calls no_aliases) ≡ aliased_by calls (λ w. none) value)
      × ((contains_object o (run calls no_aliases) ≡ true)
          ↔ ((w : ValueId) × (aliased_by calls (λ w. none) w ≡ some o)))
run-aliased_by calls value o =
    let t = run calls no_aliases in
    let counted = run-IsCounted calls no_aliases no_aliases-IsCounted in
    let reads =
      get-run calls no_aliases (λ w. none) no_aliases-IsCounted
        (λ w. unfold get binary_search_by_key in refl) in
    let index = contains_object-aliases t counted o in
    (
      reads value,
      (
        λ h.
            let (w, at) = value_of o t.values counted.sorted (index.0 h) in (w, sym (reads w) ∙ at),
        λ (w, at). index.1 (aliases_of_pos w o t.values counted.sorted (reads w ∙ at)),
      ),
    )
