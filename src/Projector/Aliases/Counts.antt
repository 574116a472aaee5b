-- ===== src/Projector/Aliases/Counts.antt =====
-- The numbers of aliases of each object, and the counts that follow them.
use glass_lint.Prelude.{
  ℕ, zero, suc, ◌+◌, ◌-◌, ◌≡◌, ◌≢◌, refl, sym, ap, ◌∙◌, subst, inl, inr, arith,
}
use glass_lint.Prelude.{
  Option, none, some, List, [], ◌∷◌, ◌++◌, nat_beq, if◌then◌else◌, nat_eq, ==_cases, Option-cases,
  Bool-cases, ◌<◌, some_injective,
}
use glass_lint.Prelude.Order.{nat_ord}
use glass_lint.Prelude.Sorted.{get, put, delete}
use glass_lint.Prelude.Sorted.Maps.{
  IsMap, present, absent, keyed, put-IsMap, delete-IsMap, get-put_same, get-delete_same, put_hit,
  put_miss, delete_hit,
}
use glass_lint.Prelude.Sorted.Extensional.{get-put_other, get-delete_other}
use glass_lint.Flow.State.{FlowObjectId}
use glass_lint.Projector.Aliases.{ValueId, ObjectRefCounts, increment, decrement}

-- One if the objects are the same.
abbrev pub one_if : FlowObjectId → FlowObjectId → ℕ
one_if a b = if nat_beq a b then 1 else 0

unfoldable pub aliases_of : FlowObjectId → List (ValueId × FlowObjectId) → ℕ
aliases_of object [] = 0
aliases_of object ((value, other) ∷ values) = one_if other object + aliases_of object values

abbrev pub counted : ℕ → Option ℕ
counted zero = none
counted (suc n) = some (suc n)

-- The counts are those of `c`, an object without any left out.
pub record Counts (refs : ObjectRefCounts) (c : FlowObjectId → ℕ) : Type 0 where
  pub sorted : IsMap refs
  pub counts : (object : FlowObjectId) → get object refs ≡ counted (c object)

aliases_of-append :
    (object : FlowObjectId) (ls rs : List (ValueId × FlowObjectId))
    → aliases_of object (ls ++ rs) ≡ aliases_of object ls + aliases_of object rs
unfolding aliases_of
aliases_of-append object [] rs = omega arith
aliases_of-append object ((v, o) ∷ ls) rs = omega (arith, aliases_of-append object ls rs)

module _ (value : ValueId) (object : FlowObjectId) (values : List (ValueId × FlowObjectId))
    (sorted : IsMap values) where
  pub aliases_of-put_new :
      get value values ≡ none
      → (o : FlowObjectId)
      → aliases_of o (put value object values) ≡ aliases_of o values + one_if object o
  unfolding aliases_of
  aliases_of-put_new new o = elim (keyed value object values sorted) [
    | present ls rs w whole before after at ↦ cc
    | absent ls rs whole before after at ↦ omega (
      arith,
      ap (aliases_of o) whole,
      ap (aliases_of o) (ap (put value object) whole ∙ put_miss value object ls rs before after),
      aliases_of-append o ls rs,
      aliases_of-append o ls ((value, object) ∷ rs),
    )
  ]

  pub aliases_of-put_old :
      (old : FlowObjectId)
      → get value values ≡ some old
      → (o : FlowObjectId)
      → aliases_of o (put value object values) + one_if old o
        ≡ aliases_of o values + one_if object o
  unfolding aliases_of
  aliases_of-put_old old there o = elim (keyed value object values sorted) [
    | absent ls rs whole before after at ↦ cc
    | present ls rs w whole before after at ↦
        let same : w ≡ old = some_injective (sym at ∙ there) in
        omega (
          arith,
          ap (aliases_of o) whole,
          ap (aliases_of o) (ap (put value object) whole ∙ put_hit value object ls rs before w),
          aliases_of-append o ls ((value, w) ∷ rs),
          aliases_of-append o ls ((value, object) ∷ rs),
          ap (λ x. one_if x o) same,
        )
  ]

  pub aliases_of-delete :
      (old : FlowObjectId)
      → get value values ≡ some old
      → (o : FlowObjectId) → aliases_of o (delete value values) + one_if old o ≡ aliases_of o values
  unfolding aliases_of
  aliases_of-delete old there o = elim (keyed value object values sorted) [
    | absent ls rs whole before after at ↦ cc
    | present ls rs w whole before after at ↦
        let same : w ≡ old = some_injective (sym at ∙ there) in
        omega (
          arith,
          ap (aliases_of o) whole,
          ap (aliases_of o) (ap (delete value) whole ∙ delete_hit value object ls rs before w),
          aliases_of-append o ls ((value, w) ∷ rs),
          aliases_of-append o ls rs,
          ap (λ x. one_if x o) same,
        )
  ]

counted_pos : (n : ℕ) → 0 < n → counted n ≡ some n
counted_pos zero h = absurd (omega arith)
counted_pos (suc n) h = refl

pub counted_zero : (n : ℕ) → counted n ≡ none → n ≡ 0
counted_zero zero h = refl
counted_zero (suc n) h = cc

pub counted_some : (n m : ℕ) → counted n ≡ some m → (n ≡ m) × (0 < m)
counted_some zero m h = cc
counted_some (suc n) m h = (some_injective h, omega (arith, some_injective h))

pub one_if_same : (a b : FlowObjectId) → b ≡ a → one_if a b ≡ 1
one_if_same a b h = ground arith

pub one_if_other : (a b : FlowObjectId) → b ≢ a → one_if a b ≡ 0
one_if_other a b h = ground arith

module _ (p : FlowObjectId) (refs : ObjectRefCounts) {c : FlowObjectId → ℕ} (d : FlowObjectId → ℕ)
    (h : Counts refs c) (others : (o : FlowObjectId) → o ≢ p → d o ≡ c o) where
  put-Counts : 0 < d p → Counts (put p (d p) refs) d
  put-Counts some_left = record {
    sorted = put-IsMap p (d p) refs h.sorted;
    counts = λ o. elim (==_cases o p) [
      | inl same ↦
          ap (λ x. get x (put p (d p) refs)) same
          ∙ get-put_same p (d p) refs h.sorted
          ∙ sym (counted_pos (d p) some_left)
          ∙ ap (λ x. counted (d x)) (sym same)
      | inr apart ↦
          get-put_other o p (d p) refs apart h.sorted
          ∙ h.counts o
          ∙ ap counted (sym (others o apart))
    ];
  }

  delete-Counts : d p ≡ 0 → Counts (delete p refs) d
  delete-Counts none_left = record {
    sorted = delete-IsMap p 0 refs h.sorted;
    counts = λ o. elim (==_cases o p) [
      | inl same ↦
          ap (λ x. get x (delete p refs)) same
          ∙ get-delete_same p 0 refs h.sorted
          ∙ ap counted (sym none_left)
          ∙ ap (λ x. counted (d x)) (sym same)
      | inr apart ↦
          get-delete_other o p 0 refs apart h.sorted
          ∙ h.counts o
          ∙ ap counted (sym (others o apart))
    ];
  }

module _ (p : FlowObjectId) (refs : ObjectRefCounts) (c d : FlowObjectId → ℕ)
    (h : Counts refs c) where
  pub increment-Counts : ((o : FlowObjectId) → d o ≡ c o + one_if p o) → Counts (increment p refs) d
  unfolding increment
  increment-Counts step =
      let others : (o : FlowObjectId) → o ≢ p → d o ≡ c o =
        λ o apart. omega (arith, step o, one_if_other p o apart) in
      let more : d p ≡ c p + 1 = omega (arith, step p, one_if_same p p refl) in
      elim (Option-cases (get p refs)) [
        | inl nothing ↦
            let old : c p ≡ 0 = counted_zero (c p) (sym (h.counts p) ∙ nothing) in
            let one : d p ≡ 1 = omega arith in
            rw (nothing, increment)
              (subst (λ n. Counts (put p n refs) d) one
                (put-Counts p refs d h others (omega arith)))
        | inr (n, at) ↦
            let old = counted_some (c p) n (sym (h.counts p) ∙ at) in
            let next : d p ≡ n + 1 = omega arith in
            rw (at, increment)
              (subst (λ n. Counts (put p n refs) d) next
                (put-Counts p refs d h others (omega arith)))
      ]

  pub decrement-Counts :
      0 < c p → ((o : FlowObjectId) → d o + one_if p o ≡ c o) → Counts (decrement p refs) d
  unfolding decrement
  decrement-Counts some_left step =
      let others : (o : FlowObjectId) → o ≢ p → d o ≡ c o =
        λ o apart. omega (arith, step o, one_if_other p o apart) in
      let fewer : d p + 1 ≡ c p = omega (arith, step p, one_if_same p p refl) in
      elim (Option-cases (get p refs)) [
        | inl nothing ↦
            let old : c p ≡ 0 = counted_zero (c p) (sym (h.counts p) ∙ nothing) in
            absurd (omega arith)
        | inr (n, at) ↦
            let old = counted_some (c p) n (sym (h.counts p) ∙ at) in
            let next : d p ≡ n - 1 = omega arith in
            elim (Bool-cases (nat_beq (n - 1) 0)) [
              | inl last ↦
                  rw (at, decrement) (rw last (delete-Counts p refs d h others (ground arith)))
              | inr left ↦
                  rw (at, decrement)
                    (rw left (
                      subst (λ n. Counts (put p n refs) d) next
                        (put-Counts p refs d h others (ground arith))))
            ]
      ]
