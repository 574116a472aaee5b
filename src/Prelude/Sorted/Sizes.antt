-- ===== src/Prelude/Sorted/Sizes.antt =====
-- The size of a map after a write.
use glass_lint.Prelude.{
  ℕ, ◌+◌, ◌≡◌, ap, arith, Bool, true, false, Option, some, none, List, ◌∷◌, length, length-append,
  ◌∙◌,
}
use glass_lint.Prelude.Order.{Ord}
use glass_lint.Prelude.Sorted.{get, put}
use glass_lint.Prelude.Sorted.Maps.{IsMap, present, absent, keyed, put_hit, put_miss}

abbrev pub has {ℓ} : {A : Type ℓ} → Option A → Bool
has none = false
has (some a) = true

abbrev pub bit : Bool → ℕ
bit false = 0
bit true = 1

module _ {K V : Type 0} ⦃o : Ord K⦄ (k : K) (v : V) (m : List (K × V)) (sorted : IsMap m) where
  -- A write adds an entry unless the key has one.
  pub length-put : length (put k v m) + bit (has (get k m)) ≡ length m + 1
  length-put = elim (keyed k v m sorted) [
    | present ls rs w whole before after at ↦ omega (
      arith,
      ap (λ x. bit (has x)) at,
      ap length whole,
      ap length (ap (put k v) whole ∙ put_hit k v ls rs before w),
      length-append ls ((k, w) ∷ rs),
      length-append ls ((k, v) ∷ rs),
    )
    | absent ls rs whole before after at ↦ omega (
      arith,
      ap (λ x. bit (has x)) at,
      ap length whole,
      ap length (ap (put k v) whole ∙ put_miss k v ls rs before after),
      length-append ls rs,
      length-append ls ((k, v) ∷ rs),
    )
  ]
